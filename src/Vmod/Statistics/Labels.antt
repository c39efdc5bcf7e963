-- ===== src/Vmod/Statistics/Labels.antt =====
-- The labels of the metrics of .stats() of src/vmod_redis.c as lists of labels.
use mathlib.Core.List.{append-nil, append_assoc}
use libvmod_redis.Base.{
  ◌≡◌, refl, ap, sym, ◌∙◌, Bool, true, false, Option, none, some, List, [], ◌∷◌, ◌++◌, Str,
}
use libvmod_redis.Core.Serialize.{codes}
use libvmod_redis.Vmod.Databases.{not_empty}
use libvmod_redis.Vmod.Statistics.{extra_labels, default_labels, separator_of}

-- A label, and labels with commas between them.
abbrev pub label : Str → Str → Str
label key value = key ++ (codes "=\"" ++ (value ++ codes "\""))

unfoldable pub commas : List Str → Str
commas [] = []
commas (l ∷ []) = l
commas (l ∷ m ∷ ls) = l ++ (44 ∷ commas (m ∷ ls))

-- The labels that are asked for, if any, and that of the database, if it is asked for.
abbrev pub asked_label : Option Str → List Str
asked_label (some (c ∷ cs)) = (c ∷ cs) ∷ []
asked_label _ = []

abbrev pub own_label : Bool → Str → List Str
own_label false name = []
own_label true name = label (codes "name") name ∷ []

abbrev pub labels_of : Option Str → Bool → Str → List Str
labels_of extra default name = asked_label extra ++ own_label default name

-- Labels and a separator print the list `ls`, and one more label after it.
pub record IsSplit (labels separator : Str) (ls : List Str) : Type 0 where
  pub whole : labels ≡ commas ls
  pub more : (l rest : Str) → labels ++ (separator ++ (l ++ rest)) ≡ commas (ls ++ (l ∷ [])) ++ rest

commas-append :
    (m : Str) (ls : List Str) (l : Str)
    → commas (m ∷ (ls ++ (l ∷ []))) ≡ commas (m ∷ ls) ++ (44 ∷ l)
unfolding commas
commas-append m [] l = refl
commas-append m (n ∷ ls) l =
    ap (λ t. m ++ (44 ∷ t)) (commas-append n ls l)
    ∙ sym (append_assoc m (44 ∷ commas (n ∷ ls)) (44 ∷ l))

comma-IsSplit :
    (labels m : Str) (ls : List Str) → labels ≡ commas (m ∷ ls) → IsSplit labels (44 ∷ []) (m ∷ ls)
comma-IsSplit labels m ls e = record {
  whole = e;
  more = λ l rest.
      ap (λ t. t ++ (44 ∷ (l ++ rest))) e
      ∙ sym (append_assoc (commas (m ∷ ls)) (44 ∷ l) rest)
      ∙ ap (λ t. t ++ rest) (sym (commas-append m ls l));
}

pub labels_of-IsSplit :
    (extra : Option Str) (default : Bool) (name : Str)
    → IsSplit
        (extra_labels (not_empty extra) default ++ default_labels default name)
        (separator_of (extra_labels (not_empty extra) default ++ default_labels default name))
        (labels_of extra default name)
unfolding commas
labels_of-IsSplit none false name = record { whole = refl; more = λ l rest. refl }
labels_of-IsSplit none true name = comma-IsSplit _ (label (codes "name") name) [] refl
labels_of-IsSplit (some []) false name = record { whole = refl; more = λ l rest. refl }
labels_of-IsSplit (some []) true name = comma-IsSplit _ (label (codes "name") name) [] refl
labels_of-IsSplit (some (c ∷ cs)) false name =
    comma-IsSplit _ (c ∷ cs) [] (append-nil ((c ∷ cs) ++ []) ∙ append-nil (c ∷ cs))
labels_of-IsSplit (some (c ∷ cs)) true name =
    comma-IsSplit _ (c ∷ cs) (label (codes "name") name ∷ [])
      (append_assoc (c ∷ cs) (codes ",") (label (codes "name") name))

-- A label before the end of a sample.
pub label-append :
    (value rest : Str)
    → label (codes "reason") value ++ rest ≡ codes "reason=\"" ++ (value ++ (34 ∷ rest))
label-append value rest = ap (λ t. codes "reason=\"" ++ t) (append_assoc value (codes "\"") rest)
