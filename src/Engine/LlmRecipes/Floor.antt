-- ===== src/Engine/LlmRecipes/Floor.antt =====
-- The label that a build declares to the mesh is as strict as every column it sends.
use osaip.Base.{
  ◌≤◌, String, true, false, ◌≡◌, refl, Option, none, some, List, [], ◌∷◌, map, All, All-map_rule,
  max_from-le, max_from-All, contains, arith, ◌=s◌, sym, ◌∙◌, ap,
}
use osaip.Guardrails.Sovereignty.{is_allowed}
use osaip.Guardrails.Sovereignty.Gate.{
  LabelCase, none_label, personal, special, bsn_label, unknown, label_case, reach, reach_antitone,
  allowed_for-unknown, is_allowed-unknown,
}
use osaip.Engine.LlmRecipes.{
  rank, rank_of, index, get, column_label, or_default, table_of, classification_floor,
}

or_default-named : (a default : String) → (a =s "") ≡ false → or_default (some a) default ≡ a
unfolding or_default
or_default-named a default e = rw e

index-unknown :
    (a : String)
    → (a =s "none") ≡ false
    → (a =s "persoonsgegevens") ≡ false
    → (a =s "bijzonder") ≡ false
    → (a =s "bsn") ≡ false
    → index a ≡ none
unfolding index
index-unknown a n p b s = rw (n, p, b, s)

rank-unknown :
    (a : String)
    → (a =s "") ≡ false
    → (a =s "none") ≡ false
    → (a =s "persoonsgegevens") ≡ false
    → (a =s "bijzonder") ≡ false
    → (a =s "bsn") ≡ false
    → rank a ≡ 4
unfolding rank
rank-unknown a e n p b s =
    ap (λ l. rank_of (index l)) (or_default-named a "none" e) ∙ ap rank_of (index-unknown a n p b s)

reach-rank :
    (a residency : String)
    → (a =s "") ≡ false
    → LabelCase a
    → is_allowed (some a) residency ≡ contains residency (reach (rank a))
unfolding is_allowed rank reach
reach-rank a r ne (none_label e) = rw e
reach-rank a r ne (personal e) = rw e
reach-rank a r ne (special e) = rw e
reach-rank a r ne (bsn_label e) = rw e
reach-rank a r ne (unknown n p b s) =
    is_allowed-unknown a r (allowed_for-unknown a n p b s)
    ∙ ap (λ k. contains r (reach k)) (sym (rank-unknown a ne n p b s))

-- A label of at most the rank of an admitted one is admitted too, unless it is empty.
is_allowed-rank :
    (a b residency : String)
    → (a =s "") ≡ false
    → (b =s "") ≡ false
    → rank a ≤ rank b
    → is_allowed (some b) residency ≡ true
    → is_allowed (some a) residency ≡ true
is_allowed-rank a b residency na nb le h =
    reach-rank a residency na (label_case a)
    ∙ reach_antitone (rank a) (rank b) residency le
        (sym (reach-rank b residency nb (label_case b)) ∙ h)

abbrev pub IsNamed : String → Type 0
IsNamed label = (label =s "") ≡ false

or_default-IsNamed :
    (label : Option String) (dataset : String)
    → IsNamed dataset
    → IsNamed (or_default label dataset)
unfolding or_default
or_default-IsNamed none dataset h = h
or_default-IsNamed (some label) dataset h = ground arith

column_labels-IsNamed :
    (labels : List (String × String)) (dataset : String) (columns : List String)
    → IsNamed dataset
    → All IsNamed (map (column_label labels dataset) columns)
unfolding column_label
column_labels-IsNamed labels dataset [] h = tt
column_labels-IsNamed labels dataset (c ∷ cs) h =
    (or_default-IsNamed (get c labels) dataset h, column_labels-IsNamed labels dataset cs h)

All-and : (P Q : String → Type 0) (xs : List String) → All P xs → All Q xs → All (λ x. P x × Q x) xs
All-and P Q [] p q = tt
All-and P Q (x ∷ xs) p q = ((p.0, q.0), All-and P Q xs p.1 q.1)

-- If the gate admits the derived label at a residency, it admits there the dataset's own label and
-- the label of every column that the template sends. The dataset's label is not the empty text.
pub classification_floor-is_allowed :
    (columns : List String) (labels : Option (List (String × String))) (dataset residency : String)
    → (dataset =s "") ≡ false
    → is_allowed (some (classification_floor columns labels dataset)) residency ≡ true
    → (is_allowed (some dataset) residency ≡ true)
      × All
          (λ label. is_allowed (some label) residency ≡ true)
          (map (column_label (table_of labels) dataset) columns)
unfolding classification_floor
classification_floor-is_allowed columns labels dataset residency named h =
    let sent = map (column_label (table_of labels) dataset) columns in
    let all_named = column_labels-IsNamed (table_of labels) dataset columns named in
    let floor_named = max_from-All rank IsNamed dataset sent named all_named in
    let (dataset_le, column_le) = max_from-le rank dataset sent refl in
    (
      is_allowed-rank dataset _ residency named floor_named dataset_le h,
      All-map_rule (λ label both. is_allowed-rank label _ residency both.0 floor_named both.1 h)
          sent (All-and IsNamed _ sent all_named column_le),
    )
