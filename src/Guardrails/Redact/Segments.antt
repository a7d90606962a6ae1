-- ===== src/Guardrails/Redact/Segments.antt =====
-- The loop from right to left builds the text from left to right.
use mathlib.Core.Path.{ap₂}
use mathlib.Core.List.{append_assoc}
use osaip.Base.{
  ℕ, ◌-◌, ◌≤◌, ◌<◌, ◌≡◌, refl, ap, sym, ◌∙◌, List, [], ◌∷◌, ◌++◌, All, All-map_rule, length, take,
  drop, take-append_le, take-take, length-take_le, drop-append_exact_take, take-append-drop,
  take-append-take-drop, drop-drop, leb, lt→leb_false, Bool-cases, inl, inr, arith,
}
use osaip.Guardrails.Types.{Text, Detection, placeholder}
use osaip.Guardrails.Redact.{insert_desc, sort_desc, replace, replace_each, apply_redactions}

-- Non-empty spans inside a text of length `n`, from `pos` on, in document order and apart.
abbrev pub AreWithin : ℕ → ℕ → List Detection → Type 0
AreWithin n pos [] = Unit
AreWithin n pos (d ∷ ds) = (pos ≤ d.start) × (d.start < d.end) × (d.end ≤ n) × AreWithin n d.end ds

-- The text from `pos` on, with every detection replaced by its placeholder, left to right.
unfoldable pub segments : ℕ → Text → List Detection → Text
segments pos rest [] = rest
segments pos rest (d ∷ ds) =
    take (d.start - pos) rest ++ (placeholder d ++ segments d.end (drop (d.end - pos) rest) ds)

-- The loop, as a recursion that replaces the last detection first.
replace_all : Text → List Detection → Text
replace_all text [] = text
replace_all text (d ∷ ds) = replace (replace_all text ds) d

insert_desc-All :
    (P : Detection → Type 0) (d : Detection) (ds : List Detection)
    → P d
    → All P ds
    → All P (insert_desc d ds)
unfolding insert_desc
insert_desc-All P d [] p h = (p, tt)
insert_desc-All P d (e ∷ ds) p h = elim (Bool-cases (leb e.start d.start)) [
  | inl here ↦ rw here (p, h)
  | inr later ↦ rw later (h.0, insert_desc-All P d ds p h.1)
]

sort_desc-All : (P : Detection → Type 0) (ds : List Detection) → All P ds → All P (sort_desc ds)
unfolding sort_desc
sort_desc-All P [] h = tt
sort_desc-All P (d ∷ ds) h = insert_desc-All P d (sort_desc ds) h.0 (sort_desc-All P ds h.1)

-- A detection that starts before all others goes last.
insert_desc_last :
    (d : Detection) (ds : List Detection)
    → All (λ e. d.start < e.start) ds
    → insert_desc d ds ≡ ds ++ d ∷ []
unfolding insert_desc
insert_desc_last d [] h = refl
insert_desc_last d (e ∷ ds) h =
    rw (lt→leb_false d.start e.start h.0) (ap (λ t. e ∷ t) (insert_desc_last d ds h.1))

replace_each-append :
    (text : Text) (ds : List Detection) (d : Detection)
    → replace_each text (ds ++ d ∷ []) ≡ replace (replace_each text ds) d
unfolding replace_each
replace_each-append text [] d = refl
replace_each-append text (e ∷ ds) d = replace_each-append (replace text e) ds d

pub AreWithin-after :
    (n pos : ℕ) (ds : List Detection) → AreWithin n pos ds → All (λ e. pos ≤ e.start) ds
AreWithin-after n pos [] h = tt
AreWithin-after n pos (d ∷ ds) h =
    (h.0, All-map_rule (λ e le. omega arith) ds (AreWithin-after n d.end ds h.3))

replace_each-sort_desc :
    (text : Text) (n pos : ℕ) (ds : List Detection)
    → AreWithin n pos ds
    → replace_each text (sort_desc ds) ≡ replace_all text ds
unfolding replace_all sort_desc replace_each
replace_each-sort_desc text n pos [] h = refl
replace_each-sort_desc text n pos (d ∷ ds) h =
    let later =
      All-map_rule (λ (e : Detection) le. omega arith) ds (AreWithin-after n d.end ds h.3) in
    ap (replace_each text)
      (insert_desc_last d (sort_desc ds) (sort_desc-All (λ e. d.start < e.start) ds later))
    ∙ replace_each-append text (sort_desc ds) d
    ∙ ap (λ t. replace t d) (replace_each-sort_desc text n d.end ds h.3)

-- One replacement in a text whose part before `d.end` is still the original.
replace-suffix :
    (text rest : Text) (d : Detection)
    → d.start < d.end
    → d.end ≤ length text
    → replace (take d.end text ++ rest) d ≡ take d.start text ++ (placeholder d ++ rest)
unfolding replace
replace-suffix text rest d nonempty inside =
    let start_inside : d.start ≤ length (take d.end text) =
      rw (length-take_le d.end text inside) (omega arith) in
    ap₂ (λ a b. a ++ (placeholder d ++ b))
      (take-append_le d.start (take d.end text) rest start_inside
        ∙ take-take d.start d.end text (omega arith))
      (drop-append_exact_take d.end text rest inside)

replace_all-segments :
    (text : Text) (p : ℕ) (ds : List Detection)
    → AreWithin (length text) p ds
    → replace_all text ds ≡ take p text ++ segments p (drop p text) ds
unfolding replace_all segments
replace_all-segments text p [] h = sym (take-append-drop p text)
replace_all-segments text p (d ∷ ds) h =
    ap (λ t. replace t d) (replace_all-segments text d.end ds h.3)
    ∙ replace-suffix text (segments d.end (drop d.end text) ds) d h.1 h.2
    ∙ ap₂ (λ a b. a ++ (placeholder d ++ segments d.end b ds))
        (sym (take-append-take-drop p d.start text h.0))
        (sym (drop-drop p d.end text (omega arith)))
    ∙ append_assoc (take p text) (take (d.start - p) (drop p text)) _

-- When the detections are non-empty, apart, in document order and inside the text, replacing them
-- from right to left is copying the text from left to right with a placeholder for each of them.
pub apply_redactions-segments :
    (text : Text) (ds : List Detection)
    → AreWithin (length text) 0 ds
    → apply_redactions text ds ≡ segments 0 text ds
unfolding apply_redactions
apply_redactions-segments text ds h =
    replace_each-sort_desc text (length text) 0 ds h ∙ replace_all-segments text 0 ds h
