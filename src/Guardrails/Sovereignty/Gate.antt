-- ===== src/Guardrails/Sovereignty/Gate.antt =====
-- The gate as a ladder: what each classification may reach.
use osaip.Base.{
  ℕ, zero, suc, String, true, false, ◌≡◌, ap, inl, inr, Option, none, some, List, [], ◌∷◌, contains,
  ◌≤◌, arith, eq_iff, ◌=s◌, Bool-cases, if◌then◌else◌,
}
use osaip.Guardrails.Types.{GuardrailEvent, allow, block, residency}
use osaip.Guardrails.Sovereignty.{
  allowed_for, normalise_classification, in_allowed, is_allowed, check_residency,
}

-- The four known labels, or none of them.
pub data LabelCase (a : String) : Type 0 where
  none_label : a ≡ "none" → LabelCase a
  personal : a ≡ "persoonsgegevens" → LabelCase a
  special : a ≡ "bijzonder" → LabelCase a
  bsn_label : a ≡ "bsn" → LabelCase a
  unknown :
      (a =s "none") ≡ false
      → (a =s "persoonsgegevens") ≡ false
      → (a =s "bijzonder") ≡ false
      → (a =s "bsn") ≡ false
      → LabelCase a

pub label_case : (a : String) → LabelCase a
label_case a = elim (Bool-cases (a =s "none")) [
  | inl e ↦ none_label ((eq_iff a "none").0 e)
  | inr n ↦ elim (Bool-cases (a =s "persoonsgegevens")) [
    | inl e ↦ personal ((eq_iff a "persoonsgegevens").0 e)
    | inr p ↦ elim (Bool-cases (a =s "bijzonder")) [
      | inl e ↦ special ((eq_iff a "bijzonder").0 e)
      | inr b ↦ elim (Bool-cases (a =s "bsn")) [
        | inl e ↦ bsn_label ((eq_iff a "bsn").0 e)
        | inr s ↦ unknown n p b s
      ]
    ]
  ]
]

-- The event of the gate for a declaration that is treated as `bijzonder`.
abbrev pub unknown_event : Option String → String → Option String → GuardrailEvent
unknown_event declared residency_of name = record {
  stage = "pre";
  rule = "cp11.residency";
  action = if "local" =s residency_of then allow else block;
  details = residency "bijzonder" declared residency_of name;
}

-- The residencies that a rung of the ladder may reach.
unfoldable pub reach : ℕ → List String
reach zero = "local" ∷ "eu" ∷ "external" ∷ []
reach (suc zero) = "local" ∷ "eu" ∷ []
reach (suc (suc n)) = "local" ∷ []

-- A higher rung reaches no more than a lower one.
pub reach_antitone :
    (n m : ℕ) (place : String)
    → n ≤ m
    → contains place (reach m) ≡ true
    → contains place (reach n) ≡ true
unfolding reach
reach_antitone zero zero r le h = h
reach_antitone zero (suc zero) r le h = ground arith
reach_antitone zero (suc (suc m)) r le h = ground arith
reach_antitone (suc n) zero r le h = absurd (omega arith)
reach_antitone (suc zero) (suc zero) r le h = h
reach_antitone (suc zero) (suc (suc m)) r le h = ground arith
reach_antitone (suc (suc n)) (suc zero) r le h = absurd (omega arith)
reach_antitone (suc (suc n)) (suc (suc m)) r le h = h

normalise_unknown :
    (value : String)
    → allowed_for value ≡ none
    → normalise_classification (some value) ≡ "bijzonder"
unfolding normalise_classification
normalise_unknown value h = ground (arith, h)

pub allowed_for-unknown :
    (a : String)
    → (a =s "none") ≡ false
    → (a =s "persoonsgegevens") ≡ false
    → (a =s "bijzonder") ≡ false
    → (a =s "bsn") ≡ false
    → allowed_for a ≡ none
unfolding allowed_for
allowed_for-unknown a n p b s = rw (n, p, b, s)

pub is_allowed-unknown :
    (a place : String)
    → allowed_for a ≡ none
    → is_allowed (some a) place ≡ contains place ("local" ∷ [])
unfolding is_allowed
is_allowed-unknown a place h = ap (λ c. in_allowed place (allowed_for c)) (normalise_unknown a h)

-- A declaration that is missing or not on the ladder fails closed: the call passes the gate only
-- to a local connection, and the event records `bijzonder` and whether the call passed.
pub check_residency_unknown :
    (value place : String) (name : Option String)
    → allowed_for value ≡ none
    → (check_residency (some value) place name
        ≡ ("local" =s place, unknown_event (some value) place name))
      × (check_residency none place name ≡ ("local" =s place, unknown_event none place name))
unfolding check_residency
check_residency_unknown value place name h =
    (rw (normalise_unknown value h) (ground arith), ground arith)
