-- ===== src/Base/Texts.antt =====
-- Membership of texts, and Python's `max` with a key.
use Prim.Native.Nat.{ℕ, ◌≤◌}
use Prim.Native.String.{String}
use mathlib.Core.Path.{◌≡◌}
use mathlib.Core.Logic.{inl, inr}
use mathlib.Core.Bool.{Bool, true, false}
use mathlib.Core.List.{List, [], ◌∷◌}
use native.Mathlib.Omega.{arith}
use text.Mathlib.Text.{◌==◌ as ◌=s◌}
use osaip.Base.Tests.{ltb, if◌then◌else◌, Bool-cases, tests}
use osaip.Base.Lists.{All}

-- `text in texts`
abbrev pub contains : String → List String → Bool
contains s [] = false
contains s (t ∷ ts) = if t =s s then true else contains s ts

module _ {ℓ} {A : Type ℓ} (key : A → ℕ) where
  -- The loop of `max(x, *xs, key=key)`: the first of the greatest.
  abbrev pub max_from : A → List A → A
  max_from best [] = best
  max_from best (x ∷ xs) = max_from (if ltb (key best) (key x) then x else best) xs

  greater : A → A → A
  greater best x = if ltb (key best) (key x) then x else best

  greater-le : (best x : A) → (key best ≤ key (greater best x)) × (key x ≤ key (greater best x))
  unfolding greater
  greater-le best x = elim (Bool-cases (ltb (key best) (key x))) [
    | inl more ↦ rw more (omega tests)
    | inr less ↦ rw less (omega tests)
  ]

  -- The result of `max` is a bound.
  pub max_from-le :
      (best : A) (xs : List A) {m : A}
      → max_from best xs ≡ m
      → (key best ≤ key m) × All (λ x. key x ≤ key m) xs
  unfolding greater
  max_from-le best [] e = (rw e (omega arith), tt)
  max_from-le best (x ∷ xs) e =
      let (here, later) = max_from-le (greater best x) xs e in
      (omega (arith, (greater-le best x).0), (omega (arith, (greater-le best x).1), later))

  -- What holds of the candidates holds of the result.
  pub max_from-All :
      (P : A → Type 0) (best : A) (xs : List A) → P best → All P xs → P (max_from best xs)
  max_from-All P best [] h hs = h
  max_from-All P best (x ∷ xs) h hs = elim (Bool-cases (ltb (key best) (key x))) [
    | inl more ↦ rw more (max_from-All P x xs hs.0 hs.1)
    | inr less ↦ rw less (max_from-All P best xs h hs.1)
  ]
