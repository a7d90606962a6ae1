-- ===== src/Base/Sums.antt =====
-- Sums and counts over the rows that a condition selects.
use Prim.Native.Nat.{ℕ, ◌+◌, ◌≤◌}
use mathlib.Core.Path.{◌≡◌}
use mathlib.Core.Bool.{Bool, true}
use mathlib.Core.List.{List, [], ◌∷◌, ◌++◌}
use native.Mathlib.Omega.{arith}
use osaip.Base.Tests.{if◌then◌else◌}

module _ {ℓ} {A : Type ℓ} where
  -- `select(func.coalesce(func.sum(value), 0)).where(test)`; with 1 for the value, `func.count()`.
  abbrev pub sum_where : (A → Bool) → (A → ℕ) → List A → ℕ
  sum_where test value [] = 0
  sum_where test value (x ∷ xs) = (if test x then value x else 0) + sum_where test value xs

  pub sum_where-append :
      (test : A → Bool) (value : A → ℕ) (xs ys : List A)
      → sum_where test value (xs ++ ys) ≡ sum_where test value xs + sum_where test value ys
  sum_where-append test value [] ys = omega arith
  sum_where-append test value (x ∷ xs) ys = omega (arith, sum_where-append test value xs ys)

  -- A condition that selects fewer rows gives no larger sum.
  pub sum_where_mono :
      (test test' : A → Bool) (value : A → ℕ)
      → ((x : A) → test x ≡ true → test' x ≡ true)
      → (xs : List A) → sum_where test value xs ≤ sum_where test' value xs
  sum_where_mono test test' value h [] = omega arith
  sum_where_mono test test' value h (x ∷ xs) =
      ground (arith, h x, sum_where_mono test test' value h xs)
