-- ===== src/Base/Worklist/Reached.antt =====
-- What the walk finds is what can be reached.
use Prim.Native.Nat.{ℕ, zero, suc}
use mathlib.Core.Path.{◌≡◌, refl}
use mathlib.Core.Logic.{◌↔◌, inl, inr}
use mathlib.Core.Bool.{Bool, true, false, ◌||◌}
use mathlib.Core.List.{List, [], ◌∷◌}
use native.Mathlib.Omega.{arith}
use osaip.Base.Tests.{◌==◌, Bool-cases}
use osaip.Base.Worklist.{
  member, push_all, Walked, exhausted, stopped, out_of_fuel, walk, walk_each, and_then,
}

module _ (next : ℕ → List ℕ) (starts : List ℕ) where
  -- The nodes that a path leads to from one of the starts.
  pub data Reached : ℕ → Type 0 where
    start : {x : ℕ} → member x starts ≡ true → Reached x
    onward : {x y : ℕ} → Reached x → member y (next x) ≡ true → Reached y

member-push_all :
    (y : ℕ) (stack xs : List ℕ) → member y (push_all stack xs) ≡ (member y xs || member y stack)
unfolding push_all
member-push_all y stack [] = refl
member-push_all y stack (x ∷ xs) = ground (arith, member-push_all y (x ∷ stack) xs)

-- `base` holds the starts that the walk has been given so far.
module _ (stop : ℕ → Bool) (next : ℕ → List ℕ) (starts base : List ℕ) where
  -- Whatever is on the stack or seen can be reached.
  abbrev pub IsSound : List ℕ → List ℕ → Type 0
  IsSound stack seen =
      ((x : ℕ) → member x stack ≡ true → Reached next starts x)
      × ((x : ℕ) → member x seen ≡ true → Reached next starts x)

  -- The nodes seen do not stop the walk, and what comes next is seen or on the stack, as
  -- the starts given so far are.
  pub record IsOpen (stack seen : List ℕ) : Type 0 where
    pub passed : (x : ℕ) → member x seen ≡ true → stop x ≡ false
    pub closed :
        (x y : ℕ)
        → member x seen ≡ true
        → member y (next x) ≡ true
        → (member y seen || member y stack) ≡ true
    pub begun : (x : ℕ) → member x base ≡ true → (member x seen || member x stack) ≡ true

  IsSound-take :
      (x : ℕ) (stack seen : List ℕ)
      → IsSound (x ∷ stack) seen
      → IsSound (push_all stack (next x)) (x ∷ seen)
  IsSound-take x stack seen (onto, old) = (
    λ y m. elim (Bool-cases (member y (next x))) [
      | inl n ↦ onward (onto x (ground arith)) n
      | inr off ↦ onto y (ground (arith, member-push_all y stack (next x)))
    ],
    λ y m. elim (Bool-cases (x == y)) [
      | inl same ↦ onto y (ground arith)
      | inr other ↦ old y (ground arith)
    ],
  )

  IsOpen-take :
      (x : ℕ) (stack seen : List ℕ)
      → stop x ≡ false
      → IsOpen (x ∷ stack) seen
      → IsOpen (push_all stack (next x)) (x ∷ seen)
  IsOpen-take x stack seen goes h = record {
    passed = λ y m. ground (arith, h.passed y, goes);
    closed = λ y z m n. ground (arith, h.closed y z, member-push_all z stack (next x));
    begun = λ y m. ground (arith, h.begun y, member-push_all y stack (next x));
  }

  IsOpen-skip :
      (x : ℕ) (stack seen : List ℕ)
      → member x seen ≡ true
      → IsOpen (x ∷ stack) seen
      → IsOpen stack seen
  IsOpen-skip x stack seen old h = record {
    passed = h.passed;
    closed = λ y z m n. ground (arith, h.closed y z);
    begun = λ y m. ground (arith, h.begun y);
  }

  IsSound-skip : (x : ℕ) (stack seen : List ℕ) → IsSound (x ∷ stack) seen → IsSound stack seen
  IsSound-skip x stack seen (onto, old) = (λ y m. onto y (ground arith), old)

  walk_rule :
      (P : List ℕ → List ℕ → Type 0) (Q : Walked → Type 0)
      → ((x : ℕ) (stack seen : List ℕ) → P (x ∷ stack) seen → stop x ≡ true → Q (stopped x))
      → ((x : ℕ) (stack seen : List ℕ) → P (x ∷ stack) seen → member x seen ≡ true → P stack seen)
      → ((x : ℕ) (stack seen : List ℕ)
          → P (x ∷ stack) seen
          → stop x ≡ false
          → P (push_all stack (next x)) (x ∷ seen))
      → ((seen : List ℕ) → P [] seen → Q (exhausted seen))
      → Q out_of_fuel
      → (fuel : ℕ) (stack seen : List ℕ) → P stack seen
      → Q (walk stop next fuel stack seen)
  unfolding walk
  walk_rule P Q stops skips takes ends fuel_out fuel [] seen p = ends seen p
  walk_rule P Q stops skips takes ends fuel_out zero (x ∷ stack) seen p = fuel_out
  walk_rule P Q stops skips takes ends fuel_out (suc fuel) (x ∷ stack) seen p =
      elim (Bool-cases (stop x)) [
        | inl halt ↦ rw halt (stops x stack seen p halt)
        | inr goes ↦ elim (Bool-cases (member x seen)) [
          | inl old ↦
              rw (goes, old)
                (walk_rule P Q stops skips takes ends fuel_out fuel stack seen
                  (skips x stack seen p old))
          | inr new ↦
              rw (goes, new)
                (walk_rule P Q stops skips takes ends fuel_out fuel (push_all stack (next x))
                  (x ∷ seen) (takes x stack seen p goes))
        ]
      ]

  -- What is known once a walk is over.
  pub Over : Walked → Type 0
  Over (stopped x) = Reached next starts x × (stop x ≡ true)
  Over (exhausted seen) = IsSound [] seen × IsOpen [] seen
  Over out_of_fuel = Unit

  pub walk-Over :
      (fuel : ℕ) (stack seen : List ℕ)
      → IsSound stack seen
      → IsOpen stack seen
      → Over (walk stop next fuel stack seen)
  unfolding Over
  walk-Over fuel stack seen sound open_ =
      walk_rule (λ stack seen. IsSound stack seen × IsOpen stack seen) Over
        (λ x stack seen p halt. (p.0.0 x (ground arith), halt))
        (λ x stack seen p old. (IsSound-skip x stack seen p.0, IsOpen-skip x stack seen old p.1))
        (λ x stack seen p goes. (IsSound-take x stack seen p.0, IsOpen-take x stack seen goes p.1))
        (λ seen p. p) tt fuel stack seen (sound, open_)

  IsOpen-all :
      (seen : List ℕ)
      → IsOpen [] seen
      → ((x : ℕ) → member x starts ≡ true → member x base ≡ true)
      → (x : ℕ) → Reached next starts x
      → member x seen ≡ true
  IsOpen-all seen h given x (start m) = ground (arith, h.begun x (given x m))
  IsOpen-all seen h given y (onward {x} r m) =
      ground (arith, h.closed x y (IsOpen-all seen h given x r) m)

-- What the outcome of a walk from all the starts means.
unfoldable pub Means : (ℕ → Bool) → (ℕ → List ℕ) → List ℕ → Walked → Type 0
Means stop next starts (stopped x) = Reached next starts x × (stop x ≡ true)
Means stop next starts (exhausted seen) =
    ((x : ℕ) → (member x seen ≡ true) ↔ Reached next starts x)
    × ((x : ℕ) → Reached next starts x → stop x ≡ false)
Means stop next starts out_of_fuel = Unit

Over-Means :
    (stop : ℕ → Bool) (next : ℕ → List ℕ) (starts base : List ℕ)
    → ((x : ℕ) → member x starts ≡ true → member x base ≡ true)
    → (w : Walked) → Over stop next starts base w
    → Means stop next starts w
unfolding Over Means
Over-Means stop next starts base given (stopped x) h = h
Over-Means stop next starts base given (exhausted seen) h = (
  λ x. (h.0.1 x, IsOpen-all stop next starts base seen h.1 given x),
  λ x r. h.1.passed x (IsOpen-all stop next starts base seen h.1 given x r),
)
Over-Means stop next starts base given out_of_fuel h = tt

-- A walk from all the starts, with no node seen.
pub walk-Means :
    (stop : ℕ → Bool) (next : ℕ → List ℕ) (starts : List ℕ) (fuel : ℕ)
    → Means stop next starts (walk stop next fuel (push_all [] starts) [])
walk-Means stop next starts fuel =
    Over-Means stop next starts starts (λ x m. m) _
      (walk-Over stop next starts starts fuel (push_all [] starts) []
        (λ x m. start (ground (arith, member-push_all x [] starts)), λ x m. cc m)
        (record {
          passed = λ x m. cc m;
          closed = λ x y m n. cc m;
          begun = λ x m. ground (arith, m, member-push_all x [] starts);
        }))

and_then-Means :
    (stop : ℕ → Bool) (next : ℕ → List ℕ) (starts base : List ℕ) (w : Walked) (f : List ℕ → Walked)
    → Over stop next starts base w
    → ((seen : List ℕ)
        → IsSound stop next starts base [] seen
        → IsOpen stop next starts base [] seen
        → Means stop next starts (f seen))
    → Means stop next starts (and_then w f)
unfolding Over Means
and_then-Means stop next starts base (stopped x) f h k = h
and_then-Means stop next starts base (exhausted seen) f h k = k seen h.0 h.1
and_then-Means stop next starts base out_of_fuel f h k = tt

-- The starts are taken one after the other, with those taken so far in `base`.
walk_each-Over :
    (stop : ℕ → Bool) (next : ℕ → List ℕ) (starts : List ℕ) (fuel : ℕ) (xs base seen : List ℕ)
    → ((x : ℕ) → member x starts ≡ (member x xs || member x base))
    → IsSound stop next starts base [] seen
    → IsOpen stop next starts base [] seen
    → Means stop next starts (walk_each stop next fuel xs seen)
unfolding walk_each
walk_each-Over stop next starts fuel [] base seen split sound open_ =
    Over-Means stop next starts base (λ x m. ground (arith, split x)) (exhausted seen)
      (unfold Over in (sound, open_))
walk_each-Over stop next starts fuel (x ∷ xs) base seen split sound open_ =
    and_then-Means stop next starts (x ∷ base) (walk stop next fuel (x ∷ []) seen)
      (walk_each stop next fuel xs)
      (walk-Over stop next starts (x ∷ base) fuel (x ∷ []) seen
        (λ y m. start {x = y} (ground (arith, split y)), sound.1)
        (record {
          passed = open_.passed;
          closed = λ y z m n. ground (arith, open_.closed y z);
          begun = λ y m. ground (arith, open_.begun y);
        }))
      (λ seen' sound' open'.
        walk_each-Over stop next starts fuel xs (x ∷ base) seen' (λ y. ground (arith, split y))
          sound' open')

-- `any(search(x) for x in starts)`
pub walk_each-Means :
    (stop : ℕ → Bool) (next : ℕ → List ℕ) (starts : List ℕ) (fuel : ℕ)
    → Means stop next starts (walk_each stop next fuel starts [])
walk_each-Means stop next starts fuel =
    walk_each-Over stop next starts fuel starts [] [] (λ x. ground arith)
      ((λ x m. cc m), (λ x m. cc m))
      (record { passed = λ x m. cc m; closed = λ x y m n. cc m; begun = λ x m. cc m })
