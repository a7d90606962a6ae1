-- ===== src/Base/Worklist/Ends.antt =====
-- The walk ends: a round takes a node off the stack, and pushes the next ones of a node once.
use Prim.Native.Nat.{ℕ, zero, suc, ◌+◌, ◌≤◌}
use mathlib.Core.Path.{◌≡◌}
use mathlib.Core.Logic.{◌≢◌, inl, inr}
use mathlib.Core.Bool.{Bool, true, false}
use mathlib.Core.List.{List, [], ◌∷◌}
use native.Mathlib.Omega.{arith}
use osaip.Base.Tests.{if◌then◌else◌, Bool-cases}
use osaip.Base.Lists.{length}
use osaip.Base.Worklist.{
  member, push_all, Walked, exhausted, stopped, out_of_fuel, walk, walk_each, and_then,
}

-- How much the nodes that were not seen may still push.
unfoldable pub weight : (ℕ → List ℕ) → List ℕ → List ℕ → ℕ
weight next seen [] = 0
weight next seen (n ∷ nodes) =
    (if member n seen then 0 else length (next n)) + weight next seen nodes

pub length-push_all : (stack xs : List ℕ) → length (push_all stack xs) ≡ length stack + length xs
unfolding push_all
length-push_all stack [] = omega arith
length-push_all stack (x ∷ xs) = omega (arith, length-push_all (x ∷ stack) xs)

and_then_ends :
    (w : Walked) (f : List ℕ → Walked)
    → w ≢ out_of_fuel
    → ((seen : List ℕ) → f seen ≢ out_of_fuel)
    → and_then w f ≢ out_of_fuel
and_then_ends (stopped y) f ends h = cc
and_then_ends (exhausted seen) f ends h = h seen
and_then_ends out_of_fuel f ends h = ends

module _ (next : ℕ → List ℕ) where
  weight_mono :
      (x : ℕ) (seen nodes : List ℕ) → weight next (x ∷ seen) nodes ≤ weight next seen nodes
  unfolding weight
  weight_mono x seen [] = omega arith
  weight_mono x seen (n ∷ nodes) = ground (arith, weight_mono x seen nodes)

  weight-seen :
      (x : ℕ) (seen nodes : List ℕ)
      → member x seen ≡ false
      → member x nodes ≡ true
      → weight next (x ∷ seen) nodes + length (next x) ≤ weight next seen nodes
  unfolding weight
  weight-seen x seen [] new listed = cc listed
  weight-seen x seen (n ∷ nodes) new listed =
      ground (arith, weight_mono x seen nodes, weight-seen x seen nodes new)

  pub walk_ends :
      (stop : ℕ → Bool) (nodes : List ℕ)
      → ((x : ℕ) → member x nodes ≡ false → length (next x) ≡ 0)
      → (fuel : ℕ) (stack seen : List ℕ) → length stack + weight next seen nodes ≤ fuel
      → walk stop next fuel stack seen ≢ out_of_fuel
  unfolding walk
  walk_ends stop nodes leaf fuel [] seen h = cc
  walk_ends stop nodes leaf zero (x ∷ stack) seen h = absurd (omega arith)
  walk_ends stop nodes leaf (suc fuel) (x ∷ stack) seen h = elim (Bool-cases (stop x)) [
    | inl stops ↦ rw stops (cc)
    | inr goes ↦ elim (Bool-cases (member x seen)) [
      | inl old ↦ rw (goes, old) (walk_ends stop nodes leaf fuel stack seen (omega arith))
      | inr new ↦
          rw (goes, new)
            (walk_ends stop nodes leaf fuel (push_all stack (next x)) (x ∷ seen)
              (omega (arith, length-push_all stack (next x), pays x new)))
    ]
  ]
    where
      pays :
          (x : ℕ)
          → member x seen ≡ false
          → weight next (x ∷ seen) nodes + length (next x) ≤ weight next seen nodes
      pays x new = elim (Bool-cases (member x nodes)) [
        | inl listed ↦ weight-seen x seen nodes new listed
        | inr absent ↦ omega (arith, leaf x absent, weight_mono x seen nodes)
      ]

  weight-none : (seen nodes : List ℕ) → weight next seen nodes ≤ weight next [] nodes
  unfolding weight
  weight-none seen [] = omega arith
  weight-none seen (n ∷ nodes) = ground (arith, weight-none seen nodes)

  pub walk_each_ends :
      (stop : ℕ → Bool) (nodes : List ℕ)
      → ((x : ℕ) → member x nodes ≡ false → length (next x) ≡ 0)
      → (fuel : ℕ) (xs seen : List ℕ) → suc (weight next [] nodes) ≤ fuel
      → walk_each stop next fuel xs seen ≢ out_of_fuel
  unfolding walk_each
  walk_each_ends stop nodes leaf fuel [] seen h = cc
  walk_each_ends stop nodes leaf fuel (x ∷ xs) seen h =
      and_then_ends (walk stop next fuel (x ∷ []) seen) (walk_each stop next fuel xs)
        (walk_ends stop nodes leaf fuel (x ∷ []) seen (omega (arith, weight-none seen nodes)))
        (λ seen'. walk_each_ends stop nodes leaf fuel xs seen' h)
