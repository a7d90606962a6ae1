-- ===== src/Base/Worklist.antt =====
-- A walk along a graph with a stack and a set of the nodes seen, as the API's graph code writes it.
pub mod Ends
pub mod Members
pub mod Reached
use osaip.Base.Tests.{◌==◌, if◌then◌else◌}
use osaip.Base.Lists.{any_of}
use Prim.Native.Nat.{ℕ, zero, suc}
use mathlib.Core.Bool.{Bool, true, false}
use mathlib.Core.List.{List, [], ◌∷◌}

-- `x in xs`
abbrev pub member : ℕ → List ℕ → Bool
member x xs = any_of (λ y. y == x) xs

-- `stack.extend(xs)`; the top of the stack is its first element.
unfoldable pub push_all : List ℕ → List ℕ → List ℕ
push_all stack [] = stack
push_all stack (x ∷ xs) = push_all (x ∷ stack) xs

pub data Walked : Type 0 where
  stopped : ℕ → Walked
  exhausted : List ℕ → Walked
  out_of_fuel : Walked

-- `while stack`: stop at a node that `stop` accepts, skip one that was seen, and go on to the next ones.
unfoldable pub walk : (ℕ → Bool) → (ℕ → List ℕ) → ℕ → List ℕ → List ℕ → Walked
walk stop next fuel [] seen = exhausted seen
walk stop next zero (x ∷ stack) seen = out_of_fuel
walk stop next (suc fuel) (x ∷ stack) seen =
    let skipped = walk stop next fuel stack seen in
    let taken = walk stop next fuel (push_all stack (next x)) (x ∷ seen) in
    if stop x then stopped x else if member x seen then skipped else taken

abbrev pub and_then : Walked → (List ℕ → Walked) → Walked
and_then (stopped x) f = stopped x
and_then (exhausted seen) f = f seen
and_then out_of_fuel f = out_of_fuel

-- `any(search(x) for x in xs)`, where the searches share the set of the nodes seen.
unfoldable pub walk_each : (ℕ → Bool) → (ℕ → List ℕ) → ℕ → List ℕ → List ℕ → Walked
unfolding walk
walk_each stop next fuel [] seen = exhausted seen
walk_each stop next fuel (x ∷ xs) seen =
    and_then (walk stop next fuel (x ∷ []) seen) (walk_each stop next fuel xs)
