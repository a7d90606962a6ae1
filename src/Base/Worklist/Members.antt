-- ===== src/Base/Worklist/Members.antt =====
-- Membership in a joined list, and in one that a test has passed.
use Prim.Native.Nat.{ℕ}
use mathlib.Core.Path.{◌≡◌, refl, ap}
use mathlib.Core.Bool.{Bool, true, ◌||◌, ◌&&◌}
use mathlib.Core.List.{List, [], ◌∷◌, ◌++◌}
use native.Mathlib.Omega.{arith}
use osaip.Base.Tests.{◌==◌}
use osaip.Base.Lists.{keep}
use osaip.Base.Worklist.{member}

pub member-append : (x : ℕ) (ys zs : List ℕ) → member x (ys ++ zs) ≡ (member x ys || member x zs)
member-append x [] zs = refl
member-append x (y ∷ ys) zs = ground (arith, member-append x ys zs)

pub member-keep : (x : ℕ) (p : ℕ → Bool) (ys : List ℕ) → member x (keep p ys) ≡ (member x ys && p x)
member-keep x p [] = refl
member-keep x p (y ∷ ys) = ground (arith, member-keep x p ys, same)
  where
    same : (y == x) ≡ true → p y ≡ p x
    same h = ap p (ground (arith, h))
