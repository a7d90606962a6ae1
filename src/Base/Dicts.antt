-- ===== src/Base/Dicts.antt =====
-- Python dictionaries with number keys, as lists of pairs: the first pair of a key counts.
use osaip.Base.Tests.{◌==◌, if◌then◌else◌}
use Prim.Native.Nat.{ℕ}
use mathlib.Core.Option.{Option, none, some}
use mathlib.Core.List.{List, [], ◌∷◌}

-- `d.get(key)`
abbrev pub get_key : {A : Type 0} → ℕ → List (ℕ × A) → Option A
get_key key [] = none
get_key key ((k, v) ∷ pairs) = if k == key then some v else get_key key pairs

-- `d.get(key, [])`
abbrev pub get_list : {A : Type 0} → ℕ → List (ℕ × List A) → List A
get_list key [] = []
get_list key ((k, v) ∷ pairs) = if k == key then v else get_list key pairs

abbrev pub keys : {A : Type 0} → List (ℕ × A) → List ℕ
keys [] = []
keys ((k, v) ∷ pairs) = k ∷ keys pairs
