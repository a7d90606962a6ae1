-- ===== src/Guardrails/Json.antt =====
-- The values that `json.loads` yields. A float is not computed with: it enters by whether it is
-- zero, and by its text.
use osaip.Base.{String, Bool, true, false, not, Option, none, some, ◌=s◌, ◌==◌, if◌then◌else◌}
use osaip.Base.Int.{ℤ, pos, negsuc}

mutual
  pub data Json : Type 0 where
    null : Json
    bool : Bool → Json
    int : ℤ → Json
    float : Bool → String → Json
    str : String → Json
    arr : Items → Json
    obj : Fields → Json

  pub data Items : Type 0 where
    nil : Items
    cons : Json → Items → Items

  pub data Fields : Type 0 where
    end : Fields
    field : String → Json → Fields → Fields

-- `d.get(key)` of a dictionary.
unfoldable pub get : String → Fields → Option Json
get key end = none
get key (field k v fs) = if k =s key then some v else get key fs

-- `bool(value)`
unfoldable pub truthy : Option Json → Bool
truthy none = false
truthy (some null) = false
truthy (some (bool b)) = b
truthy (some (int (pos n))) = not (n == 0)
truthy (some (int (negsuc n))) = true
truthy (some (float is_zero text)) = not is_zero
truthy (some (str s)) = not (s =s "")
truthy (some (arr nil)) = false
truthy (some (arr (cons v vs))) = true
truthy (some (obj end)) = false
truthy (some (obj (field k v fs))) = true
