-- ===== src/Base/Json.antt =====
-- The values of Python that JSON can write: what the services exchange as `Dict[str, Any]`.
use mathlib.Core.Path.{◌≡◌, refl}
use mathlib.Core.Bool.{Bool, true, false}
use mathlib.Core.Option.{Option, none, some}
use Prim.Native.Nat.{ℕ}
use Prim.Native.String.{String}
use native.Mathlib.Omega.{arith}
use text.Mathlib.TextEquality.{eq_iff}
use cobalto.Base.Tests.{nat_eq, string_eq, ◌==◌, if◌then◌else◌}

mutual
  pub data Value : Type 0 where
    null : Value
    bool : Bool → Value
    num : ℕ → Value
    str : String → Value
    -- m / 10ᵏ
    decimal : ℕ → ℕ → Value
    list : Items → Value
    obj : Fields → Value

  -- A dict with string keys, in insertion order.
  pub data Fields : Type 0 where
    end : Fields
    field : String → Value → Fields → Fields

  pub data Items : Type 0 where
    cons : Value → Items → Items
    nil : Items

-- d.get(k)
unfoldable pub get_field : String → Fields → Option Value
get_field k end = none
get_field k (field j v fs) = let rest = get_field k fs in if j == k then some v else rest

-- d.get(k, default)
or_value : Option Value → Value → Value
or_value none d = d
or_value (some v) d = v

unfoldable pub get_field_or : String → Value → Fields → Value
unfolding get_field or_value
get_field_or k d fs = or_value (get_field k fs) d

-- d[k] = v
unfoldable pub set_field : String → Value → Fields → Fields
set_field k v end = field k v end
set_field k v (field j w fs) =
    let rest = set_field k v fs in if j == k then field j v fs else field j w rest

pub get_field-set_field :
    (k j : String) (v : Value) (fs : Fields)
    → get_field j (set_field k v fs) ≡ (if k == j then some v else get_field j fs)
unfolding get_field set_field
get_field-set_field k j v end = refl
get_field-set_field k j v (field i w fs) =
    ground (arith, eq_iff k j, eq_iff i k, eq_iff i j, get_field-set_field k j v fs)

-- v == "…"
unfoldable pub is_text : String → Value → Bool
is_text s (str t) = t == s
is_text s _ = false

-- bool(v)
unfoldable pub truthy : Value → Bool
truthy null = false
truthy (bool b) = b
truthy (num n) = if n == 0 then false else true
truthy (str s) = if s == "" then false else true
truthy (decimal m k) = if m == 0 then false else true
truthy (list nil) = false
truthy (list (cons v vs)) = true
truthy (obj end) = false
truthy (obj (field k v fs)) = true
