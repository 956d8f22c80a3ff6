-- ===== src/Base/Json.antt =====
-- A JavaScript value that the source takes as `unknown`: JSON and `undefined`. An object is the list
-- of its own keys; a key that it lacks reads as `undefined`.
pub mod Laws
use Prim.Native.Nat.{ℕ}
use Prim.Native.String.{String}
use mathlib.Core.Bool.{Bool, true, false}
use hestiva_os.Base.Tests.{if◌then◌else◌}
use hestiva_os.Base.Text.{◌===◌}
use hestiva_os.Base.Number.{Number}

mutual
  pub data Value : Type 0 where
    undefined null : Value
    boolean : Bool → Value
    -- an integer, NaN or an infinity
    number : Number → Value
    -- a finite number that is no integer: whether it is negative, and the whole part of its size
    fraction : Bool → ℕ → Value
    string : String → Value
    array : Elements → Value
    object : Fields → Value

  pub data Elements : Type 0 where
    none_left : Elements
    element : Value → Elements → Elements

  pub data Fields : Type 0 where
    no_field : Fields
    field : String → Value → Fields → Fields

-- `base[key]`
unfoldable pub get : String → Fields → Value
get k no_field = undefined
get k (field k' v fs) = let rest = get k fs in if k === k' then v else rest

-- `Object.prototype.hasOwnProperty.call(fields, key)`
unfoldable pub has_key : String → Fields → Bool
has_key k no_field = false
has_key k (field k' v fs) = let rest = has_key k fs in if k === k' then true else rest

-- `merged[key] = value`
unfoldable pub put : String → Value → Fields → Fields
put k v no_field = field k v no_field
put k v (field k' v' fs) =
    let rest = field k' v' (put k v fs) in if k === k' then field k v fs else rest

-- `isPlainObject(current) ? current : {}`
unfoldable pub fields_of : Value → Fields
fields_of (object fs) = fs
fields_of _ = no_field
