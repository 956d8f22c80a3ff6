-- ===== src/Base/Json/Laws.antt =====
-- What is read of a field that has been put, and of the others.
use Prim.Native.String.{String}
use mathlib.Core.Path.{◌≡◌, refl, ap}
use mathlib.Core.Bool.{false}
use mathlib.Core.Logic.{inl, inr}
use text.Mathlib.TextEquality.{eq_iff}
use hestiva_os.Base.Tests.{Bool-cases, if◌then◌else◌}
use hestiva_os.Base.Text.{◌===◌}
use hestiva_os.Base.Json.{Value, Fields, no_field, field, get, put}

pub get-put_same : (k : String) (v : Value) (fs : Fields) → get k (put k v fs) ≡ v
unfolding get put
get-put_same k v no_field = rw ((eq_iff k k).1 refl) refl
get-put_same k v (field k' v' fs) = elim (Bool-cases (k === k')) [
  | inl e ↦ rw e (rw ((eq_iff k k).1 refl) refl)
  | inr e ↦ rw e (rw e (get-put_same k v fs))
]

pub get-put_other :
    (k key : String) (v : Value) (fs : Fields)
    → (k === key) ≡ false
    → get k (put key v fs) ≡ get k fs
unfolding get put
get-put_other k key v no_field h = rw h refl
get-put_other k key v (field k' v' fs) h = elim (Bool-cases (key === k')) [
  | inl e ↦ rw e (rw h (rw (← (eq_iff key k').0 e) (rw h refl)))
  | inr e ↦ rw e (ap (λ r. if k === k' then v' else r) (get-put_other k key v fs h))
]
