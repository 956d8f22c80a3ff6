-- ===== src/Messaging/Draft/Laws.antt =====
-- What a merge leaves as it was.
use hestiva_os.Base.{
  ◌≡◌, refl, arith, String, Bool, true, false, ◌||◌, ◌&&◌, List, [], ◌∷◌, inl, inr, Bool-cases,
}
use hestiva_os.Base.Text.{◌===◌}
use text.Mathlib.TextEquality.{eq_iff}
use hestiva_os.Base.Json.{
  fraction, Value, undefined, null, boolean, number, string, array, object, Fields, no_field, field,
  get, put, fields_of,
}
use hestiva_os.Base.Json.Laws.{get-put_same, get-put_other}
use hestiva_os.Messaging.Draft.{merge_progress_value, merge_fields}

-- The value at a path of keys.
unfoldable pub value_at : List String → Value → Value
value_at [] v = v
value_at (k ∷ path) v = value_at path (get k (fields_of v))

-- The patch says something about the path: it gives a value there, above it or below it.
unfoldable mutual
  pub reaches : List String → Value → Bool
  reaches [] v = true
  reaches (k ∷ path) (object patch) = reaches_in k path patch
  reaches (k ∷ path) _ = true

  pub reaches_in : String → List String → Fields → Bool
  reaches_in k path no_field = false
  reaches_in k path (field key v patch) = ((k === key) && reaches path v) || reaches_in k path patch

-- A field that is put leaves what stands at a path, if its value does where the path goes through it.
put-keeps :
    (base merged : Fields) (key k : String) (path : List String) (m : Value)
    → value_at path (get k merged) ≡ value_at path (get k base)
    → ((k === key) ≡ true → value_at path m ≡ value_at path (get key base))
    → value_at path (get k (put key m merged)) ≡ value_at path (get k base)
put-keeps base merged key k path m e kept = elim (Bool-cases (k === key)) [
  | inl here ↦
      let same = (eq_iff k key).0 here in rw same (rw (get-put_same key m merged) (kept here))
  | inr other ↦ rw (get-put_other k key m merged other) e
]

rest_missed : (a b c : Bool) → ((a && b) || c) ≡ false → c ≡ false
rest_missed a b c h = ground arith

entry_missed : (a b c : Bool) → a ≡ true → ((a && b) || c) ≡ false → b ≡ false
entry_missed a b c here h = ground arith

mutual
  unfolding value_at reaches reaches_in merge_progress_value merge_fields

  merge-keeps :
      (current patch : Value) (path : List String)
      → reaches path patch ≡ false
      → value_at path (merge_progress_value current patch) ≡ value_at path current
  merge-keeps current patch [] h = cc
  merge-keeps current undefined (k ∷ path) h = cc
  merge-keeps current null (k ∷ path) h = cc
  merge-keeps current (boolean _) (k ∷ path) h = cc
  merge-keeps current (number _) (k ∷ path) h = cc
  merge-keeps current (fraction _ _) (k ∷ path) h = cc
  merge-keeps current (string _) (k ∷ path) h = cc
  merge-keeps current (array _) (k ∷ path) h = cc
  merge-keeps current (object patch) (k ∷ path) h =
      merge_fields-keeps (fields_of current) (fields_of current) patch k path refl h

  merge_fields-keeps :
      (base merged patch : Fields) (k : String) (path : List String)
      → value_at path (get k merged) ≡ value_at path (get k base)
      → reaches_in k path patch ≡ false
      → value_at path (get k (merge_fields base merged patch)) ≡ value_at path (get k base)
  merge_fields-keeps base merged no_field k path e h = e
  merge_fields-keeps base merged (field key v patch) k path e h =
      merge_fields-keeps base (put key (merge_progress_value (get key base) v) merged) patch k path
        (put-keeps base merged key k path (merge_progress_value (get key base) v) e (λ here.
          merge-keeps (get key base) v path (entry_missed (k === key) (reaches path v) _ here h)))
        (rest_missed (k === key) (reaches path v) _ h)

-- A patch keeps the facts it does not name: at every path of keys for which it gives no value, at the
-- path, above it or below it, the merged draft holds what the draft held.
pub merge_progress_value-keeps :
    (current patch : Value) (path : List String)
    → reaches path patch ≡ false
    → value_at path (merge_progress_value current patch) ≡ value_at path current
merge_progress_value-keeps current patch path h = merge-keeps current patch path h
