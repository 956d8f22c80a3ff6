-- ===== src/Messaging/Facts/Payload.antt =====
-- What the passes over a submission read of its fields.
use hestiva_os.Base.{◌≡◌, ◌∙◌, refl, inl, inr, String, false, Bool-cases}
use text.Mathlib.TextEquality.{eq_iff}
use hestiva_os.Base.Text.{◌===◌}
use hestiva_os.Base.Json.{
  Value, undefined, null, boolean, number, fraction, string, array, object, Fields, no_field, field,
  get, put, has_key,
}
use hestiva_os.Base.Json.Laws.{get-put_same, get-put_other}
use hestiva_os.Quotes.Contract.Platform.{Platform}
use hestiva_os.Quotes.Contract.V2.{with_request, compatible_payload}
use hestiva_os.Quotes.Contract.BusinessFacts.{spread}

-- A key that the fields lack is read of the base.
pub get-spread_absent :
    (k : String) (base fields : Fields)
    → has_key k fields ≡ false
    → get k (spread base fields) ≡ get k base
unfolding spread has_key
get-spread_absent k base no_field h = refl
get-spread_absent k base (field key v rest) h = elim (Bool-cases (k === key)) [
  | inl e ↦ let same = rw e at h in cc
  | inr e ↦ get-put_other k key v (spread base rest) e ∙ get-spread_absent k base rest (rw e at h)
]

-- A key that the base lacks is read of the fields.
pub get-spread_fresh :
    (k : String) (base fields : Fields)
    → get k base ≡ undefined
    → get k (spread base fields) ≡ get k fields
unfolding spread get
get-spread_fresh k base no_field h = h
get-spread_fresh k base (field key v rest) h = elim (Bool-cases (k === key)) [
  | inl e ↦
      rw ((eq_iff k key).0 e) (get-put_same key v (spread base rest) ∙ rw ((eq_iff key key).1 refl))
  | inr e ↦ get-put_other k key v (spread base rest) e ∙ get-spread_fresh k base rest h ∙ rw e
]

module _ (platform : Platform) where
  get-with_request :
      (k : String) (v : Value) (payload : Fields)
      → (k === "request") ≡ false
      → get k (with_request platform v payload) ≡ get k payload
  unfolding with_request
  get-with_request k (object fields) payload h = get-put_other k "request" _ payload h
  get-with_request k undefined payload h = refl
  get-with_request k null payload h = refl
  get-with_request k (boolean _) payload h = refl
  get-with_request k (number _) payload h = refl
  get-with_request k (fraction _ _) payload h = refl
  get-with_request k (string _) payload h = refl
  get-with_request k (array _) payload h = refl

  pub get-compatible :
      (k : String) (payload : Fields)
      → (k === "request") ≡ false
      → (k === "schemaVersion") ≡ false
      → get k (compatible_payload platform payload) ≡ get k payload
  unfolding compatible_payload
  get-compatible k payload h h' =
      get-with_request k (get "request" payload) _ h
      ∙ get-put_other k "schemaVersion" (string "1.0") payload h'

  pub get-compatible_version :
      (payload : Fields) → get "schemaVersion" (compatible_payload platform payload) ≡ string "1.0"
  unfolding compatible_payload
  get-compatible_version payload =
      get-with_request "schemaVersion" (get "request" payload) _ refl
      ∙ get-put_same "schemaVersion" (string "1.0") payload

  -- A request that is no object is passed on as it is.
  pub get-compatible_missing :
      (v : Value) (payload : Fields)
      → get "request" payload ≡ v
      → with_request platform v (put "schemaVersion" (string "1.0") payload)
        ≡ put "schemaVersion" (string "1.0") payload
      → get "request" (compatible_payload platform payload) ≡ v
  unfolding compatible_payload
  get-compatible_missing v payload e same =
      rw e (rw same (get-put_other "request" "schemaVersion" (string "1.0") payload refl ∙ e))
