-- ===== src/Quotes/Intake/Canonical.antt =====
-- `canonicalize` and the fingerprints of apps/api/src/quotes/website-quote-idempotency.ts; the same
-- functions stand in apps/api/src/messaging/messaging-quote-replay-resolution.ts.
use hestiva_os.Base.{String}
use hestiva_os.Base.Json.{
  Value, undefined, null, boolean, number, fraction, string, array, object, Elements, none_left,
  element, Fields, no_field, field,
}

-- `Array.prototype.sort` of entries by their keys with `localeCompare`, and the SHA-256 of the text
-- of a value by `JSON.stringify`.
pub record Hashing : Type 0 where
  pub sort_entries : Fields → Fields
  pub digest : Value → String

module _ (h : Hashing) where
  -- The sort reads the keys alone, so the values may be made canonical before it.
  unfoldable mutual
    pub canonicalize : Value → Value
    canonicalize undefined = undefined
    canonicalize null = null
    canonicalize (boolean b) = boolean b
    canonicalize (number n) = number n
    canonicalize (fraction negative n) = fraction negative n
    canonicalize (string s) = string s
    canonicalize (array vs) = array (canonical_elements vs)
    canonicalize (object fs) = object (h.sort_entries (canonical_entries fs))

    pub canonical_elements : Elements → Elements
    canonical_elements none_left = none_left
    canonical_elements (element v vs) = element (canonicalize v) (canonical_elements vs)

    pub canonical_entries : Fields → Fields
    canonical_entries no_field = no_field
    canonical_entries (field k v fs) = field k (canonicalize v) (canonical_entries fs)

  unfoldable pub fingerprint : Value → String
  fingerprint v = h.digest (canonicalize v)
