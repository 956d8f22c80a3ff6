-- ===== src/Quotes/Contract/Platform.antt =====
-- What the validation of quotes calls of the JavaScript platform and of Node.
use hestiva_os.Base.{ℕ, String, Bool, List}
use hestiva_os.Base.Number.{Number}
use hestiva_os.Base.Json.{Value}

pub record Platform : Type 0 where
  -- `s.toLowerCase()`
  pub to_lower : String → String
  -- `String(value)`
  pub text_of : Value → String
  -- `Date.parse(s)`, of which `non_integer` is NaN
  pub parse_date : String → Number
  -- `new Date(time).toISOString()`
  pub to_iso : Number → String
  -- whether the parts of `new Date(Date.UTC(year, month - 1, day))` are the year, month and day
  pub is_utc_date : ℕ → ℕ → ℕ → Bool
  -- `Buffer.from(s, 'base64')`, its `toString('base64')`, and the SHA-256 of the bytes in lower case
  pub from_base64 : String → List ℕ
  pub to_base64 : List ℕ → String
  pub sha256_hex : List ℕ → String
