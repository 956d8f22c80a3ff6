-- ===== src/Quotes/Contract/Fields.antt =====
-- The field tests of apps/api/src/quotes/website-quote-contract.ts. What `add` is called with is in
-- the list of errors, in order; the value is what the test returns.
use hestiva_os.Base.{
  String, Bool, true, false, not, ◌&&◌, Option, none, some, List, [], ◌∷◌, ◌++◌, if◌then◌else◌,
}
use hestiva_os.Base.Text.{◌===◌, ◌<+>◌, is_blank, trim}
use hestiva_os.Base.Eq.{contains, string_eq}
use hestiva_os.Base.Json.{Value, undefined, boolean, string, object, Fields, get}

pub record WebsiteQuoteContractError : Type 0 where
  pub path : String
  pub code : String
  pub message : String

abbrev pub error : String → String → String → WebsiteQuoteContractError
error p c m = record { path = p; code = c; message = m }

pub record Checked {ℓ} (A : Type ℓ) : Type ℓ where
  pub errors : List WebsiteQuoteContractError
  pub value : Option A

abbrev pub accepted {ℓ} : {A : Type ℓ} → A → Checked A
accepted a = record { errors = []; value = some a }

-- A field that may be left out.
abbrev pub left_out {ℓ} : {A : Type ℓ} → Checked A
left_out = record { errors = []; value = none }

abbrev pub rejected {ℓ} : {A : Type ℓ} → String → String → String → Checked A
rejected p c m = record { errors = error p c m ∷ []; value = none }

abbrev pub record_at : String → Value → Checked Fields
record_at path (object fs) = accepted fs
record_at path _ = rejected path "INVALID_OBJECT" (path <+> " must be an object.")

unfoldable pub required_record : Fields → String → String → Checked Fields
unfolding get
required_record parent key path = record_at path (get key parent)

abbrev pub string_at : String → Value → Checked String
string_at path (string s) =
    if is_blank (trim s)
    then rejected path "REQUIRED_STRING" (path <+> " must be a non-empty string.")
    else accepted s
string_at path _ = rejected path "REQUIRED_STRING" (path <+> " must be a non-empty string.")

unfoldable pub required_string : Fields → String → String → Checked String
unfolding get trim
required_string parent key path = string_at path (get key parent)

abbrev pub optional_string_at : String → Value → Checked String
optional_string_at path undefined = left_out
optional_string_at path (string s) = accepted s
optional_string_at path _ =
    rejected path "INVALID_STRING" (path <+> " must be a string when supplied.")

unfoldable pub optional_string : Fields → String → String → Checked String
unfolding get
optional_string parent key path = optional_string_at path (get key parent)

abbrev pub boolean_at : String → Value → Checked Bool
boolean_at path (boolean b) = accepted b
boolean_at path _ = rejected path "INVALID_BOOLEAN" (path <+> " must be a boolean.")

unfoldable pub required_boolean : Fields → String → String → Checked Bool
unfolding get
required_boolean parent key path = boolean_at path (get key parent)

abbrev pub optional_boolean_at : String → Value → Checked Bool
optional_boolean_at path undefined = left_out
optional_boolean_at path (boolean b) = accepted b
optional_boolean_at path _ =
    rejected path "INVALID_BOOLEAN" (path <+> " must be a boolean when supplied.")

unfoldable pub optional_boolean : Fields → String → String → Checked Bool
unfolding get
optional_boolean parent key path = optional_boolean_at path (get key parent)

abbrev pub enum_at : String → List String → Value → Checked String
enum_at path allowed (string s) =
    if contains allowed s
    then accepted s
    else rejected path "INVALID_ENUM" (path <+> " has an unsupported value.")
enum_at path allowed _ = rejected path "INVALID_ENUM" (path <+> " has an unsupported value.")

abbrev pub optional_enum_at : String → List String → Value → Checked String
optional_enum_at path allowed undefined = left_out
optional_enum_at path allowed v = enum_at path allowed v

unfoldable pub enum_string : Fields → String → String → List String → Checked String
unfolding get
enum_string parent key path allowed = enum_at path allowed (get key parent)

-- `enumString` where `optional` is true.
unfoldable pub optional_enum : Fields → String → String → List String → Checked String
unfolding get
optional_enum parent key path allowed = optional_enum_at path allowed (get key parent)

unfoldable pub validate_optional_text_fields :
    Fields → String → List String → List WebsiteQuoteContractError
unfolding optional_string
validate_optional_text_fields parent path [] = []
validate_optional_text_fields parent path (key ∷ keys) =
    (optional_string parent key (path <+> "." <+> key)).errors
    ++ validate_optional_text_fields parent path keys

-- `if (value) ...`: the checks of a value that is there.
abbrev pub given {ℓ} :
    {A : Type ℓ} → Option A → (A → List WebsiteQuoteContractError) → List WebsiteQuoteContractError
given none more = []
given (some a) more = more a

abbrev pub checked_with {ℓ} :
    {A : Type ℓ} → Checked A → (A → List WebsiteQuoteContractError) → List WebsiteQuoteContractError
checked_with c more = c.errors ++ given c.value more

-- `value && test(value)`, for a text.
abbrev pub fails : Option String → (String → Bool) → Bool
fails none test = false
fails (some s) test = not (is_blank s) && test s

-- `value?.trim()`
abbrev pub has_text : Option String → Bool
has_text none = false
has_text (some s) = not (is_blank (trim s))

-- `value === text`, for a text that may be undefined.
abbrev pub is_text : String → Option String → Bool
is_text t none = false
is_text t (some s) = s === t

-- `value === text`, for any value.
abbrev pub is_string : String → Value → Bool
is_string t (string s) = s === t
is_string t _ = false

abbrev pub is_undefined : Value → Bool
is_undefined undefined = true
is_undefined _ = false
