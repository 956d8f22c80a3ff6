-- ===== src/Quotes/Contract/Visit.antt =====
-- The checks of the visit, the access, the household, the safety facts and the notes in
-- apps/api/src/quotes/website-quote-contract.ts.
use hestiva_os.Base.{String, Bool, false, not, ◌&&◌, Option, none, some, List, [], ◌∷◌, ◌++◌, when}
use hestiva_os.Base.Text.{is_blank, trim, split_dashes, digits_value}
use hestiva_os.Base.Eq.{string_eq}
use hestiva_os.Base.Pattern.{matches, iso_date_pattern}
use hestiva_os.Base.Json.{Value, string, Fields, get}
use hestiva_os.Quotes.Contract.Platform.{Platform}
use hestiva_os.Quotes.Contract.Fields.{
  WebsiteQuoteContractError, error, required_record, required_string, optional_string,
  required_boolean, enum_string, validate_optional_text_fields, checked_with, fails, has_text,
  is_text,
}

abbrev pub preferred_times : List String
preferred_times = "MORNING" ∷ "MIDDAY" ∷ "AFTERNOON" ∷ "FLEXIBLE" ∷ []

abbrev pub complex_access : List String
complex_access = "ACCESS_CODE" ∷ "NOT_APPLICABLE" ∷ "VISITOR_SIGN_IN" ∷ "RESIDENT_ARRANGED" ∷ []

abbrev pub key_handover : List String
key_handover = "SOMEONE_WILL_OPEN" ∷ "CONCIERGE_RECEPTION" ∷ "TO_BE_ARRANGED" ∷ []

unfoldable pub is_date_of : Platform → List String → Bool
unfolding digits_value
is_date_of platform (year ∷ month ∷ day ∷ []) =
    platform.is_utc_date (digits_value 0 year) (digits_value 0 month) (digits_value 0 day)
is_date_of platform _ = false

unfoldable pub is_calendar_date : Platform → String → Bool
unfolding matches split_dashes
is_calendar_date platform value =
    matches iso_date_pattern value && is_date_of platform (split_dashes value)

unfoldable pub visit_fields : Platform → Fields → List WebsiteQuoteContractError
unfolding required_string optional_string enum_string is_calendar_date
visit_fields platform visit =
    let preferred_date = required_string visit "preferredDate" "visit.preferredDate" in
    let alternative_date = optional_string visit "alternativeDate" "visit.alternativeDate" in
    preferred_date.errors
    ++ alternative_date.errors
    ++ (enum_string visit "preferredTime" "visit.preferredTime" preferred_times).errors
    ++ (required_string visit "flexibility" "visit.flexibility").errors
    ++ (required_string visit "urgency" "visit.urgency").errors
    ++ (optional_string visit "recurringNotes" "visit.recurringNotes").errors
    ++ when (fails preferred_date.value (λ s. not (is_calendar_date platform s))) (
        error "visit.preferredDate" "INVALID_DATE"
          "Preferred date must be a real calendar date using YYYY-MM-DD.")
    ++ when (fails alternative_date.value (λ s. not (is_calendar_date platform s))) (
        error "visit.alternativeDate" "INVALID_DATE"
          "Alternative date must be a real calendar date using YYYY-MM-DD.")

unfoldable pub visit_errors : Platform → Fields → List WebsiteQuoteContractError
unfolding required_record visit_fields
visit_errors platform payload =
    checked_with (required_record payload "visit" "visit") (visit_fields platform)

-- `typeof details === 'string' && details.trim()`
abbrev pub is_filled : Value → Bool
is_filled (string s) = not (is_blank (trim s))
is_filled _ = false

unfoldable pub access_fields : Fields → List WebsiteQuoteContractError
unfolding enum_string required_boolean validate_optional_text_fields get trim
access_fields access =
    let handover = enum_string access "keyHandover" "access.keyHandover" key_handover in
    (enum_string access "complexAccess" "access.complexAccess" complex_access).errors
    ++ validate_optional_text_fields access "access"
        ("securityInstructions" ∷ "parking" ∷ "keyHandoverDetails" ∷ [])
    ++ handover.errors
    ++ (required_boolean access "someonePresent" "access.someonePresent").errors
    ++ when
        (is_text "TO_BE_ARRANGED" handover.value
          && not (is_filled (get "keyHandoverDetails" access)))
        (error "access.keyHandoverDetails" "REQUIRED"
          "Key handover details are required when handover is to be arranged.")

unfoldable pub access_errors : Fields → List WebsiteQuoteContractError
unfolding required_record access_fields
access_errors payload = checked_with (required_record payload "access" "access") access_fields

-- `value === true`
abbrev pub is_true : Option Bool → Bool
is_true none = false
is_true (some b) = b

unfoldable pub household_fields : Fields → List WebsiteQuoteContractError
unfolding required_boolean optional_string trim
household_fields household =
    let has_pets = required_boolean household "hasPets" "household.hasPets" in
    let pet_type = optional_string household "petType" "household.petType" in
    let pet_temperament = optional_string household "petTemperament" "household.petTemperament" in
    has_pets.errors
    ++ pet_type.errors
    ++ pet_temperament.errors
    ++ when (is_true has_pets.value && not (has_text pet_type.value))
        (error "household.petType" "REQUIRED" "Pet type is required when pets are present.")
    ++ when (is_true has_pets.value && not (has_text pet_temperament.value)) (
        error "household.petTemperament" "REQUIRED"
          "Pet temperament is required when pets are present.")

unfoldable pub household_errors : Fields → List WebsiteQuoteContractError
unfolding required_record household_fields
household_errors payload =
    checked_with (required_record payload "household" "household") household_fields

unfoldable pub safety_errors : Fields → List WebsiteQuoteContractError
unfolding required_record validate_optional_text_fields
safety_errors payload = checked_with (required_record payload "safety" "safety") (λ safety.
    validate_optional_text_fields safety "safety" (
      "offLimitsAreas" ∷ "fragileItems" ∷ "productRestrictions" ∷ "allergiesOrSensitivities"
      ∷ "existingDamage" ∷ []))

unfoldable pub notes_errors : Fields → List WebsiteQuoteContractError
unfolding required_record validate_optional_text_fields
notes_errors payload = checked_with (required_record payload "notes" "notes") (λ notes.
    validate_optional_text_fields notes "notes"
      ("attentionAreas" ∷ "renovationDust" ∷ "applianceNotes" ∷ "additionalNotes" ∷ []))
