-- ===== src/Quotes/Contract/PostEventFacts.antt =====
-- apps/api/src/quotes/post-event-cleaning-quote-facts.ts.
use hestiva_os.Base.{
  ℕ, suc, String, Bool, true, false, not, ◌||◌, List, [], ◌∷◌, ◌++◌, when, if◌then◌else◌,
}
use hestiva_os.Base.Text.{◌<+>◌, decimal}
use hestiva_os.Base.Eq.{contains, string_eq}
use hestiva_os.Base.Json.{
  Value, boolean, string, array, object, Elements, none_left, element, Fields, no_field, get,
}
use hestiva_os.Quotes.Contract.Fields.{
  WebsiteQuoteContractError, error, enum_string, is_string, is_undefined,
}
use hestiva_os.Quotes.Contract.Request.{is_positive_integer}

abbrev pub event_types : List String
event_types =
    "PARTY_BIRTHDAY" ∷ "WEDDING_RECEPTION" ∷ "FAMILY_GATHERING" ∷ "CORPORATE_EVENT"
    ∷ "FUNERAL_MEMORIAL" ∷ "OTHER" ∷ []

abbrev pub venue_types : List String
venue_types = "HOME" ∷ "APARTMENT" ∷ "BUSINESS_PREMISES" ∷ "EVENT_VENUE" ∷ "OTHER" ∷ []

abbrev pub guest_bands : List String
guest_bands =
    "ONE_TO_20" ∷ "FROM_21_TO_50" ∷ "FROM_51_TO_100" ∷ "FROM_101_TO_150" ∷ "FROM_150_UP" ∷ []

abbrev pub dishwashing_levels : List String
dishwashing_levels = "NONE" ∷ "MODERATE" ∷ "HEAVY" ∷ []

abbrev pub outdoor_areas : List String
outdoor_areas = "PATIO" ∷ "BALCONY" ∷ "BRAAI_AREA" ∷ "GARDEN_ENTERTAINMENT_AREA" ∷ []

abbrev pub waste_levels : List String
waste_levels = "LIGHT" ∷ "MODERATE" ∷ "HEAVY" ∷ []

abbrev pub post_event_boolean_fields : List String
post_event_boolean_fields =
    "kitchenSubstantiallyUsed" ∷ "significantOrdinarySoiling" ∷ "lateNightOrOvernight"
    ∷ "bulkWasteRemovalRequested" ∷ "specialistContamination" ∷ "specialistCarpetOrUpholstery"
    ∷ "complexVenue" ∷ []

-- `POST_EVENT_CLEANING_SERVICE`
abbrev pub post_event_cleaning_service : String
post_event_cleaning_service = "Post-Event Cleaning"

-- `isRecord(value) ? value : undefined`, with no fields for undefined: each reads as undefined.
abbrev pub record_fields : Value → Fields
record_fields (object fs) = fs
record_fields _ = no_field

unfoldable pub is_post_event_primary_service : Fields → Bool
unfolding get
is_post_event_primary_service request =
    let primary = record_fields (get "primaryService" request) in
    is_string post_event_cleaning_service (get "canonicalService" primary)
    || is_string post_event_cleaning_service (get "websiteValue" primary)

abbrev pub is_boolean : Value → Bool
is_boolean (boolean _) = true
is_boolean _ = false

-- `outdoorAreas.forEach(...)`, from an index and the areas seen before it.
unfoldable pub outdoor_area_errors : ℕ → List String → Elements → List WebsiteQuoteContractError
unfolding decimal
outdoor_area_errors index seen none_left = []
outdoor_area_errors index seen (element (string area) rest) =
    let path = "request.postEvent.outdoorAreas." <+> decimal index in
    let unsupported =
      error path "INVALID_ENUM" "Unsupported Post-Event outdoor area."
      ∷ outdoor_area_errors (suc index) seen rest in
    let duplicate =
      error path "DUPLICATE" "Duplicate Post-Event outdoor areas are not allowed."
      ∷ outdoor_area_errors (suc index) seen rest in
    let fresh = outdoor_area_errors (suc index) (area ∷ seen) rest in
    if not (contains outdoor_areas area)
    then unsupported
    else if contains seen area
    then duplicate
    else fresh
outdoor_area_errors index seen (element _ rest) =
    error ("request.postEvent.outdoorAreas." <+> decimal index) "INVALID_ENUM"
      "Unsupported Post-Event outdoor area."
    ∷ outdoor_area_errors (suc index) seen rest

unfoldable pub outdoor_areas_at : Value → List WebsiteQuoteContractError
unfolding outdoor_area_errors
outdoor_areas_at (array areas) = outdoor_area_errors 0 [] areas
outdoor_areas_at _ =
    error "request.postEvent.outdoorAreas" "INVALID_ARRAY"
      "Post-Event outdoor areas must be an array."
    ∷ []

-- `POST_EVENT_BOOLEAN_FIELDS.forEach(...)`
unfoldable pub boolean_field_errors : Fields → List String → List WebsiteQuoteContractError
unfolding get
boolean_field_errors post_event [] = []
boolean_field_errors post_event (key ∷ keys) =
    when (not (is_boolean (get key post_event))) (
      error ("request.postEvent." <+> key) "INVALID_BOOLEAN"
        ("request.postEvent." <+> key <+> " must be a boolean."))
    ++ boolean_field_errors post_event keys

-- The checks of the facts themselves.
unfoldable pub post_event_fields : Fields → List WebsiteQuoteContractError
unfolding enum_string get boolean_field_errors
post_event_fields post_event =
    (enum_string post_event "eventType" "request.postEvent.eventType" event_types).errors
    ++ (enum_string post_event "venueType" "request.postEvent.venueType" venue_types).errors
    ++ (enum_string post_event "guestBand" "request.postEvent.guestBand" guest_bands).errors
    ++ (enum_string post_event "dishwashing" "request.postEvent.dishwashing"
        dishwashing_levels).errors
    ++ (enum_string post_event "wasteLevel" "request.postEvent.wasteLevel" waste_levels).errors
    ++ when (not (is_positive_integer (get "bathrooms" post_event))) (
        error "request.postEvent.bathrooms" "INVALID_QUANTITY"
          "Post-Event bathroom count must be a positive whole number.")
    ++ outdoor_areas_at (get "outdoorAreas" post_event)
    ++ boolean_field_errors post_event post_event_boolean_fields

unfoldable pub post_event_at : Value → List WebsiteQuoteContractError
unfolding post_event_fields
post_event_at (object post_event) = post_event_fields post_event
post_event_at _ =
    error "request.postEvent" "INVALID_OBJECT"
      "Structured Post-Event facts are required for Post-Event Cleaning."
    ∷ []

unfoldable pub validate_post_event_request_facts : Fields → List WebsiteQuoteContractError
unfolding get
validate_post_event_request_facts request =
    let primary = record_fields (get "primaryService" request) in
    when
      (not (is_string post_event_cleaning_service (get "websiteValue" primary))
        || not (is_string post_event_cleaning_service (get "canonicalService" primary)))
      (error "request.primaryService" "INVALID_MAPPING"
        "Post-Event Cleaning must use the exact approved canonical Service mapping.")
    ++ when (not (is_string "ONE_TIME" (get "frequency" request))) (
        error "request.frequency" "INVALID_FOR_SERVICE"
          "Post-Event Cleaning is once-off only in v1.")
    ++ post_event_at (get "postEvent" request)

unfoldable pub validate_no_stray_post_event_facts : Fields → List WebsiteQuoteContractError
unfolding get
validate_no_stray_post_event_facts request = when (not (is_undefined (get "postEvent" request))) (
    error "request.postEvent" "POST_EVENT_SERVICE_MISMATCH"
      "Post-Event facts are valid only when Post-Event Cleaning is the selected primary Service.")
