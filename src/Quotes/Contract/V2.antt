-- ===== src/Quotes/Contract/V2.antt =====
-- `validateWebsiteQuoteSubmissionV2` of apps/api/src/quotes/website-quote-contract-v2.ts.
use hestiva_os.Base.{
  ℕ, suc, String, Bool, true, false, not, ◌&&◌, ◌||◌, Option, none, some, List, [], ◌∷◌, ◌++◌, when,
  map, if◌then◌else◌, ◌==◌, is_some,
}
use hestiva_os.Base.Text.{◌===◌, ◌<+>◌, is_blank, decimal}
use hestiva_os.Base.Number.{Number, nat, non_integer}
use hestiva_os.Base.Eq.{contains, string_eq}
use hestiva_os.Base.Json.{
  Value, undefined, null, boolean, number, string, array, object, Elements, none_left, element,
  Fields, no_field, field, get, put,
}
use hestiva_os.Quotes.Contract.Platform.{Platform}
use hestiva_os.Quotes.Contract.Fields.{WebsiteQuoteContractError, error, is_string, is_undefined}
use hestiva_os.Quotes.Laundry.{
  LaundryFacilities, washer_dryer, washer_line, no_washer, LaundryRequest, LaundryErrorPath,
  primary_service_path, facilities_path, laundry_loads_path, ironing_loads_path, LaundryErrorCode,
  ineligible_primary_service, facilities_required, no_washer_error, invalid_load_quantity,
  LaundryRequestError, resolve_laundry_request,
}
use hestiva_os.Quotes.Contract.PostEventFacts.{
  record_fields, is_post_event_primary_service, validate_post_event_request_facts,
  validate_no_stray_post_event_facts,
}
use hestiva_os.Quotes.Contract.V1.{validate_website_quote_submission_v1}

abbrev pub structured_laundry_canonical_services : List String
structured_laundry_canonical_services = "Laundry" ∷ "Laundry Folding" ∷ "Ironing" ∷ []

abbrev pub v2_full_recurring_services : List String
v2_full_recurring_services = "Bedroom Cleaning" ∷ "Living Area Cleaning" ∷ []

abbrev pub v2_full_recurring_frequencies : List String
v2_full_recurring_frequencies =
    "ONE_TIME" ∷ "WEEKLY" ∷ "EVERY_TWO_WEEKS" ∷ "MONTHLY" ∷ "CUSTOM" ∷ []

abbrev pub is_one_of : List String → Value → Bool
is_one_of allowed (string s) = contains allowed s
is_one_of allowed _ = false

abbrev pub facilities_of : Value → Option LaundryFacilities
facilities_of (string s) =
    if s === "WASHER_DRYER"
    then some washer_dryer
    else if s === "WASHER_LINE"
    then some washer_line
    else if s === "NO_WASHER"
    then some no_washer
    else none
facilities_of _ = none

-- `Boolean(value)`
abbrev pub is_truthy : Value → Bool
is_truthy undefined = false
is_truthy null = false
is_truthy (boolean b) = b
is_truthy (number (nat n)) = not (n == 0)
is_truthy (string s) = not (is_blank s)
is_truthy _ = true

-- `typeof value === 'string' ? value : null`
abbrev pub text_or_null : Value → Option String
text_or_null (string s) = some s
text_or_null _ = none

-- A load quantity as `resolveLaundryRequest` reads it: whether it is undefined or an integer.
abbrev pub load_quantity : Value → Option Number
load_quantity undefined = none
load_quantity (number n) = some n
load_quantity _ = some non_integer

-- The path and the code of a laundry error, as texts.
abbrev pub laundry_path : LaundryErrorPath → String
laundry_path primary_service_path = "request.primaryService.canonicalService"
laundry_path facilities_path = "request.laundry.facilities"
laundry_path laundry_loads_path = "request.laundry.laundryLoads"
laundry_path ironing_loads_path = "request.laundry.ironingLoads"

abbrev pub laundry_code : LaundryErrorCode → String
laundry_code ineligible_primary_service = "INELIGIBLE_PRIMARY_SERVICE"
laundry_code facilities_required = "FACILITIES_REQUIRED"
laundry_code no_washer_error = "NO_WASHER"
laundry_code invalid_load_quantity = "INVALID_LOAD_QUANTITY"

abbrev pub contract_error : LaundryRequestError → WebsiteQuoteContractError
contract_error e = error (laundry_path e.path) (laundry_code e.code) e.message

-- The error filter of the pass through version 1.
abbrev pub is_kept : Bool → Bool → WebsiteQuoteContractError → Bool
is_kept townhouse recurring e =
    not (e.path === "schemaVersion")
    && not (townhouse && (e.path === "property.exactFloor" || e.path === "property.buildingAccess"))
    && not (recurring && (e.path === "request.frequency") && (e.code === "INVALID_FOR_SERVICE"))

unfoldable pub keep_errors :
    (WebsiteQuoteContractError → Bool)
    → List WebsiteQuoteContractError
    → List WebsiteQuoteContractError
keep_errors p [] = []
keep_errors p (e ∷ es) = let rest = keep_errors p es in if p e then e ∷ rest else rest

unfoldable pub laundry_request : Fields → Fields → LaundryRequest
unfolding get
laundry_request request laundry = record {
  primary_service =
      text_or_null (get "canonicalService" (record_fields (get "primaryService" request)));
  facilities = facilities_of (get "facilities" laundry);
  laundry_loads = load_quantity (get "laundryLoads" laundry);
  ironing_loads = load_quantity (get "ironingLoads" laundry);
}

unfoldable pub laundry_fields : Fields → Fields → List WebsiteQuoteContractError
unfolding get laundry_request resolve_laundry_request
laundry_fields request laundry =
    when
      (not (is_undefined (get "facilities" laundry))
        && not (is_some (facilities_of (get "facilities" laundry))))
      (error "request.laundry.facilities" "INVALID_ENUM" "Unsupported laundry facilities value.")
    ++ (if is_undefined (get "laundryLoads" laundry) && is_undefined (get "ironingLoads" laundry)
        then error "request.laundry" "EMPTY_LAUNDRY_REQUEST"
            "request.laundry must request at least Laundry or Ironing."
          ∷ []
        else map contract_error (resolve_laundry_request (laundry_request request laundry)).errors)

unfoldable pub laundry_at : Fields → Value → List WebsiteQuoteContractError
unfolding laundry_fields
laundry_at request undefined = []
laundry_at request (object laundry) = laundry_fields request laundry
laundry_at request _ =
    error "request.laundry" "INVALID_OBJECT" "request.laundry must be an object when supplied." ∷ []

module _ (platform : Platform) where
  -- `STRUCTURED_LAUNDRY_CANONICAL_SERVICES.has(String(rawAddOn.canonicalService || ''))`
  unfoldable pub is_structured_laundry : Value → Bool
  unfolding get
  is_structured_laundry (object add_on) =
      let service = get "canonicalService" add_on in
      contains structured_laundry_canonical_services
        (if is_truthy service then platform.text_of service else "")
  is_structured_laundry _ = false

  unfoldable pub without_laundry : Elements → Elements
  without_laundry none_left = none_left
  without_laundry (element add_on rest) =
      let rest' = without_laundry rest in
      if is_structured_laundry add_on then rest' else element add_on rest'

  unfoldable pub compatible_add_ons : Value → Value
  unfolding without_laundry
  compatible_add_ons (array add_ons) = array (without_laundry add_ons)
  compatible_add_ons v = v

  abbrev pub not_sure : Value
  not_sure =
      object (field "websiteValue" (string "Not sure") (field "canonicalService" null no_field))

  unfoldable pub compatible_request : Fields → Fields
  unfolding get put is_post_event_primary_service
  compatible_request request =
      let projected = put "addOns" (compatible_add_ons (get "addOns" request)) request in
      if is_post_event_primary_service request
      then put "frequency" (string "ONE_TIME") (put "primaryService" not_sure projected)
      else projected

  unfoldable pub with_request : Value → Fields → Fields
  unfolding put compatible_request
  with_request (object request) payload =
      put "request" (object (compatible_request request)) payload
  with_request _ payload = payload

  -- `v1CompatiblePayload`
  unfoldable pub compatible_payload : Fields → Fields
  unfolding put get
  compatible_payload payload =
      with_request (get "request" payload) (put "schemaVersion" (string "1.0") payload)

  unfoldable pub laundry_add_on_errors : ℕ → Elements → List WebsiteQuoteContractError
  unfolding decimal
  laundry_add_on_errors index none_left = []
  laundry_add_on_errors index (element add_on rest) =
      when (is_structured_laundry add_on) (
        error ("request.addOns." <+> decimal index <+> ".canonicalService")
          "STRUCTURED_LAUNDRY_REQUIRED"
          "Laundry and Ironing must use request.laundry in Quote contract v2.")
      ++ laundry_add_on_errors (suc index) rest

  unfoldable pub laundry_add_ons_at : Value → List WebsiteQuoteContractError
  unfolding laundry_add_on_errors
  laundry_add_ons_at (array add_ons) = laundry_add_on_errors 0 add_ons
  laundry_add_ons_at _ = []

  -- The checks of the request that version 2 adds.
  unfoldable pub v2_request_fields : Fields → List WebsiteQuoteContractError
  unfolding is_post_event_primary_service validate_post_event_request_facts
      validate_no_stray_post_event_facts get
  v2_request_fields request =
      (if is_post_event_primary_service request
        then validate_post_event_request_facts request
        else validate_no_stray_post_event_facts request)
      ++ laundry_add_ons_at (get "addOns" request)
      ++ laundry_at request (get "laundry" request)

  unfoldable pub v2_request_at : Value → List WebsiteQuoteContractError
  unfolding v2_request_fields
  v2_request_at (object request) = v2_request_fields request
  v2_request_at _ = []

  -- Whether the errors of the frequency are dropped.
  unfoldable pub is_full_recurring : Fields → Bool
  unfolding get
  is_full_recurring request =
      is_one_of v2_full_recurring_services
        (get "canonicalService" (record_fields (get "primaryService" request)))
      && is_one_of v2_full_recurring_frequencies (get "frequency" request)

  unfoldable pub v2_errors : Fields → List WebsiteQuoteContractError
  unfolding get keep_errors validate_website_quote_submission_v1 compatible_payload
  v2_errors payload =
      let townhouse =
        is_string "TOWNHOUSE" (get "propertyType" (record_fields (get "property" payload))) in
      let recurring = is_full_recurring (record_fields (get "request" payload)) in
      when (not (is_string "2.0" (get "schemaVersion" payload)))
        (error "schemaVersion" "UNSUPPORTED_VERSION" "Unsupported website quote schema version.")
      ++ keep_errors (is_kept townhouse recurring)
          (validate_website_quote_submission_v1 platform (object (compatible_payload payload)))
      ++ v2_request_at (get "request" payload)

  unfoldable pub validate_website_quote_submission_v2 : Value → List WebsiteQuoteContractError
  unfolding v2_errors
  validate_website_quote_submission_v2 (object payload) = v2_errors payload
  validate_website_quote_submission_v2 _ =
      error "$" "INVALID_OBJECT" "Website Quote submission must be a JSON object." ∷ []
