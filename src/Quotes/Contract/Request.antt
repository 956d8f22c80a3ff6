-- ===== src/Quotes/Contract/Request.antt =====
-- The checks of the request in apps/api/src/quotes/website-quote-contract.ts.
use hestiva_os.Base.{
  ℕ, suc, String, Bool, true, false, not, ◌&&◌, Option, none, some, List, [], ◌∷◌, ◌++◌, when,
  if◌then◌else◌, ◌==◌, is_some,
}
use hestiva_os.Base.Text.{◌===◌, ◌<+>◌, is_blank, trim, decimal}
use hestiva_os.Base.Number.{nat, minus, is_integer_from}
use hestiva_os.Base.Eq.{contains, string_eq}
use hestiva_os.Base.Json.{
  Value, null, number, string, array, object, Elements, none_left, element, Fields, get,
}
use hestiva_os.Quotes.Contract.Platform.{Platform}
use hestiva_os.Quotes.Contract.Fields.{
  WebsiteQuoteContractError, error, required_record, required_string, optional_string,
  optional_boolean, enum_string, given, checked_with, has_text, is_text, is_string,
}

abbrev pub website_frequencies : List String
website_frequencies = "ONE_TIME" ∷ "WEEKLY" ∷ "EVERY_TWO_WEEKS" ∷ "MONTHLY" ∷ "CUSTOM" ∷ []

abbrev pub website_home_conditions : List String
website_home_conditions =
    "LIGHT_UPKEEP" ∷ "STANDARD" ∷ "EXTRA_ATTENTION" ∷ "HEAVY_BUILDUP" ∷ "RECENTLY_RENOVATED"
    ∷ "VACANT" ∷ "MOVE_IN_OUT" ∷ []

abbrev pub pseudo_primary_values : List String
pseudo_primary_values = "Add-on Services" ∷ "Not sure" ∷ []

abbrev pub primary_service_map : List (String × String)
primary_service_map =
    ("Regular Home Cleaning", "Regular Home Cleaning")
    ∷ ("Deep Cleaning", "Deep Cleaning")
    ∷ ("Move-In Cleaning", "Move-In Cleaning")
    ∷ ("Move-Out Cleaning", "Move-Out Cleaning")
    ∷ ("Apartment Cleaning", "Apartment Cleaning")
    ∷ ("Kitchen Cleaning", "Kitchen Cleaning")
    ∷ ("Bathroom Sanitisation", "Bathroom Sanitisation")
    ∷ ("Bedroom Cleaning", "Bedroom Cleaning")
    ∷ ("Living Area Cleaning", "Living Area Cleaning")
    ∷ ("Interior Window Cleaning", "Interior Window Cleaning")
    ∷ ("Laundry Folding", "Laundry Folding")
    ∷ ("Eco-Friendly Cleaning", "Eco-Conscious Cleaning")
    ∷ ("Eco-Conscious Cleaning", "Eco-Conscious Cleaning")
    ∷ ("Post-Renovation Cleaning", "Post-Renovation Cleaning")
    ∷ []

abbrev pub add_on_service_map : List (String × String)
add_on_service_map =
    ("Inside oven", "Inside Oven Cleaning")
    ∷ ("Inside fridge", "Inside Fridge Cleaning")
    ∷ ("Inside cupboards", "Interior Cupboard Cleaning")
    ∷ ("Interior windows", "Interior Window Cleaning")
    ∷ ("Laundry folding", "Laundry Folding")
    ∷ ("Ironing", "Ironing")
    ∷ ("Bed making", "Bed Making")
    ∷ ("Linen change", "Linen Change")
    ∷ ("Balcony / Patio Cleaning", "Balcony / Patio Cleaning")
    ∷ ("Garage sweep", "Garage Sweeping")
    ∷ ("Extra bathroom", "Extra Bathroom Cleaning")
    ∷ ("Extra refrigerator", "Extra Refrigerator")
    ∷ ("Pet-hair treatment", "Pet-Hair Treatment")
    ∷ []

abbrev pub quantity_add_ons : List String
quantity_add_ons = "Extra Refrigerator" ∷ "Balcony / Patio Cleaning" ∷ []

abbrev pub frequency_rules : List (String × List String)
frequency_rules =
    ("Move-In Cleaning", "ONE_TIME" ∷ [])
    ∷ ("Move-Out Cleaning", "ONE_TIME" ∷ [])
    ∷ ("Regular Home Cleaning", website_frequencies)
    ∷ ("Apartment Cleaning", website_frequencies)
    ∷ ("Eco-Conscious Cleaning", website_frequencies)
    ∷ ("Deep Cleaning", "ONE_TIME" ∷ "MONTHLY" ∷ "CUSTOM" ∷ [])
    ∷ ("Kitchen Cleaning", "ONE_TIME" ∷ "CUSTOM" ∷ [])
    ∷ ("Bathroom Sanitisation", "ONE_TIME" ∷ "CUSTOM" ∷ [])
    ∷ ("Bedroom Cleaning", "ONE_TIME" ∷ "CUSTOM" ∷ [])
    ∷ ("Living Area Cleaning", "ONE_TIME" ∷ "CUSTOM" ∷ [])
    ∷ ("Interior Window Cleaning", "ONE_TIME" ∷ "CUSTOM" ∷ [])
    ∷ ("Laundry Folding", "ONE_TIME" ∷ "CUSTOM" ∷ [])
    ∷ []

-- `map.get(key)`
unfoldable pub lookup {ℓ} : {A : Type ℓ} → String → List (String × A) → Option A
lookup key [] = none
lookup key ((k, a) ∷ rest) = let later = lookup key rest in if k === key then some a else later

unfoldable pub allowed_frequencies_for_canonical_service : Option String → Option (List String)
unfolding lookup
allowed_frequencies_for_canonical_service none = some ("ONE_TIME" ∷ "CUSTOM" ∷ [])
allowed_frequencies_for_canonical_service (some service) = lookup service frequency_rules

-- `canonicalPrimary`: undefined, null or a text.
abbrev pub canonical_primary_at : Value → Option (Option String)
canonical_primary_at null = some none
canonical_primary_at (string s) = some (some s)
canonical_primary_at _ = none

abbrev pub is_null : Value → Bool
is_null null = true
is_null _ = false

abbrev pub expected_primary : Value → Option String → List WebsiteQuoteContractError
expected_primary raw_canonical none =
    error "request.primaryService.websiteValue" "UNMAPPED_SERVICE"
      "Website primary Service value is not approved in contract v1."
    ∷ []
expected_primary raw_canonical (some expected) = when (not (is_string expected raw_canonical)) (
    error "request.primaryService.canonicalService" "INVALID_MAPPING"
      "Canonical primary Service does not match the approved website mapping.")

unfoldable pub mapping_errors : String → Value → List WebsiteQuoteContractError
unfolding lookup
mapping_errors website_value raw_canonical =
    if contains pseudo_primary_values website_value
    then when (not (is_null raw_canonical)) (
        error "request.primaryService" "INVALID_MAPPING"
          "Pseudo choices must use canonicalService: null.")
    else expected_primary raw_canonical (lookup website_value primary_service_map)

unfoldable pub primary_fields : Fields → List WebsiteQuoteContractError
unfolding required_string get
primary_fields primary =
    let website_value =
      required_string primary "websiteValue" "request.primaryService.websiteValue" in
    let raw_canonical = get "canonicalService" primary in
    website_value.errors
    ++ when (not (is_some (canonical_primary_at raw_canonical))) (
        error "request.primaryService.canonicalService" "INVALID_STRING"
          "Canonical primary Service must be a string or null.")
    ++ given website_value.value (λ v. mapping_errors v raw_canonical)

-- `canonicalPrimary` after the checks of the primary service.
unfoldable pub canonical_primary : Option Fields → Option (Option String)
unfolding get
canonical_primary none = none
canonical_primary (some primary) = canonical_primary_at (get "canonicalService" primary)

abbrev pub is_allowed_frequency : Option (List String) → String → Bool
is_allowed_frequency none frequency = true
is_allowed_frequency (some allowed) frequency = contains allowed frequency

unfoldable pub frequency_errors :
    Option String → Option (Option String) → List WebsiteQuoteContractError
unfolding allowed_frequencies_for_canonical_service
frequency_errors (some frequency) (some service) =
    when
      (not (is_blank frequency)
        && not (is_allowed_frequency (allowed_frequencies_for_canonical_service service) frequency))
      (error "request.frequency" "INVALID_FOR_SERVICE"
        "Frequency is not allowed for the selected primary Service.")
frequency_errors _ _ = []

abbrev pub is_positive_integer : Value → Bool
is_positive_integer (number n) = is_integer_from 1 n
is_positive_integer _ = false

-- `Number.isInteger(value) && value !== 1`
abbrev pub is_other_integer : Value → Bool
is_other_integer (number (nat n)) = not (n == 1)
is_other_integer (number (minus n)) = true
is_other_integer _ = false

abbrev pub expected_add_on : String → String → Option String → List WebsiteQuoteContractError
expected_add_on path canonical_service none =
    error (path <+> ".websiteValue") "UNMAPPED_ADD_ON"
      "Website add-on value is not approved in contract v1."
    ∷ []
expected_add_on path canonical_service (some expected) =
    when (not (canonical_service === expected)) (
      error (path <+> ".canonicalService") "INVALID_MAPPING"
        "Canonical add-on does not match the approved website mapping.")

unfoldable pub add_on_mapping : String → String → String → List WebsiteQuoteContractError
unfolding lookup
add_on_mapping path website_value canonical_service =
    expected_add_on path canonical_service (lookup website_value add_on_service_map)

module _ (platform : Platform) where
  -- The checks of an add-on that names both services.
  abbrev pub named_add_on :
      String → List String → Value → String → String → List WebsiteQuoteContractError
  named_add_on path seen quantity website_value canonical_service =
      add_on_mapping path website_value canonical_service
      ++ when (contains seen (platform.to_lower canonical_service)) (
          error (path <+> ".canonicalService") "DUPLICATE"
            "Duplicate canonical add-on is not allowed.")
      ++ when (is_other_integer quantity && not (contains quantity_add_ons canonical_service)) (
          error (path <+> ".quantity") "QUANTITY_NOT_SUPPORTED"
            "This add-on must use quantity 1 in contract v1.")

  abbrev pub both_named :
      Option String
      → Option String
      → (String → String → List WebsiteQuoteContractError)
      → List WebsiteQuoteContractError
  both_named (some w) (some c) more = more w c
  both_named _ _ more = []

  -- The services seen after an add-on.
  abbrev pub seen_after : Option String → Option String → List String → List String
  seen_after (some w) (some c) seen = platform.to_lower c ∷ seen
  seen_after _ _ seen = seen

  unfoldable pub add_on_errors : String → List String → Value → List WebsiteQuoteContractError
  unfolding required_string get
  add_on_errors path seen (object add_on) =
      let website_value = required_string add_on "websiteValue" (path <+> ".websiteValue") in
      let canonical_service =
        required_string add_on "canonicalService" (path <+> ".canonicalService") in
      let quantity = get "quantity" add_on in
      website_value.errors
      ++ canonical_service.errors
      ++ when (not (is_positive_integer quantity)) (
          error (path <+> ".quantity") "INVALID_QUANTITY"
            "Add-on quantity must be a positive integer.")
      ++ both_named website_value.value canonical_service.value (named_add_on path seen quantity)
  add_on_errors path seen _ = error path "INVALID_OBJECT" "Each add-on must be an object." ∷ []

  unfoldable pub add_on_seen : List String → Value → List String
  unfolding required_string
  add_on_seen seen (object add_on) =
      seen_after (required_string add_on "websiteValue" "").value
        (required_string add_on "canonicalService" "").value seen
  add_on_seen seen _ = seen

  -- `request.addOns.forEach(...)`, from an index and the services seen before it.
  unfoldable pub add_ons_errors : ℕ → List String → Elements → List WebsiteQuoteContractError
  unfolding add_on_errors add_on_seen decimal
  add_ons_errors index seen none_left = []
  add_ons_errors index seen (element add_on rest) =
      add_on_errors ("request.addOns." <+> decimal index) seen add_on
      ++ add_ons_errors (suc index) (add_on_seen seen add_on) rest

  unfoldable pub add_ons_at : Value → List WebsiteQuoteContractError
  unfolding add_ons_errors
  add_ons_at (array add_ons) = add_ons_errors 0 [] add_ons
  add_ons_at _ = error "request.addOns" "INVALID_ARRAY" "request.addOns must be an array." ∷ []

  unfoldable pub request_fields : Fields → List WebsiteQuoteContractError
  unfolding required_record primary_fields enum_string optional_string optional_boolean get trim
  request_fields request =
      let primary = required_record request "primaryService" "request.primaryService" in
      let frequency = enum_string request "frequency" "request.frequency" website_frequencies in
      let note = optional_string request "customFrequencyNote" "request.customFrequencyNote" in
      checked_with primary primary_fields
      ++ frequency.errors
      ++ (enum_string request "homeCondition" "request.homeCondition"
          website_home_conditions).errors
      ++ note.errors
      ++ (optional_boolean request "ecoFriendlyProducts" "request.ecoFriendlyProducts").errors
      ++ when (is_text "CUSTOM" frequency.value && not (has_text note.value))
          (error "request.customFrequencyNote" "REQUIRED" "Custom frequency requires a note.")
      ++ frequency_errors frequency.value (canonical_primary primary.value)
      ++ add_ons_at (get "addOns" request)

  unfoldable pub request_errors : Fields → List WebsiteQuoteContractError
  unfolding required_record request_fields
  request_errors payload = checked_with (required_record payload "request" "request") request_fields
