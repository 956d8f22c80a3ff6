-- ===== src/Quotes/Contract/Property.antt =====
-- The checks of the property in apps/api/src/quotes/website-quote-contract.ts.
use hestiva_os.Base.{
  ℕ, String, Bool, true, false, not, ◌&&◌, ◌||◌, List, [], ◌∷◌, ◌++◌, when, leb, ltb,
}
use hestiva_os.Base.Number.{nat, minus}
use hestiva_os.Base.Eq.{string_eq}
use hestiva_os.Base.Json.{Value, undefined, number, fraction, object, Fields, get}
use hestiva_os.Quotes.Contract.Fields.{
  WebsiteQuoteContractError, error, required_record, required_string, optional_string, enum_string,
  optional_enum, checked_with, is_text, is_string, is_undefined,
}

abbrev pub property_types : List String
property_types = "APARTMENT" ∷ "TOWNHOUSE" ∷ "HOUSE" ∷ "DUPLEX" ∷ "OTHER" ∷ []

abbrev pub floor_sizes : List String
floor_sizes =
    "UNDER_40" ∷ "FROM_40_TO_59" ∷ "FROM_60_TO_79" ∷ "FROM_80_TO_99" ∷ "FROM_100_TO_129"
    ∷ "FROM_130_TO_169" ∷ "FROM_170_TO_219" ∷ "FROM_220_TO_299" ∷ "FROM_300_UP" ∷ "UNKNOWN" ∷ []

abbrev pub bedroom_counts : List String
bedroom_counts = "STUDIO" ∷ "ONE" ∷ "TWO" ∷ "THREE" ∷ "FOUR" ∷ "FIVE_PLUS" ∷ "OTHER" ∷ []

abbrev pub bathroom_counts : List String
bathroom_counts = "ONE" ∷ "TWO" ∷ "THREE" ∷ "FOUR" ∷ "FIVE_PLUS" ∷ []

abbrev pub living_area_counts : List String
living_area_counts = "ONE" ∷ "TWO" ∷ "THREE" ∷ "FOUR_PLUS" ∷ []

abbrev pub storey_counts : List String
storey_counts = "ONE" ∷ "TWO" ∷ "THREE" ∷ "FOUR_PLUS" ∷ "UNKNOWN" ∷ []

abbrev pub outdoor_areas : List String
outdoor_areas = "NONE" ∷ "BALCONY" ∷ "PATIO" ∷ "BOTH" ∷ []

abbrev pub estate_classifications : List String
estate_classifications = "NONE" ∷ "ESTATE" ∷ "COMPLEX" ∷ "GATED_COMMUNITY" ∷ []

abbrev pub building_access : List String
building_access = "ELEVATOR" ∷ "STAIRS" ∷ "ELEVATOR_AND_STAIRS" ∷ []

-- Not a finite number from -limit to limit.
abbrev pub is_outside : ℕ → Value → Bool
is_outside limit (number (nat n)) = ltb limit n
is_outside limit (number (minus n)) = leb limit n
is_outside limit (fraction negative whole) = leb limit whole
is_outside limit _ = true

-- Not a finite number that is at least 0.
abbrev pub is_invalid_accuracy : Value → Bool
is_invalid_accuracy (number (nat n)) = false
is_invalid_accuracy (fraction negative whole) = negative
is_invalid_accuracy _ = true

unfoldable pub location_fields : Fields → List WebsiteQuoteContractError
unfolding get
location_fields value =
    when (is_outside 90 (get "latitude" value)) (
      error "property.location.latitude" "INVALID_LATITUDE"
        "Latitude must be a finite number from -90 to 90.")
    ++ when (is_outside 180 (get "longitude" value)) (
        error "property.location.longitude" "INVALID_LONGITUDE"
          "Longitude must be a finite number from -180 to 180.")
    ++ when
        (not (is_undefined (get "accuracyMetres" value))
          && is_invalid_accuracy (get "accuracyMetres" value))
        (error "property.location.accuracyMetres" "INVALID_ACCURACY"
          "Location accuracy must be a non-negative finite number.")

abbrev pub location_at : Value → List WebsiteQuoteContractError
location_at undefined = []
location_at (object value) = location_fields value
location_at _ =
    error "property.location" "INVALID_OBJECT" "property.location must be an object when supplied."
    ∷ []

unfoldable pub validate_location : Fields → List WebsiteQuoteContractError
unfolding get
validate_location property = location_at (get "location" property)

-- An integer from 0 to 50.
abbrev pub is_floor : Value → Bool
is_floor (number (nat n)) = leb n 50
is_floor _ = false

unfoldable pub floor_errors : Bool → Fields → List WebsiteQuoteContractError
unfolding get enum_string optional_enum
floor_errors true property =
    when (not (is_floor (get "exactFloor" property))) (
      error "property.exactFloor" "INVALID_EXACT_FLOOR"
        "Apartment and Townhouse exact floor must be an integer from 0 to 50.")
    ++ (enum_string property "buildingAccess" "property.buildingAccess" building_access).errors
floor_errors false property =
    when
      (not (is_undefined (get "exactFloor" property)) && not (is_floor (get "exactFloor" property)))
      (error "property.exactFloor" "INVALID_EXACT_FLOOR"
        "Exact floor must be an integer from 0 to 50 when supplied.")
    ++ (optional_enum property "buildingAccess" "property.buildingAccess" building_access).errors

unfoldable pub property_fields : Fields → List WebsiteQuoteContractError
unfolding get required_string optional_string enum_string optional_enum validate_location
property_fields property =
    let property_type =
      enum_string property "propertyType" "property.propertyType" property_types in
    let bedrooms = enum_string property "bedrooms" "property.bedrooms" bedroom_counts in
    property_type.errors
    ++ (required_string property "addressLine1" "property.addressLine1").errors
    ++ (required_string property "suburb" "property.suburb").errors
    ++ (optional_string property "postalCode" "property.postalCode").errors
    ++ when (not (is_string "South Africa" (get "country" property))) (
        error "property.country" "INVALID_COUNTRY"
          "Property country must be South Africa in contract v1.")
    ++ (enum_string property "floorSize" "property.floorSize" floor_sizes).errors
    ++ bedrooms.errors
    ++ (enum_string property "bathrooms" "property.bathrooms" bathroom_counts).errors
    ++ (enum_string property "livingAreas" "property.livingAreas" living_area_counts).errors
    ++ (optional_enum property "storeys" "property.storeys" storey_counts).errors
    ++ (enum_string property "outdoorArea" "property.outdoorArea" outdoor_areas).errors
    ++ (enum_string property "estateClassification" "property.estateClassification"
        estate_classifications).errors
    ++ validate_location property
    ++ when (is_text "STUDIO" bedrooms.value && not (is_text "APARTMENT" property_type.value)) (
        error "property.bedrooms" "INVALID_COMBINATION"
          "Studio is valid only for Apartment properties.")
    ++ floor_errors
        (is_text "APARTMENT" property_type.value || is_text "TOWNHOUSE" property_type.value)
        property

unfoldable pub property_errors : Fields → List WebsiteQuoteContractError
unfolding required_record property_fields
property_errors payload =
    checked_with (required_record payload "property" "property") property_fields
