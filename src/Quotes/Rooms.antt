-- ===== src/Quotes/Rooms.antt =====
-- `addRoomServicePrimary` and `addStructuredLaundry` of apps/api/src/quotes/website-quote-pricing.ts.
use hestiva_os.Base.{
  ℕ, ◌-◌, String, Bool, true, false, Option, none, some, List, [], ◌∷◌, ◌++◌, map, if◌then◌else◌,
  ltb, when, is_empty,
}
use hestiva_os.Base.Text.{◌===◌}
use hestiva_os.Quotes.Submission.{
  Bedrooms, Bathrooms, LivingAreas, QuotePricingInput, WebsiteLaundryRequest, bedroom_count,
  bathroom_count, living_area_count,
}
use hestiva_os.Quotes.Laundry.{
  resolve_laundry_request, LaundryResolution, LaundryOutcome, wash_dry_fold, wash_hang,
  LaundryRequestError, LaundryErrorPath, primary_service_path, facilities_path, laundry_loads_path,
  ironing_loads_path, LaundryErrorCode, ineligible_primary_service, facilities_required,
  no_washer_error, invalid_load_quantity,
}
use hestiva_os.Quotes.Lines.{
  AttentionReason, at, attention, WebsiteQuotePricingLine, line, Pushed, pushed, ◌⊕◌,
}

-- A first room, and a line for the additional rooms if there are any.
room_lines :
    (first_code first_label more_code more_label : String)
    → (first more count : ℕ) → List WebsiteQuotePricingLine
room_lines first_code first_label more_code more_label first more count =
    line first_code first_label 1 first
    ∷ when (ltb 1 count) (line more_code more_label (count - 1) more)

abbrev five_bathrooms : Bathrooms → Bool
five_bathrooms Bathrooms.five_plus = true
five_bathrooms _ = false

abbrev five_bedrooms : Bedrooms → Bool
five_bedrooms Bedrooms.five_plus = true
five_bedrooms _ = false

abbrev four_living_areas : LivingAreas → Bool
four_living_areas LivingAreas.four_plus = true
four_living_areas _ = false

bathroom_primary : Bathrooms → Pushed
unfolding room_lines bathroom_count
bathroom_primary b =
    pushed
      (room_lines "PRIMARY_BATHROOM_FIRST" "Bathroom Sanitisation — first standard bathroom"
        "PRIMARY_BATHROOM_ADDITIONAL" "Additional standard bathroom" 55_000 20_000
        (bathroom_count b))
      (when (five_bathrooms b) (
          attention "OPEN_ENDED_BATHROOM_COUNT" (at "property.bathrooms")
            "5+ bathrooms requires Admin confirmation of the exact count.")
        ++ attention "BATHROOM_TYPE_REVIEW" (at "property.bathrooms")
            "Large/master bathroom modifiers cannot be inferred from the website payload."
          ∷ [])

-- `OTHER` has no count.
bedroom_primary_with : Bedrooms → Option ℕ → Pushed
unfolding room_lines
bedroom_primary_with b none = pushed [] (
    attention "BEDROOM_COUNT_REVIEW" (at "property.bedrooms")
      "Bedroom count must be verified before authoritative pricing."
    ∷ [])
bedroom_primary_with b (some count) =
    pushed
      (room_lines "PRIMARY_BEDROOM_FIRST" "Bedroom Cleaning — first standard bedroom"
        "PRIMARY_BEDROOM_ADDITIONAL" "Additional standard bedroom" 45_000 15_000 count)
      (when (five_bedrooms b) (
          attention "OPEN_ENDED_BEDROOM_COUNT" (at "property.bedrooms")
            "5+ bedrooms requires Admin confirmation of the exact count.")
        ++ attention "BEDROOM_TYPE_REVIEW" (at "property.bedrooms")
            "Large/master bedroom modifiers cannot be inferred from the website payload."
          ∷ [])

living_area_primary : LivingAreas → Pushed
unfolding room_lines living_area_count
living_area_primary l =
    pushed
      (room_lines "PRIMARY_LIVING_AREA_FIRST" "Living Area Cleaning — first standard living area"
        "PRIMARY_LIVING_AREA_ADDITIONAL" "Additional standard living area" 45_000 15_000
        (living_area_count l))
      (when (four_living_areas l) (
          attention "OPEN_ENDED_LIVING_AREA_COUNT" (at "property.livingAreas")
            "4+ living areas requires Admin confirmation of the exact count.")
        ++ attention "LIVING_AREA_TYPE_REVIEW" (at "property.livingAreas")
            "Large/open-plan living-area modifiers cannot be inferred from the website payload."
          ∷ [])

unfoldable pub add_room_service_primary : QuotePricingInput → String → Pushed
unfolding bathroom_primary bedroom_primary_with bedroom_count living_area_primary
add_room_service_primary q service =
    if service === "Bathroom Sanitisation"
    then bathroom_primary q.property.bathrooms
    else if service === "Bedroom Cleaning"
    then bedroom_primary_with q.property.bedrooms (bedroom_count q.property.bedrooms)
    else if service === "Living Area Cleaning"
    then living_area_primary q.property.living_areas
    else pushed [] []

laundry_path : LaundryErrorPath → String
laundry_path primary_service_path = "request.laundry.primaryService"
laundry_path facilities_path = "request.laundry.facilities"
laundry_path laundry_loads_path = "request.laundry.laundryLoads"
laundry_path ironing_loads_path = "request.laundry.ironingLoads"

laundry_code : LaundryErrorCode → String
laundry_code ineligible_primary_service = "INELIGIBLE_PRIMARY_SERVICE"
laundry_code facilities_required = "FACILITIES_REQUIRED"
laundry_code no_washer_error = "NO_WASHER"
laundry_code invalid_load_quantity = "INVALID_LOAD_QUANTITY"

laundry_reason : LaundryRequestError → AttentionReason
unfolding laundry_path laundry_code
laundry_reason e = attention (laundry_code e.code) (at (laundry_path e.path)) e.message

outcome_line : LaundryOutcome → ℕ → ℕ → WebsiteQuotePricingLine
outcome_line wash_dry_fold = line "ADDON_LAUNDRY_WASH_DRY_FOLD" "Wash, Dry & Fold"
outcome_line wash_hang = line "ADDON_LAUNDRY_WASH_HANG" "Wash & Hang"

-- A load count of zero is falsy.
unfoldable pub laundry_line : Option LaundryOutcome → ℕ → Option ℕ → Pushed
unfolding outcome_line
laundry_line (some outcome) loads (some unit) =
    if ltb 0 loads
    then pushed (outcome_line outcome loads unit ∷ []) (
        attention "LAUNDRY_CAPACITY_REVIEW" (at "request.laundry.laundryLoads")
          "Requested laundry loads require labour/time-capacity approval before operational acceptance."
        ∷ [])
    else pushed [] []
laundry_line _ _ _ = pushed [] []

unfoldable pub ironing_line : ℕ → Option ℕ → Pushed
ironing_line loads none = pushed [] []
ironing_line loads (some unit) =
    if ltb 0 loads
    then pushed (line "ADDON_IRONING" "Ironing" loads unit ∷ []) (
        attention "IRONING_CAPACITY_REVIEW" (at "request.laundry.ironingLoads")
          "Requested ironing loads require labour/time-capacity approval before operational acceptance."
        ∷ [])
    else pushed [] []

unfoldable pub laundry_pushed : LaundryResolution → Pushed
unfolding laundry_reason laundry_line ironing_line
laundry_pushed r =
    if is_empty r.errors
    then laundry_line r.resolved.outcome r.resolved.laundry_loads
        r.resolved.laundry_unit_amount_minor
      ⊕ ironing_line r.resolved.ironing_loads r.resolved.ironing_unit_amount_minor
    else pushed [] (map laundry_reason r.errors)

is_version_2 : Option String → Bool
is_version_2 none = false
is_version_2 (some v) = v === "2.0"

unfoldable pub structured_laundry_with : Option String → Option WebsiteLaundryRequest → Pushed
unfolding laundry_pushed
structured_laundry_with service none = pushed [] []
structured_laundry_with service (some l) = laundry_pushed (
    resolve_laundry_request (record {
      primary_service = service;
      facilities = l.facilities;
      laundry_loads = l.laundry_loads;
      ironing_loads = l.ironing_loads;
    }))

-- Laundry is priced only in a submission of schema version 2.0.
unfoldable pub add_structured_laundry : QuotePricingInput → Pushed
unfolding structured_laundry_with is_version_2
add_structured_laundry q =
    if is_version_2 q.schema_version
    then structured_laundry_with q.request.canonical_service q.request.laundry
    else pushed [] []
