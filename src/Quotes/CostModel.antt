-- ===== src/Quotes/CostModel.antt =====
-- apps/api/src/quotes/approved-quote-cost-model.ts, with cleaner-hours counted in halves: every hour
-- in its tables is a multiple of a half. The labour and the deployment amount multiply by a rate and
-- by a distance that are arbitrary fractions, and are not modelled.
pub mod Laws
use hestiva_os.Base.{
  ℕ, ◌+◌, ◌-◌, ◌*◌, ◌/◌, String, Bool, true, false, ◌||◌, ◌&&◌, Option, none, some, List, [], ◌∷◌,
  map, if◌then◌else◌, leb, is_some, not,
}
use hestiva_os.Base.Text.{◌===◌, ◌<+>◌}
use hestiva_os.Base.Number.{Number, nat}
use hestiva_os.Base.Result.{Result, ok, err}
use Prim.Native.Nat.{max}
use Prim.Native.String
use hestiva_os.Quotes.PostEvent.{
  FloorSize, under_40, from_40_to_59, from_60_to_79, from_80_to_99, from_100_to_129,
  from_130_to_169, from_170_to_219, from_220_to_299, from_300_up, unknown, PostEventFacts,
  resolve_post_event_cleaning, ResolvedPostEventCleaning, PostEventReviewReason,
  PostEventReviewCode, floor_size_required, floor_size_review, guest_count_review,
  invalid_bathroom_count, workload_ceiling_exceeded, overnight_review, bulk_waste_review,
  specialist_contamination_review, specialist_carpet_upholstery_review, complex_venue_review,
}
use hestiva_os.Quotes.Submission
use hestiva_os.Quotes.Submission.{
  Bedrooms, Bathrooms, LivingAreas, QuotePricingInput, truthy_service, bedroom_count,
  bathroom_count, living_area_count,
}

pub data CleanerHoursResolution : Type 0 where
  ready : (half_hours : ℕ) (provenance : String) → CleanerHoursResolution
  needs_attention : (reason provenance : String) → CleanerHoursResolution

regular_hours : FloorSize → Option ℕ
regular_hours under_40 = some 8
regular_hours from_40_to_59 = some 10
regular_hours from_60_to_79 = some 12
regular_hours from_80_to_99 = some 16
regular_hours from_100_to_129 = some 20
regular_hours from_130_to_169 = some 22
regular_hours from_170_to_219 = some 24
regular_hours from_220_to_299 = some 27
regular_hours _ = none

deep_hours : FloorSize → Option ℕ
deep_hours under_40 = some 24
deep_hours from_40_to_59 = some 25
deep_hours from_60_to_79 = some 28
deep_hours from_80_to_99 = some 30
deep_hours from_100_to_129 = some 32
deep_hours from_130_to_169 = some 37
deep_hours from_170_to_219 = some 41
deep_hours from_220_to_299 = some 46
deep_hours _ = none

-- The rows of `Move-In Cleaning` and `Move-Out Cleaning` are the same.
move_hours : FloorSize → Option ℕ
move_hours under_40 = some 29
move_hours from_40_to_59 = some 30
move_hours from_60_to_79 = some 32
move_hours from_80_to_99 = some 35
move_hours from_100_to_129 = some 37
move_hours from_130_to_169 = some 42
move_hours from_170_to_219 = some 46
move_hours from_220_to_299 = some 51
move_hours _ = none

-- `FLOOR_CLEANER_HOURS[service]`, at the table's own keys.
unfoldable pub floor_cleaner_hours : String → Option (FloorSize → Option ℕ)
unfolding regular_hours deep_hours move_hours
floor_cleaner_hours service =
    if service === "Regular Home Cleaning"
    then some regular_hours
    else if service === "Deep Cleaning"
    then some deep_hours
    else if service === "Move-In Cleaning"
    then some move_hours
    else if service === "Move-Out Cleaning"
    then some move_hours
    else none

abbrev matrix : String
matrix = "approved-labour-matrix:v1"

abbrev component : String
component = "approved-component-workload:v1"

abbrev post_event : String
post_event = "post-event-cleaning-operating-model:v1"

unfoldable pub code_text : PostEventReviewCode → String
code_text floor_size_required = "FLOOR_SIZE_REQUIRED"
code_text floor_size_review = "FLOOR_SIZE_REVIEW"
code_text guest_count_review = "GUEST_COUNT_REVIEW"
code_text invalid_bathroom_count = "INVALID_BATHROOM_COUNT"
code_text workload_ceiling_exceeded = "WORKLOAD_CEILING_EXCEEDED"
code_text overnight_review = "OVERNIGHT_REVIEW"
code_text bulk_waste_review = "BULK_WASTE_REVIEW"
code_text specialist_contamination_review = "SPECIALIST_CONTAMINATION_REVIEW"
code_text specialist_carpet_upholstery_review = "SPECIALIST_CARPET_UPHOLSTERY_REVIEW"
code_text complex_venue_review = "COMPLEX_VENUE_REVIEW"

-- `parts.join(separator)`
join : String → List String → String
join separator [] = ""
join separator (s ∷ []) = s
join separator (s ∷ t ∷ rest) = s <+> separator <+> join separator (t ∷ rest)

review_text : List PostEventReviewReason → String
unfolding join code_text
review_text [] = "Post-Event workload could not be resolved safely."
review_text (r ∷ rs) = join "; " (map (λ x. code_text x.code <+> ": " <+> x.message) (r ∷ rs))

post_event_with : ResolvedPostEventCleaning → Option ℕ → CleanerHoursResolution
unfolding review_text
post_event_with resolved none = needs_attention (review_text resolved.review_reasons) post_event
post_event_with resolved (some hours) =
    if resolved.automatic_pricing_allowed
    then ready hours post_event
    else needs_attention (review_text resolved.review_reasons) post_event

post_event_hours : FloorSize → Option PostEventFacts → CleanerHoursResolution
unfolding post_event_with
post_event_hours size none =
    needs_attention
      "Structured Post-Event workload facts are required before cleaner-hours can be resolved."
      post_event
post_event_hours size (some facts) =
    let resolved = resolve_post_event_cleaning (record { floor_size = size; facts = facts }) in
    post_event_with resolved resolved.total_half_hours

bathroom_hours : Bathrooms → CleanerHoursResolution
unfolding bathroom_count
bathroom_hours Bathrooms.five_plus =
    needs_attention "Exact bathroom count is required for 5+." component
bathroom_hours b = ready (13 + max 0 (bathroom_count b - 1) * 5) component

-- `!count || bedrooms === 'FIVE_PLUS' || bedrooms === 'OTHER'`
abbrev open_bedrooms : Bedrooms → Bool
open_bedrooms Bedrooms.five_plus = true
open_bedrooms Bedrooms.other = true
open_bedrooms _ = false

bedroom_hours_with : Bedrooms → Option ℕ → CleanerHoursResolution
bedroom_hours_with b none = needs_attention "Exact supported bedroom count is required." component
bedroom_hours_with b (some count) =
    if open_bedrooms b
    then needs_attention "Exact supported bedroom count is required." component
    else ready (11 + max 0 (count - 1) * 4) component

bedroom_hours : Bedrooms → CleanerHoursResolution
unfolding bedroom_count bedroom_hours_with
bedroom_hours b = bedroom_hours_with b (bedroom_count b)

living_area_hours : LivingAreas → CleanerHoursResolution
unfolding living_area_count
living_area_hours LivingAreas.four_plus =
    needs_attention "Exact living-area count is required for 4+." component
living_area_hours l = ready (11 + max 0 (living_area_count l - 1) * 4) component

-- The services that have no row in the floor-size matrix.
component_hours : String → QuotePricingInput → CleanerHoursResolution
unfolding bathroom_hours bedroom_hours living_area_hours
component_hours service q =
    if service === "Bathroom Sanitisation"
    then bathroom_hours q.property.bathrooms
    else if service === "Bedroom Cleaning"
    then bedroom_hours q.property.bedrooms
    else if service === "Living Area Cleaning"
    then living_area_hours q.property.living_areas
    else if service === "Interior Window Cleaning"
    then needs_attention
        "The approved workload model requires exact standard/large window quantities." component
    else if service === "Kitchen Cleaning"
    then needs_attention
        "The approved workload model requires kitchen size and Standard versus Deep/Detailed scope."
        component
    else needs_attention
        ("No approved deterministic cleaner-hour adapter exists for " <+> service <+> ".")
        "approved-cost-model:v1"

abbrev is_from_300_up : FloorSize → Bool
is_from_300_up from_300_up = true
is_from_300_up _ = false

-- `FLOOR_CLEANER_HOURS[service]?.[floorSize]`
abbrev pub hours_at : Option (FloorSize → Option ℕ) → FloorSize → Option ℕ
hours_at none size = none
hours_at (some row) size = row size

matrix_hours : String → QuotePricingInput → Option ℕ → CleanerHoursResolution
unfolding component_hours
matrix_hours service q none = component_hours service q
matrix_hours service q (some hours) = ready hours matrix

service_hours : String → QuotePricingInput → CleanerHoursResolution
unfolding post_event_hours floor_cleaner_hours matrix_hours
service_hours service q =
    let size = q.property.floor_size in
    let row = floor_cleaner_hours service in
    if service === "Post-Event Cleaning"
    then post_event_hours size q.request.post_event
    else if is_from_300_up size && is_some row
    then needs_attention
        "The Website contract groups 300+ m², while the approved labour matrices require 300–349 m² versus 350+ review."
        matrix
    else matrix_hours service q (hours_at row size)

unfoldable pub resolve_approved_cleaner_hours : QuotePricingInput → CleanerHoursResolution
unfolding truthy_service service_hours
resolve_approved_cleaner_hours q = elim (truthy_service q.request.canonical_service) [
  | none ↦ needs_attention "Primary service is not canonically resolved." "approved-cost-model:v1"
  | some service ↦ service_hours service q
]

pub record ConsumablesRate : Type 0 where
  pub fixed_minor : ℕ
  pub rate_minor : ℕ

abbrev rate : ℕ → ℕ → ConsumablesRate
rate f r = record { fixed_minor = f; rate_minor = r }

unfoldable pub consumables_rate : String → ConsumablesRate
consumables_rate service =
    if service === "Regular Home Cleaning"
    then rate 1_000 250
    else if service === "Deep Cleaning"
    then rate 1_500 400
    else if service === "Move-In Cleaning" || service === "Move-Out Cleaning"
    then rate 2_000 450
    else if service === "Kitchen Cleaning" || service === "Bathroom Sanitisation"
    then rate 1_000 500
    else rate 1_000 400

-- `Math.ceil` of an amount that is counted in halves.
abbrev pub ceil_half : ℕ → ℕ
ceil_half n = (n + 1) / 2

unfoldable pub calculate_consumables_minor : String → ℕ → ℕ
unfolding consumables_rate
calculate_consumables_minor service half_hours =
    let r = consumables_rate service in ceil_half (r.fixed_minor * 2 + half_hours * r.rate_minor)

unfoldable pub calculate_equipment_reserve_minor : ℕ → ℕ
calculate_equipment_reserve_minor half_hours = ceil_half (half_hours * 200)

unfoldable pub calculate_overhead_minor : ℕ → ℕ
calculate_overhead_minor half_hours = ceil_half (half_hours * 2_000)

pub data CostModelError : Type 0 where
  cost_not_minor_units : CostModelError

abbrev pub absolute_minimum_contribution_minor : ℕ
absolute_minimum_contribution_minor = 10_000

unfoldable pub calculate_minimum_contribution_minor : Number → Result CostModelError ℕ
calculate_minimum_contribution_minor (nat cost) =
    ok (max absolute_minimum_contribution_minor ((cost + 3) / 4))
calculate_minimum_contribution_minor _ = err cost_not_minor_units
