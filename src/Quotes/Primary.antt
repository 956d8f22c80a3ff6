-- ===== src/Quotes/Primary.antt =====
-- The primary service of apps/api/src/quotes/website-quote-pricing.ts: the floor-size table and the
-- steps that push a line for the service, or the reasons why it needs attention.
use hestiva_os.Base.{
  ℕ, String, Bool, true, false, Option, none, some, List, [], ◌∷◌, ◌++◌, map, if◌then◌else◌, when,
}
use hestiva_os.Base.Text.{◌===◌}
use hestiva_os.Quotes.PostEvent.{
  FloorSize, under_40, from_40_to_59, from_60_to_79, from_80_to_99, from_100_to_129,
  from_130_to_169, from_170_to_219, from_220_to_299, from_300_up, unknown, PostEventFacts,
  resolve_post_event_cleaning, ResolvedPostEventCleaning, PostEventReviewReason,
}
use hestiva_os.Quotes.CostModel.{code_text}
use hestiva_os.Quotes.Submission.{QuotePricingInput}
use hestiva_os.Quotes.Lines.{AttentionReason, at, attention, line, Pushed, pushed}

regular_price : FloorSize → Option ℕ
regular_price under_40 = some 65_000
regular_price from_40_to_59 = some 70_000
regular_price from_60_to_79 = some 75_000
regular_price from_80_to_99 = some 80_000
regular_price from_100_to_129 = some 87_500
regular_price from_130_to_169 = some 97_500
regular_price from_170_to_219 = some 105_000
regular_price from_220_to_299 = some 120_000
regular_price from_300_up = some 135_000
regular_price unknown = none

deep_price : FloorSize → Option ℕ
deep_price under_40 = some 100_000
deep_price from_40_to_59 = some 105_000
deep_price from_60_to_79 = some 115_000
deep_price from_80_to_99 = some 125_000
deep_price from_100_to_129 = some 135_000
deep_price from_130_to_169 = some 155_000
deep_price from_170_to_219 = some 170_000
deep_price from_220_to_299 = some 190_000
deep_price from_300_up = some 220_000
deep_price unknown = none

-- The rows of `Move-In Cleaning` and `Move-Out Cleaning` are the same.
move_price : FloorSize → Option ℕ
move_price under_40 = some 120_000
move_price from_40_to_59 = some 125_000
move_price from_60_to_79 = some 135_000
move_price from_80_to_99 = some 145_000
move_price from_100_to_129 = some 155_000
move_price from_130_to_169 = some 175_000
move_price from_170_to_219 = some 190_000
move_price from_220_to_299 = some 210_000
move_price from_300_up = some 245_000
move_price unknown = none

-- `FLOOR_PRICE_MINOR[service]`, at the table's own keys.
unfoldable pub floor_price_minor : String → Option (FloorSize → Option ℕ)
unfolding regular_price deep_price move_price
floor_price_minor service =
    if service === "Regular Home Cleaning"
    then some regular_price
    else if service === "Deep Cleaning"
    then some deep_price
    else if service === "Move-In Cleaning"
    then some move_price
    else if service === "Move-Out Cleaning"
    then some move_price
    else none

-- The line code `PRIMARY_${…}`, upper case with `_` between words, at the four services of the table.
unfoldable pub primary_code : String → String
primary_code service =
    if service === "Regular Home Cleaning"
    then "PRIMARY_REGULAR_HOME_CLEANING"
    else if service === "Deep Cleaning"
    then "PRIMARY_DEEP_CLEANING"
    else if service === "Move-In Cleaning"
    then "PRIMARY_MOVE_IN_CLEANING"
    else "PRIMARY_MOVE_OUT_CLEANING"

abbrev is_from_300_up : FloorSize → Bool
is_from_300_up from_300_up = true
is_from_300_up _ = false

abbrev only : AttentionReason → Pushed
only r = pushed [] (r ∷ [])

unfoldable pub floor_priced_with : String → FloorSize → Option ℕ → Pushed
unfolding primary_code
floor_priced_with service unknown amount = only (
    attention "FLOOR_SIZE_REQUIRED" (at "property.floorSize")
      "Floor size must be verified before this service can receive an authoritative price.")
floor_priced_with service size none = only (
    attention "UNSUPPORTED_FLOOR_PRICE" (at "property.floorSize")
      "No canonical price exists for this service and floor-size combination.")
floor_priced_with service size (some amount) =
    pushed (line (primary_code service) service 1 amount ∷ []) (
      when (is_from_300_up size) (
        attention "FROM_PRICE_REQUIRES_REVIEW" (at "property.floorSize")
          "300+ m² uses a canonical from-price and requires final workload review.")
      ++ when (service === "Regular Home Cleaning") (
          attention "ROOM_CONFIGURATION_REVIEW" (at "property")
            "Regular Cleaning room modifiers require comparison with the expected configuration for the floor-size band before final issue."))

-- `addFloorPricedPrimary`, given the row of the table.
unfoldable pub add_floor_priced_primary :
    QuotePricingInput → String → (FloorSize → Option ℕ) → Pushed
unfolding floor_priced_with
add_floor_priced_primary q service row =
    floor_priced_with service q.property.floor_size (row q.property.floor_size)

review_reason : PostEventReviewReason → AttentionReason
unfolding code_text
review_reason r = attention (code_text r.code) (at "request.postEvent") r.message

post_event_review : List PostEventReviewReason → List AttentionReason
unfolding review_reason
post_event_review [] =
    attention "POST_EVENT_PRICING_REVIEW" (at "request.postEvent")
      "Post-Event Cleaning could not be priced automatically from the supplied workload facts."
    ∷ []
post_event_review (r ∷ rs) = map review_reason (r ∷ rs)

post_event_with : ResolvedPostEventCleaning → Option ℕ → Pushed
unfolding post_event_review
post_event_with resolved none = pushed [] (post_event_review resolved.review_reasons)
post_event_with resolved (some price) =
    if resolved.automatic_pricing_allowed
    then pushed (line "PRIMARY_POST_EVENT_CLEANING" "Post-Event Cleaning" 1 price ∷ []) []
    else pushed [] (post_event_review resolved.review_reasons)

unfoldable pub add_post_event_cleaning_primary : FloorSize → Option PostEventFacts → Pushed
unfolding post_event_with
add_post_event_cleaning_primary size none = only (
    attention "POST_EVENT_FACTS_REQUIRED" (at "request.postEvent")
      "Structured Post-Event workload facts are required before authoritative pricing.")
add_post_event_cleaning_primary size (some facts) =
    let resolved = resolve_post_event_cleaning (record { floor_size = size; facts = facts }) in
    post_event_with resolved resolved.preliminary_price_minor
