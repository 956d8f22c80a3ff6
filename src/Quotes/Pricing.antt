-- ===== src/Quotes/Pricing.antt =====
-- `calculateWebsiteQuotePricing` of apps/api/src/quotes/website-quote-pricing.ts. The final total of
-- the floor is never below the subtotal, so their difference is taken in the natural numbers.
pub mod Totals
pub mod Attention
use hestiva_os.Base.{
  ℕ, suc, ◌+◌, ◌-◌, String, Bool, true, false, ◌||◌, Option, none, some, List, [], ◌∷◌, ◌++◌,
  if◌then◌else◌, when, is_some,
}
use hestiva_os.Base.Text.{◌<+>◌, ◌===◌}
use hestiva_os.Base.Number.{nat}
use hestiva_os.Base.Result.{Result, ok, err, ◌>>=◌}
use hestiva_os.Quotes.Profitability.{
  QuoteOperationalCostSnapshot, QuoteProfitabilityResult, AmountError,
  apply_quote_profitability_floor,
}
use hestiva_os.Quotes.PostEvent.{FloorSize}
use hestiva_os.Quotes.Submission.{QuotePricingInput, AddOnInput, truthy_service}
use hestiva_os.Quotes.Lines.{
  WebsiteQuotePricingLine, AttentionReason, at, at_add_on, attention, line, Pushed, pushed, ◌⊕◌,
  subtotal_of,
}
use hestiva_os.Quotes.Primary.{
  floor_price_minor, add_floor_priced_primary, add_post_event_cleaning_primary,
}
use hestiva_os.Quotes.Rooms.{add_room_service_primary, add_structured_laundry}

-- `WebsiteQuotePricingSnapshotV1`; the currency is always ZAR.
pub record PricingSnapshot : Type 0 where
  pub subtotal_minor : ℕ
  pub adjustments_minor : ℕ
  pub total_minor : ℕ
  pub lines : List WebsiteQuotePricingLine

pub record WebsiteQuotePricingResult : Type 0 where
  pub pricing : PricingSnapshot
  pub attention_reasons : List AttentionReason
  pub requires_break_even_review : Bool
  pub profitability : Option QuoteProfitabilityResult

abbrev pub only : AttentionReason → Pushed
only r = pushed [] (r ∷ [])

-- The services that have neither a post-event model nor a floor-size row.
unfoldable pub other_primary : QuotePricingInput → String → Pushed
other_primary q service =
    if service === "Bathroom Sanitisation"
      || (service === "Bedroom Cleaning" || service === "Living Area Cleaning")
    then add_room_service_primary q service
    else if service === "Post-Renovation Cleaning"
    then only (
        attention "ASSESSMENT_REQUIRED" (at "request.primaryService")
          "Post-Renovation Cleaning is assessment/quote-required and is not automatically priced in v1.")
    else if service === "Kitchen Cleaning"
    then only (
        attention "KITCHEN_SCOPE_REQUIRED" (at "request.primaryService")
          "Kitchen size and Standard vs Deep/Detailed scope are required before authoritative pricing.")
    else if service === "Interior Window Cleaning"
    then pushed
        (line "PRIMARY_INTERIOR_WINDOWS_MINIMUM"
            "Interior Window Cleaning — minimum up to 6 standard accessible windows" 1 40_000
          ∷ [])
        (attention "WINDOW_COUNT_REVIEW" (at "request.primaryService")
            "Exact standard/large window quantities are required before final pricing."
          ∷ [])
    else only (
        attention "UNSUPPORTED_PRIMARY_PRICING" (at "request.primaryService")
          ("No deterministic v1 pricing adapter exists for " <+> service <+> "."))

unfoldable pub floor_or_other : QuotePricingInput → String → Option (FloorSize → Option ℕ) → Pushed
floor_or_other q service none = other_primary q service
floor_or_other q service (some row) = add_floor_priced_primary q service row

unfoldable pub named_primary : QuotePricingInput → String → Pushed
unfolding floor_or_other
named_primary q service =
    if service === "Post-Event Cleaning"
    then add_post_event_cleaning_primary q.property.floor_size q.request.post_event
    else floor_or_other q service (floor_price_minor service)

unfoldable pub primary_with : QuotePricingInput → Option String → Pushed
primary_with q none = only (
    attention "PRIMARY_SERVICE_REVIEW" (at "request.primaryService")
      "The selected primary-service path requires Admin mapping/review.")
primary_with q (some service) = named_primary q service

unfoldable pub primary_step : QuotePricingInput → Pushed
unfolding primary_with
primary_step q = primary_with q (truthy_service q.request.canonical_service)

-- The loop over the add-ons, from index `i` on.
unfoldable pub add_on_reasons : ℕ → List AddOnInput → List AttentionReason
add_on_reasons i [] = []
add_on_reasons i (a ∷ rest) =
    attention "ADD_ON_DETAIL_REQUIRED" (at_add_on i) (
      a.canonical_service
      <+> " requires canonical size/condition/scope detail before authoritative pricing and cannot be guessed from the generic website add-on value.")
    ∷ add_on_reasons (suc i) rest

abbrev wants_eco : Option Bool → Bool
wants_eco none = false
wants_eco (some b) = b

abbrev eco_lines : Bool → List WebsiteQuotePricingLine
eco_lines wanted =
    when wanted (line "PREFERENCE_ECO_FRIENDLY" "Eco-friendly products preference" 1 0)

-- The lines and reasons of a submission, before the totals.
unfoldable pub price_submission : QuotePricingInput → Pushed
price_submission q =
    primary_step q
    ⊕ pushed [] (add_on_reasons 0 q.request.add_ons)
    ⊕ add_structured_laundry q
    ⊕ pushed (eco_lines (wants_eco q.request.eco_friendly_products)) []

abbrev pub break_even_reason : String → AttentionReason
break_even_reason message = attention "BREAK_EVEN_REVIEW_REQUIRED" (at "$") message

-- The end of `calculateWebsiteQuotePricing` and of `calculateAdminReviewedQuotePricing`.
unfoldable pub with_totals :
    (break_even_message : String)
    → Pushed
    → Option QuoteOperationalCostSnapshot
    → Result AmountError WebsiteQuotePricingResult
with_totals message p none =
    let subtotal = subtotal_of p.lines in
    ok (record {
      pricing = record {
        subtotal_minor = subtotal;
        adjustments_minor = 0;
        total_minor = subtotal;
        lines = p.lines;
      };
      attention_reasons = p.reasons ++ break_even_reason message ∷ [];
      requires_break_even_review = true;
      profitability = none;
    })
with_totals message p (some costs) =
    let subtotal = subtotal_of p.lines in
    do
      floor ← apply_quote_profitability_floor (nat subtotal) costs
      ok (record {
        pricing = record {
          subtotal_minor = subtotal;
          adjustments_minor = floor.final_total_minor - subtotal;
          total_minor = floor.final_total_minor;
          lines = p.lines;
        };
        attention_reasons = p.reasons;
        requires_break_even_review = false;
        profitability = some floor;
      })

abbrev pub break_even_message : String
break_even_message =
    "Universal break-even protection requires HestivaOS operational cost inputs before the customer price can be finalised."

unfoldable pub calculate_website_quote_pricing :
    QuotePricingInput
    → Option QuoteOperationalCostSnapshot
    → Result AmountError WebsiteQuotePricingResult
unfolding with_totals
calculate_website_quote_pricing q costs = with_totals break_even_message (price_submission q) costs
