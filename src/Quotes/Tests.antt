-- ===== src/Quotes/Tests.antt =====
-- Runs of the quote models on concrete requests.
mod Intake
mod Review
use hestiva_os.Base.{
  ◌≡◌, ◌↔◌, refl, arith, ℕ, ◌+◌, ◌*◌, ◌≤◌, String, true, false, Option, none, some, List, [], ◌∷◌,
  length,
}
use hestiva_os.Base.Number.{Number, nat}
use hestiva_os.Base.Result.{ok}
use hestiva_os.Base.Eq.{contains}
use hestiva_os.Quotes.PostEvent.{
  from_100_to_129, from_21_to_50, moderate_dishes, light_waste, OutdoorArea, patio, balcony,
  PostEventFacts, PostEventCleaningRequest, resolve_post_event_cleaning, additional_half_hours,
  outdoor_total, area_eq,
}
use hestiva_os.Quotes.PostEvent.Laws.{
  IsAutomatic-iff, automatic-IsPriced, resolve-same_areas, IsAutomatic, IsPriced,
}
use hestiva_os.Quotes.Laundry.{LaundryRequest, washer_dryer, resolve_laundry_request}
use hestiva_os.Quotes.Laundry.Laws.{laundry_errors_iff, IsAcceptable, IsCharged}
use hestiva_os.Quotes.Profitability.{
  QuoteOperationalCostSnapshot, QuoteProfitabilityResult, apply_quote_profitability_floor,
}
use hestiva_os.Quotes.Profitability.Laws.{
  Amounts, snapshot_of, amounts_of, IsFloored, apply_floor_total,
}
use hestiva_os.Quotes.Submission.{
  truthy_service, Bedrooms, Bathrooms, LivingAreas, QuotePricingInput, AddOnInput,
}
use hestiva_os.Quotes.CostSource.{
  QuoteOperationalCostComponent, QuoteOperationalCostCandidate, ready, keep,
  validate_operational_cost_candidate, value_of,
}
use hestiva_os.Quotes.CostSource.Laws.{ready_iff, given_amounts, amount_in}
use hestiva_os.Quotes.CostModel.{
  resolve_approved_cleaner_hours, CleanerHoursResolution, calculate_minimum_contribution_minor,
}
use hestiva_os.Quotes.CostModel.Laws.{HoursWithin, RestsOnExactFacts}
use hestiva_os.Quotes.Pricing.{
  price_submission, primary_step, named_primary, add_on_reasons, WebsiteQuotePricingResult,
  calculate_website_quote_pricing,
}
use hestiva_os.Quotes.Pricing.Totals.{pricing-IsBalanced, IsBalanced, CoversCosts}
use hestiva_os.Quotes.Pricing.Attention.{no_attention-IsUnattended, IsUnattended}
use hestiva_os.Quotes.Lines.{line, subtotal_of}
use hestiva_os.Quotes.Primary.{floor_price_minor, add_floor_priced_primary}
use hestiva_os.Quotes.Rooms.{add_structured_laundry}
use hestiva_os.Quotes.Repricing.{
  price_reviewed, reviewed_add_on, OvenSize, AdminAddOnReviewDetail, ReviewedSubmission,
  calculate_admin_reviewed_quote_pricing, review_add_ons,
}
use hestiva_os.Quotes.Repricing.Laws.{reviewed-IsBalanced, review_add_ons_complete, AllPriceable}

abbrev party : PostEventFacts
party = record {
  guest_band = from_21_to_50;
  bathrooms = nat 2;
  kitchen_substantially_used = true;
  dishwashing = moderate_dishes;
  outdoor_areas = patio ∷ balcony ∷ patio ∷ [];
  waste_level = light_waste;
  significant_ordinary_soiling = false;
  late_night_or_overnight = false;
  bulk_waste_removal_requested = false;
  specialist_contamination = false;
  specialist_carpet_or_upholstery = false;
  complex_venue = false;
}

abbrev party_request : PostEventCleaningRequest
party_request = record { floor_size = from_100_to_129; facts = party }

party_is_automatic : (resolve_post_event_cleaning party_request).automatic_pricing_allowed ≡ true
unfolding resolve_post_event_cleaning additional_half_hours outdoor_total
party_is_automatic = refl

IsAutomatic-iff_example :
    ((resolve_post_event_cleaning party_request).automatic_pricing_allowed ≡ true)
    ↔ IsAutomatic party_request
IsAutomatic-iff_example = IsAutomatic-iff party_request

automatic-IsPriced_example : IsPriced (resolve_post_event_cleaning party_request)
automatic-IsPriced_example = automatic-IsPriced party_request party_is_automatic

abbrev two_areas : List OutdoorArea
two_areas = balcony ∷ patio ∷ []

same_two_areas : (a : OutdoorArea) → contains party.outdoor_areas a ≡ contains two_areas a
same_two_areas a = ground arith

resolve-same_areas_example :
    resolve_post_event_cleaning party_request
    ≡ resolve_post_event_cleaning (record {
      floor_size = from_100_to_129;
      facts = record party { outdoor_areas = two_areas };
    })
resolve-same_areas_example = resolve-same_areas from_100_to_129 party two_areas same_two_areas

abbrev two_loads : LaundryRequest
two_loads = record {
  primary_service = some "Deep Cleaning";
  facilities = some washer_dryer;
  laundry_loads = some (nat 2);
  ironing_loads = none;
}

two_loads_accepted : (resolve_laundry_request two_loads).errors ≡ []
unfolding resolve_laundry_request
two_loads_accepted = refl

laundry_errors_iff_example :
    ((resolve_laundry_request two_loads).errors ≡ []) ↔ IsAcceptable two_loads
laundry_errors_iff_example = laundry_errors_iff two_loads

abbrev amounts : Amounts
amounts = record {
  labour = 40_000;
  deployment = 10_000;
  consumables = 5_000;
  reserve = 2_500;
  overhead = 8_000;
  contribution = 16_375;
}

apply_floor_total_example :
    (r : QuoteProfitabilityResult) × (apply_quote_profitability_floor
        (nat 60_000)
        (snapshot_of amounts)
      ≡ ok r)
    × IsFloored 60_000 amounts r
apply_floor_total_example = apply_floor_total 60_000 amounts

abbrev floored : QuoteProfitabilityResult
floored = record {
  cost_total_minor = 65_500;
  required_minimum_minor = 81_875;
  catalogue_subtotal_minor = 60_000;
  profitability_adjustment_minor = 21_875;
  pre_rounding_total_minor = 81_875;
  rounding_adjustment_minor = 125;
  final_total_minor = 82_000;
}

floored_lem : apply_quote_profitability_floor (nat 60_000) (snapshot_of amounts) ≡ ok floored
unfolding apply_quote_profitability_floor
floored_lem = refl

abbrev candidate : QuoteOperationalCostCandidate
candidate = record { amount = amount; provenance = λ k. some "model" }
  where
    amount : QuoteOperationalCostComponent → Option Number
    amount QuoteOperationalCostComponent.labour = some (nat 40_000)
    amount QuoteOperationalCostComponent.deployment = some (nat 10_000)
    amount QuoteOperationalCostComponent.consumables = some (nat 5_000)
    amount QuoteOperationalCostComponent.equipment_vehicle_reserve = some (nat 2_500)
    amount QuoteOperationalCostComponent.overhead = some (nat 8_000)
    amount QuoteOperationalCostComponent.minimum_contribution = some (nat 16_375)

candidate_is_ready :
    validate_operational_cost_candidate (some candidate)
    ≡ ready (snapshot_of amounts) (λ k. some "model")
unfolding validate_operational_cost_candidate
candidate_is_ready = refl

ready_iff_example :
    ((costs : QuoteOperationalCostSnapshot) × (p : QuoteOperationalCostComponent → Option String)
      × (validate_operational_cost_candidate (some candidate) ≡ ready costs p))
    ↔ ((a : Amounts) × ((k : QuoteOperationalCostComponent)
          → value_of (some candidate) k ≡ some (nat (amount_in a k))))
ready_iff_example = ready_iff (some candidate)

abbrev home : QuotePricingInput
home = record {
  schema_version = none;
  property = record {
    floor_size = from_100_to_129;
    bedrooms = Bedrooms.three;
    bathrooms = Bathrooms.two;
    living_areas = LivingAreas.one;
  };
  request = record {
    canonical_service = some "Deep Cleaning";
    add_ons = [];
    eco_friendly_products = none;
    laundry = none;
    post_event = none;
  };
}

home_hours :
    resolve_approved_cleaner_hours home
    ≡ CleanerHoursResolution.ready 32 "approved-labour-matrix:v1"
unfolding resolve_approved_cleaner_hours
home_hours = refl

abbrev home_price : WebsiteQuotePricingResult
home_price = record {
  pricing = record {
    subtotal_minor = 135_000;
    adjustments_minor = 0;
    total_minor = 135_000;
    lines =
        record {
          code = "PRIMARY_DEEP_CLEANING";
          label = "Deep Cleaning";
          quantity = 1;
          unit_amount_minor = 135_000;
          line_amount_minor = 135_000;
        }
        ∷ [];
  };
  attention_reasons = [];
  requires_break_even_review = false;
  profitability = some (record {
    cost_total_minor = 65_500;
    required_minimum_minor = 81_875;
    catalogue_subtotal_minor = 135_000;
    profitability_adjustment_minor = 0;
    pre_rounding_total_minor = 135_000;
    rounding_adjustment_minor = 0;
    final_total_minor = 135_000;
  });
}

home_price_lem : calculate_website_quote_pricing home (some (snapshot_of amounts)) ≡ ok home_price
unfolding calculate_website_quote_pricing apply_quote_profitability_floor subtotal_of
    price_submission primary_step truthy_service named_primary floor_price_minor
    add_floor_priced_primary add_structured_laundry line add_on_reasons
home_price_lem = refl

pricing-IsBalanced_example :
    IsBalanced home_price.pricing × CoversCosts (some (snapshot_of amounts)) home_price.pricing
pricing-IsBalanced_example =
    pricing-IsBalanced home (some (snapshot_of amounts)) {r = home_price} home_price_lem

no_attention-IsUnattended_example : IsUnattended home home_price
no_attention-IsUnattended_example =
    no_attention-IsUnattended home (some (snapshot_of amounts)) {r = home_price} home_price_lem refl

abbrev oven : AddOnInput
oven = record {
  website_value = "oven";
  canonical_service = "Inside Oven Cleaning";
  quantity = some 2;
}

abbrev oven_details : ℕ → Option AdminAddOnReviewDetail
oven_details i = some (record {
  oven_size = some OvenSize.large_double;
  severe_baked_on_grease = some true;
  garage_size = none;
  bathroom_type = none;
})

review_add_ons_complete_example :
    (length (review_add_ons 0 (oven ∷ []) oven_details).lines
        + length (review_add_ons 0 (oven ∷ []) oven_details).reasons
      ≡ 1)
    × (((review_add_ons 0 (oven ∷ []) oven_details).reasons ≡ [])
        ↔ AllPriceable 0 (oven ∷ []) oven_details)
review_add_ons_complete_example = review_add_ons_complete 0 (oven ∷ []) oven_details

abbrev reviewed_home : ReviewedSubmission
reviewed_home = record {
  submission = record home { request = record home.request { add_ons = oven ∷ [] } };
  admin_add_ons = oven_details;
}

abbrev reviewed_price : WebsiteQuotePricingResult
reviewed_price = record {
  pricing = record {
    subtotal_minor = 265_000;
    adjustments_minor = 0;
    total_minor = 265_000;
    lines =
        record {
          code = "PRIMARY_DEEP_CLEANING";
          label = "Deep Cleaning";
          quantity = 1;
          unit_amount_minor = 135_000;
          line_amount_minor = 135_000;
        }
        ∷ record {
          code = "ADDON_INSIDE_OVEN";
          label = "Inside Oven Cleaning — severe baked-on grease";
          quantity = 2;
          unit_amount_minor = 65_000;
          line_amount_minor = 130_000;
        }
        ∷ [];
  };
  attention_reasons = [];
  requires_break_even_review = false;
  profitability = some (record {
    cost_total_minor = 65_500;
    required_minimum_minor = 81_875;
    catalogue_subtotal_minor = 265_000;
    profitability_adjustment_minor = 0;
    pre_rounding_total_minor = 265_000;
    rounding_adjustment_minor = 0;
    final_total_minor = 265_000;
  });
}

reviewed_price_lem :
    calculate_admin_reviewed_quote_pricing reviewed_home (some (snapshot_of amounts))
    ≡ ok reviewed_price
unfolding calculate_admin_reviewed_quote_pricing price_reviewed calculate_website_quote_pricing
    review_add_ons reviewed_add_on keep apply_quote_profitability_floor subtotal_of price_submission
    primary_step truthy_service named_primary floor_price_minor add_floor_priced_primary
    add_structured_laundry line add_on_reasons
reviewed_price_lem = refl

reviewed-IsBalanced_example :
    IsBalanced reviewed_price.pricing
    × CoversCosts (some (snapshot_of amounts)) reviewed_price.pricing
reviewed-IsBalanced_example =
    reviewed-IsBalanced reviewed_home (some (snapshot_of amounts)) {r = reviewed_price}
      reviewed_price_lem
