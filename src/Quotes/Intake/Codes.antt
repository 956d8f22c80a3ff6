-- ===== src/Quotes/Intake/Codes.antt =====
-- The codes of priced lines, as apps/api/src/quotes/quote-submission.service.ts classifies them.
use hestiva_os.Base.{
  ◌≡◌, refl, arith, ℕ, String, true, false, Option, none, some, ap, sym, All, All-append, inl, inr,
  Bool-cases, is_empty,
}
use hestiva_os.Base.Text.{starts_with}
use hestiva_os.Base.Result.{ok, ok-injective}
use hestiva_os.Quotes.Profitability.{QuoteOperationalCostSnapshot}
use hestiva_os.Quotes.PostEvent.{FloorSize, unknown, PostEventFacts}
use hestiva_os.Quotes.Submission.{QuotePricingInput, WebsiteLaundryRequest, truthy_service}
use hestiva_os.Quotes.Lines.{WebsiteQuotePricingLine, line, Pushed}
use hestiva_os.Quotes.Primary.{
  add_floor_priced_primary, add_post_event_cleaning_primary, floor_price_minor, primary_code,
  floor_priced_with,
}
use hestiva_os.Quotes.Rooms.{
  add_room_service_primary, laundry_line, ironing_line, laundry_pushed, structured_laundry_with,
  add_structured_laundry,
}
use hestiva_os.Quotes.Laundry.{
  LaundryOutcome, wash_dry_fold, wash_hang, LaundryResolution, resolve_laundry_request,
}
use hestiva_os.Quotes.Pricing.{
  WebsiteQuotePricingResult, other_primary, floor_or_other, named_primary, primary_with,
  primary_step, price_submission, break_even_message, with_totals, calculate_website_quote_pricing,
}
use hestiva_os.Quotes.Intake.Replay.{is_adjustment}
use hestiva_os.Quotes.Intake.Submit.{stored_line, quote_line_item_type}
use hestiva_os.Quotes.Pricing.Totals.{with_totals-costed}
use hestiva_os.Quotes.Pricing.Attention.{primary_code-starts_with}

-- The line is kept as a service or an add-on.
abbrev pub IsCoded : WebsiteQuotePricingLine → Type 0
IsCoded l = is_adjustment (stored_line l) ≡ false

abbrev HasCodes : Pushed → Type 0
HasCodes p = All IsCoded p.lines

-- The code of a primary service is kept as one.
primary-IsCoded :
    (c l : String) (q u : ℕ) → starts_with "PRIMARY_" c ≡ true → IsCoded (line c l q u)
unfolding line stored_line quote_line_item_type
primary-IsCoded c l q u e = rw e refl

primary_code-IsCoded : (service l : String) (q u : ℕ) → IsCoded (line (primary_code service) l q u)
primary_code-IsCoded service l q u =
    primary-IsCoded (primary_code service) l q u (primary_code-starts_with service)

floor_with-HasCodes :
    (service : String) (size : FloorSize) (amount : Option ℕ)
    → HasCodes (floor_priced_with service size amount)
unfolding floor_priced_with
floor_with-HasCodes service unknown amount = tt
floor_with-HasCodes service size none = ground arith
floor_with-HasCodes service size (some amount) = (primary_code-IsCoded service service 1 amount, tt)

floor_priced-HasCodes :
    (q : QuotePricingInput) (service : String) (row : FloorSize → Option ℕ)
    → HasCodes (add_floor_priced_primary q service row)
unfolding add_floor_priced_primary
floor_priced-HasCodes q service row =
    floor_with-HasCodes service q.property.floor_size (row q.property.floor_size)

post_event-HasCodes :
    (size : FloorSize) (facts : Option PostEventFacts)
    → HasCodes (add_post_event_cleaning_primary size facts)
unfolding add_post_event_cleaning_primary line stored_line quote_line_item_type
post_event-HasCodes size none = tt
post_event-HasCodes size (some facts) = ground arith

room-HasCodes :
    (q : QuotePricingInput) (service : String) → HasCodes (add_room_service_primary q service)
unfolding add_room_service_primary line stored_line quote_line_item_type
room-HasCodes q service = ground arith

laundry_line-HasCodes :
    (outcome : Option LaundryOutcome) (loads : ℕ) (unit : Option ℕ)
    → HasCodes (laundry_line outcome loads unit)
unfolding laundry_line line stored_line quote_line_item_type
laundry_line-HasCodes none loads unit = tt
laundry_line-HasCodes (some _) loads none = tt
laundry_line-HasCodes (some wash_dry_fold) loads (some unit) = ground arith
laundry_line-HasCodes (some wash_hang) loads (some unit) = ground arith

ironing_line-HasCodes : (loads : ℕ) (unit : Option ℕ) → HasCodes (ironing_line loads unit)
unfolding ironing_line line stored_line quote_line_item_type
ironing_line-HasCodes loads none = tt
ironing_line-HasCodes loads (some unit) = ground arith

laundry_pushed-HasCodes : (r : LaundryResolution) → HasCodes (laundry_pushed r)
unfolding laundry_pushed
laundry_pushed-HasCodes r = elim (Bool-cases (is_empty r.errors)) [
  | inl fine ↦ rw fine (
      All-append IsCoded _ _
        (laundry_line-HasCodes r.resolved.outcome r.resolved.laundry_loads
          r.resolved.laundry_unit_amount_minor)
        (ironing_line-HasCodes r.resolved.ironing_loads r.resolved.ironing_unit_amount_minor))
  | inr refused ↦ rw refused tt
]

structured_laundry-HasCodes :
    (service : Option String) (l : Option WebsiteLaundryRequest)
    → HasCodes (structured_laundry_with service l)
unfolding structured_laundry_with
structured_laundry-HasCodes service none = tt
structured_laundry-HasCodes service (some l) = laundry_pushed-HasCodes (
    resolve_laundry_request (record {
      primary_service = service;
      facilities = l.facilities;
      laundry_loads = l.laundry_loads;
      ironing_loads = l.ironing_loads;
    }))

laundry-HasCodes : (q : QuotePricingInput) → HasCodes (add_structured_laundry q)
unfolding add_structured_laundry
laundry-HasCodes q =
    ground (arith, structured_laundry-HasCodes q.request.canonical_service q.request.laundry)

other-HasCodes : (q : QuotePricingInput) (service : String) → HasCodes (other_primary q service)
unfolding other_primary line stored_line quote_line_item_type
other-HasCodes q service = ground (arith, room-HasCodes q service)

floor_or_other-HasCodes :
    (q : QuotePricingInput) (service : String) (row : Option (FloorSize → Option ℕ))
    → HasCodes (floor_or_other q service row)
unfolding floor_or_other
floor_or_other-HasCodes q service none = other-HasCodes q service
floor_or_other-HasCodes q service (some row) = floor_priced-HasCodes q service row

named-HasCodes : (q : QuotePricingInput) (service : String) → HasCodes (named_primary q service)
unfolding named_primary
named-HasCodes q service = ground (
  arith,
  post_event-HasCodes q.property.floor_size q.request.post_event,
  floor_or_other-HasCodes q service (floor_price_minor service),
)

primary_with-HasCodes :
    (q : QuotePricingInput) (service : Option String) → HasCodes (primary_with q service)
unfolding primary_with
primary_with-HasCodes q none = tt
primary_with-HasCodes q (some service) = named-HasCodes q service

price_submission-HasCodes : (q : QuotePricingInput) → HasCodes (price_submission q)
unfolding price_submission primary_step line stored_line quote_line_item_type
price_submission-HasCodes q =
    All-append IsCoded _ _ (primary_with-HasCodes q (truthy_service q.request.canonical_service))
      (All-append IsCoded _ _ (laundry-HasCodes q) (ground arith))

with_totals-lines :
    (message : String) (p : Pushed) (costs : Option QuoteOperationalCostSnapshot)
    {r : WebsiteQuotePricingResult}
    → with_totals message p costs ≡ ok r
    → r.pricing.lines ≡ p.lines
unfolding with_totals
with_totals-lines message p none e =
    ap (λ (x : WebsiteQuotePricingResult). x.pricing.lines) (sym (ok-injective e))
with_totals-lines message p (some costs) e =
    let (lines, reasons, review) = with_totals-costed message p costs e in lines

-- No line of a price is kept as an adjustment.
pub pricing-IsCoded :
    (q : QuotePricingInput) (costs : Option QuoteOperationalCostSnapshot)
    {r : WebsiteQuotePricingResult}
    → calculate_website_quote_pricing q costs ≡ ok r
    → All IsCoded r.pricing.lines
unfolding calculate_website_quote_pricing
pricing-IsCoded q costs e =
    rw (with_totals-lines break_even_message (price_submission q) costs e)
      (price_submission-HasCodes q)
