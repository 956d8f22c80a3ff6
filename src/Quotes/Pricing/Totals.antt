-- ===== src/Quotes/Pricing/Totals.antt =====
-- The totals of a price: lines, adjustments and the profitability floor add up.
use hestiva_os.Base.{
  ◌≡◌, refl, arith, ℕ, ◌+◌, ◌*◌, ◌≤◌, ◌%◌, String, false, Option, none, some, List, [], ◌∷◌, ◌∙◌,
  ap, sym, All, All-append, sum_by,
}
use hestiva_os.Base.Number.{nat}
use hestiva_os.Base.Result.{ok, ok-injective, >>=-eq-ok}
use hestiva_os.Quotes.Profitability.{QuoteOperationalCostSnapshot, apply_quote_profitability_floor}
use hestiva_os.Quotes.Profitability.Laws.{costs_of, amounts_of, apply_floor-IsFloored}
use hestiva_os.Quotes.PostEvent.{FloorSize, PostEventFacts}
use hestiva_os.Quotes.Submission.{QuotePricingInput, truthy_service}
use hestiva_os.Quotes.Lines.{WebsiteQuotePricingLine, line, Pushed, subtotal_of, subtotal_of_lem}
use hestiva_os.Quotes.Primary.{
  add_floor_priced_primary, add_post_event_cleaning_primary, floor_price_minor,
}
use hestiva_os.Quotes.Rooms.{add_room_service_primary, add_structured_laundry}
use hestiva_os.Quotes.Pricing.{
  PricingSnapshot, WebsiteQuotePricingResult, other_primary, floor_or_other, named_primary,
  primary_with, primary_step, price_submission, with_totals, calculate_website_quote_pricing,
}

-- The line's amount is its quantity of units.
abbrev pub IsLine : WebsiteQuotePricingLine → Type 0
IsLine l = l.line_amount_minor ≡ l.unit_amount_minor * l.quantity

abbrev pub HasLines : Pushed → Type 0
HasLines p = All IsLine p.lines

line-IsLine : (c l : String) (q u : ℕ) → IsLine (line c l q u)
unfolding line
line-IsLine c l q u = refl

floor_priced-HasLines :
    (q : QuotePricingInput) (service : String) (row : FloorSize → Option ℕ)
    → HasLines (add_floor_priced_primary q service row)
unfolding add_floor_priced_primary line
floor_priced-HasLines q service row = ground arith

post_event-HasLines :
    (size : FloorSize) (facts : Option PostEventFacts)
    → HasLines (add_post_event_cleaning_primary size facts)
unfolding add_post_event_cleaning_primary line
post_event-HasLines size none = tt
post_event-HasLines size (some facts) = ground arith

room-HasLines :
    (q : QuotePricingInput) (service : String) → HasLines (add_room_service_primary q service)
unfolding add_room_service_primary line
room-HasLines q service = ground arith

laundry-HasLines : (q : QuotePricingInput) → HasLines (add_structured_laundry q)
unfolding add_structured_laundry line
laundry-HasLines q = ground arith

other-HasLines : (q : QuotePricingInput) (service : String) → HasLines (other_primary q service)
unfolding other_primary line
other-HasLines q service = ground (arith, room-HasLines q service)

floor_or_other-HasLines :
    (q : QuotePricingInput) (service : String) (row : Option (FloorSize → Option ℕ))
    → HasLines (floor_or_other q service row)
unfolding floor_or_other
floor_or_other-HasLines q service none = other-HasLines q service
floor_or_other-HasLines q service (some row) = floor_priced-HasLines q service row

named-HasLines : (q : QuotePricingInput) (service : String) → HasLines (named_primary q service)
unfolding named_primary
named-HasLines q service = ground (
  arith,
  post_event-HasLines q.property.floor_size q.request.post_event,
  floor_or_other-HasLines q service (floor_price_minor service),
)

primary_with-HasLines :
    (q : QuotePricingInput) (service : Option String) → HasLines (primary_with q service)
unfolding primary_with
primary_with-HasLines q none = tt
primary_with-HasLines q (some service) = named-HasLines q service

primary-HasLines : (q : QuotePricingInput) → HasLines (primary_step q)
unfolding primary_step
primary-HasLines q = primary_with-HasLines q (truthy_service q.request.canonical_service)

pub price_submission-HasLines : (q : QuotePricingInput) → HasLines (price_submission q)
unfolding price_submission line
price_submission-HasLines q =
    All-append IsLine _ _ (primary-HasLines q)
      (All-append IsLine _ _ (laundry-HasLines q) (ground arith))

-- The snapshot's figures belong together.
pub record IsBalanced (s : PricingSnapshot) : Type 0 where
  pub each_line : All IsLine s.lines
  pub subtotal : s.subtotal_minor ≡ sum_by (λ l. l.unit_amount_minor * l.quantity) s.lines
  pub total : s.total_minor ≡ s.subtotal_minor + s.adjustments_minor

sum-lines :
    (ls : List WebsiteQuotePricingLine)
    → All IsLine ls
    → sum_by (λ l. l.line_amount_minor) ls ≡ sum_by (λ l. l.unit_amount_minor * l.quantity) ls
sum-lines [] h = refl
sum-lines (l ∷ ls) h = omega (arith, sum-lines ls h.1)

-- A floor that succeeds covers the costs of the snapshot that it was given.
abbrev pub CoversCosts : Option QuoteOperationalCostSnapshot → PricingSnapshot → Type 0
CoversCosts none s = s.total_minor ≡ s.subtotal_minor
CoversCosts (some c) s =
    (costs_of (amounts_of c) + (amounts_of c).contribution ≤ s.total_minor)
    × (s.total_minor % 1_000 ≡ 0)

pub with_totals-IsBalanced :
    (message : String) (p : Pushed) (costs : Option QuoteOperationalCostSnapshot)
    {r : WebsiteQuotePricingResult}
    → HasLines p
    → with_totals message p costs ≡ ok r
    → IsBalanced r.pricing × CoversCosts costs r.pricing
unfolding with_totals
with_totals-IsBalanced message p none h e = rw (← ok-injective e) (
  record {
    each_line = h;
    subtotal = subtotal_of_lem p.lines ∙ sum-lines p.lines h;
    total = omega arith;
  },
  refl,
)
with_totals-IsBalanced message p (some costs) h e =
    let (floor, found, same) = >>=-eq-ok _ _ e in
    let fl = apply_floor-IsFloored (subtotal_of p.lines) costs found in
    rw (← ok-injective same) (
      record {
        each_line = h;
        subtotal = subtotal_of_lem p.lines ∙ sum-lines p.lines h;
        total = omega (arith, fl.covers_subtotal);
      },
      (fl.covers_costs, fl.whole_ten_rand),
    )

-- With costs the lines and the reasons are those that the steps pushed.
pub with_totals-costed :
    (message : String) (p : Pushed) (costs : QuoteOperationalCostSnapshot)
    {r : WebsiteQuotePricingResult}
    → with_totals message p (some costs) ≡ ok r
    → (r.pricing.lines ≡ p.lines)
      × (r.attention_reasons ≡ p.reasons)
      × (r.requires_break_even_review ≡ false)
unfolding with_totals
with_totals-costed message p costs e =
    let (floor, found, same) =
      >>=-eq-ok (apply_quote_profitability_floor (nat (subtotal_of p.lines)) costs) _ e in
    let equal = sym (ok-injective same) in
    (
      ap (λ (x : WebsiteQuotePricingResult). x.pricing.lines) equal,
      ap (λ (x : WebsiteQuotePricingResult). x.attention_reasons) equal,
      ap (λ (x : WebsiteQuotePricingResult). x.requires_break_even_review) equal,
    )

-- Of every price that the calculation returns, each line's amount is its quantity of units, the
-- subtotal is the sum of the lines, the total is the subtotal plus the adjustments, and with costs
-- the total covers them with the minimum contribution and is a multiple of 1 000; without costs it
-- is the subtotal.
pub pricing-IsBalanced :
    (q : QuotePricingInput) (costs : Option QuoteOperationalCostSnapshot)
    {r : WebsiteQuotePricingResult}
    → calculate_website_quote_pricing q costs ≡ ok r
    → IsBalanced r.pricing × CoversCosts costs r.pricing
unfolding calculate_website_quote_pricing
pricing-IsBalanced q costs e =
    with_totals-IsBalanced _ (price_submission q) costs (price_submission-HasLines q) e
