-- ===== src/Quotes/Pricing/Attention.antt =====
-- A price without an attention reason is backed by a priced primary service.
use hestiva_os.Base.{
  ◌≡◌, ◌≢◌, refl, arith, ℕ, ◌≤◌, String, Bool, if◌then◌else◌, true, false, Option, none, some, List,
  [], ◌∷◌, ◌++◌, inl, inr, ap, sym, ◌∙◌, append-eq-nil_left, append-eq-nil_right, ◌⊎◌, Option-cases,
}
use hestiva_os.Base.Text.{◌===◌, starts_with}
use hestiva_os.Base.Result.{ok, ok-injective}
use hestiva_os.Quotes.Profitability.{QuoteOperationalCostSnapshot}
use hestiva_os.Quotes.PostEvent.{FloorSize, PostEventFacts}
use hestiva_os.Quotes.PostEvent.Laws.{automatic-IsPriced}
use hestiva_os.Quotes.Submission.{QuotePricingInput, AddOnInput, truthy_service}
use hestiva_os.Quotes.Lines.{WebsiteQuotePricingLine, AttentionReason, line, Pushed}
use hestiva_os.Quotes.Primary.{
  primary_code, add_floor_priced_primary, add_post_event_cleaning_primary, floor_price_minor,
}
use hestiva_os.Quotes.Rooms.{add_room_service_primary}
use hestiva_os.Quotes.Pricing.{
  WebsiteQuotePricingResult, other_primary, floor_or_other, named_primary, primary_with,
  primary_step, price_submission, break_even_message, calculate_website_quote_pricing,
  add_on_reasons,
}
use hestiva_os.Quotes.Pricing.Totals.{with_totals-costed}

-- The first line is there, is coded as a primary service, and its amount is at least the bound.
abbrev pub IsPrimaryFrom : ℕ → List WebsiteQuotePricingLine → Type 0
IsPrimaryFrom least [] = ⊥
IsPrimaryFrom least (l ∷ ls) =
    (starts_with "PRIMARY_" l.code ≡ true) × (least ≤ l.line_amount_minor)

-- A step that gives no reason has pushed a priced line.
abbrev IsBacked : Pushed → Type 0
IsBacked p = p.reasons ≡ [] → IsPrimaryFrom 85_000 p.lines

floor_price_from :
    (service : String) (size : FloorSize) (row : FloorSize → Option ℕ) {amount : ℕ}
    → floor_price_minor service ≡ some row
    → row size ≡ some amount
    → ((service === "Regular Home Cleaning") ≡ true) ⊎ (100_000 ≤ amount)
unfolding floor_price_minor
floor_price_from service size row e f = ground arith

-- The codes of the table, whatever the tests of the service say.
table_code-starts_with :
    (regular deep move_in : Bool)
    → starts_with "PRIMARY_" (
        if regular
        then "PRIMARY_REGULAR_HOME_CLEANING"
        else if deep
        then "PRIMARY_DEEP_CLEANING"
        else if move_in
        then "PRIMARY_MOVE_IN_CLEANING"
        else "PRIMARY_MOVE_OUT_CLEANING")
      ≡ true
unfolding starts_with
table_code-starts_with true deep move_in = refl
table_code-starts_with false true move_in = refl
table_code-starts_with false false true = refl
table_code-starts_with false false false = refl

pub primary_code-starts_with :
    (service : String) → starts_with "PRIMARY_" (primary_code service) ≡ true
unfolding primary_code
primary_code-starts_with service =
    table_code-starts_with (service === "Regular Home Cleaning") (service === "Deep Cleaning")
      (service === "Move-In Cleaning")

floor_priced-IsBacked :
    (q : QuotePricingInput) (service : String) (row : FloorSize → Option ℕ)
    → floor_price_minor service ≡ some row
    → IsBacked (add_floor_priced_primary q service row)
unfolding add_floor_priced_primary line
floor_priced-IsBacked q service row e none_given = elim (Option-cases (row q.property.floor_size)) [
  | inl missing ↦ absurd (ground arith)
  | inr (amount, found) ↦ ground (
    arith,
    floor_price_from service q.property.floor_size row e found,
    primary_code-starts_with service,
  )
]

post_event-IsBacked :
    (size : FloorSize) (facts : Option PostEventFacts)
    → IsBacked (add_post_event_cleaning_primary size facts)
unfolding add_post_event_cleaning_primary line starts_with
post_event-IsBacked size none h = absurd (ground arith)
post_event-IsBacked size (some facts) h =
    ground (arith, automatic-IsPriced (record { floor_size = size; facts = facts }))

other-IsBacked : (q : QuotePricingInput) (service : String) → IsBacked (other_primary q service)
unfolding other_primary add_room_service_primary
other-IsBacked q service h = ground arith

floor_or_other-IsBacked :
    (q : QuotePricingInput) (service : String) (row : Option (FloorSize → Option ℕ))
    → floor_price_minor service ≡ row
    → IsBacked (floor_or_other q service row)
unfolding floor_or_other
floor_or_other-IsBacked q service none e = other-IsBacked q service
floor_or_other-IsBacked q service (some row) e = floor_priced-IsBacked q service row e

named-IsBacked : (q : QuotePricingInput) (service : String) → IsBacked (named_primary q service)
unfolding named_primary
named-IsBacked q service h = ground (
  arith,
  post_event-IsBacked q.property.floor_size q.request.post_event,
  floor_or_other-IsBacked q service (floor_price_minor service) refl,
)

primary_with-IsBacked :
    (q : QuotePricingInput) (service : Option String) → IsBacked (primary_with q service)
unfolding primary_with
primary_with-IsBacked q none h = absurd (ground arith)
primary_with-IsBacked q (some service) h = named-IsBacked q service h

IsPrimaryFrom-append :
    (least : ℕ) (ls ms : List WebsiteQuotePricingLine)
    → IsPrimaryFrom least ls
    → IsPrimaryFrom least (ls ++ ms)
IsPrimaryFrom-append least [] ms h = absurd h
IsPrimaryFrom-append least (l ∷ ls) ms h = h

append-cons-ne-nil : (xs : List AttentionReason) (y : AttentionReason) → xs ++ y ∷ [] ≢ []
append-cons-ne-nil [] y e = cc
append-cons-ne-nil (x ∷ xs) y e = cc

add_on_reasons-eq-nil : (i : ℕ) (asked : List AddOnInput) → add_on_reasons i asked ≡ [] → asked ≡ []
unfolding add_on_reasons
add_on_reasons-eq-nil i [] e = refl
add_on_reasons-eq-nil i (a ∷ asked) e = cc

-- A price that no one has to look at.
pub record IsUnattended (q : QuotePricingInput) (r : WebsiteQuotePricingResult) : Type 0 where
  pub priced : IsPrimaryFrom 85_000 r.pricing.lines
  pub no_add_ons : q.request.add_ons ≡ []
  pub floor_applied : r.requires_break_even_review ≡ false

price_submission-eq-nil :
    (q : QuotePricingInput)
    → (price_submission q).reasons ≡ []
    → IsPrimaryFrom 85_000 (price_submission q).lines × (q.request.add_ons ≡ [])
unfolding price_submission primary_step
price_submission-eq-nil q e =
    let rest = append-eq-nil_right _ _ e in
    (
      IsPrimaryFrom-append 85_000 _ _ (
          primary_with-IsBacked q (truthy_service q.request.canonical_service)
            (append-eq-nil_left _ _ e)),
      add_on_reasons-eq-nil 0 q.request.add_ons (append-eq-nil_left _ _ rest),
    )

-- A price comes without any attention reason only if its first line has the code of a primary service
-- and amounts to 85 000 minor units or more, no add-on was asked for, and the profitability floor was applied.
pub no_attention-IsUnattended :
    (q : QuotePricingInput) (costs : Option QuoteOperationalCostSnapshot)
    {r : WebsiteQuotePricingResult}
    → calculate_website_quote_pricing q costs ≡ ok r
    → r.attention_reasons ≡ []
    → IsUnattended q r
unfolding calculate_website_quote_pricing
no_attention-IsUnattended q none {r} e clear =
    let reasons =
      ap (λ (x : WebsiteQuotePricingResult). x.attention_reasons) (ok-injective e) ∙ clear in
    absurd (append-cons-ne-nil _ _ reasons)
no_attention-IsUnattended q (some costs) {r} e clear =
    let (lines, reasons, applied) =
      with_totals-costed break_even_message (price_submission q) costs e in
    let (backed, plain) = price_submission-eq-nil q (sym reasons ∙ clear) in
    record { priced = rw lines backed; no_add_ons = plain; floor_applied = applied }
