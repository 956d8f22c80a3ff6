-- ===== src/Quotes/Intake/Settled.antt =====
-- What the status `SUBMITTED` of a new quote stands for: apps/api/src/quotes/quote-submission.service.ts
-- with the pricing of website-quote-pricing.ts.
use hestiva_os.Base.{
  ◌≡◌, refl, arith, ℕ, String, Option, some, List, [], length, sym, ◌∙◌, inl, inr, Option-cases,
}
use hestiva_os.Quotes.Profitability.{QuoteOperationalCostSnapshot}
use hestiva_os.Quotes.CostSource.{
  QuoteOperationalCostCandidate, QuoteOperationalCostResolution,
  validate_operational_cost_candidate, keep,
}
use hestiva_os.Quotes.Pricing.{PricingSnapshot, WebsiteQuotePricingResult}
use hestiva_os.Quotes.Pricing.Totals.{CoversCosts, pricing-IsBalanced}
use hestiva_os.Quotes.Pricing.Attention.{IsPrimaryFrom, no_attention-IsUnattended}
use hestiva_os.Base.Result.{ok}
use hestiva_os.Quotes.Intake.Records.{
  QuoteStatus, submitted, Quote, QuoteSubmissionReplayResolution,
}
use hestiva_os.Quotes.Intake.Submit.{
  AuthoritativeQuoteSubmissionInput, QuoteTables, SubmissionReason, Submission, created, is_failed,
  costs_of, status_of, reasons_of, submit,
}
use hestiva_os.Quotes.Intake.Once.{Creates, submit-cases}

-- The three things that a status of `SUBMITTED` has found.
record IsClear (costs : QuoteOperationalCostResolution) (r : WebsiteQuotePricingResult) (failed : ℕ)
    : Type 0 where
  pub known_costs : QuoteOperationalCostSnapshot
  pub costed : costs_of costs ≡ some known_costs
  pub no_reason : r.attention_reasons ≡ []
  pub none_failed : failed ≡ 0

status_of-IsClear :
    (costs : QuoteOperationalCostResolution) (r : WebsiteQuotePricingResult) (failed : ℕ)
    → status_of costs r failed ≡ submitted
    → IsClear costs r failed
unfolding status_of
status_of-IsClear costs r failed e = elim (Option-cases (costs_of costs)) [
  | inl missing ↦ absurd (ground arith)
  | inr (known, found) ↦ record {
    known_costs = known;
    costed = found;
    no_reason = ground arith;
    none_failed = ground arith;
  }
]

-- A quote that no one has to look at before it is sent out.
pub record IsSound (input : AuthoritativeQuoteSubmissionInput)
    (candidate : Option QuoteOperationalCostCandidate) (p : PricingSnapshot)
    (reasons : List SubmissionReason) : Type 0 where
  pub costs : QuoteOperationalCostSnapshot
  pub costed : costs_of (validate_operational_cost_candidate candidate) ≡ some costs
  pub covered : CoversCosts (some costs) p
  pub primary_priced : IsPrimaryFrom 85_000 p.lines
  pub no_add_ons : input.pricing_submission.request.add_ons ≡ []
  pub no_failed_photo : length (keep is_failed input.photos) ≡ 0
  pub no_reason : reasons ≡ []

Creates-IsSound :
    (id business_date : String) (input : AuthoritativeQuoteSubmissionInput)
    (candidate : Option QuoteOperationalCostCandidate) {t : QuoteTables} {s : Submission}
    (c : Creates id business_date input candidate t s)
    → c.status ≡ submitted
    → IsSound input candidate c.result.pricing
        (reasons_of c.result (length (keep is_failed input.photos)))
unfolding reasons_of
Creates-IsSound id business_date input candidate c e =
    let clear = status_of-IsClear _ _ _ (sym c.judged ∙ e) in
    let plain = no_attention-IsUnattended input.pricing_submission _ c.priced clear.no_reason in
    let (balanced, covers) = pricing-IsBalanced input.pricing_submission _ c.priced in
    record {
      costs = clear.known_costs;
      costed = clear.costed;
      covered = rw clear.costed at covers;
      primary_priced = plain.priced;
      no_add_ons = plain.no_add_ons;
      no_failed_photo = clear.none_failed;
      no_reason = rw (clear.no_reason, clear.none_failed) refl;
    }

created-injective :
    {i i' r r' : String} {status status' : QuoteStatus} {p p' : PricingSnapshot}
    {reasons reasons' : List SubmissionReason}
    → created i r status p reasons ≡ created i' r' status' p' reasons'
    → (status ≡ status') × (p ≡ p') × (reasons ≡ reasons')
created-injective e = (cc, cc, cc)

-- A quote is created as `SUBMITTED` only if its costs are known, its total covers them with the minimum
-- contribution, its first line has the code of a primary service and amounts to 85 000 minor units or more, no add-on was
-- asked for, no photo failed, and there is no reason for attention.
pub submitted-IsSound :
    (id business_date : String) (input : AuthoritativeQuoteSubmissionInput)
    (candidate : Option QuoteOperationalCostCandidate)
    (resolve : Option Quote → QuoteSubmissionReplayResolution) (before t : QuoteTables)
    {s : Submission} {i reference : String} {p : PricingSnapshot} {reasons : List SubmissionReason}
    → submit id business_date input resolve candidate before t ≡ ok s
    → s.answer ≡ created i reference submitted p reasons
    → IsSound input candidate p reasons
submitted-IsSound id business_date input candidate resolve before t e made =
    elim (submit-cases id business_date input candidate resolve before t e) [
      | inl known ↦ absurd (ground (arith, known.answers, made))
      | inr c ↦
          let (status, price, reasons) = created-injective (sym c.answers ∙ made) in
          rw (← price, ← reasons) (Creates-IsSound id business_date input candidate c status)
    ]
