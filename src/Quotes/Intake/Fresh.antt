-- ===== src/Quotes/Intake/Fresh.antt =====
-- A submission under a fresh key is stored, whatever its costs: `submit` of
-- apps/api/src/quotes/quote-submission.service.ts with quote-operational-cost-source.ts and
-- website-quote-pricing.ts.
use hestiva_os.Base.{◌≡◌, suc, String, Option, length}
use hestiva_os.Quotes.CostSource.{
  QuoteOperationalCostCandidate, needs_attention as costs_incomplete,
  validate_operational_cost_candidate, keep,
}
use hestiva_os.Quotes.Pricing.{WebsiteQuotePricingResult}
use hestiva_os.Quotes.Intake.Records.{Quote, QuoteSubmissionReplayResolution}
use hestiva_os.Quotes.Intake.Submit.{
  AuthoritativeQuoteSubmissionInput, QuoteTables, SubmissionAnswer, Submission, created, replayed,
  answered, is_failed, status_of, reasons_of, reference_of, created_quote, with_quote,
}

-- The answer is a new quote of the id.
abbrev pub IsCreated : String → SubmissionAnswer → Type 0
IsCreated id (created i reference status p reasons) = i ≡ id
IsCreated id (replayed i reference response) = ⊥

module _ (id business_date : String) (input : AuthoritativeQuoteSubmissionInput)
    (resolve : Option Quote → QuoteSubmissionReplayResolution)
    (candidate : Option QuoteOperationalCostCandidate) (before t : QuoteTables) where
  -- What a submission with this price stores and answers.
  made : WebsiteQuotePricingResult → Submission
  made result =
      let failed_photos = length (keep is_failed input.photos) in
      let status = status_of (validate_operational_cost_candidate candidate) result failed_photos in
      let reference = reference_of business_date (suc (t.counters business_date)) in
      answered (created id reference status result.pricing (reasons_of result failed_photos)) (
        with_quote id business_date input t
          (created_quote input id reference status result.pricing))
