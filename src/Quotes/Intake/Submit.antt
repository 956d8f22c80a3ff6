-- ===== src/Quotes/Intake/Submit.antt =====
-- `QuoteSubmissionService.submit` of apps/api/src/quotes/quote-submission.service.ts. The replay is
-- resolved on the tables as they are at first, and the transaction runs on the tables as they are
-- then: a quote that has come to stand under the key in between violates the key's uniqueness, the
-- one constraint of which the model knows, since the counter keeps the references apart. The metadata
-- of activities is left out.
use hestiva_os.Base.{
  ℕ, suc, ◌+◌, String, Bool, true, false, not, ◌||◌, Option, none, some, List, [], ◌∷◌, ◌++◌, map,
  length, when, is_some, is_empty, if◌then◌else◌, ltb,
}
use hestiva_os.Base.Text.{◌===◌, ◌<+>◌, starts_with, decimal}
use hestiva_os.Base.Json.{Value}
use hestiva_os.Base.Result.{Result, ok, err, ◌>>=◌, ◌>>◌, throw_if}
use hestiva_os.Quotes.Profitability.{QuoteOperationalCostSnapshot, AmountError}
use hestiva_os.Quotes.CostSource.{
  QuoteOperationalCostCandidate, QuoteOperationalCostResolution, ready,
  needs_attention as costs_incomplete, validate_operational_cost_candidate, keep,
}
use hestiva_os.Quotes.Submission.{QuotePricingInput}
use hestiva_os.Quotes.Lines.{WebsiteQuotePricingLine, AttentionReason}
use hestiva_os.Quotes.Pricing.{
  PricingSnapshot, WebsiteQuotePricingResult, calculate_website_quote_pricing,
}
use hestiva_os.Quotes.Intake.Records.{
  QuoteStatus, submitted, needs_attention, customer_submission, QuoteLineItemType, primary_service,
  add_on, adjustment, QuotePhotoStatus, failed, quote_submitted, needs_attention_set, photo_added,
  QuoteLineItem, QuoteActivity, QuotePhoto, Quote, WebsiteQuoteReplayResponse,
  QuoteSubmissionReplayResolution, new_submission, replay, conflict, corrupt_existing,
}

pub record AuthoritativeQuoteSubmissionInput : Type 0 where
  pub submission_key : String
  pub submitted_at : ℕ
  pub pricing_submission : QuotePricingInput
  pub structured_data : Value
  pub photos : List QuotePhoto

-- The quotes under their submission keys, and the last number of each day's references.
pub record QuoteTables : Type 0 where
  pub quotes : String → Option Quote
  pub counters : String → ℕ

pub data SubmissionError : Type 0 where
  identity_conflict identity_corrupt daily_limit concurrent_conflict unreconciled : SubmissionError
  not_priced : AmountError → SubmissionError

pub data SubmissionReason : Type 0 where
  pricing_reason : AttentionReason → SubmissionReason
  photo_reason : String → SubmissionReason

pub data SubmissionAnswer : Type 0 where
  replayed : (id reference : String) → Option WebsiteQuoteReplayResponse → SubmissionAnswer
  created :
      (id reference : String)
      → QuoteStatus
      → PricingSnapshot
      → List SubmissionReason
      → SubmissionAnswer

pub record Submission : Type 0 where
  pub answer : SubmissionAnswer
  pub tables : QuoteTables

unfoldable pub quote_line_item_type : String → QuoteLineItemType
unfolding starts_with
quote_line_item_type code =
    if starts_with "PRIMARY_" code
    then primary_service
    else if starts_with "ADDON_" code || starts_with "PREFERENCE_" code
    then add_on
    else adjustment

unfoldable pub stored_line : WebsiteQuotePricingLine → QuoteLineItem
unfolding quote_line_item_type
stored_line l = record {
  type = quote_line_item_type l.code;
  code = some l.code;
  label = l.label;
  quantity = l.quantity;
  unit_amount_minor = l.unit_amount_minor;
  line_total_minor = l.line_amount_minor;
}

abbrev pub adjustment_item : ℕ → QuoteLineItem
adjustment_item amount = record {
  type = adjustment;
  code = some "PROFITABILITY_FLOOR_ADJUSTMENT";
  label = "Profitability safeguard adjustment";
  quantity = 1;
  unit_amount_minor = amount;
  line_total_minor = amount;
}

unfoldable pub stored_lines : PricingSnapshot → List QuoteLineItem
stored_lines p =
    map stored_line p.lines
    ++ when (ltb 0 p.adjustments_minor) (adjustment_item p.adjustments_minor)

abbrev pub is_failed : QuotePhoto → Bool
is_failed p = test p.status
  where
    test : QuotePhotoStatus → Bool
    test failed = true
    test _ = false

abbrev pub costs_of : QuoteOperationalCostResolution → Option QuoteOperationalCostSnapshot
costs_of (ready costs provenance) = some costs
costs_of (costs_incomplete missing invalid provenance) = none

unfoldable pub status_of :
    QuoteOperationalCostResolution → WebsiteQuotePricingResult → ℕ → QuoteStatus
status_of costs result failed_photos =
    if not (is_some (costs_of costs))
      || not (is_empty result.attention_reasons)
      || ltb 0 failed_photos
    then needs_attention
    else submitted

unfoldable pub reasons_of : WebsiteQuotePricingResult → ℕ → List SubmissionReason
reasons_of result failed_photos =
    map pricing_reason result.attention_reasons
    ++ when (ltb 0 failed_photos) (
        photo_reason
          (decimal failed_photos <+> " customer photo(s) require storage reconciliation."))

abbrev pub is_needs_attention : QuoteStatus → Bool
is_needs_attention needs_attention = true
is_needs_attention _ = false

abbrev pub activities_of : QuoteStatus → List QuotePhoto → List QuoteActivity
activities_of status photos =
    record { type = quote_submitted; new_status = some status }
    ∷ (when (is_needs_attention status)
          (record { type = needs_attention_set; new_status = some status })
        ++ map (λ p. record { type = photo_added; new_status = some status }) photos)

-- Thirty days in milliseconds.
abbrev pub validity : ℕ
validity = 2_592_000_000

-- `String(sequence).padStart(4, '0')`, below ten thousand.
unfoldable pub padded : ℕ → String
unfolding decimal
padded n =
    (if ltb n 10 then "000" else if ltb n 100 then "00" else if ltb n 1_000 then "0" else "")
    <+> decimal n

abbrev pub reference_of : String → ℕ → String
reference_of business_date sequence = "Q-" <+> business_date <+> "-" <+> padded sequence

unfoldable pub created_quote :
    AuthoritativeQuoteSubmissionInput
    → (id reference : String) → QuoteStatus
    → PricingSnapshot
    → Quote
created_quote input id reference status p = record {
  id = id;
  reference = reference;
  status = status;
  current_revision_number = 1;
  valid_until = input.submitted_at + validity;
  revisions =
      record {
        revision_number = 1;
        origin = customer_submission;
        structured_data = input.structured_data;
        currency = "ZAR";
        subtotal_minor = p.subtotal_minor;
        total_minor = p.total_minor;
        line_items = stored_lines p;
      }
      ∷ [];
  activities = activities_of status input.photos;
  photos = input.photos;
}

abbrev pub priced_or :
    Result AmountError WebsiteQuotePricingResult → Result SubmissionError WebsiteQuotePricingResult
priced_or (err e) = err (not_priced e)
priced_or (ok result) = ok result

abbrev pub answered : SubmissionAnswer → QuoteTables → Submission
answered answer tables = record { answer = answer; tables = tables }

-- The catch of the unique constraint.
abbrev pub reconciled :
    QuoteSubmissionReplayResolution → QuoteTables → Result SubmissionError Submission
reconciled (replay id reference response) tables =
    ok (answered (replayed id reference response) tables)
reconciled (conflict id reference) tables = err concurrent_conflict
reconciled _ tables = err unreconciled

-- The answers that need no new quote.
abbrev pub unless_replayed :
    QuoteSubmissionReplayResolution
    → QuoteTables
    → Result SubmissionError Submission
    → Result SubmissionError Submission
unless_replayed new_submission tables rest = rest
unless_replayed (replay id reference response) tables rest =
    ok (answered (replayed id reference response) tables)
unless_replayed (conflict id reference) tables rest = err identity_conflict
unless_replayed (corrupt_existing id reference) tables rest = err identity_corrupt

-- The new id and the business date of the day.
module _ (id business_date : String) (input : AuthoritativeQuoteSubmissionInput) where
  abbrev pub with_quote : QuoteTables → Quote → QuoteTables
  with_quote t q = record {
    quotes = λ k. if k === input.submission_key then some q else t.quotes k;
    counters = λ d. if d === business_date then suc (t.counters business_date) else t.counters d;
  }

  unfoldable pub create_quote :
      (Option Quote → QuoteSubmissionReplayResolution)
      → QuoteOperationalCostResolution
      → QuoteTables
      → WebsiteQuotePricingResult
      → Result SubmissionError Submission
  unfolding keep reasons_of
  create_quote resolve costs t result =
      let failed_photos = length (keep is_failed input.photos) in
      let status = status_of costs result failed_photos in
      let sequence = suc (t.counters business_date) in
      let reference = reference_of business_date sequence in
      let q = created_quote input id reference status result.pricing in
      let new = ok (
        answered (created id reference status result.pricing (reasons_of result failed_photos))
          (with_quote t q)) in
      throw_if (ltb 9_999 sequence) daily_limit
      >> (if is_some (t.quotes input.submission_key)
          then reconciled (resolve (t.quotes input.submission_key)) t
          else new)

  unfoldable pub submit :
      (Option Quote → QuoteSubmissionReplayResolution)
      → Option QuoteOperationalCostCandidate
      → (before t : QuoteTables) → Result SubmissionError Submission
  submit resolve candidate before t =
      let costs = validate_operational_cost_candidate candidate in
      unless_replayed (resolve (before.quotes input.submission_key)) t (
        priced_or (calculate_website_quote_pricing input.pricing_submission (costs_of costs))
        >>= create_quote resolve costs t)
