-- ===== src/Quotes/Intake/Again.antt =====
-- A submission that is sent again under its key: apps/api/src/quotes/quote-submission.service.ts
-- with website-quote-replay-resolution.ts as the resolution of replays.
use hestiva_os.Base.{
  ◌≡◌, refl, arith, ℕ, suc, String, true, false, Option, none, some, List, ltb, ap, sym, ◌∙◌, inl,
  inr,
}
use hestiva_os.Base.Text.{◌===◌}
use hestiva_os.Base.Json.{Value}
use hestiva_os.Base.Result.{ok, err}
use hestiva_os.Quotes.CostSource.{
  QuoteOperationalCostCandidate, QuoteOperationalCostResolution,
  validate_operational_cost_candidate,
}
use hestiva_os.Quotes.Pricing.{
  PricingSnapshot, WebsiteQuotePricingResult, calculate_website_quote_pricing,
}
use hestiva_os.Quotes.Intake.Records.{
  QuoteStatus, Quote, QuoteSubmissionReplayResolution, replay, conflict, WebsiteQuoteReplayResponse,
}
use hestiva_os.Quotes.Intake.Canonical.{Hashing, fingerprint}
use hestiva_os.Quotes.Intake.Replay.{submission_status, resolve_website_quote_replay}
use hestiva_os.Quotes.Intake.Submit.{
  AuthoritativeQuoteSubmissionInput, QuoteTables, SubmissionReason, Submission, replayed, created,
  identity_conflict, answered, costs_of, status_of, created_quote, create_quote, submit,
}
use hestiva_os.Quotes.Intake.Codes.{pricing-IsCoded}
use hestiva_os.Quotes.Intake.Stored.{created-replays, created-conflicts}
use hestiva_os.Quotes.Intake.Once.{created-stored, submit-cases}

status_of-IsSettled :
    (costs : QuoteOperationalCostResolution) (result : WebsiteQuotePricingResult) (failed : ℕ)
    → submission_status (some (status_of costs result failed))
      ≡ some (status_of costs result failed)
unfolding status_of
status_of-IsSettled costs result failed = ground arith

-- The replay that an answer would have.
same-replay :
    {i i' r r' : String} {status status' : QuoteStatus} {p p' : PricingSnapshot}
    {reasons reasons' : List SubmissionReason}
    → created i r status p reasons ≡ created i' r' status' p' reasons'
    → replay i r (some (record { quote_status = status; pricing = p }))
      ≡ replay i' r' (some (record { quote_status = status'; pricing = p' }))
same-replay e = cc

-- The conflict that an answer would have.
same-conflict :
    {i i' r r' : String} {status status' : QuoteStatus} {p p' : PricingSnapshot}
    {reasons reasons' : List SubmissionReason}
    → created i r status p reasons ≡ created i' r' status' p' reasons'
    → conflict i r ≡ conflict i' r'
same-conflict e = cc

module _ (h : Hashing) (payload : Value) (input : AuthoritativeQuoteSubmissionInput)
    (i reference : String) (status : QuoteStatus) (p : PricingSnapshot) where
  -- What the quote of an answered submission says to a payload under its key.
  record Keeps (t : QuoteTables) : Type 0 where
    pub quote : Quote
    pub stored : t.quotes input.submission_key ≡ some quote
    pub replays :
        (fingerprint h payload === fingerprint h input.structured_data) ≡ true
        → resolve_website_quote_replay h payload (some quote)
          ≡ replay i reference (some (record { quote_status = status; pricing = p }))
    pub conflicts :
        (fingerprint h payload === fingerprint h input.structured_data) ≡ false
        → resolve_website_quote_replay h payload (some quote) ≡ conflict i reference

  submit-Keeps :
      (resolve : Option Quote → QuoteSubmissionReplayResolution)
      (candidate : Option QuoteOperationalCostCandidate) (id business_date : String)
      (before t : QuoteTables) {s : Submission} {reasons : List SubmissionReason}
      → submit id business_date input resolve candidate before t ≡ ok s
      → s.answer ≡ created i reference status p reasons
      → Keeps s.tables
  submit-Keeps resolve candidate id business_date before t {s} e made =
      elim (submit-cases id business_date input candidate resolve before t e) [
        | inl known ↦ absurd (ground (arith, known.answers, made))
        | inr c ↦ record {
          quote = created_quote input id c.reference c.status c.result.pricing;
          stored = created-stored id business_date input candidate c;
          replays = λ same.
              created-replays h payload input id c.reference c.status c.result.pricing
                (rw c.judged (status_of-IsSettled _ _ _)) same (pricing-IsCoded _ _ c.priced)
              ∙ same-replay (sym c.answers ∙ made);
          conflicts = λ differs.
              created-conflicts h payload input id c.reference c.status c.result.pricing differs
              ∙ same-conflict (sym c.answers ∙ made);
        }
      ]

module _ (h : Hashing) (payload : Value) (id business_date : String)
    (again : AuthoritativeQuoteSubmissionInput)
    (candidate : Option QuoteOperationalCostCandidate) where
  replayed-Answers :
      (before t : QuoteTables) {i reference : String} {response : Option WebsiteQuoteReplayResponse}
      → resolve_website_quote_replay h payload (before.quotes again.submission_key)
        ≡ replay i reference response
      → submit id business_date again (resolve_website_quote_replay h payload) candidate before t
        ≡ ok (answered (replayed i reference response) t)
  unfolding submit
  replayed-Answers before t e = rw e refl

  raced-Answers :
      (before t : QuoteTables) {q : Quote} {i reference : String}
      {response : Option WebsiteQuoteReplayResponse} {result : WebsiteQuotePricingResult}
      → before.quotes again.submission_key ≡ none
      → calculate_website_quote_pricing again.pricing_submission
          (costs_of (validate_operational_cost_candidate candidate))
        ≡ ok result
      → ltb 9_999 (suc (t.counters business_date)) ≡ false
      → t.quotes again.submission_key ≡ some q
      → resolve_website_quote_replay h payload (some q) ≡ replay i reference response
      → submit id business_date again (resolve_website_quote_replay h payload) candidate before t
        ≡ ok (answered (replayed i reference response) t)
  unfolding submit create_quote resolve_website_quote_replay
  raced-Answers before t free priced numbered taken found =
      rw (free, priced, numbered, taken, found) refl

  conflict-Refuses :
      (before t : QuoteTables) {i reference : String}
      → resolve_website_quote_replay h payload (before.quotes again.submission_key)
        ≡ conflict i reference
      → submit id business_date again (resolve_website_quote_replay h payload) candidate before t
        ≡ err identity_conflict
  unfolding submit
  conflict-Refuses before t e = rw e refl

-- A submission `again` that is sent under the key of the submission `input`.
module _ (h : Hashing) (payload : Value) (input again : AuthoritativeQuoteSubmissionInput)
    (under_key : again.submission_key ≡ input.submission_key)
    (resolve : Option Quote → QuoteSubmissionReplayResolution)
    (candidate candidate' : Option QuoteOperationalCostCandidate)
    (id id' business_date business_date' : String) (before t : QuoteTables) {s : Submission}
    (sent : submit id business_date input resolve candidate before t ≡ ok s) {i reference : String}
    {status : QuoteStatus} {p : PricingSnapshot} {reasons : List SubmissionReason}
    (made : s.answer ≡ created i reference status p reasons) where
  held : Keeps h payload input i reference status p s.tables
  held =
      submit-Keeps h payload input i reference status p resolve candidate id business_date before t
        sent made

  there : s.tables.quotes again.submission_key ≡ some held.quote
  there = ap s.tables.quotes under_key ∙ held.stored

  -- A submission that creates a quote, sent again under its key once the tables have the quote, with a
  -- payload of the same fingerprint, is answered with the id, the reference, the status and the price
  -- that the first was answered with, whatever else it carries, and changes no table.
  pub submit-Again :
      (u : QuoteTables)
      → (fingerprint h payload === fingerprint h input.structured_data) ≡ true
      → submit id' business_date' again
          (resolve_website_quote_replay h payload)
          candidate'
          s.tables
          u
        ≡ ok (
            answered
              (replayed i reference (some (record { quote_status = status; pricing = p })))
              u)
  submit-Again u same =
      replayed-Answers h payload id' business_date' again candidate' s.tables u
        (ap (resolve_website_quote_replay h payload) there ∙ held.replays same)

  -- Sent at the same time, its replay resolved before the tables had the quote and its transaction run
  -- after, it is answered the same, as long as its price is calculated and the day has a number left.
  pub submit-Raced :
      (earlier : QuoteTables) {result : WebsiteQuotePricingResult}
      → earlier.quotes again.submission_key ≡ none
      → calculate_website_quote_pricing again.pricing_submission
          (costs_of (validate_operational_cost_candidate candidate'))
        ≡ ok result
      → ltb 9_999 (suc (s.tables.counters business_date')) ≡ false
      → (fingerprint h payload === fingerprint h input.structured_data) ≡ true
      → submit id' business_date' again
          (resolve_website_quote_replay h payload)
          candidate'
          earlier
          s.tables
        ≡ ok (
            answered
              (replayed i reference (some (record { quote_status = status; pricing = p })))
              s.tables)
  submit-Raced earlier free priced numbered same =
      raced-Answers h payload id' business_date' again candidate' earlier s.tables free priced
        numbered there (held.replays same)

  -- With a payload of another fingerprint it is refused as a conflict of identities.
  pub submit-Refuses :
      (u : QuoteTables)
      → (fingerprint h payload === fingerprint h input.structured_data) ≡ false
      → submit id' business_date' again
          (resolve_website_quote_replay h payload)
          candidate'
          s.tables
          u
        ≡ err identity_conflict
  submit-Refuses u differs =
      conflict-Refuses h payload id' business_date' again candidate' s.tables u
        (ap (resolve_website_quote_replay h payload) there ∙ held.conflicts differs)
