-- ===== src/Quotes/Intake/Once.antt =====
-- What a submission does to the tables, and how a submission that is sent again is answered:
-- apps/api/src/quotes/quote-submission.service.ts with website-quote-replay-resolution.ts.
use hestiva_os.Base.{
  ◌≡◌, refl, arith, suc, ◌≤◌, String, true, false, Option, none, some, length, ltb, ap, sym, ◌⊎◌,
  inl, inr, Bool-cases, Option-cases,
}
use hestiva_os.Base.Text.{◌===◌}
use hestiva_os.Base.Eq.{string_eq}
use hestiva_os.Base.Result.{Result, ok, err, ok-injective, >>=-eq-ok}
use hestiva_os.Quotes.Profitability.{AmountError}
use hestiva_os.Quotes.CostSource.{
  QuoteOperationalCostCandidate, validate_operational_cost_candidate, keep,
}
use hestiva_os.Quotes.Pricing.{WebsiteQuotePricingResult, calculate_website_quote_pricing}
use hestiva_os.Quotes.Intake.Records.{
  QuoteStatus, Quote, QuoteSubmissionReplayResolution, new_submission, replay, conflict,
  corrupt_existing, WebsiteQuoteReplayResponse,
}
use hestiva_os.Quotes.Intake.Submit.{
  AuthoritativeQuoteSubmissionInput, QuoteTables, Submission, replayed, created, is_failed,
  costs_of, status_of, reasons_of, reference_of, created_quote, with_quote, create_quote, submit,
  SubmissionError, answered, reconciled, unless_replayed, priced_or,
}

-- The quote is there already: its submission is answered, and the tables stay.
pub record Repeats (t : QuoteTables) (s : Submission) : Type 0 where
  pub id : String
  pub reference : String
  pub response : Option WebsiteQuoteReplayResponse
  pub answers : s.answer ≡ replayed id reference response
  pub stays : s.tables ≡ t

repeats :
    (id reference : String) (response : Option WebsiteQuoteReplayResponse) (t : QuoteTables)
    {s : Submission}
    → answered (replayed id reference response) t ≡ s
    → Repeats t s
repeats id reference response t e = record {
  id = id;
  reference = reference;
  response = response;
  answers = ap (λ (x : Submission). x.answer) (sym e);
  stays = ap (λ (x : Submission). x.tables) (sym e);
}

reconciled-Repeats :
    (found : QuoteSubmissionReplayResolution) (t : QuoteTables) {s : Submission}
    → reconciled found t ≡ ok s
    → Repeats t s
reconciled-Repeats (replay id reference response) t e =
    repeats id reference response t (ok-injective e)
reconciled-Repeats (conflict id reference) t e = cc
reconciled-Repeats (corrupt_existing id reference) t e = cc
reconciled-Repeats new_submission t e = cc

unless-Repeats :
    (found : QuoteSubmissionReplayResolution) (t : QuoteTables)
    (rest : Result SubmissionError Submission) {s : Submission}
    → unless_replayed found t rest ≡ ok s
    → Repeats t s ⊎ (rest ≡ ok s)
unless-Repeats (replay id reference response) t rest e =
    inl (repeats id reference response t (ok-injective e))
unless-Repeats (conflict id reference) t rest e = cc
unless-Repeats (corrupt_existing id reference) t rest e = cc
unless-Repeats new_submission t rest e = inr e

priced-ok :
    (r : Result AmountError WebsiteQuotePricingResult) {result : WebsiteQuotePricingResult}
    → priced_or r ≡ ok result
    → r ≡ ok result
priced-ok (err thrown) e = cc
priced-ok (ok result) e = cc

module _ (id business_date : String) (input : AuthoritativeQuoteSubmissionInput)
    (candidate : Option QuoteOperationalCostCandidate) where
  -- The quote is new: its number is below ten thousand, its key was free, and the tables have it.
  pub record Creates (t : QuoteTables) (s : Submission) : Type 0 where
    pub result : WebsiteQuotePricingResult
    pub reference : String
    pub status : QuoteStatus
    pub priced :
        calculate_website_quote_pricing input.pricing_submission
          (costs_of (validate_operational_cost_candidate candidate))
        ≡ ok result
    pub numbered : ltb 9_999 (suc (t.counters business_date)) ≡ false
    pub free : t.quotes input.submission_key ≡ none
    pub referred : reference ≡ reference_of business_date (suc (t.counters business_date))
    pub judged :
        status
        ≡ status_of
            (validate_operational_cost_candidate candidate)
            result
            (length (keep is_failed input.photos))
    pub answers :
        s.answer
        ≡ created id reference status result.pricing
            (reasons_of result (length (keep is_failed input.photos)))
    pub stores :
        s.tables
        ≡ with_quote id business_date input t
            (created_quote input id reference status result.pricing)

  create-cases :
      (resolve : Option Quote → QuoteSubmissionReplayResolution) (t : QuoteTables)
      (result : WebsiteQuotePricingResult) {s : Submission}
      → calculate_website_quote_pricing input.pricing_submission
          (costs_of (validate_operational_cost_candidate candidate))
        ≡ ok result
      → create_quote id business_date input resolve
          (validate_operational_cost_candidate candidate)
          t
          result
        ≡ ok s
      → Repeats t s ⊎ Creates t s
  unfolding create_quote
  create-cases resolve t result {s} priced e =
      elim (Bool-cases (ltb 9_999 (suc (t.counters business_date)))) [
        | inl over ↦ absurd (ground arith)
        | inr below ↦ elim (Option-cases (t.quotes input.submission_key)) [
          | inl free ↦
              let same = ok-injective (rw (below, free) at e) in
              inr (record {
                result = result;
                reference = _;
                status = _;
                referred = refl;
                judged = refl;
                priced = priced;
                numbered = below;
                free = free;
                answers = ap (λ (x : Submission). x.answer) (sym same);
                stores = ap (λ (x : Submission). x.tables) (sym same);
              })
          | inr (q, taken) ↦ inl (reconciled-Repeats (resolve (some q)) t (rw (below, taken) at e))
        ]
      ]

  -- A submission that is answered finds its quote, or creates it.
  pub submit-cases :
      (resolve : Option Quote → QuoteSubmissionReplayResolution) (before t : QuoteTables)
      {s : Submission}
      → submit id business_date input resolve candidate before t ≡ ok s
      → Repeats t s ⊎ Creates t s
  unfolding submit
  submit-cases resolve before t e =
      elim (unless-Repeats (resolve (before.quotes input.submission_key)) t _ e) [
        | inl known ↦ inl known
        | inr rest ↦
            let (result, priced, made) = >>=-eq-ok _ _ rest in
            create-cases resolve t result (priced-ok _ priced) made
      ]

-- The tables that a submission leaves: as they were, or with one new quote under a key that was
-- free, numbered next on its day.
pub record AddsQuote (id business_date key : String) (t u : QuoteTables) : Type 0 where
  pub free : t.quotes key ≡ none
  pub quote : Quote
  pub stored : u.quotes key ≡ some quote
  pub named : quote.id ≡ id
  pub referred : quote.reference ≡ reference_of business_date (suc (t.counters business_date))
  pub numbered : suc (t.counters business_date) ≤ 9_999
  pub other_quotes : (k : String) → (k === key) ≡ false → u.quotes k ≡ t.quotes k
  pub counted : u.counters business_date ≡ suc (t.counters business_date)
  pub other_days : (d : String) → (d === business_date) ≡ false → u.counters d ≡ t.counters d

pub same_text : (k : String) → (k === k) ≡ true
same_text k = (string_eq.beq_iff k k).1 refl

-- The quote that a created submission has left under its key.
pub created-stored :
    (id business_date : String) (input : AuthoritativeQuoteSubmissionInput)
    (candidate : Option QuoteOperationalCostCandidate) {t : QuoteTables} {s : Submission}
    (c : Creates id business_date input candidate t s)
    → s.tables.quotes input.submission_key
      ≡ some (created_quote input id c.reference c.status c.result.pricing)
created-stored id business_date input candidate c =
    rw (c.stores, same_text input.submission_key) refl

Creates-AddsQuote :
    (id business_date : String) (input : AuthoritativeQuoteSubmissionInput)
    (candidate : Option QuoteOperationalCostCandidate) {t : QuoteTables} {s : Submission}
    → Creates id business_date input candidate t s
    → AddsQuote id business_date input.submission_key t s.tables
unfolding created_quote
Creates-AddsQuote id business_date input candidate c = record {
  free = c.free;
  quote = created_quote input id c.reference c.status c.result.pricing;
  stored = created-stored id business_date input candidate c;
  named = refl;
  referred = c.referred;
  numbered = ground (arith, c.numbered);
  other_quotes = λ k other. rw (c.stores, other) refl;
  counted = rw (c.stores, same_text business_date) refl;
  other_days = λ d other. rw (c.stores, other) refl;
}

-- A submission that is answered leaves the tables as they were when it replays a quote, and otherwise
-- adds one quote under its own key, which was free, with the next number of the day, at most 9 999;
-- the other keys keep their quotes and the other days their numbers.
pub submit-AddsQuote :
    (id business_date : String) (input : AuthoritativeQuoteSubmissionInput)
    (candidate : Option QuoteOperationalCostCandidate)
    (resolve : Option Quote → QuoteSubmissionReplayResolution) (before t : QuoteTables)
    {s : Submission}
    → submit id business_date input resolve candidate before t ≡ ok s
    → Repeats t s ⊎ AddsQuote id business_date input.submission_key t s.tables
submit-AddsQuote id business_date input candidate resolve before t e =
    elim (submit-cases id business_date input candidate resolve before t e) [
      | inl known ↦ inl known
      | inr c ↦ inr (Creates-AddsQuote id business_date input candidate c)
    ]
