-- ===== src/Quotes/Tests/Intake.antt =====
-- Runs of the submission of a quote.
use hestiva_os.Base.{◌≡◌, ◌⊎◌, refl, String, none, some, [], ◌∷◌}
use hestiva_os.Base.Json.{Value, string}
use hestiva_os.Base.Text.{split_dashes}
use hestiva_os.Base.Result.{ok, err}
use hestiva_os.Quotes.CostSource.{validate_operational_cost_candidate}
use hestiva_os.Quotes.Profitability.{apply_quote_profitability_floor}
use hestiva_os.Quotes.Submission.{truthy_service}
use hestiva_os.Quotes.Pricing.{
  price_submission, primary_step, named_primary, add_on_reasons, calculate_website_quote_pricing,
}
use hestiva_os.Quotes.Primary.{floor_price_minor, add_floor_priced_primary}
use hestiva_os.Quotes.Rooms.{add_structured_laundry}
use hestiva_os.Quotes.Lines.{line, subtotal_of}
use hestiva_os.Quotes.Intake.Records.{Quote, submitted, stored}
use hestiva_os.Quotes.Intake.Canonical.{Hashing, canonicalize, fingerprint}
use hestiva_os.Quotes.Intake.Replay.{resolve_website_quote_replay}
use hestiva_os.Quotes.Intake.Submit.{
  AuthoritativeQuoteSubmissionInput, QuoteTables, Submission, SubmissionAnswer, created, replayed,
  answered, identity_conflict, with_quote, created_quote, create_quote, padded, status_of, costs_of,
  submit,
}
use hestiva_os.Quotes.Intake.Once.{Repeats, AddsQuote, submit-AddsQuote}
use hestiva_os.Quotes.Intake.Again.{submit-Again, submit-Raced, submit-Refuses}
use hestiva_os.Quotes.Intake.Settled.{IsSound, submitted-IsSound}
use hestiva_os.Quotes.Tests.{home, home_price, home_price_lem, candidate}

-- A digest that tells texts apart.
abbrev text_of : Value → String
text_of (string s) = s
text_of _ = ""

abbrev hashing : Hashing
hashing = record { sort_entries = λ fs. fs; digest = text_of }

abbrev asked : AuthoritativeQuoteSubmissionInput
asked = record {
  submission_key = "web-1";
  submitted_at = 1_000;
  pricing_submission = home;
  structured_data = string "three bedrooms";
  photos =
      record {
        transfer_key = "web-1/photo-1";
        status = stored;
        original_file_name = "kitchen.jpg";
        mime_type = "image/jpeg";
        size_bytes = some 2_048;
        storage_path = some "quotes/web-1/photo-1";
        url = none;
        failure_reason = none;
      }
      ∷ [];
}

-- The same key and price an hour later.
abbrev asked_again : AuthoritativeQuoteSubmissionInput
asked_again = record {
  submission_key = "web-1";
  submitted_at = 3_601_000;
  pricing_submission = home;
  structured_data = string "three bedrooms";
  photos = [];
}

abbrev no_quotes : QuoteTables
no_quotes = record { quotes = λ k. none; counters = λ d. 41 }

abbrev kept : Quote
kept = created_quote asked "quote-1" "Q-20260105-0042" submitted home_price.pricing

abbrev sent : Submission
sent =
    answered (created "quote-1" "Q-20260105-0042" submitted home_price.pricing [])
      (with_quote "quote-1" "20260105" asked no_quotes kept)

sent_lem :
    submit "quote-1" "20260105" asked
      (resolve_website_quote_replay hashing (string "three bedrooms"))
      (some candidate)
      no_quotes
      no_quotes
    ≡ ok sent
unfolding submit resolve_website_quote_replay calculate_website_quote_pricing
    validate_operational_cost_candidate apply_quote_profitability_floor create_quote padded
    status_of subtotal_of price_submission split_dashes primary_step truthy_service named_primary
    floor_price_minor add_floor_priced_primary add_on_reasons add_structured_laundry line
sent_lem = refl

submit-AddsQuote_example :
    Repeats no_quotes sent ⊎ AddsQuote "quote-1" "20260105" "web-1" no_quotes sent.tables
submit-AddsQuote_example =
    submit-AddsQuote "quote-1" "20260105" asked (some candidate)
      (resolve_website_quote_replay hashing (string "three bedrooms")) no_quotes no_quotes
      {s = sent} sent_lem

submitted-IsSound_example : IsSound asked (some candidate) home_price.pricing []
submitted-IsSound_example =
    submitted-IsSound "quote-1" "20260105" asked (some candidate)
      (resolve_website_quote_replay hashing (string "three bedrooms")) no_quotes no_quotes
      {s = sent} {i = "quote-1"} {reference = "Q-20260105-0042"} {p = home_price.pricing}
      {reasons = []} sent_lem refl

abbrev answer_again : SubmissionAnswer
answer_again =
    replayed "quote-1" "Q-20260105-0042"
      (some (record { quote_status = submitted; pricing = home_price.pricing }))

submit-Again_example :
    submit "quote-2" "20260106" asked_again
      (resolve_website_quote_replay hashing (string "three bedrooms"))
      none
      sent.tables
      sent.tables
    ≡ ok (answered answer_again sent.tables)
unfolding fingerprint canonicalize
submit-Again_example =
    submit-Again hashing (string "three bedrooms") asked asked_again refl
      (resolve_website_quote_replay hashing (string "three bedrooms")) (some candidate) none
      "quote-1" "quote-2" "20260105" "20260106" no_quotes no_quotes {s = sent} sent_lem
      {i = "quote-1"} {reference = "Q-20260105-0042"} {status = submitted} {p = home_price.pricing}
      {reasons = []} refl sent.tables refl

home_priced :
    calculate_website_quote_pricing asked_again.pricing_submission
      (costs_of (validate_operational_cost_candidate (some candidate)))
    ≡ ok home_price
unfolding validate_operational_cost_candidate
home_priced = home_price_lem

submit-Raced_example :
    submit "quote-2" "20260105" asked_again
      (resolve_website_quote_replay hashing (string "three bedrooms"))
      (some candidate)
      no_quotes
      sent.tables
    ≡ ok (answered answer_again sent.tables)
unfolding fingerprint canonicalize
submit-Raced_example =
    submit-Raced hashing (string "three bedrooms") asked asked_again refl
      (resolve_website_quote_replay hashing (string "three bedrooms")) (some candidate)
      (some candidate) "quote-1" "quote-2" "20260105" "20260105" no_quotes no_quotes {s = sent}
      sent_lem {i = "quote-1"} {reference = "Q-20260105-0042"} {status = submitted}
      {p = home_price.pricing} {reasons = []} refl no_quotes {result = home_price} refl home_priced
      refl refl

submit-Refuses_example :
    submit "quote-2" "20260106" asked_again
      (resolve_website_quote_replay hashing (string "four bedrooms"))
      none
      sent.tables
      sent.tables
    ≡ err identity_conflict
unfolding fingerprint canonicalize
submit-Refuses_example =
    submit-Refuses hashing (string "four bedrooms") asked asked_again refl
      (resolve_website_quote_replay hashing (string "three bedrooms")) (some candidate) none
      "quote-1" "quote-2" "20260105" "20260106" no_quotes no_quotes {s = sent} sent_lem
      {i = "quote-1"} {reference = "Q-20260105-0042"} {status = submitted} {p = home_price.pricing}
      {reasons = []} refl sent.tables refl
