-- ===== src/Quotes/Tests/Review.antt =====
-- Runs of the review of a quote.
use hestiva_os.Base.{◌≡◌, refl, arith, String, Bool, Option, none, some, [], ◌∷◌, if◌then◌else◌}
use hestiva_os.Base.Number.{nat}
use hestiva_os.Base.Text.{◌===◌, text_length}
use hestiva_os.Base.Result.{ok}
use hestiva_os.Quotes.Intake.Records.{submitted}
use hestiva_os.Quotes.Review.Match.{
  likely_match_review_required, review_required, MatchResult, display_name_of, join_given,
  CustomerIdentity, resolve_customer_match, normalize_customer_email, email_agrees, phone_agrees,
  normalize_customer_phone,
}
use hestiva_os.Quotes.Review.Matched.{IsMatched, resolve_customer_match-IsMatched}
use hestiva_os.Quotes.Review.Rows.{
  use_existing, ReviewedQuote, ReviewedQuotes, becomes, decided, validate_expected_revision,
}
use hestiva_os.Quotes.Review.Decline.{decline_quote, decline, declined_quote, last_decline}
use hestiva_os.Quotes.Review.Resolve.{
  EntityInput, Chosen, resolved_quote, resolve_quote, record_resolution,
}
use hestiva_os.Quotes.Review.Steps.{IsReviewed, declining, resolving}
use hestiva_os.Quotes.Review.History.{
  Run, start, step, StaysDeclined, Run-IsReviewed, Run-StaysDeclined,
}
use hestiva_os.Quotes.Review.Again.{decline-Again}

abbrev waiting : ReviewedQuote
waiting = record {
  status = submitted;
  current_revision_number = 1;
  customer_resolution = none;
  property_resolution = none;
  customer_id = none;
  property_id = none;
  resolution_revision_number = none;
  accepted_at = none;
  accepted_revision_id = none;
  work_order_id = none;
  recurring_agreement_id = none;
  declined_at = none;
  declined_by_user_id = none;
  activities = [];
}

abbrev on_table : ReviewedQuotes
on_table = λ k. if k === "quote-1" then some waiting else none

abbrev knows : String → Bool
knows id = id === "customer-1"

abbrev lives_at : String → Option String
lives_at id = if id === "property-1" then some "customer-1" else none

abbrev chosen_customer : Chosen
chosen_customer = record { decision = use_existing; id = some "customer-1" }

abbrev chosen_property : Chosen
chosen_property = record { decision = use_existing; id = some "property-1" }

abbrev customer_sent : EntityInput
customer_sent = record { decision = some use_existing; id = some "customer-1" }

abbrev property_sent : EntityInput
property_sent = record { decision = some use_existing; id = some "property-1" }

abbrev resolved_row : ReviewedQuote
resolved_row = resolved_quote "admin" 1 chosen_customer chosen_property waiting

abbrev resolved_table : ReviewedQuotes
resolved_table = decided "quote-1" on_table (becomes resolved_row)

resolved_lem :
    record_resolution knows lives_at "quote-1" (nat 1) customer_sent property_sent "admin" on_table
    ≡ ok resolved_table
unfolding record_resolution validate_expected_revision resolve_quote
resolved_lem = refl

abbrev declined_row : ReviewedQuote
declined_row = declined_quote 5_000 "admin" (some "No capacity") 1 resolved_row

abbrev declined_table : ReviewedQuotes
declined_table = decided "quote-1" resolved_table (becomes declined_row)

declined_lem :
    decline 5_000 "quote-1" (nat 1) (some " No capacity ") "admin" resolved_table
    ≡ ok declined_table
unfolding decline validate_expected_revision text_length decline_quote
declined_lem = refl

both : Run knows lives_at on_table declined_table
both =
    step (step start (resolving "quote-1" (nat 1) customer_sent property_sent "admin" resolved_lem))
      (declining 5_000 "quote-1" (nat 1) (some " No capacity ") "admin" declined_lem)

waiting-IsReviewed : IsReviewed knows lives_at waiting
waiting-IsReviewed = record {
  dated = λ e. absurd (ground arith);
  unaccepted = λ e. refl;
  owned = tt;
  whole = λ e. absurd (ground arith);
}

Run-IsReviewed_example :
    (r : ReviewedQuote) × (declined_table "quote-1" ≡ some r) × IsReviewed knows lives_at r
Run-IsReviewed_example =
    Run-IsReviewed knows lives_at {t = on_table} {u = declined_table} {q = waiting} "quote-1" both
      refl waiting-IsReviewed

decline-Again_example :
    decline 9_000 "quote-1" (nat 1) (some " No capacity ") "admin" declined_table
    ≡ ok declined_table
decline-Again_example =
    decline-Again 5_000 9_000 "quote-1" (nat 1) (some " No capacity ") "admin" resolved_table
      {u = declined_table} declined_lem

-- The same decline, an hour later.
repeated_lem :
    decline 3_605_000 "quote-1" (nat 1) (some "No capacity") "admin" declined_table
    ≡ ok declined_table
unfolding decline validate_expected_revision text_length decline_quote last_decline
repeated_lem = refl

repeated : Run knows lives_at declined_table declined_table
repeated =
    step start (declining 3_605_000 "quote-1" (nat 1) (some "No capacity") "admin" repeated_lem)

Run-StaysDeclined_example :
    (r : ReviewedQuote) × (declined_table "quote-1" ≡ some r) × StaysDeclined declined_row r
Run-StaysDeclined_example =
    Run-StaysDeclined knows lives_at {t = declined_table} {u = declined_table} {q = declined_row}
      "quote-1" repeated refl refl

abbrev nomsa : CustomerIdentity
nomsa = record {
  id = "customer-1";
  name = "Nomsa Dlamini";
  contact_name = none;
  email = some "nomsa@example.com";
  phone = some "+27820000001";
}

abbrev thabo : CustomerIdentity
thabo = record {
  id = "customer-2";
  name = "Thabo";
  contact_name = some "Thabo Nkosi";
  email = some "thabo@example.com";
  phone = none;
}

abbrev nomsa_found : MatchResult
nomsa_found = record {
  state = likely_match_review_required;
  readiness = review_required;
  candidates =
      record {
        id = "customer-1";
        display_name = "Nomsa Dlamini";
        evidence = "EMAIL" ∷ [];
        context = "nomsa@example.com · +27820000001";
      }
      ∷ [];
}

resolve_customer_match-IsMatched_example :
    IsMatched
      (λ s. s)
      (λ s. s)
      (some " nomsa@example.com ")
      (some "+27820000009")
      (nomsa ∷ thabo ∷ [])
      nomsa_found
unfolding resolve_customer_match normalize_customer_email email_agrees phone_agrees
    normalize_customer_phone display_name_of join_given
resolve_customer_match-IsMatched_example =
    resolve_customer_match-IsMatched (λ s. s) (λ s. s) (some " nomsa@example.com ")
      (some "+27820000009") (nomsa ∷ thabo ∷ [])
