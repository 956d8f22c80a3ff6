-- ===== src/Quotes/Review/Decline.antt =====
-- `decline` of apps/api/src/quotes/quote-review.service.ts.
use hestiva_os.Base.{
  ℕ, ◌==◌, ltb, String, Bool, true, false, not, ◌||◌, ◌&&◌, Option, none, some, List, [], ◌∷◌,
  if◌then◌else◌, is_some,
}
use hestiva_os.Base.Number.{Number}
use hestiva_os.Base.Text.{trim, text_length, is_blank}
use hestiva_os.Base.Result.{Result, ok, err, ◌>>=◌, ◌>>◌, throw_if}
use hestiva_os.Messaging.Flow.{is_given}
use hestiva_os.Quotes.Intake.Records.{
  QuoteStatus, submitted, accepted, declined, expired, needs_attention, QuoteActivityType,
  status_changed,
}
use hestiva_os.Quotes.Review.Rows.{
  ReviewActivity, ReviewedQuote, ReviewedQuotes, ReviewError, actor_required, reason_too_long,
  stale_revision, different_decision, not_declinable, has_operational_state, changed_concurrently,
  validate_expected_revision, same_number, same_id, found_quote, Decision, stays, becomes, decided,
}

-- `value || null`
abbrev pub or_null : String → Option String
or_null s = if is_blank s then none else some s

unfoldable pub normalized_reason : Option String → Result ReviewError (Option String)
unfolding trim
normalized_reason none = ok none
normalized_reason (some reason) =
    throw_if (ltb 500 (text_length (trim reason))) reason_too_long >> ok (or_null (trim reason))

abbrev pub is_decline : ReviewActivity → Bool
is_decline a = is_change a.type && is_to_declined a.new_status
  where
    is_change : QuoteActivityType → Bool
    is_change status_changed = true
    is_change _ = false

    is_to_declined : Option QuoteStatus → Bool
    is_to_declined (some declined) = true
    is_to_declined _ = false

-- The newest activity that declined the quote.
unfoldable pub last_decline : List ReviewActivity → Option ReviewActivity
last_decline [] = none
last_decline (a ∷ rest) = if is_decline a then some a else last_decline rest

abbrev is_same_decision : String → Option String → ℕ → Option ReviewActivity → Bool
is_same_decision actor reason expected none = false
is_same_decision actor reason expected (some a) =
    same_id a.note reason && same_number a.expected_revision_number expected

abbrev declined_activity : String → Option String → ℕ → ReviewActivity
declined_activity actor reason expected = record {
  type = status_changed;
  new_status = some declined;
  actor_user_id = actor;
  note = reason;
  expected_revision_number = some expected;
}

abbrev pub declined_quote : ℕ → String → Option String → ℕ → ReviewedQuote → ReviewedQuote
declined_quote now actor reason expected q = record q {
  status = declined;
  declined_at = some now;
  declined_by_user_id = some actor;
  activities = declined_activity actor reason expected ∷ q.activities;
}

abbrev pub has_accepted_state : ReviewedQuote → Bool
has_accepted_state q =
    is_some q.accepted_at
    || is_given q.accepted_revision_id
    || is_given q.work_order_id
    || is_given q.recurring_agreement_id

-- The decision on an open quote; of the conditions of its `updateMany`, the row was read under all
-- but the last.
abbrev pub decline_open :
    ℕ → String → Option String → ℕ → ReviewedQuote → Result ReviewError Decision
decline_open now actor reason expected q =
    throw_if (has_accepted_state q) has_operational_state
    >> throw_if (is_some q.declined_at) changed_concurrently
    >> ok (becomes (declined_quote now actor reason expected q))

abbrev pub decline_status :
    QuoteStatus → ℕ → String → Option String → ℕ → ReviewedQuote → Result ReviewError Decision
decline_status declined now actor reason expected q =
    if same_id q.declined_by_user_id (some actor)
      && is_same_decision actor reason expected (last_decline q.activities)
    then ok stays
    else err different_decision
decline_status submitted now actor reason expected q = decline_open now actor reason expected q
decline_status needs_attention now actor reason expected q =
    decline_open now actor reason expected q
decline_status accepted now actor reason expected q = err not_declinable
decline_status expired now actor reason expected q = err not_declinable

unfoldable pub decline_quote :
    ℕ → String → Option String → ℕ → ReviewedQuote → Result ReviewError Decision
unfolding last_decline
decline_quote now actor reason expected q =
    throw_if (not (q.current_revision_number == expected)) stale_revision
    >> decline_status q.status now actor reason expected q

unfoldable pub decline :
    ℕ
    → String
    → Number
    → Option String
    → String
    → ReviewedQuotes
    → Result ReviewError ReviewedQuotes
unfolding normalized_reason
decline now id revision reason actor t = validate_expected_revision revision >>= λ expected.
    throw_if (is_blank actor) actor_required
    >> (normalized_reason reason >>= λ given. found_quote (t id) >>= λ q.
        decline_quote now actor given expected q >>= λ d. ok (decided id t d))
