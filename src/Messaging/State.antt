-- ===== src/Messaging/State.antt =====
-- The transitions of apps/api/src/messaging/messaging-quote-state.ts. `fact_errors` is the
-- validation of the draft, and `to_iso` is `Date.prototype.toISOString`, which is called for valid
-- dates; a date is its time, with `non_integer` for an invalid one.
pub mod Laws
pub mod Steps
pub mod Completion
use hestiva_os.Base.{
  ℕ, suc, String, Bool, true, false, not, ◌||◌, ◌&&◌, Option, none, some, List, if◌then◌else◌,
}
use hestiva_os.Base.Text.{◌===◌, is_blank, trim}
use hestiva_os.Base.Number.{Number, nat, minus, non_integer}
use hestiva_os.Base.Result.{Result, ok, err, ◌>>=◌, ◌>>◌, throw_if}
use hestiva_os.Base.Json.{Value, object, no_field}
use hestiva_os.Messaging.Draft.{merge_progress_value}
use hestiva_os.Messaging.Flow.{
  MessagingQuoteFlowPhase, collecting, review, ready_to_submit, submitting, human_review, submitted,
  FlowInput, MessagingQuoteFlowState, evaluate_messaging_quote_flow, is_given,
}

pub record MessagingQuoteStateSnapshot : Type 0 where
  pub version : Number
  pub draft : Value
  pub human_review_required : Bool
  pub review_summary_message_id : Option String
  pub confirmation_message_id : Option String
  pub confirmed_at : Option String
  pub submission_key : Option String
  pub submitted_quote_id : Option String

-- The `ConflictException`s, by their guards.
pub data StateConflict : Type 0 where
  version_invalid already_submitted submission_started message_id_required : StateConflict
  facts_incomplete review_not_recorded not_awaiting_confirmation : StateConflict
  confirmation_invalid submission_key_required different_submission_key : StateConflict
  not_confirmed quote_id_required different_quote submission_not_reserved : StateConflict

abbrev pub initial_messaging_quote_state : MessagingQuoteStateSnapshot
initial_messaging_quote_state = record {
  version = nat 0;
  draft = object no_field;
  human_review_required = false;
  review_summary_message_id = none;
  confirmation_message_id = none;
  confirmed_at = none;
  submission_key = none;
  submitted_quote_id = none;
}

abbrev pub next_version : MessagingQuoteStateSnapshot → Result StateConflict Number
next_version s = next s.version
  where
    next : Number → Result StateConflict Number
    next (nat n) = ok (nat (suc n))
    next _ = err version_invalid

abbrev pub customer_confirmed : MessagingQuoteStateSnapshot → Bool
customer_confirmed s = is_given s.confirmation_message_id && is_given s.confirmed_at

-- The phase that `viewMessagingQuoteState` adds to the state.
unfoldable pub view_messaging_quote_state :
    (Value → List String) → MessagingQuoteStateSnapshot → MessagingQuoteFlowPhase
view_messaging_quote_state fact_errors s =
    let flow = evaluate_messaging_quote_flow fact_errors (record {
      draft = s.draft;
      human_review_required = s.human_review_required;
      customer_confirmed = customer_confirmed s;
      submission_key = s.submission_key;
      submitted_quote_id = s.submitted_quote_id;
    }) in
    flow.phase

-- `{ ...state, version, reviewSummaryMessageId, confirmationMessageId, confirmedAt }`
abbrev pub marked :
    MessagingQuoteStateSnapshot
    → Number
    → Option String
    → Option String
    → Option String
    → MessagingQuoteStateSnapshot
marked s v review_id confirmation_id at = record {
  version = v;
  draft = s.draft;
  human_review_required = s.human_review_required;
  review_summary_message_id = review_id;
  confirmation_message_id = confirmation_id;
  confirmed_at = at;
  submission_key = s.submission_key;
  submitted_quote_id = s.submitted_quote_id;
}

-- `{ ...state, version, submissionKey, submittedQuoteId }`
abbrev pub keyed :
    MessagingQuoteStateSnapshot
    → Number
    → Option String
    → Option String
    → MessagingQuoteStateSnapshot
keyed s v key quote = record {
  version = v;
  draft = s.draft;
  human_review_required = s.human_review_required;
  review_summary_message_id = s.review_summary_message_id;
  confirmation_message_id = s.confirmation_message_id;
  confirmed_at = s.confirmed_at;
  submission_key = key;
  submitted_quote_id = quote;
}

unfoldable pub update_messaging_quote_draft :
    MessagingQuoteStateSnapshot → Value → Result StateConflict MessagingQuoteStateSnapshot
update_messaging_quote_draft s patch =
    throw_if (is_given s.submitted_quote_id) already_submitted
    >> throw_if (is_given s.submission_key) submission_started
    >> next_version s
    >>= λ v. ok (record {
      version = v;
      draft = merge_progress_value s.draft patch;
      human_review_required = s.human_review_required;
      review_summary_message_id = none;
      confirmation_message_id = none;
      confirmed_at = none;
      submission_key = s.submission_key;
      submitted_quote_id = s.submitted_quote_id;
    })

-- `...(required ? null : state's own)`
abbrev unless {ℓ} : {A : Type ℓ} → Bool → Option A → Option A
unless true o = none
unless false o = o

unfoldable pub set_messaging_quote_human_review :
    MessagingQuoteStateSnapshot → Bool → Result StateConflict MessagingQuoteStateSnapshot
set_messaging_quote_human_review s required =
    throw_if (is_given s.submitted_quote_id && required) already_submitted
    >> throw_if (is_given s.submission_key) submission_started
    >> next_version s
    >>= λ v. ok (record {
      version = v;
      draft = s.draft;
      human_review_required = required;
      review_summary_message_id = unless required s.review_summary_message_id;
      confirmation_message_id = unless required s.confirmation_message_id;
      confirmed_at = unless required s.confirmed_at;
      submission_key = s.submission_key;
      submitted_quote_id = s.submitted_quote_id;
    })

abbrev pub is_review : MessagingQuoteFlowPhase → Bool
is_review review = true
is_review _ = false

abbrev pub is_valid_date : Number → Bool
is_valid_date non_integer = false
is_valid_date _ = true

module _ (fact_errors : Value → List String) where
  unfoldable pub mark_messaging_quote_review_presented :
      MessagingQuoteStateSnapshot → String → Result StateConflict MessagingQuoteStateSnapshot
  mark_messaging_quote_review_presented s review_summary_message_id =
      let id = trim review_summary_message_id in
      throw_if (is_blank id) message_id_required
      >> throw_if (not (is_review (view_messaging_quote_state fact_errors s))) facts_incomplete
      >> next_version s
      >>= λ v. ok (marked s v (some id) none none)

  unfoldable pub confirm_messaging_quote_review :
      (Number → String)
      → MessagingQuoteStateSnapshot
      → String
      → Number
      → Result StateConflict MessagingQuoteStateSnapshot
  confirm_messaging_quote_review to_iso s confirmation_message_id confirmed_at =
      let id = trim confirmation_message_id in
      throw_if (not (is_given s.review_summary_message_id)) review_not_recorded
      >> throw_if (not (is_review (view_messaging_quote_state fact_errors s)))
          not_awaiting_confirmation
      >> throw_if (is_blank id || not (is_valid_date confirmed_at)) confirmation_invalid
      >> next_version s
      >>= λ v. ok (marked s v s.review_summary_message_id (some id) (some (to_iso confirmed_at)))

  -- `state.submissionKey === key`
  abbrev same_id : Option String → String → Bool
  same_id none key = false
  same_id (some k) key = k === key

  -- The rest of `beginMessagingQuoteSubmission`, by the phase.
  abbrev pub begin_in :
      MessagingQuoteFlowPhase
      → MessagingQuoteStateSnapshot
      → String
      → Result StateConflict MessagingQuoteStateSnapshot
  begin_in submitting s key =
      if same_id s.submission_key key then ok s else err different_submission_key
  begin_in ready_to_submit s key =
      next_version s >>= λ v. ok (keyed s v (some key) s.submitted_quote_id)
  begin_in _ s key = err not_confirmed

  unfoldable pub begin_messaging_quote_submission :
      MessagingQuoteStateSnapshot → String → Result StateConflict MessagingQuoteStateSnapshot
  begin_messaging_quote_submission s submission_key =
      let key = trim submission_key in
      throw_if (is_blank key) submission_key_required
      >> begin_in (view_messaging_quote_state fact_errors s) s key

  -- The rest of `markMessagingQuoteSubmitted`, by the phase.
  abbrev pub mark_in :
      MessagingQuoteFlowPhase
      → MessagingQuoteStateSnapshot
      → String
      → Result StateConflict MessagingQuoteStateSnapshot
  mark_in submitted s quote =
      if same_id s.submitted_quote_id quote then ok s else err different_quote
  mark_in submitting s quote =
      throw_if (not (is_given s.submission_key)) submission_not_reserved >> next_version s >>= λ v.
      ok (keyed s v s.submission_key (some quote))
  mark_in _ s quote = err submission_not_reserved

  unfoldable pub mark_messaging_quote_submitted :
      MessagingQuoteStateSnapshot → String → Result StateConflict MessagingQuoteStateSnapshot
  mark_messaging_quote_submitted s quote_id =
      let quote = trim quote_id in
      throw_if (is_blank quote) quote_id_required
      >> mark_in (view_messaging_quote_state fact_errors s) s quote
