-- ===== src/Messaging/Store.antt =====
-- apps/api/src/messaging/messaging-quote-state.service.ts: the quote states of the conversations in
-- their table. A table is what its rows are under their ids. A transition runs in one transaction
-- on a row that it locks, so it is one step. `next === current`, a test of identity, is a test of
-- the version, which every transition that does not return the state it was given moves on.
pub mod Laws
pub mod Refinement
pub mod Exclusion
pub mod History
use hestiva_os.Base.{
  ℕ, suc, String, Bool, true, false, not, ◌||◌, ◌&&◌, Option, none, some, List, if◌then◌else◌, ◌==◌,
  is_some,
}
use hestiva_os.Base.Text.{◌===◌, is_blank, trim}
use hestiva_os.Base.Number.{Number, nat, minus, non_integer, is_integer_from}
use hestiva_os.Base.Result.{Result, ok, err, ◌>>=◌, ◌>>◌, throw_if}
use hestiva_os.Base.Json.{Value}
use hestiva_os.Messaging.Flow.{MessagingQuoteFlowPhase}
use hestiva_os.Messaging.State.{
  MessagingQuoteStateSnapshot, StateConflict, view_messaging_quote_state,
}
use hestiva_os.Messaging.State.Steps.{
  QuoteCommand, update_draft, set_human_review, record_review_presented,
  confirm_from_inbound_message, begin_submission, record_submitted_quote, apply,
}
use hestiva_os.Messaging.Snapshot.{
  RecoveryConflict, parse_messaging_quote_state_snapshot, snapshot_value,
}

pub data MessagingConversationControlState : Type 0 where
  automation human_takeover : MessagingConversationControlState

pub record ConversationRow : Type 0 where
  pub quote_state : Value
  pub quote_state_version : Number
  pub control_state : MessagingConversationControlState
  pub control_version : Number

pub data MessagingDirection : Type 0 where
  inbound outbound : MessagingDirection

pub record MessagingMessage : Type 0 where
  pub conversation_id : String
  pub direction : MessagingDirection
  pub occurred_at : Number

pub data StoreError : Type 0 where
  expected_version_required observed_version_required conversation_not_found : StoreError
  authority_changed stale version_skipped changed_concurrently : StoreError
  message_identity_required message_provenance quote_not_found : StoreError
  unreadable : RecoveryConflict → StoreError
  refused : StateConflict → StoreError

-- `===` on numbers
abbrev pub same_number : Number → Number → Bool
same_number (nat n) (nat m) = n == m
same_number (minus n) (minus m) = n == m
same_number _ _ = false

-- What a throw of the state's functions is to the caller of the service.
abbrev pub unreadable_if :
    Result RecoveryConflict MessagingQuoteStateSnapshot
    → Result StoreError MessagingQuoteStateSnapshot
unreadable_if (err e) = err (unreadable e)
unreadable_if (ok s) = ok s

abbrev pub refused_if :
    Result StateConflict MessagingQuoteStateSnapshot → Result StoreError MessagingQuoteStateSnapshot
refused_if (err e) = err (refused e)
refused_if (ok s) = ok s

abbrev pub is_invalid_version : Option Number → Bool
is_invalid_version none = false
is_invalid_version (some v) = not (is_integer_from 0 v)

abbrev pub is_automation : MessagingConversationControlState → Bool
is_automation automation = true
is_automation human_takeover = false

abbrev pub has_lost_authority : Option Number → ConversationRow → Bool
has_lost_authority none row = false
has_lost_authority (some observed) row =
    not (is_automation row.control_state) || not (same_number row.control_version observed)

abbrev pub require_row : Option ConversationRow → Result StoreError ConversationRow
require_row none = err conversation_not_found
require_row (some row) = ok row

-- `version + 1`, of a version that has been tested.
abbrev pub after : Number → Number
after (nat n) = nat (suc n)
after v = v

-- The state that the caller gets, with its phase, and the table afterwards.
pub record Transitioned : Type 0 where
  pub state : MessagingQuoteStateSnapshot
  pub phase : MessagingQuoteFlowPhase
  pub conversations : String → Option ConversationRow

-- `updateMany({ where: { id, quoteStateVersion }, data })`, given the row under the id, if the
-- number of rows it changes is 1.
unfoldable pub update_row :
    String
    → Number
    → MessagingQuoteStateSnapshot
    → ConversationRow
    → (String → Option ConversationRow)
    → Result StoreError (String → Option ConversationRow)
update_row id expected next row rows =
    if same_number row.quote_state_version expected
    then ok (λ k.
      if k === id
      then some
          (record row { quote_state = snapshot_value next; quote_state_version = next.version })
      else rows k)
    else err changed_concurrently

module _ (fact_errors : Value → List String) (to_iso : Number → String)
    (parse_date : String → Number) where
  abbrev pub transitioned :
      MessagingQuoteStateSnapshot → (String → Option ConversationRow) → Transitioned
  transitioned s rows = record {
    state = s;
    phase = view_messaging_quote_state fact_errors s;
    conversations = rows;
  }

  -- The rest of the transaction, once the transition has been applied.
  abbrev pub store_next :
      String
      → Number
      → ConversationRow
      → (String → Option ConversationRow)
      → MessagingQuoteStateSnapshot
      → MessagingQuoteStateSnapshot
      → Result StoreError Transitioned
  store_next id expected row rows current next =
      let changed =
        throw_if (not (same_number next.version (after expected))) version_skipped
        >> update_row id expected next row rows
        >>= λ rows'. ok (transitioned next rows') in
      if same_number next.version current.version then ok (transitioned current rows) else changed

  abbrev pub transition_row :
      String
      → Number
      → QuoteCommand
      → Option Number
      → (String → Option ConversationRow)
      → ConversationRow
      → Result StoreError Transitioned
  transition_row id expected c observed rows row =
      throw_if (has_lost_authority observed row) authority_changed
      >> throw_if (not (same_number row.quote_state_version expected)) stale
      >> unreadable_if
          (parse_messaging_quote_state_snapshot parse_date row.quote_state row.quote_state_version)
      >>= λ current.
          refused_if (apply fact_errors to_iso c current)
          >>= store_next id expected row rows current

  unfoldable pub transition :
      String
      → Number
      → QuoteCommand
      → Option Number
      → (String → Option ConversationRow)
      → Result StoreError Transitioned
  transition id expected c observed rows =
      throw_if (not (is_integer_from 0 expected)) expected_version_required
      >> throw_if (is_invalid_version observed) observed_version_required
      >> require_row (rows id)
      >>= transition_row id expected c observed rows
