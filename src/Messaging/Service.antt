-- ===== src/Messaging/Service.antt =====
-- The operations of apps/api/src/messaging/messaging-quote-state.service.ts, over the tables of
-- conversations, messages and quotes.
pub mod Laws
use hestiva_os.Base.{String, Bool, true, false, not, ◌||◌, Option, none, some, List, if◌then◌else◌}
use hestiva_os.Base.Text.{◌===◌, is_blank, trim}
use hestiva_os.Base.Number.{Number}
use hestiva_os.Base.Result.{Result, ok, err, ◌>>=◌, ◌>>◌, throw_if}
use hestiva_os.Base.Json.{Value}
use hestiva_os.Messaging.State.Steps.{
  update_draft as draft_command, set_human_review as review_command,
  record_review_presented as presented_command, confirm_from_inbound_message as confirm_command,
  begin_submission as begin_command, record_submitted_quote as submitted_command,
}
use hestiva_os.Messaging.Snapshot.{parse_messaging_quote_state_snapshot}
use hestiva_os.Messaging.Store.{
  ConversationRow, MessagingDirection, inbound, outbound, MessagingMessage, StoreError,
  message_identity_required, message_provenance, quote_not_found, unreadable_if, require_row,
  Transitioned, transitioned, transition,
}

pub record Database : Type 0 where
  pub conversations : String → Option ConversationRow
  pub messages : String → Option MessagingMessage
  -- whether there is a quote with the id
  pub quotes : String → Bool

abbrev pub same_direction : MessagingDirection → MessagingDirection → Bool
same_direction inbound inbound = true
same_direction outbound outbound = true
same_direction _ _ = false

abbrev pub require_provenance :
    String → MessagingDirection → Option MessagingMessage → Result StoreError MessagingMessage
require_provenance conversation direction none = err message_provenance
require_provenance conversation direction (some m) =
    if not (m.conversation_id === conversation) || not (same_direction m.direction direction)
    then err message_provenance
    else ok m

unfoldable pub require_conversation_message :
    String → String → MessagingDirection → Database → Result StoreError MessagingMessage
require_conversation_message conversation message_id direction db =
    let id = trim message_id in
    throw_if (is_blank id) message_identity_required
    >> require_provenance conversation direction (db.messages id)

module _ (fact_errors : Value → List String) (to_iso : Number → String)
    (parse_date : String → Number) where
  unfoldable pub get_quote_state : String → Database → Result StoreError Transitioned
  get_quote_state id db = require_row (db.conversations id) >>= λ row.
      unreadable_if
        (parse_messaging_quote_state_snapshot parse_date row.quote_state row.quote_state_version)
      >>= λ s. ok (transitioned fact_errors to_iso parse_date s db.conversations)

  unfoldable pub update_draft :
      String → Number → Value → Option Number → Database → Result StoreError Transitioned
  update_draft id expected patch observed db =
      transition fact_errors to_iso parse_date id expected (draft_command patch) observed
        db.conversations

  unfoldable pub set_human_review :
      String → Number → Bool → Database → Result StoreError Transitioned
  set_human_review id expected required db =
      transition fact_errors to_iso parse_date id expected (review_command required) none
        db.conversations

  unfoldable pub record_review_presented :
      String → Number → String → Option Number → Database → Result StoreError Transitioned
  record_review_presented id expected message_id observed db =
      require_conversation_message id message_id outbound db >>= λ _.
      transition fact_errors to_iso parse_date id expected (presented_command message_id) observed
        db.conversations

  unfoldable pub confirm_from_inbound_message :
      String → Number → String → Option Number → Database → Result StoreError Transitioned
  confirm_from_inbound_message id expected message_id observed db =
      require_conversation_message id message_id inbound db >>= λ message.
      transition fact_errors to_iso parse_date id expected
        (confirm_command message_id message.occurred_at) observed db.conversations

  unfoldable pub begin_submission :
      String → Number → String → Option Number → Database → Result StoreError Transitioned
  begin_submission id expected key observed db =
      transition fact_errors to_iso parse_date id expected (begin_command key) observed
        db.conversations

  unfoldable pub record_submitted_quote :
      String → Number → String → Option Number → Database → Result StoreError Transitioned
  record_submitted_quote id expected quote observed db =
      throw_if (not (db.quotes quote)) quote_not_found
      >> transition fact_errors to_iso parse_date id expected (submitted_command quote) observed
          db.conversations
