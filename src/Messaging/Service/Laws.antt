-- ===== src/Messaging/Service/Laws.antt =====
-- What a confirmation rests on.
use hestiva_os.Base.{
  ◌≡◌, ◌∙◌, ◌⊎◌, inl, inr, sym, ap, arith, String, true, not, Option, some, List, Bool-cases,
}
use hestiva_os.Base.Text.{◌===◌, trim}
use hestiva_os.Base.Number.{Number}
use hestiva_os.Base.Result.{ok, ◌>>◌, throw_if, >>=-eq-ok, ok-injective}
use hestiva_os.Base.Json.{Value}
use hestiva_os.Messaging.State.{MessagingQuoteStateSnapshot, confirm_messaging_quote_review}
use hestiva_os.Messaging.State.Steps.{
  apply, apply-IsFrozen, QuoteCommand, Follows, confirm_from_inbound_message as confirm_command,
}
use hestiva_os.Messaging.Store.{
  ConversationRow, inbound, MessagingDirection, MessagingMessage, Transitioned, transition,
  store_next, same_number, after, version_skipped, update_row,
}
use hestiva_os.Messaging.Store.Exclusion.{transition-eq-ok, guard_lem}
use hestiva_os.Messaging.Store.Refinement.{Follows-step}
use hestiva_os.Messaging.Service.{
  Database, same_direction, require_provenance, require_conversation_message,
  confirm_from_inbound_message,
}

-- The message is in the conversation, under the identity that is given, and has the direction.
pub record IsFrom (conversation : String) (message_id : String) (direction : MessagingDirection)
    (db : Database) (m : MessagingMessage) : Type 0 where
  pub found : db.messages (trim message_id) ≡ some m
  pub conversation_id : (m.conversation_id === conversation) ≡ true
  pub direction_is : same_direction m.direction direction ≡ true

require_provenance-eq-ok :
    (conversation : String) (direction : MessagingDirection) (o : Option MessagingMessage)
    (m : MessagingMessage)
    → require_provenance conversation direction o ≡ ok m
    → (o ≡ some m)
      × ((m.conversation_id === conversation) ≡ true)
      × (same_direction m.direction direction ≡ true)
require_provenance-eq-ok conversation direction o m h = ground arith

require-IsFrom :
    (conversation : String) (message_id : String) (direction : MessagingDirection) (db : Database)
    (m : MessagingMessage)
    → require_conversation_message conversation message_id direction db ≡ ok m
    → IsFrom conversation message_id direction db m
unfolding require_conversation_message
require-IsFrom conversation message_id direction db m h =
    let (_, provenance) = guard_lem _ _ _ m h in
    let (found, same, towards) = require_provenance-eq-ok conversation direction _ m provenance in
    record { found = found; conversation_id = same; direction_is = towards }

module _ (fact_errors : Value → List String) (to_iso : Number → String)
    (parse_date : String → Number) where
  store_next-state :
      (id : String) (expected : Number) (row : ConversationRow)
      (rows : String → Option ConversationRow) (current next : MessagingQuoteStateSnapshot)
      (t : Transitioned)
      → store_next fact_errors to_iso parse_date id expected row rows current next ≡ ok t
      → (next ≡ current) ⊎ Follows current.version next.version
      → t.state ≡ next
  store_next-state id expected row rows current next t h moved =
      elim (Bool-cases (same_number next.version current.version)) [
        | inl same ↦ sym (ap (λ u. u.state) (ok-injective (rw same at h))) ∙ elim moved [
          | inl unmoved ↦ sym unmoved
          | inr follows ↦ let (other, _) = Follows-step current.version next.version follows in cc
        ]
        | inr other ↦
            let (rows', written, kept) =
              >>=-eq-ok
                (throw_if (not (same_number next.version (after expected))) version_skipped
                  >> update_row id expected next row rows)
                _ (rw other at h) in
            sym (ap (λ u. u.state) (ok-injective kept))
      ]

  transition-state :
      (id : String) (expected : Number) (c : QuoteCommand) (observed : Option Number)
      (rows : String → Option ConversationRow) (t : Transitioned)
      → transition fact_errors to_iso parse_date id expected c observed rows ≡ ok t
      → (s : MessagingQuoteStateSnapshot) × (apply fact_errors to_iso c s ≡ ok t.state)
  transition-state id expected c observed rows t h =
      let u = transition-eq-ok fact_errors to_iso parse_date id expected c observed rows t h in
      let (moved, _, _) = apply-IsFrozen fact_errors to_iso c u.current u.next u.applied in
      let same = store_next-state id expected u.row rows u.current u.next t u.stored moved in
      (u.current, u.applied ∙ ap ok (sym same))

  confirm-recorded :
      (s : MessagingQuoteStateSnapshot) (id : String) (at : Number)
      (r : MessagingQuoteStateSnapshot)
      → apply fact_errors to_iso (confirm_command id at) s ≡ ok r
      → (r.confirmation_message_id ≡ some (trim id)) × (r.confirmed_at ≡ some (to_iso at))
  unfolding apply confirm_messaging_quote_review
  confirm-recorded s id at r h = (ground arith, ground arith)

  -- If the confirmation of a customer returns, then there is an inbound message of the conversation
  -- with the identity that was given, less the space around it, and the state that the caller gets
  -- is confirmed by that message at its time.
  pub confirm-IsFrom :
      (id : String) (expected : Number) (message_id : String) (observed : Option Number)
      (db : Database) (t : Transitioned)
      → confirm_from_inbound_message fact_errors to_iso parse_date id expected message_id observed
          db
        ≡ ok t
      → (m : MessagingMessage) × IsFrom id message_id inbound db m
        × (t.state.confirmation_message_id ≡ some (trim message_id))
        × (t.state.confirmed_at ≡ some (to_iso m.occurred_at))
  unfolding confirm_from_inbound_message
  confirm-IsFrom id expected message_id observed db t h =
      let (m, got, rest) = >>=-eq-ok (require_conversation_message id message_id inbound db) _ h in
      let (s, applied) =
        transition-state id expected (confirm_command message_id m.occurred_at) observed
          db.conversations t rest in
      let (by, at) = confirm-recorded s message_id m.occurred_at t.state applied in
      (m, require-IsFrom id message_id inbound db m got, by, at)
