-- ===== src/Messaging/Store/Laws.antt =====
-- The commands lead from states that can be stored to such states.
use hestiva_os.Base.{◌≡◌, inl, inr, arith, String, true, false, List}
use hestiva_os.Base.Number.{Number}
use hestiva_os.Base.Result.{ok}
use hestiva_os.Base.Json.{Value}
use hestiva_os.Messaging.Draft.{merge_progress_value}
use hestiva_os.Messaging.State.{
  MessagingQuoteStateSnapshot, is_valid_date, update_messaging_quote_draft,
  set_messaging_quote_human_review, mark_messaging_quote_review_presented,
  confirm_messaging_quote_review, begin_messaging_quote_submission, mark_messaging_quote_submitted,
}
use hestiva_os.Messaging.State.Laws.{IsVersion}
use hestiva_os.Messaging.State.Steps.{
  Follows, QuoteCommand, update_draft, set_human_review, record_review_presented,
  confirm_from_inbound_message, begin_submission, record_submitted_quote, apply, apply-IsFrozen,
}
use hestiva_os.Messaging.Snapshot.{is_object, is_half_confirmed, is_invalid_date}
use hestiva_os.Messaging.Snapshot.Laws.{IsStorable}

-- The patch of a draft is an object.
abbrev pub IsDraftCommand : QuoteCommand → Type 0
IsDraftCommand (update_draft patch) = is_object patch ≡ true
IsDraftCommand _ = Unit

-- The dates that are written can be read.
abbrev pub IsReadable : (Number → String) → (String → Number) → Type 0
IsReadable to_iso parse_date =
    (t : Number) → is_valid_date t ≡ true → is_valid_date (parse_date (to_iso t)) ≡ true

module _ (fact_errors : Value → List String) (to_iso : Number → String)
    (parse_date : String → Number) where
  merge-is_object :
      (current patch : Value)
      → is_object patch ≡ true
      → is_object (merge_progress_value current patch) ≡ true
  unfolding merge_progress_value
  merge-is_object current patch h = ground arith

  Follows-IsVersion : (v w : Number) → Follows v w → IsVersion w
  Follows-IsVersion v w h = ground arith

  apply-object_draft :
      (c : QuoteCommand) (s r : MessagingQuoteStateSnapshot)
      → apply fact_errors to_iso c s ≡ ok r
      → IsDraftCommand c
      → is_object s.draft ≡ true
      → is_object r.draft ≡ true
  unfolding apply update_messaging_quote_draft set_messaging_quote_human_review
      mark_messaging_quote_review_presented confirm_messaging_quote_review
      begin_messaging_quote_submission mark_messaging_quote_submitted
  apply-object_draft (update_draft patch) s r h d o =
      let merged = merge-is_object s.draft patch d in ground arith
  apply-object_draft (set_human_review required) s r h d o = ground arith
  apply-object_draft (record_review_presented id) s r h d o = ground arith
  apply-object_draft (confirm_from_inbound_message id at) s r h d o = ground arith
  apply-object_draft (begin_submission key) s r h d o = ground arith
  apply-object_draft (record_submitted_quote quote) s r h d o = ground arith

  apply-whole :
      (c : QuoteCommand) (s r : MessagingQuoteStateSnapshot)
      → apply fact_errors to_iso c s ≡ ok r
      → is_half_confirmed s.confirmation_message_id s.confirmed_at ≡ false
      → is_half_confirmed r.confirmation_message_id r.confirmed_at ≡ false
  unfolding apply update_messaging_quote_draft set_messaging_quote_human_review
      mark_messaging_quote_review_presented confirm_messaging_quote_review
      begin_messaging_quote_submission mark_messaging_quote_submitted
  apply-whole (update_draft patch) s r h w = ground arith
  apply-whole (set_human_review required) s r h w = ground arith
  apply-whole (record_review_presented id) s r h w = ground arith
  apply-whole (confirm_from_inbound_message id at) s r h w = ground arith
  apply-whole (begin_submission key) s r h w = ground arith
  apply-whole (record_submitted_quote quote) s r h w = ground arith

  apply-dated :
      (c : QuoteCommand) (s r : MessagingQuoteStateSnapshot)
      → ((t : Number) → is_valid_date t ≡ true → is_valid_date (parse_date (to_iso t)) ≡ true)
      → apply fact_errors to_iso c s ≡ ok r
      → is_invalid_date parse_date s.confirmed_at ≡ false
      → is_invalid_date parse_date r.confirmed_at ≡ false
  unfolding apply update_messaging_quote_draft set_messaging_quote_human_review
      mark_messaging_quote_review_presented confirm_messaging_quote_review
      begin_messaging_quote_submission mark_messaging_quote_submitted
  apply-dated (update_draft patch) s r iso h w = ground arith
  apply-dated (set_human_review required) s r iso h w = ground arith
  apply-dated (record_review_presented id) s r iso h w = ground arith
  apply-dated (confirm_from_inbound_message id at) s r iso h w = ground (arith, iso at)
  apply-dated (begin_submission key) s r iso h w = ground arith
  apply-dated (record_submitted_quote quote) s r iso h w = ground arith

  pub apply-IsStorable :
      (c : QuoteCommand) (s r : MessagingQuoteStateSnapshot)
      → IsReadable to_iso parse_date
      → IsDraftCommand c
      → apply fact_errors to_iso c s ≡ ok r
      → IsStorable parse_date s
      → IsStorable parse_date r
  apply-IsStorable c s r iso d h i =
      let (moved, _, _) = apply-IsFrozen fact_errors to_iso c s r h in
      record {
        versioned = elim moved [
          | inl same ↦ rw same i.versioned
          | inr next ↦ Follows-IsVersion s.version r.version next
        ];
        object_draft = apply-object_draft c s r h d i.object_draft;
        whole = apply-whole c s r h i.whole;
        dated = apply-dated c s r iso h i.dated;
      }
