-- ===== src/Messaging/State/Steps.antt =====
-- The conversation as a machine: the transitions that
-- apps/api/src/messaging/messaging-quote-state.service.ts hands to its store, as commands, and the
-- states that runs of them reach.
use hestiva_os.Base.{◌≡◌, ◌⊎◌, inl, inr, refl, arith, suc, String, Bool, true, List}
use hestiva_os.Base.Number.{Number, nat}
use hestiva_os.Base.Result.{Result, ok}
use hestiva_os.Base.Json.{Value}
use hestiva_os.Messaging.Flow.{is_given}
use hestiva_os.Messaging.State.{
  MessagingQuoteStateSnapshot, StateConflict, initial_messaging_quote_state,
  update_messaging_quote_draft, set_messaging_quote_human_review,
  mark_messaging_quote_review_presented, confirm_messaging_quote_review,
  begin_messaging_quote_submission, mark_messaging_quote_submitted,
}
use hestiva_os.Messaging.State.Laws.{
  IsConsistent, update-IsConsistent, human-IsConsistent, present-IsConsistent, confirm-IsConsistent,
  begin-cases, begin-IsConsistent, link-cases, link-IsConsistent, review_lem, present-reviewing,
  confirm-reviewing, ready_lem, submitting_lem,
}

-- The second version comes next after the first.
abbrev pub Follows : Number → Number → Type 0
Follows (nat n) (nat m) = m ≡ suc n
Follows _ _ = ⊥

pub data QuoteCommand : Type 0 where
  update_draft : Value → QuoteCommand
  set_human_review : Bool → QuoteCommand
  record_review_presented : String → QuoteCommand
  confirm_from_inbound_message : String → Number → QuoteCommand
  begin_submission : String → QuoteCommand
  record_submitted_quote : String → QuoteCommand

module _ (fact_errors : Value → List String) (to_iso : Number → String) where
  unfoldable pub apply :
      QuoteCommand → MessagingQuoteStateSnapshot → Result StateConflict MessagingQuoteStateSnapshot
  apply (update_draft patch) s = update_messaging_quote_draft s patch
  apply (set_human_review required) s = set_messaging_quote_human_review s required
  apply (record_review_presented id) s = mark_messaging_quote_review_presented fact_errors s id
  apply (confirm_from_inbound_message id at) s =
      confirm_messaging_quote_review fact_errors to_iso s id at
  apply (begin_submission key) s = begin_messaging_quote_submission fact_errors s key
  apply (record_submitted_quote quote) s = mark_messaging_quote_submitted fact_errors s quote

  -- The states that commands reach from the initial one.
  pub data Reachable : MessagingQuoteStateSnapshot → Type 0 where
    start : Reachable initial_messaging_quote_state
    step :
        (c : QuoteCommand) (s r : MessagingQuoteStateSnapshot)
        → Reachable s
        → apply c s ≡ ok r
        → Reachable r

  initial-IsConsistent : IsConsistent fact_errors initial_messaging_quote_state
  initial-IsConsistent = record {
    versioned = tt;
    confirmed = λ e. cc;
    reserved = λ e. cc;
    linked = λ e. cc;
  }

  apply-IsConsistent :
      (c : QuoteCommand) (s r : MessagingQuoteStateSnapshot)
      → apply c s ≡ ok r
      → IsConsistent fact_errors s
      → IsConsistent fact_errors r
  unfolding apply
  apply-IsConsistent (update_draft patch) s r h i = update-IsConsistent fact_errors s patch r h
  apply-IsConsistent (set_human_review required) s r h i =
      human-IsConsistent fact_errors s required r h i
  apply-IsConsistent (record_review_presented id) s r h i =
      present-IsConsistent fact_errors s id r h i
  apply-IsConsistent (confirm_from_inbound_message id at) s r h i =
      confirm-IsConsistent fact_errors to_iso s id at r h i
  apply-IsConsistent (begin_submission key) s r h i = elim (begin-cases fact_errors s key r h) [
    | inl same ↦ rw same i
    | inr ready ↦ begin-IsConsistent fact_errors s key r h ready i
  ]
  apply-IsConsistent (record_submitted_quote quote) s r h i =
      elim (link-cases fact_errors s quote r h) [
        | inl same ↦ rw same i
        | inr ready ↦ link-IsConsistent fact_errors s quote r h ready i
      ]

  -- In every state that a run of commands reaches, the version is a natural number; a recorded
  -- confirmation stands with a recorded review of a complete draft that no human has to review; a
  -- submission is reserved only for a confirmed draft; and a quote is linked only to a reserved one.
  pub Reachable-IsConsistent :
      (s : MessagingQuoteStateSnapshot) → Reachable s → IsConsistent fact_errors s
  Reachable-IsConsistent _ start = initial-IsConsistent
  Reachable-IsConsistent r (step c s _ before h) =
      apply-IsConsistent c s r h (Reachable-IsConsistent s before)

  -- The two states agree in all but the version and the link to a quote.
  pub record IsFrozen (s r : MessagingQuoteStateSnapshot) : Type 0 where
    pub draft : r.draft ≡ s.draft
    pub review : r.review_summary_message_id ≡ s.review_summary_message_id
    pub confirmation : r.confirmation_message_id ≡ s.confirmation_message_id
    pub confirmed_at : r.confirmed_at ≡ s.confirmed_at
    pub key : r.submission_key ≡ s.submission_key

  apply-Follows :
      (c : QuoteCommand) (s r : MessagingQuoteStateSnapshot)
      → apply c s ≡ ok r
      → (r ≡ s) ⊎ Follows s.version r.version
  unfolding apply update_messaging_quote_draft set_messaging_quote_human_review
      mark_messaging_quote_review_presented confirm_messaging_quote_review
      begin_messaging_quote_submission mark_messaging_quote_submitted
  apply-Follows (update_draft patch) s r h = ground arith
  apply-Follows (set_human_review required) s r h = ground arith
  apply-Follows (record_review_presented id) s r h = ground arith
  apply-Follows (confirm_from_inbound_message id at) s r h = ground arith
  apply-Follows (begin_submission key) s r h = ground arith
  apply-Follows (record_submitted_quote quote) s r h = ground arith

  IsFrozen-refl : (s : MessagingQuoteStateSnapshot) → IsFrozen s s
  IsFrozen-refl s = record {
    draft = refl;
    review = refl;
    confirmation = refl;
    confirmed_at = refl;
    key = refl;
  }

  update-unreserved :
      (s : MessagingQuoteStateSnapshot) (patch : Value) (r : MessagingQuoteStateSnapshot)
      → update_messaging_quote_draft s patch ≡ ok r
      → is_given s.submission_key ≡ true
      → ⊥
  unfolding update_messaging_quote_draft
  update-unreserved s patch r h k = ground arith

  human-unreserved :
      (s : MessagingQuoteStateSnapshot) (required : Bool) (r : MessagingQuoteStateSnapshot)
      → set_messaging_quote_human_review s required ≡ ok r
      → is_given s.submission_key ≡ true
      → ⊥
  unfolding set_messaging_quote_human_review
  human-unreserved s required r h k = ground arith

  link-IsFrozen :
      (s : MessagingQuoteStateSnapshot) (quote : String) (r : MessagingQuoteStateSnapshot)
      → mark_messaging_quote_submitted fact_errors s quote ≡ ok r
      → IsFrozen s r
  unfolding mark_messaging_quote_submitted
  link-IsFrozen s quote r h = record {
    draft = ground arith;
    review = ground arith;
    confirmation = ground arith;
    confirmed_at = ground arith;
    key = ground arith;
  }

  apply-IsFrozen_reserved :
      (c : QuoteCommand) (s r : MessagingQuoteStateSnapshot)
      → apply c s ≡ ok r
      → is_given s.submission_key ≡ true
      → IsFrozen s r
  unfolding apply
  apply-IsFrozen_reserved (update_draft patch) s r h k = absurd (update-unreserved s patch r h k)
  apply-IsFrozen_reserved (set_human_review required) s r h k =
      absurd (human-unreserved s required r h k)
  apply-IsFrozen_reserved (record_review_presented id) s r h k =
      let (_, no_key, _, _) = review_lem fact_errors s (present-reviewing fact_errors s id r h) in
      absurd (ground arith)
  apply-IsFrozen_reserved (confirm_from_inbound_message id at) s r h k =
      let (reviewing, _) = confirm-reviewing fact_errors to_iso s id at r h in
      let (_, no_key, _, _) = review_lem fact_errors s reviewing in absurd (ground arith)
  apply-IsFrozen_reserved (begin_submission key) s r h k =
      elim (begin-cases fact_errors s key r h) [
        | inl same ↦ rw same (IsFrozen-refl s)
        | inr ready ↦ let (_, no_key, _, _) = ready_lem fact_errors s ready in absurd (ground arith)
      ]
  apply-IsFrozen_reserved (record_submitted_quote quote) s r h k = link-IsFrozen s quote r h

  apply-linked :
      (c : QuoteCommand) (s r : MessagingQuoteStateSnapshot)
      → apply c s ≡ ok r
      → is_given s.submitted_quote_id ≡ true
      → r.submitted_quote_id ≡ s.submitted_quote_id
  unfolding apply update_messaging_quote_draft set_messaging_quote_human_review
      mark_messaging_quote_review_presented confirm_messaging_quote_review
      begin_messaging_quote_submission
  apply-linked (update_draft patch) s r h k = ground arith
  apply-linked (set_human_review required) s r h k = ground arith
  apply-linked (record_review_presented id) s r h k = ground arith
  apply-linked (confirm_from_inbound_message id at) s r h k = ground arith
  apply-linked (begin_submission key) s r h k = ground arith
  apply-linked (record_submitted_quote quote) s r h k = elim (link-cases fact_errors s quote r h) [
    | inl same ↦ rw same refl
    | inr ready ↦ let (_, no_quote) = submitting_lem fact_errors s ready in absurd (ground arith)
  ]

  -- A command that succeeds either leaves the state as it is, or moves to the next version; and once
  -- a submission has been reserved, the draft, the review, the confirmation and the reserved key stay
  -- what they are, and a linked quote stays linked.
  pub apply-IsFrozen :
      (c : QuoteCommand) (s r : MessagingQuoteStateSnapshot)
      → apply c s ≡ ok r
      → ((r ≡ s) ⊎ Follows s.version r.version)
        × (is_given s.submission_key ≡ true → IsFrozen s r)
        × (is_given s.submitted_quote_id ≡ true → r.submitted_quote_id ≡ s.submitted_quote_id)
  apply-IsFrozen c s r h =
      (apply-Follows c s r h, apply-IsFrozen_reserved c s r h, apply-linked c s r h)
