-- ===== src/Messaging/State/Laws.antt =====
-- The transitions keep the state consistent.
use hestiva_os.Base.{◌≡◌, ◌⊎◌, arith, String, Bool, true, false, List, []}
use hestiva_os.Base.Number.{Number, nat}
use hestiva_os.Base.Result.{ok}
use hestiva_os.Base.Json.{Value}
use hestiva_os.Messaging.Flow.{
  ready_to_submit, submitting, is_given, evaluate_messaging_quote_flow,
  messaging_quote_incomplete_fact_groups,
}
use hestiva_os.Messaging.State.{
  MessagingQuoteStateSnapshot, customer_confirmed, is_review, view_messaging_quote_state,
  update_messaging_quote_draft, set_messaging_quote_human_review,
  mark_messaging_quote_review_presented, confirm_messaging_quote_review,
  begin_messaging_quote_submission, mark_messaging_quote_submitted,
}

-- A version is a natural number.
abbrev pub IsVersion : Number → Type 0
IsVersion (nat _) = Unit
IsVersion _ = ⊥

module _ (fact_errors : Value → List String) where
  -- Nothing is missing from the draft, and no human has to review it.
  pub record IsReviewable (s : MessagingQuoteStateSnapshot) : Type 0 where
    pub complete : messaging_quote_incomplete_fact_groups fact_errors s.draft ≡ []
    pub automatic : s.human_review_required ≡ false

  pub record IsConsistent (s : MessagingQuoteStateSnapshot) : Type 0 where
    pub versioned : IsVersion s.version
    pub confirmed :
        is_given s.confirmation_message_id ≡ true
        → IsReviewable s × (is_given s.review_summary_message_id ≡ true)
    pub reserved : is_given s.submission_key ≡ true → customer_confirmed s ≡ true
    pub linked : is_given s.submitted_quote_id ≡ true → is_given s.submission_key ≡ true

  pub review_lem :
      (s : MessagingQuoteStateSnapshot)
      → is_review (view_messaging_quote_state fact_errors s) ≡ true
      → IsReviewable s
        × (is_given s.submission_key ≡ false)
        × (is_given s.submitted_quote_id ≡ false)
        × (customer_confirmed s ≡ false)
  unfolding view_messaging_quote_state evaluate_messaging_quote_flow
  review_lem s h = (
    record { complete = ground arith; automatic = ground arith },
    ground arith,
    ground arith,
    ground arith,
  )

  pub ready_lem :
      (s : MessagingQuoteStateSnapshot)
      → view_messaging_quote_state fact_errors s ≡ ready_to_submit
      → IsReviewable s
        × (is_given s.submission_key ≡ false)
        × (is_given s.submitted_quote_id ≡ false)
        × (customer_confirmed s ≡ true)
  unfolding view_messaging_quote_state evaluate_messaging_quote_flow
  ready_lem s h = (
    record { complete = ground arith; automatic = ground arith },
    ground arith,
    ground arith,
    ground arith,
  )

  pub update-IsConsistent :
      (s : MessagingQuoteStateSnapshot) (patch : Value) (r : MessagingQuoteStateSnapshot)
      → update_messaging_quote_draft s patch ≡ ok r
      → IsConsistent r
  unfolding update_messaging_quote_draft
  update-IsConsistent s patch r h = record {
    versioned = ground arith;
    confirmed = λ e. absurd (ground arith);
    reserved = λ e. absurd (ground arith);
    linked = λ e. ground arith;
  }

  pub human-IsConsistent :
      (s : MessagingQuoteStateSnapshot) (required : Bool) (r : MessagingQuoteStateSnapshot)
      → set_messaging_quote_human_review s required ≡ ok r
      → IsConsistent s
      → IsConsistent r
  unfolding set_messaging_quote_human_review
  human-IsConsistent s required r h c = record {
    versioned = ground arith;
    confirmed = λ e. (
      record { complete = ground (arith, c.confirmed); automatic = ground (arith, c.confirmed) },
      ground (arith, c.confirmed),
    );
    reserved = λ e. absurd (ground arith);
    linked = λ e. ground (arith, c.linked);
  }

  pub present-reviewing :
      (s : MessagingQuoteStateSnapshot) (id : String) (r : MessagingQuoteStateSnapshot)
      → mark_messaging_quote_review_presented fact_errors s id ≡ ok r
      → is_review (view_messaging_quote_state fact_errors s) ≡ true
  unfolding mark_messaging_quote_review_presented
  present-reviewing s id r h = ground arith

  pub present-IsConsistent :
      (s : MessagingQuoteStateSnapshot) (id : String) (r : MessagingQuoteStateSnapshot)
      → mark_messaging_quote_review_presented fact_errors s id ≡ ok r
      → IsConsistent s
      → IsConsistent r
  unfolding mark_messaging_quote_review_presented
  present-IsConsistent s id r h c =
      let (_, no_key, no_quote, _) = review_lem s (present-reviewing s id r h) in
      record {
        versioned = ground arith;
        confirmed = λ e. absurd (ground arith);
        reserved = λ e. absurd (ground arith);
        linked = λ e. ground arith;
      }

  module _ (to_iso : Number → String) where
    pub confirm-reviewing :
        (s : MessagingQuoteStateSnapshot) (id : String) (at : Number)
        (r : MessagingQuoteStateSnapshot)
        → confirm_messaging_quote_review fact_errors to_iso s id at ≡ ok r
        → (is_review (view_messaging_quote_state fact_errors s) ≡ true)
          × (is_given s.review_summary_message_id ≡ true)
    unfolding confirm_messaging_quote_review
    confirm-reviewing s id at r h = (ground arith, ground arith)

    pub confirm-IsConsistent :
        (s : MessagingQuoteStateSnapshot) (id : String) (at : Number)
        (r : MessagingQuoteStateSnapshot)
        → confirm_messaging_quote_review fact_errors to_iso s id at ≡ ok r
        → IsConsistent s
        → IsConsistent r
    unfolding confirm_messaging_quote_review
    confirm-IsConsistent s id at r h c =
        let (reviewing, given) = confirm-reviewing s id at r h in
        let (fit, no_key, no_quote, _) = review_lem s reviewing in
        record {
          versioned = ground arith;
          confirmed = λ e. (
            record {
              complete = ground (arith, fit.complete);
              automatic = ground (arith, fit.automatic);
            },
            ground arith,
          );
          reserved = λ e. absurd (ground arith);
          linked = λ e. ground arith;
        }

  pub submitting_lem :
      (s : MessagingQuoteStateSnapshot)
      → view_messaging_quote_state fact_errors s ≡ submitting
      → (is_given s.submission_key ≡ true) × (is_given s.submitted_quote_id ≡ false)
  unfolding view_messaging_quote_state evaluate_messaging_quote_flow
  submitting_lem s h = (ground arith, ground arith)

  -- A reservation either finds the one that is there, or is made in the phase that permits it.
  pub begin-cases :
      (s : MessagingQuoteStateSnapshot) (key : String) (r : MessagingQuoteStateSnapshot)
      → begin_messaging_quote_submission fact_errors s key ≡ ok r
      → (r ≡ s) ⊎ (view_messaging_quote_state fact_errors s ≡ ready_to_submit)
  unfolding begin_messaging_quote_submission
  begin-cases s key r h = ground arith

  pub begin-IsConsistent :
      (s : MessagingQuoteStateSnapshot) (key : String) (r : MessagingQuoteStateSnapshot)
      → begin_messaging_quote_submission fact_errors s key ≡ ok r
      → view_messaging_quote_state fact_errors s ≡ ready_to_submit
      → IsConsistent s
      → IsConsistent r
  unfolding begin_messaging_quote_submission
  begin-IsConsistent s key r h ready c =
      let (fit, no_key, no_quote, sure) = ready_lem s ready in
      record {
        versioned = ground arith;
        confirmed = λ e. (
          record {
            complete = ground (arith, fit.complete);
            automatic = ground (arith, fit.automatic);
          },
          ground (arith, c.confirmed),
        );
        reserved = λ e. ground arith;
        linked = λ e. ground arith;
      }

  pub link-cases :
      (s : MessagingQuoteStateSnapshot) (quote : String) (r : MessagingQuoteStateSnapshot)
      → mark_messaging_quote_submitted fact_errors s quote ≡ ok r
      → (r ≡ s) ⊎ (view_messaging_quote_state fact_errors s ≡ submitting)
  unfolding mark_messaging_quote_submitted
  link-cases s quote r h = ground arith

  pub link-IsConsistent :
      (s : MessagingQuoteStateSnapshot) (quote : String) (r : MessagingQuoteStateSnapshot)
      → mark_messaging_quote_submitted fact_errors s quote ≡ ok r
      → view_messaging_quote_state fact_errors s ≡ submitting
      → IsConsistent s
      → IsConsistent r
  unfolding mark_messaging_quote_submitted
  link-IsConsistent s quote r h ready c =
      let (given, no_quote) = submitting_lem s ready in
      record {
        versioned = ground arith;
        confirmed = λ e. (
          record {
            complete = ground (arith, c.confirmed);
            automatic = ground (arith, c.confirmed);
          },
          ground (arith, c.confirmed),
        );
        reserved = λ e. ground (arith, c.reserved);
        linked = λ e. ground arith;
      }
