-- ===== src/Messaging/State/Completion.antt =====
-- A conversation whose draft is complete can be carried through to its quote.
use hestiva_os.Base.{◌≡◌, refl, arith, ℕ, suc, String, true, false, Option, none, some, List}
use hestiva_os.Base.Text.{is_blank, trim}
use hestiva_os.Base.Number.{Number, nat}
use hestiva_os.Base.Result.{ok, ◌>>=◌}
use hestiva_os.Base.Json.{Value}
use hestiva_os.Messaging.Flow.{
  is_given, review, ready_to_submit, submitting, evaluate_messaging_quote_flow,
}
use hestiva_os.Messaging.State.{
  MessagingQuoteStateSnapshot, customer_confirmed, marked, keyed, is_valid_date,
  view_messaging_quote_state, mark_messaging_quote_review_presented, confirm_messaging_quote_review,
  begin_messaging_quote_submission, mark_messaging_quote_submitted,
}
use hestiva_os.Messaging.State.Laws.{IsReviewable}

module _ (fact_errors : Value → List String) where
  -- A complete draft for which no submission has started.
  pub record IsOpen (s : MessagingQuoteStateSnapshot) (n : ℕ) : Type 0 where
    pub at_version : s.version ≡ nat n
    pub fit : IsReviewable fact_errors s
    pub unreserved : is_given s.submission_key ≡ false
    pub unlinked : is_given s.submitted_quote_id ≡ false

  pub phase-review :
      (s : MessagingQuoteStateSnapshot) {n : ℕ}
      → IsOpen s n
      → customer_confirmed s ≡ false
      → view_messaging_quote_state fact_errors s ≡ review
  unfolding view_messaging_quote_state evaluate_messaging_quote_flow
  phase-review s o h = ground (arith, o.fit.complete, o.fit.automatic, o.unreserved, o.unlinked)

  phase-ready :
      (s : MessagingQuoteStateSnapshot) {n : ℕ}
      → IsOpen s n
      → customer_confirmed s ≡ true
      → view_messaging_quote_state fact_errors s ≡ ready_to_submit
  unfolding view_messaging_quote_state evaluate_messaging_quote_flow
  phase-ready s o h = ground (arith, o.fit.complete, o.fit.automatic, o.unreserved, o.unlinked)

  phase-submitting :
      (s : MessagingQuoteStateSnapshot)
      → is_given s.submission_key ≡ true
      → is_given s.submitted_quote_id ≡ false
      → view_messaging_quote_state fact_errors s ≡ submitting
  unfolding view_messaging_quote_state evaluate_messaging_quote_flow
  phase-submitting s h k = ground arith

  -- New markers leave the rest as it is.
  marked-IsOpen :
      (s : MessagingQuoteStateSnapshot) {n : ℕ} (m : ℕ) (a b c : Option String)
      → IsOpen s n
      → IsOpen (marked s (nat m) a b c) m
  marked-IsOpen s m a b c o = record {
    at_version = refl;
    fit = record { complete = o.fit.complete; automatic = o.fit.automatic };
    unreserved = o.unreserved;
    unlinked = o.unlinked;
  }

  present_succeeds :
      (s : MessagingQuoteStateSnapshot) (n : ℕ) (id : String)
      → IsOpen s n
      → customer_confirmed s ≡ false
      → is_blank (trim id) ≡ false
      → mark_messaging_quote_review_presented fact_errors s id
        ≡ ok (marked s (nat (suc n)) (some (trim id)) none none)
  unfolding mark_messaging_quote_review_presented
  present_succeeds s n id o h k = rw k (rw (phase-review s o h) (rw o.at_version refl))

  confirm_succeeds :
      (to_iso : Number → String) (s : MessagingQuoteStateSnapshot) (n : ℕ) (id : String)
      (at : Number)
      → IsOpen s n
      → customer_confirmed s ≡ false
      → is_given s.review_summary_message_id ≡ true
      → is_blank (trim id) ≡ false
      → is_valid_date at ≡ true
      → confirm_messaging_quote_review fact_errors to_iso s id at
        ≡ ok
            (marked s (nat (suc n)) s.review_summary_message_id (some (trim id)) (some (to_iso at)))
  unfolding confirm_messaging_quote_review
  confirm_succeeds to_iso s n id at o h g k v =
      rw g (rw (phase-review s o h) (rw k (rw v (rw o.at_version refl))))

  begin_succeeds :
      (s : MessagingQuoteStateSnapshot) (n : ℕ) (key : String)
      → IsOpen s n
      → customer_confirmed s ≡ true
      → is_blank (trim key) ≡ false
      → begin_messaging_quote_submission fact_errors s key
        ≡ ok (keyed s (nat (suc n)) (some (trim key)) s.submitted_quote_id)
  unfolding begin_messaging_quote_submission
  begin_succeeds s n key o h k = rw k (rw (phase-ready s o h) (rw o.at_version refl))

  link_succeeds :
      (s : MessagingQuoteStateSnapshot) (n : ℕ) (quote : String)
      → s.version ≡ nat n
      → is_given s.submission_key ≡ true
      → is_given s.submitted_quote_id ≡ false
      → is_blank (trim quote) ≡ false
      → mark_messaging_quote_submitted fact_errors s quote
        ≡ ok (keyed s (nat (suc n)) s.submission_key (some (trim quote)))
  unfolding mark_messaging_quote_submitted
  link_succeeds s n quote v g u k = rw k (rw (phase-submitting s g u) (rw g (rw v refl)))

  -- The identities and the time that the commands of a whole conversation carry are usable.
  pub record IsUsableRun (to_iso : Number → String) (review_id confirmation_id key quote : String)
      (at : Number) : Type 0 where
    pub review_id_given : is_blank (trim review_id) ≡ false
    pub confirmation_id_given : is_blank (trim confirmation_id) ≡ false
    pub key_given : is_blank (trim key) ≡ false
    pub quote_given : is_blank (trim quote) ≡ false
    pub date_valid : is_valid_date at ≡ true
    pub iso_given : is_blank (to_iso at) ≡ false

  -- From a state at version `n` whose draft is complete and needs no human, and for which nothing is
  -- confirmed, reserved or linked, the review, the confirmation, the reservation and the link, with
  -- identities that are not blank and a date that is valid and prints as a text, all succeed, and
  -- end four versions on, with the draft as it was and the trimmed key and quote recorded.
  pub conversation_completes :
      (to_iso : Number → String) (s : MessagingQuoteStateSnapshot) (n : ℕ)
      (review_id confirmation_id key quote : String) (at : Number)
      → s.version ≡ nat n
      → IsReviewable fact_errors s
      → customer_confirmed s ≡ false
      → is_given s.submission_key ≡ false
      → is_given s.submitted_quote_id ≡ false
      → IsUsableRun to_iso review_id confirmation_id key quote at
      → (mark_messaging_quote_review_presented fact_errors s review_id
          >>= (λ s1. confirm_messaging_quote_review fact_errors to_iso s1 confirmation_id at)
          >>= (λ s2. begin_messaging_quote_submission fact_errors s2 key)
          >>= λ s3. mark_messaging_quote_submitted fact_errors s3 quote)
        ≡ ok (record {
          version = nat (suc (suc (suc (suc n))));
          draft = s.draft;
          human_review_required = s.human_review_required;
          review_summary_message_id = some (trim review_id);
          confirmation_message_id = some (trim confirmation_id);
          confirmed_at = some (to_iso at);
          submission_key = some (trim key);
          submitted_quote_id = some (trim quote);
        })
  conversation_completes to_iso s n review_id confirmation_id key quote at v fit h unreserved
        unlinked u =
      let o0 : IsOpen s n = record {
        at_version = v;
        fit = fit;
        unreserved = unreserved;
        unlinked = unlinked;
      } in
      let s1 = marked s (nat (suc n)) (some (trim review_id)) none none in
      let o1 = marked-IsOpen s (suc n) (some (trim review_id)) none none o0 in
      let s2 =
        marked s1 (nat (suc (suc n))) (some (trim review_id)) (some (trim confirmation_id))
          (some (to_iso at)) in
      let o2 =
        marked-IsOpen s1 (suc (suc n)) (some (trim review_id)) (some (trim confirmation_id))
          (some (to_iso at)) o1 in
      let s3 = keyed s2 (nat (suc (suc (suc n)))) (some (trim key)) s.submitted_quote_id in
      rw (present_succeeds s n review_id o0 h u.review_id_given) (
        rw
          (confirm_succeeds to_iso s1 (suc n) confirmation_id at o1 refl (rw u.review_id_given refl)
            u.confirmation_id_given u.date_valid)
          (rw
            (begin_succeeds s2 (suc (suc n)) key o2
              (rw u.confirmation_id_given (rw u.iso_given refl)) u.key_given)
            (rw
              (link_succeeds s3 (suc (suc (suc n))) quote refl (rw u.key_given refl) unlinked
                u.quote_given)
              refl)))
