-- ===== src/Messaging/Tests.antt =====
-- Runs of the quote conversation.
mod Store
mod Facts
use hestiva_os.Base.{◌≡◌, ◌⊎◌, refl, String, true, false, none, some, List, [], ◌∷◌}
use hestiva_os.Base.Text.{trim}
use hestiva_os.Base.Number.{Number, nat}
use hestiva_os.Base.Result.{ok, ◌>>=◌}
use hestiva_os.Base.Json.{Value, Fields, string, object, no_field, field}
use hestiva_os.Messaging.Draft.{merge_progress_value}
use hestiva_os.Messaging.Draft.Laws.{value_at, reaches, merge_progress_value-keeps}
use hestiva_os.Messaging.Flow.{
  is_given, messaging_quote_incomplete_fact_groups, evaluate_messaging_quote_flow,
}
use hestiva_os.Messaging.State.{
  MessagingQuoteStateSnapshot, initial_messaging_quote_state, marked, keyed,
  view_messaging_quote_state, update_messaging_quote_draft, mark_messaging_quote_review_presented,
  confirm_messaging_quote_review, begin_messaging_quote_submission, mark_messaging_quote_submitted,
}
use hestiva_os.Messaging.State.Laws.{IsConsistent, IsReviewable}
use hestiva_os.Messaging.State.Steps.{
  update_draft, record_review_presented, confirm_from_inbound_message, begin_submission,
  record_submitted_quote, apply, Reachable, start, step, Reachable-IsConsistent, apply-IsFrozen,
  IsFrozen, Follows,
}
use hestiva_os.Messaging.State.Completion.{conversation_completes, IsUsableRun}
use hestiva_os.Messaging.Identity.{CustomerIdentityCandidate, resolve_customer_messaging_identity}
use hestiva_os.Messaging.Identity.Laws.{IsSound, resolve-IsSound}

abbrev no_errors : Value → List String
no_errors draft = []

abbrev same_day : Number → String
same_day t = "2026-01-01T00:00:00.000Z"

abbrev fact : String → Fields → Fields
fact k rest = field k (object (field "note" (string k) no_field)) rest

abbrev full_draft : Value
full_draft = object (
    fact "property" (
      fact "request" (
        fact "visit" (
          fact "access" (
            fact "household"
              (fact "safety" (fact "notes" (fact "customer" (fact "photos" no_field)))))))))

abbrev collected : MessagingQuoteStateSnapshot
collected = record initial_messaging_quote_state { version = nat 1; draft = full_draft }

abbrev presented : MessagingQuoteStateSnapshot
presented = marked collected (nat 2) (some "m1") none none

abbrev confirmed : MessagingQuoteStateSnapshot
confirmed = marked collected (nat 3) (some "m1") (some "m2") (some "2026-01-01T00:00:00.000Z")

abbrev reserved : MessagingQuoteStateSnapshot
reserved = keyed confirmed (nat 4) (some "key") none

abbrev finished : MessagingQuoteStateSnapshot
finished = keyed confirmed (nat 5) (some "key") (some "quote")

collect_step :
    apply no_errors same_day (update_draft full_draft) initial_messaging_quote_state ≡ ok collected
unfolding apply update_messaging_quote_draft merge_progress_value
collect_step = refl

present_step : apply no_errors same_day (record_review_presented " m1") collected ≡ ok presented
unfolding apply mark_messaging_quote_review_presented trim view_messaging_quote_state
    evaluate_messaging_quote_flow messaging_quote_incomplete_fact_groups
present_step = refl

confirm_step :
    apply no_errors same_day (confirm_from_inbound_message "m2" (nat 7)) presented ≡ ok confirmed
unfolding apply confirm_messaging_quote_review trim view_messaging_quote_state
    evaluate_messaging_quote_flow messaging_quote_incomplete_fact_groups
confirm_step = refl

reserve_step : apply no_errors same_day (begin_submission "key ") confirmed ≡ ok reserved
unfolding apply begin_messaging_quote_submission trim view_messaging_quote_state
    evaluate_messaging_quote_flow messaging_quote_incomplete_fact_groups
reserve_step = refl

finish_step : apply no_errors same_day (record_submitted_quote "quote") reserved ≡ ok finished
unfolding apply mark_messaging_quote_submitted trim view_messaging_quote_state
    evaluate_messaging_quote_flow messaging_quote_incomplete_fact_groups
finish_step = refl

confirmed-Reachable : Reachable no_errors same_day confirmed
confirmed-Reachable =
    step (confirm_from_inbound_message "m2" (nat 7)) presented confirmed
      (step (record_review_presented " m1") collected presented
        (step (update_draft full_draft) initial_messaging_quote_state collected start collect_step)
        present_step)
      confirm_step

finished-Reachable : Reachable no_errors same_day finished
finished-Reachable =
    step (record_submitted_quote "quote") reserved finished
      (step (begin_submission "key ") confirmed reserved confirmed-Reachable reserve_step)
      finish_step

Reachable-IsConsistent_example : IsConsistent no_errors finished
Reachable-IsConsistent_example =
    Reachable-IsConsistent no_errors same_day finished finished-Reachable

apply-IsFrozen_example :
    ((finished ≡ reserved) ⊎ Follows reserved.version finished.version)
    × (is_given reserved.submission_key ≡ true → IsFrozen no_errors same_day reserved finished)
    × (is_given reserved.submitted_quote_id ≡ true
        → finished.submitted_quote_id ≡ reserved.submitted_quote_id)
apply-IsFrozen_example =
    apply-IsFrozen no_errors same_day (record_submitted_quote "quote") reserved finished finish_step

collected_is_complete : messaging_quote_incomplete_fact_groups no_errors full_draft ≡ []
unfolding messaging_quote_incomplete_fact_groups
collected_is_complete = refl

usable_run : IsUsableRun no_errors same_day " m1" "m2" "key " "quote" (nat 7)
unfolding trim
usable_run = record {
  review_id_given = refl;
  confirmation_id_given = refl;
  key_given = refl;
  quote_given = refl;
  date_valid = refl;
  iso_given = refl;
}

collected_is_reviewable : IsReviewable no_errors collected
collected_is_reviewable = record { complete = collected_is_complete; automatic = refl }

conversation_completes_example :
    (mark_messaging_quote_review_presented no_errors collected " m1"
      >>= (λ s1. confirm_messaging_quote_review no_errors same_day s1 "m2" (nat 7))
      >>= (λ s2. begin_messaging_quote_submission no_errors s2 "key ")
      >>= λ s3. mark_messaging_quote_submitted no_errors s3 "quote")
    ≡ ok (record finished {
      review_summary_message_id = some (trim " m1");
      confirmation_message_id = some (trim "m2");
      submission_key = some (trim "key ");
      submitted_quote_id = some (trim "quote");
    })
conversation_completes_example =
    conversation_completes no_errors same_day collected 1 " m1" "m2" "key " "quote" (nat 7) refl
      collected_is_reviewable refl refl refl usable_run

abbrev answer : Value
answer = object (field "visit" (object (field "date" (string "monday") no_field)) no_field)

answer_leaves_note : reaches ("visit" ∷ "note" ∷ []) answer ≡ false
unfolding reaches
answer_leaves_note = refl

merge_progress_value-keeps_example :
    value_at ("visit" ∷ "note" ∷ []) (merge_progress_value full_draft answer)
    ≡ value_at ("visit" ∷ "note" ∷ []) full_draft
merge_progress_value-keeps_example =
    merge_progress_value-keeps full_draft answer ("visit" ∷ "note" ∷ []) answer_leaves_note

abbrev linked : CustomerIdentityCandidate
linked = record { customer_id = "c1"; contact_id = some "p1"; trusted = true; explicit_link = true }

abbrev hinted : CustomerIdentityCandidate
hinted = record { customer_id = "c2"; contact_id = none; trusted = true; explicit_link = false }

resolve-IsSound_example :
    IsSound
      (λ ids. ids)
      (hinted ∷ linked ∷ linked ∷ [])
      (some "c1")
      (resolve_customer_messaging_identity (λ ids. ids) (hinted ∷ linked ∷ linked ∷ []) (some "c1"))
resolve-IsSound_example = resolve-IsSound (λ ids. ids) (hinted ∷ linked ∷ linked ∷ []) (some "c1")
