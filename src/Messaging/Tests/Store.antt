-- ===== src/Messaging/Tests/Store.antt =====
-- Runs of the service on a table of two conversations.
use hestiva_os.Base.{◌≡◌, refl, String, false, Option, none, some, if◌then◌else◌}
use hestiva_os.Base.Text.{◌===◌, trim}
use hestiva_os.Base.Number.{Number, nat, non_integer}
use hestiva_os.Base.Result.{ok, err}
use hestiva_os.Base.Json.{object, no_field, get}
use hestiva_os.Messaging.Flow.{
  evaluate_messaging_quote_flow, messaging_quote_incomplete_fact_groups,
}
use hestiva_os.Messaging.State.{
  view_messaging_quote_state, begin_messaging_quote_submission, confirm_messaging_quote_review,
}
use hestiva_os.Messaging.State.Steps.{apply, update_draft, begin_submission}
use hestiva_os.Messaging.Snapshot.{
  parse_messaging_quote_state_snapshot, parse_candidate, snapshot_value,
}
use hestiva_os.Messaging.Snapshot.Laws.{IsStorable, parse-snapshot_value, parse-IsStorable}
use hestiva_os.Messaging.Store.{
  ConversationRow, StoreError, automation, human_takeover, inbound, MessagingMessage, Transitioned,
  transitioned, transition, update_row,
}
use hestiva_os.Messaging.Store.Laws.{IsReadable}
use hestiva_os.Messaging.Store.Refinement.{Stores, Refines, transition-Refines}
use hestiva_os.Messaging.Store.Exclusion.{transition-exclusive}
use hestiva_os.Messaging.Store.History.{IsHistoric, transition-IsHistoric}
use hestiva_os.Messaging.Service.{
  Database, confirm_from_inbound_message, require_conversation_message,
}
use hestiva_os.Messaging.Service.Laws.{IsFrom, confirm-IsFrom}
use hestiva_os.Messaging.Tests.{
  no_errors, same_day, presented, confirmed, reserved, confirmed-Reachable,
}

abbrev read_date : String → Number
read_date s = if s === "2026-01-01T00:00:00.000Z" then nat 1767225600000 else non_integer

read_date-IsReadable : IsReadable same_day read_date
read_date-IsReadable t h = refl

abbrev confirmed_row : ConversationRow
confirmed_row = record {
  quote_state = snapshot_value confirmed;
  quote_state_version = nat 3;
  control_state = automation;
  control_version = nat 2;
}

abbrev presented_row : ConversationRow
presented_row = record {
  quote_state = snapshot_value presented;
  quote_state_version = nat 2;
  control_state = human_takeover;
  control_version = nat 0;
}

abbrev two_rows : String → Option ConversationRow
two_rows k =
    if k === "c1" then some confirmed_row else if k === "c2" then some presented_row else none

confirmed-IsStorable : IsStorable read_date confirmed
confirmed-IsStorable = record { versioned = tt; object_draft = refl; whole = refl; dated = refl }

confirmed-Stores : Stores no_errors same_day read_date confirmed_row confirmed
confirmed-Stores = record { state = refl; version = refl; storable = confirmed-IsStorable }

parse-snapshot_value_example :
    parse_messaging_quote_state_snapshot read_date (snapshot_value confirmed) (nat 3) ≡ ok confirmed
parse-snapshot_value_example = parse-snapshot_value read_date confirmed confirmed-IsStorable

confirmed_read :
    parse_messaging_quote_state_snapshot read_date (snapshot_value confirmed) (nat 3) ≡ ok confirmed
unfolding parse_messaging_quote_state_snapshot parse_candidate snapshot_value get
confirmed_read = refl

parse-IsStorable_example : IsStorable read_date confirmed × (confirmed.version ≡ nat 3)
parse-IsStorable_example =
    parse-IsStorable read_date (snapshot_value confirmed) (nat 3) confirmed confirmed_read

transition-Refines_example :
    Refines no_errors same_day read_date "c1" confirmed_row two_rows
      (apply no_errors same_day (begin_submission "key ") confirmed)
      (transition no_errors same_day read_date "c1"
        (nat 3)
        (begin_submission "key ")
        (some (nat 2))
        two_rows)
transition-Refines_example =
    transition-Refines no_errors same_day read_date read_date-IsReadable "c1"
      (begin_submission "key ") (some (nat 2)) two_rows confirmed_row confirmed refl
      confirmed-Stores tt refl refl

abbrev reserved_rows : String → Option ConversationRow
reserved_rows k =
    if k === "c1"
    then some (record confirmed_row {
      quote_state = snapshot_value reserved;
      quote_state_version = nat 4;
    })
    else two_rows k

abbrev reserved_result : Transitioned
reserved_result = transitioned no_errors same_day read_date reserved reserved_rows

reserve_run :
    transition no_errors same_day read_date "c1"
      (nat 3)
      (begin_submission "key ")
      (some (nat 2))
      two_rows
    ≡ ok reserved_result
unfolding transition apply parse_messaging_quote_state_snapshot snapshot_value parse_candidate
    begin_messaging_quote_submission trim view_messaging_quote_state evaluate_messaging_quote_flow
    messaging_quote_incomplete_fact_groups update_row
reserve_run = refl

transition-exclusive_example :
    (e : StoreError) × (transition no_errors same_day read_date "c1"
        (nat 3)
        (update_draft (object no_field))
        none
        reserved_rows
      ≡ err e)
transition-exclusive_example =
    transition-exclusive no_errors same_day read_date "c1" (nat 3) (begin_submission "key ")
      (update_draft (object no_field)) (some (nat 2)) none two_rows reserved_result reserve_run refl

confirmed-IsHistoric : IsHistoric no_errors same_day read_date "c1" two_rows confirmed
confirmed-IsHistoric = record {
  row = confirmed_row;
  found = refl;
  stores = confirmed-Stores;
  reached = confirmed-Reachable;
}

transition-IsHistoric_example : IsHistoric no_errors same_day read_date "c1" reserved_rows reserved
transition-IsHistoric_example =
    transition-IsHistoric no_errors same_day read_date read_date-IsReadable "c1" (nat 3)
      (begin_submission "key ") (some (nat 2)) two_rows confirmed reserved_result
      confirmed-IsHistoric tt reserve_run

abbrev customer_message : MessagingMessage
customer_message = record { conversation_id = "c2"; direction = inbound; occurred_at = nat 7 }

abbrev database : Database
database = record {
  conversations = two_rows;
  messages = λ k. if k === "m2" then some customer_message else none;
  quotes = λ k. false;
}

abbrev confirmed_result : Transitioned
confirmed_result = transitioned no_errors same_day read_date confirmed (λ k.
    if k === "c2"
    then some (record presented_row {
      quote_state = snapshot_value confirmed;
      quote_state_version = nat 3;
    })
    else two_rows k)

confirm_run :
    confirm_from_inbound_message no_errors same_day read_date "c2" (nat 2) "m2" none database
    ≡ ok confirmed_result
unfolding confirm_from_inbound_message require_conversation_message trim transition
    parse_messaging_quote_state_snapshot snapshot_value parse_candidate apply
    confirm_messaging_quote_review view_messaging_quote_state evaluate_messaging_quote_flow
    messaging_quote_incomplete_fact_groups update_row
confirm_run = refl

confirm-IsFrom_example :
    (m : MessagingMessage) × IsFrom "c2" "m2" inbound database m
    × (confirmed.confirmation_message_id ≡ some "m2")
    × (confirmed.confirmed_at ≡ some (same_day m.occurred_at))
unfolding trim
confirm-IsFrom_example =
    confirm-IsFrom no_errors same_day read_date "c2" (nat 2) "m2" none database confirmed_result
      confirm_run
