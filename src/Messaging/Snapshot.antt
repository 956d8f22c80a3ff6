-- ===== src/Messaging/Snapshot.antt =====
-- The stored form of the quote state: `parseMessagingQuoteStateSnapshot` of
-- apps/api/src/messaging/messaging-quote-state.ts, and the JSON that the service writes. A snapshot
-- keeps the eight fields of its type. `parse_date` is the time of `new Date(text)`, with
-- `non_integer` for an invalid date.
pub mod Laws
use hestiva_os.Base.{
  String, Bool, true, false, not, ◌||◌, Option, none, some, if◌then◌else◌, ◌==◌, is_some,
}
use hestiva_os.Base.Number.{Number, nat, minus, non_integer, is_integer_from}
use hestiva_os.Base.Result.{Result, ok, err, ◌>>=◌, ◌>>◌, throw_if}
use hestiva_os.Base.Json.{
  Value, undefined, null, boolean, number, fraction, string, array, object, Fields, no_field, field,
  get,
}
use hestiva_os.Messaging.State.{
  MessagingQuoteStateSnapshot, initial_messaging_quote_state, is_valid_date,
}

-- The `ConflictException`s that require recovery.
pub data RecoveryConflict : Type 0 where
  persisted_version_invalid payload_missing payload_invalid : RecoveryConflict
  payload_inconsistent confirmation_inconsistent timestamp_invalid : RecoveryConflict

-- `value === version`, for a version that is a natural number.
abbrev pub is_version : Number → Value → Bool
is_version (nat v) (number (nat n)) = n == v
is_version _ _ = false

-- `isPlainObject`
abbrev pub is_object : Value → Bool
is_object (object _) = true
is_object _ = false

abbrev pub boolean_field : Value → Result RecoveryConflict Bool
boolean_field (boolean b) = ok b
boolean_field _ = err payload_inconsistent

-- `optionalString`, with the string.
abbrev pub optional_string : Value → Result RecoveryConflict (Option String)
optional_string null = ok none
optional_string (string s) = ok (some s)
optional_string _ = err payload_inconsistent

-- `value === undefined ? null : value`
abbrev pub null_if_undefined : Value → Value
null_if_undefined undefined = null
null_if_undefined v = v

-- `(confirmationMessageId === null) !== (confirmedAt === null)`
abbrev pub is_half_confirmed : Option String → Option String → Bool
is_half_confirmed none none = false
is_half_confirmed (some _) (some _) = false
is_half_confirmed _ _ = true

abbrev pub is_invalid_date : (String → Number) → Option String → Bool
is_invalid_date parse_date none = false
is_invalid_date parse_date (some s) = not (is_valid_date (parse_date s))

module _ (parse_date : String → Number) where
  unfoldable pub parse_candidate :
      Number → Fields → Result RecoveryConflict MessagingQuoteStateSnapshot
  unfolding get
  parse_candidate v candidate =
      throw_if (not (is_version v (get "version" candidate))) payload_inconsistent
      >> throw_if (not (is_object (get "draft" candidate))) payload_inconsistent
      >> boolean_field (get "humanReviewRequired" candidate)
      >>= λ human. optional_string (get "reviewSummaryMessageId" candidate) >>= λ review_id.
          optional_string (get "confirmationMessageId" candidate) >>= λ confirmation_id.
          optional_string (get "confirmedAt" candidate) >>= λ at.
          optional_string (null_if_undefined (get "submissionKey" candidate)) >>= λ key.
          optional_string (get "submittedQuoteId" candidate) >>= λ quote.
          throw_if (is_half_confirmed confirmation_id at) confirmation_inconsistent
          >> throw_if (is_invalid_date parse_date at) timestamp_invalid
          >> ok (record {
            version = v;
            draft = get "draft" candidate;
            human_review_required = human;
            review_summary_message_id = review_id;
            confirmation_message_id = confirmation_id;
            confirmed_at = at;
            submission_key = key;
            submitted_quote_id = quote;
          })

  -- What is read when nothing has been stored.
  abbrev pub parse_absent : Number → Result RecoveryConflict MessagingQuoteStateSnapshot
  parse_absent (nat v) = if v == 0 then ok initial_messaging_quote_state else err payload_missing
  parse_absent _ = err payload_missing

  abbrev pub parse_payload : Number → Value → Result RecoveryConflict MessagingQuoteStateSnapshot
  parse_payload v undefined = parse_absent v
  parse_payload v null = parse_absent v
  parse_payload v (object candidate) = parse_candidate v candidate
  parse_payload v _ = err payload_invalid

  unfoldable pub parse_messaging_quote_state_snapshot :
      Value → Number → Result RecoveryConflict MessagingQuoteStateSnapshot
  parse_messaging_quote_state_snapshot value persisted_version =
      throw_if (not (is_integer_from 0 persisted_version)) persisted_version_invalid
      >> parse_payload persisted_version value

-- `quoteState: next as unknown as Prisma.InputJsonValue`
abbrev pub nullable_value : Option String → Value
nullable_value none = null
nullable_value (some s) = string s

unfoldable pub snapshot_value : MessagingQuoteStateSnapshot → Value
snapshot_value s = object (
    field "version" (number s.version) (
      field "draft" s.draft (
        field "humanReviewRequired" (boolean s.human_review_required) (
          field "reviewSummaryMessageId" (nullable_value s.review_summary_message_id) (
            field "confirmationMessageId" (nullable_value s.confirmation_message_id) (
              field "confirmedAt" (nullable_value s.confirmed_at) (
                field "submissionKey" (nullable_value s.submission_key)
                  (field "submittedQuoteId" (nullable_value s.submitted_quote_id) no_field))))))))
