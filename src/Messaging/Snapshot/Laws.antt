-- ===== src/Messaging/Snapshot/Laws.antt =====
-- A snapshot that is stored is the one that is read again.
use hestiva_os.Base.{◌≡◌, refl, arith, ℕ, String, true, false, Option, none, some}
use hestiva_os.Base.Number.{Number, nat, minus, non_integer, is_integer_from}
use hestiva_os.Base.Result.{ok}
use hestiva_os.Base.Json.{
  Value, undefined, null, boolean, number, fraction, string, array, object, Fields, get,
}
use hestiva_os.Messaging.State.{MessagingQuoteStateSnapshot, initial_messaging_quote_state}
use hestiva_os.Messaging.State.Laws.{IsVersion}
use hestiva_os.Messaging.Snapshot.{
  parse_absent, parse_payload, null_if_undefined, is_version, is_object, is_half_confirmed,
  is_invalid_date, optional_string, nullable_value, parse_candidate,
  parse_messaging_quote_state_snapshot, snapshot_value,
}

optional_string-nullable_value : (o : Option String) → optional_string (nullable_value o) ≡ ok o
optional_string-nullable_value none = refl
optional_string-nullable_value (some s) = refl

null_if_undefined-nullable_value :
    (o : Option String) → null_if_undefined (nullable_value o) ≡ nullable_value o
null_if_undefined-nullable_value none = refl
null_if_undefined-nullable_value (some s) = refl

pub IsVersion-is_integer : (v : Number) → IsVersion v → is_integer_from 0 v ≡ true
IsVersion-is_integer (nat n) i = ground arith
IsVersion-is_integer (minus n) i = elim i [ ]
IsVersion-is_integer non_integer i = elim i [ ]

IsVersion-is_version : (v : Number) → IsVersion v → is_version v (number v) ≡ true
IsVersion-is_version (nat n) i = ground arith
IsVersion-is_version (minus n) i = elim i [ ]
IsVersion-is_version non_integer i = elim i [ ]

module _ (parse_date : String → Number) where
  -- The version is a natural number, the draft is an object, and a confirmation has a valid time.
  pub record IsStorable (s : MessagingQuoteStateSnapshot) : Type 0 where
    pub versioned : IsVersion s.version
    pub object_draft : is_object s.draft ≡ true
    pub whole : is_half_confirmed s.confirmation_message_id s.confirmed_at ≡ false
    pub dated : is_invalid_date parse_date s.confirmed_at ≡ false

  initial-IsStorable : IsStorable initial_messaging_quote_state
  initial-IsStorable = record { versioned = tt; object_draft = refl; whole = refl; dated = refl }

  -- A snapshot whose version is a natural number, whose draft is an object and whose confirmation is
  -- complete, with a date that can be read, is read back from its stored form as it was.
  pub parse-snapshot_value :
      (s : MessagingQuoteStateSnapshot)
      → IsStorable s
      → parse_messaging_quote_state_snapshot parse_date (snapshot_value s) s.version ≡ ok s
  unfolding parse_messaging_quote_state_snapshot snapshot_value parse_candidate get
  parse-snapshot_value s i = rw (
    optional_string-nullable_value s.review_summary_message_id,
    optional_string-nullable_value s.confirmation_message_id,
    optional_string-nullable_value s.confirmed_at,
    null_if_undefined-nullable_value s.submission_key,
    optional_string-nullable_value s.submission_key,
    optional_string-nullable_value s.submitted_quote_id,
    i.object_draft,
    i.whole,
    i.dated,
    IsVersion-is_integer s.version i.versioned,
    IsVersion-is_version s.version i.versioned,
  )

  parse_candidate-IsStorable :
      (n : ℕ) (candidate : Fields) (s : MessagingQuoteStateSnapshot)
      → parse_candidate parse_date (nat n) candidate ≡ ok s
      → IsStorable s × (s.version ≡ nat n)
  unfolding parse_candidate
  parse_candidate-IsStorable n candidate s h = (
    record {
      versioned = ground arith;
      object_draft = ground arith;
      whole = ground arith;
      dated = ground arith;
    },
    ground arith,
  )

  parse_absent-IsStorable :
      (n : ℕ) (s : MessagingQuoteStateSnapshot)
      → parse_absent parse_date (nat n) ≡ ok s
      → IsStorable s × (s.version ≡ nat n)
  parse_absent-IsStorable n s h = (
    record {
      versioned = ground arith;
      object_draft = ground arith;
      whole = ground arith;
      dated = ground arith;
    },
    ground arith,
  )

  parse_payload-IsStorable :
      (n : ℕ) (value : Value) (s : MessagingQuoteStateSnapshot)
      → parse_payload parse_date (nat n) value ≡ ok s
      → IsStorable s × (s.version ≡ nat n)
  parse_payload-IsStorable n undefined s h = parse_absent-IsStorable n s h
  parse_payload-IsStorable n null s h = parse_absent-IsStorable n s h
  parse_payload-IsStorable n (object candidate) s h = parse_candidate-IsStorable n candidate s h
  parse_payload-IsStorable n (boolean _) s h = cc
  parse_payload-IsStorable n (number _) s h = cc
  parse_payload-IsStorable n (fraction _ _) s h = cc
  parse_payload-IsStorable n (string _) s h = cc
  parse_payload-IsStorable n (array _) s h = cc

  -- What can be read from the table is a storable state at the version of its row.
  pub parse-IsStorable :
      (value : Value) (v : Number) (s : MessagingQuoteStateSnapshot)
      → parse_messaging_quote_state_snapshot parse_date value v ≡ ok s
      → IsStorable s × (s.version ≡ v)
  unfolding parse_messaging_quote_state_snapshot
  parse-IsStorable value (nat n) s h = parse_payload-IsStorable n value s (ground arith)
  parse-IsStorable value (minus _) s h = cc
  parse-IsStorable value non_integer s h = cc
