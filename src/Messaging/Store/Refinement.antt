-- ===== src/Messaging/Store/Refinement.antt =====
-- The table of conversations does what the transitions of the state machine say.
use text.Mathlib.TextEquality.{eq_iff}
use hestiva_os.Base.{
  ◌≡◌, inl, inr, refl, arith, String, true, false, Option, some, List, if◌then◌else◌,
}
use hestiva_os.Base.Text.{◌===◌}
use hestiva_os.Base.Number.{Number, nat, minus, non_integer}
use hestiva_os.Base.Result.{Result, ok, err, ◌>>=◌}
use hestiva_os.Base.Json.{Value}
use hestiva_os.Messaging.State.{
  MessagingQuoteStateSnapshot, StateConflict, view_messaging_quote_state,
}
use hestiva_os.Messaging.State.Laws.{IsVersion}
use hestiva_os.Messaging.State.Steps.{Follows, QuoteCommand, apply, apply-IsFrozen}
use hestiva_os.Messaging.Snapshot.{snapshot_value, parse_messaging_quote_state_snapshot}
use hestiva_os.Messaging.Snapshot.Laws.{IsStorable, IsVersion-is_integer, parse-snapshot_value}
use hestiva_os.Messaging.Store.{
  ConversationRow, StoreError, refused, refused_if, store_next, transitioned, Transitioned,
  has_lost_authority, is_invalid_version, same_number, transition_row, transition, update_row,
  after,
}
use hestiva_os.Messaging.Store.Laws.{IsDraftCommand, IsReadable, apply-IsStorable}

pub Follows-step :
    (v w : Number) → Follows v w → (same_number w v ≡ false) × (same_number w (after v) ≡ true)
Follows-step (nat n) (nat m) h = (ground arith, ground arith)
Follows-step (nat n) (minus _) h = elim h [ ]
Follows-step (nat n) non_integer h = elim h [ ]
Follows-step (minus _) w h = elim h [ ]
Follows-step non_integer w h = elim h [ ]

module _ (fact_errors : Value → List String) (to_iso : Number → String)
    (parse_date : String → Number) where
  -- The row holds the state, which can be stored.
  pub record Stores (row : ConversationRow) (s : MessagingQuoteStateSnapshot) : Type 0 where
    pub state : row.quote_state ≡ snapshot_value s
    pub version : row.quote_state_version ≡ s.version
    pub storable : IsStorable parse_date s

  pub Stores-parse :
      (row : ConversationRow) (s : MessagingQuoteStateSnapshot)
      → Stores row s
      → parse_messaging_quote_state_snapshot parse_date row.quote_state row.quote_state_version
        ≡ ok s
  Stores-parse row s i = rw (i.state, i.version) (parse-snapshot_value parse_date s i.storable)

  same_number_refl : (v : Number) → IsVersion v → same_number v v ≡ true
  same_number_refl (nat n) i = ground arith
  same_number_refl (minus n) i = elim i [ ]
  same_number_refl non_integer i = elim i [ ]

  -- What becomes of the row and of the others when the state is written.
  pub record IsWritten (id : String) (row : ConversationRow)
      (rows : String → Option ConversationRow) (r : MessagingQuoteStateSnapshot) (t : Transitioned)
      : Type 0 where
    pub state : t.state ≡ r
    pub phase : t.phase ≡ view_messaging_quote_state fact_errors r
    pub new_row : ConversationRow
    pub found : t.conversations id ≡ some new_row
    pub stores : Stores new_row r
    pub control : new_row.control_state ≡ row.control_state
    pub control_version : new_row.control_version ≡ row.control_version
    pub others : (k : String) → (k === id) ≡ false → t.conversations k ≡ rows k

  -- The transition does what the command does.
  abbrev pub Refines :
      String
      → ConversationRow
      → (String → Option ConversationRow)
      → Result StateConflict MessagingQuoteStateSnapshot
      → Result StoreError Transitioned
      → Type 0
  Refines id row rows (ok r) (ok t) = IsWritten id row rows r t
  Refines id row rows (err e) (err thrown) = thrown ≡ refused e
  Refines id row rows _ _ = ⊥

  transition_row_lem :
      (id : String) (c : QuoteCommand) (observed : Option Number)
      (rows : String → Option ConversationRow) (row : ConversationRow)
      (s : MessagingQuoteStateSnapshot)
      → Stores row s
      → has_lost_authority observed row ≡ false
      → transition_row fact_errors to_iso parse_date id s.version c observed rows row ≡ (
          refused_if (apply fact_errors to_iso c s)
          >>= store_next fact_errors to_iso parse_date id s.version row rows s)
  transition_row_lem id c observed rows row s i a =
      rw (a, Stores-parse row s i, i.version, same_number_refl s.version i.storable.versioned)

  store_next-same :
      (id : String) (row : ConversationRow) (rows : String → Option ConversationRow)
      (s : MessagingQuoteStateSnapshot)
      → rows id ≡ some row
      → Stores row s
      → (t : Transitioned) × (store_next fact_errors to_iso parse_date id s.version row rows s s
          ≡ ok t)
        × IsWritten id row rows s t
  store_next-same id row rows s found i = (
    transitioned fact_errors to_iso parse_date s rows,
    rw (same_number_refl s.version i.storable.versioned),
    record {
      state = refl;
      phase = refl;
      new_row = row;
      found = found;
      stores = i;
      control = refl;
      control_version = refl;
      others = λ k e. refl;
    },
  )

  store_next-Follows :
      (id : String) (row : ConversationRow) (rows : String → Option ConversationRow)
      (s r : MessagingQuoteStateSnapshot)
      → Stores row s
      → IsStorable parse_date r
      → Follows s.version r.version
      → (t : Transitioned) × (store_next fact_errors to_iso parse_date id s.version row rows s r
          ≡ ok t)
        × IsWritten id row rows r t
  unfolding update_row
  store_next-Follows id row rows s r i storable next =
      let (moved, one) = Follows-step s.version r.version next in
      let new_row : ConversationRow = record row {
        quote_state = snapshot_value r;
        quote_state_version = r.version;
      } in
      (
        transitioned fact_errors to_iso parse_date r
            (λ k. if k === id then some new_row else rows k),
        rw (moved, one, i.version, same_number_refl s.version i.storable.versioned),
        record {
          state = refl;
          phase = refl;
          new_row = new_row;
          found = rw ((eq_iff id id).1 refl);
          stores = record { state = refl; version = refl; storable = storable };
          control = refl;
          control_version = refl;
          others = λ k e. rw e;
        },
      )

  transition_lem :
      (id : String) (c : QuoteCommand) (observed : Option Number)
      (rows : String → Option ConversationRow) (row : ConversationRow)
      (s : MessagingQuoteStateSnapshot)
      → rows id ≡ some row
      → Stores row s
      → is_invalid_version observed ≡ false
      → has_lost_authority observed row ≡ false
      → transition fact_errors to_iso parse_date id s.version c observed rows ≡ (
          refused_if (apply fact_errors to_iso c s)
          >>= store_next fact_errors to_iso parse_date id s.version row rows s)
  unfolding transition
  transition_lem id c observed rows row s found i o a =
      rw (IsVersion-is_integer s.version i.storable.versioned, o, found)
        (transition_row_lem id c observed rows row s i a)

  Refines-bind :
      (id : String) (row : ConversationRow) (rows : String → Option ConversationRow)
      (result : Result StateConflict MessagingQuoteStateSnapshot)
      (next : MessagingQuoteStateSnapshot → Result StoreError Transitioned)
      → ((r : MessagingQuoteStateSnapshot)
          → result ≡ ok r
          → (t : Transitioned) × (next r ≡ ok t) × IsWritten id row rows r t)
      → Refines id row rows result (refused_if result >>= next)
  Refines-bind id row rows (err e) next written = refl
  Refines-bind id row rows (ok r) next written = let (t, stored, w) = written r refl in rw stored w

  pub store_next-IsWritten :
      IsReadable to_iso parse_date
      → (id : String) (c : QuoteCommand) (rows : String → Option ConversationRow)
        (row : ConversationRow) (s r : MessagingQuoteStateSnapshot)
      → rows id ≡ some row
      → Stores row s
      → IsDraftCommand c
      → apply fact_errors to_iso c s ≡ ok r
      → (t : Transitioned) × (store_next fact_errors to_iso parse_date id s.version row rows s r
          ≡ ok t)
        × IsWritten id row rows r t
  store_next-IsWritten iso id c rows row s r found i d h =
      let (moved, _, _) = apply-IsFrozen fact_errors to_iso c s r h in
      elim moved [
        | inl same ↦ rw same (store_next-same id row rows s found i)
        | inr next ↦
            store_next-Follows id row rows s r i
              (apply-IsStorable fact_errors to_iso parse_date c s r iso d h i.storable) next
      ]

  -- A transition with the current version, by a caller that has not lost its authority, does what
  -- the command does to the stored state, if writing and reading a date keeps it valid and a
  -- draft's patch is an object: if the command succeeds, then the caller gets its result and the
  -- phase of it, the row holds the result, with its control as before, and all other rows are as
  -- before; and if the command is refused, then so is the transition, for the same reason.
  pub transition-Refines :
      IsReadable to_iso parse_date
      → (id : String) (c : QuoteCommand) (observed : Option Number)
        (rows : String → Option ConversationRow) (row : ConversationRow)
        (s : MessagingQuoteStateSnapshot)
      → rows id ≡ some row
      → Stores row s
      → IsDraftCommand c
      → is_invalid_version observed ≡ false
      → has_lost_authority observed row ≡ false
      → Refines id row rows
          (apply fact_errors to_iso c s)
          (transition fact_errors to_iso parse_date id s.version c observed rows)
  transition-Refines iso id c observed rows row s found i d o a =
      rw (transition_lem id c observed rows row s found i o a) (
        Refines-bind id row rows (apply fact_errors to_iso c s)
          (store_next fact_errors to_iso parse_date id s.version row rows s)
          (λ r h. store_next-IsWritten iso id c rows row s r found i d h))
