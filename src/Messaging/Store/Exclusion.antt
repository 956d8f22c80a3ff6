-- ===== src/Messaging/Store/Exclusion.antt =====
-- The versions of the table exclude lost updates.
use hestiva_os.Base.{
  ◌≡◌, ◌∙◌, sym, ap, not, ◌⊎◌, inl, inr, refl, arith, String, true, false, Option, some, List,
  if◌then◌else◌, Bool, Bool-cases,
}
use text.Mathlib.TextEquality.{eq_iff}
use hestiva_os.Base.Number.{Number, is_integer_from}
use hestiva_os.Base.Result.{Result, ok, err, ◌>>◌, throw_if, >>=-eq-ok, ok-injective}
use hestiva_os.Base.Json.{Value}
use hestiva_os.Messaging.State.{MessagingQuoteStateSnapshot, StateConflict}
use hestiva_os.Messaging.State.Steps.{QuoteCommand, apply}
use hestiva_os.Messaging.Snapshot.{
  RecoveryConflict, snapshot_value, parse_messaging_quote_state_snapshot,
}
use hestiva_os.Messaging.Snapshot.Laws.{parse-IsStorable}
use hestiva_os.Messaging.Store.{
  ConversationRow, StoreError, expected_version_required, observed_version_required,
  authority_changed, stale, version_skipped, Transitioned, has_lost_authority, is_invalid_version,
  require_row, refused_if, unreadable_if, store_next, same_number, transition_row, transition,
  update_row, after,
}

if_ok_lem {ℓ} :
    {A : Type ℓ} (b : Bool) (x : A) (e : StoreError) (y : A)
    → ◌≡◌ {A = Result StoreError A} (if b then ok x else err e) (ok y)
    → x ≡ y
if_ok_lem true x e y h = ok-injective h
if_ok_lem false x e y h = cc

pub guard_lem {ℓ} :
    {A : Type ℓ} (b : Bool) (e : StoreError) (rest : Result StoreError A) (a : A)
    → (throw_if b e >> rest) ≡ ok a
    → (b ≡ false) × (rest ≡ ok a)
guard_lem false e rest a h = (refl, h)
guard_lem true e rest a h = cc

-- What does not return throws.
thrown {ℓ} :
    {A : Type ℓ} (r : Result StoreError A)
    → ((a : A) → r ≡ ok a → ⊥)
    → (e : StoreError) × (r ≡ err e)
thrown (err e) never = (e, refl)
thrown (ok a) never = absurd (never a refl)

-- Two guards before a computation that returns did not throw.
guards_lem {ℓ} :
    {A : Type ℓ} (b b' : Bool) (e e' : StoreError) (rest : Result StoreError A) (a : A)
    → (throw_if b e >> throw_if b' e' >> rest) ≡ ok a
    → (b ≡ false) × (b' ≡ false) × (rest ≡ ok a)
guards_lem false false e e' rest a h = (refl, refl, h)
guards_lem true b' e e' rest a h = cc
guards_lem false true e e' rest a h = cc

refused_if-eq-ok :
    (o : Result StateConflict MessagingQuoteStateSnapshot) (s : MessagingQuoteStateSnapshot)
    → refused_if o ≡ ok s
    → o ≡ ok s
refused_if-eq-ok o s h = ground arith

unreadable_if-eq-ok :
    (o : Result RecoveryConflict MessagingQuoteStateSnapshot) (s : MessagingQuoteStateSnapshot)
    → unreadable_if o ≡ ok s
    → o ≡ ok s
unreadable_if-eq-ok o s h = ground arith

require_row-eq-ok :
    (o : Option ConversationRow) (row : ConversationRow) → require_row o ≡ ok row → o ≡ some row
require_row-eq-ok o row h = ground arith

module _ (fact_errors : Value → List String) (to_iso : Number → String)
    (parse_date : String → Number) where
  -- What a transition that returns has found and done.
  pub record IsTransitioned (id : String) (expected : Number) (c : QuoteCommand)
      (observed : Option Number) (rows : String → Option ConversationRow) (t : Transitioned)
      : Type 0 where
    pub row : ConversationRow
    pub current : MessagingQuoteStateSnapshot
    pub found : rows id ≡ some row
    pub current_version : same_number row.quote_state_version expected ≡ true
    pub authority : has_lost_authority observed row ≡ false
    pub parsed :
        parse_messaging_quote_state_snapshot parse_date row.quote_state row.quote_state_version
        ≡ ok current
    pub next : MessagingQuoteStateSnapshot
    pub applied : apply fact_errors to_iso c current ≡ ok next
    pub stored : store_next fact_errors to_iso parse_date id expected row rows current next ≡ ok t

  transition_row-eq-ok :
      (id : String) (expected : Number) (c : QuoteCommand) (observed : Option Number)
      (rows : String → Option ConversationRow) (row : ConversationRow) (t : Transitioned)
      → rows id ≡ some row
      → transition_row fact_errors to_iso parse_date id expected c observed rows row ≡ ok t
      → IsTransitioned id expected c observed rows t
  transition_row-eq-ok id expected c observed rows row t found h =
      let (current, read, rest) =
        >>=-eq-ok
          (throw_if (has_lost_authority observed row) authority_changed
            >> throw_if (not (same_number row.quote_state_version expected)) stale
            >> unreadable_if (
                parse_messaging_quote_state_snapshot parse_date row.quote_state
                  row.quote_state_version))
          _ h in
      let (authority, fresh, parsed) = guards_lem _ _ _ _ _ current read in
      let (next, applied, stored) =
        >>=-eq-ok (refused_if (apply fact_errors to_iso c current)) _ rest in
      record {
        row = row;
        current = current;
        found = found;
        current_version = ground arith;
        authority = authority;
        parsed = unreadable_if-eq-ok _ current parsed;
        next = next;
        applied = refused_if-eq-ok _ next applied;
        stored = stored;
      }

  pub transition-eq-ok :
      (id : String) (expected : Number) (c : QuoteCommand) (observed : Option Number)
      (rows : String → Option ConversationRow) (t : Transitioned)
      → transition fact_errors to_iso parse_date id expected c observed rows ≡ ok t
      → IsTransitioned id expected c observed rows t
  unfolding transition
  transition-eq-ok id expected c observed rows t h =
      let (row, got, rest) =
        >>=-eq-ok
          (throw_if (not (is_integer_from 0 expected)) expected_version_required
            >> throw_if (is_invalid_version observed) observed_version_required
            >> require_row (rows id))
          _ h in
      let (_, _, found) = guards_lem _ _ _ _ _ row got in
      transition_row-eq-ok id expected c observed rows row t (require_row-eq-ok _ row found) rest

  update_row-found :
      (id : String) (expected : Number) (next : MessagingQuoteStateSnapshot) (row : ConversationRow)
      (rows rows' : String → Option ConversationRow)
      → update_row id expected next row rows ≡ ok rows'
      → (new : ConversationRow) × (rows' id ≡ some new) × (new.quote_state_version ≡ next.version)
  unfolding update_row
  update_row-found id expected next row rows rows' h =
      let new : ConversationRow = record row {
        quote_state = snapshot_value next;
        quote_state_version = next.version;
      } in
      let same = if_ok_lem (same_number row.quote_state_version expected) _ _ rows' h in
      (new, ap (λ f. f id) (sym same) ∙ rw ((eq_iff id id).1 refl), refl)

  store_next-found :
      (id : String) (expected : Number) (row : ConversationRow)
      (rows : String → Option ConversationRow) (current next : MessagingQuoteStateSnapshot)
      (t : Transitioned)
      → store_next fact_errors to_iso parse_date id expected row rows current next ≡ ok t
      → (t.state ≡ current)
        ⊎ ((new : ConversationRow) × (t.conversations id ≡ some new)
            × (new.quote_state_version ≡ t.state.version))
  store_next-found id expected row rows current next t h =
      elim (Bool-cases (same_number next.version current.version)) [
        | inl same ↦ inl (sym (ap (λ u. u.state) (ok-injective (rw same at h))))
        | inr moved ↦
            let (rows', written, kept) =
              >>=-eq-ok
                (throw_if (not (same_number next.version (after expected))) version_skipped
                  >> update_row id expected next row rows)
                _ (rw moved at h) in
            let (_, updated) = guard_lem _ _ _ rows' written in
            let (new, found, version) = update_row-found id expected next row rows rows' updated in
            let result = ok-injective kept in
            inr (
              new,
              sym (ap (λ u. u.conversations id) result) ∙ found,
              version ∙ ap (λ u. u.state.version) result,
            )
      ]

  moved_lem :
      (id : String) (expected : Number) (c c' : QuoteCommand) (observed observed' : Option Number)
      (rows : String → Option ConversationRow) (t t' : Transitioned)
      → transition fact_errors to_iso parse_date id expected c observed rows ≡ ok t
      → same_number t.state.version expected ≡ false
      → transition fact_errors to_iso parse_date id expected c' observed' t.conversations ≡ ok t'
      → ⊥
  moved_lem id expected c c' observed observed' rows t t' h moved h' =
      let first = transition-eq-ok id expected c observed rows t h in
      let second = transition-eq-ok id expected c' observed' t.conversations t' h' in
      elim (store_next-found id expected first.row rows first.current first.next t first.stored) [
        | inl same ↦
            let (_, version) =
              parse-IsStorable parse_date first.row.quote_state first.row.quote_state_version
                first.current first.parsed in
            let read = first.current_version in cc
        | inr (new, found, version) ↦
            let one = second.found in let read = second.current_version in cc
      ]

  -- Of two transitions of one conversation that expect the same version, at most one moves it: once
  -- the first has left another version, the second throws, whatever its command is.
  pub transition-exclusive :
      (id : String) (expected : Number) (c c' : QuoteCommand) (observed observed' : Option Number)
      (rows : String → Option ConversationRow) (t : Transitioned)
      → transition fact_errors to_iso parse_date id expected c observed rows ≡ ok t
      → same_number t.state.version expected ≡ false
      → (e : StoreError) × (transition fact_errors to_iso parse_date id expected c' observed'
            t.conversations
          ≡ err e)
  transition-exclusive id expected c c' observed observed' rows t h moved =
      thrown (transition fact_errors to_iso parse_date id expected c' observed' t.conversations)
        (λ t' h'. moved_lem id expected c c' observed observed' rows t t' h moved h')
