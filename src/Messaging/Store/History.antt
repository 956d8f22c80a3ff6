-- ===== src/Messaging/Store/History.antt =====
-- The table holds only states that runs of commands reach.
use hestiva_os.Base.{◌≡◌, ◌∙◌, sym, ap, arith, String, Option, some, List, true}
use hestiva_os.Base.Number.{Number}
use hestiva_os.Base.Result.{ok, ok-injective}
use hestiva_os.Base.Json.{Value}
use hestiva_os.Messaging.State.{MessagingQuoteStateSnapshot}
use hestiva_os.Messaging.State.Steps.{QuoteCommand, apply, Reachable, step}
use hestiva_os.Messaging.Store.{ConversationRow, Transitioned, same_number, store_next, transition}
use hestiva_os.Messaging.Store.Laws.{IsDraftCommand, IsReadable}
use hestiva_os.Messaging.Store.Refinement.{Stores, Stores-parse, IsWritten, store_next-IsWritten}
use hestiva_os.Messaging.Store.Exclusion.{transition-eq-ok}

same_number-eq : (v w : Number) → same_number v w ≡ true → v ≡ w
same_number-eq v w h = ground arith

some_injective :
    (a b : ConversationRow) → ◌≡◌ {A = Option ConversationRow} (some a) (some b) → a ≡ b
some_injective a b e = cc

module _ (fact_errors : Value → List String) (to_iso : Number → String)
    (parse_date : String → Number) where
  -- The row of the conversation holds a state that a run of commands reaches.
  pub record IsHistoric (id : String) (rows : String → Option ConversationRow)
      (s : MessagingQuoteStateSnapshot) : Type 0 where
    pub row : ConversationRow
    pub found : rows id ≡ some row
    pub stores : Stores fact_errors to_iso parse_date row s
    pub reached : Reachable fact_errors to_iso s

  written_lem :
      (id : String) (row : ConversationRow) (rows : String → Option ConversationRow)
      (r : MessagingQuoteStateSnapshot) (t : Transitioned)
      → IsWritten fact_errors to_iso parse_date id row rows r t
      → Reachable fact_errors to_iso r
      → IsHistoric id t.conversations t.state
  written_lem id row rows r t w reached = record {
    row = w.new_row;
    found = w.found;
    stores = rw w.state w.stores;
    reached = rw w.state reached;
  }

  stored_lem :
      IsReadable to_iso parse_date
      → (id : String) (expected : Number) (c : QuoteCommand)
        (rows : String → Option ConversationRow) (row : ConversationRow)
        (s r : MessagingQuoteStateSnapshot) (t : Transitioned)
      → rows id ≡ some row
      → Stores fact_errors to_iso parse_date row s
      → Reachable fact_errors to_iso s
      → IsDraftCommand c
      → expected ≡ s.version
      → apply fact_errors to_iso c s ≡ ok r
      → store_next fact_errors to_iso parse_date id expected row rows s r ≡ ok t
      → IsHistoric id t.conversations t.state
  stored_lem iso id expected c rows row s r t found i reached d e h stored =
      let (u, written, w) =
        store_next-IsWritten fact_errors to_iso parse_date iso id c rows row s r found i d h in
      let same : u ≡ t = ok-injective (sym written ∙ (rw e at stored)) in
      rw (← same) (written_lem id row rows r u w (step c s r reached h))

  -- If a conversation's row holds a state that a run of commands reaches, and dates that are written
  -- can be read, then after a transition that returns, whose patch of a draft is an object, the row
  -- holds the state that the caller gets, which again a run of commands reaches.
  pub transition-IsHistoric :
      IsReadable to_iso parse_date
      → (id : String) (expected : Number) (c : QuoteCommand) (observed : Option Number)
        (rows : String → Option ConversationRow) (s : MessagingQuoteStateSnapshot)
        (t : Transitioned)
      → IsHistoric id rows s
      → IsDraftCommand c
      → transition fact_errors to_iso parse_date id expected c observed rows ≡ ok t
      → IsHistoric id t.conversations t.state
  transition-IsHistoric iso id expected c observed rows s t i d h =
      let u = transition-eq-ok fact_errors to_iso parse_date id expected c observed rows t h in
      let same : i.row ≡ u.row = some_injective i.row u.row (sym i.found ∙ u.found) in
      let stores : Stores fact_errors to_iso parse_date u.row s = rw (← same) i.stores in
      let current : s ≡ u.current =
        ok-injective (sym (Stores-parse fact_errors to_iso parse_date u.row s stores) ∙ u.parsed) in
      stored_lem iso id expected c rows u.row u.current u.next t u.found (rw (← current) stores)
        (rw (← current) i.reached) d
        (sym (same_number-eq _ expected u.current_version)
          ∙ stores.version
          ∙ ap (λ x. x.version) current)
        u.applied u.stored
