-- ===== src/Quotes/Review/Steps.antt =====
-- The decisions on quotes as steps of the table: `decline` and `recordResolution` of
-- apps/api/src/quotes/quote-review.service.ts, in any order.
use hestiva_os.Base.{
  ◌≡◌, refl, ℕ, String, Bool, true, false, Option, none, some, inl, inr, sym, is_some,
}
use hestiva_os.Base.Number.{Number}
use hestiva_os.Base.Text.{is_blank}
use hestiva_os.Base.Eq.{string_eq}
use hestiva_os.Base.Result.{ok, ok-injective, throw_if, >>-eq-ok, >>=-eq-ok}
use hestiva_os.Quotes.Intake.Records.{declined}
use hestiva_os.Quotes.Review.Rows.{
  ReviewedQuote, ReviewedQuotes, Decision, stays, becomes, decided, after, found_quote,
  actor_required, validate_expected_revision,
}
use hestiva_os.Quotes.Review.Decline.{
  has_accepted_state, declined_quote, decline_quote, normalized_reason, decline,
}
use hestiva_os.Quotes.Review.Resolve.{
  EntityInput, Chosen, resolved_quote, resolve_quote, validate_entity, record_resolution,
}
use hestiva_os.Quotes.Review.Declined.{IsOpen, decline_quote-cases, found-eq}
use hestiva_os.Quotes.Review.Resolved.{IsOwned, resolve_quote-cases}

module _ (has_customer : String → Bool) (customer_of : String → Option String) where
  -- A decision on one row.
  pub data RowStep (q : ReviewedQuote) (d : Decision) : Type 0 where
    keeps : d ≡ stays → RowStep q d
    declines :
        (now : ℕ) (actor : String) (reason : Option String) (expected : ℕ)
        → IsOpen q
        → d ≡ becomes (declined_quote now actor reason expected q)
        → RowStep q d
    resolves :
        (actor : String) (expected : ℕ) (c p : Chosen)
        → q.resolution_revision_number ≡ none
        → IsOwned has_customer customer_of c.id p.id
        → d ≡ becomes (resolved_quote actor expected c p q)
        → RowStep q d

  -- A decision that has been taken on the table.
  pub record Decides (id : String) (t u : ReviewedQuotes) : Type 0 where
    pub old : ReviewedQuote
    pub decision : Decision
    pub found : t id ≡ some old
    pub taken : RowStep old decision
    pub written : u ≡ decided id t decision

  -- The operations that return.
  pub data ReviewStep (t u : ReviewedQuotes) : Type 0 where
    declining :
        (now : ℕ) (id : String) (revision : Number) (reason : Option String) (actor : String)
        → decline now id revision reason actor t ≡ ok u
        → ReviewStep t u
    resolving :
        (id : String) (revision : Number) (customer property : EntityInput) (actor : String)
        → record_resolution has_customer customer_of id revision customer property actor t ≡ ok u
        → ReviewStep t u

  decline-Decides :
      (now : ℕ) (id : String) (revision : Number) (reason : Option String) (actor : String)
      (t : ReviewedQuotes) {u : ReviewedQuotes}
      → decline now id revision reason actor t ≡ ok u
      → Decides id t u
  unfolding decline
  decline-Decides now id revision reason actor t e =
      let (expected, _, after) = >>=-eq-ok (validate_expected_revision revision) _ e in
      let (_, asked) = >>-eq-ok (throw_if (is_blank actor) actor_required) _ after in
      let (given, _, read) = >>=-eq-ok (normalized_reason reason) _ asked in
      let (q, found, decide) = >>=-eq-ok (found_quote (t id)) _ read in
      let (d, made, same) = >>=-eq-ok (decline_quote now actor given expected q) _ decide in
      let (_, ways) = decline_quote-cases now actor given expected q made in
      record {
        old = q;
        decision = d;
        found = found-eq _ found;
        taken = elim ways [
          | inl (_, kept) ↦ keeps kept
          | inr (opened, gone) ↦ declines now actor given expected opened gone
        ];
        written = sym (ok-injective same);
      }

  resolution-Decides :
      (id : String) (revision : Number) (customer property : EntityInput) (actor : String)
      (t : ReviewedQuotes) {u : ReviewedQuotes}
      → record_resolution has_customer customer_of id revision customer property actor t ≡ ok u
      → Decides id t u
  unfolding record_resolution
  resolution-Decides id revision customer property actor t e =
      let (expected, _, after) = >>=-eq-ok (validate_expected_revision revision) _ e in
      let (_, asked) = >>-eq-ok (throw_if (is_blank actor) actor_required) _ after in
      let (c, _, both) = >>=-eq-ok (validate_entity customer) _ asked in
      let (p, _, read) = >>=-eq-ok (validate_entity property) _ both in
      let (q, found, decide) = >>=-eq-ok (found_quote (t id)) _ read in
      let (d, made, same) =
        >>=-eq-ok (resolve_quote has_customer customer_of actor expected c p q) _ decide in
      record {
        old = q;
        decision = d;
        found = found-eq _ found;
        taken = elim (resolve_quote-cases has_customer customer_of actor expected c p q made).1 [
          | inl kept ↦ keeps kept
          | inr (fresh, owned, gone) ↦ resolves actor expected c p fresh owned gone
        ];
        written = sym (ok-injective same);
      }

  -- Every operation that returns decides on one row.
  pub step-Decides : {t u : ReviewedQuotes} → ReviewStep t u → (id : String) × Decides id t u
  step-Decides {t} (declining now id revision reason actor e) =
      (id, decline-Decides now id revision reason actor t e)
  step-Decides {t} (resolving id revision customer property actor e) =
      (id, resolution-Decides id revision customer property actor t e)

  -- What holds of each quote that is reviewed.
  pub record IsReviewed (q : ReviewedQuote) : Type 0 where
    -- A declined quote has its date, and no accepted state.
    pub dated : q.status ≡ declined → is_some q.declined_at ≡ true
    pub unaccepted : q.status ≡ declined → has_accepted_state q ≡ false
    -- A property that is chosen belongs to the customer that is chosen.
    pub owned : IsOwned has_customer customer_of q.customer_id q.property_id
    -- A resolution that is recorded decides on both.
    pub whole :
        is_some q.resolution_revision_number ≡ true
        → (is_some q.customer_resolution ≡ true) × (is_some q.property_resolution ≡ true)

  pub taken-IsReviewed :
      (q : ReviewedQuote) (d : Decision) → RowStep q d → IsReviewed q → IsReviewed (after q d)
  taken-IsReviewed q d (keeps e) h = rw e h
  taken-IsReviewed q d (declines now actor reason expected opened e) h = rw e (record {
    dated = λ _. refl;
    unaccepted = λ _. opened.without_state;
    owned = h.owned;
    whole = h.whole;
  })
  taken-IsReviewed q d (resolves actor expected c p fresh owned e) h = rw e (record {
    dated = h.dated;
    unaccepted = h.unaccepted;
    owned = owned;
    whole = λ _. (refl, refl);
  })
