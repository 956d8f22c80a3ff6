-- ===== src/Quotes/Review/Again.antt =====
-- Decisions that are sent again: `decline` and `recordResolution` of
-- apps/api/src/quotes/quote-review.service.ts.
use hestiva_os.Base.{◌≡◌, refl, ℕ, String, Bool, Option, some, inl, inr, sym, ◌∙◌}
use hestiva_os.Base.Number.{Number}
use hestiva_os.Base.Text.{is_blank}
use hestiva_os.Base.Result.{ok, ok-injective, throw_if, >>-eq-ok, >>=-eq-ok}
use hestiva_os.Quotes.Intake.Records.{declined}
use hestiva_os.Quotes.Review.Rows.{
  ReviewedQuote, ReviewedQuotes, stays, becomes, actor_required, validate_expected_revision,
  found_quote,
}
use hestiva_os.Quotes.Review.Decline.{normalized_reason, declined_quote, decline_quote, decline}
use hestiva_os.Quotes.Review.Resolve.{
  EntityInput, Chosen, validate_entity, resolved_quote, resolve_quote, record_resolution,
}
use hestiva_os.Quotes.Review.Declined.{found-eq, decline_quote-cases, declined-stays}
use hestiva_os.Quotes.Review.Resolved.{resolve_quote-cases, resolved-stays}
use hestiva_os.Quotes.Review.History.{decided-own}

-- The decline of a declined quote does not look at the clock.
declined-eq :
    (now now' : ℕ) (actor : String) (reason : Option String) (expected : ℕ) (q : ReviewedQuote)
    → q.status ≡ declined
    → decline_quote now actor reason expected q ≡ decline_quote now' actor reason expected q
unfolding decline_quote
declined-eq now now' actor reason expected q e = rw e refl

-- A decline that keeps the row keeps the table.
decline-keeps :
    (now : ℕ) (id : String) (revision : Number) (reason : Option String) (actor : String)
    (u : ReviewedQuotes) {expected : ℕ} {given : Option String} {q : ReviewedQuote}
    → validate_expected_revision revision ≡ ok expected
    → throw_if (is_blank actor) actor_required ≡ ok tt
    → normalized_reason reason ≡ ok given
    → u id ≡ some q
    → decline_quote now actor given expected q ≡ ok stays
    → decline now id revision reason actor u ≡ ok u
unfolding decline
decline-keeps now id revision reason actor u e f g h k = rw (e, f, g, h, k) refl

-- A decline that returns, sent again by the same user for the same revision with the same reason,
-- returns too, at whatever time, and changes no table.
pub decline-Again :
    (now now' : ℕ) (id : String) (revision : Number) (reason : Option String) (actor : String)
    (t : ReviewedQuotes) {u : ReviewedQuotes}
    → decline now id revision reason actor t ≡ ok u
    → decline now' id revision reason actor u ≡ ok u
unfolding decline
decline-Again now now' id revision reason actor t {u} e =
    let (expected, valid, after) = >>=-eq-ok (validate_expected_revision revision) _ e in
    let (named, asked) = >>-eq-ok (throw_if (is_blank actor) actor_required) _ after in
    let (given, short, read) = >>=-eq-ok (normalized_reason reason) _ asked in
    let (q, found, decide) = >>=-eq-ok (found_quote (t id)) _ read in
    let (d, made, same) = >>=-eq-ok (decline_quote now actor given expected q) _ decide in
    let (current, ways) = decline_quote-cases now actor given expected q made in
    let row = found-eq _ found in
    elim ways [
      | inl (gone, kept) ↦
          rw (← ok-injective same, kept)
            (decline-keeps now' id revision reason actor t valid named short row
              (sym (declined-eq now now' actor given expected q gone) ∙ rw kept at made))
      | inr (opened, gone) ↦
          rw (← ok-injective same, gone)
            (decline-keeps now' id revision reason actor _ valid named short
              (decided-own id t (becomes (declined_quote now actor given expected q)) row)
              (declined-stays now now' actor given expected q current))
    ]

module _ (has_customer : String → Bool) (customer_of : String → Option String) where
  resolution-keeps :
      (id : String) (revision : Number) (customer property : EntityInput) (actor : String)
      (u : ReviewedQuotes) {expected : ℕ} {c p : Chosen} {q : ReviewedQuote}
      → validate_expected_revision revision ≡ ok expected
      → throw_if (is_blank actor) actor_required ≡ ok tt
      → validate_entity customer ≡ ok c
      → validate_entity property ≡ ok p
      → u id ≡ some q
      → resolve_quote has_customer customer_of actor expected c p q ≡ ok stays
      → record_resolution has_customer customer_of id revision customer property actor u ≡ ok u
  unfolding record_resolution
  resolution-keeps id revision customer property actor u e f g g' h k = rw (e, f, g, g', h, k) refl

  -- A resolution that is recorded, sent again by the same user for the same revision, is accepted
  -- again and changes no table.
  pub resolution-Again :
      (id : String) (revision : Number) (customer property : EntityInput) (actor : String)
      (t : ReviewedQuotes) {u : ReviewedQuotes}
      → record_resolution has_customer customer_of id revision customer property actor t ≡ ok u
      → record_resolution has_customer customer_of id revision customer property actor u ≡ ok u
  unfolding record_resolution
  resolution-Again id revision customer property actor t {u} e =
      let (expected, valid, after) = >>=-eq-ok (validate_expected_revision revision) _ e in
      let (named, asked) = >>-eq-ok (throw_if (is_blank actor) actor_required) _ after in
      let (c, sound, both) = >>=-eq-ok (validate_entity customer) _ asked in
      let (p, sound', read) = >>=-eq-ok (validate_entity property) _ both in
      let (q, found, decide) = >>=-eq-ok (found_quote (t id)) _ read in
      let (d, made, same) =
        >>=-eq-ok (resolve_quote has_customer customer_of actor expected c p q) _ decide in
      let row = found-eq _ found in
      let (current, ways) =
        resolve_quote-cases has_customer customer_of actor expected c p q made in
      elim ways [
        | inl kept ↦
            rw (← ok-injective same, kept)
              (resolution-keeps id revision customer property actor t valid named sound sound' row
                (rw kept at made))
        | inr (fresh, owned, gone) ↦
            rw (← ok-injective same, gone)
              (resolution-keeps id revision customer property actor _ valid named sound sound'
                (decided-own id t (becomes (resolved_quote actor expected c p q)) row)
                (resolved-stays has_customer customer_of actor expected c p q current))
      ]
