-- ===== src/Quotes/Review/Resolved.antt =====
-- What a recorded resolution leaves behind: `recordResolution` of
-- apps/api/src/quotes/quote-review.service.ts.
use hestiva_os.Base.{
  ◌≡◌, refl, arith, ℕ, ◌==◌, String, Bool, true, false, not, Option, none, some, inl, inr, ◌⊎◌, sym,
  ap,
}
use hestiva_os.Base.Text.{is_blank}
use hestiva_os.Base.Eq.{string_eq}
use hestiva_os.Base.Result.{ok, ok-injective, throw_if, ◌>>◌, >>-eq-ok, throw_if-eq-ok, if-eq-ok}
use hestiva_os.Quotes.Review.Rows.{
  QuoteEntityResolution, use_existing, create_new, ReviewedQuote, stale_revision, Decision, stays,
  becomes, same_id,
}
use hestiva_os.Quotes.Review.Resolve.{
  Chosen, has_same, same_resolution, resolved_quote, check_customer, check_owner, check_property,
  resolve_anew, resolve_after, resolve_quote,
}
use hestiva_os.Quotes.Review.Declined.{same_count, same_id_refl}

same_id-eq : (a b : Option String) → same_id a b ≡ true → a ≡ b
same_id-eq none none e = refl
same_id-eq none (some b) e = cc
same_id-eq (some a) none e = cc
same_id-eq (some a) (some b) e = ap some ((string_eq.beq_iff a b).0 e)

same_resolution_refl : (d : QuoteEntityResolution) → same_resolution (some d) d ≡ true
same_resolution_refl use_existing = refl
same_resolution_refl create_new = refl

has_same_refl :
    (actor : String) (expected : ℕ) (c p : Chosen) (q : ReviewedQuote)
    → has_same expected c p (resolved_quote actor expected c p q) expected ≡ true
has_same_refl actor expected c p q =
    rw
      (
        same_count expected,
        same_resolution_refl c.decision,
        same_resolution_refl p.decision,
        same_id_refl c.id,
        same_id_refl p.id,
      )
      refl

module _ (has_customer : String → Bool) (customer_of : String → Option String) where
  -- The property, if there is one, is a property of the customer.
  abbrev pub IsOwned : Option String → Option String → Type 0
  IsOwned customer none = Unit
  IsOwned customer (some p) = (is_blank p ≡ false) → (customer_of p ≡ customer)

  check_owner-eq :
      (customer owner : Option String)
      → check_owner has_customer customer_of customer owner ≡ ok tt
      → owner ≡ customer
  check_owner-eq customer none e = cc
  check_owner-eq customer (some owner) e =
      sym (same_id-eq customer (some owner) (ground (arith, throw_if-eq-ok _ _ e)))

  check_property-IsOwned :
      (customer property : Option String)
      → check_property has_customer customer_of customer property ≡ ok tt
      → IsOwned customer property
  check_property-IsOwned customer none e = tt
  check_property-IsOwned customer (some p) e =
      λ named. check_owner-eq customer (customer_of p) (rw named at e)

  anew-IsOwned :
      (actor : String) (expected : ℕ) (c p : Chosen) (q : ReviewedQuote) {d : Decision}
      → resolve_anew has_customer customer_of actor expected c p q ≡ ok d
      → IsOwned c.id p.id × (d ≡ becomes (resolved_quote actor expected c p q))
  unfolding resolve_anew
  anew-IsOwned actor expected c p q e =
      let (guards, same) = >>-eq-ok _ _ e in
      let (rows, _) =
        >>-eq-ok
          (check_customer has_customer customer_of c.id
            >> check_property has_customer customer_of c.id p.id)
          _ guards in
      let (_, property) = >>-eq-ok (check_customer has_customer customer_of c.id) _ rows in
      (check_property-IsOwned c.id p.id property, sym (ok-injective same))

  after-cases :
      (at : Option ℕ) (actor : String) (expected : ℕ) (c p : Chosen) (q : ReviewedQuote)
      {d : Decision}
      → resolve_after has_customer customer_of at actor expected c p q ≡ ok d
      → (d ≡ stays)
        ⊎ ((at ≡ none) × IsOwned c.id p.id × (d ≡ becomes (resolved_quote actor expected c p q)))
  after-cases none actor expected c p q e =
      let (owned, same) = anew-IsOwned actor expected c p q e in inr (refl, owned, same)
  after-cases (some at) actor expected c p q e = inl (sym (if-eq-ok _ stays _ e).1)

  pub resolve_quote-cases :
      (actor : String) (expected : ℕ) (c p : Chosen) (q : ReviewedQuote) {d : Decision}
      → resolve_quote has_customer customer_of actor expected c p q ≡ ok d
      → ((q.current_revision_number == expected) ≡ true)
        × ((d ≡ stays)
            ⊎ ((q.resolution_revision_number ≡ none)
                × IsOwned c.id p.id
                × (d ≡ becomes (resolved_quote actor expected c p q))))
  unfolding resolve_quote
  resolve_quote-cases actor expected c p q e =
      let (current, rest) =
        >>-eq-ok (throw_if (not (q.current_revision_number == expected)) stale_revision) _ e in
      (
        ground (arith, throw_if-eq-ok _ _ current),
        after-cases q.resolution_revision_number actor expected c p q rest,
      )

  pub resolved-stays :
      (actor : String) (expected : ℕ) (c p : Chosen) (q : ReviewedQuote)
      → (q.current_revision_number == expected) ≡ true
      → resolve_quote has_customer customer_of actor expected c p
          (resolved_quote actor expected c p q)
        ≡ ok stays
  unfolding resolve_quote
  resolved-stays actor expected c p q e = rw (e, has_same_refl actor expected c p q) refl
