-- ===== src/Quotes/Review/Declined.antt =====
-- What a decline leaves behind: `decline` of apps/api/src/quotes/quote-review.service.ts.
use hestiva_os.Base.{
  ◌≡◌, refl, arith, ℕ, ◌==◌, is_some, String, true, false, not, Option, none, some, inl, inr, ◌⊎◌,
  ap, sym,
}
use hestiva_os.Base.Result.{ok, ok-injective, throw_if, >>-eq-ok, throw_if-eq-ok, if-eq-ok}
use hestiva_os.Quotes.Intake.Once.{same_text}
use hestiva_os.Quotes.Intake.Records.{
  QuoteStatus, submitted, needs_attention, declined, accepted, expired,
}
use hestiva_os.Quotes.Review.Rows.{
  ReviewedQuote, stale_revision, Decision, stays, becomes, found_quote, same_id,
}
use hestiva_os.Quotes.Review.Decline.{
  last_decline, declined_quote, has_accepted_state, decline_open, decline_status, decline_quote,
}

pub same_count : (n : ℕ) → (n == n) ≡ true
same_count n = ground arith

pub same_id_refl : (o : Option String) → same_id o o ≡ true
same_id_refl none = refl
same_id_refl (some s) = same_text s

pub found-eq : (o : Option ReviewedQuote) {q : ReviewedQuote} → found_quote o ≡ ok q → o ≡ some q
found-eq none e = cc
found-eq (some q) e = ap some (ok-injective e)

-- An open quote that has no operational state.
pub record IsOpen (q : ReviewedQuote) : Type 0 where
  pub pending : (q.status ≡ submitted) ⊎ (q.status ≡ needs_attention)
  pub without_state : has_accepted_state q ≡ false
  pub not_declined : q.declined_at ≡ none

open-cases :
    (now : ℕ) (actor : String) (reason : Option String) (expected : ℕ) (q : ReviewedQuote)
    {d : Decision}
    → decline_open now actor reason expected q ≡ ok d
    → (has_accepted_state q ≡ false)
      × (q.declined_at ≡ none)
      × (d ≡ becomes (declined_quote now actor reason expected q))
open-cases now actor reason expected q e =
    let (guards, same) = >>-eq-ok _ _ e in
    let (state, date) =
      >>-eq-ok (throw_if (has_accepted_state q) _) (throw_if (is_some q.declined_at) _) guards in
    (throw_if-eq-ok _ _ state, ground (arith, throw_if-eq-ok _ _ date), sym (ok-injective same))

status-cases :
    (status : QuoteStatus) (now : ℕ) (actor : String) (reason : Option String) (expected : ℕ)
    (q : ReviewedQuote) {d : Decision}
    → q.status ≡ status
    → decline_status status now actor reason expected q ≡ ok d
    → ((q.status ≡ declined) × (d ≡ stays))
      ⊎ (IsOpen q × (d ≡ becomes (declined_quote now actor reason expected q)))
unfolding last_decline
status-cases declined now actor reason expected q s e = inl (s, sym (if-eq-ok _ stays _ e).1)
status-cases submitted now actor reason expected q s e =
    let (clear, fresh, same) = open-cases now actor reason expected q e in
    inr (record { pending = inl s; without_state = clear; not_declined = fresh }, same)
status-cases needs_attention now actor reason expected q s e =
    let (clear, fresh, same) = open-cases now actor reason expected q e in
    inr (record { pending = inr s; without_state = clear; not_declined = fresh }, same)
status-cases accepted now actor reason expected q s e = cc
status-cases expired now actor reason expected q s e = cc

-- Either way that a decision on a decline goes.
pub decline_quote-cases :
    (now : ℕ) (actor : String) (reason : Option String) (expected : ℕ) (q : ReviewedQuote)
    {d : Decision}
    → decline_quote now actor reason expected q ≡ ok d
    → ((q.current_revision_number == expected) ≡ true)
      × (((q.status ≡ declined) × (d ≡ stays))
          ⊎ (IsOpen q × (d ≡ becomes (declined_quote now actor reason expected q))))
unfolding decline_quote
decline_quote-cases now actor reason expected q e =
    let (current, rest) =
      >>-eq-ok (throw_if (not (q.current_revision_number == expected)) stale_revision) _ e in
    (
      ground (arith, throw_if-eq-ok _ _ current),
      status-cases q.status now actor reason expected q refl rest,
    )

-- A quote that has been declined answers the same decline again.
pub declined-stays :
    (now now' : ℕ) (actor : String) (reason : Option String) (expected : ℕ) (q : ReviewedQuote)
    → (q.current_revision_number == expected) ≡ true
    → decline_quote now' actor reason expected (declined_quote now actor reason expected q)
      ≡ ok stays
unfolding decline_quote last_decline
declined-stays now now' actor reason expected q e =
    rw (e, same_text actor, same_id_refl reason, same_count expected) refl
