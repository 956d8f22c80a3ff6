-- ===== src/Quotes/Review/History.antt =====
-- Runs of decisions on quotes: `decline` and `recordResolution` of
-- apps/api/src/quotes/quote-review.service.ts.
use hestiva_os.Base.{
  ◌≡◌, refl, arith, ℕ, String, Bool, false, Option, some, inl, inr, sym, ◌∙◌, ap, Bool-cases, ◌≢◌,
}
use hestiva_os.Base.Text.{◌===◌}
use hestiva_os.Base.Eq.{string_eq}
use hestiva_os.Quotes.Intake.Records.{declined}
use hestiva_os.Quotes.Intake.Once.{same_text}
use hestiva_os.Quotes.Review.Rows.{
  ReviewedQuote, ReviewedQuotes, Decision, stays, becomes, decided, after,
}
use hestiva_os.Quotes.Review.Declined.{IsOpen}
use hestiva_os.Quotes.Review.Steps.{
  RowStep, keeps, declines, resolves, ReviewStep, step-Decides, IsReviewed, taken-IsReviewed,
}

some_eq : {a b : ReviewedQuote} → some a ≡ some b → a ≡ b
some_eq e = cc

-- A row after a decision, at its own id and at the others.
pub decided-own :
    (id : String) (t : ReviewedQuotes) {q : ReviewedQuote} (d : Decision)
    → t id ≡ some q
    → decided id t d id ≡ some (after q d)
decided-own id t stays e = e
decided-own id t (becomes r) e = rw (same_text id) refl

decided-other :
    (id : String) (t : ReviewedQuotes) (d : Decision) (k : String)
    → (k === id) ≡ false
    → decided id t d k ≡ t k
decided-other id t stays k e = refl
decided-other id t (becomes r) k e = rw e refl

-- A decline that stands: the status, its date and its user.
pub record StaysDeclined (q r : ReviewedQuote) : Type 0 where
  pub status : r.status ≡ declined
  pub at : r.declined_at ≡ q.declined_at
  pub by : r.declined_by_user_id ≡ q.declined_by_user_id

-- A resolution that stands.
pub record StaysResolved (q r : ReviewedQuote) : Type 0 where
  pub revision : r.resolution_revision_number ≡ q.resolution_revision_number
  pub customer : r.customer_id ≡ q.customer_id
  pub property : r.property_id ≡ q.property_id
  pub customer_decision : r.customer_resolution ≡ q.customer_resolution
  pub property_decision : r.property_resolution ≡ q.property_resolution

module _ (has_customer : String → Bool) (customer_of : String → Option String) where
  -- The tables that a run of operations reaches.
  pub data Run (t : ReviewedQuotes) : ReviewedQuotes → Type 0 where
    start : Run t t
    step : {u v : ReviewedQuotes} → Run t u → ReviewStep has_customer customer_of u v → Run t v

  -- What a run does to one row.
  record Follows (q r : ReviewedQuote) : Type 0 where
    reviewed : IsReviewed has_customer customer_of q → IsReviewed has_customer customer_of r
    terminal : q.status ≡ declined → StaysDeclined q r
    settled : (n : ℕ) → q.resolution_revision_number ≡ some n → StaysResolved q r

  Follows-refl : (q : ReviewedQuote) → Follows q q
  Follows-refl q = record {
    reviewed = λ h. h;
    terminal = λ e. record { status = e; at = refl; by = refl };
    settled = λ n e. record {
      revision = refl;
      customer = refl;
      property = refl;
      customer_decision = refl;
      property_decision = refl;
    };
  }

  Follows-from : {p q r : ReviewedQuote} → p ≡ q → Follows q r → Follows p r
  Follows-from e f = rw e f

  Follows-trans : {p q r : ReviewedQuote} → Follows p q → Follows q r → Follows p r
  Follows-trans f g = record {
    reviewed = λ h. g.reviewed (f.reviewed h);
    terminal = λ e.
        let a = f.terminal e in
        let b = g.terminal a.status in
        record { status = b.status; at = b.at ∙ a.at; by = b.by ∙ a.by };
    settled = λ n e.
        let a = f.settled n e in
        let b = g.settled n (a.revision ∙ e) in
        record {
          revision = b.revision ∙ a.revision;
          customer = b.customer ∙ a.customer;
          property = b.property ∙ a.property;
          customer_decision = b.customer_decision ∙ a.customer_decision;
          property_decision = b.property_decision ∙ a.property_decision;
        };
  }

  open-undeclined : (q : ReviewedQuote) → IsOpen q → q.status ≢ declined
  open-undeclined q opened e = ground (arith, opened.pending, e)

  taken-Follows :
      (q : ReviewedQuote) (d : Decision)
      → RowStep has_customer customer_of q d
      → Follows q (after q d)
  taken-Follows q d (keeps e) = rw e (Follows-refl q)
  taken-Follows q d (declines now actor reason expected opened e) = rw e (record {
    reviewed = λ h.
        taken-IsReviewed has_customer customer_of q _
          (declines now actor reason expected opened refl) h;
    terminal = λ gone. absurd (open-undeclined q opened gone);
    settled = λ n s. record {
      revision = refl;
      customer = refl;
      property = refl;
      customer_decision = refl;
      property_decision = refl;
    };
  })
  taken-Follows q d (resolves actor expected c p fresh owned e) = rw e (record {
    reviewed = λ h.
        taken-IsReviewed has_customer customer_of q _ (resolves actor expected c p fresh owned refl)
          h;
    terminal = λ gone. record { status = gone; at = refl; by = refl };
    settled = λ n s. ground (arith, fresh, s);
  })

  step-Follows :
      {t u : ReviewedQuotes}
      → ReviewStep has_customer customer_of t u
      → (k : String) {q : ReviewedQuote} → t k ≡ some q
      → (r : ReviewedQuote) × (u k ≡ some r) × Follows q r
  step-Follows {t} s k {q} e =
      let (id, d) = step-Decides has_customer customer_of s in
      elim (Bool-cases (k === id)) [
        | inl own ↦
            let same = (string_eq.beq_iff k id).0 own in
            let row = some_eq (sym e ∙ ap t same ∙ d.found) in
            (
              after d.old d.decision,
              ap (λ (f : ReviewedQuotes). f k) d.written
                  ∙ ap (decided id t d.decision) same
                  ∙ decided-own id t d.decision d.found,
              Follows-from row (taken-Follows d.old d.decision d.taken),
            )
        | inr other ↦ (
          q,
          ap (λ (f : ReviewedQuotes). f k) d.written ∙ decided-other id t d.decision k other ∙ e,
          Follows-refl q,
        )
      ]

  Run-Follows :
      {t u : ReviewedQuotes}
      → Run t u
      → (k : String) {q : ReviewedQuote} → t k ≡ some q
      → (r : ReviewedQuote) × (u k ≡ some r) × Follows q r
  Run-Follows start k {q} e = (q, e, Follows-refl q)
  Run-Follows (step run s) k e =
      let (q, there, first) = Run-Follows run k e in
      let (r, found, second) = step-Follows s k there in (r, found, Follows-trans first second)

  -- In every run of declines and recorded resolutions, a quote that is well reviewed stays there and
  -- stays so: if declined it has its date and no accepted state, a chosen property belongs to the
  -- chosen customer, and a recorded resolution decides on both.
  pub Run-IsReviewed :
      {t u : ReviewedQuotes} {q : ReviewedQuote} (k : String)
      → Run t u
      → t k ≡ some q
      → IsReviewed has_customer customer_of q
      → (r : ReviewedQuote) × (u k ≡ some r) × IsReviewed has_customer customer_of r
  Run-IsReviewed k run e h = let (r, found, f) = Run-Follows run k e in (r, found, f.reviewed h)

  -- In every such run a declined quote stays declined, by the same user and at the same time.
  pub Run-StaysDeclined :
      {t u : ReviewedQuotes} {q : ReviewedQuote} (k : String)
      → Run t u
      → t k ≡ some q
      → q.status ≡ declined
      → (r : ReviewedQuote) × (u k ≡ some r) × StaysDeclined q r
  Run-StaysDeclined k run e gone =
      let (r, found, f) = Run-Follows run k e in (r, found, f.terminal gone)

  -- In every such run a resolution that is recorded stays with its customer, its property and both
  -- decisions.
  pub Run-StaysResolved :
      {t u : ReviewedQuotes} {q : ReviewedQuote} (k : String) (n : ℕ)
      → Run t u
      → t k ≡ some q
      → q.resolution_revision_number ≡ some n
      → (r : ReviewedQuote) × (u k ≡ some r) × StaysResolved q r
  Run-StaysResolved k n run e settled =
      let (r, found, f) = Run-Follows run k e in (r, found, f.settled n settled)
