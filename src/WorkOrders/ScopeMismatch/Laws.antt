-- ===== src/WorkOrders/ScopeMismatch/Laws.antt =====
-- What a resolution of a scope mismatch has been checked for.
use hestiva_os.Base.{
  ◌≡◌, ◌≢◌, ◌↔◌, ◌⊎◌, refl, sym, ◌∙◌, arith, ℕ, ◌≤◌, ◌+◌, String, true, Option, none, some,
}
use hestiva_os.Base.Number.{Number, nat, minus, non_integer}
use hestiva_os.Base.Result.{ok, ◌>>=◌, >>=-eq-ok, ok-injective}
use hestiva_os.WorkOrders.ScopeMismatch.{
  chargeable_additional_work, decline_additional_work, approved, declined,
  ScopeMismatchResolutionInput, ValidatedScopeMismatch, approval_status, or_empty, scope_amount,
  scope_evidence, validate_scope_mismatch_resolution, scope_checks, resolved,
}

-- A time that is not later than the given one; a time before the epoch counts.
abbrev pub NotLater : ℕ → Number → Type 0
NotLater limit (nat t) = t ≤ limit
NotLater limit (minus _) = Unit
NotLater limit non_integer = ⊥

abbrev pub IsPositive : Option Number → Type 0
IsPositive (some (nat n)) = 1 ≤ n
IsPositive _ = ⊥

module _ (parse_date : String → Number) (now : ℕ) where
  -- What permits work beyond the booked scope to begin.
  pub record MayBegin (i : ScopeMismatchResolutionInput) : Type 0 where
    pub chargeable : i.resolution ≡ chargeable_additional_work
    pub approval : i.customer_approval_status ≡ some approved
    pub amount : IsPositive i.proposed_amount_minor
    pub capacity : i.capacity_reviewed ≡ some true
    pub method : i.customer_approval_method ≢ none
    pub time : NotLater (now + 300_000) (parse_date (or_empty i.customer_approved_at))

  -- What a resolution that passes the guards says.
  pub record IsValidated (i : ScopeMismatchResolutionInput) (v : ValidatedScopeMismatch)
      : Type 0 where
    pub may_begin_iff : (v.additional_work_may_begin ≡ true) ↔ MayBegin i
    pub amount_iff : (v.proposed_amount_minor ≢ none) ↔ (i.resolution ≡ chargeable_additional_work)
    pub evidence_iff : (v.customer_approval_method ≢ none) ↔ (v.additional_work_may_begin ≡ true)
    pub time_iff : (v.customer_approved_at ≢ none) ↔ (v.additional_work_may_begin ≡ true)
    pub declined_iff :
        (i.resolution ≡ decline_additional_work) → v.customer_approval_status ≡ declined

  scope_amount_checked :
      (i : ScopeMismatchResolutionInput)
      → scope_amount i ≡ ok tt
      → ((i.resolution ≡ chargeable_additional_work)
          × IsPositive i.proposed_amount_minor
          × (i.capacity_reviewed ≡ some true))
        ⊎ ((i.resolution ≢ chargeable_additional_work) × (i.proposed_amount_minor ≡ none))
  unfolding scope_amount
  scope_amount_checked i h = ground arith

  scope_evidence_checked :
      (i : ScopeMismatchResolutionInput) {t : Option Number}
      → scope_evidence parse_date now i ≡ ok t
      → ((approval_status i ≡ approved)
          × (i.customer_approval_method ≢ none)
          × (t ≡ some (parse_date (or_empty i.customer_approved_at)))
          × NotLater (now + 300_000) (parse_date (or_empty i.customer_approved_at)))
        ⊎ ((approval_status i ≢ approved) × (i.customer_approval_method ≡ none) × (t ≡ none))
  unfolding scope_evidence
  scope_evidence_checked i h = ground arith

  resolved-IsValidated :
      (i : ScopeMismatchResolutionInput) (t : Option Number)
      → scope_amount i ≡ ok tt
      → scope_evidence parse_date now i ≡ ok t
      → IsValidated i (resolved i t)
  resolved-IsValidated i t h k = record {
    may_begin_iff = (
      λ b. record {
        chargeable = ground arith;
        approval = ground arith;
        amount = ground (arith, scope_amount_checked i h);
        capacity = ground (arith, scope_amount_checked i h);
        method = ground (arith, scope_evidence_checked i k);
        time = ground (arith, scope_evidence_checked i k);
      },
      λ m. ground (arith, m.chargeable, m.approval),
    );
    amount_iff = ground (arith, scope_amount_checked i h);
    evidence_iff = ground (arith, scope_evidence_checked i k);
    time_iff = ground (arith, scope_evidence_checked i k);
    declined_iff = λ e. ground arith;
  }

  scope_checks_passed :
      (i : ScopeMismatchResolutionInput) {t : Option Number}
      → scope_checks parse_date now i ≡ ok t
      → (scope_amount i ≡ ok tt) × (scope_evidence parse_date now i ≡ ok t)
  unfolding scope_checks
  scope_checks_passed i h = (ground arith, ground arith)

  validate_lem :
      (i : ScopeMismatchResolutionInput)
      → validate_scope_mismatch_resolution parse_date now i
        ≡ (scope_checks parse_date now i >>= λ t. ok (resolved i t))
  unfolding validate_scope_mismatch_resolution
  validate_lem i = refl

  -- A resolution of a scope mismatch that is accepted lets additional work begin exactly when it is
  -- chargeable, with a positive whole amount, reviewed capacity and an approval whose method is
  -- recorded and whose time is valid and at most five minutes ahead; it keeps an amount exactly when
  -- it is chargeable, and the method and the time of an approval exactly when work may begin; and a
  -- declined resolution is recorded as declined.
  pub validate-IsValidated :
      (i : ScopeMismatchResolutionInput) (v : ValidatedScopeMismatch)
      → validate_scope_mismatch_resolution parse_date now i ≡ ok v
      → IsValidated i v
  validate-IsValidated i v h =
      let (t, checked, e) =
        >>=-eq-ok (scope_checks parse_date now i) (λ t. ok (resolved i t))
          (sym (validate_lem i) ∙ h) in
      let (a, k) = scope_checks_passed i checked in
      rw (← ok-injective e) (resolved-IsValidated i t a k)
