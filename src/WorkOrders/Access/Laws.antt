-- ===== src/WorkOrders/Access/Laws.antt =====
-- When access is resolved, and how its urgency grows as the visit comes nearer.
use hestiva_os.Base.{
  ◌≡◌, ◌↔◌, ◌⊎◌, inl, inr, refl, arith, ℕ, ◌≤◌, ◌<◌, ◌+◌, true, Option, none, some, List, any_iff,
}
use mathlib.Core.List.{Memᴰ}
use mathlib.Core.Bool.{false≢true}
use hestiva_os.WorkOrders.Status.{
  WorkOrderAccessReadiness, received, arranged_another_way, not_required,
}
use hestiva_os.WorkOrders.Access.{
  AttentionPriority, normal, high, critical, accepted_review, TemporaryAccessUsabilityMetadata,
  access_attention_priority, is_temporary_access_credential_usable,
  is_access_operationally_resolved,
}

-- A bound on a time that may be absent.
abbrev pub WhereGiven : (ℕ → Type 0) → Option ℕ → Type 0
WhereGiven P none = Unit
WhereGiven P (some t) = P t

-- The credential may be used at the time.
pub record IsUsable (now : ℕ) (c : TemporaryAccessUsabilityMetadata) : Type 0 where
  pub reviewed : c.review_status ≡ accepted_review
  pub not_revoked : c.revoked_at ≡ none
  pub started : WhereGiven (λ t. t ≤ now) c.valid_from
  pub unexpired : WhereGiven (λ t. now < t) c.expires_at

IsUsable-iff :
    (c : TemporaryAccessUsabilityMetadata) (now : ℕ)
    → (is_temporary_access_credential_usable c now ≡ true) ↔ IsUsable now c
unfolding is_temporary_access_credential_usable
IsUsable-iff c now = (
  λ h. record {
    reviewed = ground arith;
    not_revoked = ground arith;
    started = ground arith;
    unexpired = ground arith;
  },
  λ u. ground (arith, u.reviewed, u.not_revoked, u.started, u.unexpired),
)

-- Access is resolved for a visit at the time.
abbrev pub IsResolved :
    WorkOrderAccessReadiness → List TemporaryAccessUsabilityMetadata → ℕ → Type 0
IsResolved readiness credentials now =
    (readiness ≡ not_required)
    ⊎ ((readiness ≡ arranged_another_way)
        ⊎ ((readiness ≡ received)
            × ((c : TemporaryAccessUsabilityMetadata) × Memᴰ c credentials × IsUsable now c)))

resolved→IsResolved :
    (readiness : WorkOrderAccessReadiness) (credentials : List TemporaryAccessUsabilityMetadata)
    (now : ℕ)
    → is_access_operationally_resolved readiness credentials now ≡ true
    → IsResolved readiness credentials now
unfolding is_access_operationally_resolved
resolved→IsResolved not_required credentials now h = inl refl
resolved→IsResolved arranged_another_way credentials now h = inr (inl refl)
resolved→IsResolved received credentials now h =
    let (c, m, u) = (any_iff (λ c. is_temporary_access_credential_usable c now) credentials).0 h in
    inr (inr (refl, (c, m, (IsUsable-iff c now).0 u)))
resolved→IsResolved _ credentials now h = absurd (false≢true h)

IsResolved→resolved :
    (readiness : WorkOrderAccessReadiness) (credentials : List TemporaryAccessUsabilityMetadata)
    (now : ℕ)
    → IsResolved readiness credentials now
    → is_access_operationally_resolved readiness credentials now ≡ true
unfolding is_access_operationally_resolved
IsResolved→resolved readiness credentials now (inl e) = rw e refl
IsResolved→resolved readiness credentials now (inr (inl e)) = rw e refl
IsResolved→resolved readiness credentials now (inr (inr (e, (c, m, u)))) = rw e (
    (any_iff (λ c. is_temporary_access_credential_usable c now) credentials).1
      (c, m, (IsUsable-iff c now).1 u))

-- Access is operationally resolved exactly when none is required, it is arranged another way, or it
-- has been received with a credential among those given that is accepted, not revoked, already valid
-- and not yet expired.
pub IsResolved-iff :
    (readiness : WorkOrderAccessReadiness) (credentials : List TemporaryAccessUsabilityMetadata)
    (now : ℕ)
    → (is_access_operationally_resolved readiness credentials now ≡ true)
      ↔ IsResolved readiness credentials now
IsResolved-iff readiness credentials now =
    (resolved→IsResolved readiness credentials now, IsResolved→resolved readiness credentials now)

abbrev pub urgency : AttentionPriority → ℕ
urgency normal = 0
urgency high = 1
urgency critical = 2

-- As the visit comes nearer its priority never falls: at a later time it is at least as
-- urgent, and it is critical from the moment the visit is less than four hours away.
pub access_attention_priority_mono :
    (scheduled now later : ℕ)
    → now ≤ later
    → (urgency (access_attention_priority (some scheduled) now)
        ≤ urgency (access_attention_priority (some scheduled) later))
      × ((access_attention_priority (some scheduled) later ≡ critical)
          ↔ (scheduled < later + 14_400_000))
unfolding access_attention_priority
access_attention_priority_mono scheduled now later h = (ground arith, ground arith)
