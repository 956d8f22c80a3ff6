-- ===== src/WorkOrders/Access.antt =====
-- apps/api/src/work-orders/access-operations-policy.ts and access-recovery-policy.ts. A date is its
-- time in milliseconds since the epoch.
pub mod Laws
use hestiva_os.Base.{
  ℕ, ◌+◌, ◌*◌, Bool, true, false, not, ◌||◌, ◌&&◌, Option, none, some, List, [], ◌∷◌, ltb, leb,
  if◌then◌else◌, any,
}
use hestiva_os.WorkOrders.Status.{
  WorkOrderStatus, new, assigned, accepted, travelling, on_site, waiting_for_parts, interrupted,
  WorkOrderAccessReadiness, required_missing, received, needs_review, expired, arranged_another_way,
  not_required,
}

pub data AttentionPriority : Type 0 where
  normal high critical : AttentionPriority

pub data TemporaryAccessCredentialReviewStatus : Type 0 where
  pending_review accepted_review rejected revoked : TemporaryAccessCredentialReviewStatus

-- `24 * 60 * 60 * 1000` and `4 * 60 * 60 * 1000`
abbrev pub access_high_window_ms : ℕ
access_high_window_ms = 86_400_000

abbrev pub access_critical_window_ms : ℕ
access_critical_window_ms = 14_400_000

pub record TemporaryAccessUsabilityMetadata : Type 0 where
  pub review_status : TemporaryAccessCredentialReviewStatus
  pub valid_from : Option ℕ
  pub expires_at : Option ℕ
  pub revoked_at : Option ℕ

-- `remaining = scheduledAt - now` may be negative: each test adds `now` on both sides.
unfoldable pub access_attention_priority : Option ℕ → ℕ → AttentionPriority
access_attention_priority none now = normal
access_attention_priority (some scheduled) now =
    if ltb scheduled (now + access_critical_window_ms)
    then critical
    else if leb scheduled (now + access_high_window_ms)
    then high
    else normal

abbrev is_accepted_review : TemporaryAccessCredentialReviewStatus → Bool
is_accepted_review accepted_review = true
is_accepted_review _ = false

abbrev is_absent : Option ℕ → Bool
is_absent none = true
is_absent (some _) = false

abbrev not_after : Option ℕ → ℕ → Bool
not_after none now = true
not_after (some t) now = leb t now

abbrev is_after : Option ℕ → ℕ → Bool
is_after none now = true
is_after (some t) now = ltb now t

unfoldable pub is_temporary_access_credential_usable : TemporaryAccessUsabilityMetadata → ℕ → Bool
is_temporary_access_credential_usable c now =
    is_accepted_review c.review_status
    && (is_absent c.revoked_at && (not_after c.valid_from now && is_after c.expires_at now))

unfoldable pub is_access_operationally_resolved :
    WorkOrderAccessReadiness → List TemporaryAccessUsabilityMetadata → ℕ → Bool
is_access_operationally_resolved not_required credentials now = true
is_access_operationally_resolved arranged_another_way credentials now = true
is_access_operationally_resolved received credentials now =
    any (λ c. is_temporary_access_credential_usable c now) credentials
is_access_operationally_resolved _ credentials now = false

-- `ACTIVE.has(status)`
abbrev pub is_active : WorkOrderStatus → Bool
is_active new = true
is_active assigned = true
is_active accepted = true
is_active travelling = true
is_active on_site = true
is_active waiting_for_parts = true
is_active interrupted = true
is_active _ = false

-- `UNRESOLVED.has(readiness)`
abbrev pub is_unresolved : WorkOrderAccessReadiness → Bool
is_unresolved required_missing = true
is_unresolved needs_review = true
is_unresolved expired = true
is_unresolved _ = false

unfoldable pub is_access_recovery_fact_eligible : WorkOrderStatus → WorkOrderAccessReadiness → Bool
is_access_recovery_fact_eligible status readiness = is_active status && is_unresolved readiness
