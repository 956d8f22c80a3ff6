-- ===== src/WorkOrders/ScopeMismatch.antt =====
-- apps/api/src/work-orders/work-order-scope-mismatch.policy.ts. The values of an enumeration are
-- its members, so the tests that a member is one of them are passed. A time is in milliseconds
-- since the epoch; how `new Date(text)` reads a text is the argument `parse_date`, which yields
-- `non_integer` for an invalid date, and `Date.now()` is the argument `now`.
pub mod Laws
use hestiva_os.Base.{
  ℕ, ◌+◌, String, Bool, true, false, not, ◌||◌, ◌&&◌, Option, none, some, ltb, leb, is_some,
  if◌then◌else◌,
}
use hestiva_os.Base.Text.{is_blank, trim, text_length}
use hestiva_os.Base.Number.{Number, nat, minus, non_integer, is_integer_from}
use hestiva_os.Base.Result.{Result, ok, err, ◌>>=◌, ◌>>◌, throw_if}

pub data ScopeMismatchResolution : Type 0 where
  no_change_required non_chargeable_adjustment : ScopeMismatchResolution
  chargeable_additional_work decline_additional_work : ScopeMismatchResolution

pub data CustomerApprovalStatus : Type 0 where
  not_required pending approved declined : CustomerApprovalStatus

pub data CustomerApprovalMethod : Type 0 where
  phone whatsapp email in_person other : CustomerApprovalMethod

pub record ScopeMismatchResolutionInput : Type 0 where
  pub resolution : ScopeMismatchResolution
  pub customer_approval_status : Option CustomerApprovalStatus
  pub customer_approval_method : Option CustomerApprovalMethod
  pub customer_approved_at : Option String
  pub proposed_amount_minor : Option Number
  pub capacity_reviewed : Option Bool
  pub note : Option String

pub record ValidatedScopeMismatch : Type 0 where
  pub resolution : ScopeMismatchResolution
  pub customer_approval_status : CustomerApprovalStatus
  pub customer_approval_method : Option CustomerApprovalMethod
  pub customer_approved_at : Option Number
  pub proposed_amount_minor : Option Number
  pub capacity_reviewed : Bool
  pub note : Option String
  pub additional_work_may_begin : Bool

-- The errors thrown, in the order of their guards.
pub data ScopeMismatchError : Type 0 where
  note_length positive_amount_required capacity_not_reviewed : ScopeMismatchError
  amount_not_allowed approval_method_required : ScopeMismatchError
  approval_time_invalid evidence_not_allowed : ScopeMismatchError

abbrev pub is_chargeable : ScopeMismatchResolution → Bool
is_chargeable chargeable_additional_work = true
is_chargeable _ = false

abbrev pub is_approved : CustomerApprovalStatus → Bool
is_approved approved = true
is_approved _ = false

-- `approvalStatus`
abbrev pub approval_status : ScopeMismatchResolutionInput → CustomerApprovalStatus
approval_status i = status_of i.resolution i.customer_approval_status
  where
    status_of : ScopeMismatchResolution → Option CustomerApprovalStatus → CustomerApprovalStatus
    status_of chargeable_additional_work none = pending
    status_of chargeable_additional_work (some s) = s
    status_of decline_additional_work _ = declined
    status_of _ _ = not_required

-- `input.note?.trim()`, and null when it is empty
abbrev pub trimmed_note : Option String → Option String
trimmed_note none = none
trimmed_note (some s) = let t = trim s in if is_blank t then none else some t

abbrev pub bad_note : Option String → Bool
bad_note none = false
bad_note (some t) = ltb (text_length t) 3 || ltb 1000 (text_length t)

abbrev is_positive : Option Number → Bool
is_positive none = false
is_positive (some n) = is_integer_from 1 n

abbrev is_true : Option Bool → Bool
is_true none = false
is_true (some b) = b

abbrev is_given : Option String → Bool
is_given none = false
is_given (some s) = not (is_blank s)

-- `customerApprovedAt ?? ''`
abbrev pub or_empty : Option String → String
or_empty none = ""
or_empty (some s) = s

-- `!Number.isFinite(time) || time > now + 5 * 60_000`
abbrev bad_time : ℕ → Number → Bool
bad_time now (nat t) = ltb (now + 300_000) t
bad_time now (minus _) = false
bad_time now non_integer = true

-- The guards on the amount and the review of capacity.
unfoldable pub scope_amount : ScopeMismatchResolutionInput → Result ScopeMismatchError (Unit {0})
scope_amount i =
    if is_chargeable i.resolution
    then throw_if (not (is_positive i.proposed_amount_minor)) positive_amount_required
      >> throw_if (not (is_true i.capacity_reviewed)) capacity_not_reviewed
    else throw_if (is_some i.proposed_amount_minor) amount_not_allowed

-- The guards on the evidence of the customer's approval, and the time of it.
unfoldable pub scope_evidence :
    (String → Number) → ℕ → ScopeMismatchResolutionInput → Result ScopeMismatchError (Option Number)
scope_evidence parse_date now i =
    if is_approved (approval_status i)
    then throw_if (not (is_some i.customer_approval_method)) approval_method_required
      >> (let t = parse_date (or_empty i.customer_approved_at) in
          throw_if (bad_time now t) approval_time_invalid >>= λ _. ok (some t))
    else throw_if (is_some i.customer_approval_method || is_given i.customer_approved_at)
        evidence_not_allowed
      >>= λ _. ok none

abbrev if_some {ℓ} : {A : Type ℓ} → Bool → Option A → Option A
if_some true o = o
if_some false o = none

-- The value returned.
abbrev pub resolved : ScopeMismatchResolutionInput → Option Number → ValidatedScopeMismatch
resolved i approved_at =
    let chargeable = is_chargeable i.resolution in
    let status = approval_status i in
    record {
      resolution = i.resolution;
      customer_approval_status = status;
      customer_approval_method = if_some (is_approved status) i.customer_approval_method;
      customer_approved_at = approved_at;
      proposed_amount_minor = if_some chargeable i.proposed_amount_minor;
      capacity_reviewed = chargeable || is_true i.capacity_reviewed;
      note = trimmed_note i.note;
      additional_work_may_begin = chargeable && is_approved status;
    }

-- The guards in the source's order; the time of approval, if there is one.
unfoldable pub scope_checks :
    (String → Number) → ℕ → ScopeMismatchResolutionInput → Result ScopeMismatchError (Option Number)
scope_checks parse_date now i =
    throw_if (bad_note (trimmed_note i.note)) note_length
    >> scope_amount i
    >> scope_evidence parse_date now i

unfoldable pub validate_scope_mismatch_resolution :
    (String → Number)
    → ℕ
    → ScopeMismatchResolutionInput
    → Result ScopeMismatchError ValidatedScopeMismatch
unfolding scope_amount scope_evidence scope_checks
validate_scope_mismatch_resolution parse_date now i =
    scope_checks parse_date now i >>= λ approved_at. ok (resolved i approved_at)
