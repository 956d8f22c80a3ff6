-- ===== src/Attention/Policy.antt =====
-- apps/api/src/attention/attention-policy.ts. A date is its time in milliseconds since the epoch,
-- and the comparison yields the sign of the source's number.
pub mod Laws
use hestiva_os.Base.{
  ℕ, Bool, true, false, Option, none, some, List, [], ◌∷◌, ◌++◌, if◌then◌else◌, when, any, ltb,
  ◌==◌,
}
use hestiva_os.WorkOrders.Access.{AttentionPriority, normal, high, critical}

pub data UserRole : Type 0 where
  admin operations_manager dispatcher supervisor technician : UserRole

pub data AttentionQueue : Type 0 where
  operations management_review : AttentionQueue

-- `OPERATIONS_ROLES.includes(role)`
abbrev is_operations_role : UserRole → Bool
is_operations_role technician = false
is_operations_role _ = true

-- `MANAGEMENT_REVIEW_ROLES.includes(role)`
abbrev is_management_review_role : UserRole → Bool
is_management_review_role admin = true
is_management_review_role supervisor = true
is_management_review_role _ = false

unfoldable pub eligible_queues_for_role : UserRole → List AttentionQueue
eligible_queues_for_role role =
    when (is_operations_role role) operations
    ++ when (is_management_review_role role) management_review

abbrev same_queue : AttentionQueue → AttentionQueue → Bool
same_queue operations operations = true
same_queue management_review management_review = true
same_queue _ _ = false

unfoldable pub can_own_attention_queue : UserRole → AttentionQueue → Bool
unfolding eligible_queues_for_role
can_own_attention_queue role queue = any (same_queue queue) (eligible_queues_for_role role)

abbrev pub attention_priority_rank : AttentionPriority → ℕ
attention_priority_rank critical = 0
attention_priority_rank high = 1
attention_priority_rank normal = 2

pub record AttentionOrder : Type 0 where
  pub priority : AttentionPriority
  pub due_at : Option ℕ
  pub opened_at : ℕ

pub data Sign : Type 0 where
  negative zero_sign positive : Sign

-- The sign of `left - right`.
abbrev pub difference : ℕ → ℕ → Sign
difference left right =
    if ltb left right then negative else if left == right then zero_sign else positive

-- `if (sign) return sign;` and otherwise the rest
abbrev or_else : Sign → Sign → Sign
or_else zero_sign rest = rest
or_else sign rest = sign

abbrev compare_due : Option ℕ → Option ℕ → Sign
compare_due (some left) (some right) = difference left right
compare_due (some _) none = negative
compare_due none (some _) = positive
compare_due none none = zero_sign

unfoldable pub compare_attention_items : AttentionOrder → AttentionOrder → Sign
compare_attention_items left right =
    or_else
      (difference (attention_priority_rank left.priority) (attention_priority_rank right.priority))
      (or_else (compare_due left.due_at right.due_at) (difference left.opened_at right.opened_at))
