-- ===== src/Attention/Tests.antt =====
-- Runs of the attention policy and the reconciliation.
use hestiva_os.Base.{◌≡◌, refl, String, true, none, some, [], ◌∷◌}
use hestiva_os.WorkOrders.Access.{normal, critical}
use hestiva_os.Attention.Policy.{
  AttentionOrder, operations, technician, dispatcher, can_own_attention_queue,
}
use hestiva_os.Attention.Policy.Laws.{IsOrder, compare-IsOrder}
use hestiva_os.Attention.Reconcile.{
  CandidateTexts, AttentionCandidate, AttentionItem, User, is_open, opened, overdue_work_order,
  work_order_access_required, reconcile, find_user,
}
use hestiva_os.Attention.Reconcile.Laws.{IsReconciled, reconcile-IsReconciled}
use hestiva_os.Base.Result.{ok}
use hestiva_os.Base.Pattern.{matches}
use hestiva_os.Attention.Ownership.{mark_seen, marked_seen, assign, find_item, stored, with_owner}
use hestiva_os.Attention.Ownership.Laws.{IsAssigned, assign-IsAssigned}

abbrev overdue : AttentionOrder
overdue = record { priority = critical; due_at = some 3; opened_at = 9 }

abbrev later : AttentionOrder
later = record { priority = critical; due_at = none; opened_at = 4 }

abbrev review : AttentionOrder
review = record { priority = normal; due_at = none; opened_at = 1 }

compare-IsOrder_example : IsOrder overdue later review
compare-IsOrder_example = compare-IsOrder overdue later review

abbrev shown : CandidateTexts
shown = record {
  subject_id = "w1";
  subject_reference = "WO-1";
  customer_label = "Ada";
  title = "Work Order is overdue";
  summary = "";
  action_label = "Open Work Order";
  action_href = "/work-orders/w1";
}

abbrev detected : AttentionCandidate
detected = record {
  condition_key = "work-order:w1:overdue";
  type = overdue_work_order;
  priority = critical;
  queue = operations;
  texts = shown;
  due_at = some 3;
}

abbrev stale : AttentionItem
stale = record {
  id = "i1";
  candidate = record detected {
    condition_key = "work-order:w2:access-required";
    type = work_order_access_required;
  };
  state = is_open;
  owner_id = some "u1";
  seen_at = none;
  seen_by_id = none;
  opened_at = 1;
  last_observed_at = 1;
  resolved_at = none;
  occurrence_count = 1;
  activities = opened ∷ [];
}

abbrev gone : User
gone = record { id = "u1"; role = technician; active = true }

reconcile-IsReconciled_example :
    IsReconciled
      (detected ∷ [])
      (gone ∷ [])
      (reconcile (λ key. key) 7 (detected ∷ []) (gone ∷ []) (stale ∷ []))
reconcile-IsReconciled_example =
    reconcile-IsReconciled (λ key. key) 7 (detected ∷ []) (gone ∷ []) (stale ∷ [])

abbrev dispatcher_id : String
dispatcher_id = "0d9f2a60-1c3b-4e5f-8a7b-0123456789aB"

abbrev on_duty : User
on_duty = record { id = dispatcher_id; role = dispatcher; active = true }

assign_passes :
    assign "i1" (some dispatcher_id) on_duty (on_duty ∷ []) (stale ∷ [])
    ≡ ok (stored (with_owner on_duty (some dispatcher_id) stale) (stale ∷ []))
unfolding assign find_item can_own_attention_queue matches find_user
assign_passes = refl

assign-IsAssigned_example :
    IsAssigned "i1"
      (some dispatcher_id)
      on_duty
      (on_duty ∷ [])
      (stale ∷ [])
      (stored (with_owner on_duty (some dispatcher_id) stale) (stale ∷ []))
assign-IsAssigned_example =
    assign-IsAssigned "i1" (some dispatcher_id) on_duty (on_duty ∷ []) (stale ∷ [])
      (stored (with_owner on_duty (some dispatcher_id) stale) (stale ∷ [])) assign_passes

mark_seen_passes :
    mark_seen 8 "i1" on_duty (stale ∷ []) ≡ ok (stored (marked_seen 8 on_duty stale) (stale ∷ []))
unfolding mark_seen find_item can_own_attention_queue
mark_seen_passes = refl
