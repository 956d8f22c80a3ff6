-- ===== src/Attention/Reconcile.antt =====
-- `reconcile` of apps/api/src/attention/attention.service.ts on the table
-- of items, one row to a condition key. The candidates that the queries detect, the users' rows, the
-- id of a new row and the time are arguments. Texts that are only shown are one field.
pub mod Laws
use hestiva_os.Base.{
  ℕ, suc, String, Bool, true, false, not, ◌||◌, ◌&&◌, Option, none, some, List, [], ◌∷◌, ◌++◌,
  if◌then◌else◌, when, any,
}
use hestiva_os.Base.Text.{◌===◌, is_blank}
use hestiva_os.WorkOrders.Access.{AttentionPriority, normal, high, critical}
use hestiva_os.Attention.Policy.{
  UserRole, AttentionQueue, operations, management_review, can_own_attention_queue,
}

pub data AttentionItemType : Type 0 where
  today_unassigned_work_order overdue_work_order : AttentionItemType
  completion_acknowledgement_required work_order_access_required : AttentionItemType
  interrupted_visit_review_required work_order_incident_review_required : AttentionItemType

pub data AttentionState : Type 0 where
  is_open is_resolved : AttentionState

-- The subject, labels, summary and action of a candidate.
pub record CandidateTexts : Type 0 where
  pub subject_id : String
  pub subject_reference : String
  pub customer_label : String
  pub title : String
  pub summary : String
  pub action_label : String
  pub action_href : String

pub record AttentionCandidate : Type 0 where
  pub condition_key : String
  pub type : AttentionItemType
  pub priority : AttentionPriority
  pub queue : AttentionQueue
  pub texts : CandidateTexts
  pub due_at : Option ℕ

-- An activity with its actor and metadata.
pub data AttentionActivity : Type 0 where
  opened reopened auto_resolved : AttentionActivity
  priority_changed : AttentionPriority → AttentionPriority → Option ℕ → AttentionActivity
  seen : String → AttentionActivity
  assigned reassigned : String → Option String → Option String → AttentionActivity
  owner_no_longer_eligible : Option String → AttentionActivity

pub record AttentionItem : Type 0 where
  pub id : String
  pub candidate : AttentionCandidate
  pub state : AttentionState
  pub owner_id : Option String
  pub seen_at : Option ℕ
  pub seen_by_id : Option String
  pub opened_at : ℕ
  pub last_observed_at : ℕ
  pub resolved_at : Option ℕ
  pub occurrence_count : ℕ
  pub activities : List AttentionActivity

pub record User : Type 0 where
  pub id : String
  pub role : UserRole
  pub active : Bool

-- `MANAGED_ATTENTION_TYPES`
abbrev pub is_managed : AttentionItemType → Bool
is_managed interrupted_visit_review_required = false
is_managed _ = true

abbrev pub in_state_open : AttentionState → Bool
in_state_open is_open = true
in_state_open is_resolved = false

abbrev same_priority : AttentionPriority → AttentionPriority → Bool
same_priority normal normal = true
same_priority high high = true
same_priority critical critical = true
same_priority _ _ = false

-- The row that `create` makes.
created : String → ℕ → AttentionCandidate → AttentionItem
created id now c = record {
  id = id;
  candidate = c;
  state = is_open;
  owner_id = none;
  seen_at = none;
  seen_by_id = none;
  opened_at = now;
  last_observed_at = now;
  resolved_at = none;
  occurrence_count = 1;
  activities = opened ∷ [];
}

-- The updates of a row that a candidate matches, by the row's state.
observed : AttentionState → ℕ → AttentionCandidate → AttentionItem → AttentionItem
observed is_resolved now c i = record {
  id = i.id;
  candidate = c;
  state = is_open;
  owner_id = none;
  seen_at = none;
  seen_by_id = none;
  opened_at = now;
  last_observed_at = now;
  resolved_at = none;
  occurrence_count = suc i.occurrence_count;
  activities = i.activities ++ (reopened ∷ []);
}
observed is_open now c i = record i {
  candidate = c;
  last_observed_at = now;
  activities =
      i.activities
      ++ when (not (same_priority i.candidate.priority c.priority))
          (priority_changed i.candidate.priority c.priority c.due_at);
}

-- One turn of the loop over the candidates.
observe : (String → String) → ℕ → AttentionCandidate → List AttentionItem → List AttentionItem
unfolding created observed
observe new_id now c [] = created (new_id c.condition_key) now c ∷ []
observe new_id now c (i ∷ is) =
    let rest = i ∷ observe new_id now c is in
    if i.candidate.condition_key === c.condition_key then observed i.state now c i ∷ is else rest

observe_all :
    (String → String) → ℕ → List AttentionCandidate → List AttentionItem → List AttentionItem
observe_all new_id now [] is = is
observe_all new_id now (c ∷ cs) is = observe_all new_id now cs (observe new_id now c is)

-- `activeKeys.has(key)`
abbrev pub is_active_key : List AttentionCandidate → String → Bool
is_active_key cs key = any (λ c. c.condition_key === key) cs

-- The loop over the open, managed items: one whose condition is gone is resolved.
settle : ℕ → List AttentionCandidate → AttentionItem → AttentionItem
settle now cs i =
    if in_state_open i.state
      && (is_managed i.candidate.type && not (is_active_key cs i.candidate.condition_key))
    then record i {
      state = is_resolved;
      resolved_at = some now;
      last_observed_at = now;
      activities = i.activities ++ (auto_resolved ∷ []);
    }
    else i

-- `ownersById.get(id)`
unfoldable pub find_user : String → List User → Option User
find_user id [] = none
find_user id (u ∷ us) = let rest = find_user id us in if u.id === id then some u else rest

-- `owner && owner.status === ACTIVE && canOwnAttentionQueue(owner.role, item.queue)`
abbrev pub is_eligible : AttentionQueue → Option User → Bool
is_eligible queue none = false
is_eligible queue (some u) = u.active && can_own_attention_queue u.role queue

abbrev pub owner_is_eligible : List User → AttentionQueue → Option String → Bool
owner_is_eligible users queue none = true
owner_is_eligible users queue (some id) = is_blank id || is_eligible queue (find_user id users)

-- The loop over the open, owned items: an owner who may no longer own the item is removed.
release : List User → AttentionItem → AttentionItem
release users i =
    if in_state_open i.state && not (owner_is_eligible users i.candidate.queue i.owner_id)
    then record i {
      owner_id = none;
      activities = i.activities ++ (owner_no_longer_eligible i.owner_id ∷ []);
    }
    else i

abbrev pub map {ℓ} : {A : Type ℓ} → (A → A) → List A → List A
map f [] = []
map f (x ∷ xs) = f x ∷ map f xs

unfoldable pub reconcile :
    (String → String)
    → ℕ
    → List AttentionCandidate
    → List User
    → List AttentionItem
    → List AttentionItem
unfolding created observed observe observe_all settle release
reconcile new_id now cs users is =
    map (release users) (map (settle now cs) (observe_all new_id now cs is))
