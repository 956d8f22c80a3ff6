-- ===== src/Attention/Ownership.antt =====
-- `markSeen` and `assign` of apps/api/src/attention/attention.service.ts, on the tables of items and
-- of users. What an operation returns is the item and the table after it.
pub mod Laws
pub mod Seen
use hestiva_os.Base.{
  ℕ, zero, suc, String, Bool, true, false, not, ◌||◌, ◌&&◌, Option, none, some, List, [], ◌∷◌, ◌++◌,
  if◌then◌else◌, leb, ◌==◌, is_some,
}
use hestiva_os.Base.Pattern.{matches, uuid_pattern}
use hestiva_os.Base.Text.{◌===◌, is_blank}
use hestiva_os.Base.Result.{Result, ok, err, ◌>>=◌, ◌>>◌, throw_if}
use hestiva_os.Attention.Policy.{AttentionQueue, can_own_attention_queue}
use hestiva_os.Attention.Reconcile.{
  AttentionActivity, seen, assigned, reassigned, AttentionItem, User, in_state_open, find_user,
  is_eligible,
}

pub data AttentionError : Type 0 where
  item_not_found owner_id_not_uuid owner_not_eligible : AttentionError

unfoldable pub find_item : String → List AttentionItem → Option AttentionItem
find_item id [] = none
find_item id (i ∷ is) = let rest = find_item id is in if i.id === id then some i else rest

-- `update({ where: { id }, data })`, given the row that it leaves.
unfoldable pub replace_item : AttentionItem → List AttentionItem → List AttentionItem
replace_item new [] = []
replace_item new (i ∷ is) =
    let rest = i ∷ replace_item new is in if i.id === new.id then new ∷ is else rest

-- The item that is there and open.
abbrev pub require_open : Option AttentionItem → Result AttentionError AttentionItem
require_open none = err item_not_found
require_open (some i) = if in_state_open i.state then ok i else err item_not_found

-- `ensureVisible`
abbrev pub ensure_visible : User → AttentionItem → Result AttentionError (Unit {0})
ensure_visible user i =
    throw_if (not (can_own_attention_queue user.role i.candidate.queue)) item_not_found

pub record Updated : Type 0 where
  pub item : AttentionItem
  pub items : List AttentionItem

abbrev pub kept : AttentionItem → List AttentionItem → Updated
kept i is = record { item = i; items = is }

abbrev pub stored : AttentionItem → List AttentionItem → Updated
stored new is = record { item = new; items = replace_item new is }

abbrev pub marked_seen : ℕ → User → AttentionItem → AttentionItem
marked_seen now user i = record i {
  seen_at = some now;
  seen_by_id = some user.id;
  activities = i.activities ++ (seen user.id ∷ []);
}

abbrev pub mark_seen_item :
    ℕ → User → List AttentionItem → AttentionItem → Result AttentionError Updated
mark_seen_item now user is i =
    ensure_visible user i
    >> ok (if is_some i.seen_at then kept i is else stored (marked_seen now user i) is)

unfoldable pub mark_seen : ℕ → String → User → List AttentionItem → Result AttentionError Updated
mark_seen now id user is = require_open (find_item id is) >>= mark_seen_item now user is

-- `ownerId === item.ownerId`
abbrev pub same_owner : Option String → Option String → Bool
same_owner none none = true
same_owner (some a) (some b) = a === b
same_owner _ _ = false

-- The two guards on the owner that is chosen, of which null and the empty text pass both.
abbrev pub check_owner :
    List User → AttentionQueue → Option String → Result AttentionError (Unit {0})
check_owner users queue none = ok tt
check_owner users queue (some id) =
    throw_if (not (is_blank id) && not (matches uuid_pattern id)) owner_id_not_uuid
    >> throw_if (not (is_blank id) && not (is_eligible queue (find_user id users)))
        owner_not_eligible

-- The activity that `assign` records.
abbrev handed : Option String → String → Option String → AttentionActivity
handed none actor owner = assigned actor none owner
handed (some old) actor owner =
    if is_blank old then assigned actor (some old) owner else reassigned actor (some old) owner

abbrev pub with_owner : User → Option String → AttentionItem → AttentionItem
with_owner user owner i = record i {
  owner_id = owner;
  activities = i.activities ++ (handed i.owner_id user.id owner ∷ []);
}

unfoldable pub assign_item :
    User
    → List User
    → Option String
    → List AttentionItem
    → AttentionItem
    → Result AttentionError Updated
assign_item user users owner is i =
    ensure_visible user i
    >> (if same_owner owner i.owner_id
        then ok (kept i is)
        else check_owner users i.candidate.queue owner >> ok (stored (with_owner user owner i) is))

unfoldable pub assign :
    String → Option String → User → List User → List AttentionItem → Result AttentionError Updated
unfolding assign_item
assign id owner user users is = require_open (find_item id is) >>= assign_item user users owner is
