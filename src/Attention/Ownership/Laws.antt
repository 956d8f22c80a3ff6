-- ===== src/Attention/Ownership/Laws.antt =====
-- What an assignment has checked, and what it changes.
use hestiva_os.Base.{
  ◌≡◌, refl, sym, ◌∙◌, ap, arith, String, Bool, true, false, not, ◌||◌, ◌&&◌, Option, none, some,
  List, [], ◌∷◌, ◌⊎◌, inl, inr, Bool-cases, if◌then◌else◌,
}
use hestiva_os.Base.Text.{◌===◌, is_blank}
use text.Mathlib.TextEquality.{eq_iff}
use hestiva_os.Base.Result.{Result, ok, ◌>>=◌, ◌>>◌, throw_if, >>=-eq-ok}
use hestiva_os.Attention.Policy.{can_own_attention_queue}
use hestiva_os.Attention.Reconcile.{
  AttentionItem, User, is_open, is_eligible, find_user, owner_is_eligible,
}
use hestiva_os.Base.Pattern.{matches, uuid_pattern}
use hestiva_os.Attention.Ownership.{
  Updated, AttentionError, item_not_found, owner_id_not_uuid, owner_not_eligible, find_item,
  replace_item, require_open, kept, stored, same_owner, check_owner, with_owner, assign_item,
  assign,
}

pub find_item-id :
    (id : String) (is : List AttentionItem) {i : AttentionItem}
    → find_item id is ≡ some i
    → i.id ≡ id
unfolding find_item
find_item-id id [] e = cc
find_item-id id (j ∷ is) {i} e = elim (Bool-cases (j.id === id)) [
  | inl here ↦
      let first : some j ≡ some i = rw here at e in
      let same : j ≡ i = cc in rw (← same) ((eq_iff j.id id).0 here)
  | inr there ↦ find_item-id id is (rw there at e)
]

pub find_item-replace_item :
    (new : AttentionItem) (is : List AttentionItem) {i : AttentionItem}
    → find_item new.id is ≡ some i
    → find_item new.id (replace_item new is) ≡ some new
unfolding find_item replace_item
find_item-replace_item new [] e = cc
find_item-replace_item new (j ∷ is) e = elim (Bool-cases (j.id === new.id)) [
  | inl here ↦ rw here (rw ((eq_iff new.id new.id).1 refl) refl)
  | inr there ↦ rw there (rw there (find_item-replace_item new is (rw there at e)))
]

find_item-replace_item_other :
    (new : AttentionItem) (k : String) (is : List AttentionItem)
    → (new.id === k) ≡ false
    → find_item k (replace_item new is) ≡ find_item k is
unfolding find_item replace_item
find_item-replace_item_other new k [] h = refl
find_item-replace_item_other new k (j ∷ is) h = elim (Bool-cases (j.id === new.id)) [
  | inl here ↦ rw here (rw h (rw ((eq_iff j.id new.id).0 here) (rw h refl)))
  | inr there ↦
      rw there
        (ap (λ r. if j.id === k then some j else r) (find_item-replace_item_other new k is h))
]

-- An assignment that succeeded on the item `i`.
pub record IsAssigned (id : String) (owner : Option String) (user : User) (users : List User)
    (is : List AttentionItem) (u : Updated) : Type 0 where
  pub stored_item : find_item id u.items ≡ some u.item
  pub owner_set : u.item.owner_id ≡ owner
  pub still_open : u.item.state ≡ is_open
  pub visible : can_own_attention_queue user.role u.item.candidate.queue ≡ true
  pub eligible :
      (find_item id is ≡ some u.item)
      ⊎ (owner_is_eligible users u.item.candidate.queue owner ≡ true)
  pub others : (k : String) → (id === k) ≡ false → find_item k u.items ≡ find_item k is

assign_lem :
    (id : String) (owner : Option String) (user : User) (users : List User)
    (is : List AttentionItem)
    → assign id owner user users is
      ≡ (require_open (find_item id is) >>= assign_item user users owner is)
unfolding assign
assign_lem id owner user users is = refl

pub require_open-found :
    (o : Option AttentionItem) {i : AttentionItem}
    → require_open o ≡ ok i
    → (o ≡ some i) × (i.state ≡ is_open)
require_open-found o h = (ground arith, ground arith)

guards_passed :
    (visible same : Bool) (checked : Result AttentionError (Unit {0})) (old new u : Updated)
    → (throw_if (not visible) item_not_found >> (if same then ok old else checked >> ok new)) ≡ ok u
    → (visible ≡ true) × (((same ≡ true) × (u ≡ old)) ⊎ ((checked ≡ ok tt) × (u ≡ new)))
guards_passed visible same checked old new u h = ground arith

either_passes :
    (blank uuid eligible : Bool)
    → (throw_if (not blank && not uuid) owner_id_not_uuid
        >> throw_if (not blank && not eligible) owner_not_eligible)
      ≡ ok tt
    → (blank || eligible) ≡ true
either_passes blank uuid eligible h = ground arith

assign_item-cases :
    (user : User) (users : List User) (owner : Option String) (is : List AttentionItem)
    (i : AttentionItem) (u : Updated)
    → assign_item user users owner is i ≡ ok u
    → (can_own_attention_queue user.role i.candidate.queue ≡ true)
      × (((same_owner owner i.owner_id ≡ true) × (u ≡ kept i is))
          ⊎ ((check_owner users i.candidate.queue owner ≡ ok tt)
              × (u ≡ stored (with_owner user owner i) is)))
unfolding assign_item
assign_item-cases user users owner is i u h =
    guards_passed (can_own_attention_queue user.role i.candidate.queue)
      (same_owner owner i.owner_id) (check_owner users i.candidate.queue owner) (kept i is)
      (stored (with_owner user owner i) is) u h

check_owner-eligible :
    (users : List User) (i : AttentionItem) (owner : Option String)
    → check_owner users i.candidate.queue owner ≡ ok tt
    → owner_is_eligible users i.candidate.queue owner ≡ true
check_owner-eligible users i none h = refl
check_owner-eligible users i (some id) h =
    either_passes (is_blank id) (matches uuid_pattern id)
      (is_eligible i.candidate.queue (find_user id users)) h

same_owner-eq : (a b : Option String) → same_owner a b ≡ true → a ≡ b
same_owner-eq none none h = refl
same_owner-eq none (some b) h = cc
same_owner-eq (some a) none h = cc
same_owner-eq (some a) (some b) h = ap some ((eq_iff a b).0 h)

kept-IsAssigned :
    (id : String) (owner : Option String) (user : User) (users : List User)
    (is : List AttentionItem) (i : AttentionItem)
    → find_item id is ≡ some i
    → i.state ≡ is_open
    → can_own_attention_queue user.role i.candidate.queue ≡ true
    → owner ≡ i.owner_id
    → IsAssigned id owner user users is (kept i is)
kept-IsAssigned id owner user users is i found opened visible same = record {
  stored_item = found;
  owner_set = sym same;
  still_open = opened;
  visible = visible;
  eligible = inl found;
  others = λ k h. refl;
}

stored-IsAssigned :
    (id : String) (owner : Option String) (user : User) (users : List User)
    (is : List AttentionItem) (i : AttentionItem)
    → find_item id is ≡ some i
    → i.state ≡ is_open
    → can_own_attention_queue user.role i.candidate.queue ≡ true
    → owner_is_eligible users i.candidate.queue owner ≡ true
    → IsAssigned id owner user users is (stored (with_owner user owner i) is)
stored-IsAssigned id owner user users is i found opened visible fit =
    let named : i.id ≡ id = find_item-id id is found in
    record {
      stored_item =
          rw (← named)
            (find_item-replace_item (with_owner user owner i) is (rw (← named) at found));
      owner_set = refl;
      still_open = opened;
      visible = visible;
      eligible = inr fit;
      others = λ k h. find_item-replace_item_other (with_owner user owner i) k is (rw named h);
    }

-- An assignment that succeeds leaves an open item under the id, with the owner that was asked for and
-- in a queue that the user may see; if that changed the item, the owner is none or empty, or an
-- active user who may own the queue; and no item of another id changes.
pub assign-IsAssigned :
    (id : String) (owner : Option String) (user : User) (users : List User)
    (is : List AttentionItem) (u : Updated)
    → assign id owner user users is ≡ ok u
    → IsAssigned id owner user users is u
assign-IsAssigned id owner user users is u h =
    let (i, present, e) =
      >>=-eq-ok (require_open (find_item id is)) (assign_item user users owner is)
        (sym (assign_lem id owner user users is) ∙ h) in
    let (found, opened) = require_open-found (find_item id is) present in
    let (visible, outcome) = assign_item-cases user users owner is i u e in
    elim outcome [
      | inl (same, r) ↦ rw r (
          kept-IsAssigned id owner user users is i found opened visible
            (same_owner-eq owner i.owner_id same))
      | inr (checked, r) ↦ rw r (
          stored-IsAssigned id owner user users is i found opened visible
            (check_owner-eligible users i owner checked))
    ]
