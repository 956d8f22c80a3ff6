-- ===== src/Attention/Ownership/Seen.antt =====
-- Marking an item as seen once is enough.
use hestiva_os.Base.{
  ◌≡◌, refl, sym, ◌∙◌, arith, ℕ, String, Bool, true, not, some, List, ◌⊎◌, inl, inr, if◌then◌else◌,
  is_some,
}
use hestiva_os.Base.Result.{ok, ◌>>=◌, ◌>>◌, throw_if, >>=-eq-ok}
use hestiva_os.Attention.Policy.{can_own_attention_queue}
use hestiva_os.Attention.Reconcile.{AttentionItem, User, is_open}
use hestiva_os.Attention.Ownership.{
  Updated, item_not_found, find_item, replace_item, require_open, kept, stored, marked_seen,
  mark_seen_item, mark_seen,
}
use hestiva_os.Attention.Ownership.Laws.{find_item-id, find_item-replace_item, require_open-found}

mark_seen_lem :
    (now : ℕ) (id : String) (user : User) (is : List AttentionItem)
    → mark_seen now id user is ≡ (require_open (find_item id is) >>= mark_seen_item now user is)
unfolding mark_seen
mark_seen_lem now id user is = refl

seen_guards_passed :
    (visible already : Bool) (old new u : Updated)
    → (throw_if (not visible) item_not_found >> ok (if already then old else new)) ≡ ok u
    → (visible ≡ true) × (((already ≡ true) × (u ≡ old)) ⊎ (u ≡ new))
seen_guards_passed visible already old new u h = ground arith

marked_seen-there :
    (now : ℕ) (id : String) (user : User) (is : List AttentionItem) (i : AttentionItem)
    → find_item id is ≡ some i
    → find_item id (replace_item (marked_seen now user i) is) ≡ some (marked_seen now user i)
marked_seen-there now id user is i found =
    let named : i.id ≡ id = find_item-id id is found in
    rw (← named) (find_item-replace_item (marked_seen now user i) is (rw (← named) at found))

-- An open, visible item that has been seen is returned as it is.
mark_seen_again :
    (now : ℕ) (id : String) (user : User) (is : List AttentionItem) (i : AttentionItem)
    → find_item id is ≡ some i
    → i.state ≡ is_open
    → can_own_attention_queue user.role i.candidate.queue ≡ true
    → is_some i.seen_at ≡ true
    → mark_seen now id user is ≡ ok (kept i is)
mark_seen_again now id user is i found opened visible before =
    mark_seen_lem now id user is ∙ rw found (rw opened (rw visible (rw before refl)))

-- After an item has been marked as seen, it is open under its id with a time of having been seen, and
-- marking it again, at any time and by the same user, changes nothing.
mark_seen-mark_seen :
    (now later : ℕ) (id : String) (user : User) (is : List AttentionItem) (u : Updated)
    → mark_seen now id user is ≡ ok u
    → (find_item id u.items ≡ some u.item)
      × (is_some u.item.seen_at ≡ true)
      × (mark_seen later id user u.items ≡ ok u)
mark_seen-mark_seen now later id user is u h =
    let (i, present, e) =
      >>=-eq-ok (require_open (find_item id is)) (mark_seen_item now user is)
        (sym (mark_seen_lem now id user is) ∙ h) in
    let (found, opened) = require_open-found (find_item id is) present in
    let (visible, outcome) =
      seen_guards_passed (can_own_attention_queue user.role i.candidate.queue) (is_some i.seen_at)
        (kept i is) (stored (marked_seen now user i) is) u e in
    elim outcome [
      | inl (before, r) ↦
          rw r (found, before, mark_seen_again later id user is i found opened visible before)
      | inr r ↦
          let new = marked_seen now user i in
          let there = marked_seen-there now id user is i found in
          rw r (
            there,
            refl,
            mark_seen_again later id user (replace_item new is) new there opened visible refl,
          )
    ]
