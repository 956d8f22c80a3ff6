-- ===== src/Attention/Reconcile/Laws.antt =====
-- What holds of the items after they are reconciled.
use hestiva_os.Base.{
  ◌≡◌, refl, ap, sym, ◌∙◌, arith, ℕ, String, Bool, true, false, not, ◌||◌, ◌&&◌, List, [], ◌∷◌, inl,
  inr, Bool-cases, any, All,
}
use mathlib.Core.Bool.{and-true, and-false}
use hestiva_os.Base.Text.{◌===◌}
use text.Mathlib.TextEquality.{eq_iff}
use hestiva_os.Attention.Reconcile.{
  AttentionCandidate, AttentionItem, AttentionState, User, is_managed, in_state_open, is_open,
  is_resolved, created, observed, observe, observe_all, is_active_key, settle, owner_is_eligible,
  release, map, reconcile,
}

-- The table has an open item for the condition.
abbrev pub has_open : String → List AttentionItem → Bool
has_open k is = any (λ i. (i.candidate.condition_key === k) && in_state_open i.state) is

any-map {ℓ} :
    {A : Type ℓ} (p : A → Bool) (f : A → A) (xs : List A)
    → ((x : A) → p x ≡ true → p (f x) ≡ true)
    → any p xs ≡ true
    → any p (map f xs) ≡ true
any-map p f [] h e = e
any-map p f (x ∷ xs) h e = elim (Bool-cases (p x)) [
  | inl here ↦ rw (h x here) refl
  | inr there ↦ ground (arith, any-map p f xs h (rw there at e))
]

All-map-map {ℓ κ} :
    {A : Type ℓ} (P : A → Type κ) (f g : A → A) (xs : List A)
    → ((x : A) → P (g (f x)))
    → All P (map g (map f xs))
All-map-map P f g [] h = tt
All-map-map P f g (x ∷ xs) h = (h x, All-map-map P f g xs h)

observed-matches :
    (s : AttentionState) (now : ℕ) (c : AttentionCandidate) (i : AttentionItem) (k : String)
    → i.state ≡ s
    → (((observed s now c i).candidate.condition_key === k)
        && in_state_open (observed s now c i).state)
      ≡ (c.condition_key === k)
unfolding observed
observed-matches is_open now c i k e = rw e (and-true (c.condition_key === k))
observed-matches is_resolved now c i k e = and-true (c.condition_key === k)

matched_true : (a b o r : Bool) → b ≡ a → (a || (b && o || r)) ≡ true → (a || r) ≡ true
matched_true a b o r e h = ground arith

passed_true :
    (a m r r' : Bool) → (a || (m || r)) ≡ true → ((a || r) ≡ true → r' ≡ true) → (m || r') ≡ true
passed_true a m r r' h k = ground arith

-- A turn of the loop opens the candidate's condition and keeps what is open.
observe-opens :
    (new_id : String → String) (now : ℕ) (c : AttentionCandidate) (k : String)
    (is : List AttentionItem)
    → ((c.condition_key === k) || has_open k is) ≡ true
    → has_open k (observe new_id now c is) ≡ true
unfolding observe created
observe-opens new_id now c k [] h = ground arith
observe-opens new_id now c k (i ∷ is) h =
    elim (Bool-cases (i.candidate.condition_key === c.condition_key)) [
      | inl same ↦ rw same (
          rw (observed-matches i.state now c i k refl) (
            matched_true (c.condition_key === k) (i.candidate.condition_key === k)
              (in_state_open i.state) (has_open k is)
              (ap (λ x. x === k) ((eq_iff i.candidate.condition_key c.condition_key).0 same)) h))
      | inr other ↦ rw other (
          passed_true (c.condition_key === k)
            ((i.candidate.condition_key === k) && in_state_open i.state) (has_open k is) _ h
            (observe-opens new_id now c k is))
    ]

observe_all-opens :
    (new_id : String → String) (now : ℕ) (cs : List AttentionCandidate) (is : List AttentionItem)
    (k : String)
    → (is_active_key cs k || has_open k is) ≡ true
    → has_open k (observe_all new_id now cs is) ≡ true
unfolding observe_all
observe_all-opens new_id now [] is k h = h
observe_all-opens new_id now (c ∷ cs) is k h =
    observe_all-opens new_id now cs (observe new_id now c is) k (
      later_true (c.condition_key === k) (is_active_key cs k) (has_open k is) _ h
        (observe-opens new_id now c k is))
  where
    later_true :
        (a b r r' : Bool)
        → ((a || b) || r) ≡ true
        → ((a || r) ≡ true → r' ≡ true)
        → (b || r') ≡ true
    later_true a b r r' h k = ground arith

settle-keeps :
    (now : ℕ) (cs : List AttentionCandidate) (k : String)
    → is_active_key cs k ≡ true
    → (i : AttentionItem) → ((i.candidate.condition_key === k) && in_state_open i.state) ≡ true
    → (((settle now cs i).candidate.condition_key === k) && in_state_open (settle now cs i).state)
      ≡ true
unfolding settle
settle-keeps now cs k active i h =
    let (same, opened) = both_true (i.candidate.condition_key === k) (in_state_open i.state) h in
    let key : is_active_key cs i.candidate.condition_key ≡ true =
      rw ((eq_iff i.candidate.condition_key k).0 same) active in
    rw key (rw (and-false (is_managed i.candidate.type)) (rw (and-false (in_state_open i.state)) h))
  where
    both_true : (a b : Bool) → (a && b) ≡ true → (a ≡ true) × (b ≡ true)
    both_true a b h = (ground arith, ground arith)

release-keeps :
    (users : List User) (k : String) (i : AttentionItem)
    → ((i.candidate.condition_key === k) && in_state_open i.state) ≡ true
    → (((release users i).candidate.condition_key === k) && in_state_open (release users i).state)
      ≡ true
unfolding release
release-keeps users k i h =
    elim (Bool-cases
      (in_state_open i.state && not (owner_is_eligible users i.candidate.queue i.owner_id))) [
        | inl e ↦ rw e h
        | inr e ↦ rw e h
      ]

-- What an item is like after the tables are reconciled.
pub record IsCurrent (cs : List AttentionCandidate) (users : List User) (i : AttentionItem)
    : Type 0 where
  pub active :
      i.state ≡ is_open
      → is_managed i.candidate.type ≡ true
      → is_active_key cs i.candidate.condition_key ≡ true
  pub owned : i.state ≡ is_open → owner_is_eligible users i.candidate.queue i.owner_id ≡ true

settle-active :
    (now : ℕ) (cs : List AttentionCandidate) (i : AttentionItem)
    → (settle now cs i).state ≡ is_open
    → is_managed (settle now cs i).candidate.type ≡ true
    → is_active_key cs (settle now cs i).candidate.condition_key ≡ true
unfolding settle
settle-active now cs i =
    elim (Bool-cases (
      in_state_open i.state
      && (is_managed i.candidate.type && not (is_active_key cs i.candidate.condition_key)))) [
        | inl gone ↦ rw gone (λ o m. cc)
        | inr kept ↦ rw kept (λ o m.
            open_active (is_managed i.candidate.type) (is_active_key cs i.candidate.condition_key)
              (rw (ap in_state_open o) at kept) m)
      ]
  where
    open_active : (m a : Bool) → (true && (m && not a)) ≡ false → m ≡ true → a ≡ true
    open_active m a h k = ground arith

release-same :
    (users : List User) (i : AttentionItem)
    → ((release users i).candidate ≡ i.candidate) × ((release users i).state ≡ i.state)
unfolding release
release-same users i =
    elim (Bool-cases
      (in_state_open i.state && not (owner_is_eligible users i.candidate.queue i.owner_id))) [
        | inl e ↦ rw e (refl, refl)
        | inr e ↦ rw e (refl, refl)
      ]

release-owned :
    (users : List User) (i : AttentionItem)
    → (release users i).state ≡ is_open
    → owner_is_eligible users (release users i).candidate.queue (release users i).owner_id ≡ true
unfolding release
release-owned users i =
    elim (Bool-cases
      (in_state_open i.state && not (owner_is_eligible users i.candidate.queue i.owner_id))) [
        | inl e ↦ rw e (λ o. refl)
        | inr e ↦ rw e (λ o. open_owned _ (rw (ap in_state_open o) at e))
      ]
  where
    open_owned : (a : Bool) → (true && not a) ≡ false → a ≡ true
    open_owned a h = ground arith

settled-IsCurrent :
    (now : ℕ) (cs : List AttentionCandidate) (users : List User) (i : AttentionItem)
    → IsCurrent cs users (release users (settle now cs i))
settled-IsCurrent now cs users i =
    let (candidate, state) = release-same users (settle now cs i) in
    record {
      active = λ o m. rw candidate (settle-active now cs i (sym state ∙ o) (rw candidate at m));
      owned = release-owned users (settle now cs i);
    }

-- The table after it is reconciled.
pub record IsReconciled (cs : List AttentionCandidate) (users : List User) (is : List AttentionItem)
    : Type 0 where
  pub covered : (k : String) → is_active_key cs k ≡ true → has_open k is ≡ true
  pub current : All (IsCurrent cs users) is

-- After the table is reconciled with the detected candidates, each candidate's condition has an open
-- item; each open item of a managed type has a condition that is a candidate's; and the owner of an
-- open item, if there is one, is an active user whose role may own the item's queue.
pub reconcile-IsReconciled :
    (new_id : String → String) (now : ℕ) (cs : List AttentionCandidate) (users : List User)
    (is : List AttentionItem)
    → IsReconciled cs users (reconcile new_id now cs users is)
unfolding reconcile
reconcile-IsReconciled new_id now cs users is = record {
  covered = λ k active.
      any-map (λ i. (i.candidate.condition_key === k) && in_state_open i.state) (release users)
        (map (settle now cs) (observe_all new_id now cs is)) (release-keeps users k)
        (any-map (λ i. (i.candidate.condition_key === k) && in_state_open i.state) (settle now cs)
          (observe_all new_id now cs is) (settle-keeps now cs k active)
          (observe_all-opens new_id now cs is k (rw active refl)));
  current =
      All-map-map (IsCurrent cs users) (settle now cs) (release users)
        (observe_all new_id now cs is) (settled-IsCurrent now cs users);
}
