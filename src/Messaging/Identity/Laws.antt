-- ===== src/Messaging/Identity/Laws.antt =====
-- Only trusted and explicit links of one customer match.
use hestiva_os.Base.{
  ◌≡◌, ◌↔◌, ◌⊎◌, inl, inr, refl, sym, ◌∙◌, ap, arith, ◌≤◌, length, if◌then◌else◌, String, Bool,
  true, false, not, ◌||◌, ◌&&◌, Option, none, some, List, [], ◌∷◌, Bool-cases, any,
}
use hestiva_os.Base.Text.{◌===◌, is_blank, is_blank-eq}
use hestiva_os.Base.Eq.{contains, string_eq}
use text.Mathlib.TextEquality.{eq_iff}
use mathlib.Core.Bool.{and-true, and-false, or-false}
use hestiva_os.Messaging.Identity.{
  CustomerIdentityCandidate, CustomerIdentityResolution, matched, unlinked, ambiguous, conflict,
  is_trusted_explicit, ids, has_customer, unique_by_customer, resolve_one,
  resolve_customer_messaging_identity,
}

-- The candidates give the customer a trusted and explicit link.
abbrev pub is_linked : List CustomerIdentityCandidate → String → Bool
is_linked cs k = any (λ c. is_trusted_explicit c && (c.customer_id === k)) cs

keep_case :
    (t b h l s : Bool)
    → (b ≡ true → h ≡ s)
    → (t && not h) ≡ true
    → (b || (l && not (b || s))) ≡ ((t && b || l) && not s)
keep_case t b h l s e k = ground arith

skip_case :
    (t b h l s : Bool)
    → (b ≡ true → h ≡ s)
    → (t && not h) ≡ false
    → (l && not s) ≡ ((t && b || l) && not s)
skip_case t b h l s e k = ground arith

has_customer-unique_by_customer :
    (seen cs : List CustomerIdentityCandidate) (k : String)
    → has_customer k (unique_by_customer seen cs) ≡ (is_linked cs k && not (has_customer k seen))
unfolding unique_by_customer
has_customer-unique_by_customer seen [] k = refl
has_customer-unique_by_customer seen (d ∷ cs) k =
    elim (Bool-cases (is_trusted_explicit d && not (has_customer d.customer_id seen))) [
      | inl keep ↦ rw keep (
          ap (λ r. (d.customer_id === k) || r) (has_customer-unique_by_customer (d ∷ seen) cs k)
          ∙ keep_case (is_trusted_explicit d) (d.customer_id === k)
              (has_customer d.customer_id seen) (is_linked cs k) (has_customer k seen)
              (same seen d k) keep)
      | inr drop ↦ rw drop (
          has_customer-unique_by_customer seen cs k
          ∙ skip_case (is_trusted_explicit d) (d.customer_id === k)
              (has_customer d.customer_id seen) (is_linked cs k) (has_customer k seen)
              (same seen d k) drop)
    ]
  where
    same :
        (seen : List CustomerIdentityCandidate) (d : CustomerIdentityCandidate) (k : String)
        → (d.customer_id === k) ≡ true
        → has_customer d.customer_id seen ≡ has_customer k seen
    same seen d k e = ap (λ i. has_customer i seen) ((eq_iff d.customer_id k).0 e)

-- The contact of the first candidate with a trusted and explicit link.
abbrev pub first_contact : List CustomerIdentityCandidate → Option (Option String)
first_contact [] = none
first_contact (c ∷ cs) = if is_trusted_explicit c then some c.contact_id else first_contact cs

-- No text comes twice.
abbrev pub IsDistinct : List String → Type 0
IsDistinct [] = Unit
IsDistinct (k ∷ ks) = (contains ks k ≡ false) × IsDistinct ks

-- What a resolution says of the candidates and of the customer that is asked for.
abbrev pub IsSound :
    (List String → List String)
    → List CustomerIdentityCandidate
    → Option String
    → CustomerIdentityResolution
    → Type 0
IsSound sort cs requested (matched id contact) =
    ((k : String) → (is_linked cs k ≡ true) ↔ (id ≡ k))
    × (first_contact cs ≡ some contact)
    × ((requested ≡ none) ⊎ ((requested ≡ some "") ⊎ (requested ≡ some id)))
IsSound sort cs requested unlinked = (k : String) → is_linked cs k ≡ false
IsSound sort cs requested (ambiguous ks) =
    (us : List String) × (ks ≡ sort us)
    × IsDistinct us
    × (2 ≤ length us)
    × ((k : String) → contains us k ≡ is_linked cs k)
IsSound sort cs requested (conflict id other) =
    ((k : String) → (is_linked cs k ≡ true) ↔ (id ≡ k))
    × (requested ≡ some other)
    × ((other === id) ≡ false)

is_linked-unique_by_customer :
    (cs : List CustomerIdentityCandidate) (k : String)
    → has_customer k (unique_by_customer [] cs) ≡ is_linked cs k
is_linked-unique_by_customer cs k =
    has_customer-unique_by_customer [] cs k ∙ and-true (is_linked cs k)

unique_cases :
    (us : List CustomerIdentityCandidate)
    → (us ≡ [])
      ⊎ (((c : CustomerIdentityCandidate) × (us ≡ c ∷ []))
          ⊎ ((c : CustomerIdentityCandidate) × (d : CustomerIdentityCandidate) × (rest : List
                CustomerIdentityCandidate)
              × (us ≡ c ∷ d ∷ rest)))
unique_cases [] = inl refl
unique_cases (c ∷ []) = inr (inl (c, refl))
unique_cases (c ∷ d ∷ rest) = inr (inr (c, d, rest, refl))

contains-ids :
    (us : List CustomerIdentityCandidate) (k : String) → contains (ids us) k ≡ has_customer k us
contains-ids [] k = refl
contains-ids (u ∷ us) k = ap (λ r. (u.customer_id === k) || r) (contains-ids us k)

-- A customer that has been seen does not come again.
seen-unique_by_customer :
    (seen cs : List CustomerIdentityCandidate) (d : CustomerIdentityCandidate)
    → contains (ids (unique_by_customer (d ∷ seen) cs)) d.customer_id ≡ false
seen-unique_by_customer seen cs d =
    contains-ids (unique_by_customer (d ∷ seen) cs) d.customer_id
    ∙ has_customer-unique_by_customer (d ∷ seen) cs d.customer_id
    ∙ rw ((eq_iff d.customer_id d.customer_id).1 refl) (and-false (is_linked cs d.customer_id))

unique_by_customer-IsDistinct :
    (seen cs : List CustomerIdentityCandidate) → IsDistinct (ids (unique_by_customer seen cs))
unfolding unique_by_customer
unique_by_customer-IsDistinct seen [] = tt
unique_by_customer-IsDistinct seen (d ∷ cs) =
    elim (Bool-cases (is_trusted_explicit d && not (has_customer d.customer_id seen))) [
      | inl keep ↦
          rw keep (seen-unique_by_customer seen cs d, unique_by_customer-IsDistinct (d ∷ seen) cs)
      | inr drop ↦ rw drop (unique_by_customer-IsDistinct seen cs)
    ]

-- The ids of the unique candidates are those of the linked customers, each once.
unique_ids :
    (cs us : List CustomerIdentityCandidate)
    → unique_by_customer [] cs ≡ us
    → IsDistinct (ids us) × ((k : String) → contains (ids us) k ≡ is_linked cs k)
unique_ids cs us e = rw (← e) (
  unique_by_customer-IsDistinct [] cs,
  λ k. contains-ids (unique_by_customer [] cs) k ∙ is_linked-unique_by_customer cs k,
)

-- A single customer is linked exactly when it is the one.
one-linked :
    (cs : List CustomerIdentityCandidate) (c : CustomerIdentityCandidate) (k : String)
    → unique_by_customer [] cs ≡ c ∷ []
    → (is_linked cs k ≡ true) ↔ (c.customer_id ≡ k)
one-linked cs c k e =
    rw (← is_linked-unique_by_customer cs k)
      (rw e (rw (or-false (c.customer_id === k)) (eq_iff c.customer_id k)))

unique_by_customer-first :
    (cs : List CustomerIdentityCandidate) {c : CustomerIdentityCandidate}
    {rest : List CustomerIdentityCandidate}
    → unique_by_customer [] cs ≡ c ∷ rest
    → first_contact cs ≡ some c.contact_id
unfolding unique_by_customer
unique_by_customer-first [] e = cc
unique_by_customer-first (d ∷ cs) {c} {rest} e = elim (Bool-cases (is_trusted_explicit d)) [
  | inl trusted ↦
      let same : (d ∷ unique_by_customer (d ∷ []) cs) ≡ c ∷ rest = rw trusted at e in
      let first : d ≡ c = cc in
      rw trusted (ap (λ (u : CustomerIdentityCandidate). some u.contact_id) first)
  | inr untrusted ↦ rw untrusted (unique_by_customer-first cs (rw untrusted at e))
]

resolve_one-IsSound :
    (sort : List String → List String) (cs : List CustomerIdentityCandidate)
    (c : CustomerIdentityCandidate) (requested : Option String)
    → ((k : String) → (is_linked cs k ≡ true) ↔ (c.customer_id ≡ k))
    → first_contact cs ≡ some c.contact_id
    → IsSound sort cs requested (resolve_one c requested)
resolve_one-IsSound sort cs c none one contact = (one, contact, inl refl)
resolve_one-IsSound sort cs c (some r) one contact = elim (Bool-cases (is_blank r)) [
  | inl blank ↦ rw blank (one, contact, inr (inl (ap some (is_blank-eq r blank))))
  | inr given ↦ elim (Bool-cases (r === c.customer_id)) [
    | inl same ↦
        rw given (rw same (one, contact, inr (inr (ap some ((eq_iff r c.customer_id).0 same)))))
    | inr other ↦ rw given (rw other (one, refl, other))
  ]
]

-- Every resolution of a customer's identity is right about the candidates: a match names the only
-- customer with a trusted and explicit link and the contact of its first such link, and the one requested, if any, is no other; no
-- customer has such a link when none is resolved; ambiguous links come with the sorted ids of exactly
-- the customers that have one, each once, and at least two; and a conflict names the only linked customer and the different one requested.
pub resolve-IsSound :
    (sort : List String → List String) (cs : List CustomerIdentityCandidate)
    (requested : Option String)
    → IsSound sort cs requested (resolve_customer_messaging_identity sort cs requested)
unfolding resolve_customer_messaging_identity
resolve-IsSound sort cs requested = elim (unique_cases (unique_by_customer [] cs)) [
  | inl e ↦ rw e (λ k. sym (is_linked-unique_by_customer cs k) ∙ rw e refl)
  | inr (inl (c, e)) ↦ rw e (
      resolve_one-IsSound sort cs c requested (λ k. one-linked cs c k e)
        (unique_by_customer-first cs e))
  | inr (inr (c, d, rest, e)) ↦
      let (distinct, linked) = unique_ids cs (c ∷ d ∷ rest) e in
      rw e (ids (c ∷ d ∷ rest), refl, distinct, omega arith, linked)
]
