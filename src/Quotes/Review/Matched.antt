-- ===== src/Quotes/Review/Matched.antt =====
-- What the result of a match says of the stored customers:
-- apps/api/src/quotes/quote-match-resolution.ts.
use hestiva_os.Base.{
  ◌≡◌, refl, arith, ◌==◌, ◌≤◌, String, Bool, true, false, not, ◌&&◌, ◌||◌, Option, none, some, List,
  [], ◌∷◌, map, length, is_some, is_empty, All, inl, inr, Bool-cases, sym, ap, ◌↔◌, ◌⊎◌,
}
use hestiva_os.Quotes.CostSource.{keep}
use hestiva_os.Quotes.Review.Match.{
  MatchState, exact_existing_match, likely_match_review_required, no_match_new_candidate,
  ambiguous_multiple_matches, invalid_or_insufficient_identity_data, CustomerIdentity,
  normalize_customer_email, normalize_customer_phone, email_agrees, phone_agrees, evidence_of,
  one_customer, matched_as, agrees, evidence_by, MatchCandidate, review_required, new_candidate,
  customer_candidate, resolve_customer_match, blocked, ready, insufficient, MatchResult,
  display_name_of,
}

-- What a test drops, none of its members passes.
keep-eq-nil {ℓ} :
    {A : Type ℓ} (p : A → Bool) (xs : List A) → keep p xs ≡ [] → All (λ x. p x ≡ false) xs
unfolding keep
keep-eq-nil p [] e = tt
keep-eq-nil p (x ∷ xs) e = elim (Bool-cases (p x)) [
  | inl kept ↦ absurd (ground (arith, e, kept))
  | inr dropped ↦ (dropped, keep-eq-nil p xs (rw dropped at e))
]

-- What a test keeps passes it.
keep-passes {ℓ} :
    {A : Type ℓ} (p : A → Bool) (xs : List A) {y : A} {ys : List A}
    → keep p xs ≡ y ∷ ys
    → p y ≡ true
unfolding keep
keep-passes p [] e = cc
keep-passes p (x ∷ xs) e = elim (Bool-cases (p x)) [
  | inl kept ↦ ground (arith, e, kept)
  | inr dropped ↦ keep-passes p xs (rw dropped at e)
]

keep-eq {ℓ} :
    {A : Type ℓ} (p q : A → Bool) → ((x : A) → p x ≡ q x) → (xs : List A) → keep p xs ≡ keep q xs
unfolding keep
keep-eq p q same [] = refl
keep-eq p q same (x ∷ xs) = rw (same x, keep-eq p q same xs) refl

keep-none {ℓ} :
    {A : Type ℓ} (p : A → Bool) → ((x : A) → p x ≡ false) → (xs : List A) → keep p xs ≡ []
unfolding keep
keep-none p h [] = refl
keep-none p h (x ∷ xs) = rw (h x) (keep-none p h xs)

-- The evidence that two tests amount to.
abbrev pub expected_evidence : (email phone : Bool) → List String
expected_evidence true true = "EMAIL" ∷ "MOBILE" ∷ []
expected_evidence true false = "EMAIL" ∷ []
expected_evidence false true = "MOBILE" ∷ []
expected_evidence false false = []

evidence_by_lem : (email phone : Bool) → evidence_by email phone ≡ expected_evidence email phone
evidence_by_lem true true = refl
evidence_by_lem true false = refl
evidence_by_lem false true = refl
evidence_by_lem false false = refl

-- The evidence for one customer, by its two tests.
some_evidence : (email phone : Bool) → not (is_empty (evidence_by email phone)) ≡ (email || phone)
some_evidence true true = refl
some_evidence true false = refl
some_evidence false true = refl
some_evidence false false = refl

abbrev is_likely : (given_email given_phone email phone : Bool) → Bool
is_likely given_email given_phone email phone =
    (given_email && given_phone) && not (length (evidence_by email phone) == 2)

likely-true :
    (given_email given_phone email phone : Bool)
    → is_likely given_email given_phone email phone ≡ true
    → (given_email ≡ true) × (given_phone ≡ true) × ((email && phone) ≡ false)
likely-true true true true false e = (refl, refl, refl)
likely-true true true false phone e = (refl, refl, refl)
likely-true true true true true e = absurd (ground arith)
likely-true true false email phone e = absurd (ground arith)
likely-true false given_phone email phone e = absurd (ground arith)

likely-false :
    (given_email given_phone email phone : Bool)
    → is_likely given_email given_phone email phone ≡ false
    → (email || phone) ≡ true
    → (email ≡ true → given_email ≡ true)
    → (phone ≡ true → given_phone ≡ true)
    → (given_email ≡ email) × (given_phone ≡ phone)
likely-false given_email given_phone true true e some_one f g = (f refl, g refl)
likely-false given_email given_phone true false e some_one f g = (f refl, ground (arith, f refl))
likely-false given_email given_phone false true e some_one f g = (ground (arith, g refl), g refl)
likely-false given_email given_phone false false e some_one f g = absurd (ground arith)

agrees-given : (a b : Option String) → agrees a b ≡ true → is_some a ≡ true
agrees-given none b e = absurd (ground arith)
agrees-given (some a) b e = refl

module _ (to_lower_case to_locale_lower_case : String → String) (email phone : Option String) where
  abbrev email_of : Option String
  email_of = normalize_customer_email to_lower_case to_locale_lower_case email

  abbrev same_email : CustomerIdentity → Bool
  same_email c = email_agrees to_lower_case to_locale_lower_case email c

  abbrev same_phone : CustomerIdentity → Bool
  same_phone c = phone_agrees to_lower_case to_locale_lower_case phone c

  abbrev has_evidence : CustomerIdentity → Bool
  has_evidence c = same_email c || same_phone c

  -- The one customer that has evidence.
  abbrev Only : List CustomerIdentity → CustomerIdentity → Type 0
  Only customers c = keep has_evidence customers ≡ c ∷ []

  -- What each state says of the customers.
  abbrev pub Says : MatchState → List CustomerIdentity → Type 0
  Says invalid_or_insufficient_identity_data customers =
      (email_of ≡ none) × (normalize_customer_phone phone ≡ none)
  Says no_match_new_candidate customers = All (λ c. has_evidence c ≡ false) customers
  Says exact_existing_match customers =
      (c : CustomerIdentity) × Only customers c
      × ((is_some email_of ≡ same_email c)
          × (is_some (normalize_customer_phone phone) ≡ same_phone c))
  Says likely_match_review_required customers =
      (c : CustomerIdentity) × Only customers c
      × (is_some email_of ≡ true)
      × (is_some (normalize_customer_phone phone) ≡ true)
      × ((same_email c && same_phone c) ≡ false)
  Says ambiguous_multiple_matches customers = 2 ≤ length (keep has_evidence customers)

  matches-eq :
      (customers : List CustomerIdentity)
      → keep
          (λ c. not (is_empty (evidence_of to_lower_case to_locale_lower_case email phone c)))
          customers
        ≡ keep has_evidence customers
  matches-eq = keep-eq _ _ (λ c. some_evidence (same_email c) (same_phone c))

  same_email-given : (c : CustomerIdentity) → same_email c ≡ true → is_some email_of ≡ true
  unfolding email_agrees
  same_email-given c e = agrees-given _ _ e

  same_phone-given :
      (c : CustomerIdentity) → same_phone c ≡ true → is_some (normalize_customer_phone phone) ≡ true
  unfolding phone_agrees
  same_phone-given c e = agrees-given _ _ e

  -- One candidate for each customer, in their order, with the customer's id, name and evidence.
  pub record ListsCandidates (cs : List CustomerIdentity) (ms : List MatchCandidate) : Type 0 where
    pub ids : map (λ (m : MatchCandidate). m.id) ms ≡ map (λ (c : CustomerIdentity). c.id) cs
    pub names : map (λ (m : MatchCandidate). m.display_name) ms ≡ map display_name_of cs
    pub evidence :
        map (λ (m : MatchCandidate). m.evidence) ms
        ≡ map (λ c. expected_evidence (same_email c) (same_phone c)) cs

  -- A result is right about the customers in its state, in its candidates and in its readiness.
  pub record IsMatched (customers : List CustomerIdentity) (r : MatchResult) : Type 0 where
    pub says : Says r.state customers
    pub lists : ListsCandidates (keep has_evidence customers) r.candidates
    pub ready_iff :
        (r.readiness ≡ ready)
        ↔ ((r.state ≡ exact_existing_match) ⊎ (r.state ≡ no_match_new_candidate))
    pub blocked_iff : (r.readiness ≡ blocked) ↔ (r.state ≡ invalid_or_insufficient_identity_data)

  abbrev candidate : CustomerIdentity → MatchCandidate
  candidate c = customer_candidate to_lower_case to_locale_lower_case email phone c

  map-ListsCandidates : (cs : List CustomerIdentity) → ListsCandidates cs (map candidate cs)
  map-ListsCandidates [] = record { ids = refl; names = refl; evidence = refl }
  map-ListsCandidates (c ∷ cs) =
      let rest = map-ListsCandidates cs in
      record {
        ids = ap (λ xs. c.id ∷ xs) rest.ids;
        names = ap (λ xs. display_name_of c ∷ xs) rest.names;
        evidence =
            rw (evidence_by_lem (same_email c) (same_phone c))
              (ap (λ xs. expected_evidence (same_email c) (same_phone c) ∷ xs) rest.evidence);
      }

  one-Says :
      (customers : List CustomerIdentity) (c : CustomerIdentity)
      → Only customers c
      → Says (one_customer to_lower_case to_locale_lower_case email phone c).state customers
  one-Says customers c only =
      elim (Bool-cases (
        is_likely (is_some email_of) (is_some (normalize_customer_phone phone)) (same_email c)
          (same_phone c))) [
            | inl likely ↦
                let (e, p, one) = likely-true _ _ _ _ likely in rw likely (c, only, e, p, one)
            | inr exact ↦
                let (e, p) =
                  likely-false _ _ _ _ exact (keep-passes has_evidence customers only)
                    (same_email-given c) (same_phone-given c) in
                rw exact (c, only, (e, p))
          ]

  one-IsMatched :
      (customers : List CustomerIdentity) (c : CustomerIdentity)
      → Only customers c
      → IsMatched customers (one_customer to_lower_case to_locale_lower_case email phone c)
  one-IsMatched customers c only = record {
    says = one-Says customers c only;
    lists = rw only (map-ListsCandidates (c ∷ []));
    ready_iff = ground arith;
    blocked_iff = ground arith;
  }

  abbrev several : List CustomerIdentity → MatchResult
  several cs = record {
    state = ambiguous_multiple_matches;
    readiness = review_required;
    candidates = map candidate cs;
  }

  matched_as-IsMatched :
      (customers ms : List CustomerIdentity)
      → keep has_evidence customers ≡ ms
      → IsMatched customers (
          matched_as
            (one_customer to_lower_case to_locale_lower_case email phone)
            new_candidate
            ms
            several)
  matched_as-IsMatched customers [] e = record {
    says = keep-eq-nil has_evidence customers e;
    lists = rw e (map-ListsCandidates []);
    ready_iff = ground arith;
    blocked_iff = ground arith;
  }
  matched_as-IsMatched customers (c ∷ []) e = one-IsMatched customers c e
  matched_as-IsMatched customers (c ∷ d ∷ rest) e = record {
    says = rw e (omega arith);
    lists = rw e (map-ListsCandidates (c ∷ d ∷ rest));
    ready_iff = ground arith;
    blocked_iff = ground arith;
  }

  insufficient-IsMatched :
      (customers : List CustomerIdentity)
      → email_of ≡ none
      → normalize_customer_phone phone ≡ none
      → IsMatched customers insufficient
  unfolding email_agrees phone_agrees
  insufficient-IsMatched customers e p = record {
    says = (e, p);
    lists = rw (keep-none has_evidence (λ c. rw (e, p) refl) customers) (map-ListsCandidates []);
    ready_iff = ground arith;
    blocked_iff = ground arith;
  }

  -- The result of a match is right about the customers. Without an email and a phone number there is
  -- too little to go by; no match means that no customer has either; an exact match is the only
  -- customer that has either, and has each that was given; a likely one is the only one, where both
  -- were given and not both agree; and otherwise two customers or more have either. The candidates are
  -- exactly the customers that have either, in their order, each with its id, its name and the evidence
  -- for it. The result is ready exactly for an exact match and for none, and blocked exactly when
  -- there is too little to go by.
  pub resolve_customer_match-IsMatched :
      (customers : List CustomerIdentity)
      → IsMatched customers
          (resolve_customer_match to_lower_case to_locale_lower_case email phone customers)
  unfolding resolve_customer_match
  resolve_customer_match-IsMatched customers =
      elim (Bool-cases (not (is_some email_of) && not (is_some (normalize_customer_phone phone)))) [
        | inl missing ↦ rw missing (insufficient-IsMatched customers (ground arith) (ground arith))
        | inr given ↦ rw given (matched_as-IsMatched customers _ (sym (matches-eq customers)))
      ]
