-- ===== src/Messaging/Facts/Complete.antt =====
-- Facts that the validation accepts leave no group incomplete.
use hestiva_os.Base.{
  ◌≡◌, ◌∙◌, refl, sym, ap, arith, inl, inr, String, Bool, true, false, not, ◌&&◌, List, [], ◌∷◌,
  ◌++◌, Bool-cases, append-eq-nil_left, append-eq-nil_right,
}
use hestiva_os.Base.Json.{
  Value, undefined, null, boolean, number, fraction, string, array, object, Fields, get, fields_of,
}
use hestiva_os.Messaging.Flow.{
  FactGroup, property, request, visit, access, household, safety, notes, customer, photos,
  group_key, required_fact_groups, is_incomplete, messaging_quote_incomplete_fact_groups, filter,
  is_missing,
}
use hestiva_os.Quotes.Contract.Platform.{Platform}
use hestiva_os.Quotes.Contract.Fields.{
  WebsiteQuoteContractError, error, record_at, required_record, checked_with,
}
use hestiva_os.Quotes.Contract.Customer.{customer_errors}
use hestiva_os.Quotes.Contract.Property.{property_errors}
use hestiva_os.Quotes.Contract.Request.{request_errors}
use hestiva_os.Quotes.Contract.Visit.{
  visit_errors, access_errors, household_errors, safety_errors, notes_errors,
}
use hestiva_os.Quotes.Contract.Photos.{photos_errors, photos_at}
use hestiva_os.Quotes.Contract.V1.{submission_errors, validate_website_quote_submission_v1}
use hestiva_os.Quotes.Contract.V2.{
  keep_errors, is_kept, compatible_payload, with_request, v2_errors,
  validate_website_quote_submission_v2,
}
use hestiva_os.Quotes.Contract.PostEventFacts.{record_fields}
use hestiva_os.Quotes.Contract.BusinessFacts.{validation_envelope, validate_quote_business_facts}
use hestiva_os.Messaging.Facts.{fact_errors}
use hestiva_os.Messaging.Facts.Payload.{get-spread_fresh, get-compatible, get-compatible_missing}

keep-append :
    (p : WebsiteQuoteContractError → Bool) (xs ys : List WebsiteQuoteContractError)
    → keep_errors p (xs ++ ys) ≡ (keep_errors p xs ++ keep_errors p ys)
unfolding keep_errors
keep-append p [] ys = refl
keep-append p (x ∷ xs) ys = elim (Bool-cases (p x)) [
  | inl e ↦ rw e (ap (λ r. x ∷ r) (keep-append p xs ys))
  | inr e ↦ rw e (keep-append p xs ys)
]

-- The errors that are kept of two lists are none.
keep_none :
    (p : WebsiteQuoteContractError → Bool) (xs ys : List WebsiteQuoteContractError)
    → keep_errors p (xs ++ ys) ≡ []
    → (keep_errors p xs ≡ []) × (keep_errors p ys ≡ [])
keep_none p xs ys h =
    let e = sym (keep-append p xs ys) ∙ h in (append-eq-nil_left _ _ e, append-eq-nil_right _ _ e)

kept_lem :
    (a b c d t r : Bool)
    → a ≡ false
    → b ≡ false
    → c ≡ false
    → (not a && not (t && b) && not (r && c && d)) ≡ true
kept_lem a b c d t r = ground arith

-- A section that is missing is an error that is kept.
record_given :
    (p : WebsiteQuoteContractError → Bool) (k : String) (v : Value)
    (more : Fields → List WebsiteQuoteContractError)
    → ((m : String) → p (error k "INVALID_OBJECT" m) ≡ true)
    → keep_errors p (checked_with (record_at k v) more) ≡ []
    → is_missing v ≡ false
unfolding keep_errors
record_given p k undefined more kept h = let e = rw (kept _) at h in cc
record_given p k null more kept h = let e = rw (kept _) at h in cc
record_given p k (boolean _) more kept h = refl
record_given p k (number _) more kept h = refl
record_given p k (fraction _ _) more kept h = refl
record_given p k (string _) more kept h = refl
record_given p k (array _) more kept h = refl
record_given p k (object _) more kept h = refl

photos_given :
    (platform : Platform) (p : WebsiteQuoteContractError → Bool) (v : Value)
    → ((m : String) → p (error "photos" "INVALID_ARRAY" m) ≡ true)
    → keep_errors p (photos_at platform v) ≡ []
    → is_missing v ≡ false
unfolding keep_errors photos_at
photos_given platform p undefined kept h = let e = rw (kept _) at h in cc
photos_given platform p null kept h = let e = rw (kept _) at h in cc
photos_given platform p (boolean _) kept h = refl
photos_given platform p (number _) kept h = refl
photos_given platform p (fraction _ _) kept h = refl
photos_given platform p (string _) kept h = refl
photos_given platform p (array _) kept h = refl
photos_given platform p (object _) kept h = refl

module _ (platform : Platform) where
  -- No section has an error that is kept.
  record SectionsPass (p : WebsiteQuoteContractError → Bool) (payload : Fields) : Type 0 where
    customer_kept : keep_errors p (customer_errors payload) ≡ []
    property_kept : keep_errors p (property_errors payload) ≡ []
    request_kept : keep_errors p (request_errors platform payload) ≡ []
    visit_kept : keep_errors p (visit_errors platform payload) ≡ []
    access_kept : keep_errors p (access_errors payload) ≡ []
    household_kept : keep_errors p (household_errors payload) ≡ []
    safety_kept : keep_errors p (safety_errors payload) ≡ []
    notes_kept : keep_errors p (notes_errors payload) ≡ []
    photos_kept : keep_errors p (photos_errors platform payload) ≡ []

  keep-SectionsPass :
      (p : WebsiteQuoteContractError → Bool) (payload : Fields)
      → keep_errors p (submission_errors platform payload) ≡ []
      → SectionsPass p payload
  unfolding submission_errors
  keep-SectionsPass p payload h =
      let (before_photos, photos_none) = keep_none p _ (photos_errors platform payload) h in
      let (before_notes, notes_none) = keep_none p _ (notes_errors payload) before_photos in
      let (before_safety, safety_none) = keep_none p _ (safety_errors payload) before_notes in
      let (before_household, household_none) =
        keep_none p _ (household_errors payload) before_safety in
      let (before_access, access_none) = keep_none p _ (access_errors payload) before_household in
      let (before_visit, visit_none) =
        keep_none p _ (visit_errors platform payload) before_access in
      let (before_request, request_none) =
        keep_none p _ (request_errors platform payload) before_visit in
      let (before_property, property_none) =
        keep_none p _ (property_errors payload) before_request in
      let (_, customer_none) = keep_none p _ (customer_errors payload) before_property in
      record {
        customer_kept = customer_none;
        property_kept = property_none;
        request_kept = request_none;
        visit_kept = visit_none;
        access_kept = access_none;
        household_kept = household_none;
        safety_kept = safety_none;
        notes_kept = notes_none;
        photos_kept = photos_none;
      }

  sections_given :
      (p : WebsiteQuoteContractError → Bool) (payload : Fields)
      → ((g : FactGroup) (code m : String) → p (error (group_key g) code m) ≡ true)
      → SectionsPass p payload
      → (g : FactGroup) → is_missing (get (group_key g) payload) ≡ false
  unfolding customer_errors property_errors request_errors visit_errors access_errors
      household_errors safety_errors notes_errors photos_errors required_record
  sections_given p payload kept i property =
      record_given p "property" (get "property" payload) _ (kept property "INVALID_OBJECT")
        i.property_kept
  sections_given p payload kept i request =
      record_given p "request" (get "request" payload) _ (kept request "INVALID_OBJECT")
        i.request_kept
  sections_given p payload kept i visit =
      record_given p "visit" (get "visit" payload) _ (kept visit "INVALID_OBJECT") i.visit_kept
  sections_given p payload kept i access =
      record_given p "access" (get "access" payload) _ (kept access "INVALID_OBJECT") i.access_kept
  sections_given p payload kept i household =
      record_given p "household" (get "household" payload) _ (kept household "INVALID_OBJECT")
        i.household_kept
  sections_given p payload kept i safety =
      record_given p "safety" (get "safety" payload) _ (kept safety "INVALID_OBJECT") i.safety_kept
  sections_given p payload kept i notes =
      record_given p "notes" (get "notes" payload) _ (kept notes "INVALID_OBJECT") i.notes_kept
  sections_given p payload kept i customer =
      record_given p "customer" (get "customer" payload) _ (kept customer "INVALID_OBJECT")
        i.customer_kept
  sections_given p payload kept i photos =
      photos_given platform p (get "photos" payload) (kept photos "INVALID_ARRAY") i.photos_kept

  section_kept :
      (t r : Bool) (g : FactGroup) (code m : String)
      → is_kept t r (error (group_key g) code m) ≡ true
  section_kept t r property code m = kept_lem _ _ _ _ t r refl refl refl
  section_kept t r request code m = kept_lem _ _ _ _ t r refl refl refl
  section_kept t r visit code m = kept_lem _ _ _ _ t r refl refl refl
  section_kept t r access code m = kept_lem _ _ _ _ t r refl refl refl
  section_kept t r household code m = kept_lem _ _ _ _ t r refl refl refl
  section_kept t r safety code m = kept_lem _ _ _ _ t r refl refl refl
  section_kept t r notes code m = kept_lem _ _ _ _ t r refl refl refl
  section_kept t r customer code m = kept_lem _ _ _ _ t r refl refl refl
  section_kept t r photos code m = kept_lem _ _ _ _ t r refl refl refl

  request_given :
      (v : Value) (payload : Fields)
      → get "request" payload ≡ v
      → is_missing (get "request" (compatible_payload platform payload)) ≡ false
      → is_missing v ≡ false
  unfolding with_request
  request_given undefined payload e h =
      let same = get-compatible_missing platform undefined payload e refl in cc
  request_given null payload e h =
      let same = get-compatible_missing platform null payload e refl in cc
  request_given (boolean _) payload e h = refl
  request_given (number _) payload e h = refl
  request_given (fraction _ _) payload e h = refl
  request_given (string _) payload e h = refl
  request_given (array _) payload e h = refl
  request_given (object _) payload e h = refl

  v2_given :
      (payload : Fields)
      → v2_errors platform payload ≡ []
      → (g : FactGroup)
      → is_missing (get (group_key g) (compatible_payload platform payload)) ≡ false
  unfolding v2_errors validate_website_quote_submission_v1
  v2_given payload h g =
      let front = append-eq-nil_left _ _ h in
      let kept = append-eq-nil_right _ _ front in
      sections_given _ (compatible_payload platform payload) (section_kept _ _)
        (keep-SectionsPass _ (compatible_payload platform payload) kept) g

  payload_given :
      (payload : Fields)
      → v2_errors platform payload ≡ []
      → (g : FactGroup) → is_missing (get (group_key g) payload) ≡ false
  payload_given payload h property =
      rw (← get-compatible platform "property" payload refl refl) (v2_given payload h property)
  payload_given payload h request =
      request_given (get "request" payload) payload refl (v2_given payload h request)
  payload_given payload h visit =
      rw (← get-compatible platform "visit" payload refl refl) (v2_given payload h visit)
  payload_given payload h access =
      rw (← get-compatible platform "access" payload refl refl) (v2_given payload h access)
  payload_given payload h household =
      rw (← get-compatible platform "household" payload refl refl) (v2_given payload h household)
  payload_given payload h safety =
      rw (← get-compatible platform "safety" payload refl refl) (v2_given payload h safety)
  payload_given payload h notes =
      rw (← get-compatible platform "notes" payload refl refl) (v2_given payload h notes)
  payload_given payload h customer =
      rw (← get-compatible platform "customer" payload refl refl) (v2_given payload h customer)
  payload_given payload h photos =
      rw (← get-compatible platform "photos" payload refl refl) (v2_given payload h photos)

  fresh_key :
      (facts : Fields) (g : FactGroup)
      → get (group_key g) (validation_envelope facts) ≡ get (group_key g) facts
  unfolding validation_envelope get
  fresh_key facts property = get-spread_fresh "property" _ facts refl
  fresh_key facts request = get-spread_fresh "request" _ facts refl
  fresh_key facts visit = get-spread_fresh "visit" _ facts refl
  fresh_key facts access = get-spread_fresh "access" _ facts refl
  fresh_key facts household = get-spread_fresh "household" _ facts refl
  fresh_key facts safety = get-spread_fresh "safety" _ facts refl
  fresh_key facts notes = get-spread_fresh "notes" _ facts refl
  fresh_key facts customer = get-spread_fresh "customer" _ facts refl
  fresh_key facts photos = get-spread_fresh "photos" _ facts refl

  record_fields-fields_of : (v : Value) → record_fields v ≡ fields_of v
  unfolding fields_of
  record_fields-fields_of (object fs) = refl
  record_fields-fields_of undefined = refl
  record_fields-fields_of null = refl
  record_fields-fields_of (boolean _) = refl
  record_fields-fields_of (number _) = refl
  record_fields-fields_of (fraction _ _) = refl
  record_fields-fields_of (string _) = refl
  record_fields-fields_of (array _) = refl

  given_lem :
      (draft : Value) (g : FactGroup)
      → validate_quote_business_facts platform draft ≡ []
      → is_missing (get (group_key g) (fields_of draft)) ≡ false
  unfolding validate_quote_business_facts validate_website_quote_submission_v2
  given_lem draft g h =
      rw (← record_fields-fields_of draft, ← fresh_key (record_fields draft) g)
        (payload_given (validation_envelope (record_fields draft)) h g)

  complete_lem :
      (draft : Value) (g : FactGroup)
      → validate_quote_business_facts platform draft ≡ []
      → is_incomplete (fact_errors platform) draft g ≡ false
  unfolding is_incomplete fact_errors
  complete_lem draft g h = rw h (rw (given_lem draft g h))

  filter_all_false :
      (p : FactGroup → Bool) (gs : List FactGroup)
      → ((g : FactGroup) → p g ≡ false)
      → filter p gs ≡ []
  filter_all_false p [] h = refl
  filter_all_false p (g ∷ gs) h = rw (h g) (filter_all_false p gs h)

  pub accepted_complete :
      (draft : Value)
      → validate_quote_business_facts platform draft ≡ []
      → messaging_quote_incomplete_fact_groups (fact_errors platform) draft ≡ []
  unfolding messaging_quote_incomplete_fact_groups
  accepted_complete draft h =
      filter_all_false (is_incomplete (fact_errors platform) draft) required_fact_groups
        (λ g. complete_lem draft g h)
