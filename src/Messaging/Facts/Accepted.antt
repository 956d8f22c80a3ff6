-- ===== src/Messaging/Facts/Accepted.antt =====
-- The groups of facts that are incomplete against the errors of the validation.
use text.Mathlib.TextEquality.{eq_iff}
use mathlib.Core.Bool.{true≢false}
use hestiva_os.Base.{
  ◌≡◌, ◌∙◌, ◌↔◌, refl, sym, arith, inl, inr, String, Bool, true, false, ◌||◌, List, [], ◌∷◌, All,
  Bool-cases,
}
use hestiva_os.Base.Text.{◌===◌, starts_with, trim}
use hestiva_os.Base.Pattern.{matches}
use hestiva_os.Base.Json.{Value, string, Fields, no_field, get, has_key}
use hestiva_os.Messaging.Flow.{
  FactGroup, property, request, visit, access, household, safety, notes, customer, photos,
  group_key, group_prefix, required_fact_groups, is_incomplete,
  messaging_quote_incomplete_fact_groups, filter, is_given,
}
use hestiva_os.Quotes.Contract.Platform.{Platform}
use hestiva_os.Quotes.Contract.Fields.{WebsiteQuoteContractError, required_string}
use hestiva_os.Quotes.Contract.V1.{
  is_iso_utc, envelope_errors, submission_errors, validate_website_quote_submission_v1,
}
use hestiva_os.Quotes.Contract.V2.{
  compatible_payload, v2_errors, validate_website_quote_submission_v2,
}
use hestiva_os.Quotes.Contract.PostEventFacts.{record_fields}
use hestiva_os.Quotes.Contract.BusinessFacts.{
  spread, validation_envelope, validate_quote_business_facts,
}
use hestiva_os.Base.Number.{Number}
use hestiva_os.Messaging.State.{MessagingQuoteStateSnapshot}
use hestiva_os.Messaging.State.Steps.{Reachable, Reachable-IsConsistent}
use hestiva_os.Messaging.Facts.{fact_errors}
use hestiva_os.Messaging.Facts.Complete.{accepted_complete}
use hestiva_os.Messaging.Facts.Payload.{get-spread_absent, get-compatible, get-compatible_version}
use hestiva_os.Messaging.Facts.Groups.{
  InGroup, whole, inside, Grouped, AllIn-Grouped, Grouped-append, Grouped-keep,
}
use hestiva_os.Messaging.Facts.Sections.{
  customer-AllIn, property-AllIn, visit-AllIn, access-AllIn, household-AllIn, safety-AllIn,
  notes-AllIn,
}
use hestiva_os.Messaging.Facts.Requests.{request-AllIn}
use hestiva_os.Messaging.Facts.Photos.{photos-AllIn}
use hestiva_os.Messaging.Facts.Services.{v2_request-AllIn}

-- The draft has no field of the transport.
pub record IsChannelNeutral (draft : Value) : Type 0 where
  pub version : has_key "schemaVersion" (record_fields draft) ≡ false
  pub id : has_key "submissionId" (record_fields draft) ≡ false
  pub source : has_key "source" (record_fields draft) ≡ false
  pub time : has_key "submittedAt" (record_fields draft) ≡ false

or_true_lem : (a b : Bool) → b ≡ true → (a || b) ≡ true
or_true_lem a b h = ground arith

or_lem : (a b c : Bool) → b ≡ true → (a || (b || c)) ≡ true
or_lem a b c h = ground arith

InGroup-reads :
    (g : FactGroup) (path : String)
    → InGroup g path
    → ((path === group_key g) || starts_with (group_prefix g) path) ≡ true
InGroup-reads g _ whole = rw ((eq_iff (group_key g) (group_key g)).1 refl)
InGroup-reads g path (inside h) = or_true_lem _ _ h

filter-none :
    (p : FactGroup → Bool) (gs : List FactGroup) → filter p gs ≡ [] → All (λ g. p g ≡ false) gs
filter-none p [] h = tt
filter-none p (g ∷ gs) h = elim (Bool-cases (p g)) [
  | inl e ↦ let kept = rw e at h in cc
  | inr e ↦ (e, filter-none p gs (rw e at h))
]

pick : (P : FactGroup → Type 0) (g : FactGroup) → All P required_fact_groups → P g
pick P property (p, _) = p
pick P request (_, (p, _)) = p
pick P visit (_, (_, (p, _))) = p
pick P access (_, (_, (_, (p, _)))) = p
pick P household (_, (_, (_, (_, (p, _))))) = p
pick P safety (_, (_, (_, (_, (_, (p, _)))))) = p
pick P notes (_, (_, (_, (_, (_, (_, (p, _))))))) = p
pick P customer (_, (_, (_, (_, (_, (_, (_, (p, _)))))))) = p
pick P photos (_, (_, (_, (_, (_, (_, (_, (_, (p, _))))))))) = p

no_error :
    (es : List WebsiteQuoteContractError)
    → Grouped es
    → ((g : FactGroup) (e : WebsiteQuoteContractError) (rest : List WebsiteQuoteContractError)
        → InGroup g e.path
        → es ≡ e ∷ rest
        → ⊥)
    → es ≡ []
no_error [] i never = refl
no_error (e ∷ es) ((g, p), _) never = absurd (never g e es p refl)

module _ (platform : Platform) where
  -- The time of the envelope is printed as it is read.
  abbrev pub ReadsEnvelope : Type 0
  ReadsEnvelope = is_iso_utc platform "2026-01-01T00:00:00.000Z" ≡ true

  envelope_lem :
      (payload : Fields)
      → ReadsEnvelope
      → get "schemaVersion" payload ≡ string "1.0"
      → get "source" payload ≡ string "HESTIVA_WEBSITE"
      → get "submissionId" payload ≡ string "00000000-0000-4000-8000-000000000001"
      → get "submittedAt" payload ≡ string "2026-01-01T00:00:00.000Z"
      → envelope_errors platform payload ≡ []
  unfolding envelope_errors required_string trim matches
  envelope_lem payload reads v s i t = rw (v, s, i, t, reads)

  submission-Grouped :
      (payload : Fields)
      → envelope_errors platform payload ≡ []
      → Grouped (submission_errors platform payload)
  unfolding submission_errors
  submission-Grouped payload h = rw h (
      search
        (
          Grouped-append,
          AllIn-Grouped customer _ (customer-AllIn payload),
          AllIn-Grouped property _ (property-AllIn payload),
          AllIn-Grouped request _ (request-AllIn platform payload),
          AllIn-Grouped visit _ (visit-AllIn platform payload),
          AllIn-Grouped access _ (access-AllIn payload),
          AllIn-Grouped household _ (household-AllIn payload),
          AllIn-Grouped safety _ (safety-AllIn payload),
          AllIn-Grouped notes _ (notes-AllIn payload),
          AllIn-Grouped photos _ (photos-AllIn platform payload),
        )
        depth 20)

  envelope_field :
      (draft : Value) (k : String)
      → has_key k (record_fields draft) ≡ false
      → (k === "request") ≡ false
      → (k === "schemaVersion") ≡ false
      → get k (compatible_payload platform (validation_envelope (record_fields draft)))
        ≡ get k (validation_envelope no_field)
  unfolding validation_envelope spread
  envelope_field draft k absent h h' =
      get-compatible platform k _ h h' ∙ get-spread_absent k _ (record_fields draft) absent

  v2-Grouped :
      (payload : Fields)
      → get "schemaVersion" payload ≡ string "2.0"
      → envelope_errors platform (compatible_payload platform payload) ≡ []
      → Grouped (v2_errors platform payload)
  unfolding v2_errors validate_website_quote_submission_v1
  v2-Grouped payload version envelope = rw version (
      Grouped-append _ _
        (Grouped-append [] _ tt
          (Grouped-keep _ _ (submission-Grouped (compatible_payload platform payload) envelope)))
        (AllIn-Grouped request _ (v2_request-AllIn platform (get "request" payload))))

  facts-Grouped :
      (draft : Value)
      → ReadsEnvelope
      → IsChannelNeutral draft
      → Grouped (validate_quote_business_facts platform draft)
  unfolding validate_quote_business_facts validate_website_quote_submission_v2 validation_envelope
      get
  facts-Grouped draft reads neutral =
      let payload = validation_envelope (record_fields draft) in
      v2-Grouped payload (get-spread_absent "schemaVersion" _ (record_fields draft) neutral.version)
        (envelope_lem (compatible_payload platform payload) reads
          (get-compatible_version platform payload)
          (envelope_field draft "source" neutral.source refl refl)
          (envelope_field draft "submissionId" neutral.id refl refl)
          (envelope_field draft "submittedAt" neutral.time refl refl))

  -- An error makes its group incomplete.
  incomplete_lem :
      (g : FactGroup) (e : WebsiteQuoteContractError) (es : List WebsiteQuoteContractError)
      (draft : Value)
      → InGroup g e.path
      → validate_quote_business_facts platform draft ≡ e ∷ es
      → is_incomplete (fact_errors platform) draft g ≡ true
  unfolding is_incomplete fact_errors
  incomplete_lem g e es draft p h = rw h (or_lem _ _ _ (InGroup-reads g e.path p))

  incomplete-accepted :
      (draft : Value)
      → ReadsEnvelope
      → IsChannelNeutral draft
      → messaging_quote_incomplete_fact_groups (fact_errors platform) draft ≡ []
      → validate_quote_business_facts platform draft ≡ []
  unfolding messaging_quote_incomplete_fact_groups
  incomplete-accepted draft reads neutral h =
      no_error (validate_quote_business_facts platform draft) (facts-Grouped draft reads neutral)
        (λ g e es p q. true≢false (
          sym (incomplete_lem g e es draft p q)
          ∙ pick (λ x. is_incomplete (fact_errors platform) draft x ≡ false) g
              (filter-none (is_incomplete (fact_errors platform) draft) required_fact_groups h)))

  -- If the platform prints the time of the envelope as it reads it, then a draft without fields of
  -- the transport has no incomplete group of facts exactly when its validation finds no error.
  pub complete_iff :
      (draft : Value)
      → ReadsEnvelope
      → IsChannelNeutral draft
      → (messaging_quote_incomplete_fact_groups (fact_errors platform) draft ≡ [])
        ↔ (validate_quote_business_facts platform draft ≡ [])
  complete_iff draft reads neutral =
      (incomplete-accepted draft reads neutral, accepted_complete platform draft)

  -- Under the same conditions, the draft of every state that a run of commands reaches is accepted by
  -- the validation once the state has a recorded confirmation.
  pub confirmed-accepted :
      (to_iso : Number → String) (s : MessagingQuoteStateSnapshot)
      → Reachable (fact_errors platform) to_iso s
      → is_given s.confirmation_message_id ≡ true
      → ReadsEnvelope
      → IsChannelNeutral s.draft
      → validate_quote_business_facts platform s.draft ≡ []
  confirmed-accepted to_iso s reached given reads neutral =
      let consistent = Reachable-IsConsistent (fact_errors platform) to_iso s reached in
      let (fit, _) = consistent.confirmed given in
      incomplete-accepted s.draft reads neutral fit.complete
