-- ===== src/Quotes/CostModel/Laws.antt =====
-- Cleaner-hours are resolved only from exact facts, and the contribution keeps its margin.
use hestiva_os.Base.{
  ◌≡◌, ◌≢◌, refl, arith, ℕ, ◌+◌, ◌*◌, ◌≤◌, ◌⊎◌, inl, inr, String, true, Option, none, some,
  Option-cases,
}
use hestiva_os.Base.Number.{nat}
use hestiva_os.Base.Result.{ok}
use text.Mathlib.TextEquality.{eq_iff}
use hestiva_os.Quotes.PostEvent.{
  FloorSize, from_300_up, unknown, PostEventFacts, resolve_post_event_cleaning,
  PostEventCleaningRequest,
}
use hestiva_os.Quotes.PostEvent.Laws.{automatic-IsPriced, IsAutomatic-iff}
use hestiva_os.Quotes.Submission.{
  Bedrooms, Bathrooms, LivingAreas, QuotePricingInput, truthy_service,
}
use hestiva_os.Quotes.CostModel.{
  CleanerHoursResolution, ready, needs_attention, matrix_hours, post_event_hours, component_hours,
  floor_cleaner_hours, hours_at, service_hours, resolve_approved_cleaner_hours,
  calculate_minimum_contribution_minor,
}

-- Where hours are ready, they lie between the two bounds.
abbrev pub HoursWithin : ℕ → ℕ → CleanerHoursResolution → Type 0
HoursWithin lo hi (ready h p) = (lo ≤ h) × (h ≤ hi)
HoursWithin lo hi (needs_attention r p) = Unit

post_event_hours_within :
    (size : FloorSize) (facts : Option PostEventFacts)
    → HoursWithin 8 51 (post_event_hours size facts)
unfolding post_event_hours
post_event_hours_within size none = tt
post_event_hours_within size (some facts) =
    ground (arith, automatic-IsPriced (record { floor_size = size; facts = facts }))

component_hours_within :
    (service : String) (q : QuotePricingInput) → HoursWithin 8 51 (component_hours service q)
unfolding component_hours
component_hours_within service q = ground arith

hours_at_within :
    (service : String) (size : FloorSize) {h : ℕ}
    → hours_at (floor_cleaner_hours service) size ≡ some h
    → (8 ≤ h) × (h ≤ 51)
unfolding floor_cleaner_hours
hours_at_within service size e = ground arith

matrix_hours_within :
    (service : String) (q : QuotePricingInput) (found : Option ℕ)
    → ((h : ℕ) → found ≡ some h → (8 ≤ h) × (h ≤ 51))
    → HoursWithin 8 51 (matrix_hours service q found)
unfolding matrix_hours
matrix_hours_within service q none k = component_hours_within service q
matrix_hours_within service q (some h) k = k h refl

service_hours_within :
    (service : String) (q : QuotePricingInput) → HoursWithin 8 51 (service_hours service q)
unfolding service_hours
service_hours_within service q = ground (
  arith,
  post_event_hours_within q.property.floor_size q.request.post_event,
  matrix_hours_within service q (hours_at (floor_cleaner_hours service) q.property.floor_size)
      (λ h e. hours_at_within service q.property.floor_size e),
)

-- Whatever the submission, cleaner-hours that are ready lie between 4 and 25.5 hours (8 and 51
-- halves).
cleaner_hours-HoursWithin :
    (q : QuotePricingInput) → HoursWithin 8 51 (resolve_approved_cleaner_hours q)
unfolding resolve_approved_cleaner_hours
cleaner_hours-HoursWithin q = elim (Option-cases (truthy_service q.request.canonical_service)) [
  | inl e ↦ rw (e, resolve_approved_cleaner_hours) tt
  | inr (service, e) ↦ rw (e, resolve_approved_cleaner_hours) (service_hours_within service q)
]

-- The facts that the hours of a service rest on are exact: no open-ended count, no open-ended or
-- unknown floor size.
abbrev pub RestsOnExactFacts : String → QuotePricingInput → Type 0
RestsOnExactFacts service q =
    (service ≡ "Bathroom Sanitisation" × (q.property.bathrooms ≢ Bathrooms.five_plus))
    ⊎ ((service ≡ "Bedroom Cleaning"
          × (q.property.bedrooms ≢ Bedrooms.five_plus)
          × (q.property.bedrooms ≢ Bedrooms.other))
        ⊎ ((service ≡ "Living Area Cleaning" × (q.property.living_areas ≢ LivingAreas.four_plus))
            ⊎ ((q.property.floor_size ≢ unknown) × (q.property.floor_size ≢ from_300_up))))

truthy_service-some : (o : Option String) {s : String} → truthy_service o ≡ some s → o ≡ some s
unfolding truthy_service
truthy_service-some none e = cc
truthy_service-some (some String.[]) e = cc
truthy_service-some (some (String.◌∷◌ c t)) e = e

post_event_exact :
    (size : FloorSize) (facts : Option PostEventFacts) {h : ℕ} {p : String}
    → post_event_hours size facts ≡ ready h p
    → (size ≢ unknown) × (size ≢ from_300_up)
unfolding post_event_hours
post_event_exact size none e = cc
post_event_exact size (some facts) e =
    let r : PostEventCleaningRequest = record { floor_size = size; facts = facts } in
    let automatic : (resolve_post_event_cleaning r).automatic_pricing_allowed ≡ true =
      ground arith in
    ((IsAutomatic-iff r).0 automatic).sized

component_exact :
    (service : String) (q : QuotePricingInput) {h : ℕ} {p : String}
    → component_hours service q ≡ ready h p
    → RestsOnExactFacts service q
unfolding component_hours
component_exact service q e = ground (
  arith,
  eq_iff service "Bathroom Sanitisation",
  eq_iff service "Bedroom Cleaning",
  eq_iff service "Living Area Cleaning",
)

matrix_exact :
    (service : String) (size : FloorSize) {h : ℕ}
    → hours_at (floor_cleaner_hours service) size ≡ some h
    → (size ≢ unknown) × (size ≢ from_300_up)
unfolding floor_cleaner_hours
matrix_exact service size e = (ground arith, ground arith)

matrix_hours_exact :
    (service : String) (q : QuotePricingInput) (found : Option ℕ) {h : ℕ} {p : String}
    → ((h : ℕ)
        → found ≡ some h
        → (q.property.floor_size ≢ unknown) × (q.property.floor_size ≢ from_300_up))
    → matrix_hours service q found ≡ ready h p
    → RestsOnExactFacts service q
unfolding matrix_hours
matrix_hours_exact service q none k e = component_exact service q e
matrix_hours_exact service q (some h) k e = inr (inr (inr (k h refl)))

service_hours_exact :
    (service : String) (q : QuotePricingInput) {h : ℕ} {p : String}
    → service_hours service q ≡ ready h p
    → RestsOnExactFacts service q
unfolding service_hours
service_hours_exact service q {h} {p} e = ground (
  arith,
  post_event_exact q.property.floor_size q.request.post_event {h = h} {p = p},
  matrix_hours_exact service q (hours_at (floor_cleaner_hours service) q.property.floor_size)
      {h = h} {p = p} (λ k f. matrix_exact service q.property.floor_size f),
)

-- Cleaner-hours are ready only for a named service whose facts are exact: they are never computed
-- from an unknown or open-ended (300 m² and up) floor size, nor from an open-ended room count.
cleaner_hours_exact :
    (q : QuotePricingInput) {h : ℕ} {p : String}
    → resolve_approved_cleaner_hours q ≡ ready h p
    → (service : String) × (q.request.canonical_service ≡ some service)
      × RestsOnExactFacts service q
unfolding resolve_approved_cleaner_hours
cleaner_hours_exact q {h} {p} e = elim (Option-cases (truthy_service q.request.canonical_service)) [
  | inl blank ↦ absurd (ground arith)
  | inr (service, named) ↦ (
    service,
    truthy_service-some q.request.canonical_service named,
    service_hours_exact service q {h = h} {p = p} (ground arith),
  )
]

-- The minimum contribution is the least amount that is at least 10 000 minor units and a quarter of
-- the cost, so that it makes up at least a fifth of the cost and contribution together.
minimum_contribution_least :
    (cost : ℕ)
    → (c : ℕ) × (calculate_minimum_contribution_minor (nat cost) ≡ ok c)
      × (10_000 ≤ c)
      × (cost + c ≤ 5 * c)
      × ((d : ℕ) → 10_000 ≤ d → cost ≤ 4 * d → c ≤ d)
unfolding calculate_minimum_contribution_minor
minimum_contribution_least cost = (_, refl, omega arith, omega arith, λ d h k. omega arith)
