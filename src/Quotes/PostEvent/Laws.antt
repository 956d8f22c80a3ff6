-- ===== src/Quotes/PostEvent/Laws.antt =====
-- When the post-event model prices a request on its own, and what the price then is.
use hestiva_os.Base.{◌≡◌, ◌≢◌, ◌↔◌, arith, ℕ, ◌≤◌, true, false, Option, none, some, List, []}
use hestiva_os.Base.Number.{nat}
use hestiva_os.Base.Eq.{contains}
use hestiva_os.Quotes.PostEvent.{
  FloorSize, unknown, from_300_up, from_150_up, PostEventFacts, PostEventCleaningRequest,
  additional_half_hours, outdoor_total, OutdoorArea, patio, balcony, braai_area, area_eq,
  garden_entertainment_area, resolve_post_event_cleaning, ResolvedPostEventCleaning,
}
use hestiva_os.Quotes.PostEvent.Areas.{outdoor_total_lem}

-- The amount is there, and lies between the two bounds.
abbrev pub Between : ℕ → ℕ → Option ℕ → Type 0
Between lo hi none = ⊥
Between lo hi (some x) = (lo ≤ x) × (x ≤ hi)

-- The request is inside the boundary of automatic pricing.
pub record IsAutomatic (r : PostEventCleaningRequest) : Type 0 where
  pub sized : (r.floor_size ≢ unknown) × (r.floor_size ≢ from_300_up)
  pub guests : r.facts.guest_band ≢ from_150_up
  pub bathrooms : (n : ℕ) × (r.facts.bathrooms ≡ nat n) × (1 ≤ n)
  pub daytime : r.facts.late_night_or_overnight ≡ false
  pub no_bulk_waste : r.facts.bulk_waste_removal_requested ≡ false
  pub no_contamination : r.facts.specialist_contamination ≡ false
  pub no_upholstery : r.facts.specialist_carpet_or_upholstery ≡ false
  pub plain_venue : r.facts.complex_venue ≡ false
  pub in_ceiling : Between 0 48 (resolve_post_event_cleaning r).total_half_hours

automatic→IsAutomatic :
    (r : PostEventCleaningRequest)
    → (resolve_post_event_cleaning r).automatic_pricing_allowed ≡ true
    → IsAutomatic r
unfolding resolve_post_event_cleaning
automatic→IsAutomatic r h = record {
  sized = (ground arith, ground arith);
  guests = ground arith;
  bathrooms = ground arith;
  daytime = ground arith;
  no_bulk_waste = ground arith;
  no_contamination = ground arith;
  no_upholstery = ground arith;
  plain_venue = ground arith;
  in_ceiling = ground arith;
}

IsAutomatic→automatic :
    (r : PostEventCleaningRequest)
    → IsAutomatic r
    → (resolve_post_event_cleaning r).automatic_pricing_allowed ≡ true
unfolding resolve_post_event_cleaning
IsAutomatic→automatic r a = ground (arith, a.bathrooms.1, a.bathrooms.2)

-- A post-event request is priced automatically exactly when its floor size is known and below
-- 300 m², it has at most 150 guests, an exact bathroom count of one or more, none of the five
-- excluded circumstances, and at most 24 cleaner-hours (48 halves) of work.
pub IsAutomatic-iff :
    (r : PostEventCleaningRequest)
    → ((resolve_post_event_cleaning r).automatic_pricing_allowed ≡ true) ↔ IsAutomatic r
IsAutomatic-iff r = (automatic→IsAutomatic r, IsAutomatic→automatic r)

-- Between 5.5 and 24 cleaner-hours, no reason to review, and a price in the range of the model.
pub record IsPriced (res : ResolvedPostEventCleaning) : Type 0 where
  pub hours_between : Between 11 48 res.total_half_hours
  pub price_between : Between 85_000 295_000 res.preliminary_price_minor
  pub no_reasons : res.review_reasons ≡ []

-- An automatic price comes with no review reason, with between 5.5 and 24 cleaner-hours (11 and 48
-- halves), and lies between 85 000 and 295 000 minor units.
pub automatic-IsPriced :
    (r : PostEventCleaningRequest)
    → (resolve_post_event_cleaning r).automatic_pricing_allowed ≡ true
    → IsPriced (resolve_post_event_cleaning r)
unfolding resolve_post_event_cleaning
automatic-IsPriced r h = record {
  hours_between = ground arith;
  price_between = ground arith;
  no_reasons = ground arith;
}

additional-same_areas :
    (f : PostEventFacts) (areas : List OutdoorArea)
    → ((a : OutdoorArea) → contains f.outdoor_areas a ≡ contains areas a)
    → additional_half_hours f ≡ additional_half_hours (record f { outdoor_areas = areas })
unfolding additional_half_hours
additional-same_areas f areas same =
    let equal : outdoor_total f.outdoor_areas ≡ outdoor_total areas =
      rw (outdoor_total_lem f.outdoor_areas, outdoor_total_lem areas)
        (ground
          (arith, same patio, same balcony, same braai_area, same garden_entertainment_area)) in
    rw equal

-- The workload and the price do not depend on the order of the outdoor areas or on how often one is
-- named: two requests that differ in nothing but lists naming the same areas are resolved alike.
pub resolve-same_areas :
    (size : FloorSize) (f : PostEventFacts) (areas : List OutdoorArea)
    → ((a : OutdoorArea) → contains f.outdoor_areas a ≡ contains areas a)
    → resolve_post_event_cleaning (record { floor_size = size; facts = f })
      ≡ resolve_post_event_cleaning
          (record { floor_size = size; facts = record f { outdoor_areas = areas } })
unfolding resolve_post_event_cleaning
resolve-same_areas size f areas same = rw (additional-same_areas f areas same)
