-- ===== src/Quotes/PostEvent.antt =====
-- apps/api/src/quotes/post-event-cleaning-operating-model.ts. Every number of cleaner-hours there is
-- a multiple of a half: hours are counted in halves, so that `24` is 48 and an additional hour's
-- 10_000 minor units are 5_000 for a half.
pub mod Laws
pub mod Areas
use hestiva_os.Base.{
  ◌≡◌, ◌↔◌, arith, ℕ, ◌+◌, ◌-◌, ◌*◌, String, Bool, true, false, not, ◌&&◌, Option, none, some, List,
  [], ◌∷◌, ◌++◌, ltb, leb, if◌then◌else◌, is_some, when, is_empty, sum_by,
}
use hestiva_os.Base.Number.{Number, nat, is_integer_from}
use hestiva_os.Base.Eq.{Eq, dedupe}

pub data FloorSize : Type 0 where
  under_40 from_40_to_59 from_60_to_79 from_80_to_99 from_100_to_129 from_130_to_169 : FloorSize
  from_170_to_219 from_220_to_299 from_300_up unknown : FloorSize

pub data GuestBand : Type 0 where
  one_to_20 from_21_to_50 from_51_to_100 from_101_to_150 from_150_up : GuestBand

pub data Dishwashing : Type 0 where
  none_left moderate_dishes heavy_dishes : Dishwashing

pub data WasteLevel : Type 0 where
  light_waste moderate_waste heavy_waste : WasteLevel

pub data OutdoorArea : Type 0 where
  patio balcony braai_area garden_entertainment_area : OutdoorArea

abbrev pub same_area : OutdoorArea → OutdoorArea → Bool
same_area patio patio = true
same_area balcony balcony = true
same_area braai_area braai_area = true
same_area garden_entertainment_area garden_entertainment_area = true
same_area _ _ = false

pub same_area_iff : (a b : OutdoorArea) → (same_area a b ≡ true) ↔ (a ≡ b)
same_area_iff a b = ground arith

instance abbrev pub area_eq : Eq OutdoorArea
area_eq = record { beq = same_area; beq_iff = same_area_iff }

-- `PostEventQuoteFacts` adds an event and a venue type that the model does not read.
pub record PostEventFacts : Type 0 where
  pub guest_band : GuestBand
  pub bathrooms : Number
  pub kitchen_substantially_used : Bool
  pub dishwashing : Dishwashing
  pub outdoor_areas : List OutdoorArea
  pub waste_level : WasteLevel
  pub significant_ordinary_soiling : Bool
  pub late_night_or_overnight : Bool
  pub bulk_waste_removal_requested : Bool
  pub specialist_contamination : Bool
  pub specialist_carpet_or_upholstery : Bool
  pub complex_venue : Bool

pub record PostEventCleaningRequest : Type 0 where
  pub floor_size : FloorSize
  pub facts : PostEventFacts

pub data PostEventReviewCode : Type 0 where
  floor_size_required floor_size_review guest_count_review : PostEventReviewCode
  invalid_bathroom_count workload_ceiling_exceeded overnight_review : PostEventReviewCode
  bulk_waste_review specialist_contamination_review : PostEventReviewCode
  specialist_carpet_upholstery_review complex_venue_review : PostEventReviewCode

pub record PostEventReviewReason : Type 0 where
  pub code : PostEventReviewCode
  pub message : String

pub record ResolvedPostEventCleaning : Type 0 where
  pub base_half_hours : Option ℕ
  pub additional_half_hours : ℕ
  pub total_half_hours : Option ℕ
  pub base_price_minor : Option ℕ
  pub workload_adjustment_minor : ℕ
  pub preliminary_price_minor : Option ℕ
  pub review_reasons : List PostEventReviewReason
  pub automatic_pricing_allowed : Bool

pub record FloorBase : Type 0 where
  pub half_hours : ℕ
  pub price_minor : ℕ

abbrev half_hours_of : Option FloorBase → Option ℕ
half_hours_of none = none
half_hours_of (some b) = some b.half_hours

abbrev price_of : Option FloorBase → Option ℕ
price_of none = none
price_of (some b) = some b.price_minor

abbrev base : ℕ → ℕ → Option FloorBase
base h p = some (record { half_hours = h; price_minor = p })

-- `BASE_BY_FLOOR_SIZE`
unfoldable pub base_by_floor_size : FloorSize → Option FloorBase
base_by_floor_size under_40 = base 11 85_000
base_by_floor_size from_40_to_59 = base 13 95_000
base_by_floor_size from_60_to_79 = base 15 110_000
base_by_floor_size from_80_to_99 = base 17 125_000
base_by_floor_size from_100_to_129 = base 20 145_000
base_by_floor_size from_130_to_169 = base 24 165_000
base_by_floor_size from_170_to_219 = base 28 190_000
base_by_floor_size from_220_to_299 = base 33 220_000
base_by_floor_size from_300_up = none
base_by_floor_size unknown = none

-- `GUEST_HOURS`
unfoldable pub guest_half_hours : GuestBand → Option ℕ
guest_half_hours one_to_20 = some 0
guest_half_hours from_21_to_50 = some 4
guest_half_hours from_51_to_100 = some 8
guest_half_hours from_101_to_150 = some 14
guest_half_hours from_150_up = none

-- `OUTDOOR_HOURS`
abbrev pub outdoor_half_hours : OutdoorArea → ℕ
outdoor_half_hours garden_entertainment_area = 5
outdoor_half_hours patio = 3
outdoor_half_hours balcony = 3
outdoor_half_hours braai_area = 3

abbrev pub half_hour_price_minor : ℕ
half_hour_price_minor = 5_000

abbrev pub ceiling_half_hours : ℕ
ceiling_half_hours = 48

unfoldable pub bathroom_half_hours : Number → ℕ
bathroom_half_hours (nat n) = if ltb 1 n then (n - 1) * 3 else 0
bathroom_half_hours _ = 0

unfoldable pub dishwashing_half_hours : Dishwashing → ℕ
dishwashing_half_hours none_left = 0
dishwashing_half_hours moderate_dishes = 4
dishwashing_half_hours heavy_dishes = 8

unfoldable pub waste_half_hours : WasteLevel → ℕ
waste_half_hours light_waste = 0
waste_half_hours moderate_waste = 3
waste_half_hours heavy_waste = 6

abbrev or_zero : Option ℕ → ℕ
or_zero none = 0
or_zero (some h) = h

-- The loop over `new Set(request.outdoorAreas)`.
unfoldable pub outdoor_total : List OutdoorArea → ℕ
unfolding dedupe
outdoor_total areas = sum_by outdoor_half_hours (dedupe areas)

abbrev is_unknown : FloorSize → Bool
is_unknown unknown = true
is_unknown _ = false

abbrev is_from_300_up : FloorSize → Bool
is_from_300_up from_300_up = true
is_from_300_up _ = false

abbrev review : PostEventReviewCode → String → PostEventReviewReason
review c m = record { code = c; message = m }

-- `if (totalCleanerHours !== null && totalCleanerHours > …)`
abbrev exceeds_ceiling : Option ℕ → Bool
exceeds_ceiling none = false
exceeds_ceiling (some h) = ltb ceiling_half_hours h

unfoldable pub additional_half_hours : PostEventFacts → ℕ
unfolding guest_half_hours bathroom_half_hours dishwashing_half_hours waste_half_hours
additional_half_hours f =
    or_zero (guest_half_hours f.guest_band)
    + bathroom_half_hours f.bathrooms
    + (if f.kitchen_substantially_used then 4 else 0)
    + dishwashing_half_hours f.dishwashing
    + outdoor_total f.outdoor_areas
    + waste_half_hours f.waste_level
    + (if f.significant_ordinary_soiling then 4 else 0)

abbrev total_with : Option FloorBase → ℕ → Option ℕ
total_with none additional = none
total_with (some b) additional = some (b.half_hours + additional)

abbrev price_with : Option FloorBase → ℕ → Option ℕ
price_with none adjustment = none
price_with (some b) adjustment = some (b.price_minor + adjustment)

-- The reasons that the facts give before the hours are added up.
unfoldable pub fact_reasons : FloorSize → PostEventFacts → List PostEventReviewReason
unfolding guest_half_hours
fact_reasons size f =
    when (is_unknown size) (
      review floor_size_required
        "Floor size must be known before Post-Event Cleaning can be priced automatically.")
    ++ (when (is_from_300_up size) (
          review floor_size_review
            "Properties of 300 m² or more require deliberate Post-Event workload assessment.")
        ++ (when (not (is_some (guest_half_hours f.guest_band))) (
              review guest_count_review
                "Events with 150+ guests require deliberate workload assessment.")
            ++ when (not (is_integer_from 1 f.bathrooms)) (
                review invalid_bathroom_count
                  "Post-Event Cleaning requires an exact positive bathroom count.")))

-- The reasons that are independent of the workload, after the ceiling.
unfoldable pub exclusion_reasons : PostEventFacts → List PostEventReviewReason
exclusion_reasons f =
    when f.late_night_or_overnight (
      review overnight_review
        "Late-night or overnight Post-Event work requires staffing and commercial review.")
    ++ (when f.bulk_waste_removal_requested (
          review bulk_waste_review
            "Bulk or off-site waste removal is outside the automatic Post-Event pricing boundary.")
        ++ (when f.specialist_contamination (
              review specialist_contamination_review
                "Hazardous, biohazard or specialist contamination cannot be automatically priced as ordinary Post-Event Cleaning.")
            ++ (when f.specialist_carpet_or_upholstery (
                  review specialist_carpet_upholstery_review
                    "Specialist carpet or upholstery treatment requires separate review.")
                ++ when f.complex_venue (
                    review complex_venue_review
                      "Large or complex commercial/event venues require deliberate workload assessment."))))

unfoldable pub resolve_post_event_cleaning : PostEventCleaningRequest → ResolvedPostEventCleaning
unfolding base_by_floor_size fact_reasons exclusion_reasons
resolve_post_event_cleaning request =
    let base_row = base_by_floor_size request.floor_size in
    let additional = additional_half_hours request.facts in
    let total = total_with base_row additional in
    let adjustment = additional * half_hour_price_minor in
    let price = price_with base_row adjustment in
    let reasons =
      fact_reasons request.floor_size request.facts
      ++ (when (exceeds_ceiling total) (
            review workload_ceiling_exceeded
              "Calculated Post-Event workload exceeds the 24 cleaner-hour automatic-pricing ceiling.")
          ++ exclusion_reasons request.facts) in
    record {
      base_half_hours = half_hours_of base_row;
      additional_half_hours = additional;
      total_half_hours = total;
      base_price_minor = price_of base_row;
      workload_adjustment_minor = adjustment;
      preliminary_price_minor = price;
      review_reasons = reasons;
      automatic_pricing_allowed = is_empty reasons && is_some price;
    }
