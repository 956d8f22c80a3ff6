-- ===== src/Quotes/Laundry/Laws.antt =====
-- Which laundry requests are accepted, and what an accepted one costs.
use hestiva_os.Base.{◌≡◌, ◌↔◌, ◌⊎◌, arith, ℕ, ◌*◌, ◌≤◌, true, Option, none, some, [], String}
use hestiva_os.Base.Number.{Number, nat}
use text.Mathlib.TextEquality.{eq_iff}
use hestiva_os.Quotes.Laundry.{
  LaundryRequest, LaundryOutcome, LaundryFacilities, washer_dryer, washer_line, wash_dry_fold,
  wash_hang, resolve_laundry_request, ResolvedLaundryRequest, is_laundry_eligible_primary,
}

-- A primary service that laundry can be added to.
abbrev pub IsEligible : Option String → Type 0
IsEligible none = ⊥
IsEligible (some s) = (s ≡ "Regular Home Cleaning") ⊎ (s ≡ "Deep Cleaning")

abbrev pub IsQuantity : Number → Type 0
IsQuantity (nat k) = 1 ≤ k
IsQuantity _ = ⊥

abbrev pub HasWasher : Option LaundryFacilities → Type 0
HasWasher (some washer_dryer) = Unit
HasWasher (some washer_line) = Unit
HasWasher _ = ⊥

-- Loads of a kind are asked for only with an eligible service and as a positive integer.
abbrev pub AskedFor : Option String → Option Number → Type 0
AskedFor service none = Unit
AskedFor service (some n) = IsEligible service × IsQuantity n

abbrev pub WasherFor : Option LaundryFacilities → Option Number → Type 0
WasherFor facilities none = Unit
WasherFor facilities (some _) = HasWasher facilities

pub record IsAcceptable (r : LaundryRequest) : Type 0 where
  pub laundry : AskedFor r.primary_service r.laundry_loads
  pub washer : WasherFor r.facilities r.laundry_loads
  pub ironing : AskedFor r.primary_service r.ironing_loads

eligible→IsEligible : (s : Option String) → is_laundry_eligible_primary s ≡ true → IsEligible s
unfolding is_laundry_eligible_primary
eligible→IsEligible none h = cc
eligible→IsEligible (some s) h =
    ground (arith, eq_iff s "Regular Home Cleaning", eq_iff s "Deep Cleaning")

IsEligible→eligible : (s : Option String) → IsEligible s → is_laundry_eligible_primary s ≡ true
unfolding is_laundry_eligible_primary
IsEligible→eligible none h = absurd h
IsEligible→eligible (some s) h =
    ground (arith, eq_iff s "Regular Home Cleaning", eq_iff s "Deep Cleaning")

accepted→IsAcceptable :
    (r : LaundryRequest) → (resolve_laundry_request r).errors ≡ [] → IsAcceptable r
unfolding resolve_laundry_request
accepted→IsAcceptable r h = record {
  laundry = ground (arith, eligible→IsEligible r.primary_service);
  washer = ground arith;
  ironing = ground (arith, eligible→IsEligible r.primary_service);
}

IsAcceptable→accepted :
    (r : LaundryRequest) → IsAcceptable r → (resolve_laundry_request r).errors ≡ []
unfolding resolve_laundry_request
IsAcceptable→accepted r a = ground (arith, IsEligible→eligible r.primary_service)

-- A laundry request has no error exactly when loads are asked for only beside Regular Home
-- Cleaning or Deep Cleaning, as positive integers, and laundry only where there is a washer.
pub laundry_errors_iff :
    (r : LaundryRequest) → ((resolve_laundry_request r).errors ≡ []) ↔ IsAcceptable r
laundry_errors_iff r = (accepted→IsAcceptable r, IsAcceptable→accepted r)

-- The price of an outcome, and the outcome that the facilities allow.
abbrev pub outcome_price : Option LaundryOutcome → ℕ
outcome_price none = 0
outcome_price (some wash_dry_fold) = 17_500
outcome_price (some wash_hang) = 12_500

-- Amounts are unit prices times loads, and there is an outcome exactly when laundry was asked for.
pub record IsCharged (r : LaundryRequest) (res : ResolvedLaundryRequest) : Type 0 where
  pub laundry_amount :
      res.requested_laundry_amount_minor ≡ outcome_price res.outcome * res.laundry_loads
  pub ironing_amount : res.requested_ironing_amount_minor ≡ 15_000 * res.ironing_loads
  pub loads_asked : (1 ≤ res.laundry_loads) ↔ ((n : Number) × (r.laundry_loads ≡ some n))
  pub ironing_asked : (1 ≤ res.ironing_loads) ↔ ((n : Number) × (r.ironing_loads ≡ some n))
  pub outcome_known : (res.outcome ≡ none) ↔ (r.laundry_loads ≡ none)

-- An accepted request is charged the unit price of its outcome for each load of laundry and 15 000
-- for each load of ironing; loads are at least one exactly for what was asked, and an outcome is
-- there exactly when laundry was asked for.
accepted-IsCharged :
    (r : LaundryRequest)
    → (resolve_laundry_request r).errors ≡ []
    → IsCharged r (resolve_laundry_request r).resolved
unfolding resolve_laundry_request
accepted-IsCharged r h = record {
  laundry_amount = ground arith;
  ironing_amount = ground arith;
  loads_asked = (λ k. ground arith, λ k. ground arith);
  ironing_asked = (λ k. ground arith, λ k. ground arith);
  outcome_known = (λ k. ground arith, λ k. ground arith);
}
