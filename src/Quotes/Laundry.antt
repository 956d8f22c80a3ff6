-- ===== src/Quotes/Laundry.antt =====
-- apps/api/src/quotes/laundry-operating-model.ts. `undefined` is `none`.
pub mod Laws
use hestiva_os.Base.{
  ℕ, ◌*◌, String, Bool, true, false, not, ◌&&◌, ◌||◌, Option, none, some, List, ◌++◌, if◌then◌else◌,
  is_some, when,
}
use hestiva_os.Base.Text.{◌===◌}
use hestiva_os.Base.Number.{Number, nat, is_integer_from}

pub data LaundryFacilities : Type 0 where
  washer_dryer washer_line no_washer : LaundryFacilities

pub data LaundryOutcome : Type 0 where
  wash_dry_fold wash_hang : LaundryOutcome

-- `LAUNDRY_PRICE_MINOR`
abbrev pub wash_dry_fold_minor : ℕ
wash_dry_fold_minor = 17_500

abbrev pub wash_hang_minor : ℕ
wash_hang_minor = 12_500

abbrev pub ironing_minor : ℕ
ironing_minor = 15_000

pub record LaundryRequest : Type 0 where
  pub primary_service : Option String
  pub facilities : Option LaundryFacilities
  pub laundry_loads : Option Number
  pub ironing_loads : Option Number

pub data LaundryErrorPath : Type 0 where
  primary_service_path facilities_path laundry_loads_path ironing_loads_path : LaundryErrorPath

pub data LaundryErrorCode : Type 0 where
  ineligible_primary_service facilities_required no_washer_error : LaundryErrorCode
  invalid_load_quantity : LaundryErrorCode

pub record LaundryRequestError : Type 0 where
  pub path : LaundryErrorPath
  pub code : LaundryErrorCode
  pub message : String

pub record ResolvedLaundryRequest : Type 0 where
  pub outcome : Option LaundryOutcome
  pub laundry_loads : ℕ
  pub ironing_loads : ℕ
  pub laundry_unit_amount_minor : Option ℕ
  pub ironing_unit_amount_minor : Option ℕ
  pub requested_laundry_amount_minor : ℕ
  pub requested_ironing_amount_minor : ℕ

pub record LaundryResolution : Type 0 where
  pub errors : List LaundryRequestError
  pub resolved : ResolvedLaundryRequest

abbrev error : LaundryErrorPath → LaundryErrorCode → String → LaundryRequestError
error p c m = record { path = p; code = c; message = m }

unfoldable pub is_laundry_eligible_primary : Option String → Bool
is_laundry_eligible_primary none = false
is_laundry_eligible_primary (some s) = s === "Regular Home Cleaning" || s === "Deep Cleaning"

abbrev pub valid_load_quantity : Option Number → Bool
valid_load_quantity none = false
valid_load_quantity (some n) = is_integer_from 1 n

-- `validLoadQuantity(value) ? value : 0`
abbrev pub loads_or_zero : Option Number → ℕ
loads_or_zero (some (nat n)) = n
loads_or_zero _ = 0

abbrev has_no_washer : Option LaundryFacilities → Bool
has_no_washer (some no_washer) = true
has_no_washer _ = false

unfoldable pub laundry_errors : LaundryRequest → List LaundryRequestError
unfolding is_laundry_eligible_primary
laundry_errors r =
    let wants_laundry = is_some r.laundry_loads in
    let wants_ironing = is_some r.ironing_loads in
    when ((wants_laundry || wants_ironing) && not (is_laundry_eligible_primary r.primary_service)) (
      error primary_service_path ineligible_primary_service
        "Laundry and ironing require Regular Home Cleaning or Deep Cleaning.")
    ++ (when (wants_laundry && not (is_some r.facilities)) (
          error facilities_path facilities_required
            "Laundry facilities are required when laundry is requested.")
        ++ (when (wants_laundry && has_no_washer r.facilities) (
              error facilities_path no_washer_error
                "Laundry is unavailable without a working washing machine at the property.")
            ++ (when (wants_laundry && not (valid_load_quantity r.laundry_loads)) (
                  error laundry_loads_path invalid_load_quantity
                    "Laundry load quantity must be a positive integer.")
                ++ when (wants_ironing && not (valid_load_quantity r.ironing_loads)) (
                    error ironing_loads_path invalid_load_quantity
                      "Ironing load quantity must be a positive integer."))))

unfoldable pub laundry_outcome : Bool → Option LaundryFacilities → Option LaundryOutcome
laundry_outcome true (some washer_dryer) = some wash_dry_fold
laundry_outcome true (some washer_line) = some wash_hang
laundry_outcome _ _ = none

unfoldable pub laundry_unit : Bool → Option LaundryFacilities → Option ℕ
laundry_unit true (some washer_dryer) = some wash_dry_fold_minor
laundry_unit true (some washer_line) = some wash_hang_minor
laundry_unit _ _ = none

abbrev amount_of : Option ℕ → ℕ → ℕ
amount_of none loads = 0
amount_of (some unit) loads = unit * loads

unfoldable pub resolve_laundry_request : LaundryRequest → LaundryResolution
unfolding laundry_errors laundry_outcome laundry_unit
resolve_laundry_request r =
    let wants_laundry = is_some r.laundry_loads in
    let wants_ironing = is_some r.ironing_loads in
    let unit = laundry_unit wants_laundry r.facilities in
    let laundry =
      if valid_load_quantity r.laundry_loads then loads_or_zero r.laundry_loads else 0 in
    let ironing =
      if valid_load_quantity r.ironing_loads then loads_or_zero r.ironing_loads else 0 in
    record {
      errors = laundry_errors r;
      resolved = record {
        outcome = laundry_outcome wants_laundry r.facilities;
        laundry_loads = laundry;
        ironing_loads = ironing;
        laundry_unit_amount_minor = unit;
        ironing_unit_amount_minor = if wants_ironing then some ironing_minor else none;
        requested_laundry_amount_minor = amount_of unit laundry;
        requested_ironing_amount_minor = if wants_ironing then ironing_minor * ironing else 0;
      };
    }
