-- ===== src/Quotes/Profitability.antt =====
-- apps/api/src/quotes/quote-profitability.ts. An amount arrives as a JavaScript number and is
-- checked at run time; sums are exact, as they are for amounts below 2^53.
pub mod Laws
use hestiva_os.Base.{ℕ, ◌+◌, ◌-◌, ◌*◌, ◌/◌, String}
use hestiva_os.Base.Number.{Number, nat}
use hestiva_os.Base.Result.{Result, ok, err, ◌>>=◌}
use Prim.Native.Nat.{max}

pub record QuoteOperationalCostSnapshot : Type 0 where
  pub labour_minor : Number
  pub deployment_minor : Number
  pub consumables_minor : Number
  pub equipment_vehicle_reserve_minor : Number
  pub overhead_minor : Number
  pub minimum_contribution_minor : Number

pub record QuoteProfitabilityResult : Type 0 where
  pub cost_total_minor : ℕ
  pub required_minimum_minor : ℕ
  pub catalogue_subtotal_minor : ℕ
  pub profitability_adjustment_minor : ℕ
  pub pre_rounding_total_minor : ℕ
  pub rounding_adjustment_minor : ℕ
  pub final_total_minor : ℕ

-- The error that names the amount which is no non-negative integer.
pub data AmountError : Type 0 where
  not_minor_units : String → AmountError

-- `assertNonNegativeInteger`, which hands on the integer.
unfoldable pub assert_non_negative_integer : String → Number → Result AmountError ℕ
assert_non_negative_integer name (nat n) = ok n
assert_non_negative_integer name _ = err (not_minor_units name)

-- `Math.ceil(valueMinor / 1_000) * 1_000` on an amount that has been checked.
unfoldable pub round_up_to_ten_rand : ℕ → ℕ
round_up_to_ten_rand value = (value + 999) / 1_000 * 1_000

unfoldable pub round_up_to_next_ten_rand_minor : Number → Result AmountError ℕ
unfolding assert_non_negative_integer round_up_to_ten_rand
round_up_to_next_ten_rand_minor value = do
  v ← assert_non_negative_integer "valueMinor" value
  ok (round_up_to_ten_rand v)

abbrev floor_result : ℕ → ℕ → ℕ → ℕ → QuoteProfitabilityResult
floor_result subtotal cost required final =
    let adjustment = max 0 (required - subtotal) in
    record {
      cost_total_minor = cost;
      required_minimum_minor = required;
      catalogue_subtotal_minor = subtotal;
      profitability_adjustment_minor = adjustment;
      pre_rounding_total_minor = subtotal + adjustment;
      rounding_adjustment_minor = final - (subtotal + adjustment);
      final_total_minor = final;
    }

-- `Object.entries(costs)` visits the amounts in the order of the record.
unfoldable pub apply_quote_profitability_floor :
    Number → QuoteOperationalCostSnapshot → Result AmountError QuoteProfitabilityResult
unfolding assert_non_negative_integer round_up_to_next_ten_rand_minor
apply_quote_profitability_floor catalogue costs = do
  subtotal ← assert_non_negative_integer "catalogueSubtotalMinor" catalogue
  labour ← assert_non_negative_integer "labourMinor" costs.labour_minor
  deployment ← assert_non_negative_integer "deploymentMinor" costs.deployment_minor
  consumables ← assert_non_negative_integer "consumablesMinor" costs.consumables_minor
  reserve ←
      assert_non_negative_integer "equipmentVehicleReserveMinor"
        costs.equipment_vehicle_reserve_minor
  overhead ← assert_non_negative_integer "overheadMinor" costs.overhead_minor
  contribution ←
      assert_non_negative_integer "minimumContributionMinor" costs.minimum_contribution_minor
  let cost = labour + deployment + consumables + reserve + overhead
  let required = cost + contribution
  final ← round_up_to_next_ten_rand_minor (nat (subtotal + max 0 (required - subtotal)))
  ok (floor_result subtotal cost required final)
