-- ===== src/Quotes/Profitability/Laws.antt =====
-- The profitability floor: the total covers the costs and is the least multiple of ten rand to do so.
use hestiva_os.Base.{◌≡◌, refl, arith, ℕ, ◌+◌, ◌*◌, ◌%◌, ◌≤◌, ◌<◌, sym, ◌∙◌}
use hestiva_os.Base.Number.{Number, nat}
use hestiva_os.Base.Result.{ok, ok-injective}
use hestiva_os.Quotes.Profitability.{
  QuoteOperationalCostSnapshot, QuoteProfitabilityResult, apply_quote_profitability_floor,
}

-- The amounts of a snapshot that passes the checks.
pub record Amounts : Type 0 where
  pub labour : ℕ
  pub deployment : ℕ
  pub consumables : ℕ
  pub reserve : ℕ
  pub overhead : ℕ
  pub contribution : ℕ

abbrev pub snapshot_of : Amounts → QuoteOperationalCostSnapshot
snapshot_of a = record {
  labour_minor = nat a.labour;
  deployment_minor = nat a.deployment;
  consumables_minor = nat a.consumables;
  equipment_vehicle_reserve_minor = nat a.reserve;
  overhead_minor = nat a.overhead;
  minimum_contribution_minor = nat a.contribution;
}

abbrev pub costs_of : Amounts → ℕ
costs_of a = a.labour + a.deployment + a.consumables + a.reserve + a.overhead

-- The result covers subtotal and costs, by the least multiple of 1 000 that does.
pub record IsFloored (subtotal : ℕ) (a : Amounts) (r : QuoteProfitabilityResult) : Type 0 where
  pub covers_subtotal : subtotal ≤ r.final_total_minor
  pub covers_costs : costs_of a + a.contribution ≤ r.final_total_minor
  pub whole_ten_rand : r.final_total_minor % 1_000 ≡ 0
  pub adds_up :
      r.final_total_minor
      ≡ subtotal + r.profitability_adjustment_minor + r.rounding_adjustment_minor
  pub rounded_less : r.rounding_adjustment_minor < 1_000
  pub least :
      (tens : ℕ)
      → subtotal ≤ tens * 1_000
      → costs_of a + a.contribution ≤ tens * 1_000
      → r.final_total_minor ≤ tens * 1_000

-- On amounts that are non-negative integers the floor succeeds: the final total covers the catalogue
-- subtotal and all costs with the minimum contribution, is the least multiple of 1 000 minor units to
-- do so, and is the subtotal plus the two adjustments, of which the rounding is below 1 000.
pub apply_floor_total :
    (subtotal : ℕ) (a : Amounts)
    → (r : QuoteProfitabilityResult) × (apply_quote_profitability_floor
          (nat subtotal)
          (snapshot_of a)
        ≡ ok r)
      × IsFloored subtotal a r
unfolding apply_quote_profitability_floor
apply_floor_total subtotal a = (
  _,
  refl,
  record {
    covers_subtotal = ground arith;
    covers_costs = ground arith;
    whole_ten_rand = ground arith;
    adds_up = ground arith;
    rounded_less = ground arith;
    least = λ tens h k. ground arith;
  },
)

-- The number that a check lets through.
abbrev amount : Number → ℕ
amount (nat n) = n
amount _ = 0

abbrev pub amounts_of : QuoteOperationalCostSnapshot → Amounts
amounts_of c = record {
  labour = amount c.labour_minor;
  deployment = amount c.deployment_minor;
  consumables = amount c.consumables_minor;
  reserve = amount c.equipment_vehicle_reserve_minor;
  overhead = amount c.overhead_minor;
  contribution = amount c.minimum_contribution_minor;
}

-- If the floor succeeds at all, the catalogue subtotal and each of the six cost amounts were
-- non-negative integers: nothing is computed from a missing, negative or fractional amount.
apply_floor_checked :
    (catalogue : Number) (c : QuoteOperationalCostSnapshot) {r : QuoteProfitabilityResult}
    → apply_quote_profitability_floor catalogue c ≡ ok r
    → (catalogue ≡ nat r.catalogue_subtotal_minor) × (c ≡ snapshot_of (amounts_of c))
unfolding apply_quote_profitability_floor
apply_floor_checked catalogue c h = (ground arith, ground arith)

-- The result of the floor, whenever there is one.
pub apply_floor-IsFloored :
    (subtotal : ℕ) (c : QuoteOperationalCostSnapshot) {r : QuoteProfitabilityResult}
    → apply_quote_profitability_floor (nat subtotal) c ≡ ok r
    → IsFloored subtotal (amounts_of c) r
apply_floor-IsFloored subtotal c {r} h =
    let (_, same) = apply_floor_checked (nat subtotal) c h in
    let (s, e, floor) = apply_floor_total subtotal (amounts_of c) in
    let h' : apply_quote_profitability_floor (nat subtotal) (snapshot_of (amounts_of c)) ≡ ok r =
      rw same at h in
    rw (ok-injective (sym h' ∙ e)) floor
