-- ===== src/Quotes/CostSource/Laws.antt =====
-- A cost resolution fails closed, and a complete one meets the checks of the profitability floor.
use hestiva_os.Base.{◌≡◌, ◌↔◌, arith, ℕ, Option, none, some, String}
use hestiva_os.Base.Number.{Number, nat}
use hestiva_os.Base.Result.{ok}
use hestiva_os.Quotes.Profitability.{
  QuoteOperationalCostSnapshot, QuoteProfitabilityResult, apply_quote_profitability_floor,
}
use hestiva_os.Quotes.Profitability.Laws.{snapshot_of, Amounts, IsFloored, apply_floor_total}
use hestiva_os.Quotes.CostSource.{
  QuoteOperationalCostComponent, QuoteOperationalCostCandidate, ready, value_of,
  validate_operational_cost_candidate, labour, deployment, consumables, equipment_vehicle_reserve,
  overhead, minimum_contribution,
}

abbrev pub amount_in : Amounts → QuoteOperationalCostComponent → ℕ
amount_in a labour = a.labour
amount_in a deployment = a.deployment
amount_in a consumables = a.consumables
amount_in a equipment_vehicle_reserve = a.reserve
amount_in a overhead = a.overhead
amount_in a minimum_contribution = a.contribution

complete-ready :
    (c : Option QuoteOperationalCostCandidate) (a : Amounts)
    → ((k : QuoteOperationalCostComponent) → value_of c k ≡ some (nat (amount_in a k)))
    → (p : QuoteOperationalCostComponent → Option String) × (validate_operational_cost_candidate c
        ≡ ready (snapshot_of a) p)
unfolding validate_operational_cost_candidate
complete-ready none a h = cc (h labour)
complete-ready (some c) a h = (
  c.provenance,
  ground (
    arith,
    h labour,
    h deployment,
    h consumables,
    h equipment_vehicle_reserve,
    h overhead,
    h minimum_contribution,
  ),
)

-- The amount that a candidate gives, where it gives a non-negative integer.
abbrev given : Option Number → ℕ
given (some (nat n)) = n
given _ = 0

abbrev pub given_amounts : Option QuoteOperationalCostCandidate → Amounts
given_amounts c = record {
  labour = given (value_of c labour);
  deployment = given (value_of c deployment);
  consumables = given (value_of c consumables);
  reserve = given (value_of c equipment_vehicle_reserve);
  overhead = given (value_of c overhead);
  contribution = given (value_of c minimum_contribution);
}

ready-given :
    (c : Option QuoteOperationalCostCandidate) {costs : QuoteOperationalCostSnapshot}
    {p : QuoteOperationalCostComponent → Option String}
    → validate_operational_cost_candidate c ≡ ready costs p
    → (k : QuoteOperationalCostComponent)
    → value_of c k ≡ some (nat (amount_in (given_amounts c) k))
unfolding validate_operational_cost_candidate
ready-given none h k = cc
ready-given (some c) h labour = ground arith
ready-given (some c) h deployment = ground arith
ready-given (some c) h consumables = ground arith
ready-given (some c) h equipment_vehicle_reserve = ground arith
ready-given (some c) h overhead = ground arith
ready-given (some c) h minimum_contribution = ground arith

ready-snapshot :
    (c : Option QuoteOperationalCostCandidate) {costs : QuoteOperationalCostSnapshot}
    {p : QuoteOperationalCostComponent → Option String}
    → validate_operational_cost_candidate c ≡ ready costs p
    → costs ≡ snapshot_of (given_amounts c)
ready-snapshot c h = let (q, same) = complete-ready c (given_amounts c) (ready-given c h) in cc

-- A candidate is accepted exactly when it gives each of the six components as a non-negative
-- integer; with a missing, negative or fractional component it is refused.
pub ready_iff :
    (c : Option QuoteOperationalCostCandidate)
    → ((costs : QuoteOperationalCostSnapshot) × (p : QuoteOperationalCostComponent → Option String)
        × (validate_operational_cost_candidate c ≡ ready costs p))
      ↔ ((a : Amounts) × ((k : QuoteOperationalCostComponent)
            → value_of c k ≡ some (nat (amount_in a k))))
ready_iff c = (
  λ (costs, p, h). (given_amounts c, ready-given c h),
  λ (a, h). let (p, e) = complete-ready c a h in (snapshot_of a, p, e),
)

-- Costs that the validation accepts never make the profitability floor throw: it returns a total
-- that covers the subtotal and the candidate's own amounts.
pub ready-apply_floor :
    (c : Option QuoteOperationalCostCandidate) (subtotal : ℕ) {costs : QuoteOperationalCostSnapshot}
    {p : QuoteOperationalCostComponent → Option String}
    → validate_operational_cost_candidate c ≡ ready costs p
    → (r : QuoteProfitabilityResult) × (apply_quote_profitability_floor (nat subtotal) costs ≡ ok r)
      × IsFloored subtotal (given_amounts c) r
ready-apply_floor c subtotal h =
    rw (ready-snapshot c h) (apply_floor_total subtotal (given_amounts c))
