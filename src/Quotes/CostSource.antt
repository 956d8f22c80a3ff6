-- ===== src/Quotes/CostSource.antt =====
-- apps/api/src/quotes/quote-operational-cost-source.ts: a candidate for the operational costs is
-- complete, or the missing and the invalid components are named. `undefined` and `null` are `none`.
pub mod Laws
use hestiva_os.Base.{
  Bool, true, false, not, ◌||◌, Option, none, some, String, List, [], ◌∷◌, if◌then◌else◌, is_empty,
}
use hestiva_os.Base.Number.{Number, is_integer_from, nat}
use hestiva_os.Quotes.Profitability.{QuoteOperationalCostSnapshot}

pub data QuoteOperationalCostComponent : Type 0 where
  labour deployment consumables : QuoteOperationalCostComponent
  equipment_vehicle_reserve overhead minimum_contribution : QuoteOperationalCostComponent

-- `QUOTE_OPERATIONAL_COST_COMPONENTS`
abbrev pub components : List QuoteOperationalCostComponent
components =
    labour ∷ deployment ∷ consumables ∷ equipment_vehicle_reserve ∷ overhead ∷ minimum_contribution
    ∷ []

-- `Partial<QuoteOperationalCostSnapshot>` with its provenance.
pub record QuoteOperationalCostCandidate : Type 0 where
  pub amount : QuoteOperationalCostComponent → Option Number
  pub provenance : QuoteOperationalCostComponent → Option String

pub data QuoteOperationalCostResolution : Type 0 where
  ready :
      QuoteOperationalCostSnapshot
      → (QuoteOperationalCostComponent → Option String)
      → QuoteOperationalCostResolution
  needs_attention :
      (missing invalid : List QuoteOperationalCostComponent)
      → (QuoteOperationalCostComponent → Option String)
      → QuoteOperationalCostResolution

unfoldable pub valid_minor_unit_amount : Number → Bool
valid_minor_unit_amount value = is_integer_from 0 value

-- `candidate?.[component]`
abbrev pub value_of :
    Option QuoteOperationalCostCandidate → QuoteOperationalCostComponent → Option Number
value_of none component = none
value_of (some c) component = c.amount component

abbrev provenance_of :
    Option QuoteOperationalCostCandidate → QuoteOperationalCostComponent → Option String
provenance_of none component = none
provenance_of (some c) component = c.provenance component

abbrev is_missing : Option Number → Bool
is_missing none = true
is_missing (some _) = false

unfoldable pub is_invalid : Option Number → Bool
unfolding valid_minor_unit_amount
is_invalid none = false
is_invalid (some n) = not (valid_minor_unit_amount n)

-- The members of a list that a test keeps, in their order.
unfoldable pub keep {ℓ} : {A : Type ℓ} → (A → Bool) → List A → List A
keep p [] = []
keep p (x ∷ xs) = if p x then x ∷ keep p xs else keep p xs

-- `candidate!.labourMinor!`, read after the checks; the zero is never reached.
abbrev or_zero : Option Number → Number
or_zero none = nat 0
or_zero (some n) = n

unfoldable pub validate_operational_cost_candidate :
    Option QuoteOperationalCostCandidate → QuoteOperationalCostResolution
unfolding is_invalid keep
validate_operational_cost_candidate candidate =
    let value = value_of candidate in
    let missing = keep (λ c. is_missing (value c)) components in
    let invalid = keep (λ c. is_invalid (value c)) components in
    if not (is_empty missing) || not (is_empty invalid)
    then needs_attention missing invalid (provenance_of candidate)
    else ready
        (record {
          labour_minor = or_zero (value labour);
          deployment_minor = or_zero (value deployment);
          consumables_minor = or_zero (value consumables);
          equipment_vehicle_reserve_minor = or_zero (value equipment_vehicle_reserve);
          overhead_minor = or_zero (value overhead);
          minimum_contribution_minor = or_zero (value minimum_contribution);
        })
        (provenance_of candidate)
