-- ===== src/Quotes/Repricing.antt =====
-- apps/api/src/quotes/quote-admin-repricing.ts. `adminReview.addOns`, a record keyed by the add-on's
-- index as text, is a function of the index.
pub mod Laws
use hestiva_os.Base.{
  ℕ, suc, ◌+◌, String, Bool, true, false, not, ◌||◌, ◌&&◌, Option, none, some, List, [], ◌∷◌, ◌++◌,
  if◌then◌else◌,
}
use hestiva_os.Base.Text.{◌<+>◌, ◌===◌}
use hestiva_os.Base.Result.{Result, ok, ◌>>=◌}
use hestiva_os.Quotes.Profitability.{QuoteOperationalCostSnapshot, AmountError}
use hestiva_os.Quotes.CostSource.{keep}
use hestiva_os.Quotes.Submission.{QuotePricingInput, AddOnInput}
use hestiva_os.Quotes.Lines.{
  WebsiteQuotePricingLine, AttentionReason, AttentionPath, at_add_on, attention, line, Pushed,
  pushed, ◌⊕◌,
}
use hestiva_os.Quotes.Pricing.{
  calculate_website_quote_pricing, with_totals, WebsiteQuotePricingResult,
}

pub data OvenSize : Type 0 where
  standard_single large_double : OvenSize

pub data GarageSize : Type 0 where
  single double larger_multi_car : GarageSize

pub data BathroomType : Type 0 where
  standard large_master : BathroomType

pub record AdminAddOnReviewDetail : Type 0 where
  pub oven_size : Option OvenSize
  pub severe_baked_on_grease : Option Bool
  pub garage_size : Option GarageSize
  pub bathroom_type : Option BathroomType

pub record ReviewedSubmission : Type 0 where
  pub submission : QuotePricingInput
  pub admin_add_ons : ℕ → Option AdminAddOnReviewDetail

-- A line, or the reason why there is none.
pub data ReviewedAddOn : Type 0 where
  priced : WebsiteQuotePricingLine → ReviewedAddOn
  needs : AttentionReason → ReviewedAddOn

abbrev quantity_of : Option ℕ → ℕ
quantity_of none = 1
quantity_of (some n) = n

abbrev detail_required : ℕ → String → ReviewedAddOn
detail_required i message = needs (attention "ADD_ON_DETAIL_REQUIRED" (at_add_on i) message)

abbrev is_severe : Option Bool → Bool
is_severe none = false
is_severe (some b) = b

oven_base : OvenSize → ℕ
oven_base large_double = 50_000
oven_base standard_single = 35_000

oven_line : ℕ → ℕ → Option OvenSize → Bool → ReviewedAddOn
unfolding oven_base
oven_line i quantity none severe =
    detail_required i "Choose whether the oven is standard/single or large/double."
oven_line i quantity (some size) severe = priced (
    line "ADDON_INSIDE_OVEN"
      (if severe then "Inside Oven Cleaning — severe baked-on grease" else "Inside Oven Cleaning")
      quantity (oven_base size + (if severe then 15_000 else 0)))

garage_line : ℕ → ℕ → Option GarageSize → ReviewedAddOn
garage_line i quantity none = detail_required i "Choose the garage size before pricing this add-on."
garage_line i quantity (some larger_multi_car) = needs (
    attention "ADD_ON_ASSESSMENT_REQUIRED" (at_add_on i)
      "Larger or multi-car garages require an assessment before final pricing.")
garage_line i quantity (some double) =
    priced (line "ADDON_GARAGE_CLEANING" "Garage Cleaning" quantity 40_000)
garage_line i quantity (some single) =
    priced (line "ADDON_GARAGE_CLEANING" "Garage Cleaning" quantity 25_000)

bathroom_line : ℕ → ℕ → Option BathroomType → ReviewedAddOn
bathroom_line i quantity none =
    detail_required i "Choose whether the extra bathroom is standard or large/master."
bathroom_line i quantity (some large_master) =
    priced (line "ADDON_EXTRA_BATHROOM" "Extra Bathroom Cleaning" quantity 30_000)
bathroom_line i quantity (some standard) =
    priced (line "ADDON_EXTRA_BATHROOM" "Extra Bathroom Cleaning" quantity 20_000)

-- `detail?.…` of an absent detail is undefined.
abbrev no_detail : AdminAddOnReviewDetail
no_detail = record {
  oven_size = none;
  severe_baked_on_grease = none;
  garage_size = none;
  bathroom_type = none;
}

abbrev detail_or_none : Option AdminAddOnReviewDetail → AdminAddOnReviewDetail
detail_or_none none = no_detail
detail_or_none (some d) = d

unfoldable pub reviewed_add_on : ℕ → AddOnInput → Option AdminAddOnReviewDetail → ReviewedAddOn
unfolding oven_line garage_line bathroom_line
reviewed_add_on i a review =
    let quantity = quantity_of a.quantity in
    let detail = detail_or_none review in
    if a.canonical_service === "Pet-Hair Treatment"
    then priced (line "ADDON_PET_HAIR_TREATMENT" "Pet-Hair Treatment" quantity 15_000)
    else if a.canonical_service === "Inside Oven Cleaning"
    then oven_line i quantity detail.oven_size (is_severe detail.severe_baked_on_grease)
    else if a.canonical_service === "Garage Sweeping"
    then garage_line i quantity detail.garage_size
    else if a.canonical_service === "Extra Bathroom Cleaning"
    then bathroom_line i quantity detail.bathroom_type
    else detail_required i (
        a.canonical_service
        <+> " still requires a reviewed canonical pricing rule or additional scope detail.")

abbrev pushed_of : ReviewedAddOn → Pushed
pushed_of (priced l) = pushed (l ∷ []) []
pushed_of (needs r) = pushed [] (r ∷ [])

-- The loop over the add-ons, from index `i` on.
unfoldable pub review_add_ons : ℕ → List AddOnInput → (ℕ → Option AdminAddOnReviewDetail) → Pushed
review_add_ons i [] details = pushed [] []
review_add_ons i (a ∷ rest) details =
    pushed_of (reviewed_add_on i a (details i)) ⊕ review_add_ons (suc i) rest details

-- The reasons of the base pricing that stay.
abbrev pub is_kept : AttentionReason → Bool
is_kept r =
    not (r.code === "BREAK_EVEN_REVIEW_REQUIRED") && not (r.code === "ADD_ON_DETAIL_REQUIRED")

-- The base pricing runs without costs; its break-even reason is among those that are filtered out.
unfoldable pub price_reviewed : ReviewedSubmission → Result AmountError Pushed
price_reviewed s = do
  base ← calculate_website_quote_pricing s.submission none
  ok (
      pushed base.pricing.lines (keep is_kept base.attention_reasons)
      ⊕ review_add_ons 0 s.submission.request.add_ons s.admin_add_ons)

unfoldable pub calculate_admin_reviewed_quote_pricing :
    ReviewedSubmission
    → Option QuoteOperationalCostSnapshot
    → Result AmountError WebsiteQuotePricingResult
unfolding with_totals
calculate_admin_reviewed_quote_pricing s costs = do
  reviewed ← price_reviewed s
  with_totals
      "Universal break-even protection still needs the approved operational cost inputs before the customer price can be finalised."
      reviewed costs
