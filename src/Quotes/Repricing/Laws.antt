-- ===== src/Quotes/Repricing/Laws.antt =====
-- What an Admin review of the add-ons does to a price.
use hestiva_os.Base.{
  ◌≡◌, ◌≢◌, ◌⊎◌, ◌↔◌, append-eq-nil_left, append-eq-nil_right, refl, arith, ℕ, suc, ◌+◌, Option,
  none, some, List, [], ◌∷◌, ◌++◌, inl, inr, sym, ◌∙◌, All-append, length,
}
use text.Mathlib.TextEquality.{eq_iff}
use hestiva_os.Base.Result.{ok, ok-injective, >>=-eq-ok}
use hestiva_os.Quotes.Profitability.{QuoteOperationalCostSnapshot}
use hestiva_os.Quotes.Submission.{AddOnInput}
use hestiva_os.Quotes.CostSource.{keep}
use hestiva_os.Quotes.Lines.{AttentionReason, line}
use hestiva_os.Quotes.Pricing.{
  WebsiteQuotePricingResult, price_submission, calculate_website_quote_pricing,
}
use hestiva_os.Quotes.Pricing.Totals.{
  IsLine, HasLines, IsBalanced, CoversCosts, with_totals-IsBalanced, price_submission-HasLines,
}
use hestiva_os.Quotes.Repricing.{
  AdminAddOnReviewDetail, ReviewedSubmission, reviewed_add_on, pushed_of, review_add_ons,
  price_reviewed, calculate_admin_reviewed_quote_pricing, is_kept, larger_multi_car, detail_or_none,
}

-- Each add-on gives one line or one reason.
review_add_ons_count :
    (i : ℕ) (asked : List AddOnInput) (details : ℕ → Option AdminAddOnReviewDetail)
    → let p = review_add_ons i asked details in length p.lines + length p.reasons ≡ length asked
unfolding review_add_ons
review_add_ons_count i [] details = refl
review_add_ons_count i (a ∷ rest) details =
    ground (arith, review_add_ons_count (suc i) rest details)

reviewed_add_on-HasLines :
    (i : ℕ) (a : AddOnInput) (d : Option AdminAddOnReviewDetail)
    → HasLines (pushed_of (reviewed_add_on i a d))
unfolding reviewed_add_on line
reviewed_add_on-HasLines i a d = ground arith

review_add_ons-HasLines :
    (i : ℕ) (asked : List AddOnInput) (details : ℕ → Option AdminAddOnReviewDetail)
    → HasLines (review_add_ons i asked details)
unfolding review_add_ons
review_add_ons-HasLines i [] details = tt
review_add_ons-HasLines i (a ∷ rest) details =
    All-append IsLine _ _ (reviewed_add_on-HasLines i a (details i))
      (review_add_ons-HasLines (suc i) rest details)

-- The reviewed price as the base price and the review of the add-ons.
price_reviewed_lem :
    (s : ReviewedSubmission)
    → (rs : List AttentionReason) × (price_reviewed s
        ≡ ok (record {
          lines =
              (price_submission s.submission).lines
              ++ (review_add_ons 0 s.submission.request.add_ons s.admin_add_ons).lines;
          reasons =
              keep is_kept rs
              ++ (review_add_ons 0 s.submission.request.add_ons s.admin_add_ons).reasons;
        }))
unfolding price_reviewed calculate_website_quote_pricing
price_reviewed_lem s = (_, refl)

-- A reviewed price is balanced and covers its costs as a base price does: each line's amount is its
-- quantity of units, the subtotal is the sum of the lines, and the total is subtotal plus adjustments.
pub reviewed-IsBalanced :
    (s : ReviewedSubmission) (costs : Option QuoteOperationalCostSnapshot)
    {r : WebsiteQuotePricingResult}
    → calculate_admin_reviewed_quote_pricing s costs ≡ ok r
    → IsBalanced r.pricing × CoversCosts costs r.pricing
unfolding calculate_admin_reviewed_quote_pricing
reviewed-IsBalanced s costs e =
    let (rs, price) = price_reviewed_lem s in
    let (reviewed, found, same) = >>=-eq-ok (price_reviewed s) _ e in
    let equal = ok-injective (sym price ∙ found) in
    with_totals-IsBalanced _ reviewed costs
      (rw (← equal) (
        All-append IsLine _ _ (price_submission-HasLines s.submission)
          (review_add_ons-HasLines 0 s.submission.request.add_ons s.admin_add_ons)))
      same

-- The Admin has given what the add-on's own rule needs.
abbrev pub IsPriceable : AddOnInput → AdminAddOnReviewDetail → Type 0
IsPriceable a d =
    (a.canonical_service ≡ "Pet-Hair Treatment")
    ⊎ (((a.canonical_service ≡ "Inside Oven Cleaning") × (d.oven_size ≢ none))
        ⊎ (((a.canonical_service ≡ "Garage Sweeping")
              × (d.garage_size ≢ none)
              × (d.garage_size ≢ some larger_multi_car))
            ⊎ ((a.canonical_service ≡ "Extra Bathroom Cleaning") × (d.bathroom_type ≢ none))))

abbrev pub AllPriceable : ℕ → List AddOnInput → (ℕ → Option AdminAddOnReviewDetail) → Type 0
AllPriceable i [] details = Unit
AllPriceable i (a ∷ rest) details =
    IsPriceable a (detail_or_none (details i)) × AllPriceable (suc i) rest details

priced→IsPriceable :
    (i : ℕ) (a : AddOnInput) (d : Option AdminAddOnReviewDetail)
    → (pushed_of (reviewed_add_on i a d)).reasons ≡ []
    → IsPriceable a (detail_or_none d)
unfolding reviewed_add_on
priced→IsPriceable i a d e = ground (
  arith,
  eq_iff a.canonical_service "Pet-Hair Treatment",
  eq_iff a.canonical_service "Inside Oven Cleaning",
  eq_iff a.canonical_service "Garage Sweeping",
  eq_iff a.canonical_service "Extra Bathroom Cleaning",
)

IsPriceable→priced :
    (i : ℕ) (a : AddOnInput) (d : Option AdminAddOnReviewDetail)
    → IsPriceable a (detail_or_none d)
    → (pushed_of (reviewed_add_on i a d)).reasons ≡ []
unfolding reviewed_add_on
IsPriceable→priced i a d (inl e) = rw (e, reviewed_add_on) refl
IsPriceable→priced i a d (inr (inl (e, h))) = rw (e, reviewed_add_on) (ground arith)
IsPriceable→priced i a d (inr (inr (inl (e, h, k)))) = rw (e, reviewed_add_on) (ground arith)
IsPriceable→priced i a d (inr (inr (inr (e, h)))) = rw (e, reviewed_add_on) (ground arith)

complete→AllPriceable :
    (i : ℕ) (asked : List AddOnInput) (details : ℕ → Option AdminAddOnReviewDetail)
    → (review_add_ons i asked details).reasons ≡ []
    → AllPriceable i asked details
unfolding review_add_ons
complete→AllPriceable i [] details e = tt
complete→AllPriceable i (a ∷ rest) details e = (
  priced→IsPriceable i a (details i) (append-eq-nil_left _ _ e),
  complete→AllPriceable (suc i) rest details (append-eq-nil_right _ _ e),
)

AllPriceable→complete :
    (i : ℕ) (asked : List AddOnInput) (details : ℕ → Option AdminAddOnReviewDetail)
    → AllPriceable i asked details
    → (review_add_ons i asked details).reasons ≡ []
unfolding review_add_ons
AllPriceable→complete i [] details h = refl
AllPriceable→complete i (a ∷ rest) details (p, h) =
    rw (IsPriceable→priced i a (details i) p) (AllPriceable→complete (suc i) rest details h)

-- The review of the add-ons gives one line or one reason for each of them, and gives no reason
-- exactly when every add-on is of one of the four priced kinds with the detail that its kind needs.
pub review_add_ons_complete :
    (i : ℕ) (asked : List AddOnInput) (details : ℕ → Option AdminAddOnReviewDetail)
    → let p = review_add_ons i asked details in
      (length p.lines + length p.reasons ≡ length asked)
      × ((p.reasons ≡ []) ↔ AllPriceable i asked details)
review_add_ons_complete i asked details = (
  review_add_ons_count i asked details,
  (complete→AllPriceable i asked details, AllPriceable→complete i asked details),
)
