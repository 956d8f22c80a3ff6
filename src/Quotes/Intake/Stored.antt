-- ===== src/Quotes/Intake/Stored.antt =====
-- A stored quote gives back the price that it was made of: created_quote of
-- apps/api/src/quotes/quote-submission.service.ts against website-quote-replay-resolution.ts.
use hestiva_os.Base.{
  ◌≡◌, refl, arith, ℕ, String, Bool, true, false, not, some, List, [], ◌∷◌, ◌++◌, map, map, any,
  when, ltb, ap, ◌∙◌, All,
}
use hestiva_os.Base.Text.{◌===◌}
use hestiva_os.Base.Json.{Value}
use hestiva_os.Quotes.CostSource.{keep}
use hestiva_os.Quotes.Lines.{WebsiteQuotePricingLine}
use hestiva_os.Quotes.Pricing.{PricingSnapshot}
use hestiva_os.Quotes.Intake.Records.{
  QuoteStatus, QuoteLineItem, QuotePhoto, quote_submitted, needs_attention_set, photo_added, replay,
  conflict,
}
use hestiva_os.Quotes.Intake.Canonical.{Hashing, fingerprint}
use hestiva_os.Quotes.Intake.Replay.{
  is_adjustment, is_quote_submitted, has_no_code, pricing_line, total_from, submission_status,
  replayed_revision, resolve_website_quote_replay,
}
use hestiva_os.Quotes.Intake.Submit.{
  AuthoritativeQuoteSubmissionInput, stored_line, adjustment_item, stored_lines, is_needs_attention,
  activities_of, created_quote,
}
use hestiva_os.Quotes.Intake.Codes.{IsCoded}

priced : QuoteLineItem → Bool
priced item = not (is_adjustment item)

keep-lines :
    (ls : List WebsiteQuotePricingLine) (rest : List QuoteLineItem)
    → All IsCoded ls
    → keep priced (map stored_line ls ++ rest) ≡ map stored_line ls ++ keep priced rest
unfolding keep priced
keep-lines [] rest h = refl
keep-lines (l ∷ ls) rest (p, ps) = rw p (ap (λ xs. stored_line l ∷ xs) (keep-lines ls rest ps))

drop-lines :
    (ls : List WebsiteQuotePricingLine) (rest : List QuoteLineItem)
    → All IsCoded ls
    → keep is_adjustment (map stored_line ls ++ rest) ≡ keep is_adjustment rest
unfolding keep
drop-lines [] rest h = refl
drop-lines (l ∷ ls) rest (p, ps) = rw p (drop-lines ls rest ps)

any-lines : (ls : List WebsiteQuotePricingLine) → any has_no_code (map stored_line ls) ≡ false
unfolding stored_line
any-lines [] = refl
any-lines (l ∷ ls) = any-lines ls

map-lines : (ls : List WebsiteQuotePricingLine) → map pricing_line (map stored_line ls) ≡ ls
unfolding stored_line
map-lines [] = refl
map-lines (l ∷ ls) = ap (λ xs. l ∷ xs) (map-lines ls)

keep-adjustments : (amount : ℕ) → keep priced (when (ltb 0 amount) (adjustment_item amount)) ≡ []
unfolding keep priced
keep-adjustments amount = ground arith

total-adjustments :
    (amount : ℕ)
    → total_from 0 (keep is_adjustment (when (ltb 0 amount) (adjustment_item amount))) ≡ amount
unfolding keep
total-adjustments amount = ground arith

keep-photos :
    (status : QuoteStatus) (photos : List QuotePhoto)
    → keep is_quote_submitted
        (map (λ p. record { type = photo_added; new_status = some status }) photos)
      ≡ []
unfolding keep
keep-photos status [] = refl
keep-photos status (p ∷ ps) = keep-photos status ps

keep-flagged :
    (flagged : Bool) (status : QuoteStatus) (photos : List QuotePhoto)
    → keep is_quote_submitted (
        when flagged (record { type = needs_attention_set; new_status = some status })
        ++ map (λ p. record { type = photo_added; new_status = some status }) photos)
      ≡ []
unfolding keep
keep-flagged false status photos = keep-photos status photos
keep-flagged true status photos = keep-photos status photos

keep-activities :
    (status : QuoteStatus) (photos : List QuotePhoto)
    → keep is_quote_submitted (activities_of status photos)
      ≡ record { type = quote_submitted; new_status = some status } ∷ []
unfolding keep
keep-activities status photos = rw (keep-flagged (is_needs_attention status) status photos) refl

append-nil : (xs : List QuoteLineItem) → xs ++ [] ≡ xs
append-nil [] = refl
append-nil (x ∷ xs) = ap (λ ys. x ∷ ys) (append-nil xs)

stored-lines :
    (p : PricingSnapshot)
    → All IsCoded p.lines
    → keep priced (stored_lines p) ≡ map stored_line p.lines
unfolding stored_lines
stored-lines p h =
    keep-lines p.lines (when (ltb 0 p.adjustments_minor) (adjustment_item p.adjustments_minor)) h
    ∙ ap (λ xs. map stored_line p.lines ++ xs) (keep-adjustments p.adjustments_minor)
    ∙ append-nil (map stored_line p.lines)

stored-adjustments :
    (p : PricingSnapshot)
    → All IsCoded p.lines
    → total_from 0 (keep is_adjustment (stored_lines p)) ≡ p.adjustments_minor
unfolding stored_lines
stored-adjustments p h =
    ap (total_from 0) (
      drop-lines p.lines (when (ltb 0 p.adjustments_minor) (adjustment_item p.adjustments_minor)) h)
    ∙ total-adjustments p.adjustments_minor

module _ (h : Hashing) (payload : Value) (input : AuthoritativeQuoteSubmissionInput) where
  -- The quote that a submission creates answers a payload of the same fingerprint with its price.
  pub created-replays :
      (id reference : String) (status : QuoteStatus) (p : PricingSnapshot)
      → submission_status (some status) ≡ some status
      → fingerprint h payload === fingerprint h input.structured_data ≡ true
      → All IsCoded p.lines
      → resolve_website_quote_replay h payload (some (created_quote input id reference status p))
        ≡ replay id reference (some (record { quote_status = status; pricing = p }))
  unfolding resolve_website_quote_replay created_quote keep replayed_revision priced
  created-replays id reference status p settled same coded =
      rw
        (
          keep-activities status input.photos,
          same,
          settled,
          stored-lines p coded,
          any-lines p.lines,
          map-lines p.lines,
          stored-adjustments p coded,
        )
        refl

  -- A payload of another fingerprint conflicts with it.
  pub created-conflicts :
      (id reference : String) (status : QuoteStatus) (p : PricingSnapshot)
      → (fingerprint h payload === fingerprint h input.structured_data) ≡ false
      → resolve_website_quote_replay h payload (some (created_quote input id reference status p))
        ≡ conflict id reference
  unfolding resolve_website_quote_replay created_quote keep
  created-conflicts id reference status p differs =
      rw (keep-activities status input.photos, differs) refl
