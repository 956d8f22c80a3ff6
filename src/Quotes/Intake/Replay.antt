-- ===== src/Quotes/Intake/Replay.antt =====
-- apps/api/src/quotes/website-quote-replay-resolution.ts and
-- apps/api/src/messaging/messaging-quote-replay-resolution.ts, on the quote that is stored under the
-- submission key. Of two rows at most that a query takes, there is one if the query finds just one.
use hestiva_os.Base.{
  ℕ, ◌+◌, String, Bool, true, false, not, ◌||◌, Option, none, some, List, [], ◌∷◌, map, any,
  if◌then◌else◌,
}
use hestiva_os.Base.Text.{◌===◌}
use hestiva_os.Base.Json.{Value}
use hestiva_os.Quotes.Lines.{WebsiteQuotePricingLine}
use hestiva_os.Quotes.CostSource.{keep}
use hestiva_os.Quotes.Intake.Records.{
  QuoteStatus, submitted, needs_attention, QuoteRevisionOrigin, customer_submission, admin_revision,
  QuoteLineItemType, adjustment, QuoteActivityType, quote_submitted, QuoteLineItem, QuoteRevision,
  QuoteActivity, Quote, QuoteSubmissionReplayResolution, new_submission, replay, conflict,
  corrupt_existing,
}
use hestiva_os.Quotes.Intake.Canonical.{Hashing, fingerprint}

abbrev pub is_customer_submission : QuoteRevision → Bool
is_customer_submission r = test r.origin
  where
    test : QuoteRevisionOrigin → Bool
    test customer_submission = true
    test admin_revision = false

abbrev pub is_quote_submitted : QuoteActivity → Bool
is_quote_submitted a = test a.type
  where
    test : QuoteActivityType → Bool
    test quote_submitted = true
    test _ = false

abbrev pub exactly_one {ℓ} : {A : Type ℓ} → List A → Option A
exactly_one (a ∷ []) = some a
exactly_one _ = none

abbrev pub is_adjustment : QuoteLineItem → Bool
is_adjustment item = test item.type
  where
    test : QuoteLineItemType → Bool
    test adjustment = true
    test _ = false

-- `submittedStatus`, where it is one of the two that a submission has.
abbrev pub submission_status : Option QuoteStatus → Option QuoteStatus
submission_status (some submitted) = some submitted
submission_status (some needs_attention) = some needs_attention
submission_status _ = none

abbrev pub has_no_code : QuoteLineItem → Bool
has_no_code item = test item.code
  where
    test : Option String → Bool
    test none = true
    test (some _) = false

-- `item.code!`
abbrev pub code_of : Option String → String
code_of none = ""
code_of (some c) = c

abbrev pub pricing_line : QuoteLineItem → WebsiteQuotePricingLine
pricing_line item = record {
  code = code_of item.code;
  label = item.label;
  quantity = item.quantity;
  unit_amount_minor = item.unit_amount_minor;
  line_amount_minor = item.line_total_minor;
}

-- `reduce((sum, item) => sum + item.lineTotalMinor, 0)`
abbrev pub total_from : ℕ → List QuoteLineItem → ℕ
total_from sum [] = sum
total_from sum (item ∷ items) = total_from (sum + item.line_total_minor) items

unfoldable pub replayed_revision :
    Quote → QuoteRevision → Option QuoteStatus → QuoteSubmissionReplayResolution
unfolding keep
replayed_revision q r none = corrupt_existing q.id q.reference
replayed_revision q r (some status) =
    let pricing_items = keep (λ item. not (is_adjustment item)) r.line_items in
    if not (r.currency === "ZAR") || any has_no_code pricing_items
    then corrupt_existing q.id q.reference
    else replay q.id q.reference (
        some (record {
          quote_status = status;
          pricing = record {
            subtotal_minor = r.subtotal_minor;
            adjustments_minor = total_from 0 (keep is_adjustment r.line_items);
            total_minor = r.total_minor;
            lines = map pricing_line pricing_items;
          };
        }))

module _ (h : Hashing) (payload : Value) where
  abbrev pub website_revision :
      Quote → Option QuoteRevision → Option QuoteActivity → QuoteSubmissionReplayResolution
  website_revision q (some r) (some a) =
      if fingerprint h payload === fingerprint h r.structured_data
      then replayed_revision q r (submission_status a.new_status)
      else conflict q.id q.reference
  website_revision q _ _ = corrupt_existing q.id q.reference

  unfoldable pub resolve_website_quote_replay : Option Quote → QuoteSubmissionReplayResolution
  unfolding keep
  resolve_website_quote_replay none = new_submission
  resolve_website_quote_replay (some q) =
      website_revision q (exactly_one (keep is_customer_submission q.revisions))
        (exactly_one (keep is_quote_submitted q.activities))

  abbrev pub messaging_revision : Quote → Option QuoteRevision → QuoteSubmissionReplayResolution
  messaging_revision q none = corrupt_existing q.id q.reference
  messaging_revision q (some r) =
      if fingerprint h r.structured_data === fingerprint h payload
      then replay q.id q.reference none
      else conflict q.id q.reference

  unfoldable pub resolve_messaging_quote_replay : Option Quote → QuoteSubmissionReplayResolution
  unfolding keep
  resolve_messaging_quote_replay none = new_submission
  resolve_messaging_quote_replay (some q) =
      messaging_revision q (exactly_one (keep is_customer_submission q.revisions))
