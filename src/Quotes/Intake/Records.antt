-- ===== src/Quotes/Intake/Records.antt =====
-- The rows of a stored quote, by the schema of apps/api/prisma and the selections of
-- apps/api/src/quotes/website-quote-replay-resolution.ts. A line item keeps its place in its list.
use hestiva_os.Base.{ℕ, String, Option, List}
use hestiva_os.Base.Json.{Value}
use hestiva_os.Quotes.Pricing.{PricingSnapshot}

pub data QuoteStatus : Type 0 where
  submitted accepted declined expired needs_attention : QuoteStatus

pub data QuoteRevisionOrigin : Type 0 where
  customer_submission admin_revision : QuoteRevisionOrigin

pub data QuoteLineItemType : Type 0 where
  primary_service add_on adjustment : QuoteLineItemType

pub data QuotePhotoStatus : Type 0 where
  pending stored failed : QuotePhotoStatus

pub data QuoteActivityType : Type 0 where
  quote_submitted status_changed revision_created discount_changed price_changed : QuoteActivityType
  needs_attention_set needs_attention_cleared photo_added : QuoteActivityType
  photo_transfer_failed photo_transfer_recovered match_resolution_recorded : QuoteActivityType

pub record QuoteLineItem : Type 0 where
  pub type : QuoteLineItemType
  pub code : Option String
  pub label : String
  pub quantity : ℕ
  pub unit_amount_minor : ℕ
  pub line_total_minor : ℕ

pub record QuoteRevision : Type 0 where
  pub revision_number : ℕ
  pub origin : QuoteRevisionOrigin
  pub structured_data : Value
  pub currency : String
  pub subtotal_minor : ℕ
  pub total_minor : ℕ
  pub line_items : List QuoteLineItem

pub record QuoteActivity : Type 0 where
  pub type : QuoteActivityType
  pub new_status : Option QuoteStatus

pub record QuotePhoto : Type 0 where
  pub transfer_key : String
  pub status : QuotePhotoStatus
  pub original_file_name : String
  pub mime_type : String
  pub size_bytes : Option ℕ
  pub storage_path : Option String
  pub url : Option String
  pub failure_reason : Option String

pub record Quote : Type 0 where
  pub id : String
  pub reference : String
  pub status : QuoteStatus
  pub current_revision_number : ℕ
  -- milliseconds since the epoch
  pub valid_until : ℕ
  pub revisions : List QuoteRevision
  pub activities : List QuoteActivity
  pub photos : List QuotePhoto

-- What a replayed submission answers with.
pub record WebsiteQuoteReplayResponse : Type 0 where
  pub quote_status : QuoteStatus
  pub pricing : PricingSnapshot

pub data QuoteSubmissionReplayResolution : Type 0 where
  new_submission : QuoteSubmissionReplayResolution
  replay :
      (id reference : String) → Option WebsiteQuoteReplayResponse → QuoteSubmissionReplayResolution
  conflict : (id reference : String) → QuoteSubmissionReplayResolution
  corrupt_existing : (id reference : String) → QuoteSubmissionReplayResolution
