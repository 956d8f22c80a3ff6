-- ===== src/Quotes/Review/Rows.antt =====
-- The row of a quote as apps/api/src/quotes/quote-review.service.ts decides on it, with the checks
-- that its operations share. Activities stand newest first.
use hestiva_os.Base.{
  ℕ, ◌==◌, String, Bool, true, false, Option, none, some, List, if◌then◌else◌, leb,
}
use hestiva_os.Base.Number.{Number, nat, minus, non_integer}
use hestiva_os.Base.Text.{◌===◌}
use hestiva_os.Base.Result.{Result, ok, err}
use hestiva_os.Quotes.Intake.Records.{QuoteStatus, QuoteActivityType}

pub data QuoteEntityResolution : Type 0 where
  use_existing create_new : QuoteEntityResolution

pub record ReviewActivity : Type 0 where
  pub type : QuoteActivityType
  pub new_status : Option QuoteStatus
  pub actor_user_id : String
  pub note : Option String
  -- `metadata.expectedRevisionNumber`
  pub expected_revision_number : Option ℕ

pub record ReviewedQuote : Type 0 where
  pub status : QuoteStatus
  pub current_revision_number : ℕ
  pub customer_resolution : Option QuoteEntityResolution
  pub property_resolution : Option QuoteEntityResolution
  pub customer_id : Option String
  pub property_id : Option String
  pub resolution_revision_number : Option ℕ
  pub accepted_at : Option ℕ
  pub accepted_revision_id : Option String
  pub work_order_id : Option String
  pub recurring_agreement_id : Option String
  pub declined_at : Option ℕ
  pub declined_by_user_id : Option String
  pub activities : List ReviewActivity

-- The quotes under their ids.
abbrev pub ReviewedQuotes : Type 0
ReviewedQuotes = String → Option ReviewedQuote

pub data ReviewError : Type 0 where
  revision_invalid actor_required reason_too_long quote_not_found stale_revision : ReviewError
  different_decision not_declinable has_operational_state changed_concurrently : ReviewError
  decision_invalid id_mismatch different_resolution customer_missing property_missing : ReviewError
  property_of_other new_customer_existing_property : ReviewError

-- `validateExpectedRevision`: a positive integer.
unfoldable pub validate_expected_revision : Number → Result ReviewError ℕ
validate_expected_revision (nat n) = if leb 1 n then ok n else err revision_invalid
validate_expected_revision (minus _) = err revision_invalid
validate_expected_revision non_integer = err revision_invalid

abbrev pub same_number : Option ℕ → ℕ → Bool
same_number none n = false
same_number (some m) n = m == n

abbrev pub same_id : Option String → Option String → Bool
same_id none none = true
same_id (some a) (some b) = a === b
same_id _ _ = false

abbrev pub found_quote : Option ReviewedQuote → Result ReviewError ReviewedQuote
found_quote none = err quote_not_found
found_quote (some q) = ok q

-- A row that is written, or one that stays as it was read.
pub data Decision : Type 0 where
  stays : Decision
  becomes : ReviewedQuote → Decision

abbrev pub decided : String → ReviewedQuotes → Decision → ReviewedQuotes
decided id t stays = t
decided id t (becomes q) = λ k. if k === id then some q else t k

abbrev pub after : ReviewedQuote → Decision → ReviewedQuote
after q stays = q
after q (becomes r) = r
