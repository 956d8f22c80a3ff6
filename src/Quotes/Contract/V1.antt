-- ===== src/Quotes/Contract/V1.antt =====
-- `validateWebsiteQuoteSubmissionV1` of apps/api/src/quotes/website-quote-contract.ts.
use hestiva_os.Base.{String, Bool, false, not, ◌&&◌, List, [], ◌∷◌, ◌++◌, when}
use hestiva_os.Base.Text.{◌===◌, ends_with}
use hestiva_os.Base.Number.{Number, non_integer}
use hestiva_os.Base.Eq.{string_eq}
use hestiva_os.Base.Pattern.{matches, uuid_pattern}
use hestiva_os.Base.Json.{Value, object, Fields, get}
use hestiva_os.Quotes.Contract.Platform.{Platform}
use hestiva_os.Quotes.Contract.Fields.{
  WebsiteQuoteContractError, error, required_string, fails, is_string,
}
use hestiva_os.Quotes.Contract.Customer.{customer_errors}
use hestiva_os.Quotes.Contract.Property.{property_errors}
use hestiva_os.Quotes.Contract.Request.{request_errors}
use hestiva_os.Quotes.Contract.Visit.{
  visit_errors, access_errors, household_errors, safety_errors, notes_errors,
}
use hestiva_os.Quotes.Contract.Photos.{photos_errors}

module _ (platform : Platform) where
  -- `Number.isFinite(parsed) && new Date(parsed).toISOString() === value`
  abbrev pub is_printed_as : String → Number → Bool
  is_printed_as value non_integer = false
  is_printed_as value parsed = platform.to_iso parsed === value

  abbrev pub is_iso_utc : String → Bool
  is_iso_utc value = ends_with "Z" value && is_printed_as value (platform.parse_date value)

  -- The checks of the transport's own fields.
  unfoldable pub envelope_errors : Fields → List WebsiteQuoteContractError
  unfolding get required_string matches
  envelope_errors payload =
      let submission_id = required_string payload "submissionId" "submissionId" in
      let submitted_at = required_string payload "submittedAt" "submittedAt" in
      when (not (is_string "1.0" (get "schemaVersion" payload)))
        (error "schemaVersion" "UNSUPPORTED_VERSION" "Unsupported website quote schema version.")
      ++ when (not (is_string "HESTIVA_WEBSITE" (get "source" payload)))
          (error "source" "INVALID_SOURCE" "Invalid quote submission source.")
      ++ submission_id.errors
      ++ submitted_at.errors
      ++ when (fails submission_id.value (λ s. not (matches uuid_pattern s)))
          (error "submissionId" "INVALID_UUID" "Submission ID must be a UUID.")
      ++ when (fails submitted_at.value (λ s. not (is_iso_utc s)))
          (error "submittedAt" "INVALID_TIMESTAMP" "Submitted time must be canonical ISO-8601 UTC.")

  unfoldable pub submission_errors : Fields → List WebsiteQuoteContractError
  unfolding envelope_errors customer_errors property_errors request_errors visit_errors
      access_errors household_errors safety_errors notes_errors photos_errors
  submission_errors payload =
      envelope_errors payload
      ++ customer_errors payload
      ++ property_errors payload
      ++ request_errors platform payload
      ++ visit_errors platform payload
      ++ access_errors payload
      ++ household_errors payload
      ++ safety_errors payload
      ++ notes_errors payload
      ++ photos_errors platform payload

  unfoldable pub validate_website_quote_submission_v1 : Value → List WebsiteQuoteContractError
  unfolding submission_errors
  validate_website_quote_submission_v1 (object payload) = submission_errors payload
  validate_website_quote_submission_v1 _ =
      error "$" "INVALID_OBJECT" "Website Quote submission must be a JSON object." ∷ []
