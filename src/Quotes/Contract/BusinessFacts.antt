-- ===== src/Quotes/Contract/BusinessFacts.antt =====
-- apps/api/src/quotes/quote-business-facts-validation.ts.
use hestiva_os.Base.{List}
use hestiva_os.Base.Eq.{string_eq}
use hestiva_os.Base.Json.{Value, string, object, Fields, no_field, field, put}
use hestiva_os.Quotes.Contract.Platform.{Platform}
use hestiva_os.Quotes.Contract.Fields.{WebsiteQuoteContractError}
use hestiva_os.Quotes.Contract.V2.{validate_website_quote_submission_v2}
use hestiva_os.Quotes.Contract.PostEventFacts.{record_fields}

-- `{ ...base, ...fields }`. The keys of an object differ, so the order of the writes is free.
unfoldable pub spread : Fields → Fields → Fields
unfolding put
spread base no_field = base
spread base (field key value rest) = put key value (spread base rest)

unfoldable pub validation_envelope : Fields → Fields
unfolding spread
validation_envelope facts =
    spread
      (field "schemaVersion" (string "2.0") (
        field "submissionId" (string "00000000-0000-4000-8000-000000000001") (
          field "source" (string "HESTIVA_WEBSITE")
            (field "submittedAt" (string "2026-01-01T00:00:00.000Z") no_field))))
      facts

unfoldable pub validate_quote_business_facts : Platform → Value → List WebsiteQuoteContractError
unfolding validate_website_quote_submission_v2 validation_envelope
validate_quote_business_facts platform payload =
    validate_website_quote_submission_v2 platform
      (object (validation_envelope (record_fields payload)))
