-- ===== src/Messaging/Facts.antt =====
-- The validation of the draft that the flow calls: messagingQuoteIncompleteFactGroups of
-- apps/api/src/messaging/messaging-quote-draft-validation.ts reads the paths of the errors that
-- `validateQuoteBusinessFacts` finds.
pub mod Groups
pub mod Sections
pub mod Requests
pub mod Photos
pub mod Services
pub mod Payload
pub mod Accepted
pub mod Complete
use hestiva_os.Base.{String, List, map}
use hestiva_os.Base.Json.{Value}
use hestiva_os.Quotes.Contract.Platform.{Platform}
use hestiva_os.Quotes.Contract.BusinessFacts.{validate_quote_business_facts}

-- `validateQuoteBusinessFacts(draft)`, of which the flow reads the paths.
unfoldable pub fact_errors : Platform → Value → List String
fact_errors platform draft = map (λ e. e.path) (validate_quote_business_facts platform draft)
