-- ===== src/Lib.antt =====
-- Hestiva OS, the operations system of a cleaning company: the decision logic of its API.
--
-- The API (apps/api/src) takes quote requests from a website and from messaging conversations, prices
-- them, turns accepted quotes into work orders, and watches the work orders for conditions that need
-- a person. The parts modelled here are pure policies and state transitions; services of the API call
-- them inside database transactions.
--
-- Base holds the shared types: lists, tests, texts with JavaScript's `trim` and `length`, numbers as
-- the source tests them (`Number`), JSON values (Json), the regular expressions of the source
-- (Pattern), and `Result` for code that throws.
--
-- Quotes models apps/api/src/quotes.
--   Submission: the facts of a submission that pricing reads (website-quote-contract.ts and -v2.ts).
--   PostEvent: `resolvePostEventCleaning` (post-event-cleaning-operating-model.ts).
--   Laundry: `resolveLaundryRequest` (laundry-operating-model.ts).
--   Profitability: `applyQuoteProfitabilityFloor` (quote-profitability.ts).
--   CostSource: `validateOperationalCostCandidate` (quote-operational-cost-source.ts).
--   CostModel: cleaner-hours and cost components (approved-quote-cost-model.ts).
--   Lines, Primary, Rooms, Pricing: `calculateWebsiteQuotePricing` (website-quote-pricing.ts), which
--   calls PostEvent, Laundry and Profitability.
--   Repricing: `calculateAdminReviewedQuotePricing` (quote-admin-repricing.ts), which calls Pricing.
--   Contract: the validation of a submission as JSON: V1 (website-quote-contract.ts) with a module
--   for each section, V2 (website-quote-contract-v2.ts), which calls V1, PostEventFacts
--   (post-event-cleaning-quote-facts.ts) and Laundry, and BusinessFacts
--   (quote-business-facts-validation.ts), which calls V2. Platform is what they call of Node.
--   Intake: the submission of a quote (quote-submission.service.ts) on tables of quotes and of the
--   numbers of a day: Records are its rows, Canonical the fingerprint of a payload
--   (website-quote-idempotency.ts), Replay what a stored quote answers
--   (website-quote-replay-resolution.ts, apps/api/src/messaging/messaging-quote-replay-resolution.ts)
--   and Submit the transaction, which calls CostSource, Pricing and Replay.
--   Review: `decline` (Decline) and `recordResolution` (Resolve) of quote-review.service.ts on a table
--   of quotes, and the matches of quote-match-resolution.ts (Match); Steps makes the decisions the
--   steps of a run.
--
-- Messaging models apps/api/src/messaging.
--   Draft: `mergeProgressValue` (messaging-quote-state.ts).
--   Flow: the phase of a conversation (messaging-quote-flow.ts, messaging-quote-draft-validation.ts).
--   Facts: that phase with the validation of a draft by Quotes.Contract.BusinessFacts.
--   State: the transitions of the persisted state (messaging-quote-state.ts); State.Steps makes them
--   the commands of a machine, as messaging-quote-state.service.ts issues them.
--   Snapshot: the stored form of the state and its reading (messaging-quote-state.ts).
--   Store: `transition` of messaging-quote-state.service.ts on the table of conversations, with the
--   version of the state and of the conversation's control.
--   Service: the operations of messaging-quote-state.service.ts, which call Store.
--   Identity: `resolveCustomerMessagingIdentity` (customer-identity-resolution.ts).
--
-- WorkOrders models policies of apps/api/src/work-orders.
--   Status: the statuses and `validTransitions` (work-orders.service.ts).
--   MaterialChange: `assessMaterialChange` (work-order-material-change.policy.ts).
--   Access: access-operations-policy.ts and access-recovery-policy.ts.
--   ScopeMismatch: `validateScopeMismatchResolution` (work-order-scope-mismatch.policy.ts).
--
-- Attention models apps/api/src/attention.
--   Policy: roles, queues and the order of items (attention-policy.ts).
--   Reconcile: `reconcile` of attention.service.ts on the table of items, with the owners' rows; its
--   queues and priorities come from Policy and WorkOrders.Access.
--   Ownership: `markSeen` and `assign` of attention.service.ts.
--
-- Choices. Money is in minor units and exact, as it is in JavaScript below 2^53. Cleaner-hours, which
-- are multiples of a half in the source, are counted in halves. A number that the code checks at run
-- time is a `Number`: a natural number, a negative integer, or anything else. A table of the source
-- is read at its own keys only, an object's too. A date is its time in milliseconds since the epoch.
-- What a step pushes onto an array that it is handed is what its model returns. Every recursion is
-- structural: no fuel is used. Parameters stand for the clock, the parsing and printing of dates,
-- `Array.prototype.sort`, base64 and SHA-256, the database's new ids and the rows that a query
-- returns, and, in Messaging outside Facts, for the paths of the errors that the validation of a draft
-- finds. A database transaction is one step.
--
-- Not modelled: the queries of the services and the isolation of the database; labour and deployment
-- costs, which multiply fractions; the acceptance of quotes and the operations on visits; sessions,
-- mail, dashboards and the user interface, which are input and output.
pub mod Base
pub mod Quotes
pub mod WorkOrders
pub mod Messaging
pub mod Attention
