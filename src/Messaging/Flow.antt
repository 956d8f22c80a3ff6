-- ===== src/Messaging/Flow.antt =====
-- apps/api/src/messaging/messaging-quote-flow.ts, with messagingQuoteIncompleteFactGroups of
-- messaging-quote-draft-validation.ts. `fact_errors` is validateQuoteBusinessFacts of
-- apps/api/src/quotes/quote-business-facts-validation.ts: the paths of the errors it finds.
use hestiva_os.Base.{
  String, Bool, true, false, not, ◌||◌, Option, none, some, List, [], ◌∷◌, if◌then◌else◌, any,
}
use hestiva_os.Base.Text.{◌===◌, is_blank, starts_with}
use hestiva_os.Base.Json.{Value, undefined, null, get, fields_of}

pub data MessagingQuoteFlowPhase : Type 0 where
  collecting review ready_to_submit submitting human_review submitted : MessagingQuoteFlowPhase

-- The keys of `MessagingQuoteDraft`.
pub data FactGroup : Type 0 where
  property request visit access household safety notes customer photos : FactGroup

pub data MessagingQuoteSection : Type 0 where
  your_home cleaning_requirements preferred_visit access_and_household : MessagingQuoteSection
  photos_and_notes your_details review_section : MessagingQuoteSection

abbrev pub group_key : FactGroup → String
group_key property = "property"
group_key request = "request"
group_key visit = "visit"
group_key access = "access"
group_key household = "household"
group_key safety = "safety"
group_key notes = "notes"
group_key customer = "customer"
group_key photos = "photos"

-- `${key}.`
abbrev pub group_prefix : FactGroup → String
group_prefix property = "property."
group_prefix request = "request."
group_prefix visit = "visit."
group_prefix access = "access."
group_prefix household = "household."
group_prefix safety = "safety."
group_prefix notes = "notes."
group_prefix customer = "customer."
group_prefix photos = "photos."

abbrev pub required_fact_groups : List FactGroup
required_fact_groups =
    property ∷ request ∷ visit ∷ access ∷ household ∷ safety ∷ notes ∷ customer ∷ photos ∷ []

abbrev pub fact_group_section : FactGroup → MessagingQuoteSection
fact_group_section property = your_home
fact_group_section request = cleaning_requirements
fact_group_section visit = preferred_visit
fact_group_section access = access_and_household
fact_group_section household = access_and_household
fact_group_section safety = access_and_household
fact_group_section notes = photos_and_notes
fact_group_section customer = your_details
fact_group_section photos = photos_and_notes

abbrev pub is_missing : Value → Bool
is_missing undefined = true
is_missing null = true
is_missing _ = false

-- The test of the filter over the required groups.
unfoldable pub is_incomplete : (Value → List String) → Value → FactGroup → Bool
unfolding get fields_of
is_incomplete fact_errors draft key =
    is_missing (get (group_key key) (fields_of draft))
    || any (λ path. (path === group_key key) || starts_with (group_prefix key) path)
        (fact_errors draft)

abbrev pub filter {ℓ} : {A : Type ℓ} → (A → Bool) → List A → List A
filter p [] = []
filter p (x ∷ xs) = let rest = filter p xs in if p x then x ∷ rest else rest

unfoldable pub messaging_quote_incomplete_fact_groups :
    (Value → List String) → Value → List FactGroup
unfolding is_incomplete
messaging_quote_incomplete_fact_groups fact_errors draft =
    filter (is_incomplete fact_errors draft) required_fact_groups

-- The truth of a `string | null`.
abbrev pub is_given : Option String → Bool
is_given none = false
is_given (some s) = not (is_blank s)

pub record FlowInput : Type 0 where
  pub draft : Value
  pub human_review_required : Bool
  pub customer_confirmed : Bool
  pub submission_key : Option String
  pub submitted_quote_id : Option String

pub record MessagingQuoteFlowState : Type 0 where
  pub phase : MessagingQuoteFlowPhase
  pub missing_fact_groups : List FactGroup
  pub next_section : Option MessagingQuoteSection

abbrev pub flow_of :
    MessagingQuoteFlowPhase
    → List FactGroup
    → Option MessagingQuoteSection
    → MessagingQuoteFlowState
flow_of p missing next = record { phase = p; missing_fact_groups = missing; next_section = next }

-- The last three returns, by the groups that are missing.
abbrev pub collect : List FactGroup → Bool → MessagingQuoteFlowState
collect (g ∷ gs) confirmed = flow_of collecting (g ∷ gs) (some (fact_group_section g))
collect [] false = flow_of review [] (some review_section)
collect [] true = flow_of ready_to_submit [] none

unfoldable pub evaluate_messaging_quote_flow :
    (Value → List String) → FlowInput → MessagingQuoteFlowState
evaluate_messaging_quote_flow fact_errors input =
    let missing = messaging_quote_incomplete_fact_groups fact_errors input.draft in
    if is_given input.submitted_quote_id
    then flow_of submitted missing none
    else if is_given input.submission_key
    then flow_of submitting missing none
    else if input.human_review_required
    then flow_of human_review missing none
    else collect missing input.customer_confirmed
