-- ===== src/Messaging/Facts/Sections.antt =====
-- The errors of each section of a submission lie in its group of facts.
use hestiva_os.Base.{Bool, true, false, [], ◌∷◌}
use hestiva_os.Base.Text.{starts_with}
use hestiva_os.Base.Json.{Value, undefined, object, Fields, get}
use hestiva_os.Messaging.Flow.{property, visit, access, household, safety, notes, customer}
use hestiva_os.Quotes.Contract.Platform.{Platform}
use hestiva_os.Quotes.Contract.Fields.{required_record, validate_optional_text_fields}
use hestiva_os.Quotes.Contract.Customer.{customer_fields, customer_errors}
use hestiva_os.Quotes.Contract.Property.{
  location_fields, location_at, validate_location, floor_errors, property_fields, property_errors,
}
use hestiva_os.Quotes.Contract.Visit.{
  visit_fields, visit_errors, access_fields, access_errors, household_fields, household_errors,
  safety_errors, notes_errors,
}
use hestiva_os.Messaging.Facts.Groups.{whole, AllIn, group_rules, AllIn-checked, AllIn-record}

customer_fields-AllIn : (fields : Fields) → AllIn customer (customer_fields fields)
unfolding customer_fields starts_with
customer_fields-AllIn fields = search group_rules depth 30

pub customer-AllIn : (payload : Fields) → AllIn customer (customer_errors payload)
unfolding customer_errors
customer-AllIn payload =
    AllIn-checked customer (required_record payload "customer" "customer") _
      (AllIn-record customer payload "customer" "customer" whole) (customer_fields-AllIn)

location-AllIn : (v : Value) → AllIn property (location_at v)
unfolding starts_with location_fields
location-AllIn undefined = tt
location-AllIn (object value) = search group_rules depth 30
location-AllIn _ = search group_rules depth 30

validate_location-AllIn : (fields : Fields) → AllIn property (validate_location fields)
unfolding validate_location
validate_location-AllIn fields = location-AllIn (get "location" fields)

floor-AllIn : (unit : Bool) (fields : Fields) → AllIn property (floor_errors unit fields)
unfolding starts_with floor_errors
floor-AllIn true fields = search group_rules depth 30
floor-AllIn false fields = search group_rules depth 30

property_fields-AllIn : (fields : Fields) → AllIn property (property_fields fields)
unfolding property_fields starts_with
property_fields-AllIn fields =
    search (group_rules, validate_location-AllIn, floor-AllIn) depth 40 fits 4000

pub property-AllIn : (payload : Fields) → AllIn property (property_errors payload)
unfolding property_errors
property-AllIn payload =
    AllIn-checked property (required_record payload "property" "property") _
      (AllIn-record property payload "property" "property" whole) (property_fields-AllIn)

visit_fields-AllIn :
    (platform : Platform) (fields : Fields) → AllIn visit (visit_fields platform fields)
unfolding visit_fields starts_with
visit_fields-AllIn platform fields = search group_rules depth 30

pub visit-AllIn :
    (platform : Platform) (payload : Fields) → AllIn visit (visit_errors platform payload)
unfolding visit_errors
visit-AllIn platform payload =
    AllIn-checked visit (required_record payload "visit" "visit") _
      (AllIn-record visit payload "visit" "visit" whole) (visit_fields-AllIn platform)

access_fields-AllIn : (fields : Fields) → AllIn access (access_fields fields)
unfolding access_fields starts_with validate_optional_text_fields
access_fields-AllIn fields = search group_rules depth 30

pub access-AllIn : (payload : Fields) → AllIn access (access_errors payload)
unfolding access_errors
access-AllIn payload =
    AllIn-checked access (required_record payload "access" "access") _
      (AllIn-record access payload "access" "access" whole) (access_fields-AllIn)

household_fields-AllIn : (fields : Fields) → AllIn household (household_fields fields)
unfolding household_fields starts_with
household_fields-AllIn fields = search group_rules depth 30

pub household-AllIn : (payload : Fields) → AllIn household (household_errors payload)
unfolding household_errors
household-AllIn payload =
    AllIn-checked household (required_record payload "household" "household") _
      (AllIn-record household payload "household" "household" whole) (household_fields-AllIn)

safety_fields-AllIn :
    (fields : Fields)
    → AllIn safety (
        validate_optional_text_fields fields "safety" (
          "offLimitsAreas" ∷ "fragileItems" ∷ "productRestrictions" ∷ "allergiesOrSensitivities"
          ∷ "existingDamage" ∷ []))
unfolding starts_with validate_optional_text_fields
safety_fields-AllIn fields = search group_rules depth 30

pub safety-AllIn : (payload : Fields) → AllIn safety (safety_errors payload)
unfolding safety_errors
safety-AllIn payload =
    AllIn-checked safety (required_record payload "safety" "safety") _
      (AllIn-record safety payload "safety" "safety" whole) safety_fields-AllIn

notes_fields-AllIn :
    (fields : Fields)
    → AllIn notes (
        validate_optional_text_fields fields "notes"
          ("attentionAreas" ∷ "renovationDust" ∷ "applianceNotes" ∷ "additionalNotes" ∷ []))
unfolding starts_with validate_optional_text_fields
notes_fields-AllIn fields = search group_rules depth 30

pub notes-AllIn : (payload : Fields) → AllIn notes (notes_errors payload)
unfolding notes_errors
notes-AllIn payload =
    AllIn-checked notes (required_record payload "notes" "notes") _
      (AllIn-record notes payload "notes" "notes" whole) notes_fields-AllIn
