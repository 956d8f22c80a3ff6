-- ===== src/Messaging/Facts/Requests.antt =====
-- The errors of a request lie in its group of facts.
use hestiva_os.Base.{◌≡◌, refl, ℕ, suc, String, true, Option, none, some, List, []}
use hestiva_os.Base.Text.{starts_with, decimal}
use hestiva_os.Base.Json.{Value, array, object, Elements, none_left, element, Fields}
use hestiva_os.Messaging.Flow.{request}
use hestiva_os.Quotes.Contract.Platform.{Platform}
use hestiva_os.Quotes.Contract.Fields.{required_record}
use hestiva_os.Quotes.Contract.Request.{
  expected_primary, mapping_errors, primary_fields, frequency_errors, expected_add_on,
  add_on_mapping, named_add_on, both_named, add_on_errors, add_ons_errors, add_ons_at,
  request_fields, request_errors,
}
use hestiva_os.Messaging.Facts.Groups.{
  whole, inside, inside_append, starts_with-append, AllIn, group_rules, AllIn-checked, AllIn-record,
  AllIn-append, AllIn-when,
}

expected_primary-AllIn : (v : Value) (o : Option String) → AllIn request (expected_primary v o)
unfolding starts_with
expected_primary-AllIn v none = search group_rules depth 30
expected_primary-AllIn v (some e) = search group_rules depth 30

mapping-AllIn : (v : Value) (w : String) → AllIn request (mapping_errors w v)
unfolding mapping_errors starts_with
mapping-AllIn v w = search (group_rules, expected_primary-AllIn) depth 30

primary-AllIn : (fields : Fields) → AllIn request (primary_fields fields)
unfolding primary_fields starts_with
primary-AllIn fields = search (group_rules, mapping-AllIn) depth 30

frequency-AllIn :
    (o : Option String) (p : Option (Option String)) → AllIn request (frequency_errors o p)
unfolding frequency_errors starts_with
frequency-AllIn (some f) (some s) = search group_rules depth 30
frequency-AllIn none p = tt
frequency-AllIn (some f) none = tt

module _ (path : String) (in_request : starts_with "request." path ≡ true) where
  expected_add_on-AllIn :
      (c : String) (o : Option String) → AllIn request (expected_add_on path c o)
  expected_add_on-AllIn c none = (inside_append path ".websiteValue" in_request, tt)
  expected_add_on-AllIn c (some e) =
      AllIn-when request _ _ (inside_append path ".canonicalService" in_request)

  add_on_mapping-AllIn : (w c : String) → AllIn request (add_on_mapping path w c)
  unfolding add_on_mapping
  add_on_mapping-AllIn w c = expected_add_on-AllIn c _

  module _ (platform : Platform) where
    named-AllIn :
        (seen : List String) (v : Value) (w c : String)
        → AllIn request (named_add_on platform path seen v w c)
    named-AllIn seen v w c = search (group_rules, add_on_mapping-AllIn, inside_append) depth 30

    both_named-AllIn :
        (seen : List String) (v : Value) (w c : Option String)
        → AllIn request (both_named platform w c (named_add_on platform path seen v))
    both_named-AllIn seen v (some w) (some c) = named-AllIn seen v w c
    both_named-AllIn seen v none c = tt
    both_named-AllIn seen v (some w) none = tt

    add_on-AllIn :
        (seen : List String) (v : Value) → AllIn request (add_on_errors platform path seen v)
    unfolding add_on_errors
    add_on-AllIn seen (object fields) =
        search (group_rules, both_named-AllIn, inside_append) depth 30
    add_on-AllIn seen _ = (inside in_request, tt)

module _ (platform : Platform) where
  add_ons_errors-AllIn :
      (index : ℕ) (seen : List String) (es : Elements)
      → AllIn request (add_ons_errors platform index seen es)
  unfolding add_ons_errors starts_with
  add_ons_errors-AllIn index seen none_left = tt
  add_ons_errors-AllIn index seen (element v es) =
      AllIn-append request _ _
        (add_on-AllIn _ (starts_with-append "request." "request.addOns." (decimal index) refl)
          platform seen v)
        (add_ons_errors-AllIn (suc index) _ es)

  add_ons-AllIn : (v : Value) → AllIn request (add_ons_at platform v)
  unfolding add_ons_at starts_with
  add_ons-AllIn (array es) = add_ons_errors-AllIn 0 [] es
  add_ons-AllIn _ = search group_rules depth 30

  request_fields-AllIn : (fields : Fields) → AllIn request (request_fields platform fields)
  unfolding request_fields starts_with
  request_fields-AllIn fields =
      search (group_rules, primary-AllIn, frequency-AllIn, add_ons-AllIn) depth 30

  pub request-AllIn : (payload : Fields) → AllIn request (request_errors platform payload)
  unfolding request_errors
  request-AllIn payload =
      AllIn-checked request (required_record payload "request" "request") _
        (AllIn-record request payload "request" "request" whole) request_fields-AllIn
