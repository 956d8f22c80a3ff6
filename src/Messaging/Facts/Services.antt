-- ===== src/Messaging/Facts/Services.antt =====
-- The errors of the facts of an event and of the laundry lie in the group of the request.
use hestiva_os.Base.{refl, ℕ, suc, String, List, [], ◌∷◌, map, not, if◌then◌else◌}
use hestiva_os.Base.Text.{starts_with, decimal, ◌<+>◌}
use hestiva_os.Base.Eq.{contains, string_eq}
use hestiva_os.Base.Json.{
  Value, undefined, string, array, object, Elements, none_left, element, Fields,
}
use hestiva_os.Messaging.Flow.{request}
use hestiva_os.Quotes.Laundry.{
  LaundryErrorPath, primary_service_path, facilities_path, laundry_loads_path, ironing_loads_path,
  LaundryRequestError,
}
use hestiva_os.Quotes.Contract.Platform.{Platform}
use hestiva_os.Quotes.Contract.Fields.{error}
use hestiva_os.Quotes.Contract.PostEventFacts.{
  outdoor_areas, outdoor_area_errors, outdoor_areas_at, boolean_field_errors, post_event_fields,
  post_event_at, validate_post_event_request_facts, validate_no_stray_post_event_facts,
}
use hestiva_os.Quotes.Contract.V2.{
  laundry_path, contract_error, laundry_fields, laundry_at, laundry_add_on_errors,
  laundry_add_ons_at, v2_request_fields, v2_request_at,
}
use hestiva_os.Messaging.Facts.Groups.{
  InGroup, inside, inside_append, AllIn, group_rules, AllIn-append, AllIn-if, AllIn-when,
}

area_path : (index : ℕ) → InGroup request ("request.postEvent.outdoorAreas." <+> decimal index)
unfolding starts_with
area_path index = inside_append "request.postEvent.outdoorAreas." (decimal index) refl

areas-AllIn :
    (index : ℕ) (seen : List String) (es : Elements)
    → AllIn request (outdoor_area_errors index seen es)
unfolding outdoor_area_errors
areas-AllIn index seen none_left = tt
areas-AllIn index seen (element (string area) es) =
    let path = "request.postEvent.outdoorAreas." <+> decimal index in
    let rest = areas-AllIn (suc index) seen es in
    let unsupported =
      error path "INVALID_ENUM" "Unsupported Post-Event outdoor area."
      ∷ outdoor_area_errors (suc index) seen es in
    let duplicate =
      error path "DUPLICATE" "Duplicate Post-Event outdoor areas are not allowed."
      ∷ outdoor_area_errors (suc index) seen es in
    let fresh = outdoor_area_errors (suc index) (area ∷ seen) es in
    AllIn-if request (not (contains outdoor_areas area)) unsupported
      (if contains seen area then duplicate else fresh) (area_path index, rest)
      (AllIn-if request (contains seen area) duplicate fresh (area_path index, rest)
        (areas-AllIn (suc index) (area ∷ seen) es))
areas-AllIn index seen (element _ es) = (area_path index, areas-AllIn (suc index) seen es)

areas_at-AllIn : (v : Value) → AllIn request (outdoor_areas_at v)
unfolding outdoor_areas_at starts_with
areas_at-AllIn (array es) = areas-AllIn 0 [] es
areas_at-AllIn _ = search group_rules depth 30

booleans-AllIn :
    (fields : Fields) (keys : List String) → AllIn request (boolean_field_errors fields keys)
unfolding boolean_field_errors starts_with
booleans-AllIn fields [] = tt
booleans-AllIn fields (key ∷ keys) =
    AllIn-append request _ _ (AllIn-when request _ _ (inside_append "request.postEvent." key refl))
      (booleans-AllIn fields keys)

post_event_fields-AllIn : (fields : Fields) → AllIn request (post_event_fields fields)
unfolding post_event_fields starts_with
post_event_fields-AllIn fields = search (group_rules, areas_at-AllIn, booleans-AllIn) depth 30

post_event_at-AllIn : (v : Value) → AllIn request (post_event_at v)
unfolding post_event_at starts_with
post_event_at-AllIn (object fields) = post_event_fields-AllIn fields
post_event_at-AllIn _ = search group_rules depth 30

post_event-AllIn : (fields : Fields) → AllIn request (validate_post_event_request_facts fields)
unfolding validate_post_event_request_facts starts_with
post_event-AllIn fields = search (group_rules, post_event_at-AllIn) depth 30

no_post_event-AllIn : (fields : Fields) → AllIn request (validate_no_stray_post_event_facts fields)
unfolding validate_no_stray_post_event_facts starts_with
no_post_event-AllIn fields = search group_rules depth 30

laundry_path-InGroup : (p : LaundryErrorPath) → InGroup request (laundry_path p)
unfolding starts_with
laundry_path-InGroup primary_service_path = inside refl
laundry_path-InGroup facilities_path = inside refl
laundry_path-InGroup laundry_loads_path = inside refl
laundry_path-InGroup ironing_loads_path = inside refl

contract_errors-AllIn : (es : List LaundryRequestError) → AllIn request (map contract_error es)
contract_errors-AllIn [] = tt
contract_errors-AllIn (e ∷ es) = (laundry_path-InGroup e.path, contract_errors-AllIn es)

laundry_fields-AllIn : (fields laundry : Fields) → AllIn request (laundry_fields fields laundry)
unfolding laundry_fields starts_with
laundry_fields-AllIn fields laundry = search (group_rules, contract_errors-AllIn) depth 30

laundry_at-AllIn : (fields : Fields) (v : Value) → AllIn request (laundry_at fields v)
unfolding laundry_at starts_with
laundry_at-AllIn fields undefined = tt
laundry_at-AllIn fields (object laundry) = laundry_fields-AllIn fields laundry
laundry_at-AllIn fields _ = search group_rules depth 30

module _ (platform : Platform) where
  laundry_add_ons-AllIn :
      (index : ℕ) (es : Elements) → AllIn request (laundry_add_on_errors platform index es)
  unfolding laundry_add_on_errors starts_with
  laundry_add_ons-AllIn index none_left = tt
  laundry_add_ons-AllIn index (element v es) =
      AllIn-append request _ _
        (AllIn-when request _ _
          (inside_append "request.addOns." (decimal index <+> ".canonicalService") refl))
        (laundry_add_ons-AllIn (suc index) es)

  laundry_add_ons_at-AllIn : (v : Value) → AllIn request (laundry_add_ons_at platform v)
  unfolding laundry_add_ons_at
  laundry_add_ons_at-AllIn (array es) = laundry_add_ons-AllIn 0 es
  laundry_add_ons_at-AllIn _ = tt

  v2_request_fields-AllIn : (fields : Fields) → AllIn request (v2_request_fields platform fields)
  unfolding v2_request_fields
  v2_request_fields-AllIn fields =
      search
        (
          group_rules, post_event-AllIn, no_post_event-AllIn, laundry_add_ons_at-AllIn,
          laundry_at-AllIn,
        )
        depth 30

  pub v2_request-AllIn : (v : Value) → AllIn request (v2_request_at platform v)
  unfolding v2_request_at
  v2_request-AllIn (object fields) = v2_request_fields-AllIn fields
  v2_request-AllIn _ = tt
