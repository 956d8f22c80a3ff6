-- ===== src/Messaging/Tests/Facts.antt =====
-- A complete draft of a quote, and a run that confirms it.
use hestiva_os.Base.Json.{has_key, get, put}
use hestiva_os.Messaging.Draft.{merge_progress_value}
use hestiva_os.Base.{◌≡◌, ◌↔◌, refl, true, false, none, some, [], if◌then◌else◌}
use hestiva_os.Base.Number.{nat, non_integer}
use hestiva_os.Base.Text.{◌===◌, trim, split_dashes, digits_value, decimal}
use hestiva_os.Base.Result.{ok}
use hestiva_os.Base.Json.{
  Value, boolean, number, string, array, object, none_left, element, no_field, field,
}
use hestiva_os.Messaging.Flow.{messaging_quote_incomplete_fact_groups}
use hestiva_os.Messaging.State.{
  MessagingQuoteStateSnapshot, initial_messaging_quote_state, marked, update_messaging_quote_draft,
  mark_messaging_quote_review_presented, confirm_messaging_quote_review,
}
use hestiva_os.Messaging.State.Completion.{IsOpen, phase-review}
use hestiva_os.Messaging.State.Steps.{
  update_draft, record_review_presented, confirm_from_inbound_message, apply, Reachable, start,
  step,
}
use hestiva_os.Quotes.Contract.Platform.{Platform}
use hestiva_os.Quotes.Contract.BusinessFacts.{validate_quote_business_facts}
use hestiva_os.Quotes.Contract.BusinessFacts.{validation_envelope, spread}
use hestiva_os.Quotes.Contract.V2.{
  validate_website_quote_submission_v2, v2_errors, compatible_payload, compatible_request,
  with_request, compatible_add_ons, without_laundry, is_structured_laundry, keep_errors,
  v2_request_at, v2_request_fields, laundry_add_ons_at, laundry_add_on_errors, laundry_at,
  is_full_recurring,
}
use hestiva_os.Quotes.Contract.V1.{
  validate_website_quote_submission_v1, submission_errors, envelope_errors,
}
use hestiva_os.Quotes.Contract.PostEventFacts.{
  is_post_event_primary_service, validate_no_stray_post_event_facts,
}
use hestiva_os.Quotes.Contract.Customer.{customer_errors, customer_fields}
use hestiva_os.Quotes.Contract.Property.{
  property_errors, property_fields, validate_location, floor_errors,
}
use hestiva_os.Quotes.Contract.Request.{
  request_errors, request_fields, primary_fields, mapping_errors, lookup, frequency_errors,
  allowed_frequencies_for_canonical_service, add_ons_at, add_ons_errors, add_on_errors, add_on_seen,
  add_on_mapping, canonical_primary,
}
use hestiva_os.Quotes.Contract.Visit.{
  visit_errors, visit_fields, access_errors, access_fields, household_errors, household_fields,
  safety_errors, notes_errors, is_calendar_date, is_date_of,
}
use hestiva_os.Quotes.Contract.Photos.{photos_errors, photos_at, photos_from}
use hestiva_os.Quotes.Contract.Fields.{
  required_record, required_string, optional_string, required_boolean, optional_boolean,
  enum_string, optional_enum, validate_optional_text_fields,
}
use hestiva_os.Base.Pattern.{matches, is_e164, is_email}
use hestiva_os.Messaging.Facts.{fact_errors}
use hestiva_os.Messaging.Facts.Accepted.{IsChannelNeutral, complete_iff, confirmed-accepted}
use hestiva_os.Messaging.Tests.{same_day}

abbrev platform : Platform
platform = record {
  to_lower = λ s. s;
  text_of = λ v. "";
  parse_date = λ s. if s === "2026-01-01T00:00:00.000Z" then nat 1767225600000 else non_integer;
  to_iso = λ t. "2026-01-01T00:00:00.000Z";
  is_utc_date = λ y m d. true;
  from_base64 = λ s. [];
  to_base64 = λ b. "";
  sha256_hex = λ b. "";
}

abbrev draft : Value
draft = object (
    field "property"
      (object (
        field "propertyType" (string "APARTMENT") (
          field "addressLine1" (string "1 Long Street") (
            field "suburb" (string "Gardens") (
              field "country" (string "South Africa") (
                field "floorSize" (string "FROM_60_TO_79") (
                  field "bedrooms" (string "TWO") (
                    field "bathrooms" (string "ONE") (
                      field "livingAreas" (string "ONE") (
                        field "outdoorArea" (string "BALCONY") (
                          field "estateClassification" (string "NONE") (
                            field "exactFloor" (number (nat 3))
                              (field "buildingAccess" (string "ELEVATOR") no_field)))))))))))))
      (field "request"
        (object (
          field "primaryService"
            (object (
              field "websiteValue" (string "Deep Cleaning")
                (field "canonicalService" (string "Deep Cleaning") no_field)))
            (field "frequency" (string "ONE_TIME") (
              field "homeCondition" (string "STANDARD") (
                field "addOns"
                  (array (
                    element
                      (object (
                        field "websiteValue" (string "Inside oven") (
                          field "canonicalService" (string "Inside Oven Cleaning")
                            (field "quantity" (number (nat 1)) no_field))))
                      none_left))
                  no_field)))))
        (field "visit"
          (object (
            field "preferredDate" (string "2026-02-03") (
              field "preferredTime" (string "MORNING") (
                field "flexibility" (string "one day")
                  (field "urgency" (string "normal") no_field)))))
          (field "access"
            (object (
              field "complexAccess" (string "NOT_APPLICABLE") (
                field "keyHandover" (string "SOMEONE_WILL_OPEN")
                  (field "someonePresent" (boolean true) no_field))))
            (field "household" (object (field "hasPets" (boolean false) no_field)) (
              field "safety" (object no_field) (
                field "notes" (object no_field) (
                  field "customer"
                    (object (
                      field "fullName" (string "A Customer") (
                        field "email" (string "a@b.co") (
                          field "mobile" (string "+27821234567")
                            (field "preferredContact" (string "WHATSAPP") no_field)))))
                    (field "photos" (array none_left) no_field)))))))))

draft-IsChannelNeutral : IsChannelNeutral draft
unfolding has_key
draft-IsChannelNeutral = record { version = refl; id = refl; source = refl; time = refl }

complete_iff_example :
    (messaging_quote_incomplete_fact_groups (fact_errors platform) draft ≡ [])
    ↔ (validate_quote_business_facts platform draft ≡ [])
complete_iff_example = complete_iff platform draft refl draft-IsChannelNeutral

draft_accepted : validate_quote_business_facts platform draft ≡ []
unfolding validate_quote_business_facts validate_website_quote_submission_v2 validation_envelope
    spread has_key get put v2_errors validate_website_quote_submission_v1 compatible_payload
    compatible_request with_request compatible_add_ons without_laundry is_structured_laundry
    keep_errors v2_request_at v2_request_fields is_post_event_primary_service
    validate_no_stray_post_event_facts laundry_add_ons_at laundry_add_on_errors laundry_at
    is_full_recurring submission_errors envelope_errors customer_errors customer_fields
    property_errors property_fields request_errors request_fields visit_errors visit_fields
    access_errors access_fields household_errors household_fields safety_errors notes_errors
    photos_errors photos_at photos_from required_record required_string optional_string
    required_boolean optional_boolean enum_string optional_enum validate_optional_text_fields
    validate_location floor_errors primary_fields mapping_errors lookup frequency_errors
    allowed_frequencies_for_canonical_service add_ons_at add_ons_errors add_on_errors add_on_seen
    add_on_mapping is_calendar_date matches split_dashes digits_value is_e164 is_email trim decimal
    canonical_primary is_date_of
draft_accepted = refl

draft_complete : messaging_quote_incomplete_fact_groups (fact_errors platform) draft ≡ []
draft_complete = (complete_iff platform draft refl draft-IsChannelNeutral).1 draft_accepted

abbrev collected : MessagingQuoteStateSnapshot
collected = record initial_messaging_quote_state { version = nat 1; draft = draft }

abbrev presented : MessagingQuoteStateSnapshot
presented = marked collected (nat 2) (some "m1") none none

abbrev confirmed : MessagingQuoteStateSnapshot
confirmed = marked collected (nat 3) (some "m1") (some "m2") (some "2026-01-01T00:00:00.000Z")

collect_step :
    apply (fact_errors platform) same_day (update_draft draft) initial_messaging_quote_state
    ≡ ok collected
unfolding apply update_messaging_quote_draft merge_progress_value
collect_step = refl

collected-IsOpen : IsOpen (fact_errors platform) collected 1
collected-IsOpen = record {
  at_version = refl;
  fit = record { complete = draft_complete; automatic = refl };
  unreserved = refl;
  unlinked = refl;
}

presented-IsOpen : IsOpen (fact_errors platform) presented 2
presented-IsOpen = record {
  at_version = refl;
  fit = record { complete = draft_complete; automatic = refl };
  unreserved = refl;
  unlinked = refl;
}

present_step :
    apply (fact_errors platform) same_day (record_review_presented "m1") collected ≡ ok presented
unfolding apply mark_messaging_quote_review_presented trim
present_step = rw (phase-review (fact_errors platform) collected collected-IsOpen refl)

confirm_step :
    apply (fact_errors platform) same_day (confirm_from_inbound_message "m2" (nat 7)) presented
    ≡ ok confirmed
unfolding apply confirm_messaging_quote_review trim
confirm_step = rw (phase-review (fact_errors platform) presented presented-IsOpen refl)

confirmed-Reachable : Reachable (fact_errors platform) same_day confirmed
confirmed-Reachable =
    step (confirm_from_inbound_message "m2" (nat 7)) presented confirmed
      (step (record_review_presented "m1") collected presented
        (step (update_draft draft) initial_messaging_quote_state collected start collect_step)
        present_step)
      confirm_step

confirmed-accepted_example : validate_quote_business_facts platform draft ≡ []
confirmed-accepted_example =
    confirmed-accepted platform same_day confirmed confirmed-Reachable refl refl
      draft-IsChannelNeutral
