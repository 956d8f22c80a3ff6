-- ===== src/WorkOrders/Tests.antt =====
-- Runs of the work-order policies.
use hestiva_os.Base.{◌≡◌, ◌↔◌, refl, arith, ◌+◌, ◌≤◌, ◌<◌, String, true, false, none, some, [], ◌∷◌}
use hestiva_os.Base.Number.{Number, nat}
use hestiva_os.Base.Text.{trim, text_length}
use hestiva_os.Base.Result.{ok}
use hestiva_os.WorkOrders.Status.{accepted, received}
use hestiva_os.WorkOrders.MaterialChange.{UpdateWorkOrderInput, assess_material_change}
use hestiva_os.WorkOrders.MaterialChange.Laws.{IsAssessed, assess-IsAssessed}
use hestiva_os.WorkOrders.Access.{
  critical, accepted_review, TemporaryAccessUsabilityMetadata, access_attention_priority,
  is_access_operationally_resolved,
}
use hestiva_os.WorkOrders.Access.Laws.{
  IsResolved, urgency, IsResolved-iff, access_attention_priority_mono,
}
use hestiva_os.WorkOrders.ScopeMismatch.{
  ScopeMismatchResolutionInput, chargeable_additional_work, approved, phone, resolved,
  validate_scope_mismatch_resolution,
}
use hestiva_os.WorkOrders.ScopeMismatch.Laws.{IsValidated, validate-IsValidated}

abbrev reschedule : UpdateWorkOrderInput
reschedule = record {
  has_customer_id = false;
  has_property_id = false;
  has_service_id = false;
  has_add_ons = false;
  has_add_on_ids = false;
  has_frequency = false;
  has_custom_frequency_note = false;
  has_home_condition = false;
  has_scheduled_at = true;
  has_completed_at = false;
  status = none;
}

assess-IsAssessed_example :
    IsAssessed accepted reschedule (assess_material_change accepted reschedule)
assess-IsAssessed_example = assess-IsAssessed accepted reschedule

abbrev gate_code : TemporaryAccessUsabilityMetadata
gate_code = record {
  review_status = accepted_review;
  valid_from = some 10;
  expires_at = some 20;
  revoked_at = none;
}

IsResolved-iff_example :
    (is_access_operationally_resolved received (gate_code ∷ []) 15 ≡ true)
    ↔ IsResolved received (gate_code ∷ []) 15
IsResolved-iff_example = IsResolved-iff received (gate_code ∷ []) 15

five_before_nine : 5 ≤ 9
five_before_nine = omega arith

access_attention_priority_mono_example :
    (urgency (access_attention_priority (some 14_400_007) 5)
      ≤ urgency (access_attention_priority (some 14_400_007) 9))
    × ((access_attention_priority (some 14_400_007) 9 ≡ critical) ↔ (14_400_007 < 9 + 14_400_000))
access_attention_priority_mono_example =
    access_attention_priority_mono 14_400_007 5 9 five_before_nine

abbrev at_once : String → Number
at_once text = nat 1_000

abbrev extra_work : ScopeMismatchResolutionInput
extra_work = record {
  resolution = chargeable_additional_work;
  customer_approval_status = some approved;
  customer_approval_method = some phone;
  customer_approved_at = some "1970-01-01T00:00:01Z";
  proposed_amount_minor = some (nat 25_000);
  capacity_reviewed = some true;
  note = some " two more rooms ";
}

extra_work_passes :
    validate_scope_mismatch_resolution at_once 2_000 extra_work
    ≡ ok (resolved extra_work (some (nat 1_000)))
unfolding validate_scope_mismatch_resolution trim text_length
extra_work_passes = refl

validate-IsValidated_example :
    IsValidated at_once 2_000 extra_work (resolved extra_work (some (nat 1_000)))
validate-IsValidated_example =
    validate-IsValidated at_once 2_000 extra_work (resolved extra_work (some (nat 1_000)))
      extra_work_passes
