-- ===== src/WorkOrders/MaterialChange.antt =====
-- apps/api/src/work-orders/work-order-material-change.policy.ts. Of a property of the update the
-- policy asks only whether it is defined; of the status it also asks whether it is CANCELLED.
pub mod Laws
use hestiva_os.Base.{
  String, Bool, true, false, not, ◌||◌, ◌&&◌, Option, none, some, List, [], ◌∷◌, ◌++◌,
  if◌then◌else◌, when, is_empty, any,
}
use hestiva_os.WorkOrders.Status.{
  WorkOrderStatus, new, assigned, accepted, travelling, on_site, waiting_for_parts, interrupted,
  completed, closed, cancelled,
}

pub data MaterialChangeStage : Type 0 where
  pending future imminent in_progress historical : MaterialChangeStage

pub data MaterialChangeField : Type 0 where
  customer_id property_id service_id add_ons frequency home_condition : MaterialChangeField
  scheduled_at completed_at cancellation : MaterialChangeField

-- Which properties of `UpdateWorkOrderInput` are not undefined.
pub record UpdateWorkOrderInput : Type 0 where
  pub has_customer_id : Bool
  pub has_property_id : Bool
  pub has_service_id : Bool
  pub has_add_ons : Bool
  pub has_add_on_ids : Bool
  pub has_frequency : Bool
  pub has_custom_frequency_note : Bool
  pub has_home_condition : Bool
  pub has_scheduled_at : Bool
  pub has_completed_at : Bool
  pub status : Option WorkOrderStatus

pub record MaterialChangeConsequences : Type 0 where
  pub scheduling_review : Bool
  pub staffing_review : Bool
  pub pricing_review : Bool
  pub execution_scope_review : Bool
  pub customer_correspondence_eligible : Bool
  pub financial_review_boundary : Bool

pub record MaterialChangeAssessment : Type 0 where
  pub stage : MaterialChangeStage
  pub material_fields : List MaterialChangeField
  pub allowed : Bool
  pub override_reason_required : Bool
  pub blocked_reason : Option String
  pub consequences : MaterialChangeConsequences

unfoldable pub material_change_stage : WorkOrderStatus → MaterialChangeStage
material_change_stage new = pending
material_change_stage assigned = future
material_change_stage accepted = imminent
material_change_stage travelling = imminent
material_change_stage on_site = in_progress
material_change_stage waiting_for_parts = in_progress
material_change_stage _ = historical

abbrev is_cancelled : Option WorkOrderStatus → Bool
is_cancelled (some cancelled) = true
is_cancelled _ = false

unfoldable pub material_fields_from_update : UpdateWorkOrderInput → List MaterialChangeField
material_fields_from_update i =
    when i.has_customer_id customer_id
    ++ (when i.has_property_id property_id
        ++ (when i.has_service_id service_id
            ++ (when (i.has_add_ons || i.has_add_on_ids) add_ons
                ++ (when (i.has_frequency || i.has_custom_frequency_note) frequency
                    ++ (when i.has_home_condition home_condition
                        ++ (when i.has_scheduled_at scheduled_at
                            ++ (when i.has_completed_at completed_at
                                ++ when (is_cancelled i.status) cancellation)))))))

abbrev pub same_field : MaterialChangeField → MaterialChangeField → Bool
same_field customer_id customer_id = true
same_field property_id property_id = true
same_field service_id service_id = true
same_field add_ons add_ons = true
same_field frequency frequency = true
same_field home_condition home_condition = true
same_field scheduled_at scheduled_at = true
same_field completed_at completed_at = true
same_field cancellation cancellation = true
same_field _ _ = false

-- `materialFields.includes(field)`
abbrev pub has : List MaterialChangeField → MaterialChangeField → Bool
has fields f = any (same_field f) fields

consequences_of : List MaterialChangeField → MaterialChangeConsequences
consequences_of fields =
    let scope =
      has fields service_id
      || (has fields add_ons || (has fields frequency || has fields home_condition)) in
    let scheduling =
      has fields scheduled_at
      || (has fields property_id || (has fields customer_id || has fields cancellation)) in
    record {
      scheduling_review = scheduling || scope;
      staffing_review = scheduling || scope;
      pricing_review = scope;
      execution_scope_review = scope || has fields property_id;
      customer_correspondence_eligible = not (is_empty fields);
      financial_review_boundary = scope || has fields cancellation;
    }

abbrev is_imminent : MaterialChangeStage → Bool
is_imminent imminent = true
is_imminent _ = false

-- The last two guards: a job in progress and a historical one are not changed.
assess_stage :
    MaterialChangeStage
    → List MaterialChangeField
    → MaterialChangeConsequences
    → MaterialChangeAssessment
assess_stage in_progress fields c = record {
  stage = in_progress;
  material_fields = fields;
  allowed = false;
  override_reason_required = false;
  blocked_reason =
      some
        "The job is already in progress. Preserve the booked scope and use the in-service scope-difference workflow.";
  consequences = c;
}
assess_stage historical fields c = record {
  stage = historical;
  material_fields = fields;
  allowed = false;
  override_reason_required = false;
  blocked_reason =
      some
        "Completed, closed, or cancelled Work Orders are historical operational truth and cannot be materially rewritten.";
  consequences = c;
}
assess_stage s fields c = record {
  stage = s;
  material_fields = fields;
  allowed = true;
  override_reason_required = is_imminent s;
  blocked_reason = none;
  consequences = c;
}

unfoldable pub assess_material_change :
    WorkOrderStatus → UpdateWorkOrderInput → MaterialChangeAssessment
unfolding material_change_stage consequences_of assess_stage
assess_material_change status input =
    let stage = material_change_stage status in
    let fields = material_fields_from_update input in
    let c = consequences_of fields in
    if is_empty fields
    then record {
      stage = stage;
      material_fields = fields;
      allowed = true;
      override_reason_required = false;
      blocked_reason = none;
      consequences = c;
    }
    else if has fields completed_at
    then record {
      stage = stage;
      material_fields = fields;
      allowed = false;
      override_reason_required = false;
      blocked_reason =
          some
            "Completion timestamps are authoritative execution history and cannot be edited through a booking change.";
      consequences = c;
    }
    else assess_stage stage fields c
