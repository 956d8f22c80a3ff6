-- ===== src/WorkOrders/MaterialChange/Laws.antt =====
-- When a booking may be changed, and what a change entails.
use hestiva_os.Base.{
  any-append, any-when, is_empty, ◌∷◌, ◌≡◌, ◌≢◌, ◌↔◌, ◌⊎◌, refl, arith, Bool, true, false, ◌||◌,
  none, some, List, [],
}
use mathlib.Core.Bool.{and-true, and-false, false-or, or-false}
use hestiva_os.WorkOrders.Status.{WorkOrderStatus, new, assigned, accepted, travelling, cancelled}
use hestiva_os.WorkOrders.MaterialChange.{
  MaterialChangeField, customer_id, property_id, service_id, add_ons, frequency, home_condition,
  scheduled_at, completed_at, cancellation, UpdateWorkOrderInput, MaterialChangeAssessment, has,
  material_fields_from_update, is_cancelled, assess_material_change,
}

-- The update names a field that is material to the booking.
abbrev pub Names : UpdateWorkOrderInput → MaterialChangeField → Type 0
Names i customer_id = i.has_customer_id ≡ true
Names i property_id = i.has_property_id ≡ true
Names i service_id = i.has_service_id ≡ true
Names i add_ons = (i.has_add_ons ≡ true) ⊎ (i.has_add_on_ids ≡ true)
Names i frequency = (i.has_frequency ≡ true) ⊎ (i.has_custom_frequency_note ≡ true)
Names i home_condition = i.has_home_condition ≡ true
Names i scheduled_at = i.has_scheduled_at ≡ true
Names i completed_at = i.has_completed_at ≡ true
Names i cancellation = i.status ≡ some cancelled

abbrev names : UpdateWorkOrderInput → MaterialChangeField → Bool
names i customer_id = i.has_customer_id
names i property_id = i.has_property_id
names i service_id = i.has_service_id
names i add_ons = i.has_add_ons || i.has_add_on_ids
names i frequency = i.has_frequency || i.has_custom_frequency_note
names i home_condition = i.has_home_condition
names i scheduled_at = i.has_scheduled_at
names i completed_at = i.has_completed_at
names i cancellation = is_cancelled i.status

ruleset collected = (any-append, any-when, and-true, and-false, false-or, or-false)

has-names :
    (i : UpdateWorkOrderInput) (f : MaterialChangeField)
    → has (material_fields_from_update i) f ≡ names i f
unfolding material_fields_from_update
has-names i customer_id = simp collected
has-names i property_id = simp collected
has-names i service_id = simp collected
has-names i add_ons = simp collected
has-names i frequency = simp collected
has-names i home_condition = simp collected
has-names i scheduled_at = simp collected
has-names i completed_at = simp collected
has-names i cancellation = simp collected

names-Names : (i : UpdateWorkOrderInput) (f : MaterialChangeField) → (names i f ≡ true) ↔ Names i f
names-Names i customer_id = (λ h. h, λ h. h)
names-Names i property_id = (λ h. h, λ h. h)
names-Names i service_id = (λ h. h, λ h. h)
names-Names i add_ons = ground arith
names-Names i frequency = ground arith
names-Names i home_condition = (λ h. h, λ h. h)
names-Names i scheduled_at = (λ h. h, λ h. h)
names-Names i completed_at = (λ h. h, λ h. h)
names-Names i cancellation = ground arith

-- A field is among the material fields of an update exactly when the update names it: it sets the
-- property of that field (either of two for add-ons and frequency), or the status to cancelled.
material_fields_iff :
    (i : UpdateWorkOrderInput) (f : MaterialChangeField)
    → (has (material_fields_from_update i) f ≡ true) ↔ Names i f
material_fields_iff i f = rw (has-names i f) (names-Names i f)

-- The work order is still a booking: no one has begun the job, and it is not over.
abbrev pub IsBooking : WorkOrderStatus → Type 0
IsBooking s = (s ≡ new) ⊎ ((s ≡ assigned) ⊎ ((s ≡ accepted) ⊎ (s ≡ travelling)))

abbrev pub IsNearVisit : WorkOrderStatus → Type 0
IsNearVisit s = (s ≡ accepted) ⊎ (s ≡ travelling)

is_empty-has :
    (fs : List MaterialChangeField) (f : MaterialChangeField)
    → has fs f ≡ true
    → is_empty fs ≡ false
is_empty-has [] f h = cc
is_empty-has (x ∷ fs) f h = refl

-- The outcomes of an assessment, on every branch.
pub record IsAssessed (status : WorkOrderStatus) (i : UpdateWorkOrderInput)
    (a : MaterialChangeAssessment) : Type 0 where
  pub allowed_iff : (a.allowed ≡ true) ↔ (
      (material_fields_from_update i ≡ [])
      ⊎ ((has (material_fields_from_update i) completed_at ≡ false) × IsBooking status))
  pub reason_iff : (a.blocked_reason ≡ none) ↔ (a.allowed ≡ true)
  pub override_iff :
      (a.override_reason_required ≡ true)
      ↔ ((a.allowed ≡ true) × (material_fields_from_update i ≢ []) × IsNearVisit status)

-- A change is allowed exactly when it is not material, or leaves the completion time alone on a work
-- order that is new, assigned, accepted or travelling; it is refused with a reason exactly when it is
-- not allowed; and a reason is required exactly for an allowed material change once the work order is
-- accepted or travelling.
pub assess-IsAssessed :
    (status : WorkOrderStatus) (i : UpdateWorkOrderInput)
    → IsAssessed status i (assess_material_change status i)
unfolding assess_material_change
assess-IsAssessed status i = record {
  allowed_iff = ground arith;
  reason_iff = ground arith;
  override_iff = ground arith;
}
