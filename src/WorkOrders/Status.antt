-- ===== src/WorkOrders/Status.antt =====
-- The work-order enumerations that apps/api takes from its schema, and the transitions of
-- apps/api/src/work-orders/work-orders.service.ts.
use hestiva_os.Base.{List, [], ◌∷◌}

pub data WorkOrderStatus : Type 0 where
  new assigned accepted travelling on_site waiting_for_parts : WorkOrderStatus
  interrupted completed closed cancelled : WorkOrderStatus

pub data WorkOrderAccessReadiness : Type 0 where
  required_missing received needs_review expired : WorkOrderAccessReadiness
  arranged_another_way not_required : WorkOrderAccessReadiness

-- `validTransitions`
unfoldable pub valid_transitions : WorkOrderStatus → List WorkOrderStatus
valid_transitions new = assigned ∷ cancelled ∷ []
valid_transitions assigned = accepted ∷ new ∷ cancelled ∷ []
valid_transitions accepted = travelling ∷ on_site ∷ assigned ∷ cancelled ∷ []
valid_transitions travelling = on_site ∷ accepted ∷ cancelled ∷ []
valid_transitions on_site = waiting_for_parts ∷ completed ∷ cancelled ∷ []
valid_transitions waiting_for_parts = on_site ∷ completed ∷ cancelled ∷ []
valid_transitions interrupted = []
valid_transitions completed = closed ∷ on_site ∷ []
valid_transitions closed = []
valid_transitions cancelled = []
