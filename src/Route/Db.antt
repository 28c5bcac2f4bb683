-- ===== src/Route/Db.antt =====
-- The tables that the engine reads and writes (prisma/schema.prisma), and the reads and writes
-- that it repeats.
use laundry_api.Base.{ℕ, String, Bool, Option, List, [], ◌∷◌, ◌++◌, ◌==◌, ◌&&◌, update_where}
use laundry_api.Route.Types.{ActorContext, StepRow, StepSource, StepStatus, OverrideStepRow}
use laundry_api.Route.NextStep.{TemplateStep}
use laundry_api.Orders.Types.{OrderItemLocation, OrderItemStatus}

pub record RouteTableRow : Type 0 where
  pub id : ℕ
  pub code : String
  pub active : Bool

pub record RouteStepTableRow : Type 0 where
  pub id : ℕ
  pub route_id : ℕ
  pub step_type : String
  pub sort_order : ℕ
  pub display_name : String

-- A template with its steps.
pub record FlowTemplate : Type 0 where
  pub code : String
  pub active : Bool
  pub steps : List TemplateStep

pub data PlanStatus : Type 0 where
  active superseded : PlanStatus

pub record PlanTableRow : Type 0 where
  pub id : ℕ
  pub order_item_id : ℕ
  pub route_id : ℕ
  pub status : PlanStatus
  pub reason : Option String
  pub superseded_at : Option ℕ

pub record StateTableRow : Type 0 where
  pub order_item_id : ℕ
  pub plan_id : ℕ
  pub current_step_source : StepSource
  pub current_route_step_id : Option ℕ
  pub current_override_id : Option ℕ
  pub current_step_status : StepStatus

pub data OverrideStatus : Type 0 where
  active completed : OverrideStatus

pub record OverrideTableRow : Type 0 where
  pub id : ℕ
  pub order_item_id : ℕ
  pub flow_code : String
  pub current_offset : ℕ
  pub base_step_sort_order : ℕ
  pub step_type : String
  pub sort_order : ℕ
  pub display_name : String
  pub status : OverrideStatus
  pub created_at : ℕ

pub data EventType : Type 0 where
  plan_created plan_superseded plan_completed step_started step_completed : EventType

pub record ProcessEvent : Type 0 where
  pub order_item_id : ℕ
  pub plan_id : ℕ
  pub event_type : EventType
  pub route_step_id : Option ℕ
  pub override_id : Option ℕ
  pub actor : ActorContext
  pub reason : Option String

-- The JSON texts that the code writes to `before_state` and `after_state`.
pub data AuditState : Type 0 where
  no_state : AuditState
  -- { routeCode }
  at_route : String → AuditState
  -- { routeCode, planId } and { routeCode, newPlanId }
  at_plan : String → ℕ → AuditState
  -- { flowCode, baseStepSortOrder, firstStepType }
  at_flow : String → ℕ → String → AuditState
  -- { resumedStepType }
  resumed : String → AuditState
  -- { completedStepType, nextStepType }
  advanced : String → String → AuditState
  -- { completedStepType, flowCode }
  flow_done : String → String → AuditState
  -- { completedStepType, nextStepType, nextStepSource }
  moved : String → String → StepSource → AuditState
  -- { tagBarcode, status }
  tagged : String → OrderItemStatus → AuditState
  -- { status, location }
  placed : OrderItemStatus → OrderItemLocation → AuditState

pub data AuditAction : Type 0 where
  plan_created route_switched override_activated overrides_skipped : AuditAction
  plan_completed step_completed item_tagged item_scan_outbound item_handed_off : AuditAction

-- A row of `audit_logs`, whose target is an order item.
pub record AuditLog : Type 0 where
  pub actor : ActorContext
  pub action_type : AuditAction
  pub target_id : ℕ
  pub before_state : AuditState
  pub after_state : AuditState
  pub reason : Option String

pub record Db : Type 0 where
  pub routes : List RouteTableRow
  pub route_steps : List RouteStepTableRow
  pub templates : List FlowTemplate
  pub plans : List PlanTableRow
  pub states : List StateTableRow
  pub overrides : List OverrideTableRow
  -- Newest last.
  pub events : List ProcessEvent
  pub audit_logs : List AuditLog

-- What the database and the clock supply to a transaction: the id of the row that it creates and
-- the current time.
pub record Env : Type 0 where
  pub new_id : ℕ
  pub now : ℕ

abbrev pub is_active : OverrideStatus → Bool
is_active OverrideStatus.active = Bool.true
is_active OverrideStatus.completed = Bool.false

-- `toStepRow`, and `include: { currentRouteStep: true }` read at `StepRow`.
abbrev pub to_step_row : RouteStepTableRow → StepRow
to_step_row s = record {
  id = s.id;
  step_type = s.step_type;
  display_name = s.display_name;
  sort_order = s.sort_order;
}

-- The part of an override row that `OverrideStepRow` holds.
abbrev pub to_override_step : OverrideTableRow → OverrideStepRow
to_override_step o = record {
  id = o.id;
  step_type = o.step_type;
  display_name = o.display_name;
  sort_order = o.sort_order;
  flow_code = o.flow_code;
  current_offset = o.current_offset;
  base_step_sort_order = o.base_step_sort_order;
}

-- `where: { orderItemId, status: 'ACTIVE' }` on the overrides.
abbrev pub active_override_of : ℕ → OverrideTableRow → Bool
active_override_of item o = o.order_item_id == item && is_active o.status

-- `itemProcessingState.update({ where: { orderItemId } })`.
abbrev pub update_state : ℕ → (StateTableRow → StateTableRow) → Db → Db
update_state item f db = record db {
  states = update_where (λ s. s.order_item_id == item) f db.states;
}

-- `itemProcessEvent.create`.
abbrev pub create_event : ProcessEvent → Db → Db
create_event e db = record db { events = db.events ++ e ∷ [] }

-- `AuditLogger.logInTransaction`.
abbrev pub log_in_transaction : AuditLog → Db → Db
log_in_transaction a db = record db { audit_logs = db.audit_logs ++ a ∷ [] }
