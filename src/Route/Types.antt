-- ===== src/Route/Types.antt =====
-- processing-route.types.ts, the private types of route-engine.service.ts and auth.types.ts.
-- Row ids are UUIDs that the code only compares, so they are numbers; actor ids, codes and step
-- types are texts; sort orders are never negative.
use laundry_api.Base.{ℕ, String, Bool, Option}

pub data StaffRole : Type 0 where
  pickup wash delivery admin : StaffRole

pub data ActorType : Type 0 where
  customer staff : ActorType

pub record ActorContext : Type 0 where
  pub actor_type : ActorType
  pub actor_id : String
  pub staff_role : Option StaffRole

pub data StepSource : Type 0 where
  route override : StepSource

pub data StepStatus : Type 0 where
  in_progress completed : StepStatus

-- `StepCandidate` of next-step.ts, which has the fields of `StepRow`.
pub record StepCandidate : Type 0 where
  pub id : ℕ
  pub step_type : String
  pub display_name : String
  pub sort_order : ℕ

abbrev pub StepRow : Type 0
StepRow = StepCandidate

pub record NextStepDecision : Type 0 where
  pub step : StepCandidate
  pub source : StepSource

pub record StepView : Type 0 where
  pub step_id : ℕ
  pub step_type : String
  pub display_name : String
  pub sort_order : ℕ

-- A step with its status: `StepView & { status }`.
pub record CurrentStepView : Type 0 where
  pub step_id : ℕ
  pub step_type : String
  pub display_name : String
  pub sort_order : ℕ
  pub status : StepStatus

pub record CurrentStateView : Type 0 where
  pub order_item_id : ℕ
  pub plan_id : ℕ
  pub route_code : String
  pub current_step_source : StepSource
  pub current_step : Option CurrentStepView
  pub next_step : Option StepView
  pub is_plan_completed : Bool

pub record OverrideStepRow : Type 0 where
  pub id : ℕ
  pub step_type : String
  pub display_name : String
  pub sort_order : ℕ
  pub flow_code : String
  pub current_offset : ℕ
  pub base_step_sort_order : ℕ

-- The row that `include: { plan: { include: { route: true } } }` joins.
pub record LoadedPlan : Type 0 where
  pub id : ℕ
  pub route_id : ℕ
  pub route_code : String

pub record LoadedState : Type 0 where
  pub order_item_id : ℕ
  pub plan_id : ℕ
  pub plan : LoadedPlan
  pub current_step_source : StepSource
  pub current_route_step : Option StepRow
  pub current_override_id : Option ℕ
  pub current_override_step : Option OverrideStepRow
  pub current_step_status : StepStatus
