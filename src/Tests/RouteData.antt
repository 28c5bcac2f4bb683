-- ===== src/Tests/RouteData.antt =====
-- An item on the first of three steps of its route, and the same item in two nested rewash flows.
use laundry_api.Store.Laws.{IsUnique}
use laundry_api.Base.{◌==◌, ℕ, refl, true, none, some, [], ◌∷◌, arith}
use laundry_api.Store.InOrder.{in_order}
use laundry_api.Route.Types.{ActorContext, ActorType, StaffRole, StepSource, StepStatus}
use laundry_api.Route.NextStep.{TemplateStep}
use laundry_api.Route.Db.{
  Db, FlowTemplate, OverrideStatus, OverrideTableRow, PlanStatus, PlanTableRow, RouteStepTableRow,
  RouteTableRow, StateTableRow,
}
use laundry_api.Route.Engine.Standing.{Standing, state_of}
use laundry_api.Route.Engine.Walk.{OnRoute}
use laundry_api.Tests.Tables.{IsUnique-Ascending, IsUnique-count}

abbrev pub washer : ActorContext
washer = record { actor_type = ActorType.staff; actor_id = "w1"; staff_role = some StaffRole.wash }

abbrev pub standard : RouteTableRow
standard = record { id = 1; code = "STANDARD"; active = true }

abbrev pub washing : RouteStepTableRow
washing = record {
  id = 10;
  route_id = 1;
  step_type = "WASH";
  sort_order = 10;
  display_name = "Wash";
}

abbrev pub drying : RouteStepTableRow
drying = record { id = 11; route_id = 1; step_type = "DRY"; sort_order = 20; display_name = "Dry" }

abbrev pub folding : RouteStepTableRow
folding = record {
  id = 12;
  route_id = 1;
  step_type = "FOLD";
  sort_order = 30;
  display_name = "Fold";
}

abbrev pub inspect : TemplateStep
inspect = record { offset = 1; step_type = "INSPECT"; display_name = "Inspect" }

abbrev pub rewash : TemplateStep
rewash = record { offset = 2; step_type = "REWASH"; display_name = "Rewash" }

abbrev pub rewash_flow : FlowTemplate
rewash_flow = record { code = "REWASH"; active = true; steps = inspect ∷ rewash ∷ [] }

abbrev pub plan : PlanTableRow
plan = record {
  id = 5;
  order_item_id = 7;
  route_id = 1;
  status = PlanStatus.active;
  reason = none;
  superseded_at = none;
}

-- On the route's first step.
abbrev pub on_washing : StateTableRow
on_washing = record {
  order_item_id = 7;
  plan_id = 5;
  current_step_source = StepSource.route;
  current_route_step_id = some 10;
  current_override_id = none;
  current_step_status = StepStatus.in_progress;
}

abbrev pub on_flow : StateTableRow
on_flow = record on_washing {
  current_step_source = StepSource.override;
  current_override_id = some 21;
}

-- Two nested flows, which were interrupted at their first and at their last step.
abbrev pub older : OverrideTableRow
older = record {
  id = 20;
  order_item_id = 7;
  flow_code = "REWASH";
  current_offset = 1;
  base_step_sort_order = 10;
  step_type = "INSPECT";
  sort_order = 11;
  display_name = "Inspect";
  status = OverrideStatus.active;
  created_at = 100;
}

abbrev pub newer : OverrideTableRow
newer = record {
  id = 21;
  order_item_id = 7;
  flow_code = "REWASH";
  current_offset = 2;
  base_step_sort_order = 10;
  step_type = "REWASH";
  sort_order = 12;
  display_name = "Rewash";
  status = OverrideStatus.active;
  created_at = 200;
}

abbrev pub quiet_db : Db
quiet_db = record {
  routes = standard ∷ [];
  route_steps = washing ∷ drying ∷ folding ∷ [];
  templates = rewash_flow ∷ [];
  plans = plan ∷ [];
  states = on_washing ∷ [];
  overrides = [];
  events = [];
  audit_logs = [];
}

abbrev pub flow_db : Db
flow_db = record quiet_db { states = on_flow ∷ []; overrides = older ∷ newer ∷ [] }

pub quiet-Standing : Standing ⦃prisma = in_order⦄ quiet_db 7 on_washing plan standard
quiet-Standing = record {
  state_found = refl;
  state_unique = IsUnique-count (state_of 7) quiet_db.states (omega arith);
  plan_found = refl;
  route_found = refl;
}

pub flow-Standing : Standing ⦃prisma = in_order⦄ flow_db 7 on_flow plan standard
flow-Standing = record {
  state_found = refl;
  state_unique = IsUnique-count (state_of 7) flow_db.states (omega arith);
  plan_found = refl;
  route_found = refl;
}

pub step-ids : (k : ℕ) → IsUnique (λ r. r.id == k) quiet_db.route_steps
step-ids k =
    IsUnique-Ascending (λ r. r.id) quiet_db.route_steps k
      ((omega arith, (omega arith, tt)), ((omega arith, tt), (tt, tt)))

pub quiet-OnRoute : OnRoute ⦃prisma = in_order⦄ quiet_db 7 on_washing plan standard washing
quiet-OnRoute = record {
  standing = quiet-Standing;
  running = refl;
  on_route = refl;
  step_found = refl;
  quiet = refl;
  step_ids = step-ids;
}
