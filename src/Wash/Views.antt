-- ===== src/Wash/Views.antt =====
-- `queryProcessingState` and `buildItemView` of prisma-wash.repository.ts. Both read the database
-- as it was committed before the transaction of the caller.
use laundry_api.Base.{ℕ, Option, none, some, ◌==◌, find?, ltb, ◌+◌}
use laundry_api.Route.Db.{
  Db, OverrideTableRow, PlanTableRow, RouteStepTableRow, RouteTableRow, StateTableRow, to_step_row,
}
use laundry_api.Route.Load.{by_id, flow_steps, next_route_step}
use laundry_api.Route.NextStep.{TemplateStep}
use laundry_api.Route.Types.{CurrentStateView, StepRow, StepSource}
use laundry_api.Route.View.{current_view_of, is_completed, override_candidate, view_of}
use laundry_api.Store.{Prisma}
use laundry_api.Orders.Types.{OrderItem}
use laundry_api.Wash.Types.{WashItemView}

-- `state.currentRouteStep`, or null.
abbrev pub step_row? : Option RouteStepTableRow → Option StepRow
step_row? none = none
step_row? (some s) = some (to_step_row s)

-- `currentStep`, without its status: the override's where the item is on one, else the route's.
abbrev pub shown_step :
    StepSource → Option RouteStepTableRow → Option OverrideTableRow → Option StepRow
shown_step StepSource.override route_step none = step_row? route_step
shown_step StepSource.override route_step (some o) = some (override_candidate o)
shown_step StepSource.route route_step override_row = step_row? route_step

-- The next step of the override's flow, as the override would stand on it.
abbrev pub next_of_flow : OverrideTableRow → Option TemplateStep → Option StepRow
next_of_flow o none = none
next_of_flow o (some t) = some (record {
  id = o.id;
  step_type = t.step_type;
  display_name = t.display_name;
  sort_order = o.base_step_sort_order + t.offset;
})

module _ ⦃prisma : Prisma⦄ where
  -- `nextStep`.
  abbrev pub shown_next :
      Db → ℕ → StepSource → Option RouteStepTableRow → Option OverrideTableRow → Option StepRow
  shown_next db route_id StepSource.override route_step none = none
  shown_next db route_id StepSource.override route_step (some o) =
      next_of_flow o (find? (λ t. ltb o.current_offset t.offset) (flow_steps db o.flow_code))
  shown_next db route_id StepSource.route none override_row = none
  shown_next db route_id StepSource.route (some s) override_row =
      step_row? (next_route_step db route_id s.sort_order)

  -- The view of a state row with the rows that it refers to.
  abbrev pub state_view : Db → ℕ → StateTableRow → PlanTableRow → RouteTableRow → CurrentStateView
  state_view db item s plan route =
      let route_step = by_id (λ r. r.id) s.current_route_step_id db.route_steps in
      let override_row = by_id (λ o. o.id) s.current_override_id db.overrides in
      record {
        order_item_id = item;
        plan_id = s.plan_id;
        route_code = route.code;
        current_step_source = s.current_step_source;
        current_step =
            current_view_of s.current_step_status
              (shown_step s.current_step_source route_step override_row);
        next_step =
            view_of (shown_next db plan.route_id s.current_step_source route_step override_row);
        is_plan_completed = is_completed s.current_step_status;
      }

  -- `queryProcessingState`. A state without its plan or its route, which the foreign keys exclude,
  -- is shown as none.
  unfoldable pub query_processing_state : Db → ℕ → Option CurrentStateView
  query_processing_state db item =
      elim (prisma.find_first (λ s. s.order_item_id == item) db.states) [
        | none ↦ none
        | some s ↦ elim (by_id (λ p. p.id) (some s.plan_id) db.plans) [
          | none ↦ none
          | some plan ↦ elim (by_id (λ r. r.id) (some plan.route_id) db.routes) [
            | none ↦ none
            | some route ↦ some (state_view db item s plan route)
          ]
        ]
      ]

  -- `buildItemView`.
  abbrev pub build_item_view : Db → OrderItem → WashItemView
  build_item_view committed i = record {
    item_id = i.id;
    order_id = i.order_id;
    catalog_item_code = i.catalog_item_code;
    display_name_snapshot = i.display_name_snapshot;
    status = i.status;
    location = i.location;
    tag_barcode = i.tag_barcode;
    estimated_min_amount = i.estimated_min_amount;
    processing_state = query_processing_state committed i.id;
  }
