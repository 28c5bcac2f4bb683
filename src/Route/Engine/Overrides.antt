-- ===== src/Route/Engine/Overrides.antt =====
-- `activateOverrides` and `skipRemainingOverrides`.
use mathlib.Core.Option
use laundry_api.Base.{
  ℕ, String, Option, none, some, List, [], ◌∷◌, ◌++◌, first?, sort_by, update_where,
}
use laundry_api.Errors.{type_error}
use laundry_api.Store.{Prisma}
use laundry_api.Tx.{Tx, ◌>>=◌, ◌>>◌, pure, gets, modify, require}
use laundry_api.Route.Types.{
  ActorContext, CurrentStateView, LoadedState, OverrideStepRow, StepSource, StepStatus,
}
use laundry_api.Route.Db.{
  Db, Env, AuditState, AuditAction, EventType, OverrideStatus, OverrideTableRow, RouteStepTableRow,
  active_override_of, create_event, to_override_step, to_step_row, update_state,
}
use laundry_api.Route.Load.{load_state, find_next_step, next_route_step}
use laundry_api.Route.View.{build_view, step_of}
use laundry_api.Route.Engine.Plans.{log_item}
use laundry_api.Route.Engine.RouteStep.{plan_event, stand_on}

-- An element of `overrides` of `activateOverrides`.
pub record OverrideInput : Type 0 where
  pub step_type : String
  pub sort_order : ℕ
  pub display_name : String
  pub offset : ℕ

-- The row that `activateOverrides` creates, on the flow's first step.
abbrev pub new_override : Env → ℕ → String → ℕ → OverrideInput → OverrideTableRow
new_override env item flow_code base first = record {
  id = env.new_id;
  order_item_id = item;
  flow_code = flow_code;
  current_offset = first.offset;
  base_step_sort_order = base;
  step_type = first.step_type;
  sort_order = first.sort_order;
  display_name = first.display_name;
  status = OverrideStatus.active;
  created_at = env.now;
}

-- `state.currentOverrideStep?.sortOrder ?? 0`.
abbrev pub override_sort_order : Option OverrideStepRow → ℕ
override_sort_order none = 0
override_sort_order (some o) = o.sort_order

module _ ⦃prisma : Prisma⦄ where
  -- `activateOverrides`, from the state and the first step on.
  unfoldable pub raise_override :
      Env → ℕ → String → ℕ → ActorContext → LoadedState → OverrideInput → Tx Db CurrentStateView
  unfolding build_view
  raise_override env item flow_code base actor state first = do
    let row = new_override env item flow_code base first
    modify (λ db. record db { overrides = db.overrides ++ row ∷ [] })
    modify (λ db. stand_on StepSource.override none (some row.id) db item)
    modify (create_event (plan_event state actor EventType.step_started none (some row.id)))
    modify (
        log_item actor AuditAction.override_activated item
          (AuditState.at_flow flow_code base first.step_type) none)
    next ← gets (λ db. find_next_step db item row.sort_order state.plan.route_id)
    pure (
        build_view
          (record state {
            current_step_source = StepSource.override;
            current_route_step = none;
            current_override_id = some row.id;
            current_override_step = some (to_override_step row);
            current_step_status = StepStatus.in_progress;
          })
          (step_of next))

  -- `activateOverrides`.
  unfoldable pub activate_overrides :
      Env → ℕ → String → List OverrideInput → ℕ → ActorContext → Tx Db CurrentStateView
  activate_overrides env item flow_code overrides base actor = do
    state ← load_state item
    first ← require (first? (sort_by (λ o. o.offset) overrides)) type_error
    raise_override env item flow_code base actor state first

  -- `skipRemainingOverrides` where a route step follows.
  unfoldable pub skip_to_route :
      LoadedState → ActorContext → RouteStepTableRow → Tx Db CurrentStateView
  unfolding build_view
  skip_to_route state actor step = do
    let item = state.order_item_id
    modify (λ db. stand_on StepSource.route (some step.id) none db item)
    modify (create_event (plan_event state actor EventType.step_started (some step.id) none))
    modify
        (log_item actor AuditAction.overrides_skipped item (AuditState.resumed step.step_type) none)
    next_next ← gets (λ db. next_route_step db state.plan.route_id step.sort_order)
    pure (
        build_view
          (record state {
            current_step_source = StepSource.route;
            current_route_step = some (to_step_row step);
            current_override_id = none;
            current_override_step = none;
            current_step_status = StepStatus.in_progress;
          })
          (Option.map to_step_row next_next))

  -- `skipRemainingOverrides` where none does.
  unfoldable pub skip_to_end : LoadedState → ActorContext → Tx Db CurrentStateView
  unfolding build_view
  skip_to_end state actor = do
    let item = state.order_item_id
    modify (
        update_state item (λ s. record s {
          current_step_status = StepStatus.completed;
          current_override_id = none;
        }))
    modify (create_event (plan_event state actor EventType.plan_completed none none))
    modify (
        log_item actor AuditAction.plan_completed item (AuditState.at_route state.plan.route_code)
          none)
    pure (build_view (record state { current_step_status = StepStatus.completed }) none)

  -- The two branches of `skipRemainingOverrides` on `nextRouteStep`.
  unfoldable pub leave_overrides :
      LoadedState → ActorContext → Option RouteStepTableRow → Tx Db CurrentStateView
  unfolding skip_to_route skip_to_end
  leave_overrides state actor (some step) = skip_to_route state actor step
  leave_overrides state actor none = skip_to_end state actor

  -- `skipRemainingOverrides`.
  unfoldable pub skip_remaining_overrides : ℕ → ActorContext → Tx Db CurrentStateView
  unfolding leave_overrides
  skip_remaining_overrides item actor = do
    state ← load_state item
    let resume_from = override_sort_order state.current_override_step
    modify (λ db. record db {
      overrides =
          update_where (active_override_of item)
            (λ o. record o { status = OverrideStatus.completed }) db.overrides;
    })
    step ← gets (λ db. next_route_step db state.plan.route_id resume_from)
    leave_overrides state actor step
