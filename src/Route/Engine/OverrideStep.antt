-- ===== src/Route/Engine/OverrideStep.antt =====
-- `completeOverrideStep`: the next step of the flow, or the pop of the override stack.
use laundry_api.Base.{ℕ, Option, none, some, ◌+◌, ◌==◌, update_where}
use laundry_api.Errors.{type_error}
use laundry_api.Store.{Prisma}
use laundry_api.Tx.{Tx, ◌>>=◌, ◌>>◌, pure, gets, modify, require}
use laundry_api.Route.Types.{
  ActorContext, CurrentStateView, LoadedState, OverrideStepRow, StepSource, StepStatus,
}
use laundry_api.Route.NextStep.{TemplateStep, next_template_step}
use laundry_api.Route.Db.{
  Db, AuditState, AuditAction, EventType, OverrideStatus, OverrideTableRow, RouteStepTableRow,
  create_event, to_override_step, to_step_row, update_state,
}
use laundry_api.Route.Load.{find_next_step, flow_steps, next_route_step, top_override}
use laundry_api.Route.View.{build_view, step_of}
use laundry_api.Route.Engine.Plans.{log_item}
use laundry_api.Route.Engine.RouteStep.{plan_event, stand_on}

-- `itemProcessingOverride.update({ where: { id } })`.
abbrev pub update_override : ℕ → (OverrideTableRow → OverrideTableRow) → Db → Db
update_override id f db = record db { overrides = update_where (λ o. o.id == id) f db.overrides }

module _ ⦃prisma : Prisma⦄ where
  -- `completeOverrideStep` where the flow template has a next step.
  unfoldable pub advance_override :
      LoadedState → ActorContext → OverrideStepRow → TemplateStep → Tx Db CurrentStateView
  unfolding build_view
  advance_override state actor current next = do
    let item = state.order_item_id
    let new_sort_order = current.base_step_sort_order + next.offset
    modify (
        update_override current.id (λ o. record o {
          current_offset = next.offset;
          step_type = next.step_type;
          display_name = next.display_name;
          sort_order = new_sort_order;
        }))
    next_result ← gets (λ db. find_next_step db item new_sort_order state.plan.route_id)
    modify (update_state item (λ s. record s { current_step_status = StepStatus.in_progress }))
    modify (create_event (plan_event state actor EventType.step_started none (some current.id)))
    modify (
        log_item actor AuditAction.step_completed item
          (AuditState.advanced current.step_type next.step_type) none)
    pure (
        build_view
          (record state {
            current_override_step = some (record current {
              step_type = next.step_type;
              display_name = next.display_name;
              sort_order = new_sort_order;
              current_offset = next.offset;
            });
            current_step_status = StepStatus.in_progress;
          })
          (step_of next_result))

  -- `completeOverrideStep` where an older override is still active.
  unfoldable pub return_to_override :
      LoadedState → ActorContext → OverrideTableRow → Tx Db CurrentStateView
  unfolding build_view
  return_to_override state actor prev = do
    let item = state.order_item_id
    modify (
        update_state item (λ s. record s {
          current_override_id = some prev.id;
          current_step_source = StepSource.override;
          current_step_status = StepStatus.in_progress;
        }))
    modify (create_event (plan_event state actor EventType.step_started none (some prev.id)))
    next_result ← gets (λ db. find_next_step db item prev.sort_order state.plan.route_id)
    pure (
        build_view
          (record state {
            current_step_source = StepSource.override;
            current_route_step = none;
            current_override_id = some prev.id;
            current_override_step = some (to_override_step prev);
            current_step_status = StepStatus.in_progress;
          })
          (step_of next_result))

  -- `completeOverrideStep` where the stack is empty and a route step follows.
  unfoldable pub resume_route :
      LoadedState → ActorContext → RouteStepTableRow → Tx Db CurrentStateView
  unfolding build_view
  resume_route state actor step = do
    let item = state.order_item_id
    modify (λ db. stand_on StepSource.route (some step.id) none db item)
    modify (create_event (plan_event state actor EventType.step_started (some step.id) none))
    next_next ← gets (λ db. find_next_step db item step.sort_order state.plan.route_id)
    pure (
        build_view
          (record state {
            current_step_source = StepSource.route;
            current_route_step = some (to_step_row step);
            current_override_id = none;
            current_override_step = none;
            current_step_status = StepStatus.in_progress;
          })
          (step_of next_next))

  -- `completeOverrideStep` where the stack is empty and the route is at its end.
  unfoldable pub finish_after_override :
      LoadedState → ActorContext → OverrideStepRow → Tx Db CurrentStateView
  unfolding build_view
  finish_after_override state actor current = do
    let item = state.order_item_id
    modify (
        update_state item (λ s. record s {
          current_step_status = StepStatus.completed;
          current_override_id = none;
        }))
    modify (create_event (plan_event state actor EventType.plan_completed none (some current.id)))
    modify (
        log_item actor AuditAction.plan_completed item (AuditState.at_route state.plan.route_code)
          none)
    pure (
        build_view
          (record state {
            current_override_id = none;
            current_override_step = none;
            current_step_status = StepStatus.completed;
          })
          none)

  -- The branches of `completeOverrideStep` below the pop.
  unfoldable pub leave_override :
      LoadedState
      → ActorContext
      → OverrideStepRow
      → Option OverrideTableRow
      → Option RouteStepTableRow
      → Tx Db CurrentStateView
  unfolding return_to_override resume_route finish_after_override
  leave_override state actor current (some prev) step = return_to_override state actor prev
  leave_override state actor current none (some step) = resume_route state actor step
  leave_override state actor current none none = finish_after_override state actor current

  -- `completeOverrideStep` where the flow template is exhausted: the override is popped.
  unfoldable pub pop_override :
      LoadedState → ActorContext → OverrideStepRow → Tx Db CurrentStateView
  pop_override state actor current = do
    let item = state.order_item_id
    modify (update_override current.id (λ o. record o { status = OverrideStatus.completed }))
    modify (
        log_item actor AuditAction.step_completed item
          (AuditState.flow_done current.step_type current.flow_code) none)
    prev ← gets (λ db. top_override db item)
    step ← gets (λ db. next_route_step db state.plan.route_id current.sort_order)
    leave_override state actor current prev step

  -- The branches of `completeOverrideStep` on `nextTemplateStep`.
  unfoldable pub leave_override_step :
      LoadedState → ActorContext → OverrideStepRow → Option TemplateStep → Tx Db CurrentStateView
  unfolding advance_override pop_override
  leave_override_step state actor current (some next) = advance_override state actor current next
  leave_override_step state actor current none = pop_override state actor current

  -- `completeOverrideStep`.
  unfoldable pub complete_override_step : LoadedState → ActorContext → Tx Db CurrentStateView
  complete_override_step state actor = do
    current ← require state.current_override_step type_error
    modify (create_event (plan_event state actor EventType.step_completed none (some current.id)))
    next ← gets (λ db. next_template_step (flow_steps db current.flow_code) current.current_offset)
    leave_override_step state actor current next
