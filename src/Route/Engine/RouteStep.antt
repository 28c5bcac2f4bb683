-- ===== src/Route/Engine/RouteStep.antt =====
-- `completeRouteStep`, and the event and state writes that the engine repeats.
use laundry_api.Base.{ℕ, Option, none, some}
use laundry_api.Errors.{type_error}
use laundry_api.Store.{Prisma}
use laundry_api.Tx.{Tx, ◌>>=◌, ◌>>◌, pure, gets, modify, require}
use laundry_api.Route.Types.{
  ActorContext, CurrentStateView, LoadedState, NextStepDecision, StepRow, StepSource, StepStatus,
}
use laundry_api.Route.Db.{
  Db, AuditState, AuditAction, EventType, ProcessEvent, create_event, update_state,
}
use laundry_api.Route.Load.{find_next_step}
use laundry_api.Route.View.{build_view, step_of}
use laundry_api.Route.Engine.Plans.{log_item}

-- An event of the loaded plan.
abbrev pub plan_event : LoadedState → ActorContext → EventType → Option ℕ → Option ℕ → ProcessEvent
plan_event state actor type route_step_id override_id = record {
  order_item_id = state.order_item_id;
  plan_id = state.plan_id;
  event_type = type;
  route_step_id = route_step_id;
  override_id = override_id;
  actor = actor;
  reason = none;
}

-- The update of `itemProcessingState` by which a step becomes the current one.
abbrev pub stand_on : StepSource → Option ℕ → Option ℕ → Db → ℕ → Db
stand_on source route_step_id override_id db item =
    update_state item
      (λ s. record s {
        current_step_source = source;
        current_route_step_id = route_step_id;
        current_override_id = override_id;
        current_step_status = StepStatus.in_progress;
      })
      db

-- `isNextOverride ? null : step.id` and `isNextOverride ? step.id : null`.
abbrev pub route_id_of : NextStepDecision → StepSource → Option ℕ
route_id_of d StepSource.route = some d.step.id
route_id_of d StepSource.override = none

abbrev pub override_id_of : NextStepDecision → StepSource → Option ℕ
override_id_of d StepSource.route = none
override_id_of d StepSource.override = some d.step.id

abbrev pub route_step_of : NextStepDecision → StepSource → Option StepRow
route_step_of d StepSource.route = some d.step
route_step_of d StepSource.override = none

module _ ⦃prisma : Prisma⦄ where
  -- `completeRouteStep` where a step follows.
  unfoldable pub move_to_step :
      LoadedState → ActorContext → StepRow → NextStepDecision → Tx Db CurrentStateView
  unfolding build_view
  move_to_step state actor current next = do
    let item = state.order_item_id
    let route_step_id = route_id_of next next.source
    let override_id = override_id_of next next.source
    modify (λ db. stand_on next.source route_step_id override_id db item)
    modify (create_event (plan_event state actor EventType.step_started route_step_id override_id))
    modify (
        log_item actor AuditAction.step_completed item
          (AuditState.moved current.step_type next.step.step_type next.source) none)
    next_next ← gets (λ db. find_next_step db item next.step.sort_order state.plan.route_id)
    pure (
        build_view
          (record state {
            current_step_source = next.source;
            current_route_step = route_step_of next next.source;
            current_override_id = override_id;
            current_override_step = none;
            current_step_status = StepStatus.in_progress;
          })
          (step_of next_next))

  -- `completeRouteStep` where none does.
  unfoldable pub finish_plan : LoadedState → ActorContext → StepRow → Tx Db CurrentStateView
  unfolding build_view
  finish_plan state actor current = do
    let item = state.order_item_id
    modify (update_state item (λ s. record s { current_step_status = StepStatus.completed }))
    modify (create_event (plan_event state actor EventType.plan_completed (some current.id) none))
    modify (
        log_item actor AuditAction.plan_completed item (AuditState.at_route state.plan.route_code)
          none)
    pure (build_view (record state { current_step_status = StepStatus.completed }) none)

  -- The two branches of `completeRouteStep` on `nextResult`.
  unfoldable pub leave_route_step :
      LoadedState → ActorContext → StepRow → Option NextStepDecision → Tx Db CurrentStateView
  unfolding move_to_step finish_plan
  leave_route_step state actor current none = finish_plan state actor current
  leave_route_step state actor current (some next) = move_to_step state actor current next

  -- `completeRouteStep`.
  unfoldable pub complete_route_step : LoadedState → ActorContext → Tx Db CurrentStateView
  complete_route_step state actor = do
    current ← require state.current_route_step type_error
    modify (create_event (plan_event state actor EventType.step_completed (some current.id) none))
    next ← gets (λ db. find_next_step db state.order_item_id current.sort_order state.plan.route_id)
    leave_route_step state actor current next
