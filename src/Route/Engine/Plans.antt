-- ===== src/Route/Engine/Plans.antt =====
-- `createPlan`, `getCurrentState`, `startCurrentStep` and `switchRoute`.
use laundry_api.Base.{ℕ, String, Bool, true, false, Option, none, some, ◌==◌, ◌&&◌, update_where}
use laundry_api.Errors.{of_route, plan_already_exists, step_not_in_progress, domain}
use laundry_api.Store.{Prisma}
use laundry_api.Tx.{Tx, ◌>>=◌, ◌>>◌, pure, gets, modify, throw_if}
use laundry_api.Route.Types.{ActorContext, CurrentStateView}
use laundry_api.Route.Db.{
  Db, Env, AuditState, AuditAction, EventType, PlanStatus, PlanTableRow, create_event,
  log_in_transaction,
}
use laundry_api.Route.Load.{RouteRow, load_route, load_state, find_next_step, init_plan}
use laundry_api.Route.View.{build_view, current_sort_order, is_completed, step_of}

abbrev pub plan_is_active : PlanStatus → Bool
plan_is_active PlanStatus.active = true
plan_is_active PlanStatus.superseded = false

-- `where: { orderItemId, status: 'ACTIVE' }` on the plans.
abbrev pub active_plan_of : ℕ → PlanTableRow → Bool
active_plan_of item p = p.order_item_id == item && plan_is_active p.status

abbrev pub found {ℓ} : {A : Type ℓ} → Option A → Bool
found none = false
found (some a) = true

-- The audit record of an item, with no state before.
abbrev pub log_item : ActorContext → AuditAction → ℕ → AuditState → Option String → Db → Db
log_item actor action item after reason = log_in_transaction (record {
  actor = actor;
  action_type = action;
  target_id = item;
  before_state = AuditState.no_state;
  after_state = after;
  reason = reason;
})

module _ ⦃prisma : Prisma⦄ where
  -- `createPlan` once the route is loaded and no active plan is found.
  unfoldable pub new_plan :
      Env → ℕ → RouteRow → ActorContext → Option String → Tx Db CurrentStateView
  new_plan env item route actor reason = do
    view ← init_plan env item route actor reason
    modify (
        log_item actor AuditAction.plan_created item (AuditState.at_plan route.code view.plan_id)
          reason)
    pure view

  -- `createPlan`.
  unfoldable pub create_plan :
      Env → ℕ → String → ActorContext → Option String → Tx Db CurrentStateView
  create_plan env item route_code actor reason = do
    route ← load_route route_code
    existing ← gets (λ db. prisma.find_first (active_plan_of item) db.plans)
    throw_if (found existing) (domain (of_route (plan_already_exists item)))
    new_plan env item route actor reason

  -- `getCurrentState`.
  unfoldable pub get_current_state : ℕ → Tx Db CurrentStateView
  unfolding current_sort_order build_view
  get_current_state item = do
    state ← load_state item
    next ← gets (λ db. find_next_step db item (current_sort_order state) state.plan.route_id)
    pure (build_view state (step_of next))

  -- `startCurrentStep`.
  unfoldable pub start_current_step : ℕ → Tx Db CurrentStateView
  unfolding current_sort_order build_view
  start_current_step item = do
    state ← load_state item
    throw_if (is_completed state.current_step_status) (domain (of_route step_not_in_progress))
    next ← gets (λ db. find_next_step db item (current_sort_order state) state.plan.route_id)
    pure (build_view state (step_of next))

  -- `switchRoute`.
  unfoldable pub switch_route : Env → ℕ → String → ActorContext → String → Tx Db CurrentStateView
  switch_route env item new_route_code actor reason = do
    state ← load_state item
    modify (λ db. record db {
      plans =
          update_where (λ p. p.id == state.plan_id)
            (λ p. record p { status = PlanStatus.superseded; superseded_at = some env.now })
            db.plans;
    })
    modify (
        create_event (record {
          order_item_id = item;
          plan_id = state.plan_id;
          event_type = EventType.plan_superseded;
          route_step_id = none;
          override_id = none;
          actor = actor;
          reason = some reason;
        }))
    new_route ← load_route new_route_code
    view ← init_plan env item new_route actor (some reason)
    modify (
        log_in_transaction (record {
          actor = actor;
          action_type = AuditAction.route_switched;
          target_id = item;
          before_state = AuditState.at_route state.plan.route_code;
          after_state = AuditState.at_plan new_route_code view.plan_id;
          reason = some reason;
        }))
    pure view
