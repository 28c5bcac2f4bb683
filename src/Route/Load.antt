-- ===== src/Route/Load.antt =====
-- route-engine.service.ts: what its operations share. `loadRoute`, `loadState`, `findNextStep`,
-- `initPlan`.
pub mod Offered
pub mod Offers
pub mod Search
pub mod Top
use mathlib.Core.Option
use laundry_api.Base.{
  map, ℕ, String, Bool, true, false, not, Option, none, some, List, [], ◌∷◌, ◌++◌, ◌==◌, ◌&&◌,
  str_eq, ltb, if◌then◌else◌, first?, second?, update_where,
}
use laundry_api.Errors.{of_route, invalid_route_code, no_active_plan, domain, type_error}
use laundry_api.Store.{Prisma}
use laundry_api.Tx.{Tx, ◌>>=◌, ◌>>◌, pure, gets, modify, require}
use laundry_api.Route.Types.{
  ActorContext, StepRow, StepSource, StepStatus, OverrideStepRow, LoadedState, StepView,
  CurrentStepView, CurrentStateView, NextStepDecision,
}
use laundry_api.Route.View.{
  to_step_view, with_status, override_as_step, override_candidate, is_completed, step_of_source,
  current_step_of, sort_order_or_zero, current_sort_order, view_of, current_view_of, build_view,
  step_of,
}
use laundry_api.Route.NextStep.{pick_next_step, find_next_template_step, TemplateStep}
use laundry_api.Route.Db.{
  Db, Env, EventType, FlowTemplate, OverrideTableRow, PlanStatus, RouteStepTableRow, StateTableRow,
  active_override_of, create_event, to_override_step, to_step_row,
}

-- `RouteRow`: a route with its steps, first to last.
pub record RouteRow : Type 0 where
  pub id : ℕ
  pub code : String
  pub steps : List StepRow

-- `where: { routeId, sortOrder: { gt } }`.
abbrev pub step_after : ℕ → ℕ → RouteStepTableRow → Bool
step_after route_id sort_order s = s.route_id == route_id && ltb sort_order s.sort_order

-- The update of the upsert in `initPlan`: it leaves `currentOverrideId` as it is.
abbrev pub start_plan : ℕ → ℕ → StateTableRow → StateTableRow
start_plan plan_id step_id s = record s {
  plan_id = plan_id;
  current_step_source = StepSource.route;
  current_route_step_id = some step_id;
  current_step_status = StepStatus.in_progress;
}

-- The create of the upsert in `initPlan`.
abbrev pub new_state : ℕ → ℕ → ℕ → StateTableRow
new_state item plan_id step_id = record {
  order_item_id = item;
  plan_id = plan_id;
  current_step_source = StepSource.route;
  current_route_step_id = some step_id;
  current_override_id = none;
  current_step_status = StepStatus.in_progress;
}

-- `itemProcessingState.upsert`, given the row that `where: { orderItemId }` finds.
abbrev pub upsert_state : ℕ → ℕ → ℕ → Option StateTableRow → List StateTableRow → List StateTableRow
upsert_state item plan_id step_id none states = states ++ new_state item plan_id step_id ∷ []
upsert_state item plan_id step_id (some s) states =
    update_where (λ s. s.order_item_id == item) (start_plan plan_id step_id) states

module _ ⦃prisma : Prisma⦄ where
  -- `processingRouteStep.findFirst({ where: { routeId, sortOrder: { gt } }, orderBy })`.
  abbrev pub next_route_step : Db → ℕ → ℕ → Option RouteStepTableRow
  next_route_step db route_id sort_order =
      prisma.find_first_asc (λ s. s.sort_order) (step_after route_id sort_order) db.route_steps

  -- `itemProcessingOverride.findFirst({ where: { orderItemId, status: 'ACTIVE' }, orderBy })`.
  abbrev pub top_override : Db → ℕ → Option OverrideTableRow
  top_override db item =
      prisma.find_first_desc (λ o. o.created_at) (active_override_of item) db.overrides

  -- The same without the row `id`.
  abbrev pub top_override_but : Db → ℕ → ℕ → Option OverrideTableRow
  top_override_but db item id =
      prisma.find_first_desc (λ o. o.created_at)
        (λ o. active_override_of item o && not (o.id == id)) db.overrides

  -- `exceptionFlowTemplate.findFirst({ where: { code, active: true }, include: { steps } })`, and
  -- `template?.steps ?? []`.
  abbrev pub template_steps : Option FlowTemplate → List TemplateStep
  template_steps none = []
  template_steps (some t) = prisma.find_many_asc (λ s. s.offset) (λ s. true) t.steps

  abbrev pub flow_steps : Db → String → List TemplateStep
  flow_steps db code =
      template_steps (prisma.find_first (λ t. str_eq t.code code && t.active) db.templates)

  -- The override's part of `findNextStep`, for the newest active override row.
  unfoldable pub next_override_step : Db → ℕ → ℕ → OverrideTableRow → Option StepRow
  next_override_step db item sort_order row =
      if ltb sort_order row.sort_order
      then some (override_candidate row)
      else if row.sort_order == sort_order
      then elim (find_next_template_step (flow_steps db row.flow_code) row.current_offset
          row.base_step_sort_order row.id) [
            | some s ↦ some s
            | none ↦ elim (top_override_but db item row.id) [
              | none ↦ none
              | some o ↦ some (override_candidate o)
            ]
          ]
      else none

  -- `findNextStep`.
  unfoldable pub find_next_step : Db → ℕ → ℕ → ℕ → Option NextStepDecision
  unfolding next_override_step
  find_next_step db item sort_order route_id =
      let candidate : Option StepRow = elim (top_override db item) [
        | none ↦ none
        | some row ↦ next_override_step db item sort_order row
      ] in
      let route_candidate : Option StepRow = elim (next_route_step db route_id sort_order) [
        | none ↦ none
        | some s ↦ some (to_step_row s)
      ] in
      pick_next_step candidate route_candidate

  -- `loadRoute`.
  unfoldable pub load_route : String → Tx Db RouteRow
  load_route code = do
    route ←
        require (← gets (λ db. prisma.find_first (λ r. str_eq r.code code && r.active) db.routes))
          (domain (of_route (invalid_route_code code)))
    steps ← gets (λ db.
        prisma.find_many_asc (λ s. s.sort_order) (λ s. s.route_id == route.id) db.route_steps)
    require (first? steps) (domain (of_route (invalid_route_code code)))
    pure (record { id = route.id; code = route.code; steps = map to_step_row steps })

  -- The row that a foreign key names, `null` where the key is.
  abbrev pub by_id : {A : Type 0} → (A → ℕ) → Option ℕ → List A → Option A
  by_id id none rows = none
  by_id id (some k) rows = prisma.find_first (λ r. id r == k) rows

  -- `loadState`. The lock that it takes first serialises the transactions on an item, so that
  -- one runs from a state to the next. A plan without its row or its route, which the foreign
  -- keys exclude, is a `TypeError` at the first use.
  unfoldable pub load_state : ℕ → Tx Db LoadedState
  load_state item = do
    state ←
        require (← gets (λ db. prisma.find_first (λ s. s.order_item_id == item) db.states))
          (domain (of_route (no_active_plan item)))
    plan ← require (← gets (λ db. by_id (λ p. p.id) (some state.plan_id) db.plans)) type_error
    route ← require (← gets (λ db. by_id (λ r. r.id) (some plan.route_id) db.routes)) type_error
    route_step ← gets (λ db. by_id (λ s. s.id) state.current_route_step_id db.route_steps)
    override_row ← gets (λ db. by_id (λ o. o.id) state.current_override_id db.overrides)
    pure (record {
      order_item_id = state.order_item_id;
      plan_id = state.plan_id;
      plan = record { id = plan.id; route_id = plan.route_id; route_code = route.code };
      current_step_source = state.current_step_source;
      current_route_step = Option.map to_step_row route_step;
      current_override_id = state.current_override_id;
      current_override_step = Option.map to_override_step override_row;
      current_step_status = state.current_step_status;
    })

  -- `initPlan` from the first step on: a new plan on the route, the item's state on the first step,
  -- and the events.
  unfoldable pub start_on :
      Env → ℕ → RouteRow → ActorContext → Option String → StepRow → Tx Db CurrentStateView
  start_on env item route actor reason first = do
    modify (λ db. record db {
      plans =
          db.plans
          ++ record {
            id = env.new_id;
            order_item_id = item;
            route_id = route.id;
            status = PlanStatus.active;
            reason = reason;
            superseded_at = none;
          }
            ∷ [];
      states =
          upsert_state item env.new_id first.id
            (prisma.find_first (λ s. s.order_item_id == item) db.states) db.states;
    })
    modify (
        create_event (record {
          order_item_id = item;
          plan_id = env.new_id;
          event_type = EventType.plan_created;
          route_step_id = none;
          override_id = none;
          actor = actor;
          reason = reason;
        }))
    modify (
        create_event (record {
          order_item_id = item;
          plan_id = env.new_id;
          event_type = EventType.step_started;
          route_step_id = some first.id;
          override_id = none;
          actor = actor;
          reason = none;
        }))
    pure (record {
      order_item_id = item;
      plan_id = env.new_id;
      route_code = route.code;
      current_step_source = StepSource.route;
      current_step = some (with_status StepStatus.in_progress (to_step_view first));
      next_step = view_of (second? route.steps);
      is_plan_completed = false;
    })

  -- `initPlan`.
  unfoldable pub init_plan :
      Env → ℕ → RouteRow → ActorContext → Option String → Tx Db CurrentStateView
  init_plan env item route actor reason = do
    first ← require (first? route.steps) type_error
    start_on env item route actor reason first
