-- ===== src/Route/Engine/Moves.antt =====
-- What completing a route step does to the tables: exactly one state row changes.
use mathlib.Core.Option
use laundry_api.Base.{
  ℕ, ◌≡◌, refl, sym, subst, ap, true, false, Option, none, some, List, arith, update_where, ◌++◌,
  ◌∷◌, [],
}
use laundry_api.Store.{Prisma}
use laundry_api.Tx.{Returns}
use laundry_api.Route.Types.{
  ActorContext, CurrentStateView, CurrentStepView, LoadedState, NextStepDecision, StepRow,
  StepSource, StepStatus,
}
use laundry_api.Route.Db.{
  Db, EventType, PlanTableRow, ProcessEvent, RouteTableRow, RouteStepTableRow, StateTableRow,
  create_event, to_step_row,
}
use laundry_api.Route.Load.{find_next_step, next_override_step, by_id}
use laundry_api.Route.View.{with_status, to_step_view, current_view_of, step_of_source}
use laundry_api.Route.Engine.Standing.{Standing, state_item, state_of, loaded, load_state_lem}
use laundry_api.Route.Engine.Complete.{complete_current_step, complete_by_source}
use laundry_api.Route.Engine.RouteStep.{
  complete_route_step, route_id_of, override_id_of, route_step_of, leave_route_step, plan_event,
}

-- From `db` to `db'` only the state row of `item` changed, by `f`, apart from the two logs.
pub record OnlyState (item : ℕ) (f : StateTableRow → StateTableRow) (db db' : Db) : Type 0 where
  pub states : db'.states ≡ update_where (state_of item) f db.states
  pub overrides : db'.overrides ≡ db.overrides
  pub plans : db'.plans ≡ db.plans
  pub routes : db'.routes ≡ db.routes
  pub route_steps : db'.route_steps ≡ db.route_steps
  pub templates : db'.templates ≡ db.templates

-- The state row after the move to a decided step.
abbrev pub moved_to : NextStepDecision → StateTableRow → StateTableRow
moved_to d s = record s {
  current_step_source = d.source;
  current_route_step_id = route_id_of d d.source;
  current_override_id = override_id_of d d.source;
  current_step_status = StepStatus.in_progress;
}

abbrev pub ended : StateTableRow → StateTableRow
ended s = record s { current_step_status = StepStatus.completed }

-- The current step of the view: a step of the route is shown, an override step is not.
abbrev pub shown : NextStepDecision → StepSource → Option CurrentStepView
shown d StepSource.route = some (with_status StepStatus.in_progress (to_step_view d.step))
shown d StepSource.override = none

-- What leaving a route step must do, given the next step.
abbrev pub Leaves : ℕ → Db → Option NextStepDecision → CurrentStateView → Db → Type 0
Leaves item db none v db' = (v.is_plan_completed ≡ true) × OnlyState item ended db db'
Leaves item db (some d) v db' =
    (v.is_plan_completed ≡ false)
    × OnlyState item (moved_to d) db db'
    × (v.current_step_source ≡ d.source)
    × (v.current_step ≡ shown d d.source)

module _ ⦃prisma : Prisma⦄ where
  pub find_next_step-event :
      (db : Db) (e : ProcessEvent) (item k route_id : ℕ)
      → find_next_step (record db { events = db.events ++ e ∷ [] }) item k route_id
        ≡ find_next_step db item k route_id
  unfolding find_next_step next_override_step
  find_next_step-event db e item k route_id = refl

  leave_route_step-Leaves :
      (state : LoadedState) (actor : ActorContext) (cur : StepRow) (db : Db)
      (es : List ProcessEvent) (d : Option NextStepDecision)
      → Returns
          (Leaves state.order_item_id db d)
          (leave_route_step state actor cur d (record db { events = es }))
  unfolding leave_route_step
  leave_route_step-Leaves state actor cur db es none = (
    refl,
    record {
      states = refl;
      overrides = refl;
      plans = refl;
      routes = refl;
      route_steps = refl;
      templates = refl;
    },
  )
  leave_route_step-Leaves state actor cur db es (some d) = (
    refl,
    record {
      states = refl;
      overrides = refl;
      plans = refl;
      routes = refl;
      route_steps = refl;
      templates = refl;
    },
    refl,
    shows d.source,
  )
    where
      shows :
          (src : StepSource)
          → current_view_of StepStatus.in_progress (step_of_source src (route_step_of d src) none)
            ≡ shown d src
      shows StepSource.route = refl
      shows StepSource.override = refl

  -- The completion event of a step of the route, on its row.
  abbrev step_done : LoadedState → ActorContext → StepRow → Db → Db
  step_done state actor cur db =
      create_event (plan_event state actor EventType.step_completed (some cur.id) none) db

  complete_route_step_lem :
      (state : LoadedState) (actor : ActorContext) (cur : StepRow) (db : Db)
      → state.current_route_step ≡ some cur
      → complete_route_step state actor db
        ≡ leave_route_step state actor cur
            (find_next_step db state.order_item_id cur.sort_order state.plan.route_id)
            (step_done state actor cur db)
  unfolding complete_route_step
  complete_route_step_lem state actor cur db e = ground (
    arith,
    find_next_step-event db (plan_event state actor EventType.step_completed (some cur.id) none)
        state.order_item_id cur.sort_order state.plan.route_id,
  )

  pub complete_route_step-Leaves :
      (state : LoadedState) (actor : ActorContext) (cur : StepRow) (db : Db)
      → state.current_route_step ≡ some cur
      → Returns
          (Leaves state.order_item_id db
            (find_next_step db state.order_item_id cur.sort_order state.plan.route_id))
          (complete_route_step state actor db)
  complete_route_step-Leaves state actor cur db e =
      subst
        (Returns (
          Leaves state.order_item_id db
            (find_next_step db state.order_item_id cur.sort_order state.plan.route_id)))
        (sym (complete_route_step_lem state actor cur db e))
        (leave_route_step-Leaves state actor cur db (step_done state actor cur db).events _)

  pub complete_current_step_lem :
      (db : Db) (item : ℕ) (actor : ActorContext) {s : StateTableRow} {plan : PlanTableRow}
      {route_row : RouteTableRow}
      → Standing db item s plan route_row
      → s.current_step_status ≡ StepStatus.in_progress
      → complete_current_step item actor db
        ≡ complete_by_source s.current_step_source
            (loaded s plan route_row
              (by_id (λ r. r.id) s.current_route_step_id db.route_steps)
              (by_id (λ o. o.id) s.current_override_id db.overrides))
            actor
            db
  unfolding complete_current_step
  complete_current_step_lem db item actor st e = ground (arith, load_state_lem db item st)

  -- An item that stands, in progress, on a step of its route, is scanned: the call returns, and
  -- changes nothing but the item's state row. It becomes the step that `findNextStep` decides on,
  -- in progress, or is marked completed where there is none; the view says which, and shows the new
  -- current step where it is a step of the route, and no current step where it is an override's.
  pub complete_current_step-Leaves :
      (db : Db) (item : ℕ) (actor : ActorContext) {s : StateTableRow} {plan : PlanTableRow}
      {route_row : RouteTableRow} {row : RouteStepTableRow}
      → Standing db item s plan route_row
      → s.current_step_status ≡ StepStatus.in_progress
      → s.current_step_source ≡ StepSource.route
      → by_id (λ r. r.id) s.current_route_step_id db.route_steps ≡ some row
      → Returns
          (Leaves item db (find_next_step db item row.sort_order plan.route_id))
          (complete_current_step item actor db)
  complete_current_step-Leaves db item actor {s} {plan} {route_row} {row} st e r f =
      rw (complete_current_step_lem db item actor st e) (
        subst
          (λ src.
            Returns (Leaves item db (find_next_step db item row.sort_order plan.route_id))
              (complete_by_source src state actor db))
          (sym r)
          (subst
            (λ k.
              Returns (Leaves k db (find_next_step db k row.sort_order plan.route_id))
                (complete_route_step state actor db))
            (state_item st)
            (complete_route_step-Leaves state actor (to_step_row row) db
              (ap (Option.map to_step_row) f))))
    where
      state : LoadedState
      state =
          loaded s plan route_row (by_id (λ r. r.id) s.current_route_step_id db.route_steps)
            (by_id (λ o. o.id) s.current_override_id db.overrides)
