-- ===== src/Route/Engine/Stack.antt =====
-- What completing a step of an exception flow does: the flow goes on, or it is popped off the
-- item's stack of overrides.
use mathlib.Core.Option
use laundry_api.Base.{
  ℕ, ◌+◌, ◌≡◌, refl, sym, subst, ap, true, false, Option, none, some, List, arith, ◌==◌,
  update_where, ◌++◌, ◌∷◌, [],
}
use laundry_api.Store.{Prisma}
use laundry_api.Tx.{Returns}
use laundry_api.Route.Types.{ActorContext, CurrentStateView, LoadedState, StepSource, StepStatus}
use laundry_api.Route.NextStep.{TemplateStep, next_template_step, candidate_of}
use laundry_api.Route.Db.{
  Db, EventType, OverrideStatus, OverrideTableRow, PlanTableRow, ProcessEvent, AuditLog,
  RouteTableRow, RouteStepTableRow, StateTableRow, to_override_step, to_step_row,
}
use laundry_api.Route.Load.{by_id, flow_steps, next_route_step, top_override}
use laundry_api.Route.View.{override_candidate, to_step_view, with_status}
use laundry_api.Route.Engine.Complete.{complete_current_step, complete_by_source}
use laundry_api.Route.Engine.RouteStep.{plan_event}
use laundry_api.Route.Engine.OverrideStep.{
  complete_override_step, leave_override, leave_override_step,
}
use laundry_api.Route.Engine.Standing.{Standing, loaded, state_item, state_of}
use laundry_api.Route.Engine.Moves.{complete_current_step_lem}

-- The row of the override `o` after it moves to the template step `t`.
abbrev pub moved : OverrideTableRow → TemplateStep → OverrideTableRow → OverrideTableRow
moved o t r = record r {
  current_offset = t.offset;
  step_type = t.step_type;
  display_name = t.display_name;
  sort_order = o.base_step_sort_order + t.offset;
}

-- The table after the override `id` is popped.
abbrev pub popped : ℕ → List OverrideTableRow → List OverrideTableRow
popped id = update_where (λ o. o.id == id) (λ o. record o { status = OverrideStatus.completed })

abbrev pub on_override : OverrideTableRow → StateTableRow → StateTableRow
on_override o s = record s {
  current_override_id = some o.id;
  current_step_source = StepSource.override;
  current_step_status = StepStatus.in_progress;
}

abbrev pub on_route : RouteStepTableRow → StateTableRow → StateTableRow
on_route t s = record s {
  current_step_source = StepSource.route;
  current_route_step_id = some t.id;
  current_override_id = none;
  current_step_status = StepStatus.in_progress;
}

abbrev pub at_end : StateTableRow → StateTableRow
at_end s = record s { current_step_status = StepStatus.completed; current_override_id = none }

-- What leaving a popped override must do, given the newest override that is still active and the
-- route's next step.
abbrev pub Exits :
    ℕ → ℕ → Db → Option OverrideTableRow → Option RouteStepTableRow → CurrentStateView → Db → Type 0
Exits item id db (some prev) t v db' =
    (v.is_plan_completed ≡ false)
    × (v.current_step
        ≡ some (with_status StepStatus.in_progress (to_step_view (override_candidate prev))))
    × (db'.states ≡ update_where (state_of item) (on_override prev) db.states)
    × (db'.overrides ≡ popped id db.overrides)
Exits item id db none (some t) v db' =
    (v.is_plan_completed ≡ false)
    × (v.current_step ≡ some (with_status StepStatus.in_progress (to_step_view (to_step_row t))))
    × (db'.states ≡ update_where (state_of item) (on_route t) db.states)
    × (db'.overrides ≡ popped id db.overrides)
Exits item id db none none v db' =
    (v.is_plan_completed ≡ true)
    × (v.current_step ≡ none)
    × (db'.states ≡ update_where (state_of item) at_end db.states)
    × (db'.overrides ≡ popped id db.overrides)

module _ ⦃prisma : Prisma⦄ where
  -- The database with the override `id` popped.
  abbrev pub pop_db : ℕ → Db → Db
  pop_db id db = record db { overrides = popped id db.overrides }

  -- What completing the override `o` must do, given the next step of its flow.
  abbrev pub Passes :
      ℕ → ℕ → Db → OverrideTableRow → Option TemplateStep → CurrentStateView → Db → Type 0
  Passes item route_id db o (some t) v db' =
      (v.is_plan_completed ≡ false)
      × (v.current_step_source ≡ StepSource.override)
      × (v.current_step
          ≡ some (
              with_status StepStatus.in_progress
                (to_step_view (candidate_of o.base_step_sort_order o.id t))))
      × (db'.states
          ≡ update_where (state_of item)
              (λ s. record s { current_step_status = StepStatus.in_progress }) db.states)
      × (db'.overrides ≡ update_where (λ r. r.id == o.id) (moved o t) db.overrides)
  Passes item route_id db o none v db' =
      Exits item o.id db (top_override (pop_db o.id db) item)
        (next_route_step db route_id o.sort_order) v db'

  leave_override-Exits :
      (state : LoadedState) (actor : ActorContext) (o : OverrideTableRow) (db : Db)
      (es : List ProcessEvent) (logs : List AuditLog) (prev : Option OverrideTableRow)
      (t : Option RouteStepTableRow)
      → state.current_step_source ≡ StepSource.override
      → Returns (Exits state.order_item_id o.id db prev t) (
          leave_override state actor
            (to_override_step o)
            prev
            t
            (record db { overrides = popped o.id db.overrides; events = es; audit_logs = logs }))
  unfolding leave_override
  leave_override-Exits state actor o db es logs (some prev) t e = (refl, refl, refl, refl)
  leave_override-Exits state actor o db es logs none (some t) e = (refl, refl, refl, refl)
  leave_override-Exits state actor o db es logs none none e = (refl, ground arith, refl, refl)

  leave_override_step-Passes :
      (state : LoadedState) (actor : ActorContext) (o : OverrideTableRow) (db : Db)
      (es : List ProcessEvent) (t : Option TemplateStep)
      → state.current_step_source ≡ StepSource.override
      → Returns
          (Passes state.order_item_id state.plan.route_id db o t)
          (leave_override_step state actor (to_override_step o) t (record db { events = es }))
  unfolding leave_override_step
  leave_override_step-Passes state actor o db es (some t) e = (refl, e, ground arith, refl, refl)
  leave_override_step-Passes state actor o db es none e =
      leave_override-Exits state actor o db es _ _ _ e

  -- The events after the completion event of an override's step.
  abbrev done_events : LoadedState → ActorContext → OverrideTableRow → Db → List ProcessEvent
  done_events state actor o db =
      db.events ++ plan_event state actor EventType.step_completed none (some o.id) ∷ []

  complete_override_step_lem :
      (state : LoadedState) (actor : ActorContext) (o : OverrideTableRow) (db : Db)
      → state.current_override_step ≡ some (to_override_step o)
      → complete_override_step state actor db
        ≡ leave_override_step state actor
            (to_override_step o)
            (next_template_step (flow_steps db o.flow_code) o.current_offset)
            (record db { events = done_events state actor o db })
  unfolding complete_override_step
  complete_override_step_lem state actor o db f = ground arith

  complete_override_step-Passes :
      (state : LoadedState) (actor : ActorContext) (o : OverrideTableRow) (db : Db)
      → state.current_step_source ≡ StepSource.override
      → state.current_override_step ≡ some (to_override_step o)
      → Returns
          (Passes state.order_item_id state.plan.route_id db o
            (next_template_step (flow_steps db o.flow_code) o.current_offset))
          (complete_override_step state actor db)
  complete_override_step-Passes state actor o db e f =
      subst
        (Returns (
          Passes state.order_item_id state.plan.route_id db o
            (next_template_step (flow_steps db o.flow_code) o.current_offset)))
        (sym (complete_override_step_lem state actor o db f))
        (leave_override_step-Passes state actor o db (done_events state actor o db) _ e)

  -- An item that stands, in progress, on the override `o` is scanned: the call returns. Where the
  -- flow of `o` has a later step, the item stays on `o`, moved to the first such step. Where it has
  -- none, `o` is completed, and the item returns to the newest override that is still active, at the
  -- step it was left on; without one it resumes its route at the first step past the sort order of
  -- `o`, and without such a step its plan is completed.
  pub complete_current_step-Passes :
      (db : Db) (item : ℕ) (actor : ActorContext) {s : StateTableRow} {plan : PlanTableRow}
      {route_row : RouteTableRow} {o : OverrideTableRow}
      → Standing db item s plan route_row
      → s.current_step_status ≡ StepStatus.in_progress
      → s.current_step_source ≡ StepSource.override
      → by_id (λ r. r.id) s.current_override_id db.overrides ≡ some o
      → Returns
          (Passes item plan.route_id db o
            (next_template_step (flow_steps db o.flow_code) o.current_offset))
          (complete_current_step item actor db)
  complete_current_step-Passes db item actor {s} {plan} {route_row} {o} st e r f =
      rw (complete_current_step_lem db item actor st e) (
        subst (λ src. Returns goal (complete_by_source src state actor db)) (sym r)
          (subst
            (λ k.
              Returns
                (Passes k plan.route_id db o
                  (next_template_step (flow_steps db o.flow_code) o.current_offset))
                (complete_override_step state actor db))
            (state_item st)
            (complete_override_step-Passes state actor o db r
              (ap (Option.map to_override_step) f))))
    where
      state : LoadedState
      state =
          loaded s plan route_row (by_id (λ r. r.id) s.current_route_step_id db.route_steps)
            (by_id (λ o. o.id) s.current_override_id db.overrides)

      goal : CurrentStateView → Db → Type 0
      goal =
          Passes item plan.route_id db o
            (next_template_step (flow_steps db o.flow_code) o.current_offset)
