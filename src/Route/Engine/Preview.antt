-- ===== src/Route/Engine/Preview.antt =====
-- The next step that `getCurrentState` announces is the step that the next scan reaches.
use laundry_api.Base.{ℕ, ◌≡◌, refl, sym, subst, true, false, Option, none, some, arith}
use laundry_api.Store.{Prisma}
use laundry_api.Store.Laws.{find_first-update_where}
use laundry_api.Tx.{ok, Returns, Returns-map}
use laundry_api.Route.Types.{
  ActorContext, CurrentStateView, LoadedState, NextStepDecision, StepSource, StepStatus, StepView,
}
use laundry_api.Route.Db.{Db, PlanTableRow, RouteTableRow, RouteStepTableRow, StateTableRow}
use laundry_api.Route.Load.{by_id, find_next_step}
use laundry_api.Route.View.{build_view, current_sort_order, step_of, view_of}
use laundry_api.Route.Engine.Complete.{complete_current_step}
use laundry_api.Route.Engine.RouteStep.{override_id_of, route_id_of}
use laundry_api.Route.Engine.Plans.{get_current_state}
use laundry_api.Route.Engine.Standing.{Standing, load_state_lem, loaded, state_of}
use laundry_api.Route.Engine.Moves.{Leaves, complete_current_step-Leaves, moved_to}

-- The id of the step that a state row is on: a step of the route or an override.
abbrev pub step_id_of : StepSource → StateTableRow → Option ℕ
step_id_of StepSource.route s = s.current_route_step_id
step_id_of StepSource.override s = s.current_override_id

module _ ⦃prisma : Prisma⦄ where
  -- After a scan the item is on the announced step, or its plan is completed where none was.
  abbrev pub Reaches : ℕ → Option StepView → CurrentStateView → Db → Type 0
  Reaches item none v db' = v.is_plan_completed ≡ true
  Reaches item (some step) v db' =
      (v.is_plan_completed ≡ false)
      × ((s : StateTableRow) × (prisma.find_first (state_of item) db'.states ≡ some s)
          × (s.current_step_status ≡ StepStatus.in_progress)
          × (step_id_of s.current_step_source s ≡ some step.step_id))

  -- The joined state of a state row.
  abbrev pub joined : Db → StateTableRow → PlanTableRow → RouteTableRow → LoadedState
  joined db s plan route_row =
      loaded s plan route_row (by_id (λ r. r.id) s.current_route_step_id db.route_steps)
        (by_id (λ o. o.id) s.current_override_id db.overrides)

  pub on_step :
      (db : Db) (s : StateTableRow) (plan : PlanTableRow) (route_row : RouteTableRow)
      {row : RouteStepTableRow}
      → s.current_step_source ≡ StepSource.route
      → by_id (λ r. r.id) s.current_route_step_id db.route_steps ≡ some row
      → current_sort_order (joined db s plan route_row) ≡ row.sort_order
  unfolding current_sort_order
  on_step db s plan route_row r f = rw (r, f) refl

  pub get_current_state_lem :
      (db : Db) (item : ℕ) {s : StateTableRow} {plan : PlanTableRow} {route_row : RouteTableRow}
      → Standing db item s plan route_row
      → get_current_state item db
        ≡ ok (
          build_view (joined db s plan route_row) (
              step_of (
                find_next_step db item
                  (current_sort_order (joined db s plan route_row))
                  plan.route_id)),
          db,
        )
  unfolding get_current_state
  get_current_state_lem db item st = ground (arith, load_state_lem db item st)

  announces :
      (state : LoadedState) (d : Option NextStepDecision)
      → (build_view state (step_of d)).next_step ≡ view_of (step_of d)
  unfolding build_view
  announces state d = refl

  Leaves-Reaches :
      (db : Db) (item : ℕ) {s : StateTableRow} {plan : PlanTableRow} {route_row : RouteTableRow}
      (d : Option NextStepDecision) (v : CurrentStateView) (db' : Db)
      → Standing db item s plan route_row
      → Leaves item db d v db'
      → Reaches item (view_of (step_of d)) v db'
  Leaves-Reaches db item none v db' st (done, o) = done
  Leaves-Reaches db item {s} (some d) v db' st (more, o, _, _) = (
    more,
    (
      moved_to d s,
      rw o.states (
          find_first-update_where (state_of item) (moved_to d) db.states (λ x t. t) st.state_unique
            st.state_found),
      refl,
      at d.source,
    ),
  )
    where
      at :
          (src : StepSource)
          → step_id_of src (record s {
            current_step_source = src;
            current_route_step_id = route_id_of d src;
            current_override_id = override_id_of d src;
            current_step_status = StepStatus.in_progress;
          })
            ≡ some d.step.id
      at StepSource.route = refl
      at StepSource.override = refl

  -- An item that stands, in progress, on a step of its route: `getCurrentState` returns and changes
  -- nothing, and a scan that follows it returns and reaches the next step that it announced, a step
  -- of the route or of an exception flow, or completes the plan where it announced none.
  pub get_current_state-Reaches :
      (db : Db) (item : ℕ) (actor : ActorContext) {s : StateTableRow} {plan : PlanTableRow}
      {route_row : RouteTableRow} {row : RouteStepTableRow}
      → Standing db item s plan route_row
      → s.current_step_status ≡ StepStatus.in_progress
      → s.current_step_source ≡ StepSource.route
      → by_id (λ r. r.id) s.current_route_step_id db.route_steps ≡ some row
      → Returns
          (λ v db'. Returns (Reaches item v.next_step) (complete_current_step item actor db'))
          (get_current_state item db)
  get_current_state-Reaches db item actor {s} {plan} {route_row} {row} st e r f =
      subst (Returns Announced) (sym (get_current_state_lem db item st)) (
        Returns-map (complete_current_step item actor db)
          (λ w db' l.
            subst (λ n. Reaches item n w db') (sym (announces (joined db s plan route_row) _))
              (subst
                (λ k.
                  Reaches item (view_of (step_of (find_next_step db item k plan.route_id))) w db')
                (sym (on_step db s plan route_row r f))
                (Leaves-Reaches db item (find_next_step db item row.sort_order plan.route_id) w db'
                  st l)))
          (complete_current_step-Leaves db item actor st e r f))
    where
      Announced : CurrentStateView → Db → Type 0
      Announced v db' = Returns (Reaches item v.next_step) (complete_current_step item actor db')
