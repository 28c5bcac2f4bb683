-- ===== src/Wash/Agrees.antt =====
-- The state that the wash module shows of an item is the route engine's.
use laundry_api.Base.{ℕ, ◌≡◌, refl, sym, ap, ◌∙◌, subst, none, some, arith, Option-cases, inl, inr}
use laundry_api.Store.{Prisma}
use laundry_api.Tx.{Returns}
use laundry_api.Route.Db.{Db, PlanTableRow, RouteTableRow, RouteStepTableRow, StateTableRow}
use laundry_api.Route.Engine.Plans.{get_current_state}
use laundry_api.Route.Engine.Preview.{get_current_state_lem, joined, on_step}
use laundry_api.Route.Engine.Standing.{Standing, state_item}
use laundry_api.Route.Load.{by_id, find_next_step, next_route_step, top_override}
use laundry_api.Route.NextStep.{pick_next_step}
use laundry_api.Route.Types.{StepSource}
use laundry_api.Route.View.{build_view, current_sort_order, step_of}
use laundry_api.Wash.Views.{query_processing_state, state_view, step_row?}

module _ ⦃prisma : Prisma⦄ (db : Db) (item : ℕ) where
  query-Standing :
      {s : StateTableRow} {plan : PlanTableRow} {route : RouteTableRow}
      → Standing db item s plan route
      → query_processing_state db item ≡ some (state_view db item s plan route)
  unfolding query_processing_state
  query-Standing st =
      rw (query_processing_state, st.state_found, st.plan_found, st.route_found) refl

  -- Without an active override the next step is the next one of the route.
  next_of_route :
      (sort_order route_id : ℕ)
      → top_override db item ≡ none
      → step_of (find_next_step db item sort_order route_id)
        ≡ step_row? (next_route_step db route_id sort_order)
  unfolding find_next_step pick_next_step
  next_of_route sort_order route_id quiet =
      elim (Option-cases (next_route_step db route_id sort_order)) [
        | inl e ↦ ground arith
        | inr (row, e) ↦ ground arith
      ]

  view-state_view :
      (s : StateTableRow) (plan : PlanTableRow) (route : RouteTableRow) {row : RouteStepTableRow}
      → s.order_item_id ≡ item
      → s.current_step_source ≡ StepSource.route
      → by_id (λ r. r.id) s.current_route_step_id db.route_steps ≡ some row
      → build_view
          (joined db s plan route)
          (step_row? (next_route_step db plan.route_id row.sort_order))
        ≡ state_view db item s plan route
  unfolding build_view
  view-state_view s plan route same r f = rw (build_view, same, r, f) refl

  -- For an item that stands on a step of its route and has no active override, the two agree:
  -- `getCurrentState` returns, changes nothing, and its view is the one that the wash module shows.
  pub get_current_state-query_processing_state :
      {s : StateTableRow} {plan : PlanTableRow} {route : RouteTableRow} {row : RouteStepTableRow}
      → Standing db item s plan route
      → s.current_step_source ≡ StepSource.route
      → by_id (λ r. r.id) s.current_route_step_id db.route_steps ≡ some row
      → top_override db item ≡ none
      → Returns
          (λ v db'. (query_processing_state db item ≡ some v) × (db' ≡ db))
          (get_current_state item db)
  get_current_state-query_processing_state {s} {plan} {route} {row} st r f quiet =
      let next : step_of
            (find_next_step db item (current_sort_order (joined db s plan route)) plan.route_id)
          ≡ step_row? (next_route_step db plan.route_id row.sort_order) =
        ap (λ k. step_of (find_next_step db item k plan.route_id)) (on_step db s plan route r f)
        ∙ next_of_route row.sort_order plan.route_id quiet in
      subst (Returns (λ v db'. (query_processing_state db item ≡ some v) × (db' ≡ db)))
        (sym (get_current_state_lem db item st))
        (
          query-Standing st
              ∙ ap some (
                  sym (
                    ap (build_view (joined db s plan route)) next
                    ∙ view-state_view s plan route (state_item st) r f)),
          refl,
        )
