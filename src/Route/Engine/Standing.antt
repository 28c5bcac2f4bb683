-- ===== src/Route/Engine/Standing.antt =====
-- Where an item stands: the rows that `loadState` joins, and that it joins them.
use mathlib.Core.Option
use laundry_api.Base.{ℕ, ◌≡◌, refl, Bool, Option, some, ◌==◌, ==→eq}
use laundry_api.Store.{Prisma}
use laundry_api.Store.Laws.{IsUnique}
use laundry_api.Tx.{ok}
use laundry_api.Route.Types.{LoadedState}
use laundry_api.Route.Db.{
  Db, PlanTableRow, RouteTableRow, RouteStepTableRow, OverrideTableRow, StateTableRow, to_step_row,
  to_override_step,
}
use laundry_api.Route.Load.{by_id, load_state}

-- `where: { orderItemId }` on the states.
abbrev pub state_of : ℕ → StateTableRow → Bool
state_of item s = s.order_item_id == item

module _ ⦃prisma : Prisma⦄ where
  -- The item has the state row `s`, the only one, whose plan and route are there.
  pub record Standing (db : Db) (item : ℕ) (s : StateTableRow) (plan : PlanTableRow)
      (route : RouteTableRow) : Type 0 where
    pub state_found : prisma.find_first (state_of item) db.states ≡ some s
    pub state_unique : IsUnique (state_of item) db.states
    pub plan_found : by_id (λ p. p.id) (some s.plan_id) db.plans ≡ some plan
    pub route_found : by_id (λ r. r.id) (some plan.route_id) db.routes ≡ some route

  pub state_item :
      {db : Db} {item : ℕ} {s : StateTableRow} {plan : PlanTableRow} {route : RouteTableRow}
      → Standing db item s plan route
      → s.order_item_id ≡ item
  state_item {db} {item} st =
      ==→eq _ _ (prisma.find_first_test (state_of item) db.states st.state_found)

  -- What `loadState` returns for it.
  abbrev pub loaded :
      StateTableRow
      → PlanTableRow
      → RouteTableRow
      → Option RouteStepTableRow
      → Option OverrideTableRow
      → LoadedState
  loaded s plan route step o = record {
    order_item_id = s.order_item_id;
    plan_id = s.plan_id;
    plan = record { id = plan.id; route_id = plan.route_id; route_code = route.code };
    current_step_source = s.current_step_source;
    current_route_step = Option.map to_step_row step;
    current_override_id = s.current_override_id;
    current_override_step = Option.map to_override_step o;
    current_step_status = s.current_step_status;
  }

  pub load_state_lem :
      (db : Db) (item : ℕ) {s : StateTableRow} {plan : PlanTableRow} {route : RouteTableRow}
      → Standing db item s plan route
      → load_state item db
        ≡ ok (
          loaded s plan route
              (by_id (λ r. r.id) s.current_route_step_id db.route_steps)
              (by_id (λ o. o.id) s.current_override_id db.overrides),
          db,
        )
  unfolding load_state
  load_state_lem db item st = rw (st.state_found, st.plan_found, st.route_found) refl
