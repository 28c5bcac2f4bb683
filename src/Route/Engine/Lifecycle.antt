-- ===== src/Route/Engine/Lifecycle.antt =====
-- From the creation of a plan to its completion.
use laundry_api.Base.{
  ℕ, ◌<◌, ◌≡◌, refl, String, false, Option, none, some, Memᴰ, first?, count, str_eq, ◌==◌, ◌&&◌,
  some_of, ==_refl, Option-cases, mem-some_of, inl, inr,
}
use laundry_api.Store.{Prisma}
use laundry_api.Store.Laws.{IsUnique, find_first-of_mem}
use laundry_api.Tx.{Returns, Returns-map}
use laundry_api.Route.Types.{ActorContext, CurrentStateView}
use laundry_api.Route.Db.{Db, Env, RouteStepTableRow, RouteTableRow, to_step_row}
use laundry_api.Route.Load.{by_id, new_state, step_after}
use laundry_api.Route.Engine.Create.{
  Starts, create_plan-Starts, plan_row, started-Standing, steps_of,
}
use laundry_api.Route.Engine.Plans.{active_plan_of, create_plan}
use laundry_api.Route.Engine.Standing.{state_of}
use laundry_api.Route.Engine.Walk.{
  Finished, IsQuiet, OnRoute, scan_until_done, scan_until_done-Finished,
}

module _ ⦃prisma : Prisma⦄ where
  no_state-none :
      (item : ℕ) (db : Db)
      → some_of (state_of item) db.states ≡ false
      → prisma.find_first (state_of item) db.states ≡ none
  no_state-none item db e = elim (Option-cases (prisma.find_first (state_of item) db.states)) [
    | inl f ↦ f
    | inr (s, f) ↦ absurd (
        cc (
          mem-some_of (state_of item) db.states (prisma.find_first_mem (state_of item) db.states f)
            (prisma.find_first_test (state_of item) db.states f)))
  ]

  started-OnRoute :
      {db db' : Db} {env : Env} {item : ℕ} {route : RouteTableRow} {reason : Option String}
      {first : RouteStepTableRow} (v : CurrentStateView)
      → some_of (state_of item) db.states ≡ false
      → some_of (λ p. p.id == env.new_id) db.plans ≡ false
      → by_id (λ r. r.id) (some route.id) db.routes ≡ some route
      → Memᴰ first db.route_steps
      → ((k : ℕ) → IsUnique (λ r. r.id == k) db.route_steps)
      → IsQuiet db item
      → Starts env item route reason (to_step_row first) db v db'
      → OnRoute db' item
          (new_state item env.new_id first.id)
          (plan_row env item route reason)
          route
          first
  started-OnRoute {db} {first = first} v no_state fresh known m ids quiet p = record {
    standing = started-Standing v no_state fresh known p;
    running = refl;
    on_route = refl;
    step_found = rw p.route_steps (
        find_first-of_mem (λ r. r.id == first.id) db.route_steps (ids first.id) m
          (==_refl first.id));
    quiet = rw p.overrides quiet;
    step_ids = λ k. rw p.route_steps (ids k);
  }

  -- A plan is created for an item that has neither an active plan nor a state row nor an active
  -- exception flow, under a new id, on an active route with a first step, where the ids of routes and
  -- of steps are unique. The call returns, and scans alone bring the item to the end of the plan: one
  -- for the first step and one for each later step of the route are enough, and none of them fails.
  pub create_plan-Finished :
      (db : Db) (env : Env) (item : ℕ) (code : String) (actor scanner : ActorContext)
      (reason : Option String) (n : ℕ) {route : RouteTableRow} {first : RouteStepTableRow}
      → prisma.find_first (λ r. str_eq r.code code && r.active) db.routes ≡ some route
      → by_id (λ r. r.id) (some route.id) db.routes ≡ some route
      → first? (steps_of db route) ≡ some first
      → Memᴰ first db.route_steps
      → ((k : ℕ) → IsUnique (λ r. r.id == k) db.route_steps)
      → prisma.find_first (active_plan_of item) db.plans ≡ none
      → some_of (λ p. p.id == env.new_id) db.plans ≡ false
      → some_of (state_of item) db.states ≡ false
      → IsQuiet db item
      → count (step_after route.id first.sort_order) db.route_steps < n
      → Returns
          (λ v db'.
            Returns
              (Finished item (plan_row env item route reason) route)
              (scan_until_done n item scanner db'))
          (create_plan env item code actor reason db)
  create_plan-Finished db env item code actor scanner reason n {route} {first} e known f m ids g
        fresh no_state quiet h =
      Returns-map (create_plan env item code actor reason db)
        (λ v db' p.
          scan_until_done-Finished n db' item scanner
            (started-OnRoute v no_state fresh known m ids quiet p) (rw p.route_steps h))
        (create_plan-Starts db env item code actor reason e f g (no_state-none item db no_state))
