-- ===== src/Route/Engine/Create.antt =====
-- A plan that is created starts on the first step of its route.
use laundry_api.Base.{
  ℕ, ◌≡◌, refl, sym, subst, ap, String, false, Option, none, some, List, [], ◌∷◌, ◌++◌, Memᴰ, arith,
  first?, map, str_eq, ◌==◌, ◌&&◌, some_of, ==_refl,
}
use laundry_api.Store.{Prisma}
use laundry_api.Store.Laws.{IsUnique, IsUnique-insert, find_first-of_mem, mem-append_right}
use laundry_api.Tx.{ok, Returns, Returns-bind}
use laundry_api.Route.Types.{ActorContext, CurrentStateView, StepRow, StepStatus}
use laundry_api.Route.Db.{
  Db, Env, PlanStatus, PlanTableRow, RouteStepTableRow, RouteTableRow, StateTableRow, to_step_row,
}
use laundry_api.Route.Load.{
  RouteRow, by_id, init_plan, load_route, new_state, start_on, upsert_state,
}
use laundry_api.Route.View.{to_step_view, with_status}
use laundry_api.Route.Engine.Plans.{active_plan_of, create_plan, new_plan}
use laundry_api.Route.Engine.Standing.{Standing, state_of}

-- The plan row that `initPlan` creates.
abbrev pub plan_row : Env → ℕ → RouteTableRow → Option String → PlanTableRow
plan_row env item route reason = record {
  id = env.new_id;
  order_item_id = item;
  route_id = route.id;
  status = PlanStatus.active;
  reason = reason;
  superseded_at = none;
}

-- What creating a plan on `route`, with the first step `first`, must do for an item that has no
-- state row.
pub record Starts (env : Env) (item : ℕ) (route : RouteTableRow) (reason : Option String)
    (first : StepRow) (db : Db) (v : CurrentStateView) (db' : Db) : Type 0 where
  pub running : v.is_plan_completed ≡ false
  pub shown : v.current_step ≡ some (with_status StepStatus.in_progress (to_step_view first))
  pub states : db'.states ≡ db.states ++ new_state item env.new_id first.id ∷ []
  pub plans : db'.plans ≡ db.plans ++ plan_row env item route reason ∷ []
  pub overrides : db'.overrides ≡ db.overrides
  pub routes : db'.routes ≡ db.routes
  pub route_steps : db'.route_steps ≡ db.route_steps
  pub templates : db'.templates ≡ db.templates

module _ ⦃prisma : Prisma⦄ where
  -- The steps of a route, in order.
  abbrev pub steps_of : Db → RouteTableRow → List RouteStepTableRow
  steps_of db route =
      prisma.find_many_asc (λ s. s.sort_order) (λ s. s.route_id == route.id) db.route_steps

  abbrev pub loaded_route : Db → RouteTableRow → RouteRow
  loaded_route db route = record {
    id = route.id;
    code = route.code;
    steps = map to_step_row (steps_of db route);
  }

  load_route_lem :
      (db : Db) (code : String) {route : RouteTableRow} {first : RouteStepTableRow}
      → prisma.find_first (λ r. str_eq r.code code && r.active) db.routes ≡ some route
      → first? (steps_of db route) ≡ some first
      → load_route code db ≡ ok (loaded_route db route, db)
  unfolding load_route
  load_route_lem db code e f = ground arith

  first-map :
      (steps : List RouteStepTableRow) {first : RouteStepTableRow}
      → first? steps ≡ some first
      → first? (map to_step_row steps) ≡ some (to_step_row first)
  first-map [] e = cc
  first-map (x ∷ steps) e = ground arith

  start_on-Starts :
      (db : Db) (env : Env) (item : ℕ) (actor : ActorContext) (reason : Option String)
      (route : RouteTableRow) (first : RouteStepTableRow)
      → prisma.find_first (state_of item) db.states ≡ none
      → Returns
          (Starts env item route reason (to_step_row first) db)
          (start_on env item (loaded_route db route) actor reason (to_step_row first) db)
  unfolding start_on
  start_on-Starts db env item actor reason route first e = record {
    running = refl;
    shown = refl;
    states = ap (λ o. upsert_state item env.new_id first.id o db.states) e;
    plans = refl;
    overrides = refl;
    routes = refl;
    route_steps = refl;
    templates = refl;
  }

  init_plan_lem :
      (db : Db) (env : Env) (item : ℕ) (actor : ActorContext) (reason : Option String)
      (route : RouteTableRow) (first : RouteStepTableRow)
      → first? (steps_of db route) ≡ some first
      → init_plan env item (loaded_route db route) actor reason db
        ≡ start_on env item (loaded_route db route) actor reason (to_step_row first) db
  unfolding init_plan
  init_plan_lem db env item actor reason route first f =
      let g = first-map (steps_of db route) f in ground arith

  new_plan-Starts :
      (db : Db) (env : Env) (item : ℕ) (actor : ActorContext) (reason : Option String)
      (route : RouteTableRow) (first : RouteStepTableRow)
      → first? (steps_of db route) ≡ some first
      → prisma.find_first (state_of item) db.states ≡ none
      → Returns
          (Starts env item route reason (to_step_row first) db)
          (new_plan env item (loaded_route db route) actor reason db)
  unfolding new_plan
  new_plan-Starts db env item actor reason route first f e =
      Returns-bind (Starts env item route reason (to_step_row first) db)
        (Starts env item route reason (to_step_row first) db)
        (init_plan env item (loaded_route db route) actor reason) _ db
        (subst (Returns (Starts env item route reason (to_step_row first) db))
          (sym (init_plan_lem db env item actor reason route first f))
          (start_on-Starts db env item actor reason route first e))
        (λ v s p. record {
          running = p.running;
          shown = p.shown;
          states = p.states;
          plans = p.plans;
          overrides = p.overrides;
          routes = p.routes;
          route_steps = p.route_steps;
          templates = p.templates;
        })

  create_plan_lem :
      (db : Db) (env : Env) (item : ℕ) (code : String) (actor : ActorContext)
      (reason : Option String) {route : RouteTableRow} {first : RouteStepTableRow}
      → prisma.find_first (λ r. str_eq r.code code && r.active) db.routes ≡ some route
      → first? (steps_of db route) ≡ some first
      → prisma.find_first (active_plan_of item) db.plans ≡ none
      → create_plan env item code actor reason db
        ≡ new_plan env item (loaded_route db route) actor reason db
  unfolding create_plan
  create_plan_lem db env item code actor reason e f g = ground (arith, load_route_lem db code e f)

  -- A plan is created on an active route with a first step, for an item with no active plan and no
  -- state row: the call returns, shows the route's first step as the current one, and adds an active
  -- plan row and a state row, in progress on the first step; apart from the events and the audit
  -- log it changes no table.
  pub create_plan-Starts :
      (db : Db) (env : Env) (item : ℕ) (code : String) (actor : ActorContext)
      (reason : Option String) {route : RouteTableRow} {first : RouteStepTableRow}
      → prisma.find_first (λ r. str_eq r.code code && r.active) db.routes ≡ some route
      → first? (steps_of db route) ≡ some first
      → prisma.find_first (active_plan_of item) db.plans ≡ none
      → prisma.find_first (state_of item) db.states ≡ none
      → Returns
          (Starts env item route reason (to_step_row first) db)
          (create_plan env item code actor reason db)
  create_plan-Starts db env item code actor reason {route} {first} e f g h =
      subst (Returns (Starts env item route reason (to_step_row first) db))
        (sym (create_plan_lem db env item code actor reason e f g))
        (new_plan-Starts db env item actor reason route first f h)

  -- The item of a started plan stands on the plan.
  pub started-Standing :
      {db db' : Db} {env : Env} {item : ℕ} {route : RouteTableRow} {reason : Option String}
      {first : StepRow} (v : CurrentStateView)
      → some_of (state_of item) db.states ≡ false
      → some_of (λ p. p.id == env.new_id) db.plans ≡ false
      → by_id (λ r. r.id) (some route.id) db.routes ≡ some route
      → Starts env item route reason first db v db'
      → Standing db' item
          (new_state item env.new_id first.id)
          (plan_row env item route reason)
          route
  started-Standing {db} {db'} {env} {item} {route} {reason} {first} v no_state fresh known p =
      record {
        state_found = rw p.states (
            find_first-of_mem (state_of item) (db.states ++ row ∷ []) unique
              (mem-append_right db.states (row ∷ []) (Memᴰ.head refl)) (==_refl item));
        state_unique = rw p.states unique;
        plan_found = rw p.plans (
            find_first-of_mem (λ x. x.id == env.new_id)
              (db.plans ++ plan_row env item route reason ∷ [])
              (IsUnique-insert (λ x. x.id == env.new_id) db.plans (plan_row env item route reason)
                fresh)
              (mem-append_right db.plans (plan_row env item route reason ∷ []) (Memᴰ.head refl))
              (==_refl env.new_id));
        route_found = rw p.routes known;
      }
    where
      row : StateTableRow
      row = new_state item env.new_id first.id

      unique : IsUnique (state_of item) (db.states ++ row ∷ [])
      unique = IsUnique-insert (state_of item) db.states row no_state
