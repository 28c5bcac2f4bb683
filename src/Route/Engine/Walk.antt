-- ===== src/Route/Engine/Walk.antt =====
-- Scanning an item to the end of its route.
use mathlib.Core.Option
use laundry_api.Base.{
  ℕ, zero, suc, ◌<◌, ◌≡◌, refl, ◌∙◌, sym, subst, ap, true, false, Option, none, some, arith, ◌==◌,
  Memᴰ, count, ==_refl,
}
use laundry_api.Errors.{type_error}
use laundry_api.Store.{Prisma}
use laundry_api.Store.Laws.{
  IsUnique, find_first-update_where, update_where-IsUnique, find_first-of_mem, count-lt,
}
use laundry_api.Tx.{Result, ok, err, Returns}
use laundry_api.Route.Types.{
  ActorContext, CurrentStateView, NextStepDecision, StepSource, StepStatus,
}
use laundry_api.Route.NextStep.{pick_next_step}
use laundry_api.Route.Db.{
  Db, PlanTableRow, RouteTableRow, RouteStepTableRow, StateTableRow, to_step_row,
}
use laundry_api.Route.Load.{by_id, find_next_step, next_route_step, step_after, top_override}
use laundry_api.Route.Load.Search.{IsNextRouteStep, find_next_step_lem, next_route_step_least}
use laundry_api.Route.Engine.Complete.{complete_current_step}
use laundry_api.Route.Engine.Standing.{Standing, state_of}
use laundry_api.Route.Engine.Moves.{
  OnlyState, Leaves, moved_to, ended, complete_current_step-Leaves,
}

-- Scan again unless the plan is completed.
abbrev after_scan :
    (Db → Result (CurrentStateView × Db))
    → Result (CurrentStateView × Db)
    → Result (CurrentStateView × Db)
after_scan again (err e) = err e
after_scan again (ok (v, db)) = elim v.is_plan_completed [ true ↦ ok (v, db) | false ↦ again db ]

after_scan-Returns :
    (L P : CurrentStateView → Db → Type 0) (again : Db → Result (CurrentStateView × Db))
    (r : Result (CurrentStateView × Db))
    → Returns L r
    → ((v : CurrentStateView) (db : Db) → L v db → Returns P (after_scan again (ok (v, db))))
    → Returns P (after_scan again r)
after_scan-Returns L P again (ok (v, db)) l k = k v db l
after_scan-Returns L P again (err e) l k = elim l [ ]

module _ ⦃prisma : Prisma⦄ where
  pub Standing-OnlyState :
      (f : StateTableRow → StateTableRow) {db db' : Db} {item : ℕ} {s : StateTableRow}
      {plan : PlanTableRow} {route : RouteTableRow}
      → ((x : StateTableRow) → (f x).order_item_id ≡ x.order_item_id)
      → ((x : StateTableRow) → (f x).plan_id ≡ x.plan_id)
      → Standing db item s plan route
      → OnlyState item f db db'
      → Standing db' item (f s) plan route
  Standing-OnlyState f {db} {db'} {item} {s} keep same st o = record {
    state_found = rw o.states (
        find_first-update_where (state_of item) f db.states (λ x t. rw (keep x) t) st.state_unique
          st.state_found);
    state_unique = rw o.states (update_where-IsUnique (state_of item) f db.states st.state_unique);
    plan_found = rw (o.plans, same s) st.plan_found;
    route_found = rw o.routes st.route_found;
  }

  -- Repeated scans of an item, at most `n`, until its plan is completed.
  pub scan_until_done : ℕ → ℕ → ActorContext → Db → Result (CurrentStateView × Db)
  scan_until_done zero item actor db = err type_error
  scan_until_done (suc n) item actor db =
      after_scan (scan_until_done n item actor) (complete_current_step item actor db)

  -- No exception flow is active on the item.
  abbrev pub IsQuiet : Db → ℕ → Type 0
  IsQuiet db item = top_override db item ≡ none

  abbrev pub route_decision : RouteStepTableRow → NextStepDecision
  route_decision t = record { step = to_step_row t; source = StepSource.route }

  pub find_next_step-IsQuiet :
      (db : Db) (item k route_id : ℕ)
      → IsQuiet db item
      → find_next_step db item k route_id
        ≡ Option.map route_decision (next_route_step db route_id k)
  unfolding pick_next_step
  find_next_step-IsQuiet db item k route_id q =
      rw (find_next_step_lem db item k route_id) (ground arith)

  -- The rows of a route past a sort order are fewer past the next one.
  remaining-lt :
      (db : Db) (route_id k : ℕ) (t : RouteStepTableRow)
      → IsNextRouteStep db route_id k t
      → count (step_after route_id t.sort_order) db.route_steps
        < count (step_after route_id k) db.route_steps
  remaining-lt db route_id k t (m, same, lt, least) =
      count-lt (step_after route_id k) (step_after route_id t.sort_order) db.route_steps
        (λ x h. ground arith) m (ground arith) (ground arith)

  -- The plan is completed, in the view and in the item's state row.
  abbrev pub Finished : ℕ → PlanTableRow → RouteTableRow → CurrentStateView → Db → Type 0
  Finished item plan route_row v db =
      (v.is_plan_completed ≡ true)
      × ((s : StateTableRow) × Standing db item s plan route_row
          × (s.current_step_status ≡ StepStatus.completed))

  -- The item stands, in progress, on the step `row` of its route, with no exception flow active.
  pub record OnRoute (db : Db) (item : ℕ) (s : StateTableRow) (plan : PlanTableRow)
      (route_row : RouteTableRow) (row : RouteStepTableRow) : Type 0 where
    pub standing : Standing db item s plan route_row
    pub running : s.current_step_status ≡ StepStatus.in_progress
    pub on_route : s.current_step_source ≡ StepSource.route
    pub step_found : by_id (λ r. r.id) s.current_route_step_id db.route_steps ≡ some row
    pub quiet : IsQuiet db item
    pub step_ids : (k : ℕ) → IsUnique (λ r. r.id == k) db.route_steps

  OnRoute-move :
      {db db' : Db} {item : ℕ} {s : StateTableRow} {plan : PlanTableRow} {route_row : RouteTableRow}
      {row : RouteStepTableRow} (t : RouteStepTableRow)
      → OnRoute db item s plan route_row row
      → Memᴰ t db.route_steps
      → OnlyState item (moved_to (route_decision t)) db db'
      → OnRoute db' item (moved_to (route_decision t) s) plan route_row t
  OnRoute-move {db} {db'} {item} t on m o = record {
    standing =
        Standing-OnlyState (moved_to (route_decision t)) (λ x. refl) (λ x. refl) on.standing o;
    running = refl;
    on_route = refl;
    step_found =
        rw o.route_steps (
          find_first-of_mem (λ r. r.id == t.id) db.route_steps (on.step_ids t.id) m (==_refl t.id));
    quiet = rw o.overrides on.quiet;
    step_ids = λ k. rw o.route_steps (on.step_ids k);
  }

  -- The two cases of a scan within the loop.
  scan_ends :
      (again : Db → Result (CurrentStateView × Db)) {db : Db} {item : ℕ} {s : StateTableRow}
      {plan : PlanTableRow} {route_row : RouteTableRow} (v : CurrentStateView) (db' : Db)
      → Standing db item s plan route_row
      → Leaves item db none v db'
      → Returns (Finished item plan route_row) (after_scan again (ok (v, db')))
  scan_ends again {item = item} {s = s} {plan = plan} {route_row = route_row} v db' st (done, o) =
      subst
        (λ b.
          Returns (Finished item plan route_row) (elim b as (λ x. Result (CurrentStateView × Db)) [
            | true ↦ ok (v, db')
            | false ↦ again db'
          ]))
        (sym done) (done, (ended s, Standing-OnlyState ended (λ x. refl) (λ x. refl) st o, refl))

  scan_goes_on :
      (again : Db → Result (CurrentStateView × Db)) (P : CurrentStateView → Db → Type 0)
      (v : CurrentStateView) (db' : Db)
      → v.is_plan_completed ≡ false
      → Returns P (again db')
      → Returns P (after_scan again (ok (v, db')))
  scan_goes_on again P v db' more r =
      subst
        (λ b. Returns P (elim b as (λ x. Result (CurrentStateView × Db)) [
          | true ↦ ok (v, db')
          | false ↦ again db'
        ]))
        (sym more) r

  -- An item that stands, in progress, on a step of its route, with no exception flow active and with
  -- unique step ids, is brought to the end of its plan by scans alone: as many as the route has later
  -- steps, and one more, are enough, and none of them fails.
  pub scan_until_done-Finished :
      (n : ℕ) (db : Db) (item : ℕ) (actor : ActorContext) {s : StateTableRow} {plan : PlanTableRow}
      {route_row : RouteTableRow} {row : RouteStepTableRow}
      → OnRoute db item s plan route_row row
      → count (step_after plan.route_id row.sort_order) db.route_steps < n
      → Returns (Finished item plan route_row) (scan_until_done n item actor db)
  unfolding scan_until_done
  scan_until_done-Finished zero db item actor on h = absurd (omega arith)
  scan_until_done-Finished (suc n) db item actor {s} {plan} {route_row} {row} on h =
      after_scan-Returns (Leaves item db next) (Finished item plan route_row)
        (scan_until_done n item actor) (complete_current_step item actor db)
        (complete_current_step-Leaves db item actor on.standing on.running on.on_route
          on.step_found)
        (go next (next_route_step db plan.route_id row.sort_order) refl
          (find_next_step-IsQuiet db item row.sort_order plan.route_id on.quiet)
          (λ db' t on' less. scan_until_done-Finished n db' item actor on' less))
    where
      next : Option NextStepDecision
      next = find_next_step db item row.sort_order plan.route_id

      go :
          (d : Option NextStepDecision) (t : Option RouteStepTableRow)
          → next_route_step db plan.route_id row.sort_order ≡ t
          → d ≡ Option.map route_decision (next_route_step db plan.route_id row.sort_order)
          → ((db' : Db) (t : RouteStepTableRow)
              → OnRoute db' item (moved_to (route_decision t) s) plan route_row t
              → count (step_after plan.route_id t.sort_order) db'.route_steps < n
              → Returns (Finished item plan route_row) (scan_until_done n item actor db'))
          → (v : CurrentStateView) (db' : Db) → Leaves item db d v db'
          → Returns
              (Finished item plan route_row)
              (after_scan (scan_until_done n item actor) (ok (v, db')))
      go d none e f again v db' l =
          scan_ends (scan_until_done n item actor) v db' on.standing
            (subst (λ x. Leaves item db x v db') (f ∙ ap (Option.map route_decision) e) l)
      go d (some t) e f again v db' l =
          let least = next_route_step_least db plan.route_id row.sort_order e in
          let (more, o, _, _) =
            subst (λ x. Leaves item db x v db') (f ∙ ap (Option.map route_decision) e) l in
          scan_goes_on (scan_until_done n item actor) (Finished item plan route_row) v db' more (
            again db' t (OnRoute-move t on least.0 o) (
              rw o.route_steps
                (omega (arith, h, remaining-lt db plan.route_id row.sort_order t least))))
