-- ===== src/Route/Engine/Nested.antt =====
-- An exception flow raised within another one returns to it.
use laundry_api.Base.{
  ℕ, ◌≡◌, refl, subst, ap, ◌∙◌, String, Bool, true, false, none, some, List, [], ◌∷◌, ◌++◌, Memᴰ,
  arith, first?, sort_by, update_where, some_of, ◌==◌, ==_refl,
}
use laundry_api.Store.{Prisma}
use laundry_api.Store.Laws.{
  IsUnique-insert, find_first-of_mem, find_first-update_where, mem-append_right,
  update_where-IsUnique,
}
use laundry_api.Tx.{Returns, Returns-map}
use laundry_api.Route.Types.{ActorContext, CurrentStateView, StepSource, StepStatus}
use laundry_api.Route.NextStep.{next_template_step}
use laundry_api.Route.Db.{
  Db, Env, OverrideStatus, OverrideTableRow, PlanTableRow, RouteTableRow, StateTableRow,
}
use laundry_api.Route.Load.{by_id, flow_steps, next_route_step, top_override}
use laundry_api.Route.View.{override_candidate, to_step_view, with_status}
use laundry_api.Route.Load.Top.{IsTop, IsTop-append, newest-IsTop}
use laundry_api.Route.Engine.Activate.{Raises, activate_overrides-Raises, raised}
use laundry_api.Route.Engine.Complete.{complete_current_step}
use laundry_api.Route.Engine.Overrides.{OverrideInput, activate_overrides, new_override}
use laundry_api.Route.Engine.Stack.{
  Exits, Passes, complete_current_step-Passes, on_override, pop_db, popped,
}
use laundry_api.Route.Engine.Standing.{Standing, state_of}

-- An update that only a new row at the end passes the test of.
update_where-append :
    {A : Type 0} (p : A → Bool) (f : A → A) (rows : List A) (row : A)
    → some_of p rows ≡ false
    → p row ≡ true
    → update_where p f (rows ++ row ∷ []) ≡ rows ++ f row ∷ []
update_where-append p f [] row fresh t = ground arith
update_where-append p f (x ∷ rows) row fresh t =
    ground (arith, update_where-append p f rows row (ground arith) t)

module _ ⦃prisma : Prisma⦄ where
  -- The item is back on the override `o`, at the step that it was left on; `row`, completed, is the
  -- only new override row.
  pub record BackOn (item : ℕ) (o row : OverrideTableRow) (db : Db) (v : CurrentStateView)
      (db' : Db) : Type 0 where
    pub running : v.is_plan_completed ≡ false
    pub shown :
        v.current_step
        ≡ some (with_status StepStatus.in_progress (to_step_view (override_candidate o)))
    pub overrides :
        db'.overrides ≡ db.overrides ++ (record row { status = OverrideStatus.completed }) ∷ []
    pub state :
        (s : StateTableRow) × (prisma.find_first (state_of item) db'.states ≡ some s)
        × (s.current_override_id ≡ some o.id)
        × (s.current_step_source ≡ StepSource.override)
        × (s.current_step_status ≡ StepStatus.in_progress)

  raised-Standing :
      {db db' : Db} {item : ℕ} {s : StateTableRow} {plan : PlanTableRow} {route_row : RouteTableRow}
      (row : OverrideTableRow) (v : CurrentStateView)
      → Standing db item s plan route_row
      → Raises item row db v db'
      → Standing db' item (raised row s) plan route_row
  raised-Standing {db} {db'} {item} row v st r = record {
    state_found = rw r.states (
        find_first-update_where (state_of item) (raised row) db.states (λ x t. t) st.state_unique
          st.state_found);
    state_unique =
        rw r.states (update_where-IsUnique (state_of item) (raised row) db.states st.state_unique);
    plan_found = rw r.plans st.plan_found;
    route_found = rw r.routes st.route_found;
  }

  popped_raised :
      {db db' : Db} {item : ℕ} (row : OverrideTableRow) (v : CurrentStateView)
      → some_of (λ r. r.id == row.id) db.overrides ≡ false
      → Raises item row db v db'
      → popped row.id db'.overrides
        ≡ db.overrides ++ (record row { status = OverrideStatus.completed }) ∷ []
  popped_raised {db} row v fresh r =
      ap (popped row.id) r.overrides
      ∙ update_where-append (λ x. x.id == row.id)
          (λ x. record x { status = OverrideStatus.completed }) db.overrides row fresh
          (==_refl row.id)

  Exits-BackOn :
      {db db' : Db} {item : ℕ} (s : StateTableRow) {plan : PlanTableRow} {route_row : RouteTableRow}
      (o row : OverrideTableRow) (v w : CurrentStateView) (db'' : Db)
      → some_of (λ r. r.id == row.id) db.overrides ≡ false
      → Standing db' item (raised row s) plan route_row
      → Raises item row db v db'
      → Exits item row.id db' (some o) (next_route_step db' plan.route_id row.sort_order) w db''
      → BackOn item o row db w db''
  Exits-BackOn {db} {db'} {item} s o row v w db'' fresh st r (more, step, states, overrides) =
      record {
        running = more;
        shown = step;
        overrides = overrides ∙ popped_raised row v fresh r;
        state = (
          on_override o (raised row s),
          rw states (
              find_first-update_where (state_of item) (on_override o) db'.states (λ x t. t)
                st.state_unique st.state_found),
          refl,
          refl,
          refl,
        );
      }

  raised_found :
      {db db' : Db} {item : ℕ} (row : OverrideTableRow) (v : CurrentStateView)
      → some_of (λ r. r.id == row.id) db.overrides ≡ false
      → Raises item row db v db'
      → by_id (λ x. x.id) (some row.id) db'.overrides ≡ some row
  raised_found {db} row v fresh r = rw r.overrides (
      find_first-of_mem (λ x. x.id == row.id) (db.overrides ++ row ∷ [])
        (IsUnique-insert (λ x. x.id == row.id) db.overrides row fresh)
        (mem-append_right db.overrides (row ∷ []) (Memᴰ.head refl)) (==_refl row.id))

  top_after :
      {db db' : Db} {item : ℕ} (o row : OverrideTableRow) (v : CurrentStateView)
      → some_of (λ r. r.id == row.id) db.overrides ≡ false
      → Raises item row db v db'
      → IsTop item o db.overrides
      → top_override (pop_db row.id db') item ≡ some o
  top_after {db} {item = item} o row v fresh r top = rw (popped_raised row v fresh r) (
      newest-IsTop item o (db.overrides ++ (record row { status = OverrideStatus.completed }) ∷ [])
        (IsTop-append item o db.overrides (record row { status = OverrideStatus.completed })
          (ground arith) top))

  -- A flow of one step is raised on an item whose newest active override is `o`, as the only one as
  -- new, and the step is scanned. Both calls return, and the item is back on `o`, in progress, at
  -- the step that `o` was left on; the overrides are the old ones and the new one, completed.
  pub activate_overrides-BackOn :
      (db : Db) (env : Env) (item : ℕ) (flow_code : String) (steps : List OverrideInput) (base : ℕ)
      (actor next_actor : ActorContext) (o : OverrideTableRow) {s : StateTableRow}
      {plan : PlanTableRow} {route_row : RouteTableRow} {first : OverrideInput}
      → Standing db item s plan route_row
      → first? (sort_by (λ x. x.offset) steps) ≡ some first
      → next_template_step (flow_steps db flow_code) first.offset ≡ none
      → some_of (λ r. r.id == env.new_id) db.overrides ≡ false
      → IsTop item o db.overrides
      → Returns
          (λ v db'.
            Returns
              (BackOn item o (new_override env item flow_code base first) db)
              (complete_current_step item next_actor db'))
          (activate_overrides env item flow_code steps base actor db)
  activate_overrides-BackOn db env item flow_code steps base actor next_actor o {s} {plan}
        {route_row} {first} st f last fresh top =
      Returns-map (activate_overrides env item flow_code steps base actor db)
        (λ v db' r.
          let st' = raised-Standing row v st r in
          Returns-map (complete_current_step item next_actor db')
            (λ w db'' p. Exits-BackOn s o row v w db'' fresh st' r (ends v db' r w db'' p))
            (complete_current_step-Passes db' item next_actor st' refl refl
              (raised_found row v fresh r)))
        (activate_overrides-Raises db env item flow_code steps base actor st f)
    where
      row : OverrideTableRow
      row = new_override env item flow_code base first

      ends :
          (v : CurrentStateView) (db' : Db)
          → Raises item row db v db'
          → (w : CurrentStateView) (db'' : Db)
          → Passes item plan.route_id db' row
              (next_template_step (flow_steps db' flow_code) first.offset)
              w
              db''
          → Exits item row.id db' (some o) (next_route_step db' plan.route_id row.sort_order) w db''
      ends v db' r w db'' p =
          let exhausted : next_template_step (flow_steps db' flow_code) first.offset ≡ none =
            rw r.templates last in
          subst
            (λ t. Exits item row.id db' t (next_route_step db' plan.route_id row.sort_order) w db'')
            (top_after o row v fresh r top)
            (subst (λ t. Passes item plan.route_id db' row t w db'') exhausted p)
