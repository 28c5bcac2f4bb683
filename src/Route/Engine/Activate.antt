-- ===== src/Route/Engine/Activate.antt =====
-- What raising an exception flow does: the item stands on the first step of the new flow.
use laundry_api.Base.{
  ℕ, ◌≡◌, refl, sym, subst, String, none, some, List, [], ◌∷◌, ◌++◌, arith, first?, sort_by,
  update_where,
}
use laundry_api.Store.{Prisma}
use laundry_api.Tx.{Returns}
use laundry_api.Route.Types.{ActorContext, CurrentStateView, LoadedState, StepSource, StepStatus}
use laundry_api.Route.Db.{Db, Env, OverrideTableRow, PlanTableRow, RouteTableRow, StateTableRow}
use laundry_api.Route.Load.{by_id}
use laundry_api.Route.View.{build_view, override_candidate, to_step_view, with_status}
use laundry_api.Route.Engine.Overrides.{
  OverrideInput, activate_overrides, new_override, raise_override,
}
use laundry_api.Route.Engine.Standing.{Standing, load_state_lem, loaded, state_of}

-- The state row on a new override.
abbrev pub raised : OverrideTableRow → StateTableRow → StateTableRow
raised o s = record s {
  current_step_source = StepSource.override;
  current_route_step_id = none;
  current_override_id = some o.id;
  current_step_status = StepStatus.in_progress;
}

-- What raising the override `o` must do.
pub record Raises (item : ℕ) (o : OverrideTableRow) (db : Db) (v : CurrentStateView) (db' : Db)
    : Type 0 where
  pub shown :
      v.current_step
      ≡ some (with_status StepStatus.in_progress (to_step_view (override_candidate o)))
  pub states : db'.states ≡ update_where (state_of item) (raised o) db.states
  pub overrides : db'.overrides ≡ db.overrides ++ o ∷ []
  pub plans : db'.plans ≡ db.plans
  pub routes : db'.routes ≡ db.routes
  pub route_steps : db'.route_steps ≡ db.route_steps
  pub templates : db'.templates ≡ db.templates

module _ ⦃prisma : Prisma⦄ where
  raise_override-Raises :
      (db : Db) (env : Env) (item : ℕ) (flow_code : String) (base : ℕ) (actor : ActorContext)
      (state : LoadedState) (first : OverrideInput)
      → Returns
          (Raises item (new_override env item flow_code base first) db)
          (raise_override env item flow_code base actor state first db)
  unfolding raise_override build_view
  raise_override-Raises db env item flow_code base actor state first = record {
    shown = refl;
    states = refl;
    overrides = refl;
    plans = refl;
    routes = refl;
    route_steps = refl;
    templates = refl;
  }

  activate_overrides_lem :
      (db : Db) (env : Env) (item : ℕ) (flow_code : String) (steps : List OverrideInput) (base : ℕ)
      (actor : ActorContext) {s : StateTableRow} {plan : PlanTableRow} {route_row : RouteTableRow}
      {first : OverrideInput}
      → Standing db item s plan route_row
      → first? (sort_by (λ o. o.offset) steps) ≡ some first
      → activate_overrides env item flow_code steps base actor db
        ≡ raise_override env item flow_code base actor
            (loaded s plan route_row
              (by_id (λ r. r.id) s.current_route_step_id db.route_steps)
              (by_id (λ o. o.id) s.current_override_id db.overrides))
            first
            db
  unfolding activate_overrides
  activate_overrides_lem db env item flow_code steps base actor st f =
      ground (arith, load_state_lem db item st)

  pub activate_overrides-Raises :
      (db : Db) (env : Env) (item : ℕ) (flow_code : String) (steps : List OverrideInput) (base : ℕ)
      (actor : ActorContext) {s : StateTableRow} {plan : PlanTableRow} {route_row : RouteTableRow}
      {first : OverrideInput}
      → Standing db item s plan route_row
      → first? (sort_by (λ o. o.offset) steps) ≡ some first
      → Returns
          (Raises item (new_override env item flow_code base first) db)
          (activate_overrides env item flow_code steps base actor db)
  activate_overrides-Raises db env item flow_code steps base actor {first = first} st f =
      subst (Returns (Raises item (new_override env item flow_code base first) db))
        (sym (activate_overrides_lem db env item flow_code steps base actor st f))
        (raise_override-Raises db env item flow_code base actor _ first)
