-- ===== src/Route/Engine/Flag.antt =====
-- The flag `isPlanCompleted` of a scan's answer is that of the item's state row.
use laundry_api.Base.{
  ℕ, ◌≡◌, refl, sym, ◌∙◌, subst, Bool, true, false, Option, none, some, List, Memᴰ, arith, ◌==◌,
  ==_refl, ==→eq, Bool-cases, Option-cases, inl, inr, update_where,
}
use laundry_api.Store.{Prisma}
use laundry_api.Store.Laws.{mem-update_where}
use laundry_api.Tx.{Holds, Holds-ok, Result-cases, ok}
use laundry_api.Route.Db.{Db, OverrideTableRow, RouteStepTableRow, StateTableRow}
use laundry_api.Route.Load.{by_id, load_state}
use laundry_api.Route.NextStep.{TemplateStep}
use laundry_api.Route.Types.{
  ActorContext, CurrentStateView, LoadedState, NextStepDecision, OverrideStepRow, StepRow,
  StepSource, StepStatus,
}
use laundry_api.Route.View.{build_view, is_completed}
use laundry_api.Route.Engine.Complete.{complete_by_source, complete_current_step}
use laundry_api.Route.Engine.OverrideStep.{
  advance_override, complete_override_step, finish_after_override, leave_override,
  leave_override_step, pop_override, resume_route, return_to_override,
}
use laundry_api.Route.Engine.RouteStep.{
  complete_route_step, finish_plan, leave_route_step, move_to_step, override_id_of, route_id_of,
}

-- Every state row of the item has the status COMPLETED just when the flag is set.
abbrev pub IsFlagged : ℕ → Bool → Db → Type 0
IsFlagged item flag db =
    (s : StateTableRow)
    → Memᴰ s db.states
    → s.order_item_id ≡ item
    → is_completed s.current_step_status ≡ flag

-- An update of the item's state rows, which all have the same status after it.
update-IsFlagged :
    (item : ℕ) (f : StateTableRow → StateTableRow) (flag : Bool) (states : List StateTableRow)
    → ((s : StateTableRow) → is_completed (f s).current_step_status ≡ flag)
    → (s : StateTableRow) → Memᴰ s (update_where (λ s. s.order_item_id == item) f states)
    → s.order_item_id ≡ item
    → is_completed s.current_step_status ≡ flag
update-IsFlagged item f flag states same s m of =
    let (x, n, e) = mem-update_where (λ s. s.order_item_id == item) f states m in
    elim (Bool-cases (x.order_item_id == item)) [
      | inl t ↦
          let at : s ≡ f x = ground arith in
          subst (λ (z : StateTableRow). is_completed z.current_step_status ≡ flag) (sym at) (same x)
      | inr t ↦
          let at : s ≡ x = ground arith in
          let hit : x.order_item_id ≡ item =
            subst (λ (z : StateTableRow). z.order_item_id ≡ item) at of in
          absurd (ground (arith, ==_refl item))
    ]

module _ ⦃prisma : Prisma⦄ (state : LoadedState) (actor : ActorContext) where
  -- The answer and the state rows after a part of `completeCurrentStep`.
  abbrev pub Flagged : CurrentStateView → Db → Type 0
  Flagged v db = IsFlagged state.order_item_id v.is_plan_completed db

  leave_route_step-Flagged :
      (current : StepRow) (next : Option NextStepDecision) (db : Db)
      → Holds Flagged (leave_route_step state actor current next db)
  unfolding leave_route_step finish_plan move_to_step build_view
  leave_route_step-Flagged current none db =
      update-IsFlagged state.order_item_id
        (λ s. record s { current_step_status = StepStatus.completed }) true db.states (λ s. refl)
  leave_route_step-Flagged current (some next) db =
      update-IsFlagged state.order_item_id
        (λ s. record s {
          current_step_source = next.source;
          current_route_step_id = route_id_of next next.source;
          current_override_id = override_id_of next next.source;
          current_step_status = StepStatus.in_progress;
        })
        false db.states (λ s. refl)

  leave_override-Flagged :
      (current : OverrideStepRow) (prev : Option OverrideTableRow) (step : Option RouteStepTableRow)
      (db : Db)
      → Holds Flagged (leave_override state actor current prev step db)
  unfolding leave_override return_to_override resume_route finish_after_override build_view
  leave_override-Flagged current (some prev) step db =
      update-IsFlagged state.order_item_id
        (λ s. record s {
          current_override_id = some prev.id;
          current_step_source = StepSource.override;
          current_step_status = StepStatus.in_progress;
        })
        false db.states (λ s. refl)
  leave_override-Flagged current none (some step) db =
      update-IsFlagged state.order_item_id
        (λ s. record s {
          current_step_source = StepSource.route;
          current_route_step_id = some step.id;
          current_override_id = none;
          current_step_status = StepStatus.in_progress;
        })
        false db.states (λ s. refl)
  leave_override-Flagged current none none db =
      update-IsFlagged state.order_item_id
        (λ s. record s { current_step_status = StepStatus.completed; current_override_id = none })
        true db.states (λ s. refl)

  leave_override_step-Flagged :
      (current : OverrideStepRow) (next : Option TemplateStep) (db : Db)
      → Holds Flagged (leave_override_step state actor current next db)
  unfolding leave_override_step advance_override pop_override build_view
  leave_override_step-Flagged current (some next) db =
      update-IsFlagged state.order_item_id
        (λ s. record s { current_step_status = StepStatus.in_progress }) false db.states (λ s. refl)
  leave_override_step-Flagged current none db = leave_override-Flagged current _ _ _

  by_source-Flagged :
      (source : StepSource) (db : Db) → Holds Flagged (complete_by_source source state actor db)
  unfolding complete_route_step complete_override_step
  by_source-Flagged StepSource.route db = elim (Option-cases state.current_route_step) [
    | inl e ↦ simp e tt
    | inr (current, e) ↦ simp e (leave_route_step-Flagged current _ _)
  ]
  by_source-Flagged StepSource.override db = elim (Option-cases state.current_override_step) [
    | inl e ↦ simp e tt
    | inr (current, e) ↦ simp e (leave_override_step-Flagged current _ _)
  ]

module _ ⦃prisma : Prisma⦄ where
  load_state_same :
      (item : ℕ) (db : Db) {state : LoadedState} {db' : Db}
      → load_state item db ≡ ok (state, db')
      → state.order_item_id ≡ item
  unfolding load_state
  load_state_same item db {state} e =
      elim (Option-cases (prisma.find_first (λ s. s.order_item_id == item) db.states)) [
        | inl f ↦ absurd (ground arith)
        | inr (s, f) ↦ elim (Option-cases (by_id (λ p. p.id) (some s.plan_id) db.plans)) [
          | inl g ↦ absurd (ground arith)
          | inr (plan, g) ↦ elim (Option-cases (by_id (λ r. r.id) (some plan.route_id) db.routes)) [
            | inl h ↦ absurd (ground arith)
            | inr (route, h) ↦
                let same =
                  ==→eq s.order_item_id item
                    (prisma.find_first_test (λ s. s.order_item_id == item) db.states f) in
                let at : state.order_item_id ≡ s.order_item_id = ground arith in at ∙ same
          ]
        ]
      ]

  -- A `completeCurrentStep` that returns says that the plan is completed just when the item's state
  -- row does.
  pub complete_current_step-IsFlagged :
      (item : ℕ) (actor : ActorContext) (db : Db) {v : CurrentStateView} {db' : Db}
      → complete_current_step item actor db ≡ ok (v, db')
      → IsFlagged item v.is_plan_completed db'
  unfolding complete_current_step
  complete_current_step-IsFlagged item actor db {v} {db'} e =
      elim (Result-cases (load_state item db)) [
        | inr (x, f) ↦ absurd (ground arith)
        | inl ((state, d1), f) ↦ elim (Bool-cases (is_completed state.current_step_status)) [
          | inl g ↦ absurd (ground arith)
          | inr g ↦
              let rest : complete_by_source state.current_step_source state actor d1 ≡ ok (v, db') =
                ground arith in
              subst (λ k. IsFlagged k v.is_plan_completed db') (load_state_same item db f)
                (Holds-ok (Flagged state actor) (by_source-Flagged state actor _ d1) rest)
        ]
      ]
