-- ===== src/Route/Engine/Skip.antt =====
-- What skipping the exception flows of an item does.
use mathlib.Core.Option
use laundry_api.Base.{
  ℕ, ◌≡◌, refl, Bool, true, false, Option, none, some, List, arith, update_where, Memᴰ, inl, inr,
  Bool-cases,
}
use laundry_api.Store.{Prisma}
use laundry_api.Store.Laws.{mem-update_where}
use laundry_api.Route.Types.{CurrentStateView, StepStatus}
use laundry_api.Route.Db.{
  Db, OverrideStatus, OverrideTableRow, RouteStepTableRow, StateTableRow, active_override_of,
  to_override_step, to_step_row,
}
use laundry_api.Route.Load.{by_id}
use laundry_api.Route.View.{to_step_view, with_status}
use laundry_api.Route.Engine.Overrides.{override_sort_order}
use laundry_api.Route.Engine.Standing.{Standing, state_of}
use laundry_api.Route.Engine.Stack.{at_end, on_route}
use laundry_api.Route.Engine.Walk.{IsQuiet}

-- The overrides after those of the item are all completed.
abbrev pub skipped : ℕ → List OverrideTableRow → List OverrideTableRow
skipped item =
    update_where (active_override_of item) (λ o. record o { status = OverrideStatus.completed })

-- What skipping must do, given the step at which the route resumes.
abbrev pub Skips : ℕ → Db → Option RouteStepTableRow → CurrentStateView → Db → Type 0
Skips item db (some t) v db' =
    (v.is_plan_completed ≡ false)
    × (v.current_step ≡ some (with_status StepStatus.in_progress (to_step_view (to_step_row t))))
    × (db'.states ≡ update_where (state_of item) (on_route t) db.states)
    × (db'.overrides ≡ skipped item db.overrides)
Skips item db none v db' =
    (v.is_plan_completed ≡ true)
    × (db'.states ≡ update_where (state_of item) at_end db.states)
    × (db'.overrides ≡ skipped item db.overrides)

skipped-not_active :
    (item : ℕ) (rows : List OverrideTableRow) {r : OverrideTableRow}
    → Memᴰ r (skipped item rows)
    → active_override_of item r ≡ false
skipped-not_active item rows {r} m =
    let (x, _, e) =
      mem-update_where (active_override_of item)
        (λ o. record o { status = OverrideStatus.completed }) rows m in
    elim (Bool-cases (active_override_of item x)) [
      | inl hit ↦ ground arith
      | inr miss ↦ ground arith
    ]

module _ ⦃prisma : Prisma⦄ where
  -- Where skipping starts from: the step of the current override, if there is one.
  abbrev pub resume_from : StateTableRow → Db → ℕ
  resume_from s db =
      override_sort_order
        (Option.map to_override_step (by_id (λ o. o.id) s.current_override_id db.overrides))

  skipped-IsQuiet :
      (item : ℕ) (db db' : Db) → db'.overrides ≡ skipped item db.overrides → IsQuiet db' item
  skipped-IsQuiet item db db' e = rw e (go (prisma.find_first_desc key test rows) refl)
    where
      key : OverrideTableRow → ℕ
      key o = o.created_at

      test : OverrideTableRow → Bool
      test = active_override_of item

      rows : List OverrideTableRow
      rows = skipped item db.overrides

      go :
          (o : Option OverrideTableRow)
          → prisma.find_first_desc key test rows ≡ o
          → prisma.find_first_desc key test rows ≡ none
      go none f = f
      go (some o) f = absurd (
          cc (
            prisma.find_first_desc_test key test rows f,
            skipped-not_active item db.overrides (prisma.find_first_desc_mem key test rows f),
          ))

  -- After the exception flows of an item are skipped, none is active on it.
  pub Skips-IsQuiet :
      (item : ℕ) (db : Db) (t : Option RouteStepTableRow) (v : CurrentStateView) (db' : Db)
      → Skips item db t v db'
      → IsQuiet db' item
  Skips-IsQuiet item db none v db' k = skipped-IsQuiet item db db' k.2
  Skips-IsQuiet item db (some t) v db' k = skipped-IsQuiet item db db' k.3
