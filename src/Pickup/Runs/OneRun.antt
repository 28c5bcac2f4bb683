-- ===== src/Pickup/Runs/OneRun.antt =====
-- At most one active pickup run per staff and per vehicle.
use laundry_api.Base.{
  ℕ, String, ◌≡◌, subst, false, none, some, List, [], ◌∷◌, ◌++◌, arith, Bool-cases, Option-cases,
  inl, inr, ◌⊎◌, ◌==◌, ◌&&◌, str_eq, some_of, update_where, ==→eq, eq_iff,
}
use laundry_api.Store.{Prisma}
use laundry_api.Store.Laws.{IsUnique, IsUnique-append, update_where-IsUnique_fewer}
use laundry_api.Tx.{ok}
use laundry_api.Route.Db.{Env}
use laundry_api.Pickup.Types.{PickupDb, PickupRun, PickupRunResult, PickupRunStatus}
use laundry_api.Pickup.Runs.{
  active_run_of, active_run_on, create_run, new_run, open_run, reuse_or_open, view_run,
}

-- At most one ACTIVE run per staff and per vehicle.
pub record HasOneRun (runs : List PickupRun) : Type 0 where
  pub per_staff : (staff : String) → IsUnique (active_run_of staff) runs
  pub per_vehicle : (vehicle : ℕ) → IsUnique (active_run_on vehicle) runs

abbrev pub with_run : PickupDb → PickupRun → PickupDb
with_run db run = record db { pickup_runs = db.pickup_runs ++ run ∷ [] }

abbrev pub returned_run : Env → PickupRun → PickupRun
returned_run env r = record r { status = PickupRunStatus.returned; ended_at = some env.now }

pub returned-HasOneRun :
    (env : Env) (run : ℕ) (runs : List PickupRun)
    → HasOneRun runs
    → HasOneRun (update_where (λ r. r.id == run) (returned_run env) runs)
returned-HasOneRun env run runs one = record {
  per_staff = λ s.
      update_where-IsUnique_fewer (active_run_of s) (λ r. r.id == run) (returned_run env) runs
        (λ x t. ground arith) (one.per_staff s);
  per_vehicle = λ w.
      update_where-IsUnique_fewer (active_run_on w) (λ r. r.id == run) (returned_run env) runs
        (λ x t. ground arith) (one.per_vehicle w);
}

module _ ⦃prisma : Prisma⦄ where
  view_run-same :
      (run : PickupRun) (db : PickupDb) {v : PickupRunResult} {db' : PickupDb}
      → view_run run db ≡ ok (v, db')
      → db' ≡ db
  view_run-same run db e =
      elim (Option-cases (prisma.find_first (λ v. v.id == run.vehicle_id) db.pickup_vehicles)) [
        | inl f ↦ absurd (ground arith)
        | inr (vehicle, f) ↦ ground arith
      ]

  module _ (env : Env) (staff : String) (db : PickupDb) where
    -- The call has opened a run, or found one.
    abbrev pub Opened : PickupDb → Type 0
    Opened db' =
        (db' ≡ db)
        ⊎ ((vehicle : ℕ) × (prisma.find_first (active_run_of staff) db.pickup_runs ≡ none)
            × (prisma.find_first (active_run_on vehicle) db.pickup_runs ≡ none)
            × (db' ≡ with_run db (new_run env staff vehicle)))

    reuse_or_open-effect :
        (vehicle : ℕ) {v : PickupRunResult} {db' : PickupDb}
        → reuse_or_open env staff vehicle
            (prisma.find_first (active_run_of staff) db.pickup_runs)
            db
          ≡ ok (v, db')
        → Opened db'
    unfolding open_run
    reuse_or_open-effect vehicle {v} {db'} e =
        elim (Option-cases (prisma.find_first (active_run_of staff) db.pickup_runs)) [
          | inr (run, f) ↦ elim (Bool-cases (run.vehicle_id == vehicle)) [
            | inl same ↦ inl (view_run-same run db {v = v} (ground arith))
            | inr other ↦ absurd (ground arith)
          ]
          | inl f ↦ elim (Option-cases (prisma.find_first (active_run_on vehicle) db.pickup_runs)) [
            | inr (r, g) ↦ absurd (ground arith)
            | inl g ↦ inr (
              vehicle,
              f,
              g,
              view_run-same (new_run env staff vehicle) (with_run db (new_run env staff vehicle))
                  {v = v} (ground arith),
            )
          ]
        ]

    pub create_run-effect :
        (code : String) {v : PickupRunResult} {db' : PickupDb}
        → create_run env staff code db ≡ ok (v, db')
        → Opened db'
    unfolding create_run
    create_run-effect code {v} {db'} e =
        elim (Option-cases
          (prisma.find_first (λ v. str_eq v.code code && v.active) db.pickup_vehicles)) [
            | inl f ↦ absurd (ground arith)
            | inr (vehicle, f) ↦ elim (Bool-cases (some_of (λ s. str_eq s staff) db.staff)) [
              | inr g ↦ absurd (ground arith)
              | inl g ↦ reuse_or_open-effect vehicle.id {v = v} (ground arith)
            ]
          ]

    pub opened-HasOneRun :
        (vehicle : ℕ)
        → HasOneRun db.pickup_runs
        → prisma.find_first (active_run_of staff) db.pickup_runs ≡ none
        → prisma.find_first (active_run_on vehicle) db.pickup_runs ≡ none
        → HasOneRun (db.pickup_runs ++ new_run env staff vehicle ∷ [])
    opened-HasOneRun vehicle one no_staff no_vehicle = record {
      per_staff = λ s.
          IsUnique-append (active_run_of s) db.pickup_runs (new_run env staff vehicle)
            (one.per_staff s)
            λ t x m.
              subst (λ k. active_run_of k x ≡ false) ((eq_iff staff s).0 (ground arith))
                (prisma.find_first_none (active_run_of staff) db.pickup_runs no_staff m);
      per_vehicle = λ w.
          IsUnique-append (active_run_on w) db.pickup_runs (new_run env staff vehicle)
            (one.per_vehicle w)
            λ t x m.
              subst (λ k. active_run_on k x ≡ false) (==→eq vehicle w (ground arith))
                (prisma.find_first_none (active_run_on vehicle) db.pickup_runs no_vehicle m);
    }
