-- ===== src/Delivery/Runs/AtMostOne.antt =====
-- At most one active run per staff and per vehicle.
use laundry_api.Base.{
  ℕ, String, ◌≡◌, refl, sym, ◌∙◌, subst, Bool, true, false, none, some, List, [], ◌∷◌, ◌++◌, arith,
  Bool-cases, Option-cases, inl, inr, ◌==◌, ◌&&◌, str_eq, update_where, ==→eq, eq_iff,
}
use laundry_api.Store.{Prisma}
use laundry_api.Store.Laws.{IsUnique, IsUnique-append, update_where-IsUnique_fewer}
use laundry_api.Tx.{ok}
use laundry_api.Route.Db.{Env}
use laundry_api.Delivery.Types.{
  DeliveryDb, DeliveryRun, DeliveryRunStatus, DeliveryRunView, DeliveryVehicle,
}
use laundry_api.Delivery.Repository.{active_run_of, active_run_on, run_is_active, view_run}
use laundry_api.Delivery.Runs.{
  close_run, close_run_row, create_run, new_run, open_run, reuse_or_open,
}

abbrev pub closed_run : Env → DeliveryRun → DeliveryRun
closed_run env r = record r { status = DeliveryRunStatus.closed; closed_at = some env.now }

abbrev pub with_closed : Env → ℕ → DeliveryDb → DeliveryDb
with_closed env id db = record db {
  delivery_runs = update_where (λ r. r.id == id) (closed_run env) db.delivery_runs;
}

-- At most one ACTIVE run per staff and per vehicle.
pub record HasOneRun (runs : List DeliveryRun) : Type 0 where
  pub per_staff : (staff : String) → IsUnique (active_run_of staff) runs
  pub per_vehicle : (vehicle : ℕ) → IsUnique (active_run_on vehicle) runs

str_same : (a : String) → str_eq a a ≡ true
str_same a = (eq_iff a a).1 refl

closed-inactive :
    (test : Bool) (r : DeliveryRun)
    → (test && run_is_active r.status) ≡ true
    → run_is_active r.status ≡ true
closed-inactive true r e = e
closed-inactive false r e = cc

abbrev pub with_run : DeliveryDb → DeliveryRun → DeliveryDb
with_run db run = record db { delivery_runs = db.delivery_runs ++ run ∷ [] }

module _ ⦃prisma : Prisma⦄ where
  pub view_run-same :
      (run : DeliveryRun) (db : DeliveryDb) {v : DeliveryRunView} {db' : DeliveryDb}
      → view_run run db ≡ ok (v, db')
      → db' ≡ db
  view_run-same run db e =
      elim (Option-cases (prisma.find_first (λ v. v.id == run.vehicle_id) db.delivery_vehicles)) [
        | inl f ↦ absurd (ground arith)
        | inr (vehicle, f) ↦ ground arith
      ]

  pub open_run-in_use :
      (env : Env) (staff : String) (vehicle : ℕ) (db : DeliveryDb) {r : DeliveryRun}
      {v : DeliveryRunView} {db' : DeliveryDb}
      → prisma.find_first (active_run_on vehicle) db.delivery_runs ≡ some r
      → open_run env staff vehicle db ≡ ok (v, db')
      → ⊥
  unfolding open_run
  open_run-in_use env staff vehicle db f e = ground arith

  pub open_run-free :
      (env : Env) (staff : String) (vehicle : ℕ) (db : DeliveryDb)
      → prisma.find_first (active_run_on vehicle) db.delivery_runs ≡ none
      → open_run env staff vehicle db
        ≡ view_run (new_run env staff vehicle) (with_run db (new_run env staff vehicle))
  unfolding open_run
  open_run-free env staff vehicle db f = ground arith

  pub create_run-vehicle :
      (env : Env) (staff code : String) (db : DeliveryDb) {vehicle : DeliveryVehicle}
      → prisma.find_first (λ v. str_eq v.code code && v.active) db.delivery_vehicles ≡ some vehicle
      → create_run env staff code db
        ≡ reuse_or_open env staff vehicle.id
            (prisma.find_first (active_run_of staff) db.delivery_runs)
            db
  unfolding create_run
  create_run-vehicle env staff code db e = ground arith

  pub create_run-no_vehicle :
      (env : Env) (staff code : String) (db : DeliveryDb) {v : DeliveryRunView} {db' : DeliveryDb}
      → prisma.find_first (λ v. str_eq v.code code && v.active) db.delivery_vehicles ≡ none
      → create_run env staff code db ≡ ok (v, db')
      → ⊥
  unfolding create_run
  create_run-no_vehicle env staff code db f e = ground arith

  module _ (env : Env) (staff : String) (db : DeliveryDb) (one : HasOneRun db.delivery_runs) where
    opened-HasOneRun :
        (vehicle : ℕ)
        → prisma.find_first (active_run_of staff) db.delivery_runs ≡ none
        → prisma.find_first (active_run_on vehicle) db.delivery_runs ≡ none
        → HasOneRun (db.delivery_runs ++ new_run env staff vehicle ∷ [])
    opened-HasOneRun vehicle no_staff no_vehicle = record {
      per_staff = λ s.
          IsUnique-append (active_run_of s) db.delivery_runs (new_run env staff vehicle)
            (one.per_staff s)
            λ t x m.
              let same : staff ≡ s = (eq_iff staff s).0 (ground arith) in
              subst (λ k. active_run_of k x ≡ false) same
                (prisma.find_first_none (active_run_of staff) db.delivery_runs no_staff m);
      per_vehicle = λ w.
          IsUnique-append (active_run_on w) db.delivery_runs (new_run env staff vehicle)
            (one.per_vehicle w)
            λ t x m.
              let same : vehicle ≡ w = ==→eq vehicle w (ground arith) in
              subst (λ k. active_run_on k x ≡ false) same
                (prisma.find_first_none (active_run_on vehicle) db.delivery_runs no_vehicle m);
    }

    reuse_or_open-HasOneRun :
        (vehicle : ℕ) {v : DeliveryRunView} {db' : DeliveryDb}
        → reuse_or_open env staff vehicle
            (prisma.find_first (active_run_of staff) db.delivery_runs)
            db
          ≡ ok (v, db')
        → HasOneRun db'.delivery_runs
    reuse_or_open-HasOneRun vehicle {v} {db'} e =
        elim (Option-cases (prisma.find_first (active_run_of staff) db.delivery_runs)) [
          | inr (run, f) ↦ elim (Bool-cases (run.vehicle_id == vehicle)) [
            | inl same ↦
                let at : db' ≡ db = view_run-same run db {v = v} (ground arith) in
                subst (λ (t : DeliveryDb). HasOneRun t.delivery_runs) (sym at) one
            | inr other ↦ absurd (ground arith)
          ]
          | inl f ↦
              elim (Option-cases (prisma.find_first (active_run_on vehicle) db.delivery_runs)) [
                | inr (r, g) ↦
                    absurd
                      (open_run-in_use env staff vehicle db {v = v} {db' = db'} g (ground arith))
                | inl g ↦
                    let at : db' ≡ with_run db (new_run env staff vehicle) =
                      view_run-same (new_run env staff vehicle)
                        (with_run db (new_run env staff vehicle)) {v = v}
                        (sym (open_run-free env staff vehicle db g) ∙ ground arith) in
                    subst (λ (t : DeliveryDb). HasOneRun t.delivery_runs) (sym at)
                      (opened-HasOneRun vehicle f g)
              ]
        ]

    -- `createRun` keeps to one active run per staff and per vehicle.
    pub create_run-HasOneRun :
        (code : String) {v : DeliveryRunView} {db' : DeliveryDb}
        → create_run env staff code db ≡ ok (v, db')
        → HasOneRun db'.delivery_runs
    create_run-HasOneRun code {v} {db'} e =
        elim (Option-cases
          (prisma.find_first (λ v. str_eq v.code code && v.active) db.delivery_vehicles)) [
            | inl f ↦ absurd (create_run-no_vehicle env staff code db f e)
            | inr (vehicle, f) ↦
                reuse_or_open-HasOneRun vehicle.id {v = v}
                  (sym (create_run-vehicle env staff code db f) ∙ e)
          ]

  -- A `closeRun` that returns has closed the runs of that id.
  pub close_run-effect :
      (env : Env) (id : ℕ) (db : DeliveryDb) {v : DeliveryRunView} {db' : DeliveryDb}
      → close_run env id db ≡ ok (v, db')
      → (n : ℕ) × (db' ≡ with_closed env n db)
  unfolding close_run close_run_row
  close_run-effect env id db {v} {db'} e =
      elim (Option-cases (prisma.find_first (λ r. r.id == id) db.delivery_runs)) [
        | inl f ↦ absurd (ground arith)
        | inr (run, f) ↦ (
          run.id,
          view_run-same (closed_run env run) (with_closed env run.id db) {v = v} (ground arith),
        )
      ]

  -- `closeRun` keeps to one active run per staff and per vehicle too.
  pub with_closed-HasOneRun :
      (env : Env) (id : ℕ) (db : DeliveryDb)
      → HasOneRun db.delivery_runs
      → HasOneRun (with_closed env id db).delivery_runs
  with_closed-HasOneRun env id db one = record {
    per_staff = λ s.
        update_where-IsUnique_fewer (active_run_of s) (λ r. r.id == id) (closed_run env)
          db.delivery_runs (λ x t. ground arith) (one.per_staff s);
    per_vehicle = λ w.
        update_where-IsUnique_fewer (active_run_on w) (λ r. r.id == id) (closed_run env)
          db.delivery_runs (λ x t. ground arith) (one.per_vehicle w);
  }
