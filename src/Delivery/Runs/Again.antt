-- ===== src/Delivery/Runs/Again.antt =====
-- A repeated `createRun` returns the run that is there.
use laundry_api.Base.{
  ℕ, String, ◌≡◌, refl, sym, ◌∙◌, subst, true, some, [], ◌∷◌, Memᴰ, arith, Bool-cases, Option-cases,
  inl, inr, ◌==◌, ◌&&◌, str_eq, ==_refl, eq_iff,
}
use laundry_api.Store.{Prisma}
use laundry_api.Store.Laws.{find_first-of_mem, mem-append_right}
use laundry_api.Tx.{ok}
use laundry_api.Route.Db.{Env}
use laundry_api.Delivery.Types.{DeliveryDb, DeliveryRun, DeliveryRunView, DeliveryVehicle}
use laundry_api.Delivery.Repository.{active_run_of, active_run_on, view_run}
use laundry_api.Delivery.Runs.{create_run, new_run, reuse_or_open}
use laundry_api.Delivery.Runs.AtMostOne.{
  HasOneRun, create_run-HasOneRun, create_run-no_vehicle, create_run-vehicle, open_run-free,
  open_run-in_use, view_run-same, with_run,
}

str_same : (a : String) → str_eq a a ≡ true
str_same a = (eq_iff a a).1 refl

module _ ⦃prisma : Prisma⦄ (env : Env) (staff : String) (db : DeliveryDb) where
  -- The active run of the staff on the vehicle, which a call has returned.
  record IsAssigned (vehicle : ℕ) (v : DeliveryRunView) (db' : DeliveryDb) : Type 0 where
    run : DeliveryRun
    there : Memᴰ run db'.delivery_runs
    active : active_run_of staff run ≡ true
    on : (run.vehicle_id == vehicle) ≡ true
    shown : view_run run db' ≡ ok (v, db')
    vehicles : db'.delivery_vehicles ≡ db.delivery_vehicles
    items : db'.order_items ≡ db.order_items

  reuse_or_open-IsAssigned :
      (vehicle : ℕ) {v : DeliveryRunView} {db' : DeliveryDb}
      → reuse_or_open env staff vehicle
          (prisma.find_first (active_run_of staff) db.delivery_runs)
          db
        ≡ ok (v, db')
      → IsAssigned vehicle v db'
  reuse_or_open-IsAssigned vehicle {v} {db'} e =
      elim (Option-cases (prisma.find_first (active_run_of staff) db.delivery_runs)) [
        | inr (run, f) ↦ elim (Bool-cases (run.vehicle_id == vehicle)) [
          | inl same ↦
              let shown : view_run run db ≡ ok (v, db') = ground arith in
              let at : db' ≡ db = view_run-same run db {v = v} shown in
              subst (IsAssigned vehicle v) (sym at) (record {
                run = run;
                there = prisma.find_first_mem (active_run_of staff) db.delivery_runs f;
                active = prisma.find_first_test (active_run_of staff) db.delivery_runs f;
                on = same;
                shown = subst (λ t. view_run run db ≡ ok (v, t)) at shown;
                vehicles = refl;
                items = refl;
              })
          | inr other ↦ absurd (ground arith)
        ]
        | inl f ↦ elim (Option-cases (prisma.find_first (active_run_on vehicle) db.delivery_runs)) [
          | inr (r, g) ↦
              absurd (open_run-in_use env staff vehicle db {v = v} {db' = db'} g (ground arith))
          | inl g ↦
              let row = new_run env staff vehicle in
              let shown : view_run row (with_run db row) ≡ ok (v, db') =
                sym (open_run-free env staff vehicle db g) ∙ ground arith in
              let at : db' ≡ with_run db row = view_run-same row (with_run db row) {v = v} shown in
              subst (IsAssigned vehicle v) (sym at) (record {
                run = row;
                there = mem-append_right db.delivery_runs (row ∷ []) (Memᴰ.head refl);
                active = ground (arith, str_same staff);
                on = ==_refl vehicle;
                shown = subst (λ t. view_run row (with_run db row) ≡ ok (v, t)) at shown;
                vehicles = refl;
                items = refl;
              })
        ]
      ]

  again :
      (later : Env) (code : String) (vehicle : DeliveryVehicle) {v : DeliveryRunView}
      {db' : DeliveryDb}
      → HasOneRun db'.delivery_runs
      → prisma.find_first (λ v. str_eq v.code code && v.active) db.delivery_vehicles ≡ some vehicle
      → IsAssigned vehicle.id v db'
      → create_run later staff code db' ≡ ok (v, db')
  again later code vehicle {v} {db'} one f as_run =
      let search : prisma.find_first (active_run_of staff) db'.delivery_runs ≡ some as_run.run =
        find_first-of_mem (active_run_of staff) db'.delivery_runs (one.per_staff staff) as_run.there
          as_run.active in
      let on : (as_run.run.vehicle_id == vehicle.id) ≡ true = as_run.on in
      let shown : view_run as_run.run db' ≡ ok (v, db') = as_run.shown in
      create_run-vehicle later staff code db' (
        subst (λ rows. prisma.find_first (λ v. str_eq v.code code && v.active) rows ≡ some vehicle)
          (sym as_run.vehicles) f)
      ∙ ground arith

  -- After a `createRun` that returns, where no staff and no vehicle has two active runs, the same
  -- call, made on the tables that the first one left, returns the same run and changes nothing,
  -- whatever the time and the new id are then.
  pub create_run-twice :
      (later : Env) (code : String) {v : DeliveryRunView} {db' : DeliveryDb}
      → HasOneRun db.delivery_runs
      → create_run env staff code db ≡ ok (v, db')
      → create_run later staff code db' ≡ ok (v, db')
  create_run-twice later code {v} {db'} one e =
      elim (Option-cases
        (prisma.find_first (λ v. str_eq v.code code && v.active) db.delivery_vehicles)) [
          | inl f ↦ absurd (create_run-no_vehicle env staff code db f e)
          | inr (vehicle, f) ↦
              again later code vehicle (create_run-HasOneRun env staff db one code e) f (
                reuse_or_open-IsAssigned vehicle.id
                  (sym (create_run-vehicle env staff code db f) ∙ e))
        ]

  -- A call changes no item.
  pub create_run-items :
      (code : String) {v : DeliveryRunView} {db' : DeliveryDb}
      → create_run env staff code db ≡ ok (v, db')
      → db'.order_items ≡ db.order_items
  create_run-items code {v} {db'} e =
      elim (Option-cases
        (prisma.find_first (λ v. str_eq v.code code && v.active) db.delivery_vehicles)) [
          | inl f ↦ absurd (create_run-no_vehicle env staff code db f e)
          | inr (vehicle, f) ↦
              let as_run : IsAssigned vehicle.id v db' =
                reuse_or_open-IsAssigned vehicle.id
                  (sym (create_run-vehicle env staff code db f) ∙ e) in
              as_run.items
        ]
