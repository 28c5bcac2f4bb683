-- ===== src/Delivery/Runs.antt =====
-- The delivery runs of prisma-delivery.repository.ts and the photo of a handoff, with their use
-- cases.
pub mod AtMostOne
pub mod Again
use laundry_api.Base.{
  ℕ, String, Bool, Option, none, some, List, [], ◌∷◌, ◌++◌, ◌==◌, ◌&&◌, some_of, str_eq,
  update_where, if◌then◌else◌, map,
}
use laundry_api.Errors.{
  delivery_run_not_found, delivery_vehicle_not_found, domain, http, known_request, message_body,
  of_delivery,
}
use laundry_api.Store.{Prisma}
use laundry_api.Tx.{Tx, ◌>>=◌, ◌>>◌, pure, gets, modify, require, throw, throw_if}
use laundry_api.Route.Db.{Env}
use laundry_api.Route.Engine.Plans.{found}
use laundry_api.Delivery.Types.{
  DeliveryDb, DeliveryHandoffPhoto, DeliveryPackageView, DeliveryRun, DeliveryRunStatus,
  DeliveryRunView, DeliveryVehicle,
}
use laundry_api.Delivery.Repository.{
  active_run_of, active_run_on, find_active_run, find_loaded_packages, view_run,
}

-- The row that `createRun` inserts.
abbrev pub new_run : Env → String → ℕ → DeliveryRun
new_run env staff vehicle = record {
  id = env.new_id;
  staff_id = staff;
  vehicle_id = vehicle;
  status = DeliveryRunStatus.active;
  created_at = env.now;
  closed_at = none;
}

-- `deliveryHandoffPhoto.upsert`, after the search by the UNIQUE package.
abbrev pub save_photo :
    Env → ℕ → String → Option DeliveryHandoffPhoto → Tx DeliveryDb DeliveryHandoffPhoto
save_photo env id url none = do
  let photo : DeliveryHandoffPhoto = record {
    id = env.new_id;
    package_id = id;
    url = url;
    created_at = env.now;
    updated_at = env.now;
  }
  modify (λ db. record db { handoff_photos = db.handoff_photos ++ photo ∷ [] })
  pure photo
save_photo env id url (some old) = do
  modify (λ db. record db {
    handoff_photos =
        update_where (λ p. p.package_id == id) (λ p. record p { url = url; updated_at = env.now })
          db.handoff_photos;
  })
  pure (record old { url = url; updated_at = env.now })

module _ ⦃prisma : Prisma⦄ where
  -- `createRun` where the staff has no active run.
  unfoldable pub open_run : Env → String → ℕ → Tx DeliveryDb DeliveryRunView
  open_run env staff vehicle = do
    in_use ← gets (λ db. prisma.find_first (active_run_on vehicle) db.delivery_runs)
    throw_if (found in_use) (
        http 409 (message_body "Delivery vehicle is already in use.")
          "Delivery vehicle is already in use.")
    modify (λ db. record db { delivery_runs = db.delivery_runs ++ new_run env staff vehicle ∷ [] })
    view_run (new_run env staff vehicle)

  -- `createRun` after the search for the active run of the staff.
  abbrev pub reuse_or_open : Env → String → ℕ → Option DeliveryRun → Tx DeliveryDb DeliveryRunView
  reuse_or_open env staff vehicle none = open_run env staff vehicle
  reuse_or_open env staff vehicle (some run) =
      if run.vehicle_id == vehicle
      then view_run run
      else throw (
          http 409 (message_body "Staff already has an active delivery run.")
            "Staff already has an active delivery run.")

  -- `createRun`.
  unfoldable pub create_run : Env → String → String → Tx DeliveryDb DeliveryRunView
  create_run env staff vehicle_code = do
    vehicle ←
        require
          (← gets (λ db.
            prisma.find_first (λ v. str_eq v.code vehicle_code && v.active) db.delivery_vehicles))
          (domain (of_delivery (delivery_vehicle_not_found vehicle_code)))
    existing ← gets (λ db. prisma.find_first (active_run_of staff) db.delivery_runs)
    reuse_or_open env staff vehicle.id existing

  -- `closeRun`.
  unfoldable pub close_run_row : Env → DeliveryRun → Tx DeliveryDb DeliveryRunView
  close_run_row env run = do
    modify (λ db. record db {
      delivery_runs =
          update_where (λ r. r.id == run.id)
            (λ r. record r { status = DeliveryRunStatus.closed; closed_at = some env.now })
            db.delivery_runs;
    })
    view_run (record run { status = DeliveryRunStatus.closed; closed_at = some env.now })

  -- `CloseDeliveryRunUseCase.execute`.
  unfoldable pub close_run : Env → ℕ → Tx DeliveryDb DeliveryRunView
  close_run env id = do
    run ←
        require (← gets (λ db. prisma.find_first (λ r. r.id == id) db.delivery_runs))
          (domain (of_delivery (delivery_run_not_found id)))
    close_run_row env run

  -- `GetLoadedPackagesUseCase.execute`.
  unfoldable pub get_loaded_packages : DeliveryDb → String → List (Option DeliveryPackageView)
  get_loaded_packages db staff = elim (find_active_run db staff) [
    | none ↦ []
    | some run ↦ find_loaded_packages db run.id
  ]

  -- `recordHandoffPhoto`: an upsert by the package.
  unfoldable pub record_handoff_photo : Env → ℕ → String → Tx DeliveryDb DeliveryHandoffPhoto
  record_handoff_photo env id url = do
    old ← gets (λ db. prisma.find_first (λ p. p.package_id == id) db.handoff_photos)
    save_photo env id url old
