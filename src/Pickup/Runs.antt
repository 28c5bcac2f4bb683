-- ===== src/Pickup/Runs.antt =====
-- `createRun` and `loadActiveRunForStaff` of prisma-pickup.repository.ts.
pub mod OneRun
use laundry_api.Base.{
  ℕ, String, Bool, true, false, Option, none, some, List, [], ◌∷◌, ◌++◌, ◌==◌, ◌&&◌, not, some_of,
  str_eq, if◌then◌else◌,
}
use laundry_api.Errors.{type_error}
use laundry_api.Store.{Prisma}
use laundry_api.Tx.{Tx, ◌>>=◌, ◌>>◌, pure, gets, modify, require, throw, throw_if}
use laundry_api.Route.Db.{Env}
use laundry_api.Route.Engine.Plans.{found}
use laundry_api.Pickup.Types.{
  PickupDb, PickupRun, PickupRunResult, PickupRunStatus, PickupVehicle, refuse,
}

abbrev pub run_is_active : PickupRunStatus → Bool
run_is_active PickupRunStatus.active = true
run_is_active PickupRunStatus.returned = false

-- `where: { staffId, status: 'ACTIVE' }`.
abbrev pub active_run_of : String → PickupRun → Bool
active_run_of staff r = str_eq r.staff_id staff && run_is_active r.status

-- `where: { vehicleId, status: 'ACTIVE' }`.
abbrev pub active_run_on : ℕ → PickupRun → Bool
active_run_on vehicle r = r.vehicle_id == vehicle && run_is_active r.status

-- `where: { id, staffId, status: 'ACTIVE' }`.
abbrev pub active_run : ℕ → String → PickupRun → Bool
active_run id staff r = r.id == id && active_run_of staff r

-- `toRunResult`.
abbrev pub to_run_result : PickupRun → PickupVehicle → PickupRunResult
to_run_result run vehicle = record {
  run_id = run.id;
  vehicle_code = vehicle.code;
  vehicle_display_name = vehicle.display_name;
  staff_id = run.staff_id;
  status = run.status;
  started_at = run.started_at;
}

-- The row that `createRun` inserts.
abbrev pub new_run : Env → String → ℕ → PickupRun
new_run env staff vehicle = record {
  id = env.new_id;
  vehicle_id = vehicle;
  staff_id = staff;
  status = PickupRunStatus.active;
  started_at = env.now;
  ended_at = none;
}

module _ ⦃prisma : Prisma⦄ where
  -- A run with `include: { vehicle: true }`, which a foreign key provides.
  abbrev pub view_run : PickupRun → Tx PickupDb PickupRunResult
  view_run run = do
    vehicle ←
        require (← gets (λ db. prisma.find_first (λ v. v.id == run.vehicle_id) db.pickup_vehicles))
          type_error
    pure (to_run_result run vehicle)

  -- `createRun` where the staff has no active run.
  unfoldable pub open_run : Env → String → ℕ → Tx PickupDb PickupRunResult
  open_run env staff vehicle = do
    in_use ← gets (λ db. prisma.find_first (active_run_on vehicle) db.pickup_runs)
    throw_if (found in_use) (refuse 409 "Pickup vehicle is already in use.")
    modify (λ db. record db { pickup_runs = db.pickup_runs ++ new_run env staff vehicle ∷ [] })
    view_run (new_run env staff vehicle)

  -- `createRun` after the search for the active run of the staff.
  abbrev pub reuse_or_open : Env → String → ℕ → Option PickupRun → Tx PickupDb PickupRunResult
  reuse_or_open env staff vehicle none = open_run env staff vehicle
  reuse_or_open env staff vehicle (some run) =
      if run.vehicle_id == vehicle
      then view_run run
      else throw (refuse 409 "Staff already has an active pickup run.")

  -- `createRun`.
  unfoldable pub create_run : Env → String → String → Tx PickupDb PickupRunResult
  create_run env staff vehicle_code = do
    vehicle ←
        require
          (← gets (λ db.
            prisma.find_first (λ v. str_eq v.code vehicle_code && v.active) db.pickup_vehicles))
          (refuse 400 "Active pickup vehicle was not found.")
    throw_if (not (← gets (λ db. some_of (λ s. str_eq s staff) db.staff)))
        (refuse 400 "Pickup staff was not found.")
    existing ← gets (λ db. prisma.find_first (active_run_of staff) db.pickup_runs)
    reuse_or_open env staff vehicle.id existing

  -- `loadActiveRunForStaff`.
  unfoldable pub load_active_run_for_staff : ℕ → String → Tx PickupDb PickupRun
  load_active_run_for_staff id staff =
      (gets (λ db. prisma.find_first (active_run id staff) db.pickup_runs)) >>= λ run.
      require run (refuse 400 "Active pickup run was not found.")
