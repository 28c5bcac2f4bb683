-- ===== src/Pickup/Machine/Steps.antt =====
-- Every call keeps the pickup tables sound, and so does every sequence of calls.
use laundry_api.Base.{ℕ, String, ◌≡◌, sym, subst, arith, Option-cases, inl, inr, ◌==◌, ◌&&◌}
use laundry_api.Store.{Prisma}
use laundry_api.Tx.{ok}
use laundry_api.Route.Db.{Env}
use laundry_api.Pickup.Types.{PickupDb, PickupPhoto}
use laundry_api.Pickup.Runs.{active_run, load_active_run_for_staff}
use laundry_api.Pickup.Runs.OneRun.{create_run-effect}
use laundry_api.Pickup.Bags.{active_bag, finish_run, on_run, record_pickup_photo}
use laundry_api.Pickup.Bags.Effects.{
  brought_in, handoff_bag-effect, put_items_into_bag-effect, register_bag-effect,
}
use laundry_api.Pickup.Machine.{
  IsSound, PickupReach, PickupStep, bag_registered, contained, created, handed, photographed, start,
  then,
}
use laundry_api.Pickup.Machine.Invariant.{
  Keeps, Keeps-refl, Keeps-trans, brought-Keeps, contained-Keeps, created-Keeps, finished-Keeps,
  registered-Keeps,
}

module _ ⦃prisma : Prisma⦄ where
  -- A photo changes none of the tables that the invariant is about.
  photo-Keeps :
      (env : Env) (staff : String) (run order : ℕ) (url : String) (db : PickupDb) {p : PickupPhoto}
      {db' : PickupDb}
      → IsSound db
      → record_pickup_photo env staff run order url db ≡ ok (p, db')
      → Keeps db db'
  unfolding record_pickup_photo load_active_run_for_staff
  photo-Keeps env staff run order url db {p} {db'} sound e =
      elim (Option-cases (prisma.find_first (active_run run staff) db.pickup_runs)) [
        | inl f ↦ absurd (ground arith)
        | inr (loaded, f) ↦ elim (Option-cases (prisma.find_first (λ o. o.id == order) db.orders)) [
          | inl g ↦ absurd (ground arith)
          | inr (o, g) ↦
              let same : record db { pickup_photos = db'.pickup_photos } ≡ db' = ground arith in
              subst (Keeps db) same (
                Keeps-refl (record db { pickup_photos = db'.pickup_photos })
                  (record {
                    one_run = sound.one_run;
                    unique_items = sound.unique_items;
                    unique_runs = sound.unique_runs;
                    unique_bags = sound.unique_bags;
                    closed = sound.closed;
                  }))
        ]
      ]

  PickupStep-Keeps : {db db' : PickupDb} → IsSound db → PickupStep db db' → Keeps db db'
  PickupStep-Keeps {db} {db'} sound (created env staff code v fresh e) =
      elim (create_run-effect env staff db code e) [
        | inl same ↦ subst (Keeps db) (sym same) (Keeps-refl db sound)
        | inr (vehicle, f, g, same) ↦
            subst (Keeps db) (sym same) (created-Keeps db sound env staff vehicle fresh f g)
      ]
  PickupStep-Keeps {db} {db'} sound (bag_registered staff run barcode v e) =
      let (loaded, bag, f, g, is_ready, same) = register_bag-effect db staff run barcode e in
      subst (Keeps db) (sym same) (
        registered-Keeps db sound run staff loaded bag f
          (prisma.find_first_mem (active_bag barcode) db.pickup_bags g) is_ready)
  PickupStep-Keeps {db} {db'} sound (photographed env staff run order url p e) =
      photo-Keeps env staff run order url db sound e
  PickupStep-Keeps {db} {db'} sound (contained staff run order barcode ids r e) =
      let (loaded, bag, f, g, out, valid, col, same) =
        put_items_into_bag-effect db staff run order barcode ids e in
      let test =
        prisma.find_first_test (λ b. active_bag barcode b && on_run run b) db.pickup_bags g in
      subst (Keeps db) (sym same) (
        contained-Keeps db sound run staff loaded bag order ids f
          (prisma.find_first_mem (λ b. active_bag barcode b && on_run run b) db.pickup_bags g)
          (ground arith) out col)
  PickupStep-Keeps {db} {db'} sound (handed env staff run barcode r e) =
      let (loaded, bag, f, g, full, same) = handoff_bag-effect db env staff run barcode e in
      let brought =
        brought-Keeps db sound bag loaded.id
          (prisma.find_first_mem (λ b. active_bag barcode b && on_run loaded.id b) db.pickup_bags g)
          full in
      subst (Keeps db) (sym same) (
        Keeps-trans db (brought_in db bag loaded.id)
          (finish_run env loaded.id (brought_in db bag loaded.id)) brought
          (finished-Keeps (brought_in db bag loaded.id) brought.0 env loaded.id))

  -- Through any calls, from unique ids, at most one active run per staff and per vehicle and all
  -- bags of ended runs back: all this still holds, no item is lost or added, no item is further
  -- back in its life, and no bag in its.
  pub PickupReach-Keeps : {db db' : PickupDb} → IsSound db → PickupReach db db' → Keeps db db'
  PickupReach-Keeps {db} sound start = Keeps-refl db sound
  PickupReach-Keeps {db} {db'} sound (then {mid = mid} reach step) =
      let before = PickupReach-Keeps sound reach in
      Keeps-trans db mid db' before (PickupStep-Keeps before.0 step)
