-- ===== src/Delivery/Machine.antt =====
-- The delivery module as a machine whose steps are the calls that return.
use laundry_api.Base.{ℕ, String, ◌≡◌, refl, sym, subst, ap, Option-cases, arith, inl, inr, ◌==◌}
use laundry_api.Store.{Prisma}
use laundry_api.Tx.{ok}
use laundry_api.Orders.Lifecycle.{Evolves, Evolves-refl, Evolves-trans}
use laundry_api.Orders.Selected.{HasUniqueIds, update_where-HasUniqueIds}
use laundry_api.Orders.Types.{in_ids}
use laundry_api.Route.Db.{Env}
use laundry_api.Route.Types.{ActorContext}
use laundry_api.Delivery.Types.{
  DeliveryDb, DeliveryHandoffPhoto, DeliveryRunView, PackageHandoffResult,
  PackageScanOutboundResult,
}
use laundry_api.Delivery.Packages.{handoff_item, scan_outbound}
use laundry_api.Delivery.Packages.Gate.{ids_of}
use laundry_api.Delivery.Packages.Handoff.{at_customer, handed_over, items_of_order}
use laundry_api.Delivery.Packages.LastPackage.{
  handoff_item-Evolves, handoff_item-effect, set_order_status-items, set_order_status-runs,
}
use laundry_api.Delivery.Packages.Loading.{in_van, scan_outbound-Evolves}
use laundry_api.Delivery.Packages.Outbound.{Decided, scan_outbound-Decided}
use laundry_api.Delivery.Packages.{new_order_status}
use laundry_api.Delivery.Runs.{close_run, create_run, record_handoff_photo}
use laundry_api.Delivery.Runs.AtMostOne.{
  HasOneRun, close_run-effect, create_run-HasOneRun, with_closed-HasOneRun,
}
use laundry_api.Delivery.Runs.Again.{create_run-items}

-- What the tables of the module keep to.
pub record IsSound (db : DeliveryDb) : Type 0 where
  pub one_run : HasOneRun db.delivery_runs
  pub unique : HasUniqueIds db.order_items

module _ ⦃prisma : Prisma⦄ where
  -- One call that returns, with any arguments.
  pub data DeliveryStep (db : DeliveryDb) : DeliveryDb → Type 0 where
    created :
        (env : Env) (staff code : String) (v : DeliveryRunView) {db' : DeliveryDb}
        → create_run env staff code db ≡ ok (v, db')
        → DeliveryStep db db'
    closed :
        (env : Env) (id : ℕ) (v : DeliveryRunView) {db' : DeliveryDb}
        → close_run env id db ≡ ok (v, db')
        → DeliveryStep db db'
    scanned :
        (id : ℕ) (actor : ActorContext) (r : PackageScanOutboundResult) {db' : DeliveryDb}
        → scan_outbound id actor db ≡ ok (r, db')
        → DeliveryStep db db'
    handed :
        (id : ℕ) (actor : ActorContext) (r : PackageHandoffResult) {db' : DeliveryDb}
        → handoff_item id actor db ≡ ok (r, db')
        → DeliveryStep db db'
    photographed :
        (env : Env) (id : ℕ) (url : String) (p : DeliveryHandoffPhoto) {db' : DeliveryDb}
        → record_handoff_photo env id url db ≡ ok (p, db')
        → DeliveryStep db db'

  pub data DeliveryReach (db : DeliveryDb) : DeliveryDb → Type 0 where
    start : DeliveryReach db db
    then :
        {mid db' : DeliveryDb} → DeliveryReach db mid → DeliveryStep mid db' → DeliveryReach db db'

  -- A sound database again, in which the items are where they were or further along.
  abbrev pub Keeps : DeliveryDb → DeliveryDb → Type 0
  Keeps db db' = IsSound db' × Evolves db.order_items db'.order_items

  -- A call that leaves the items as they are.
  Keeps-items :
      (db db' : DeliveryDb)
      → HasUniqueIds db.order_items
      → HasOneRun db'.delivery_runs
      → db'.order_items ≡ db.order_items
      → Keeps db db'
  Keeps-items db db' u one same = (
    record { one_run = one; unique = subst HasUniqueIds (sym same) u },
    subst (Evolves db.order_items) (sym same) (Evolves-refl db.order_items),
  )

  photo-rows :
      (env : Env) (id : ℕ) (url : String) (db : DeliveryDb) {p : DeliveryHandoffPhoto}
      {db' : DeliveryDb}
      → record_handoff_photo env id url db ≡ ok (p, db')
      → (db'.order_items ≡ db.order_items) × (db'.delivery_runs ≡ db.delivery_runs)
  unfolding record_handoff_photo
  photo-rows env id url db {p} {db'} e =
      elim (Option-cases (prisma.find_first (λ p. p.package_id == id) db.handoff_photos)) [
        | inl f ↦ ground arith
        | inr (old, f) ↦ ground arith
      ]

  DeliveryStep-Keeps : {db db' : DeliveryDb} → IsSound db → DeliveryStep db db' → Keeps db db'
  DeliveryStep-Keeps {db} {db'} sound (created env staff code v e) =
      Keeps-items db db' sound.unique (create_run-HasOneRun env staff db sound.one_run code e)
        (create_run-items env staff db code e)
  DeliveryStep-Keeps {db} {db'} sound (closed env id v e) =
      let (n, same) = close_run-effect env id db e in
      Keeps-items db db' sound.unique
        (subst (λ (t : DeliveryDb). HasOneRun t.delivery_runs) (sym same)
          (with_closed-HasOneRun env n db sound.one_run))
        (ap (λ (t : DeliveryDb). t.order_items) same)
  DeliveryStep-Keeps {db} {db'} sound (scanned id actor r e) =
      let (view, run, pkg, d, found, same) =
        subst (Decided id actor db) e (scan_outbound-Decided id actor db) in
      (
        subst IsSound (sym same) (record {
          one_run = sound.one_run;
          unique =
              update_where-HasUniqueIds (in_ids (ids_of pkg db)) in_van db.order_items (λ x. refl)
                sound.unique;
        }),
        scan_outbound-Evolves id actor db sound.unique e,
      )
  DeliveryStep-Keeps {db} {db'} sound (handed id actor r e) =
      let (pkg, same_id, all, there) = handoff_item-effect id actor db sound.unique e in
      let new = new_order_status (items_of_order pkg actor db) in
      (
        subst IsSound there (record {
          one_run =
              subst HasOneRun
                (sym (set_order_status-runs pkg.order_id new (handed_over pkg actor db)))
                sound.one_run;
          unique =
              subst HasUniqueIds
                (sym (set_order_status-items pkg.order_id new (handed_over pkg actor db)))
                (update_where-HasUniqueIds (in_ids (ids_of pkg db)) at_customer db.order_items
                  (λ x. refl) sound.unique);
        }),
        handoff_item-Evolves id actor db sound.unique e,
      )
  DeliveryStep-Keeps {db} {db'} sound (photographed env id url p e) =
      let (items, runs) = photo-rows env id url db e in
      Keeps-items db db' sound.unique (subst HasOneRun (sym runs) sound.one_run) items

  -- Through any calls, from unique item ids and at most one active run per staff and per vehicle:
  -- these still hold, no item is lost or added, and no item is further back in its life.
  pub DeliveryReach-Keeps : {db db' : DeliveryDb} → IsSound db → DeliveryReach db db' → Keeps db db'
  DeliveryReach-Keeps {db} sound start = (sound, Evolves-refl db.order_items)
  DeliveryReach-Keeps sound (then reach step) =
      let (mid, evolved) = DeliveryReach-Keeps sound reach in
      let (last, moved) = DeliveryStep-Keeps mid step in (last, Evolves-trans evolved moved)
