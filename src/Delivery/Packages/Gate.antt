-- ===== src/Delivery/Packages/Gate.antt =====
-- When a package may leave the factory.
use laundry_api.Base.{
  ℕ, ◌≡◌, refl, true, false, none, some, List, ◌++◌, Memᴰ, arith, ltb, map, ◌==◌,
}
use laundry_api.Billing.Types.{BillingRow}
use laundry_api.Billing.Repository.{is_waiting}
use laundry_api.Errors.{
  active_run_not_found, billing_not_paid, domain, known_request, of_delivery, package_not_found,
  type_error, package_not_deliverable,
}
use laundry_api.Store.{Prisma}
use laundry_api.Store.Many.{find_many}
use laundry_api.Tx.{ok, err}
use laundry_api.Orders.Types.{OrderItemLocation, OrderItemStatus, in_package}
use laundry_api.Route.Db.{AuditAction}
use laundry_api.Route.Types.{ActorContext}
use laundry_api.Delivery.Types.{
  DeliveryDb, DeliveryRun, DeliveryPackageView, ItemPackage, PackageScanOutboundResult,
}
use laundry_api.Delivery.Repository.{count_waiting_billings, find_active_run, find_package_by_id}
use laundry_api.Delivery.Packages.{
  load_items, loaded_before, log_placed, place_items, placed_items, scan_outbound,
  scan_outbound_rows,
}
use laundry_api.Delivery.Packages.Find.{IsViewOf, all_in}

-- The order has a request that is not paid.
abbrev pub IsUnpaid : ℕ → DeliveryDb → Type 0
IsUnpaid order db =
    (b : BillingRow) × Memᴰ b db.billing_requests
    × (b.order_id ≡ order)
    × (is_waiting b.status ≡ true)

module _ ⦃prisma : Prisma⦄ where
  -- The ids of the items in the package, as a transaction reads them.
  abbrev pub ids_of : ItemPackage → DeliveryDb → List ℕ
  ids_of pkg db = map (λ i. i.id) (find_many (in_package pkg.id) db.order_items)

  -- The tables after the items of the package are loaded into the van of the run.
  abbrev pub after_loading : ItemPackage → ℕ → ActorContext → DeliveryDb → DeliveryDb
  after_loading pkg run actor db =
      let ids = ids_of pkg db in
      log_placed actor AuditAction.item_scan_outbound OrderItemStatus.delivering
        OrderItemLocation.delivering_truck ids
        (record (place_items ids OrderItemStatus.delivering OrderItemLocation.delivering_truck db) {
          delivery_run_items =
              db.delivery_run_items ++ map (λ id. record { run_id = run; order_item_id = id }) ids;
        })

  abbrev pub loading_result : ItemPackage → DeliveryDb → PackageScanOutboundResult
  loading_result pkg db = record {
    package_id = pkg.id;
    order_id = pkg.order_id;
    items =
        placed_items OrderItemStatus.delivering OrderItemLocation.delivering_truck (ids_of pkg db);
  }

  pub load_items-ok :
      (pkg : ItemPackage) (run : ℕ) (actor : ActorContext) (db : DeliveryDb)
      → loaded_before (ids_of pkg db) db ≡ false
      → load_items pkg run actor db ≡ ok (loading_result pkg db, after_loading pkg run actor db)
  unfolding load_items
  load_items-ok pkg run actor db e = rw (load_items, e) refl

  pub load_items-err :
      (pkg : ItemPackage) (run : ℕ) (actor : ActorContext) (db : DeliveryDb)
      → loaded_before (ids_of pkg db) db ≡ true
      → load_items pkg run actor db ≡ err (known_request "P2002")
  unfolding load_items
  load_items-err pkg run actor db e = rw (load_items, e) refl

  module _ (id : ℕ) (actor : ActorContext) (db : DeliveryDb) where
    pub scan-missing :
        find_package_by_id db id ≡ ok none
        → scan_outbound id actor db ≡ err (domain (of_delivery (package_not_found id)))
    unfolding scan_outbound
    scan-missing e = ground arith

    pub scan-broken :
        find_package_by_id db id ≡ err type_error → scan_outbound id actor db ≡ err type_error
    unfolding scan_outbound
    scan-broken e = ground arith

    module _ {view : DeliveryPackageView} (e : find_package_by_id db id ≡ ok (some view)) where
      pub scan-not_ready :
          all_in OrderItemStatus.ready_for_delivery view.items ≡ false
          → scan_outbound id actor db ≡ err (domain (of_delivery (package_not_deliverable id)))
      unfolding scan_outbound
      scan-not_ready f = ground arith

      pub scan-unpaid :
          all_in OrderItemStatus.ready_for_delivery view.items ≡ true
          → ltb 0 (count_waiting_billings db view.order_id) ≡ true
          → scan_outbound id actor db ≡ err (domain (of_delivery (billing_not_paid view.order_id)))
      unfolding scan_outbound
      scan-unpaid f g = ground arith

      pub scan-no_run :
          all_in OrderItemStatus.ready_for_delivery view.items ≡ true
          → ltb 0 (count_waiting_billings db view.order_id) ≡ false
          → find_active_run db actor.actor_id ≡ none
          → scan_outbound id actor db ≡ err (domain (of_delivery active_run_not_found))
      unfolding scan_outbound
      scan-no_run f g h = ground arith

      pub scan-rows :
          {run : DeliveryRun}
          → all_in OrderItemStatus.ready_for_delivery view.items ≡ true
          → ltb 0 (count_waiting_billings db view.order_id) ≡ false
          → find_active_run db actor.actor_id ≡ some run
          → (of : IsViewOf db id view)
          → scan_outbound id actor db ≡ load_items of.pkg run.id actor db
      unfolding scan_outbound scan_outbound_rows
      scan-rows {run} f g h of =
          let found : prisma.find_first (λ p. p.id == id) db.item_packages ≡ some of.pkg =
            of.found in
          ground arith
