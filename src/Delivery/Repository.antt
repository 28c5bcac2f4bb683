-- ===== src/Delivery/Repository.antt =====
-- prisma-delivery.repository.ts: the reads and the views.
use laundry_api.Base.{
  ℕ, String, Bool, true, false, Option, none, some, List, ◌==◌, ◌&&◌, count, map, some_of, str_eq,
}
use laundry_api.Billing.Repository.{waiting_of}
use laundry_api.Errors.{type_error}
use laundry_api.Store.{Prisma}
use laundry_api.Store.Many.{find_many}
use laundry_api.Tx.{Tx, ◌>>=◌, pure, gets, require, Result, ok, err}
use laundry_api.Orders.Types.{
  LaundryOrder, OrderItem, OrderItemStatus, in_package, same_item_status,
}
use laundry_api.Delivery.Types.{
  DeliveryDb, DeliveryHandoffPhoto, DeliveryPackageItem, DeliveryPackageView, DeliveryRun,
  DeliveryRunStatus, DeliveryRunView, DeliveryVehicle, ItemPackage,
}

abbrev pub run_is_active : DeliveryRunStatus → Bool
run_is_active DeliveryRunStatus.active = true
run_is_active DeliveryRunStatus.closed = false

-- `where: { staffId, status: 'ACTIVE' }`.
abbrev pub active_run_of : String → DeliveryRun → Bool
active_run_of staff r = str_eq r.staff_id staff && run_is_active r.status

-- `where: { vehicleId, status: 'ACTIVE' }`.
abbrev pub active_run_on : ℕ → DeliveryRun → Bool
active_run_on vehicle r = r.vehicle_id == vehicle && run_is_active r.status

-- `toRunView`.
abbrev pub to_run_view : DeliveryRun → DeliveryVehicle → DeliveryRunView
to_run_view run vehicle = record {
  id = run.id;
  staff_id = run.staff_id;
  vehicle_code = vehicle.code;
  vehicle_display_name = vehicle.display_name;
  status = run.status;
  created_at = run.created_at;
  closed_at = run.closed_at;
}

abbrev pub to_package_item : OrderItem → DeliveryPackageItem
to_package_item i = record {
  item_id = i.id;
  tag_barcode = i.tag_barcode;
  catalog_item_code = i.catalog_item_code;
  display_name_snapshot = i.display_name_snapshot;
  status = i.status;
}

-- `toPackageView`.
abbrev pub to_package_view :
    ItemPackage → LaundryOrder → List OrderItem → Option DeliveryHandoffPhoto → DeliveryPackageView
to_package_view pkg order items photo = record {
  package_id = pkg.id;
  order_id = pkg.order_id;
  address = order.address;
  phone_number = order.phone_number;
  fulfillment_type = order.fulfillment_type;
  fulfillment_option_code = order.fulfillment_option_code;
  pickup_delivery_place_code = order.pickup_delivery_place_code;
  pickup_delivery_place_text = order.pickup_delivery_place_text;
  items = map to_package_item items;
  handoff_photo = photo;
}

-- The item waits for a van.
abbrev pub is_ready : OrderItem → Bool
is_ready i = same_item_status i.status OrderItemStatus.ready_for_delivery

-- The item is in the van of the run.
abbrev pub is_loaded : DeliveryDb → ℕ → OrderItem → Bool
is_loaded db run i =
    same_item_status i.status OrderItemStatus.delivering
    && some_of (λ r. r.order_item_id == i.id && r.run_id == run) db.delivery_run_items

-- `countWaitingBillings`.
unfoldable pub count_waiting_billings : DeliveryDb → ℕ → ℕ
count_waiting_billings db order = count (waiting_of order) db.billing_requests

module _ ⦃prisma : Prisma⦄ where
  -- A run with `include: { vehicle: true }`, which a foreign key provides.
  abbrev pub view_run : DeliveryRun → Tx DeliveryDb DeliveryRunView
  view_run run = do
    vehicle ←
        require
          (← gets (λ db. prisma.find_first (λ v. v.id == run.vehicle_id) db.delivery_vehicles))
          type_error
    pure (to_run_view run vehicle)

  -- A package with its order, the items that are included, and its photo.
  abbrev pub package_view : DeliveryDb → List OrderItem → ItemPackage → Option DeliveryPackageView
  package_view db items pkg = elim (prisma.find_first (λ o. o.id == pkg.order_id) db.orders) [
    | none ↦ none
    | some order ↦ some (
        to_package_view pkg order items
          (prisma.find_first (λ p. p.package_id == pkg.id) db.handoff_photos))
  ]

  -- `findDeliveryPackages` and `findLoadedPackages`, by the test that their items pass.
  abbrev pub packages_with : DeliveryDb → (OrderItem → Bool) → List (Option DeliveryPackageView)
  packages_with db test =
      map (λ p. package_view db (find_many (λ i. in_package p.id i && test i) db.order_items) p)
        (prisma.find_many_asc (λ p. p.created_at)
          (λ p. some_of (λ i. in_package p.id i && test i) db.order_items) db.item_packages)

  -- `findDeliveryPackages`.
  unfoldable pub find_delivery_packages : DeliveryDb → List (Option DeliveryPackageView)
  find_delivery_packages db = packages_with db is_ready

  -- `findLoadedPackages`.
  unfoldable pub find_loaded_packages : DeliveryDb → ℕ → List (Option DeliveryPackageView)
  find_loaded_packages db run = packages_with db (is_loaded db run)

  -- `findActiveRun`, without its vehicle.
  unfoldable pub find_active_run : DeliveryDb → String → Option DeliveryRun
  find_active_run db staff = prisma.find_first (active_run_of staff) db.delivery_runs

  -- `findPackageById`. The query fails on a package without the order that it includes, which a
  -- foreign key excludes.
  unfoldable pub find_package_by_id : DeliveryDb → ℕ → Result (Option DeliveryPackageView)
  find_package_by_id db id = elim (prisma.find_first (λ p. p.id == id) db.item_packages) [
    | none ↦ ok none
    | some pkg ↦ elim (package_view db (find_many (in_package pkg.id) db.order_items) pkg) [
      | none ↦ err type_error
      | some view ↦ ok (some view)
    ]
  ]
