-- ===== src/Delivery/Packages.antt =====
-- `scanOutbound` and `handoffPackage` of prisma-delivery.repository.ts, and their use cases.
pub mod Find
pub mod Gate
pub mod Outbound
pub mod Loading
pub mod Handoff
pub mod LastPackage
use laundry_api.Base.{
  ℕ, Bool, true, false, not, Option, none, some, List, [], ◌∷◌, ◌++◌, ◌==◌, every, map, some_of,
  update_where, if◌then◌else◌, ltb,
}
use laundry_api.Errors.{
  active_run_not_found, billing_not_paid, domain, known_request, of_delivery, package_not_found,
  package_not_deliverable, package_not_handoffable, type_error,
}
use laundry_api.Store.{Prisma}
use laundry_api.Store.Many.{contains, find_many}
use laundry_api.Tx.{Tx, ◌>>=◌, ◌>>◌, pure, gets, modify, require, throw_if, query}
use laundry_api.Orders.Types.{
  LaundryOrder, OrderItem, OrderItemLocation, OrderItemStatus, OrderStatus, in_ids, in_package,
  same_item_status,
}
use laundry_api.Route.Types.{ActorContext}
use laundry_api.Route.Db.{AuditAction, AuditLog, AuditState}
use laundry_api.Delivery.Types.{
  DeliveryDb, DeliveryPackageItem, DeliveryRunItem, ItemPackage, PackageHandoffResult,
  PackageScanOutboundResult, PlacedItem,
}
use laundry_api.Delivery.Repository.{count_waiting_billings, find_active_run, find_package_by_id}

-- `updateMany({ where: { id: { in: ids } }, data: { status, location } })`.
abbrev pub place : OrderItemStatus → OrderItemLocation → OrderItem → OrderItem
place status location i = record i { status = status; location = location }

abbrev pub place_items : List ℕ → OrderItemStatus → OrderItemLocation → DeliveryDb → DeliveryDb
place_items ids status location db = record db {
  order_items = update_where (in_ids ids) (place status location) db.order_items;
}

-- The loop that logs each item.
abbrev pub log_items :
    ActorContext → AuditAction → AuditState → List ℕ → List AuditLog → List AuditLog
log_items actor action after [] logs = logs
log_items actor action after (id ∷ ids) logs = log_items actor action after ids (
    logs
    ++ record {
      actor = actor;
      action_type = action;
      target_id = id;
      before_state = AuditState.no_state;
      after_state = after;
      reason = none;
    }
      ∷ [])

abbrev pub log_placed :
    ActorContext
    → AuditAction
    → OrderItemStatus
    → OrderItemLocation
    → List ℕ
    → DeliveryDb
    → DeliveryDb
log_placed actor action status location ids db = record db {
  audit_logs = log_items actor action (AuditState.placed status location) ids db.audit_logs;
}

-- `itemIds.map((id) => ({ itemId: id, status, location }))`.
abbrev pub placed_items : OrderItemStatus → OrderItemLocation → List ℕ → List PlacedItem
placed_items status location ids =
    map (λ id. record { item_id = id; status = status; location = location }) ids

-- The UNIQUE constraint on `orderItemId` of `delivery_run_items` refuses one of the items.
abbrev pub loaded_before : List ℕ → DeliveryDb → Bool
loaded_before ids db = some_of (λ r. contains ids r.order_item_id) db.delivery_run_items

abbrev pub is_finished : OrderItem → Bool
is_finished i = same_item_status i.status OrderItemStatus.finished

abbrev pub item_of_order : ℕ → OrderItem → Bool
item_of_order order i = i.order_id == order

-- `newOrderStatus`.
abbrev pub new_order_status : List OrderItem → Option OrderStatus
new_order_status items =
    if every is_finished items
    then some OrderStatus.finished
    else if some_of is_finished items
    then some OrderStatus.partial_finished
    else none

-- `newOrderStatus ?? 'PROCESSING'`.
abbrev pub shown_status : Option OrderStatus → OrderStatus
shown_status none = OrderStatus.processing
shown_status (some s) = s

-- `laundryOrder.update`, where there is a new status: a missing order raises P2025.
abbrev pub set_order_status : ℕ → Option OrderStatus → DeliveryDb → DeliveryDb
set_order_status order none db = db
set_order_status order (some s) db = record db {
  orders = update_where (λ o. o.id == order) (λ o. record o { status = s }) db.orders;
}

abbrev pub order_missing : ℕ → Option OrderStatus → DeliveryDb → Bool
order_missing order none db = false
order_missing order (some s) db = not (some_of (λ o. o.id == order) db.orders)

module _ ⦃prisma : Prisma⦄ where
  -- The package that a transaction loads again: `pkg!` throws where it is gone.
  abbrev pub load_package : ℕ → Tx DeliveryDb ItemPackage
  load_package id = (gets (λ db. prisma.find_first (λ p. p.id == id) db.item_packages)) >>= λ found.
      require found type_error

  -- `scanOutbound` once the package is loaded.
  unfoldable pub load_items :
      ItemPackage → ℕ → ActorContext → Tx DeliveryDb PackageScanOutboundResult
  load_items pkg run actor = do
    ids ← gets (λ db. map (λ i. i.id) (find_many (in_package pkg.id) db.order_items))
    modify (place_items ids OrderItemStatus.delivering OrderItemLocation.delivering_truck)
    throw_if (← gets (loaded_before ids)) (known_request "P2002")
    modify (λ db. record db {
      delivery_run_items =
          db.delivery_run_items ++ map (λ id. record { run_id = run; order_item_id = id }) ids;
    })
    modify (
        log_placed actor AuditAction.item_scan_outbound OrderItemStatus.delivering
          OrderItemLocation.delivering_truck ids)
    pure (record {
      package_id = pkg.id;
      order_id = pkg.order_id;
      items = placed_items OrderItemStatus.delivering OrderItemLocation.delivering_truck ids;
    })

  -- `scanOutbound`.
  unfoldable pub scan_outbound_rows : ℕ → ℕ → ActorContext → Tx DeliveryDb PackageScanOutboundResult
  scan_outbound_rows id run actor = do pkg ← load_package id; load_items pkg run actor

  -- `ScanOutboundUseCase.execute`.
  unfoldable pub scan_outbound : ℕ → ActorContext → Tx DeliveryDb PackageScanOutboundResult
  scan_outbound id actor = do
    view ←
        require (← query (λ db. find_package_by_id db id))
          (domain (of_delivery (package_not_found id)))
    throw_if
        (not (every (λ i. same_item_status i.status OrderItemStatus.ready_for_delivery) view.items))
        (domain (of_delivery (package_not_deliverable id)))
    unpaid ← gets (λ db. count_waiting_billings db view.order_id)
    throw_if (ltb 0 unpaid) (domain (of_delivery (billing_not_paid view.order_id)))
    run ←
        require (← gets (λ db. find_active_run db actor.actor_id))
          (domain (of_delivery active_run_not_found))
    scan_outbound_rows id run.id actor

  -- `handoffPackage` once the package is loaded.
  unfoldable pub hand_off_items : ItemPackage → ActorContext → Tx DeliveryDb PackageHandoffResult
  hand_off_items pkg actor = do
    ids ← gets (λ db. map (λ i. i.id) (find_many (in_package pkg.id) db.order_items))
    modify (place_items ids OrderItemStatus.finished OrderItemLocation.customer_dest)
    modify (
        log_placed actor AuditAction.item_handed_off OrderItemStatus.finished
          OrderItemLocation.customer_dest ids)
    all_items ← gets (λ db. find_many (item_of_order pkg.order_id) db.order_items)
    throw_if (← gets (order_missing pkg.order_id (new_order_status all_items)))
        (known_request "P2025")
    modify (set_order_status pkg.order_id (new_order_status all_items))
    pure (record {
      package_id = pkg.id;
      order_id = pkg.order_id;
      items = placed_items OrderItemStatus.finished OrderItemLocation.customer_dest ids;
      order_status = shown_status (new_order_status all_items);
    })

  -- `handoffPackage`.
  unfoldable pub handoff_package : ℕ → ActorContext → Tx DeliveryDb PackageHandoffResult
  handoff_package id actor = do pkg ← load_package id; hand_off_items pkg actor

  -- `HandoffItemUseCase.execute`.
  unfoldable pub handoff_item : ℕ → ActorContext → Tx DeliveryDb PackageHandoffResult
  handoff_item id actor = do
    view ←
        require (← query (λ db. find_package_by_id db id))
          (domain (of_delivery (package_not_found id)))
    throw_if (not (every (λ i. same_item_status i.status OrderItemStatus.delivering) view.items))
        (domain (of_delivery (package_not_handoffable id)))
    handoff_package id actor
