-- ===== src/Wash/Items.antt =====
-- The writes of prisma-wash.repository.ts on one item, and `TagItemUseCase`, `AssignRouteUseCase`
-- and `ScanStepUseCase`.
use laundry_api.Base.{
  ℕ, String, Bool, false, not, Option, none, some, ◌==◌, ◌&&◌, ◌||◌, str_eq, update_where,
  if◌then◌else◌,
}
use laundry_api.Billing.Service.{EmitPayload, claim_waiting_for_ready_to_package, on_item_tagged}
use laundry_api.Errors.{
  domain, item_awaiting_customer_decision, item_has_pending_route_change, item_not_assignable,
  item_not_scannable, item_not_taggable, known_request, of_wash, tag_barcode_conflict,
  tag_not_found, wash_item_not_found,
}
use laundry_api.Orders.Types.{
  OrderItem, OrderItemLocation, OrderItemStatus, same_item_status, same_location,
}
use laundry_api.Route.Db.{AuditAction, AuditState, Env}
use laundry_api.Route.Engine.Complete.{complete_current_step}
use laundry_api.Route.Engine.Plans.{create_plan, found, log_item}
use laundry_api.Route.Types.{ActorContext, CurrentStateView, CurrentStepView}
use laundry_api.Store.{Prisma}
use laundry_api.Tx.{Tx, ◌>>=◌, ◌>>◌, pure, gets, modify, require, throw_if}
use laundry_api.Wash.Types.{
  AssignRouteResult, RouteChangeRequest, ScanStepResult, WashDb, WashItemView, in_billing, in_route,
}
use laundry_api.Wash.Views.{build_item_view, query_processing_state}

-- `where: { tagBarcode }`.
abbrev pub has_tag : String → OrderItem → Bool
has_tag barcode i = elim i.tag_barcode [ none ↦ false | some t ↦ str_eq t barcode ]

-- `where: { orderItemId, status: 'PENDING' }`.
abbrev pub is_pending_for : ℕ → RouteChangeRequest → Bool
is_pending_for item r = r.order_item_id == item && str_eq r.status "PENDING"

-- The current step of a view has the type.
abbrev pub is_on : String → Option CurrentStepView → Bool
is_on type none = false
is_on type (some s) = str_eq s.step_type type

abbrev pub state_is_on : String → Option CurrentStateView → Bool
state_is_on type none = false
state_is_on type (some v) = is_on type v.current_step

-- `item.status !== 'SORTED' && item.status !== 'PROCESSING'`, negated.
abbrev pub is_scannable : OrderItemStatus → Bool
is_scannable s =
    same_item_status s OrderItemStatus.sorted || same_item_status s OrderItemStatus.processing

-- `nextStatus`.
abbrev pub status_after_scan : Bool → OrderItemStatus → OrderItemStatus
status_after_scan completed s =
    if completed
    then OrderItemStatus.ready_to_package
    else if same_item_status s OrderItemStatus.sorted
    then OrderItemStatus.processing
    else s

-- `orderItem.update({ where: { id } })`.
abbrev pub write_item : ℕ → (OrderItem → OrderItem) → WashDb → WashDb
write_item id f db = record db { order_items = update_where (λ i. i.id == id) f db.order_items }

abbrev pub with_tag : String → OrderItem → OrderItem
with_tag barcode i = record i { tag_barcode = some barcode; status = OrderItemStatus.tagged }

abbrev pub with_item_status : OrderItemStatus → OrderItem → OrderItem
with_item_status status i = record i { status = status }

module _ ⦃prisma : Prisma⦄ where
  -- An update of one item, which raises P2025 where there is none; it returns the new row.
  unfoldable pub update_item : ℕ → (OrderItem → OrderItem) → Tx WashDb OrderItem
  update_item id f = do
    row ←
        require (← gets (λ db. prisma.find_first (λ i. i.id == id) db.order_items))
          (known_request "P2025")
    modify (write_item id f)
    pure (f row)

  -- The row behind `findItemByTagBarcode`.
  unfoldable pub find_tagged : String → WashDb → Option OrderItem
  find_tagged barcode db = prisma.find_first (has_tag barcode) db.order_items

  -- `attachTagBarcode`, up to the view.
  unfoldable pub attach_tag_barcode : ℕ → String → ActorContext → Tx WashDb OrderItem
  attach_tag_barcode id barcode actor = do
    conflict ← gets (find_tagged barcode)
    throw_if (found conflict) (domain (of_wash (tag_barcode_conflict barcode)))
    row ← update_item id (with_tag barcode)
    modify (λ db. record db {
      route =
          log_item actor AuditAction.item_tagged id
            (AuditState.tagged barcode OrderItemStatus.tagged) none db.route;
    })
    pure row

  -- `setItemStatus`, with the database that its view reads.
  unfoldable pub set_item_status : WashDb → ℕ → OrderItemStatus → Tx WashDb WashItemView
  set_item_status committed id status = do
    row ← update_item id (with_item_status status)
    pure (build_item_view committed.route row)

  -- The last step of the transaction: an item that has a plan is SORTED at once.
  unfoldable pub sort_if_planned :
      WashDb → OrderItem → Option CurrentStateView → Tx WashDb WashItemView
  sort_if_planned committed row none = pure (build_item_view committed.route row)
  sort_if_planned committed row (some v) = set_item_status committed row.id OrderItemStatus.sorted

  -- The transaction of `TagItemUseCase`.
  unfoldable pub tag_found :
      WashDb → Env → OrderItem → String → ActorContext → Tx WashDb WashItemView
  tag_found committed env item barcode actor = do
    row ← attach_tag_barcode item.id barcode actor
    in_billing (on_item_tagged env item.id item.order_id item.estimated_min_amount)
    sort_if_planned committed row (query_processing_state committed.route item.id)

  -- `TagItemUseCase.execute`.
  unfoldable pub tag_item : Env → ℕ → String → ActorContext → Tx WashDb WashItemView
  tag_item env id barcode actor = do
    committed ← gets (λ db. db)
    item ←
        require (prisma.find_first (λ i. i.id == id) committed.order_items)
          (domain (of_wash (wash_item_not_found id)))
    throw_if
        (not (
          same_item_status item.status OrderItemStatus.pick_up
          && same_location item.location OrderItemLocation.in_house))
        (domain (of_wash (item_not_taggable id)))
    tag_found committed env item barcode actor

  -- The transaction of `AssignRouteUseCase`.
  unfoldable pub assign_found :
      WashDb → Env → OrderItem → String → ActorContext → Tx WashDb AssignRouteResult
  assign_found committed env item route_code actor = do
    processing_state ← in_route (create_plan env item.id route_code actor none)
    updated ← set_item_status committed item.id OrderItemStatus.sorted
    pure (record { item = updated; processing_state = processing_state })

  -- `AssignRouteUseCase.execute`.
  unfoldable pub assign_route : Env → String → String → ActorContext → Tx WashDb AssignRouteResult
  assign_route env barcode route_code actor = do
    committed ← gets (λ db. db)
    item ← require (find_tagged barcode committed) (domain (of_wash (tag_not_found barcode)))
    throw_if (not (same_item_status item.status OrderItemStatus.tagged))
        (domain (of_wash (item_not_assignable item.id)))
    assign_found committed env item route_code actor

  -- The step READY_TO_PACKAGE is completed without a scan of its own.
  unfoldable pub complete_ready : ℕ → ActorContext → CurrentStateView → Tx WashDb CurrentStateView
  complete_ready item actor v =
      if not v.is_plan_completed && is_on "READY_TO_PACKAGE" v.current_step
      then in_route (complete_current_step item actor)
      else pure v

  -- The claim of the requests to notify of, where the item is ready.
  unfoldable pub claim_if_ready : Env → ℕ → OrderItemStatus → Tx WashDb (Option EmitPayload)
  claim_if_ready env order status =
      if same_item_status status OrderItemStatus.ready_to_package
      then in_billing (claim_waiting_for_ready_to_package env order)
      else pure none

  -- The transaction of `ScanStepUseCase`.
  unfoldable pub scan_found : WashDb → Env → OrderItem → ActorContext → Tx WashDb ScanStepResult
  scan_found committed env item actor = do
    first ← in_route (complete_current_step item.id actor)
    last ← complete_ready item.id actor first
    updated ←
        set_item_status committed item.id (status_after_scan last.is_plan_completed item.status)
    payload ←
        claim_if_ready env item.order_id (status_after_scan last.is_plan_completed item.status)
    pure (record { item = updated; processing_state = last; emit_payload = payload })

  -- `ScanStepUseCase.execute`.
  unfoldable pub scan_step : Env → String → ActorContext → Tx WashDb ScanStepResult
  scan_step env barcode actor = do
    committed ← gets (λ db. db)
    item ← require (find_tagged barcode committed) (domain (of_wash (tag_not_found barcode)))
    throw_if (not (is_scannable item.status)) (domain (of_wash (item_not_scannable item.id)))
    throw_if (state_is_on "WAIT_CUSTOMER_DECISION" (query_processing_state committed.route item.id))
        (domain (of_wash (item_awaiting_customer_decision item.id)))
    pending ← gets (λ db. prisma.find_first (is_pending_for item.id) db.route_change_requests)
    throw_if (found pending) (domain (of_wash (item_has_pending_route_change item.id)))
    scan_found committed env item actor
