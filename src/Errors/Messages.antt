-- ===== src/Errors/Messages.antt =====
-- The message of each domain error. The texts of ids are a parameter: ids are numbers here.
use Prim.Native.String.{◌++◌ as concat}
use laundry_api.Base.{ℕ, String}
use laundry_api.Errors.{
  RouteError, WashError, BillingError, DeliveryError, ExceptionError, DomainError, of_route,
  of_wash, of_billing, of_delivery, of_exception, invalid_route_code, no_active_plan,
  plan_already_exists, step_not_in_progress, override_step_not_implemented, bag_not_at_factory,
  item_not_taggable, item_not_assignable, item_not_scannable, item_awaiting_customer_decision,
  item_has_pending_route_change, tag_barcode_conflict, wash_item_not_found, wash_bag_not_found,
  wash_order_not_found, tag_not_found, billing_request_not_found, billing_already_resolved,
  billing_request_forbidden, delivery_item_not_found, item_not_deliverable, item_not_handoffable,
  billing_not_paid, active_run_not_found, delivery_run_not_found, delivery_vehicle_not_found,
  package_not_found, package_not_deliverable, package_not_handoffable, exception_item_not_found,
  item_not_issuable, flow_template_not_found, approval_request_not_found,
  approval_request_already_resolved, approval_request_forbidden, pending_route_change_exists,
  exception_flow_active, route_change_request_not_found, route_change_request_already_resolved,
  route_change_request_forbidden,
}

module _ (id_text : ℕ → String) where
  unfoldable pub route_message : RouteError → String
  route_message (invalid_route_code code) = concat "Processing route not found or inactive: " code
  route_message (no_active_plan id) = concat "No processing state found for item: " (id_text id)
  route_message (plan_already_exists id) =
      concat "Item already has an active processing plan: " (id_text id)
  route_message step_not_in_progress = "Current step is not IN_PROGRESS."
  route_message override_step_not_implemented = "OVERRIDE step source is not yet implemented."

  unfoldable pub wash_message : WashError → String
  wash_message (bag_not_at_factory barcode) = concat "Bag is not at factory (TAKE_BACK): " barcode
  wash_message (item_not_taggable id) =
      concat "Item must be PICK_UP and IN_HOUSE to attach a tag: " (id_text id)
  wash_message (item_not_assignable id) =
      concat "Item must be TAGGED to assign a route: " (id_text id)
  wash_message (item_not_scannable id) =
      concat "Item must be SORTED or PROCESSING to scan a step: " (id_text id)
  wash_message (item_awaiting_customer_decision id) =
      concat "Item is awaiting customer decision and cannot be scanned: " (id_text id)
  wash_message (item_has_pending_route_change id) =
      concat "Item has a pending route change request and cannot be scanned: " (id_text id)
  wash_message (tag_barcode_conflict barcode) = concat "Tag barcode is already in use: " barcode
  wash_message (wash_item_not_found id) = concat "Item not found: " (id_text id)
  wash_message (wash_bag_not_found barcode) = concat "Pickup bag not found: " barcode
  wash_message (wash_order_not_found id) = concat "Order not found: " (id_text id)
  wash_message (tag_not_found barcode) = concat "No item is registered with tag: " barcode

  unfoldable pub billing_message : BillingError → String
  billing_message (billing_request_not_found id) = concat "Billing request not found: " (id_text id)
  billing_message (billing_already_resolved id) =
      concat "Billing request is already resolved: " (id_text id)
  billing_message billing_request_forbidden = "This billing request does not belong to you."

  unfoldable pub delivery_message : DeliveryError → String
  delivery_message (delivery_item_not_found barcode) = concat "No item found with tag: " barcode
  delivery_message (item_not_deliverable id status) =
      concat "Item " (
        concat (id_text id)
          (concat " cannot be scanned for outbound (status: " (concat status ")")))
  delivery_message (item_not_handoffable id status) =
      concat "Item "
        (concat (id_text id) (concat " cannot be handed off (status: " (concat status ")")))
  delivery_message (billing_not_paid id) =
      concat "Order "
        (concat (id_text id) " has unpaid billing. Complete payment before outbound scan.")
  delivery_message active_run_not_found =
      "No active delivery run found for this staff. Register a run first."
  delivery_message (delivery_run_not_found id) = concat "Delivery run not found: " (id_text id)
  delivery_message (delivery_vehicle_not_found code) =
      concat "Delivery vehicle not found or inactive: " code
  delivery_message (package_not_found id) = concat "Package not found: " (id_text id)
  delivery_message (package_not_deliverable id) =
      concat "Package " (concat (id_text id) " items are not all in READY_FOR_DELIVERY status")
  delivery_message (package_not_handoffable id) =
      concat "Package " (concat (id_text id) " items are not all in DELIVERING status")

  unfoldable pub exception_message : ExceptionError → String
  exception_message (exception_item_not_found id) = concat "Item not found: " (id_text id)
  exception_message (item_not_issuable id) =
      concat "Item must be SORTED or PROCESSING to raise an issue: " (id_text id)
  exception_message (flow_template_not_found code) =
      concat "Exception flow template not found: " code
  exception_message (approval_request_not_found id) =
      concat "Approval request not found: " (id_text id)
  exception_message approval_request_already_resolved = "Approval request is already resolved."
  exception_message approval_request_forbidden = "You do not own this approval request."
  exception_message (pending_route_change_exists id) =
      concat "Item already has a pending route change request: " (id_text id)
  exception_message (exception_flow_active id) =
      concat "Item has an active exception flow: " (id_text id)
  exception_message (route_change_request_not_found id) =
      concat "Route change request not found: " (id_text id)
  exception_message route_change_request_already_resolved =
      "Route change request is already resolved."
  exception_message route_change_request_forbidden = "You do not own this route change request."

  -- `DomainError.message`.
  unfoldable pub message_of : DomainError → String
  unfolding route_message wash_message billing_message delivery_message exception_message
  message_of (of_route e) = route_message e
  message_of (of_wash e) = wash_message e
  message_of (of_billing e) = billing_message e
  message_of (of_delivery e) = delivery_message e
  message_of (of_exception e) = exception_message e
