-- ===== src/Errors/Codes.antt =====
-- The code and the HTTP status of each domain error.
use laundry_api.Base.{ℕ, String}
use laundry_api.Errors.{
  RouteError, WashError, BillingError, DeliveryError, ExceptionError, DomainError, of_route,
  of_wash, of_billing, of_delivery, of_exception, invalid_route_code, no_active_plan,
  plan_already_exists, step_not_in_progress, override_step_not_implemented, bag_not_at_factory,
  item_not_taggable, item_not_assignable, item_not_scannable, item_awaiting_customer_decision,
  item_has_pending_route_change, tag_barcode_conflict, wash_item_not_found, wash_bag_not_found,
  wash_order_not_found, tag_not_found, billing_request_not_found, billing_already_resolved,
  billing_request_forbidden, delivery_item_not_found, item_not_deliverable, item_not_handoffable,
  billing_not_paid, active_run_not_found, delivery_run_not_found, delivery_vehicle_not_found,
  package_not_found, package_not_deliverable, package_not_handoffable, exception_item_not_found,
  item_not_issuable, flow_template_not_found, approval_request_not_found,
  approval_request_already_resolved, approval_request_forbidden, pending_route_change_exists,
  exception_flow_active, route_change_request_not_found, route_change_request_already_resolved,
  route_change_request_forbidden,
}

unfoldable pub route_code : RouteError → String
route_code (invalid_route_code code) = "ROUTE_INVALID_CODE"
route_code (no_active_plan id) = "ROUTE_NO_ACTIVE_PLAN"
route_code (plan_already_exists id) = "ROUTE_PLAN_ALREADY_EXISTS"
route_code step_not_in_progress = "ROUTE_STEP_NOT_IN_PROGRESS"
route_code override_step_not_implemented = "ROUTE_OVERRIDE_NOT_IMPLEMENTED"

unfoldable pub route_status : RouteError → ℕ
route_status (invalid_route_code code) = 400
route_status (no_active_plan id) = 400
route_status (plan_already_exists id) = 409
route_status step_not_in_progress = 409
route_status override_step_not_implemented = 501

unfoldable pub wash_code : WashError → String
wash_code (bag_not_at_factory barcode) = "WASH_BAG_NOT_AT_FACTORY"
wash_code (item_not_taggable id) = "WASH_ITEM_NOT_TAGGABLE"
wash_code (item_not_assignable id) = "WASH_ITEM_NOT_ASSIGNABLE"
wash_code (item_not_scannable id) = "WASH_ITEM_NOT_SCANNABLE"
wash_code (item_awaiting_customer_decision id) = "WASH_ITEM_AWAITING_CUSTOMER_DECISION"
wash_code (item_has_pending_route_change id) = "WASH_ITEM_HAS_PENDING_ROUTE_CHANGE"
wash_code (tag_barcode_conflict barcode) = "WASH_TAG_BARCODE_CONFLICT"
wash_code (wash_item_not_found id) = "WASH_ITEM_NOT_FOUND"
wash_code (wash_bag_not_found barcode) = "WASH_BAG_NOT_FOUND"
wash_code (wash_order_not_found id) = "WASH_ORDER_NOT_FOUND"
wash_code (tag_not_found barcode) = "WASH_TAG_NOT_FOUND"

unfoldable pub wash_status : WashError → ℕ
wash_status (bag_not_at_factory barcode) = 400
wash_status (item_not_taggable id) = 409
wash_status (item_not_assignable id) = 409
wash_status (item_not_scannable id) = 409
wash_status (item_awaiting_customer_decision id) = 409
wash_status (item_has_pending_route_change id) = 409
wash_status (tag_barcode_conflict barcode) = 409
wash_status (wash_item_not_found id) = 404
wash_status (wash_bag_not_found barcode) = 404
wash_status (wash_order_not_found id) = 404
wash_status (tag_not_found barcode) = 404

unfoldable pub billing_code : BillingError → String
billing_code (billing_request_not_found id) = "BILLING_REQUEST_NOT_FOUND"
billing_code (billing_already_resolved id) = "BILLING_ALREADY_RESOLVED"
billing_code billing_request_forbidden = "BILLING_REQUEST_FORBIDDEN"

unfoldable pub billing_status : BillingError → ℕ
billing_status (billing_request_not_found id) = 404
billing_status (billing_already_resolved id) = 409
billing_status billing_request_forbidden = 403

unfoldable pub delivery_code : DeliveryError → String
delivery_code (delivery_item_not_found barcode) = "DELIVERY_ITEM_NOT_FOUND"
delivery_code (item_not_deliverable id status) = "DELIVERY_ITEM_NOT_DELIVERABLE"
delivery_code (item_not_handoffable id status) = "DELIVERY_ITEM_NOT_HANDOFFABLE"
delivery_code (billing_not_paid id) = "DELIVERY_BILLING_NOT_PAID"
delivery_code active_run_not_found = "DELIVERY_ACTIVE_RUN_NOT_FOUND"
delivery_code (delivery_run_not_found id) = "DELIVERY_RUN_NOT_FOUND"
delivery_code (delivery_vehicle_not_found code) = "DELIVERY_VEHICLE_NOT_FOUND"
delivery_code (package_not_found id) = "DELIVERY_PACKAGE_NOT_FOUND"
delivery_code (package_not_deliverable id) = "DELIVERY_PACKAGE_NOT_DELIVERABLE"
delivery_code (package_not_handoffable id) = "DELIVERY_PACKAGE_NOT_HANDOFFABLE"

unfoldable pub delivery_status : DeliveryError → ℕ
delivery_status (delivery_item_not_found barcode) = 404
delivery_status (item_not_deliverable id status) = 409
delivery_status (item_not_handoffable id status) = 409
delivery_status (billing_not_paid id) = 409
delivery_status active_run_not_found = 404
delivery_status (delivery_run_not_found id) = 404
delivery_status (delivery_vehicle_not_found code) = 404
delivery_status (package_not_found id) = 404
delivery_status (package_not_deliverable id) = 409
delivery_status (package_not_handoffable id) = 409

unfoldable pub exception_code : ExceptionError → String
exception_code (exception_item_not_found id) = "EXCEPTION_ITEM_NOT_FOUND"
exception_code (item_not_issuable id) = "EXCEPTION_ITEM_NOT_ISSUABLE"
exception_code (flow_template_not_found code) = "EXCEPTION_FLOW_TEMPLATE_NOT_FOUND"
exception_code (approval_request_not_found id) = "EXCEPTION_APPROVAL_REQUEST_NOT_FOUND"
exception_code approval_request_already_resolved = "EXCEPTION_APPROVAL_REQUEST_ALREADY_RESOLVED"
exception_code approval_request_forbidden = "EXCEPTION_APPROVAL_REQUEST_FORBIDDEN"
exception_code (pending_route_change_exists id) = "EXCEPTION_PENDING_ROUTE_CHANGE_EXISTS"
exception_code (exception_flow_active id) = "EXCEPTION_FLOW_ACTIVE"
exception_code (route_change_request_not_found id) = "EXCEPTION_ROUTE_CHANGE_REQUEST_NOT_FOUND"
exception_code route_change_request_already_resolved =
    "EXCEPTION_ROUTE_CHANGE_REQUEST_ALREADY_RESOLVED"
exception_code route_change_request_forbidden = "EXCEPTION_ROUTE_CHANGE_REQUEST_FORBIDDEN"

unfoldable pub exception_status : ExceptionError → ℕ
exception_status (exception_item_not_found id) = 404
exception_status (item_not_issuable id) = 409
exception_status (flow_template_not_found code) = 404
exception_status (approval_request_not_found id) = 404
exception_status approval_request_already_resolved = 409
exception_status approval_request_forbidden = 403
exception_status (pending_route_change_exists id) = 409
exception_status (exception_flow_active id) = 409
exception_status (route_change_request_not_found id) = 404
exception_status route_change_request_already_resolved = 409
exception_status route_change_request_forbidden = 403

-- `DomainError.code`.
unfoldable pub code_of : DomainError → String
unfolding route_code wash_code billing_code delivery_code exception_code
code_of (of_route e) = route_code e
code_of (of_wash e) = wash_code e
code_of (of_billing e) = billing_code e
code_of (of_delivery e) = delivery_code e
code_of (of_exception e) = exception_code e

-- `getStatus()` of a `DomainError`.
unfoldable pub status_of : DomainError → ℕ
unfolding route_status wash_status billing_status delivery_status exception_status
status_of (of_route e) = route_status e
status_of (of_wash e) = wash_status e
status_of (of_billing e) = billing_status e
status_of (of_delivery e) = delivery_status e
status_of (of_exception e) = exception_status e
