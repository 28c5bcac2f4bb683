-- ===== src/Errors/Contract.antt =====
-- The code of a domain error as a discriminator: it names one subclass.
use laundry_api.Base.{
  ℕ, String, Option, none, some, List, [], ◌∷◌, ◌≡◌, refl, str_eq, if◌then◌else◌,
}
use laundry_api.Errors.{
  RouteError, WashError, BillingError, DeliveryError, ExceptionError, DomainError, of_route,
  of_wash, of_billing, of_delivery, of_exception, invalid_route_code, no_active_plan,
  plan_already_exists, step_not_in_progress, override_step_not_implemented, bag_not_at_factory,
  item_not_taggable, item_not_assignable, item_not_scannable, item_awaiting_customer_decision,
  item_has_pending_route_change, tag_barcode_conflict, wash_item_not_found, wash_bag_not_found,
  wash_order_not_found, tag_not_found, billing_request_not_found, billing_already_resolved,
  billing_request_forbidden, delivery_item_not_found, item_not_deliverable, item_not_handoffable,
  billing_not_paid, active_run_not_found, delivery_run_not_found, delivery_vehicle_not_found,
  package_not_found, package_not_deliverable, package_not_handoffable, exception_item_not_found,
  item_not_issuable, flow_template_not_found, approval_request_not_found,
  approval_request_already_resolved, approval_request_forbidden, pending_route_change_exists,
  exception_flow_active, route_change_request_not_found, route_change_request_already_resolved,
  route_change_request_forbidden,
}
use laundry_api.Errors.Codes.{code_of}

abbrev route_class : RouteError → ℕ
route_class (invalid_route_code code) = 0
route_class (no_active_plan id) = 1
route_class (plan_already_exists id) = 2
route_class step_not_in_progress = 3
route_class override_step_not_implemented = 4

abbrev wash_class : WashError → ℕ
wash_class (bag_not_at_factory barcode) = 5
wash_class (item_not_taggable id) = 6
wash_class (item_not_assignable id) = 7
wash_class (item_not_scannable id) = 8
wash_class (item_awaiting_customer_decision id) = 9
wash_class (item_has_pending_route_change id) = 10
wash_class (tag_barcode_conflict barcode) = 11
wash_class (wash_item_not_found id) = 12
wash_class (wash_bag_not_found barcode) = 13
wash_class (wash_order_not_found id) = 14
wash_class (tag_not_found barcode) = 15

abbrev billing_class : BillingError → ℕ
billing_class (billing_request_not_found id) = 16
billing_class (billing_already_resolved id) = 17
billing_class billing_request_forbidden = 18

abbrev delivery_class : DeliveryError → ℕ
delivery_class (delivery_item_not_found barcode) = 19
delivery_class (item_not_deliverable id status) = 20
delivery_class (item_not_handoffable id status) = 21
delivery_class (billing_not_paid id) = 22
delivery_class active_run_not_found = 23
delivery_class (delivery_run_not_found id) = 24
delivery_class (delivery_vehicle_not_found code) = 25
delivery_class (package_not_found id) = 26
delivery_class (package_not_deliverable id) = 27
delivery_class (package_not_handoffable id) = 28

abbrev exception_class : ExceptionError → ℕ
exception_class (exception_item_not_found id) = 29
exception_class (item_not_issuable id) = 30
exception_class (flow_template_not_found code) = 31
exception_class (approval_request_not_found id) = 32
exception_class approval_request_already_resolved = 33
exception_class approval_request_forbidden = 34
exception_class (pending_route_change_exists id) = 35
exception_class (exception_flow_active id) = 36
exception_class (route_change_request_not_found id) = 37
exception_class route_change_request_already_resolved = 38
exception_class route_change_request_forbidden = 39

-- The number of the subclass.
abbrev pub class_of : DomainError → ℕ
class_of (of_route e) = route_class e
class_of (of_wash e) = wash_class e
class_of (of_billing e) = billing_class e
class_of (of_delivery e) = delivery_class e
class_of (of_exception e) = exception_class e

-- The subclass with a code.
abbrev class_by : List (String × ℕ) → String → Option ℕ
class_by [] code = none
class_by ((c, n) ∷ rest) code =
    let later = class_by rest code in if str_eq code c then some n else later

abbrev codes : List (String × ℕ)
codes =
    ("ROUTE_INVALID_CODE", 0)
    ∷ ("ROUTE_NO_ACTIVE_PLAN", 1)
    ∷ ("ROUTE_PLAN_ALREADY_EXISTS", 2)
    ∷ ("ROUTE_STEP_NOT_IN_PROGRESS", 3)
    ∷ ("ROUTE_OVERRIDE_NOT_IMPLEMENTED", 4)
    ∷ ("WASH_BAG_NOT_AT_FACTORY", 5)
    ∷ ("WASH_ITEM_NOT_TAGGABLE", 6)
    ∷ ("WASH_ITEM_NOT_ASSIGNABLE", 7)
    ∷ ("WASH_ITEM_NOT_SCANNABLE", 8)
    ∷ ("WASH_ITEM_AWAITING_CUSTOMER_DECISION", 9)
    ∷ ("WASH_ITEM_HAS_PENDING_ROUTE_CHANGE", 10)
    ∷ ("WASH_TAG_BARCODE_CONFLICT", 11)
    ∷ ("WASH_ITEM_NOT_FOUND", 12)
    ∷ ("WASH_BAG_NOT_FOUND", 13)
    ∷ ("WASH_ORDER_NOT_FOUND", 14)
    ∷ ("WASH_TAG_NOT_FOUND", 15)
    ∷ ("BILLING_REQUEST_NOT_FOUND", 16)
    ∷ ("BILLING_ALREADY_RESOLVED", 17)
    ∷ ("BILLING_REQUEST_FORBIDDEN", 18)
    ∷ ("DELIVERY_ITEM_NOT_FOUND", 19)
    ∷ ("DELIVERY_ITEM_NOT_DELIVERABLE", 20)
    ∷ ("DELIVERY_ITEM_NOT_HANDOFFABLE", 21)
    ∷ ("DELIVERY_BILLING_NOT_PAID", 22)
    ∷ ("DELIVERY_ACTIVE_RUN_NOT_FOUND", 23)
    ∷ ("DELIVERY_RUN_NOT_FOUND", 24)
    ∷ ("DELIVERY_VEHICLE_NOT_FOUND", 25)
    ∷ ("DELIVERY_PACKAGE_NOT_FOUND", 26)
    ∷ ("DELIVERY_PACKAGE_NOT_DELIVERABLE", 27)
    ∷ ("DELIVERY_PACKAGE_NOT_HANDOFFABLE", 28)
    ∷ ("EXCEPTION_ITEM_NOT_FOUND", 29)
    ∷ ("EXCEPTION_ITEM_NOT_ISSUABLE", 30)
    ∷ ("EXCEPTION_FLOW_TEMPLATE_NOT_FOUND", 31)
    ∷ ("EXCEPTION_APPROVAL_REQUEST_NOT_FOUND", 32)
    ∷ ("EXCEPTION_APPROVAL_REQUEST_ALREADY_RESOLVED", 33)
    ∷ ("EXCEPTION_APPROVAL_REQUEST_FORBIDDEN", 34)
    ∷ ("EXCEPTION_PENDING_ROUTE_CHANGE_EXISTS", 35)
    ∷ ("EXCEPTION_FLOW_ACTIVE", 36)
    ∷ ("EXCEPTION_ROUTE_CHANGE_REQUEST_NOT_FOUND", 37)
    ∷ ("EXCEPTION_ROUTE_CHANGE_REQUEST_ALREADY_RESOLVED", 38)
    ∷ ("EXCEPTION_ROUTE_CHANGE_REQUEST_FORBIDDEN", 39)
    ∷ []

route-class :
    (e : RouteError) → class_by codes (code_of (of_route e)) ≡ some (class_of (of_route e))
unfolding code_of
route-class (invalid_route_code code) = refl
route-class (no_active_plan id) = refl
route-class (plan_already_exists id) = refl
route-class step_not_in_progress = refl
route-class override_step_not_implemented = refl

wash-class : (e : WashError) → class_by codes (code_of (of_wash e)) ≡ some (class_of (of_wash e))
unfolding code_of
wash-class (bag_not_at_factory barcode) = refl
wash-class (item_not_taggable id) = refl
wash-class (item_not_assignable id) = refl
wash-class (item_not_scannable id) = refl
wash-class (item_awaiting_customer_decision id) = refl
wash-class (item_has_pending_route_change id) = refl
wash-class (tag_barcode_conflict barcode) = refl
wash-class (wash_item_not_found id) = refl
wash-class (wash_bag_not_found barcode) = refl
wash-class (wash_order_not_found id) = refl
wash-class (tag_not_found barcode) = refl

billing-class :
    (e : BillingError) → class_by codes (code_of (of_billing e)) ≡ some (class_of (of_billing e))
unfolding code_of
billing-class (billing_request_not_found id) = refl
billing-class (billing_already_resolved id) = refl
billing-class billing_request_forbidden = refl

delivery-class :
    (e : DeliveryError) → class_by codes (code_of (of_delivery e)) ≡ some (class_of (of_delivery e))
unfolding code_of
delivery-class (delivery_item_not_found barcode) = refl
delivery-class (item_not_deliverable id status) = refl
delivery-class (item_not_handoffable id status) = refl
delivery-class (billing_not_paid id) = refl
delivery-class active_run_not_found = refl
delivery-class (delivery_run_not_found id) = refl
delivery-class (delivery_vehicle_not_found code) = refl
delivery-class (package_not_found id) = refl
delivery-class (package_not_deliverable id) = refl
delivery-class (package_not_handoffable id) = refl

exception-class :
    (e : ExceptionError)
    → class_by codes (code_of (of_exception e)) ≡ some (class_of (of_exception e))
unfolding code_of
exception-class (exception_item_not_found id) = refl
exception-class (item_not_issuable id) = refl
exception-class (flow_template_not_found code) = refl
exception-class (approval_request_not_found id) = refl
exception-class approval_request_already_resolved = refl
exception-class approval_request_forbidden = refl
exception-class (pending_route_change_exists id) = refl
exception-class (exception_flow_active id) = refl
exception-class (route_change_request_not_found id) = refl
exception-class route_change_request_already_resolved = refl
exception-class route_change_request_forbidden = refl

code_of-class : (e : DomainError) → class_by codes (code_of e) ≡ some (class_of e)
code_of-class (of_route e) = route-class e
code_of-class (of_wash e) = wash-class e
code_of-class (of_billing e) = billing-class e
code_of-class (of_delivery e) = delivery-class e
code_of-class (of_exception e) = exception-class e

-- The code of a domain error determines its subclass: two errors with one code are of one subclass,
-- whatever their arguments.
pub code_of-inj : (e f : DomainError) → code_of e ≡ code_of f → class_of e ≡ class_of f
code_of-inj e f same = cc (code_of-class e, code_of-class f)
