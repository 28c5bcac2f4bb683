-- ===== src/Errors.antt =====
-- What a call can throw: the subclasses of `DomainError` in each module's errors.ts, with the
-- arguments of their constructors, and the errors of the framework and of the Prisma client.
pub mod Codes
pub mod Messages
pub mod Classify
pub mod Contract
pub mod Masking
use laundry_api.Base.{ℕ, String, List}

-- route-engine.errors.ts.
pub data RouteError : Type 0 where
  invalid_route_code : String → RouteError
  no_active_plan : ℕ → RouteError
  plan_already_exists : ℕ → RouteError
  step_not_in_progress : RouteError
  override_step_not_implemented : RouteError

-- wash.errors.ts.
pub data WashError : Type 0 where
  bag_not_at_factory : String → WashError
  item_not_taggable : ℕ → WashError
  item_not_assignable : ℕ → WashError
  item_not_scannable : ℕ → WashError
  item_awaiting_customer_decision : ℕ → WashError
  item_has_pending_route_change : ℕ → WashError
  tag_barcode_conflict : String → WashError
  wash_item_not_found : ℕ → WashError
  wash_bag_not_found : String → WashError
  wash_order_not_found : ℕ → WashError
  tag_not_found : String → WashError

-- billing.errors.ts.
pub data BillingError : Type 0 where
  billing_request_not_found : ℕ → BillingError
  billing_already_resolved : ℕ → BillingError
  billing_request_forbidden : BillingError

-- delivery.errors.ts.
pub data DeliveryError : Type 0 where
  delivery_item_not_found : String → DeliveryError
  item_not_deliverable : ℕ → String → DeliveryError
  item_not_handoffable : ℕ → String → DeliveryError
  billing_not_paid : ℕ → DeliveryError
  active_run_not_found : DeliveryError
  delivery_run_not_found : ℕ → DeliveryError
  delivery_vehicle_not_found : String → DeliveryError
  package_not_found : ℕ → DeliveryError
  package_not_deliverable : ℕ → DeliveryError
  package_not_handoffable : ℕ → DeliveryError

-- exception.errors.ts.
pub data ExceptionError : Type 0 where
  exception_item_not_found : ℕ → ExceptionError
  item_not_issuable : ℕ → ExceptionError
  flow_template_not_found : String → ExceptionError
  approval_request_not_found : ℕ → ExceptionError
  approval_request_already_resolved : ExceptionError
  approval_request_forbidden : ExceptionError
  pending_route_change_exists : ℕ → ExceptionError
  exception_flow_active : ℕ → ExceptionError
  route_change_request_not_found : ℕ → ExceptionError
  route_change_request_already_resolved : ExceptionError
  route_change_request_forbidden : ExceptionError

-- `DomainError`, by the module that declares the subclass.
pub data DomainError : Type 0 where
  of_route : RouteError → DomainError
  of_wash : WashError → DomainError
  of_billing : BillingError → DomainError
  of_delivery : DeliveryError → DomainError
  of_exception : ExceptionError → DomainError

-- The body of an `HttpException`: a text, an object whose `message` is a text or a list of texts,
-- or an object without one.
pub data HttpBody : Type 0 where
  text_body message_body : String → HttpBody
  messages_body : List String → HttpBody
  other_body : HttpBody

-- What a call can throw: a domain error, an `HttpException` of the framework with its status, body
-- and message, a known request error of the Prisma client with its code, or anything else.
pub data Thrown : Type 0 where
  domain : DomainError → Thrown
  http : ℕ → HttpBody → String → Thrown
  known_request : String → Thrown
  type_error : Thrown

-- A thrown value with the text of its own `message`. Those of a domain error and of an
-- `HttpException` follow from what they carry; the one of any other value is free.
pub record Exception : Type 0 where
  pub thrown : Thrown
  pub own_message : String
