-- ===== src/Wash/Types.antt =====
-- The tables of the wash module (prisma/schema.prisma), wash.types.ts, and the calls of the other
-- modules within a transaction of this one.
use laundry_api.Base.{ℕ, String, Option, List}
use laundry_api.Base.Int.{ℤ}
use laundry_api.Billing.Service.{EmitPayload}
use laundry_api.Billing.Types.{BillingDb}
use laundry_api.Delivery.Types.{ItemPackage}
use laundry_api.Orders.Types.{OrderItem, OrderItemLocation, OrderItemStatus}
use laundry_api.Route.Db.{Db}
use laundry_api.Route.Types.{CurrentStateView}
use laundry_api.Tx.{Tx, ok, err}

-- The column is a text.
pub record RouteChangeRequest : Type 0 where
  pub id : ℕ
  pub order_item_id : ℕ
  pub status : String

pub record WashDb : Type 0 where
  pub order_items : List OrderItem
  pub item_packages : List ItemPackage
  pub route_change_requests : List RouteChangeRequest
  -- The tables of the route engine, with the audit log.
  pub route : Db
  pub billing : BillingDb

-- Without the selected options and the inputs, which are copied from their rows.
pub record WashItemView : Type 0 where
  pub item_id : ℕ
  pub order_id : ℕ
  pub catalog_item_code : String
  pub display_name_snapshot : String
  pub status : OrderItemStatus
  pub location : OrderItemLocation
  pub tag_barcode : Option String
  pub estimated_min_amount : ℤ
  pub processing_state : Option CurrentStateView

pub record AssignRouteResult : Type 0 where
  pub item : WashItemView
  pub processing_state : CurrentStateView

-- With the payload that is sent after the transaction.
pub record ScanStepResult : Type 0 where
  pub item : WashItemView
  pub processing_state : CurrentStateView
  pub emit_payload : Option EmitPayload

pub record PackagedItem : Type 0 where
  pub item_id : ℕ
  pub tag_barcode : Option String

pub record PackageView : Type 0 where
  pub package_id : ℕ
  pub order_id : ℕ
  pub items : List PackagedItem
  pub created_at : ℕ

-- A call of the route engine with the transaction.
abbrev pub in_route : {A : Type 0} → Tx Db A → Tx WashDb A
in_route m db = elim (m db.route) [
  | err e ↦ err e
  | ok (a, route) ↦ ok (a, record db { route = route })
]

-- A call of the billing service with the transaction.
abbrev pub in_billing : {A : Type 0} → Tx BillingDb A → Tx WashDb A
in_billing m db = elim (m db.billing) [
  | err e ↦ err e
  | ok (a, billing) ↦ ok (a, record db { billing = billing })
]
