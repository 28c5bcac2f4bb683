-- ===== src/Delivery/Types.antt =====
-- The tables of the delivery module (prisma/schema.prisma) and delivery.types.ts.
use laundry_api.Base.{ℕ, String, Bool, Option, List}
use laundry_api.Billing.Types.{BillingRow}
use laundry_api.Orders.Types.{
  FulfillmentType, LaundryOrder, OrderItem, OrderItemLocation, OrderItemStatus, OrderStatus,
}
use laundry_api.Route.Db.{AuditLog}

pub record ItemPackage : Type 0 where
  pub id : ℕ
  pub order_id : ℕ
  pub created_at : ℕ

pub record DeliveryVehicle : Type 0 where
  pub id : ℕ
  pub code : String
  pub display_name : String
  pub active : Bool

-- The column is a text, to which the code writes only these two.
pub data DeliveryRunStatus : Type 0 where
  active closed : DeliveryRunStatus

pub record DeliveryRun : Type 0 where
  pub id : ℕ
  pub staff_id : String
  pub vehicle_id : ℕ
  pub status : DeliveryRunStatus
  pub created_at : ℕ
  pub closed_at : Option ℕ

pub record DeliveryRunItem : Type 0 where
  pub run_id : ℕ
  pub order_item_id : ℕ

pub record DeliveryHandoffPhoto : Type 0 where
  pub id : ℕ
  pub package_id : ℕ
  pub url : String
  pub created_at : ℕ
  pub updated_at : ℕ

pub record DeliveryDb : Type 0 where
  pub orders : List LaundryOrder
  pub order_items : List OrderItem
  pub item_packages : List ItemPackage
  pub delivery_vehicles : List DeliveryVehicle
  pub delivery_runs : List DeliveryRun
  pub delivery_run_items : List DeliveryRunItem
  pub handoff_photos : List DeliveryHandoffPhoto
  pub billing_requests : List BillingRow
  pub audit_logs : List AuditLog

pub record DeliveryRunView : Type 0 where
  pub id : ℕ
  pub staff_id : String
  pub vehicle_code : String
  pub vehicle_display_name : String
  pub status : DeliveryRunStatus
  pub created_at : ℕ
  pub closed_at : Option ℕ

pub record DeliveryPackageItem : Type 0 where
  pub item_id : ℕ
  pub tag_barcode : Option String
  pub catalog_item_code : String
  pub display_name_snapshot : String
  pub status : OrderItemStatus

pub record DeliveryPackageView : Type 0 where
  pub package_id : ℕ
  pub order_id : ℕ
  pub address : Option String
  pub phone_number : Option String
  pub fulfillment_type : Option FulfillmentType
  pub fulfillment_option_code : Option String
  pub pickup_delivery_place_code : Option String
  pub pickup_delivery_place_text : Option String
  pub items : List DeliveryPackageItem
  pub handoff_photo : Option DeliveryHandoffPhoto

-- An item of the result of a scan or of a handoff.
pub record PlacedItem : Type 0 where
  pub item_id : ℕ
  pub status : OrderItemStatus
  pub location : OrderItemLocation

pub record PackageScanOutboundResult : Type 0 where
  pub package_id : ℕ
  pub order_id : ℕ
  pub items : List PlacedItem

pub record PackageHandoffResult : Type 0 where
  pub package_id : ℕ
  pub order_id : ℕ
  pub items : List PlacedItem
  pub order_status : OrderStatus
