-- ===== src/Orders/Types.antt =====
-- The rows of `orders` and `order_items` (prisma/schema.prisma) and the enumerations in them.
use laundry_api.Base.{
  ℕ, String, Option, none, some, List, Bool, true, false, ◌==◌, ◌≡◌, refl, ap, sym, ◌∙◌, ==→eq,
  if◌then◌else◌,
}
use laundry_api.Base.Int.{ℤ}
use laundry_api.Store.Many.{contains}

pub data OrderStatus : Type 0 where
  request pick_up processing partial_finished finished : OrderStatus

pub data OrderItemStatus : Type 0 where
  init pick_up tagged sorted processing ready_to_package ready_for_delivery : OrderItemStatus
  delivering finished : OrderItemStatus

pub data OrderItemLocation : Type 0 where
  customer_pick_up pick_up_truck in_house premium vendor delivering_truck : OrderItemLocation
  customer_dest : OrderItemLocation

pub data FulfillmentType : Type 0 where
  delivery storage : FulfillmentType

pub record LaundryOrder : Type 0 where
  pub id : ℕ
  pub customer_id : String
  pub status : OrderStatus
  pub fulfillment_type : Option FulfillmentType
  pub fulfillment_option_code : Option String
  pub address : Option String
  pub phone_number : Option String
  pub pickup_delivery_place_code : Option String
  pub pickup_delivery_place_text : Option String

pub record OrderItem : Type 0 where
  pub id : ℕ
  pub order_id : ℕ
  pub catalog_item_code : String
  pub display_name_snapshot : String
  pub status : OrderItemStatus
  pub location : OrderItemLocation
  pub tag_barcode : Option String
  pub estimated_min_amount : ℤ
  pub package_id : Option ℕ

-- The position of a status in its enumeration.
abbrev pub item_rank : OrderItemStatus → ℕ
item_rank OrderItemStatus.init = 0
item_rank OrderItemStatus.pick_up = 1
item_rank OrderItemStatus.tagged = 2
item_rank OrderItemStatus.sorted = 3
item_rank OrderItemStatus.processing = 4
item_rank OrderItemStatus.ready_to_package = 5
item_rank OrderItemStatus.ready_for_delivery = 6
item_rank OrderItemStatus.delivering = 7
item_rank OrderItemStatus.finished = 8

abbrev pub order_rank : OrderStatus → ℕ
order_rank OrderStatus.request = 0
order_rank OrderStatus.pick_up = 1
order_rank OrderStatus.processing = 2
order_rank OrderStatus.partial_finished = 3
order_rank OrderStatus.finished = 4

abbrev pub location_rank : OrderItemLocation → ℕ
location_rank OrderItemLocation.customer_pick_up = 0
location_rank OrderItemLocation.pick_up_truck = 1
location_rank OrderItemLocation.in_house = 2
location_rank OrderItemLocation.premium = 3
location_rank OrderItemLocation.vendor = 4
location_rank OrderItemLocation.delivering_truck = 5
location_rank OrderItemLocation.customer_dest = 6

-- `===` on each enumeration.
abbrev pub same_item_status : OrderItemStatus → OrderItemStatus → Bool
same_item_status a b = item_rank a == item_rank b

abbrev pub same_order_status : OrderStatus → OrderStatus → Bool
same_order_status a b = order_rank a == order_rank b

abbrev pub same_location : OrderItemLocation → OrderItemLocation → Bool
same_location a b = location_rank a == location_rank b

abbrev item_of_rank : ℕ → OrderItemStatus
item_of_rank n =
    if n == 0
    then OrderItemStatus.init
    else if n == 1
    then OrderItemStatus.pick_up
    else if n == 2
    then OrderItemStatus.tagged
    else if n == 3
    then OrderItemStatus.sorted
    else if n == 4
    then OrderItemStatus.processing
    else if n == 5
    then OrderItemStatus.ready_to_package
    else if n == 6
    then OrderItemStatus.ready_for_delivery
    else if n == 7
    then OrderItemStatus.delivering
    else OrderItemStatus.finished

item_of_rank-item_rank : (s : OrderItemStatus) → item_of_rank (item_rank s) ≡ s
item_of_rank-item_rank OrderItemStatus.init = refl
item_of_rank-item_rank OrderItemStatus.pick_up = refl
item_of_rank-item_rank OrderItemStatus.tagged = refl
item_of_rank-item_rank OrderItemStatus.sorted = refl
item_of_rank-item_rank OrderItemStatus.processing = refl
item_of_rank-item_rank OrderItemStatus.ready_to_package = refl
item_of_rank-item_rank OrderItemStatus.ready_for_delivery = refl
item_of_rank-item_rank OrderItemStatus.delivering = refl
item_of_rank-item_rank OrderItemStatus.finished = refl

pub same_item_status→eq : (a b : OrderItemStatus) → same_item_status a b ≡ true → a ≡ b
same_item_status→eq a b h =
    sym (item_of_rank-item_rank a)
    ∙ ap item_of_rank (==→eq (item_rank a) (item_rank b) h)
    ∙ item_of_rank-item_rank b

-- `orderItem.updateMany({ where: { id: { in: ids } } })`.
abbrev pub in_ids : List ℕ → OrderItem → Bool
in_ids ids i = contains ids i.id

-- The item is connected to the package.
abbrev pub in_package : ℕ → OrderItem → Bool
in_package pkg i = elim i.package_id [ none ↦ false | some p ↦ p == pkg ]
