-- ===== src/Pickup/Types.antt =====
-- The tables of the pickup module (prisma/schema.prisma) and pickup.types.ts.
use laundry_api.Base.{
  ℕ, String, Bool, true, Option, List, ◌==◌, ◌≡◌, refl, sym, ap, ◌∙◌, ==→eq, if◌then◌else◌,
}
use laundry_api.Errors.{Thrown, http, message_body}
use laundry_api.Orders.Types.{
  LaundryOrder, OrderItem, OrderItemLocation, OrderItemStatus, OrderStatus,
}

pub record PickupVehicle : Type 0 where
  pub id : ℕ
  pub code : String
  pub display_name : String
  pub active : Bool

pub data PickupRunStatus : Type 0 where
  active returned : PickupRunStatus

pub record PickupRun : Type 0 where
  pub id : ℕ
  pub vehicle_id : ℕ
  pub staff_id : String
  pub status : PickupRunStatus
  pub started_at : ℕ
  pub ended_at : Option ℕ

pub data PickupBagStatus : Type 0 where
  ready take_out contain take_back : PickupBagStatus

pub record PickupBag : Type 0 where
  pub id : ℕ
  pub barcode : String
  pub status : PickupBagStatus
  pub active : Bool
  pub current_run_id : Option ℕ

pub record PickupBagItem : Type 0 where
  pub pickup_bag_id : ℕ
  pub pickup_run_id : ℕ
  pub order_id : ℕ
  pub order_item_id : ℕ

pub record PickupPhoto : Type 0 where
  pub id : ℕ
  pub order_id : ℕ
  pub pickup_run_id : ℕ
  pub staff_id : String
  pub photo_url : String
  pub created_at : ℕ

pub record PickupDb : Type 0 where
  pub staff : List String
  pub orders : List LaundryOrder
  pub order_items : List OrderItem
  pub pickup_vehicles : List PickupVehicle
  pub pickup_runs : List PickupRun
  pub pickup_bags : List PickupBag
  pub pickup_bag_items : List PickupBagItem
  pub pickup_photos : List PickupPhoto

pub record PickupRunResult : Type 0 where
  pub run_id : ℕ
  pub vehicle_code : String
  pub vehicle_display_name : String
  pub staff_id : String
  pub status : PickupRunStatus
  pub started_at : ℕ

pub record PickupBagResult : Type 0 where
  pub bag_id : ℕ
  pub barcode : String
  pub status : PickupBagStatus
  pub run_id : Option ℕ

-- An item of the result of a containment or of a handoff.
pub record BaggedItem : Type 0 where
  pub item_id : ℕ
  pub status : OrderItemStatus
  pub location : OrderItemLocation

pub record PickupContainmentResult : Type 0 where
  pub run_id : ℕ
  pub bag : PickupBagResult
  pub order_id : ℕ
  pub order_status : OrderStatus
  pub items : List BaggedItem

pub record PickupHandoffResult : Type 0 where
  pub run_id : ℕ
  pub run_status : PickupRunStatus
  pub bag : PickupBagResult
  pub order_ids : List ℕ
  pub items : List BaggedItem

abbrev pub bag_rank : PickupBagStatus → ℕ
bag_rank PickupBagStatus.ready = 0
bag_rank PickupBagStatus.take_out = 1
bag_rank PickupBagStatus.contain = 2
bag_rank PickupBagStatus.take_back = 3

-- `===` on the statuses of bags.
abbrev pub same_bag_status : PickupBagStatus → PickupBagStatus → Bool
same_bag_status a b = bag_rank a == bag_rank b

abbrev bag_of_rank : ℕ → PickupBagStatus
bag_of_rank n =
    if n == 0
    then PickupBagStatus.ready
    else if n == 1
    then PickupBagStatus.take_out
    else if n == 2
    then PickupBagStatus.contain
    else PickupBagStatus.take_back

bag_of_rank-bag_rank : (s : PickupBagStatus) → bag_of_rank (bag_rank s) ≡ s
bag_of_rank-bag_rank PickupBagStatus.ready = refl
bag_of_rank-bag_rank PickupBagStatus.take_out = refl
bag_of_rank-bag_rank PickupBagStatus.contain = refl
bag_of_rank-bag_rank PickupBagStatus.take_back = refl

pub same_bag_status→eq : (a b : PickupBagStatus) → same_bag_status a b ≡ true → a ≡ b
same_bag_status→eq a b h =
    sym (bag_of_rank-bag_rank a)
    ∙ ap bag_of_rank (==→eq (bag_rank a) (bag_rank b) h)
    ∙ bag_of_rank-bag_rank b

-- `new BadRequestException(message)` and the others, by their status.
abbrev pub refuse : ℕ → String → Thrown
refuse status message = http status (message_body message) message
