-- ===== src/Tests/Pickup.antt =====
-- The theorems on the pickup module at work: a run that collects one order in one bag.
use laundry_api.Base.{◌≡◌, refl, true, some, none, [], ◌∷◌, arith}
use laundry_api.Base.Int.{pos}
use laundry_api.Store.InOrder.{in_order}
use laundry_api.Store.Many.{find_many}
use laundry_api.Tx.{ok}
use laundry_api.Orders.Selected.{HasUniqueIds}
use laundry_api.Orders.Types.{
  LaundryOrder, OrderItem, OrderItemLocation, OrderItemStatus, OrderStatus,
}
use laundry_api.Route.Db.{Env}
use laundry_api.Pickup.Types.{
  PickupBag, PickupBagStatus, PickupContainmentResult, PickupDb, PickupHandoffResult, PickupPhoto,
  PickupRun, PickupRunStatus, PickupVehicle,
}
use laundry_api.Pickup.Runs.{
  create_run, load_active_run_for_staff, new_run, open_run, to_run_result,
}
use laundry_api.Pickup.Runs.OneRun.{with_run}
use laundry_api.Pickup.Bags.{
  bagged_items, check_order, contain_items, finish_run, hand_off_bag, handoff_bag,
  put_items_into_bag, record_pickup_photo, register_bag, to_bag_result, unique_ids,
}
use laundry_api.Pickup.Bags.Effects.{brought_in}
use laundry_api.Pickup.Bags.Collect.{IsCollected, put_items_into_bag-IsCollected}
use laundry_api.Pickup.Bags.HandIn.{IsHandedIn, handoff_bag-IsHandedIn}
use laundry_api.Pickup.Machine.{
  IsSound, PickupReach, bag_registered, contained, created, handed, photographed, start, then,
}
use laundry_api.Pickup.Machine.Invariant.{Keeps}
use laundry_api.Pickup.Machine.Steps.{PickupReach-Keeps}
use laundry_api.Tests.Tables.{IsUnique-Ascending}

abbrev dress : OrderItem
dress = record {
  id = 10;
  order_id = 3;
  catalog_item_code = "DRESS";
  display_name_snapshot = "Dress";
  status = OrderItemStatus.init;
  location = OrderItemLocation.customer_pick_up;
  tag_barcode = none;
  estimated_min_amount = pos 9000;
  package_id = none;
}

abbrev request_of_one : LaundryOrder
request_of_one = record {
  id = 3;
  customer_id = "c1";
  status = OrderStatus.request;
  fulfillment_type = none;
  fulfillment_option_code = none;
  address = some "1 Main Street";
  phone_number = none;
  pickup_delivery_place_code = none;
  pickup_delivery_place_text = none;
}

abbrev ready_bag : PickupBag
ready_bag = record {
  id = 7;
  barcode = "B7";
  status = PickupBagStatus.ready;
  active = true;
  current_run_id = none;
}

abbrev truck : PickupVehicle
truck = record { id = 20; code = "P1"; display_name = "Truck"; active = true }

abbrev at_nine : Env
at_nine = record { new_id = 30; now = 900 }

abbrev at_ten : Env
at_ten = record { new_id = 31; now = 1000 }

abbrev idle_db : PickupDb
idle_db = record {
  staff = "s1" ∷ [];
  orders = request_of_one ∷ [];
  order_items = dress ∷ [];
  pickup_vehicles = truck ∷ [];
  pickup_runs = [];
  pickup_bags = ready_bag ∷ [];
  pickup_bag_items = [];
  pickup_photos = [];
}

abbrev run_of_s1 : PickupRun
run_of_s1 = new_run at_nine "s1" 20

abbrev running_db : PickupDb
running_db = with_run idle_db run_of_s1

abbrev bag_out : PickupBag
bag_out = record ready_bag { status = PickupBagStatus.take_out; current_run_id = some 30 }

abbrev registered_db : PickupDb
registered_db = record running_db { pickup_bags = bag_out ∷ [] }

abbrev photo_of_order : PickupPhoto
photo_of_order = record {
  id = 31;
  order_id = 3;
  pickup_run_id = 30;
  staff_id = "s1";
  photo_url = "p";
  created_at = 1000;
}

abbrev photo_db : PickupDb
photo_db = record registered_db { pickup_photos = photo_of_order ∷ [] }

abbrev contained_db : PickupDb
unfolding unique_ids
contained_db = contain_items 30 3 bag_out (unique_ids (10 ∷ [])) photo_db

abbrev bag_full : PickupBag
bag_full = record bag_out { status = PickupBagStatus.contain }

abbrev home_db : PickupDb
home_db = finish_run at_ten 30 (brought_in ⦃prisma = in_order⦄ contained_db bag_full 30)

abbrev containment : PickupContainmentResult
containment = record {
  run_id = 30;
  bag = to_bag_result bag_full;
  order_id = 3;
  order_status = OrderStatus.pick_up;
  items = bagged_items OrderItemLocation.pick_up_truck (10 ∷ []);
}

abbrev hand_in : PickupHandoffResult
hand_in = record {
  run_id = 30;
  run_status = PickupRunStatus.returned;
  bag = to_bag_result (record bag_full { status = PickupBagStatus.take_back });
  order_ids = 3 ∷ [];
  items = bagged_items OrderItemLocation.in_house (10 ∷ []);
}

opens_run :
    create_run ⦃prisma = in_order⦄ at_nine "s1" "P1" idle_db
    ≡ ok (to_run_result run_of_s1 truck, running_db)
unfolding create_run open_run
opens_run = refl

takes_bag :
    register_bag ⦃prisma = in_order⦄ "s1" 30 "B7" running_db
    ≡ ok (to_bag_result bag_out, registered_db)
unfolding register_bag load_active_run_for_staff
takes_bag = refl

takes_photo :
    record_pickup_photo ⦃prisma = in_order⦄ at_ten "s1" 30 3 "p" registered_db
    ≡ ok (photo_of_order, photo_db)
unfolding record_pickup_photo load_active_run_for_staff
takes_photo = refl

fills_bag :
    put_items_into_bag ⦃prisma = in_order⦄ "s1" 30 3 "B7" (10 ∷ []) photo_db
    ≡ ok (containment, contained_db)
unfolding put_items_into_bag check_order load_active_run_for_staff unique_ids find_many
fills_bag = refl

brings_bag :
    handoff_bag ⦃prisma = in_order⦄ at_ten "s1" 30 "B7" contained_db ≡ ok (hand_in, home_db)
unfolding handoff_bag hand_off_bag load_active_run_for_staff unique_ids find_many
brings_bag = refl

unique_items : HasUniqueIds (dress ∷ [])
unique_items id = IsUnique-Ascending (λ i. i.id) (dress ∷ []) id (omega arith)

sound : IsSound idle_db
sound = record {
  one_run = record {
    per_staff = λ staff x y m t n u. elim m [ ];
    per_vehicle = λ vehicle x y m t n u. elim m [ ];
  };
  unique_items = unique_items;
  unique_runs = λ id x y m t n u. elim m [ ];
  unique_bags = λ id. IsUnique-Ascending (λ b. b.id) (ready_bag ∷ []) id (omega arith);
  closed = λ r b m t n u. elim m [ ];
}

day : PickupReach ⦃prisma = in_order⦄ idle_db home_db
day =
    then
      (then
        (then
          (then
            (then start (
              created at_nine "s1" "P1" (to_run_result run_of_s1 truck) (λ r m. elim m [ ])
                opens_run))
            (bag_registered "s1" 30 "B7" (to_bag_result bag_out) takes_bag))
          (photographed at_ten "s1" 30 3 "p" photo_of_order takes_photo))
        (contained "s1" 30 3 "B7" (10 ∷ []) containment fills_bag))
      (handed at_ten "s1" 30 "B7" hand_in brings_bag)

PickupReach-Keeps_example : Keeps idle_db home_db
PickupReach-Keeps_example = PickupReach-Keeps ⦃prisma = in_order⦄ sound day

put_items_into_bag-IsCollected_example : IsCollected 3 photo_db contained_db
put_items_into_bag-IsCollected_example =
    put_items_into_bag-IsCollected ⦃prisma = in_order⦄ photo_db "s1" 30 3 "B7" (10 ∷ [])
      unique_items fills_bag

handoff_bag-IsHandedIn_example :
    (loaded : PickupRun) × (bag : PickupBag) × (bag.status ≡ PickupBagStatus.contain)
    × (loaded.id ≡ 30)
    × IsHandedIn ⦃prisma = in_order⦄ contained_db at_ten loaded.id bag home_db
handoff_bag-IsHandedIn_example =
    handoff_bag-IsHandedIn ⦃prisma = in_order⦄ contained_db at_ten "s1" 30 "B7" brings_bag
