-- ===== src/Tests/Delivery.antt =====
-- The theorems on the delivery module at work: an order of two items, one of which is delivered.
use laundry_api.Base.{◌≡◌, refl, ap, subst, true, some, none, List, [], ◌∷◌, Memᴰ, arith}
use laundry_api.Base.Int.{pos}
use laundry_api.Store.InOrder.{in_order}
use laundry_api.Store.Many.{find_many}
use laundry_api.Tx.{Returns, ok}
use laundry_api.Orders.Types.{
  LaundryOrder, OrderItem, OrderItemLocation, OrderItemStatus, OrderStatus, in_package,
}
use laundry_api.Orders.Selected.{HasUniqueIds}
use laundry_api.Route.Db.{Env}
use laundry_api.Route.Types.{ActorContext, ActorType}
use laundry_api.Delivery.Types.{
  DeliveryDb, DeliveryPackageView, DeliveryRun, DeliveryVehicle, ItemPackage,
}
use laundry_api.Delivery.Repository.{
  count_waiting_billings, find_active_run, find_package_by_id, to_package_view, to_run_view,
}
use laundry_api.Delivery.Packages.{
  hand_off_items, handoff_item, handoff_package, load_items, scan_outbound, scan_outbound_rows,
}
use laundry_api.Delivery.Packages.Gate.{IsUnpaid, after_loading, loading_result}
use laundry_api.Delivery.Packages.Find.{IsViewOf}
use laundry_api.Delivery.Packages.Handoff.{IsHandedOff, after_handoff, handoff_result}
use laundry_api.Delivery.Packages.LastPackage.{handoff_item-IsHandedOff}
use laundry_api.Delivery.Packages.Loading.{IsLoaded, scan_outbound-IsLoaded}
use laundry_api.Delivery.Packages.Outbound.{
  IsLoadedBefore, Decided, IsDeliverable, scan_outbound-Decided,
}
use laundry_api.Delivery.Machine.{
  DeliveryReach, DeliveryReach-Keeps, Keeps, created, handed, scanned, start, then,
}
use laundry_api.Delivery.Runs.{create_run, new_run, open_run}
use laundry_api.Delivery.Runs.AtMostOne.{HasOneRun, with_run}
use laundry_api.Delivery.Runs.Again.{create_run-twice}
use laundry_api.Tests.Tables.{IsUnique-Ascending}

abbrev driver : ActorContext
driver = record { actor_type = ActorType.staff; actor_id = "d1"; staff_role = none }

abbrev shirt : OrderItem
shirt = record {
  id = 10;
  order_id = 3;
  catalog_item_code = "SHIRT";
  display_name_snapshot = "Shirt";
  status = OrderItemStatus.ready_for_delivery;
  location = OrderItemLocation.in_house;
  tag_barcode = some "T10";
  estimated_min_amount = pos 3000;
  package_id = some 5;
}

abbrev coat : OrderItem
coat = record shirt {
  id = 11;
  tag_barcode = some "T11";
  status = OrderItemStatus.processing;
  package_id = none;
}

abbrev order_of_two : LaundryOrder
order_of_two = record {
  id = 3;
  customer_id = "c1";
  status = OrderStatus.processing;
  fulfillment_type = none;
  fulfillment_option_code = none;
  address = some "1 Main Street";
  phone_number = none;
  pickup_delivery_place_code = none;
  pickup_delivery_place_text = none;
}

abbrev parcel : ItemPackage
parcel = record { id = 5; order_id = 3; created_at = 800 }

abbrev van : DeliveryVehicle
van = record { id = 20; code = "V1"; display_name = "Van"; active = true }

abbrev morning : Env
morning = record { new_id = 30; now = 900 }

abbrev noon : Env
noon = record { new_id = 31; now = 1200 }

-- Before the first run.
abbrev waiting_db : DeliveryDb
waiting_db = record {
  orders = order_of_two ∷ [];
  order_items = shirt ∷ coat ∷ [];
  item_packages = parcel ∷ [];
  delivery_vehicles = van ∷ [];
  delivery_runs = [];
  delivery_run_items = [];
  handoff_photos = [];
  billing_requests = [];
  audit_logs = [];
}

abbrev run_of_driver : DeliveryRun
run_of_driver = new_run morning "d1" 20

-- The driver has a run.
abbrev van_db : DeliveryDb
van_db = with_run waiting_db run_of_driver

-- The package is in the van.
abbrev loaded_db : DeliveryDb
loaded_db = after_loading ⦃prisma = in_order⦄ parcel 30 driver van_db

abbrev parcel_view : List OrderItem → DeliveryPackageView
parcel_view items = to_package_view parcel order_of_two items none

shown_parcel :
    find_package_by_id ⦃prisma = in_order⦄ van_db 5 ≡ ok (some (parcel_view (shirt ∷ [])))
unfolding find_package_by_id find_many
shown_parcel = refl

running : find_active_run ⦃prisma = in_order⦄ van_db "d1" ≡ some run_of_driver
unfolding find_active_run
running = refl

ready_parcel :
    (x : OrderItem)
    → Memᴰ x (shirt ∷ coat ∷ [])
    → in_package 5 x ≡ true
    → x.status ≡ OrderItemStatus.ready_for_delivery
ready_parcel x (Memᴰ.head e) t = ap (λ (z : OrderItem). z.status) e
ready_parcel x (Memᴰ.tail (Memᴰ.head e)) t = absurd (cc (subst (λ z. in_package 5 z ≡ true) e t))
ready_parcel x (Memᴰ.tail (Memᴰ.tail n)) t = elim n [ ]

paid_parcel : ¬ IsUnpaid 3 van_db
paid_parcel (b, m, same, waits) = elim m [ ]

deliverable :
    IsDeliverable ⦃prisma = in_order⦄ 5 driver van_db (parcel_view (shirt ∷ [])) run_of_driver
deliverable = record {
  shown = shown_parcel;
  ready = ready_parcel;
  paid = paid_parcel;
  running = running;
}

not_loaded : ¬ IsLoadedBefore 5 van_db
not_loaded (x, m, inside, before) = absurd (cc before)

unique_items : HasUniqueIds (shirt ∷ coat ∷ [])
unique_items id = IsUnique-Ascending (λ i. i.id) (shirt ∷ coat ∷ []) id (omega arith)

scan_outbound-Decided_example :
    Decided ⦃prisma = in_order⦄ 5 driver van_db (scan_outbound ⦃prisma = in_order⦄ 5 driver van_db)
scan_outbound-Decided_example = scan_outbound-Decided ⦃prisma = in_order⦄ 5 driver van_db

scan_outbound-IsLoaded_example :
    Returns
      (λ r db'. IsLoaded ⦃prisma = in_order⦄ 5 driver van_db 30 db')
      (scan_outbound ⦃prisma = in_order⦄ 5 driver van_db)
scan_outbound-IsLoaded_example =
    scan_outbound-IsLoaded ⦃prisma = in_order⦄ 5 driver van_db unique_items
      (parcel_view (shirt ∷ [])) run_of_driver deliverable not_loaded

-- The handoff.
abbrev shirt_in_van : OrderItem
shirt_in_van = record shirt {
  status = OrderItemStatus.delivering;
  location = OrderItemLocation.delivering_truck;
}

shown_loaded :
    find_package_by_id ⦃prisma = in_order⦄ loaded_db 5 ≡ ok (some (parcel_view (shirt_in_van ∷ [])))
unfolding find_package_by_id find_many
shown_loaded = refl

unique_loaded : HasUniqueIds loaded_db.order_items
unfolding find_many
unique_loaded id = IsUnique-Ascending (λ i. i.id) (shirt_in_van ∷ coat ∷ []) id (omega arith)

delivering_parcel :
    (x : OrderItem)
    → Memᴰ x (shirt_in_van ∷ coat ∷ [])
    → in_package 5 x ≡ true
    → x.status ≡ OrderItemStatus.delivering
delivering_parcel x (Memᴰ.head e) t = ap (λ (z : OrderItem). z.status) e
delivering_parcel x (Memᴰ.tail (Memᴰ.head e)) t =
    absurd (cc (subst (λ z. in_package 5 z ≡ true) e t))
delivering_parcel x (Memᴰ.tail (Memᴰ.tail n)) t = elim n [ ]

abbrev parcel_of : IsViewOf ⦃prisma = in_order⦄ loaded_db 5 (parcel_view (shirt_in_van ∷ []))
unfolding find_many
parcel_of = record { pkg = parcel; found = refl; same_id = refl; same_order = refl; items = refl }

handoff_item-IsHandedOff_example :
    Returns
      (λ r db'. IsHandedOff ⦃prisma = in_order⦄ parcel loaded_db db')
      (handoff_item ⦃prisma = in_order⦄ 5 driver loaded_db)
unfolding find_many
handoff_item-IsHandedOff_example =
    handoff_item-IsHandedOff ⦃prisma = in_order⦄ 5 driver loaded_db unique_loaded
      (parcel_view (shirt_in_van ∷ [])) parcel_of shown_loaded delivering_parcel shirt_in_van
      order_of_two (Memᴰ.head refl) refl refl (Memᴰ.head refl) refl

-- Three calls.
no_runs : HasOneRun []
no_runs = record {
  per_staff = λ staff x y m t n u. elim m [ ];
  per_vehicle = λ vehicle x y m t n u. elim m [ ];
}

opens_run :
    create_run ⦃prisma = in_order⦄ morning "d1" "V1" waiting_db
    ≡ ok (to_run_view run_of_driver van, van_db)
unfolding create_run open_run
opens_run = refl

loads_parcel :
    scan_outbound ⦃prisma = in_order⦄ 5 driver van_db
    ≡ ok (loading_result ⦃prisma = in_order⦄ parcel van_db, loaded_db)
unfolding scan_outbound scan_outbound_rows load_items find_package_by_id find_many find_active_run
    count_waiting_billings
loads_parcel = refl

abbrev delivered_db : DeliveryDb
delivered_db = after_handoff ⦃prisma = in_order⦄ parcel driver loaded_db

hands_parcel :
    handoff_item ⦃prisma = in_order⦄ 5 driver loaded_db
    ≡ ok (handoff_result ⦃prisma = in_order⦄ parcel driver loaded_db, delivered_db)
unfolding handoff_item handoff_package hand_off_items find_package_by_id find_many
hands_parcel = refl

morning_round : DeliveryReach ⦃prisma = in_order⦄ waiting_db delivered_db
morning_round =
    then
      (then (then start (created morning "d1" "V1" (to_run_view run_of_driver van) opens_run))
        (scanned 5 driver (loading_result ⦃prisma = in_order⦄ parcel van_db) loads_parcel))
      (handed 5 driver (handoff_result ⦃prisma = in_order⦄ parcel driver loaded_db) hands_parcel)

DeliveryReach-Keeps_example : Keeps ⦃prisma = in_order⦄ waiting_db delivered_db
DeliveryReach-Keeps_example =
    DeliveryReach-Keeps ⦃prisma = in_order⦄ (record { one_run = no_runs; unique = unique_items })
      morning_round

create_run-twice_example :
    create_run ⦃prisma = in_order⦄ noon "d1" "V1" van_db
    ≡ ok (to_run_view run_of_driver van, van_db)
create_run-twice_example =
    create_run-twice ⦃prisma = in_order⦄ morning "d1" waiting_db noon "V1" no_runs opens_run
