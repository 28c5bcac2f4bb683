-- ===== src/Pickup/Bags.antt =====
-- `registerBag`, `recordPickupPhoto`, `putItemsIntoBag` and `handoffBag` of
-- prisma-pickup.repository.ts.
pub mod Effects
pub mod Ids
pub mod Collect
pub mod HandIn
use laundry_api.Base.{
  ℕ, String, Bool, true, false, Option, none, some, List, [], ◌∷◌, ◌++◌, ◌==◌, ◌&&◌, not, some_of,
  str_eq, if◌then◌else◌, count, every, filter_by, length, ltb, map, update_where, sort_by,
}
use laundry_api.Store.{Prisma}
use laundry_api.Store.Many.{contains, find_many}
use laundry_api.Tx.{Tx, ◌>>=◌, ◌>>◌, pure, gets, modify, require, throw, throw_if}
use laundry_api.Route.Db.{Env}
use laundry_api.Orders.Types.{
  LaundryOrder, OrderItem, OrderItemLocation, OrderItemStatus, OrderStatus, in_ids,
  same_item_status, same_location, same_order_status,
}
use laundry_api.Pickup.Types.{
  BaggedItem, PickupBag, PickupBagItem, PickupBagResult, PickupBagStatus, PickupContainmentResult,
  PickupDb, PickupHandoffResult, PickupPhoto, PickupRun, PickupRunStatus, refuse, same_bag_status,
}
use laundry_api.Pickup.Runs.{load_active_run_for_staff}

-- `toBagResult`.
abbrev pub to_bag_result : PickupBag → PickupBagResult
to_bag_result bag = record {
  bag_id = bag.id;
  barcode = bag.barcode;
  status = bag.status;
  run_id = bag.current_run_id;
}

-- `where: { barcode, active: true }`.
abbrev pub active_bag : String → PickupBag → Bool
active_bag barcode b = str_eq b.barcode barcode && b.active

-- `currentRunId === runId`.
abbrev pub on_run : ℕ → PickupBag → Bool
on_run run b = elim b.current_run_id [ none ↦ false | some r ↦ r == run ]

-- `pickupBag.update({ where: { id }, data: { status } })`.
abbrev pub update_bag : ℕ → (PickupBag → PickupBag) → PickupDb → PickupDb
update_bag id f db = record db { pickup_bags = update_where (λ b. b.id == id) f db.pickup_bags }

-- `[...new Set(ids)]`.
unfoldable pub unique_ids : List ℕ → List ℕ
unique_ids [] = []
unique_ids (x ∷ xs) = x ∷ filter_by (λ y. not (y == x)) (unique_ids xs)

-- The ids are unique and there is one.
abbrev pub valid_ids : List ℕ → Bool
valid_ids ids = length (unique_ids ids) == length ids && ltb 0 (length (unique_ids ids))

abbrev pub same_list : List ℕ → List ℕ → Bool
same_list [] [] = true
same_list [] (y ∷ ys) = false
same_list (x ∷ xs) [] = false
same_list (x ∷ xs) (y ∷ ys) = x == y && same_list xs ys

-- `a.sort().join('|') === b.sort().join('|')`: no id has a bar in it.
abbrev pub same_ids : List ℕ → List ℕ → Bool
same_ids a b = same_list (sort_by (λ n. n) a) (sort_by (λ n. n) b)

abbrev pub is_at : OrderItemStatus → OrderItemLocation → OrderItem → Bool
is_at status location i = same_item_status i.status status && same_location i.location location

-- The items' new place.
abbrev pub bagged_items : OrderItemLocation → List ℕ → List BaggedItem
bagged_items location ids =
    map (λ id. record { item_id = id; status = OrderItemStatus.pick_up; location = location }) ids

-- What `putItemsIntoBag` writes.
abbrev pub contain_items : ℕ → ℕ → PickupBag → List ℕ → PickupDb → PickupDb
contain_items run order bag ids db =
    update_bag bag.id (λ b. record b { status = PickupBagStatus.contain })
      (record db {
        pickup_bag_items =
            db.pickup_bag_items
            ++ map
                (λ id. record {
                  pickup_bag_id = bag.id;
                  pickup_run_id = run;
                  order_id = order;
                  order_item_id = id;
                })
                ids;
        order_items =
            update_where (in_ids ids)
              (λ i. record i {
                status = OrderItemStatus.pick_up;
                location = OrderItemLocation.pick_up_truck;
              })
              db.order_items;
        orders =
            update_where (λ o. o.id == order) (λ o. record o { status = OrderStatus.pick_up })
              db.orders;
      })

-- What `handoffBag` writes before it looks at the bags that remain.
abbrev pub bring_in : PickupBag → List ℕ → List ℕ → PickupDb → PickupDb
bring_in bag ids order_ids db =
    update_bag bag.id (λ b. record b { status = PickupBagStatus.take_back })
      (record db {
        order_items =
            update_where (in_ids ids) (λ i. record i { location = OrderItemLocation.in_house })
              db.order_items;
        orders =
            update_where
              (λ o. contains order_ids o.id && same_order_status o.status OrderStatus.pick_up)
              (λ o. record o { status = OrderStatus.processing }) db.orders;
      })

-- `where: { currentRunId, status: { not: 'TAKE_BACK' } }`.
abbrev pub open_bag : ℕ → PickupBag → Bool
open_bag run b = on_run run b && not (same_bag_status b.status PickupBagStatus.take_back)

abbrev pub no_open_bag : ℕ → PickupDb → Bool
no_open_bag run db = count (open_bag run) db.pickup_bags == 0

abbrev pub return_run : Env → ℕ → PickupDb → PickupDb
return_run env run db = record db {
  pickup_runs =
      update_where (λ r. r.id == run)
        (λ r. record r { status = PickupRunStatus.returned; ended_at = some env.now })
        db.pickup_runs;
}

-- The last write of `handoffBag`: the run ends with its last bag.
abbrev pub finish_run : Env → ℕ → PickupDb → PickupDb
finish_run env run db = if no_open_bag run db then return_run env run db else db

module _ ⦃prisma : Prisma⦄ where
  -- `registerBag`.
  unfoldable pub register_bag : String → ℕ → String → Tx PickupDb PickupBagResult
  register_bag staff run barcode = do
    load_active_run_for_staff run staff
    bag ←
        require (← gets (λ db. prisma.find_first (active_bag barcode) db.pickup_bags))
          (refuse 400 "Active pickup bag was not found.")
    throw_if (not (same_bag_status bag.status PickupBagStatus.ready))
        (refuse 409 "Pickup bag must be READY.")
    modify (
        update_bag bag.id
          (λ b. record b { status = PickupBagStatus.take_out; current_run_id = some run }))
    pure (
        to_bag_result (record bag { status = PickupBagStatus.take_out; current_run_id = some run }))

  -- `recordPickupPhoto`.
  unfoldable pub record_pickup_photo : Env → String → ℕ → ℕ → String → Tx PickupDb PickupPhoto
  record_pickup_photo env staff run order url = do
    load_active_run_for_staff run staff
    require (← gets (λ db. prisma.find_first (λ o. o.id == order) db.orders))
        (refuse 404 "Pickup request order was not found.")
    let photo : PickupPhoto = record {
      id = env.new_id;
      order_id = order;
      pickup_run_id = run;
      staff_id = staff;
      photo_url = url;
      created_at = env.now;
    }
    modify (λ db. record db { pickup_photos = db.pickup_photos ++ photo ∷ [] })
    pure photo

  -- The bag that `putItemsIntoBag` and `handoffBag` load.
  abbrev pub load_bag : ℕ → String → Tx PickupDb PickupBag
  load_bag run barcode =
      (gets (λ db. prisma.find_first (λ b. active_bag barcode b && on_run run b) db.pickup_bags))
      >>= λ bag. require bag (refuse 400 "Pickup bag is not registered to this run.")

  -- The checks of `putItemsIntoBag` on the order and its items.
  unfoldable pub check_order : ℕ → List ℕ → Tx PickupDb (Unit {0})
  check_order order ids = do
    row ←
        require (← gets (λ db. prisma.find_first (λ o. o.id == order) db.orders))
          (refuse 404 "Pickup request order was not found.")
    throw_if (not (same_order_status row.status OrderStatus.request))
        (refuse 409 "Order must be REQUEST.")
    items ← gets (λ db. find_many (λ i. i.order_id == order) db.order_items)
    throw_if (not (same_ids (map (λ i. i.id) items) ids))
        (refuse 400 "MVP pickup requires all order items.")
    throw_if (not (every (is_at OrderItemStatus.init OrderItemLocation.customer_pick_up) items))
        (refuse 409 "Order items must be INIT and CUSTOMER_PICK_UP.")
    contained ← gets (λ db. count (λ c. contains ids c.order_item_id) db.pickup_bag_items)
    throw_if (ltb 0 contained) (refuse 409 "One or more items are already in a pickup bag.")

  -- `putItemsIntoBag`.
  unfoldable pub put_items_into_bag :
      String → ℕ → ℕ → String → List ℕ → Tx PickupDb PickupContainmentResult
  put_items_into_bag staff run order barcode ids = do
    load_active_run_for_staff run staff
    throw_if (not (valid_ids ids)) (refuse 400 "Item ids must be unique and non-empty.")
    bag ← load_bag run barcode
    throw_if (not (same_bag_status bag.status PickupBagStatus.take_out))
        (refuse 409 "Pickup bag must be TAKE_OUT.")
    photos ←
        gets (λ db. count (λ p. p.order_id == order && p.pickup_run_id == run) db.pickup_photos)
    throw_if (photos == 0) (refuse 400 "Pickup photo is required before bag containment.")
    check_order order ids
    modify (contain_items run order bag (unique_ids ids))
    pure (record {
      run_id = run;
      bag = to_bag_result (record bag { status = PickupBagStatus.contain });
      order_id = order;
      order_status = OrderStatus.pick_up;
      items = bagged_items OrderItemLocation.pick_up_truck (unique_ids ids);
    })

  -- `containedItem.orderItem`, which a foreign key provides, is in the van.
  abbrev pub is_in_van : PickupDb → PickupBagItem → Bool
  is_in_van db c = elim (prisma.find_first (λ i. i.id == c.order_item_id) db.order_items) [
    | none ↦ false
    | some i ↦ is_at OrderItemStatus.pick_up OrderItemLocation.pick_up_truck i
  ]

  -- `handoffBag` once the run and the bag are loaded.
  unfoldable pub hand_off_bag : Env → PickupRun → PickupBag → Tx PickupDb PickupHandoffResult
  hand_off_bag env run bag = do
    throw_if (not (same_bag_status bag.status PickupBagStatus.contain))
        (refuse 409 "Pickup bag must be CONTAIN.")
    contained ← gets (λ db.
        find_many (λ c. c.pickup_bag_id == bag.id && c.pickup_run_id == run.id) db.pickup_bag_items)
    throw_if (length contained == 0) (refuse 409 "Pickup bag has no contained items.")
    throw_if (not (← gets (λ db. every (is_in_van db) contained)))
        (refuse 409 "Contained items must be PICK_UP and PICK_UP_TRUCK.")
    let ids : List ℕ = map (λ c. c.order_item_id) contained
    let order_ids : List ℕ = unique_ids (map (λ c. c.order_id) contained)
    modify (bring_in bag ids order_ids)
    last ← gets (no_open_bag run.id)
    modify (finish_run env run.id)
    pure (record {
      run_id = run.id;
      run_status = if last then PickupRunStatus.returned else run.status;
      bag = to_bag_result (record bag { status = PickupBagStatus.take_back });
      order_ids = order_ids;
      items = bagged_items OrderItemLocation.in_house ids;
    })

  -- `handoffBag`.
  unfoldable pub handoff_bag : Env → String → ℕ → String → Tx PickupDb PickupHandoffResult
  handoff_bag env staff run barcode = do
    loaded ← load_active_run_for_staff run staff
    bag ← load_bag loaded.id barcode
    hand_off_bag env loaded bag
