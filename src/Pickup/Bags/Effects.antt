-- ===== src/Pickup/Bags/Effects.antt =====
-- What a call on a bag that returns has found and written.
use laundry_api.Base.{
  ℕ, String, ◌≡◌, true, false, some, List, arith, every, Bool-cases, Option-cases, inl, inr, ◌==◌,
  ◌&&◌, count, length, ltb, map,
}
use laundry_api.Store.{Prisma}
use laundry_api.Store.Many.{contains, find_many}
use laundry_api.Tx.{Result-cases, ok}
use laundry_api.Route.Db.{Env}
use laundry_api.Orders.Types.{
  LaundryOrder, OrderItemLocation, OrderItemStatus, OrderStatus, same_order_status,
}
use laundry_api.Pickup.Types.{
  PickupBag, PickupBagItem, PickupBagResult, PickupBagStatus, PickupContainmentResult, PickupDb,
  PickupHandoffResult, PickupRun, same_bag_status, same_bag_status→eq,
}
use laundry_api.Pickup.Runs.{active_run, load_active_run_for_staff}
use laundry_api.Pickup.Bags.{
  active_bag, bring_in, check_order, contain_items, finish_run, hand_off_bag, handoff_bag, is_at,
  is_in_van, on_run, put_items_into_bag, register_bag, same_ids, unique_ids, update_bag, valid_ids,
}

module _ ⦃prisma : Prisma⦄ (db : PickupDb) where
  -- The active run of the staff that the call names.
  abbrev pub IsActiveRun : ℕ → String → PickupRun → Type 0
  IsActiveRun id staff run = prisma.find_first (active_run id staff) db.pickup_runs ≡ some run

  pub register_bag-effect :
      (staff : String) (run : ℕ) (barcode : String) {r : PickupBagResult} {db' : PickupDb}
      → register_bag staff run barcode db ≡ ok (r, db')
      → (loaded : PickupRun) × (bag : PickupBag) × IsActiveRun run staff loaded
        × (prisma.find_first (active_bag barcode) db.pickup_bags ≡ some bag)
        × (bag.status ≡ PickupBagStatus.ready)
        × (db'
            ≡ update_bag bag.id
                (λ b. record b { status = PickupBagStatus.take_out; current_run_id = some run })
                db)
  unfolding register_bag load_active_run_for_staff
  register_bag-effect staff run barcode {r} {db'} e =
      elim (Option-cases (prisma.find_first (active_run run staff) db.pickup_runs)) [
        | inl f ↦ absurd (ground arith)
        | inr (loaded, f) ↦
            elim (Option-cases (prisma.find_first (active_bag barcode) db.pickup_bags)) [
              | inl g ↦ absurd (ground arith)
              | inr (bag, g) ↦
                  elim (Bool-cases (same_bag_status bag.status PickupBagStatus.ready)) [
                    | inr h ↦ absurd (ground arith)
                    | inl h ↦ (
                      loaded,
                      bag,
                      f,
                      g,
                      same_bag_status→eq bag.status PickupBagStatus.ready h,
                      ground arith,
                    )
                  ]
            ]
      ]

  -- The order that a containment may take: it is REQUEST, the ids are all of its items, each of
  -- them is INIT at the customer's, and none is in a bag.
  pub record IsCollectable (order : ℕ) (ids : List ℕ) : Type 0 where
    pub row : LaundryOrder
    pub found : prisma.find_first (λ o. o.id == order) db.orders ≡ some row
    pub requested : same_order_status row.status OrderStatus.request ≡ true
    pub all_items :
        same_ids (map (λ i. i.id) (find_many (λ i. i.order_id == order) db.order_items)) ids ≡ true
    pub fresh :
        every
          (is_at OrderItemStatus.init OrderItemLocation.customer_pick_up)
          (find_many (λ i. i.order_id == order) db.order_items)
        ≡ true
    pub not_contained :
        ltb 0 (count (λ c. contains ids c.order_item_id) db.pickup_bag_items) ≡ false

  check_order-effect :
      (order : ℕ) (ids : List ℕ) {r : Unit {0} × PickupDb}
      → check_order order ids db ≡ ok r
      → IsCollectable order ids × (r ≡ (tt, db))
  unfolding check_order
  check_order-effect order ids {r} e =
      elim (Option-cases (prisma.find_first (λ o. o.id == order) db.orders)) [
        | inl f ↦ absurd (ground arith)
        | inr (row, f) ↦ elim (Bool-cases (same_order_status row.status OrderStatus.request)) [
          | inr g ↦ absurd (ground arith)
          | inl g ↦
              elim (Bool-cases (
                same_ids (map (λ i. i.id) (find_many (λ i. i.order_id == order) db.order_items))
                  ids)) [
                    | inr h ↦ absurd (ground arith)
                    | inl h ↦
                        elim (Bool-cases (
                          every (is_at OrderItemStatus.init OrderItemLocation.customer_pick_up)
                            (find_many (λ i. i.order_id == order) db.order_items))) [
                              | inr k ↦ absurd (ground arith)
                              | inl k ↦
                                  elim (Bool-cases (
                                    ltb 0 (
                                      count (λ c. contains ids c.order_item_id)
                                        db.pickup_bag_items))) [
                                          | inl l ↦ absurd (ground arith)
                                          | inr l ↦ (
                                            record {
                                              row = row;
                                              found = f;
                                              requested = g;
                                              all_items = h;
                                              fresh = k;
                                              not_contained = l;
                                            },
                                            ground arith,
                                          )
                                        ]
                            ]
                  ]
        ]
      ]

  pub put_items_into_bag-effect :
      (staff : String) (run order : ℕ) (barcode : String) (ids : List ℕ)
      {r : PickupContainmentResult} {db' : PickupDb}
      → put_items_into_bag staff run order barcode ids db ≡ ok (r, db')
      → (loaded : PickupRun) × (bag : PickupBag) × IsActiveRun run staff loaded
        × (prisma.find_first (λ b. active_bag barcode b && on_run run b) db.pickup_bags ≡ some bag)
        × (bag.status ≡ PickupBagStatus.take_out)
        × (valid_ids ids ≡ true)
        × IsCollectable order ids
        × (db' ≡ contain_items run order bag (unique_ids ids) db)
  unfolding put_items_into_bag load_active_run_for_staff
  put_items_into_bag-effect staff run order barcode ids {r} {db'} e =
      elim (Option-cases (prisma.find_first (active_run run staff) db.pickup_runs)) [
        | inl f ↦ absurd (ground arith)
        | inr (loaded, f) ↦ elim (Bool-cases (valid_ids ids)) [
          | inr v ↦ absurd (ground arith)
          | inl v ↦
              elim (Option-cases
                (prisma.find_first (λ b. active_bag barcode b && on_run run b) db.pickup_bags)) [
                  | inl g ↦ absurd (ground arith)
                  | inr (bag, g) ↦
                      elim (Bool-cases (same_bag_status bag.status PickupBagStatus.take_out)) [
                        | inr h ↦ absurd (ground arith)
                        | inl h ↦
                            elim (Bool-cases (
                              count (λ p. p.order_id == order && p.pickup_run_id == run)
                                db.pickup_photos
                              == 0)) [
                                | inl k ↦ absurd (ground arith)
                                | inr k ↦ elim (Result-cases (check_order order ids db)) [
                                  | inr (x, c) ↦ absurd (ground arith)
                                  | inl (y, c) ↦
                                      let (col, same) = check_order-effect order ids c in
                                      (
                                        loaded,
                                        bag,
                                        f,
                                        g,
                                        same_bag_status→eq bag.status PickupBagStatus.take_out h,
                                        v,
                                        col,
                                        ground arith,
                                      )
                                ]
                              ]
                      ]
                ]
        ]
      ]

  -- The items of the bag, as `handoffBag` reads them.
  abbrev pub contained_in : PickupBag → ℕ → List PickupBagItem
  contained_in bag run =
      find_many (λ c. c.pickup_bag_id == bag.id && c.pickup_run_id == run) db.pickup_bag_items

  abbrev pub brought_in : PickupBag → ℕ → PickupDb
  brought_in bag run =
      bring_in bag (map (λ c. c.order_item_id) (contained_in bag run))
        (unique_ids (map (λ c. c.order_id) (contained_in bag run))) db

  pub handoff_bag-effect :
      (env : Env) (staff : String) (run : ℕ) (barcode : String) {r : PickupHandoffResult}
      {db' : PickupDb}
      → handoff_bag env staff run barcode db ≡ ok (r, db')
      → (loaded : PickupRun) × (bag : PickupBag) × IsActiveRun run staff loaded
        × (prisma.find_first (λ b. active_bag barcode b && on_run loaded.id b) db.pickup_bags
            ≡ some bag)
        × (bag.status ≡ PickupBagStatus.contain)
        × (db' ≡ finish_run env loaded.id (brought_in bag loaded.id))
  unfolding handoff_bag hand_off_bag load_active_run_for_staff
  handoff_bag-effect env staff run barcode {r} {db'} e =
      elim (Option-cases (prisma.find_first (active_run run staff) db.pickup_runs)) [
        | inl f ↦ absurd (ground arith)
        | inr (loaded, f) ↦
            elim (Option-cases (
              prisma.find_first (λ b. active_bag barcode b && on_run loaded.id b) db.pickup_bags)) [
                | inl g ↦ absurd (ground arith)
                | inr (bag, g) ↦
                    elim (Bool-cases (same_bag_status bag.status PickupBagStatus.contain)) [
                      | inr h ↦ absurd (ground arith)
                      | inl h ↦ elim (Bool-cases (length (contained_in bag loaded.id) == 0)) [
                        | inl k ↦ absurd (ground arith)
                        | inr k ↦
                            elim (Bool-cases (every (is_in_van db) (contained_in bag loaded.id))) [
                              | inr l ↦ absurd (ground arith)
                              | inl l ↦ (
                                loaded,
                                bag,
                                f,
                                g,
                                same_bag_status→eq bag.status PickupBagStatus.contain h,
                                ground arith,
                              )
                            ]
                      ]
                    ]
              ]
      ]
