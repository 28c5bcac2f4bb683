-- ===== src/Delivery/Packages/Handoff.antt =====
-- The effect of a handoff on the items and on the status of the order.
use laundry_api.Base.{
  ℕ, ◌≡◌, refl, ◌∙◌, subst, true, false, some, List, Memᴰ, arith, every, Bool-cases, inl, inr, ◌==◌,
  some_of, mem-some_of, ==→eq, ◌&&◌, if◌then◌else◌, ==_refl,
}
use laundry_api.Errors.{known_request}
use laundry_api.Store.{Prisma}
use laundry_api.Store.Laws.{mem-update_where, update_where-mem}
use laundry_api.Store.Many.{every-find_many-mem, find_many, find_many-bad, some_of-find_many}
use laundry_api.Tx.{ok, err}
use laundry_api.Orders.Selected.{HasUniqueIds, mem-selected, selected-mem}
use laundry_api.Orders.Types.{
  LaundryOrder, OrderItem, OrderItemLocation, OrderItemStatus, OrderStatus, in_ids, in_package,
  same_item_status→eq,
}
use laundry_api.Route.Db.{AuditAction}
use laundry_api.Route.Types.{ActorContext}
use laundry_api.Delivery.Types.{DeliveryDb, DeliveryPackageView, ItemPackage, PackageHandoffResult}
use laundry_api.Delivery.Repository.{find_package_by_id}
use laundry_api.Delivery.Packages.{
  hand_off_items, handoff_item, handoff_package, is_finished, item_of_order, log_placed,
  new_order_status, order_missing, place, place_items, placed_items, set_order_status, shown_status,
}
use laundry_api.Delivery.Packages.Find.{IsViewOf, all_in}
use laundry_api.Delivery.Packages.Gate.{ids_of}

-- The item at the customer's.
abbrev pub at_customer : OrderItem → OrderItem
at_customer = place OrderItemStatus.finished OrderItemLocation.customer_dest

module _ ⦃prisma : Prisma⦄ where
  abbrev pub handed_over : ItemPackage → ActorContext → DeliveryDb → DeliveryDb
  handed_over pkg actor db =
      log_placed actor AuditAction.item_handed_off OrderItemStatus.finished
        OrderItemLocation.customer_dest (ids_of pkg db)
        (place_items (ids_of pkg db) OrderItemStatus.finished OrderItemLocation.customer_dest db)

  abbrev pub items_of_order : ItemPackage → ActorContext → DeliveryDb → List OrderItem
  items_of_order pkg actor db =
      find_many (item_of_order pkg.order_id) (handed_over pkg actor db).order_items

  abbrev pub handoff_result : ItemPackage → ActorContext → DeliveryDb → PackageHandoffResult
  handoff_result pkg actor db = record {
    package_id = pkg.id;
    order_id = pkg.order_id;
    items = placed_items OrderItemStatus.finished OrderItemLocation.customer_dest (ids_of pkg db);
    order_status = shown_status (new_order_status (items_of_order pkg actor db));
  }

  abbrev pub after_handoff : ItemPackage → ActorContext → DeliveryDb → DeliveryDb
  after_handoff pkg actor db =
      set_order_status pkg.order_id (new_order_status (items_of_order pkg actor db))
        (handed_over pkg actor db)

  pub hand_off_items-ok :
      (pkg : ItemPackage) (actor : ActorContext) (db : DeliveryDb)
      → order_missing pkg.order_id
          (new_order_status (items_of_order pkg actor db))
          (handed_over pkg actor db)
        ≡ false
      → hand_off_items pkg actor db ≡ ok (handoff_result pkg actor db, after_handoff pkg actor db)
  unfolding hand_off_items
  hand_off_items-ok pkg actor db e = rw (hand_off_items, e) refl

  pub hand_off_items-err :
      (pkg : ItemPackage) (actor : ActorContext) (db : DeliveryDb)
      → order_missing pkg.order_id
          (new_order_status (items_of_order pkg actor db))
          (handed_over pkg actor db)
        ≡ true
      → hand_off_items pkg actor db ≡ err (known_request "P2025")
  unfolding hand_off_items
  hand_off_items-err pkg actor db e = rw (hand_off_items, e) refl

  pub handoff-rows :
      (id : ℕ) (actor : ActorContext) (db : DeliveryDb) {view : DeliveryPackageView}
      → find_package_by_id db id ≡ ok (some view)
      → all_in OrderItemStatus.delivering view.items ≡ true
      → (of : IsViewOf db id view) → handoff_item id actor db ≡ hand_off_items of.pkg actor db
  unfolding handoff_item handoff_package
  handoff-rows id actor db e f of =
      let found : prisma.find_first (λ p. p.id == id) db.item_packages ≡ some of.pkg = of.found in
      ground arith

  module _ (pkg : ItemPackage) (db : DeliveryDb) where
    -- All items of the order outside the package are FINISHED.
    abbrev pub IsLast : Type 0
    IsLast =
        (x : OrderItem)
        → Memᴰ x db.order_items
        → x.order_id ≡ pkg.order_id
        → in_package pkg.id x ≡ false
        → x.status ≡ OrderItemStatus.finished

    -- Just the items of the package are at the customer's, and the order is FINISHED when this was
    -- the last package and PARTIAL_FINISHED otherwise.
    pub record IsHandedOff (db' : DeliveryDb) : Type 0 where
      pub moved :
          (x : OrderItem)
          → Memᴰ x db.order_items
          → in_package pkg.id x ≡ true
          → Memᴰ (at_customer x) db'.order_items
      pub last :
          (o : LaundryOrder)
          → Memᴰ o db'.orders
          → o.id ≡ pkg.order_id
          → IsLast
          → o.status ≡ OrderStatus.finished
      pub not_last :
          (o : LaundryOrder)
          → Memᴰ o db'.orders
          → o.id ≡ pkg.order_id
          → ¬ IsLast
          → o.status ≡ OrderStatus.partial_finished

  module _ (pkg : ItemPackage) (actor : ActorContext) (db : DeliveryDb) where
    pub all_finished-IsLast :
        HasUniqueIds db.order_items
        → every is_finished (items_of_order pkg actor db) ≡ true
        → IsLast pkg db
    all_finished-IsLast u h x m same out = elim (Bool-cases (in_ids (ids_of pkg db) x)) [
      | inl hit ↦ absurd (cc (selected-mem (in_package pkg.id) db.order_items u m hit))
      | inr miss ↦
          let kept : Memᴰ x (handed_over pkg actor db).order_items =
            subst
              (λ b. Memᴰ (if b then at_customer x else x) (handed_over pkg actor db).order_items)
              miss (update_where-mem (in_ids (ids_of pkg db)) at_customer db.order_items m) in
          same_item_status→eq x.status OrderItemStatus.finished (
            every-find_many-mem (item_of_order pkg.order_id) is_finished
              (handed_over pkg actor db).order_items h kept (rw same (==_refl pkg.order_id)))
    ]

    pub IsLast-all_finished :
        IsLast pkg db → every is_finished (items_of_order pkg actor db) ≡ false → ⊥
    IsLast-all_finished last h =
        let (y, n, order, bad) =
          find_many-bad (item_of_order pkg.order_id) is_finished
            (handed_over pkg actor db).order_items h in
        let (x, m, e) = mem-update_where (in_ids (ids_of pkg db)) at_customer db.order_items n in
        elim (Bool-cases (in_ids (ids_of pkg db) x)) [
          | inl hit ↦ let at : y ≡ at_customer x = ground arith in absurd (cc (rw at at bad))
          | inr miss ↦
              let at : y ≡ x = ground arith in
              elim (Bool-cases (in_package pkg.id x)) [
                | inl inside ↦
                    absurd (cc (mem-selected (in_package pkg.id) db.order_items m inside))
                | inr out ↦
                    let fin = last x m (==→eq x.order_id pkg.order_id (rw at at order)) out in
                    absurd (cc (rw (at, fin) at bad))
              ]
        ]

    pub some_finished :
        {x : OrderItem}
        → Memᴰ x db.order_items
        → x.order_id ≡ pkg.order_id
        → in_package pkg.id x ≡ true
        → some_of is_finished (items_of_order pkg actor db) ≡ true
    some_finished {x} m same inside =
        let hit : in_ids (ids_of pkg db) x ≡ true =
          mem-selected (in_package pkg.id) db.order_items m inside in
        let there : Memᴰ (at_customer x) (handed_over pkg actor db).order_items =
          subst (λ b. Memᴰ (if b then at_customer x else x) (handed_over pkg actor db).order_items)
            hit (update_where-mem (in_ids (ids_of pkg db)) at_customer db.order_items m) in
        some_of-find_many (item_of_order pkg.order_id) is_finished
          (handed_over pkg actor db).order_items
        ∙ mem-some_of (λ r. item_of_order pkg.order_id r && is_finished r)
            (handed_over pkg actor db).order_items there (ground (arith, ==_refl pkg.order_id))
