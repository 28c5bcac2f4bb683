-- ===== src/Pickup/Bags/Collect.antt =====
-- What a containment takes.
use laundry_api.Base.{
  ℕ, String, ◌≡◌, sym, subst, ◌∙◌, true, List, Memᴰ, arith, Bool-cases, inl, inr, ◌==◌, ==_refl,
  map, if◌then◌else◌, update_where,
}
use laundry_api.Store.{Prisma}
use laundry_api.Store.Laws.{mem-update_where_self, update_where-mem}
use laundry_api.Store.Many.{find_many}
use laundry_api.Tx.{ok}
use laundry_api.Orders.Selected.{HasUniqueIds, mem-selected}
use laundry_api.Orders.Types.{LaundryOrder, OrderItem, OrderItemStatus, OrderStatus, in_ids}
use laundry_api.Pickup.Types.{PickupBag, PickupContainmentResult, PickupDb}
use laundry_api.Pickup.Bags.{contain_items, put_items_into_bag, unique_ids}
use laundry_api.Pickup.Bags.Effects.{IsCollectable, put_items_into_bag-effect}
use laundry_api.Pickup.Bags.Ids.{contains-unique_ids, same_ids-contains}
use laundry_api.Pickup.Machine.Items.{collectable-mem, picked_up}

-- Just the items of the order, which were all INIT, are in the van, and the order is PICK_UP.
pub record IsCollected (order : ℕ) (db db' : PickupDb) : Type 0 where
  pub all :
      (x : OrderItem)
      → Memᴰ x db.order_items
      → x.order_id ≡ order
      → (x.status ≡ OrderItemStatus.init) × Memᴰ (picked_up x) db'.order_items
  pub others :
      (x : OrderItem) → Memᴰ x db.order_items → ¬ (x.order_id ≡ order) → Memᴰ x db'.order_items
  pub order_row :
      (o : LaundryOrder) → Memᴰ o db'.orders → o.id ≡ order → o.status ≡ OrderStatus.pick_up

module _ ⦃prisma : Prisma⦄ (db : PickupDb) where
  module _ (order : ℕ) (ids : List ℕ) (u : HasUniqueIds db.order_items)
      (col : IsCollectable db order ids) where
    named :
        {x : OrderItem}
        → Memᴰ x db.order_items
        → x.order_id ≡ order
        → in_ids (unique_ids ids) x ≡ true
    named {x} m same =
        contains-unique_ids ids x.id
        ∙ sym (
            same_ids-contains
              (map (λ i. i.id) (find_many (λ i. i.order_id == order) db.order_items)) ids x.id
              col.all_items)
        ∙ mem-selected (λ i. i.order_id == order) db.order_items m (rw same (==_refl order))

    contain-IsCollected :
        (run : ℕ) (bag : PickupBag)
        → IsCollected order db (contain_items run order bag (unique_ids ids) db)
    contain-IsCollected run bag = record {
      all = λ x m same. (
        (collectable-mem db order ids u col m (named m same)).1,
        subst
            (λ b.
              Memᴰ (if b then picked_up x else x)
                (update_where (in_ids (unique_ids ids)) picked_up db.order_items))
            (named m same) (update_where-mem (in_ids (unique_ids ids)) picked_up db.order_items m),
      );
      others = λ x m other. elim (Bool-cases (in_ids (unique_ids ids) x)) [
        | inl hit ↦ absurd (other (collectable-mem db order ids u col m hit).0)
        | inr miss ↦
            subst
              (λ b.
                Memᴰ (if b then picked_up x else x)
                  (update_where (in_ids (unique_ids ids)) picked_up db.order_items))
              miss (update_where-mem (in_ids (unique_ids ids)) picked_up db.order_items m)
      ];
      order_row = λ o m same.
          let (x, n, hit, at) =
            mem-update_where_self (λ o. o.id == order)
              (λ o. record o { status = OrderStatus.pick_up }) db.orders m
              (rw same (==_refl order)) in
          ground arith;
    }

  -- A containment that returns has collected the order: all its items, which were all INIT, are in
  -- the van, no other item is touched, and the order is PICK_UP.
  pub put_items_into_bag-IsCollected :
      (staff : String) (run order : ℕ) (barcode : String) (ids : List ℕ)
      {r : PickupContainmentResult} {db' : PickupDb}
      → HasUniqueIds db.order_items
      → put_items_into_bag staff run order barcode ids db ≡ ok (r, db')
      → IsCollected order db db'
  put_items_into_bag-IsCollected staff run order barcode ids u e =
      let (loaded, bag, f, g, out, valid, col, same) =
        put_items_into_bag-effect db staff run order barcode ids e in
      subst (IsCollected order db) (sym same) (contain-IsCollected order ids u col run bag)
