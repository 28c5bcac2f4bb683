-- ===== src/Pickup/Machine/Items.antt =====
-- The items of the machine.
use laundry_api.Base.{
  ℕ, ◌≡◌, refl, sym, subst, ◌∙◌, true, List, Memᴰ, ◌==◌, arith, map, update_where, ==→eq,
}
use laundry_api.Store.{Prisma}
use laundry_api.Store.Many.{contains, every-find_many-mem, find_many}
use laundry_api.Orders.Lifecycle.{Evolves, Reach, here, next, picked, update_where-Evolves}
use laundry_api.Orders.Selected.{HasUniqueIds, selected-mem}
use laundry_api.Orders.Types.{
  OrderItem, OrderItemLocation, OrderItemStatus, in_ids, same_item_status→eq,
}
use laundry_api.Pickup.Types.{PickupDb}
use laundry_api.Pickup.Bags.{is_at, unique_ids}
use laundry_api.Pickup.Bags.Effects.{IsCollectable}
use laundry_api.Pickup.Bags.Ids.{contains-unique_ids, same_ids-contains}

-- The item in the van of the pickup run.
abbrev pub picked_up : OrderItem → OrderItem
picked_up i = record i {
  status = OrderItemStatus.pick_up;
  location = OrderItemLocation.pick_up_truck;
}

abbrev pub in_factory : OrderItem → OrderItem
in_factory i = record i { location = OrderItemLocation.in_house }

module _ ⦃prisma : Prisma⦄ (db : PickupDb) (order : ℕ) (ids : List ℕ) where
  -- An item whose id the call names is an item of the order that is INIT at the customer's.
  pub collectable-mem :
      {x : OrderItem}
      → HasUniqueIds db.order_items
      → IsCollectable db order ids
      → Memᴰ x db.order_items
      → in_ids (unique_ids ids) x ≡ true
      → (x.order_id ≡ order) × (x.status ≡ OrderItemStatus.init)
  collectable-mem {x} u col m hit =
      let named : contains (map (λ i. i.id) (find_many (λ i. i.order_id == order) db.order_items))
            x.id
          ≡ true =
        same_ids-contains (map (λ i. i.id) (find_many (λ i. i.order_id == order) db.order_items))
          ids x.id col.all_items
        ∙ sym (contains-unique_ids ids x.id)
        ∙ hit in
      let inside : (x.order_id == order) ≡ true =
        selected-mem (λ i. i.order_id == order) db.order_items u m named in
      let fresh =
        every-find_many-mem (λ i. i.order_id == order)
          (is_at OrderItemStatus.init OrderItemLocation.customer_pick_up) db.order_items col.fresh m
          inside in
      (
        ==→eq x.order_id order inside,
        same_item_status→eq x.status OrderItemStatus.init (ground arith),
      )

  pub contain-Evolves :
      HasUniqueIds db.order_items
      → IsCollectable db order ids
      → Evolves db.order_items (update_where (in_ids (unique_ids ids)) picked_up db.order_items)
  contain-Evolves u col =
      update_where-Evolves (in_ids (unique_ids ids)) picked_up db.order_items λ x m t. record {
        same_id = refl;
        same_order = refl;
        reach =
            subst (λ s. Reach s OrderItemStatus.pick_up) (sym (collectable-mem u col m t).1)
              (next here picked);
      }

pub bring_in-Evolves :
    (ids : List ℕ) (items : List OrderItem)
    → Evolves items (update_where (in_ids ids) in_factory items)
bring_in-Evolves ids items =
    update_where-Evolves (in_ids ids) in_factory items
      λ x m t. record { same_id = refl; same_order = refl; reach = here }
