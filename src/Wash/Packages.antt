-- ===== src/Wash/Packages.antt =====
-- `createPackages` of prisma-wash.repository.ts and `CreatePackageUseCase`.
pub mod Grouping
pub mod Packed
pub mod Rows
pub mod Whole
use laundry_api.Base.{
  ℕ, Bool, Option, none, some, List, [], ◌∷◌, ◌++◌, ◌==◌, map, update_where, if◌then◌else◌,
}
use laundry_api.Delivery.Types.{ItemPackage}
use laundry_api.Orders.Types.{OrderItem, OrderItemStatus, in_ids, in_package, same_item_status}
use laundry_api.Store.{Prisma}
use laundry_api.Store.Many.{find_many}
use laundry_api.Tx.{Tx, ◌>>=◌, ◌>>◌, pure, gets, modify}
use laundry_api.Wash.Types.{PackageView, PackagedItem, WashDb}

-- `where: { status: READY_TO_PACKAGE }`.
abbrev pub is_ready_to_package : OrderItem → Bool
is_ready_to_package i = same_item_status i.status OrderItemStatus.ready_to_package

-- The items of one order.
pub record OrderGroup : Type 0 where
  pub order_id : ℕ
  pub items : List OrderItem

-- `grouped.set(item.orderId, [...group, item])`.
unfoldable pub push_group : OrderItem → List OrderGroup → List OrderGroup
push_group i [] = record { order_id = i.order_id; items = i ∷ [] } ∷ []
push_group i (g ∷ groups) =
    let rest = push_group i groups in
    if g.order_id == i.order_id then record g { items = g.items ++ i ∷ [] } ∷ groups else g ∷ rest

-- `grouped`, after the loop over the items.
unfoldable pub group_by_order : List OrderItem → List OrderGroup → List OrderGroup
group_by_order [] groups = groups
group_by_order (i ∷ items) groups = group_by_order items (push_group i groups)

-- `items: { connect }`.
abbrev pub connected : ℕ → OrderItem → OrderItem
connected pkg i = record i { package_id = some pkg }

abbrev pub packed : OrderItem → OrderItem
packed i = record i { status = OrderItemStatus.ready_for_delivery }

-- The rows after the package of a group is created, its items are connected and their status is set.
abbrev pub pack_rows : ℕ → ℕ → List ℕ → ℕ → WashDb → WashDb
pack_rows pkg order ids now db = record db {
  item_packages = db.item_packages ++ record { id = pkg; order_id = order; created_at = now } ∷ [];
  order_items =
      update_where (in_ids ids) packed (update_where (in_ids ids) (connected pkg) db.order_items);
}

abbrev pub to_packaged_item : OrderItem → PackagedItem
to_packaged_item i = record { item_id = i.id; tag_barcode = i.tag_barcode }

module _ ⦃prisma : Prisma⦄ (id_for : ℕ → ℕ) (now : ℕ) where
  -- One turn of the loop; `id_for` gives the id of the new package of an order.
  unfoldable pub pack_group : OrderGroup → Tx WashDb PackageView
  pack_group g = do
    modify (pack_rows (id_for g.order_id) g.order_id (map (λ i. i.id) g.items) now)
    items ← gets (λ db. find_many (in_package (id_for g.order_id)) db.order_items)
    pure (record {
      package_id = id_for g.order_id;
      order_id = g.order_id;
      items = map to_packaged_item items;
      created_at = now;
    })

  -- The loop over the groups.
  unfoldable pub pack_groups : List OrderGroup → Tx WashDb (List PackageView)
  pack_groups [] = pure []
  pack_groups (g ∷ groups) = do view ← pack_group g; views ← pack_groups groups; pure (view ∷ views)

  -- `createPackages`.
  unfoldable pub create_packages : Tx WashDb (List PackageView)
  create_packages = do
    items ← gets (λ db. find_many is_ready_to_package db.order_items)
    pack_groups (group_by_order items [])
