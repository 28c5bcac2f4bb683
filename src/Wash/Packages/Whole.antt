-- ===== src/Wash/Packages/Whole.antt =====
-- `createPackages` as a whole: every item that is ready is packed with the items of its order.
use laundry_api.Base.{
  ℕ, ◌≡◌, refl, sym, ap, ◌∙◌, subst, true, false, List, [], ◌∷◌, Memᴰ, arith, some_of, ◌==◌, ◌&&◌,
  Bool-cases, inl, inr, ==_refl, ==→eq, some_of-mem, mem-some_of, All, ◌⊎◌,
}
use laundry_api.Orders.Lifecycle.{Evolves, IsLater, IsLater-refl, Reach, here, next, packaged}
use laundry_api.Orders.Selected.{HasUniqueIds}
use laundry_api.Orders.Types.{OrderItem, OrderItemStatus, same_item_status→eq}
use laundry_api.Store.{Prisma}
use laundry_api.Store.Many.{contains, find_many, some_of-find_many}
use laundry_api.Tx.{Returns, Returns-map}
use laundry_api.Wash.Types.{WashDb}
use laundry_api.Wash.Packages.{
  OrderGroup, create_packages, group_by_order, is_ready_to_package, pack_groups,
}
use laundry_api.Wash.Packages.Grouping.{
  IsListed, group_by_order-IsListed, group_by_order-in, ids_of, in_groups, is_listed, mem-is_listed,
}
use laundry_api.Wash.Packages.Rows.{
  OfItsOrder, in_its_package, mem-All, pack_row-hit, pack_row-miss,
}
use laundry_api.Wash.Packages.Packed.{ArePacked, pack_groups-ArePacked, pack_row}

-- Every item that is ready is in a package of its order, and no other item is touched.
pub record IsPacked (id_for : ℕ → ℕ) (now : ℕ) (db db' : WashDb) : Type 0 where
  pub ready :
      (x : OrderItem)
      → Memᴰ x db.order_items
      → x.status ≡ OrderItemStatus.ready_to_package
      → Memᴰ (in_its_package id_for x) db'.order_items
        × Memᴰ
            (record { id = id_for x.order_id; order_id = x.order_id; created_at = now })
            db'.item_packages
  pub others :
      (x : OrderItem)
      → Memᴰ x db.order_items
      → is_ready_to_package x ≡ false
      → Memᴰ x db'.order_items
  pub from :
      (y : OrderItem)
      → Memᴰ y db'.order_items
      → Memᴰ y db.order_items
        ⊎ ((x : OrderItem) × Memᴰ x db.order_items
            × (x.status ≡ OrderItemStatus.ready_to_package)
            × (y ≡ in_its_package id_for x))
  pub evolves : Evolves db.order_items db'.order_items
  pub same_billing : db'.billing ≡ db.billing
  pub unique : HasUniqueIds db'.order_items

module _ ⦃prisma : Prisma⦄ (id_for : ℕ → ℕ) (now : ℕ) (db : WashDb)
    (u : HasUniqueIds db.order_items) where
  abbrev read : List OrderItem
  read = find_many is_ready_to_package db.order_items

  abbrev groups : List OrderGroup
  groups = group_by_order read []

  listed-of_order :
      {x : OrderItem}
      → Memᴰ x db.order_items
      → (order : ℕ) → is_listed x.id order read ≡ true
      → (order ≡ x.order_id) × (is_ready_to_package x ≡ true)
  listed-of_order {x} m order l =
      let (y, n, t) =
        some_of-mem (λ r. is_ready_to_package r && (r.id == x.id && r.order_id == order))
          db.order_items
          (sym (
              some_of-find_many is_ready_to_package (λ i. i.id == x.id && i.order_id == order)
                db.order_items)
            ∙ l) in
      let same : y ≡ x = u x.id y x n (ground arith) m (==_refl x.id) in
      let order_is : y.order_id ≡ order = ==→eq y.order_id order (ground arith) in
      (
        sym order_is ∙ ap (λ (z : OrderItem). z.order_id) same,
        subst (λ z. is_ready_to_package z ≡ true) same (ground arith),
      )

  All-IsListed : All (IsListed read) groups
  All-IsListed = group_by_order-IsListed read read [] (λ i m. mem-is_listed read m) tt

  of_order :
      {x : OrderItem}
      → Memᴰ x db.order_items
      → (gs : List OrderGroup) → All (IsListed read) gs
      → All (OfItsOrder id_for x) gs
  of_order m [] a = tt
  of_order {x} m (g ∷ gs) a =
      (λ c. (listed-of_order m g.order_id (a.0 x.id c)).0, of_order m gs a.1)

  in_groups-ready : (x : OrderItem) → in_groups x.id groups ≡ some_of (λ i. i.id == x.id) read
  in_groups-ready x = group_by_order-in read [] x.id

  ready-in_groups :
      {x : OrderItem}
      → Memᴰ x db.order_items
      → is_ready_to_package x ≡ true
      → in_groups x.id groups ≡ true
  ready-in_groups {x} m t =
      in_groups-ready x
      ∙ some_of-find_many is_ready_to_package (λ i. i.id == x.id) db.order_items
      ∙ mem-some_of (λ r. is_ready_to_package r && r.id == x.id) db.order_items m
          (ground (arith, ==_refl x.id))

  not_ready-in_groups :
      {x : OrderItem}
      → Memᴰ x db.order_items
      → is_ready_to_package x ≡ false
      → in_groups x.id groups ≡ false
  not_ready-in_groups {x} m t = elim (Bool-cases (in_groups x.id groups)) [
    | inr e ↦ e
    | inl e ↦
        let (y, n, both) =
          some_of-mem (λ r. is_ready_to_package r && r.id == x.id) db.order_items
            (sym (
                in_groups-ready x
                ∙ some_of-find_many is_ready_to_package (λ i. i.id == x.id) db.order_items)
              ∙ e) in
        let same : y ≡ x = u x.id y x n (ground arith) m (==_refl x.id) in
        absurd (cc (subst (λ z. is_ready_to_package z ≡ true) same (ground arith)))
  ]

  packed-IsLater :
      (x : OrderItem) → is_ready_to_package x ≡ true → IsLater x (in_its_package id_for x)
  packed-IsLater x t = record {
    same_id = refl;
    same_order = refl;
    reach =
        subst (λ s. Reach s OrderItemStatus.ready_for_delivery)
          (sym (same_item_status→eq x.status OrderItemStatus.ready_to_package t))
          (next here packaged);
  }

  -- What the loop makes of an item.
  row-IsLater : (x : OrderItem) → Memᴰ x db.order_items → IsLater x (pack_row id_for groups x)
  row-IsLater x m = elim (Bool-cases (is_ready_to_package x)) [
    | inl t ↦
        subst (IsLater x)
          (sym
            (pack_row-hit id_for groups x (of_order m groups All-IsListed) (ready-in_groups m t)))
          (packed-IsLater x t)
    | inr t ↦
        subst (IsLater x) (sym (pack_row-miss id_for groups x (not_ready-in_groups m t)))
          (IsLater-refl x)
  ]

  ArePacked-IsPacked :
      (db' : WashDb) → ArePacked id_for now groups db db' → IsPacked id_for now db db'
  ArePacked-IsPacked db' p = record {
    ready = λ x m is.
        let t : is_ready_to_package x ≡ true = rw is refl in
        let inside = ready-in_groups m t in
        let (g, n, c) = some_of-mem (λ g. contains (ids_of g) x.id) groups inside in
        let order = mem-All (OfItsOrder id_for x) groups (of_order m groups All-IsListed) n c in
        (
          subst (λ z. Memᴰ z db'.order_items)
              (pack_row-hit id_for groups x (of_order m groups All-IsListed) inside) (p.kept x m),
          subst
              (λ k.
                Memᴰ (record { id = id_for k; order_id = k; created_at = now }) db'.item_packages)
              order (p.packages g n),
        );
    others = λ x m t.
        subst (λ z. Memᴰ z db'.order_items)
          (pack_row-miss id_for groups x (not_ready-in_groups m t)) (p.kept x m);
    from = λ y m.
        let (x, n, e) = p.from y m in
        elim (Bool-cases (is_ready_to_package x)) [
          | inl t ↦ inr (
            x,
            n,
            same_item_status→eq x.status OrderItemStatus.ready_to_package t,
            e ∙ pack_row-hit id_for groups x (of_order n groups All-IsListed) (ready-in_groups n t),
          )
          | inr t ↦ inl (
              subst (λ z. Memᴰ z db.order_items)
                (sym (e ∙ pack_row-miss id_for groups x (not_ready-in_groups n t))) n)
        ];
    same_billing = p.same_billing;
    unique = p.unique u;
    evolves = record {
      kept = λ x m. (pack_row id_for groups x, p.kept x m, row-IsLater x m);
      from =
          λ y m. let (x, n, e) = p.from y m in (x, n, subst (IsLater x) (sym e) (row-IsLater x n));
    };
  }

  -- `createPackages` returns, where item ids are unique. Then every item that was READY_TO_PACKAGE
  -- is READY_FOR_DELIVERY in the new package of its order, and every other item is as before.
  pub create_packages-IsPacked :
      Returns (λ views db'. IsPacked id_for now db db') (create_packages id_for now db)
  unfolding create_packages
  create_packages-IsPacked =
      Returns-map (pack_groups id_for now groups db) (λ views db' p. ArePacked-IsPacked db' p)
        (pack_groups-ArePacked id_for now groups db)
