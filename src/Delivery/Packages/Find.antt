-- ===== src/Delivery/Packages/Find.antt =====
-- What `findPackageById` shows of the tables.
use laundry_api.Base.{
  ℕ, ◌≡◌, ◌⊎◌, none, sym, ap, ◌∙◌, Bool, true, false, some, List, Memᴰ, arith, every, map, ◌==◌,
  ==→eq, Option-cases, inl, inr,
}
use laundry_api.Errors.{type_error}
use laundry_api.Tx.{ok, err}
use laundry_api.Store.{Prisma}
use laundry_api.Store.Many.{
  every-find_many-mem, every-map, find_many, find_many-bad, find_many-every,
}
use laundry_api.Orders.Types.{
  LaundryOrder, OrderItem, OrderItemStatus, in_package, same_item_status, same_item_status→eq,
}
use laundry_api.Delivery.Types.{DeliveryDb, DeliveryPackageItem, DeliveryPackageView, ItemPackage}
use laundry_api.Delivery.Repository.{find_package_by_id, package_view, to_package_item}

-- `pkg.items.every((i) => i.status === status)`.
abbrev pub all_in : OrderItemStatus → List DeliveryPackageItem → Bool
all_in status items = every (λ i. same_item_status i.status status) items

module _ ⦃prisma : Prisma⦄ where
  -- The row behind a view.
  pub record IsViewOf (db : DeliveryDb) (id : ℕ) (view : DeliveryPackageView) : Type 0 where
    pub pkg : ItemPackage
    pub found : prisma.find_first (λ p. p.id == id) db.item_packages ≡ some pkg
    pub same_id : pkg.id ≡ id
    pub same_order : view.order_id ≡ pkg.order_id
    pub items : view.items ≡ map to_package_item (find_many (in_package id) db.order_items)

  view_of :
      (db : DeliveryDb) (pkg : ItemPackage) {view : DeliveryPackageView}
      → package_view db (find_many (in_package pkg.id) db.order_items) pkg ≡ some view
      → (view.order_id ≡ pkg.order_id)
        × (view.items ≡ map to_package_item (find_many (in_package pkg.id) db.order_items))
  view_of db pkg e = elim (Option-cases (prisma.find_first (λ o. o.id == pkg.order_id) db.orders)) [
    | inl miss ↦ absurd (ground arith)
    | inr (order, hit) ↦ ground arith
  ]

  pub find_package_by_id-IsViewOf :
      (db : DeliveryDb) (id : ℕ) {view : DeliveryPackageView}
      → find_package_by_id db id ≡ ok (some view)
      → IsViewOf db id view
  unfolding find_package_by_id
  find_package_by_id-IsViewOf db id {view} e =
      elim (Option-cases (prisma.find_first (λ p. p.id == id) db.item_packages)) [
        | inl miss ↦ absurd (ground arith)
        | inr (pkg, hit) ↦
            elim (Option-cases
              (package_view db (find_many (in_package pkg.id) db.order_items) pkg)) [
                | inl miss ↦ absurd (ground arith)
                | inr (v, made) ↦
                    let is : v ≡ view = ground arith in
                    let same : pkg.id ≡ id =
                      ==→eq pkg.id id
                        (prisma.find_first_test (λ p. p.id == id) db.item_packages hit) in
                    let shown = view_of db pkg {view = view} (made ∙ ap some is) in
                    record {
                      pkg = pkg;
                      found = hit;
                      same_id = same;
                      same_order = shown.0;
                      items =
                          shown.1
                          ∙ ap (λ n. map to_package_item (find_many (in_package n) db.order_items))
                              same;
                    }
              ]
      ]

  -- No package has the id.
  abbrev pub NoPackage : DeliveryDb → ℕ → Type 0
  NoPackage db id = (p : ItemPackage) → Memᴰ p db.item_packages → (p.id == id) ≡ false

  -- A package with the id has no order.
  abbrev pub NoOrder : DeliveryDb → ℕ → Type 0
  NoOrder db id =
      (p : ItemPackage) × Memᴰ p db.item_packages
      × ((p.id == id) ≡ true)
      × ((o : LaundryOrder) → Memᴰ o db.orders → (o.id == p.order_id) ≡ false)

  package_view-none :
      (db : DeliveryDb) (pkg : ItemPackage)
      → package_view db (find_many (in_package pkg.id) db.order_items) pkg ≡ none
      → (o : LaundryOrder) → Memᴰ o db.orders
      → (o.id == pkg.order_id) ≡ false
  package_view-none db pkg e o m =
      elim (Option-cases (prisma.find_first (λ o. o.id == pkg.order_id) db.orders)) [
        | inl miss ↦ prisma.find_first_none (λ o. o.id == pkg.order_id) db.orders miss m
        | inr (order, hit) ↦ absurd (ground arith)
      ]

  -- `findPackageById` finds nothing, a view, or a package without its order.
  pub find_package_by_id-cases :
      (db : DeliveryDb) (id : ℕ)
      → ((find_package_by_id db id ≡ ok none) × NoPackage db id)
        ⊎ (((view : DeliveryPackageView) × (find_package_by_id db id ≡ ok (some view)))
            ⊎ ((find_package_by_id db id ≡ err type_error) × NoOrder db id))
  unfolding find_package_by_id
  find_package_by_id-cases db id =
      elim (Option-cases (prisma.find_first (λ p. p.id == id) db.item_packages)) [
        | inl miss ↦
            inl (
              ground arith,
              λ p m. prisma.find_first_none (λ p. p.id == id) db.item_packages miss m,
            )
        | inr (pkg, hit) ↦
            elim (Option-cases
              (package_view db (find_many (in_package pkg.id) db.order_items) pkg)) [
                | inr (view, made) ↦ inr (inl (view, ground arith))
                | inl gone ↦ inr (
                    inr (
                      ground arith,
                      (
                        pkg,
                        prisma.find_first_mem (λ p. p.id == id) db.item_packages hit,
                        prisma.find_first_test (λ p. p.id == id) db.item_packages hit,
                        package_view-none db pkg gone,
                      ),
                    ))
              ]
      ]

  module _ (db : DeliveryDb) (id : ℕ) {view : DeliveryPackageView} (of : IsViewOf db id view) where
    all_in-rows :
        (status : OrderItemStatus)
        → all_in status view.items
          ≡ every (λ i. same_item_status i.status status) (find_many (in_package id) db.order_items)
    all_in-rows status =
        ap (all_in status) of.items
        ∙ every-map (λ i. same_item_status i.status status) to_package_item
            (find_many (in_package id) db.order_items)

    -- Every item of the package has the status.
    pub all_in-mem :
        (status : OrderItemStatus) {x : OrderItem}
        → all_in status view.items ≡ true
        → Memᴰ x db.order_items
        → in_package id x ≡ true
        → x.status ≡ status
    all_in-mem status {x} h m t = same_item_status→eq x.status status (
        every-find_many-mem (in_package id) (λ i. same_item_status i.status status) db.order_items
          (sym (all_in-rows status) ∙ h) m t)

    pub mem-all_in :
        (status : OrderItemStatus)
        → ((x : OrderItem) → Memᴰ x db.order_items → in_package id x ≡ true → x.status ≡ status)
        → all_in status view.items ≡ true
    mem-all_in status h =
        all_in-rows status
        ∙ find_many-every (in_package id) (λ i. same_item_status i.status status) db.order_items
            (λ x m t. rw (h x m t) (ground arith))

    -- Some item of the package has another status.
    pub all_in-bad :
        (status : OrderItemStatus)
        → all_in status view.items ≡ false
        → (x : OrderItem) × Memᴰ x db.order_items
          × (in_package id x ≡ true)
          × (same_item_status x.status status ≡ false)
    all_in-bad status h =
        find_many-bad (in_package id) (λ i. same_item_status i.status status) db.order_items
          (sym (all_in-rows status) ∙ h)
