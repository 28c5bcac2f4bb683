-- ===== src/Delivery/Packages/LastPackage.antt =====
-- A handoff finishes the order with its last package, and keeps to the life of the items.
use laundry_api.Base.{
  ℕ, ◌≡◌, refl, sym, ap, ◌∙◌, subst, true, false, not, none, some, List, Memᴰ, arith, every,
  Bool-cases, inl, inr, ◌==◌, some_of, mem-some_of, if◌then◌else◌, ==_refl, Option, ◌⊎◌,
}
use laundry_api.Errors.{type_error, domain, of_delivery, package_not_found, package_not_handoffable}
use laundry_api.Store.{Prisma}
use laundry_api.Store.Laws.{mem-update_where_self, update_where-mem}
use laundry_api.Tx.{ok, err, Returns, Result}
use laundry_api.Orders.Lifecycle.{Evolves, Reach, next, here, delivered, update_where-Evolves}
use laundry_api.Orders.Selected.{HasUniqueIds, mem-selected, selected-mem}
use laundry_api.Orders.Types.{
  LaundryOrder, OrderItem, OrderItemStatus, OrderStatus, in_ids, in_package,
}
use laundry_api.Route.Types.{ActorContext}
use laundry_api.Delivery.Types.{DeliveryDb, DeliveryPackageView, ItemPackage, PackageHandoffResult}
use laundry_api.Delivery.Repository.{find_package_by_id}
use laundry_api.Delivery.Packages.{
  handoff_item, is_finished, new_order_status, order_missing, set_order_status,
}
use laundry_api.Delivery.Packages.Find.{
  IsViewOf, find_package_by_id-IsViewOf, find_package_by_id-cases, all_in, all_in-mem, mem-all_in,
}
use laundry_api.Delivery.Packages.Gate.{ids_of}
use laundry_api.Delivery.Packages.Outbound.{AllIn}
use laundry_api.Delivery.Packages.Handoff.{
  IsHandedOff, IsLast-all_finished, after_handoff, all_finished-IsLast, at_customer,
  hand_off_items-ok, hand_off_items-err, handed_over, handoff-rows, items_of_order, some_finished,
}

-- The two statuses that a handoff of a package with items can give.
pub new_order_status-cases :
    (items : List OrderItem)
    → some_of is_finished items ≡ true
    → ((every is_finished items ≡ true) × (new_order_status items ≡ some OrderStatus.finished))
      ⊎ ((every is_finished items ≡ false)
          × (new_order_status items ≡ some OrderStatus.partial_finished))
new_order_status-cases items h = elim (Bool-cases (every is_finished items)) [
  | inl e ↦ inl (e, ground arith)
  | inr e ↦ inr (e, ground arith)
]

-- The rows of the order after its status is set.
set_order_status-rows :
    (order : ℕ) (new : Option OrderStatus) (s : OrderStatus) (db : DeliveryDb) {o : LaundryOrder}
    → new ≡ some s
    → Memᴰ o (set_order_status order new db).orders
    → o.id ≡ order
    → o.status ≡ s
set_order_status-rows order none s db e m same = cc
set_order_status-rows order (some t) s db {o} e m same =
    let (x, n, hit, at) =
      mem-update_where_self (λ o. o.id == order) (λ o. record o { status = t }) db.orders m
        (rw same (==_refl order)) in
    ground arith

pub set_order_status-items :
    (order : ℕ) (new : Option OrderStatus) (db : DeliveryDb)
    → (set_order_status order new db).order_items ≡ db.order_items
set_order_status-items order none db = refl
set_order_status-items order (some s) db = refl

pub set_order_status-runs :
    (order : ℕ) (new : Option OrderStatus) (db : DeliveryDb)
    → (set_order_status order new db).delivery_runs ≡ db.delivery_runs
set_order_status-runs order none db = refl
set_order_status-runs order (some s) db = refl

order_present :
    (order : ℕ) (new : Option OrderStatus) (db : DeliveryDb) {o : LaundryOrder}
    → Memᴰ o db.orders
    → o.id ≡ order
    → order_missing order new db ≡ false
order_present order none db m same = refl
order_present order (some s) db m same =
    ap not (mem-some_of (λ o. o.id == order) db.orders m (rw same (==_refl order)))

module _ ⦃prisma : Prisma⦄ (pkg : ItemPackage) (actor : ActorContext) (db : DeliveryDb)
    (u : HasUniqueIds db.order_items) where
  after_handoff-IsHandedOff :
      {x : OrderItem}
      → Memᴰ x db.order_items
      → x.order_id ≡ pkg.order_id
      → in_package pkg.id x ≡ true
      → IsHandedOff pkg db (after_handoff pkg actor db)
  after_handoff-IsHandedOff m order inside = record {
    moved = λ y n t.
        subst (Memᴰ (at_customer y))
          (sym (set_order_status-items pkg.order_id new (handed_over pkg actor db)))
          (subst (λ b. Memᴰ (if b then at_customer y else y) (handed_over pkg actor db).order_items)
            (mem-selected (in_package pkg.id) db.order_items n t)
            (update_where-mem (in_ids (ids_of pkg db)) at_customer db.order_items n));
    last = λ o n same all. elim cases [
      | inl (e, s) ↦ set_order_status-rows pkg.order_id new _ (handed_over pkg actor db) s n same
      | inr (e, s) ↦ absurd (IsLast-all_finished pkg actor db all e)
    ];
    not_last = λ o n same some_left. elim cases [
      | inl (e, s) ↦ absurd (some_left (all_finished-IsLast pkg actor db u e))
      | inr (e, s) ↦ set_order_status-rows pkg.order_id new _ (handed_over pkg actor db) s n same
    ];
  }
    where
      new : Option OrderStatus
      new = new_order_status (items_of_order pkg actor db)

      cases :
          ((every is_finished (items_of_order pkg actor db) ≡ true)
            × (new_order_status (items_of_order pkg actor db) ≡ some OrderStatus.finished))
          ⊎ ((every is_finished (items_of_order pkg actor db) ≡ false)
              × (new_order_status (items_of_order pkg actor db)
                  ≡ some OrderStatus.partial_finished))
      cases =
          new_order_status-cases (items_of_order pkg actor db)
            (some_finished pkg actor db m order inside)

  after_handoff-Evolves :
      ((x : OrderItem)
        → Memᴰ x db.order_items
        → in_package pkg.id x ≡ true
        → x.status ≡ OrderItemStatus.delivering)
      → Evolves db.order_items (after_handoff pkg actor db).order_items
  after_handoff-Evolves all =
      subst (Evolves db.order_items)
        (sym (
          set_order_status-items pkg.order_id (new_order_status (items_of_order pkg actor db))
            (handed_over pkg actor db)))
        (update_where-Evolves (in_ids (ids_of pkg db)) at_customer db.order_items λ x m t. record {
          same_id = refl;
          same_order = refl;
          reach =
              subst (λ s. Reach s OrderItemStatus.finished)
                (sym (all x m (selected-mem (in_package pkg.id) db.order_items u m t)))
                (next here delivered);
        })

module _ ⦃prisma : Prisma⦄ (id : ℕ) (actor : ActorContext) (db : DeliveryDb)
    (u : HasUniqueIds db.order_items) where
  module _ (view : DeliveryPackageView) (of : IsViewOf db id view)
      (shown : find_package_by_id db id ≡ ok (some view))
      (all : AllIn OrderItemStatus.delivering id db) where
    -- The handoff of a package whose items are all DELIVERING, with at least one item of its order,
    -- returns: its items are FINISHED at the customer's, and the order is FINISHED when every item
    -- outside the package is, and PARTIAL_FINISHED otherwise.
    pub handoff_item-IsHandedOff :
        (x : OrderItem) (o : LaundryOrder)
        → Memᴰ x db.order_items
        → x.order_id ≡ of.pkg.order_id
        → in_package id x ≡ true
        → Memᴰ o db.orders
        → o.id ≡ of.pkg.order_id
        → Returns (λ r db'. IsHandedOff of.pkg db db') (handoff_item id actor db)
    handoff_item-IsHandedOff x o m order inside n same =
        subst (Returns (λ r db'. IsHandedOff of.pkg db db'))
          (sym (
            handoff-rows id actor db shown (mem-all_in db id of OrderItemStatus.delivering all) of
            ∙ hand_off_items-ok of.pkg actor db (
                order_present of.pkg.order_id (new_order_status (items_of_order of.pkg actor db))
                  (handed_over of.pkg actor db) n same)))
          (after_handoff-IsHandedOff of.pkg actor db u m order
            (subst (λ k. in_package k x ≡ true) (sym of.same_id) inside))

  handoff-missing :
      find_package_by_id db id ≡ ok none
      → handoff_item id actor db ≡ err (domain (of_delivery (package_not_found id)))
  unfolding handoff_item
  handoff-missing e = ground arith

  handoff-broken :
      find_package_by_id db id ≡ err type_error → handoff_item id actor db ≡ err type_error
  unfolding handoff_item
  handoff-broken e = ground arith

  handoff-not_ready :
      {view : DeliveryPackageView}
      → find_package_by_id db id ≡ ok (some view)
      → all_in OrderItemStatus.delivering view.items ≡ false
      → handoff_item id actor db ≡ err (domain (of_delivery (package_not_handoffable id)))
  unfolding handoff_item
  handoff-not_ready e f = ground arith

  -- A handoff that returns has handed over a package whose items were all DELIVERING.
  pub handoff_item-effect :
      {r : PackageHandoffResult} {db' : DeliveryDb}
      → handoff_item id actor db ≡ ok (r, db')
      → (pkg : ItemPackage) × (pkg.id ≡ id)
        × AllIn OrderItemStatus.delivering id db
        × (after_handoff pkg actor db ≡ db')
  handoff_item-effect {r} {db'} done = elim (find_package_by_id-cases db id) [
    | inl (e, lack) ↦ absurd (cc (handoff-missing e))
    | inr (inr (e, lack)) ↦ absurd (cc (handoff-broken e))
    | inr (inl (view, e)) ↦ elim (Bool-cases (all_in OrderItemStatus.delivering view.items)) [
      | inr f ↦ absurd (cc (handoff-not_ready e f))
      | inl f ↦
          let of = find_package_by_id-IsViewOf db id e in
          elim (Bool-cases (
            order_missing of.pkg.order_id (new_order_status (items_of_order of.pkg actor db))
              (handed_over of.pkg actor db))) [
                | inl g ↦
                    absurd
                      (cc (handoff-rows id actor db e f of, hand_off_items-err of.pkg actor db g))
                | inr g ↦
                    let same : ◌≡◌ {A = Result (PackageHandoffResult × DeliveryDb)}
                        (ok (_, after_handoff of.pkg actor db)) (ok (r, db')) =
                      sym (handoff-rows id actor db e f of ∙ hand_off_items-ok of.pkg actor db g)
                      ∙ done in
                    (
                      of.pkg,
                      of.same_id,
                      λ x m t. all_in-mem db id of OrderItemStatus.delivering f m t,
                      ground arith,
                    )
              ]
    ]
  ]

  -- Every handoff that returns moves the items along their life.
  pub handoff_item-Evolves :
      {r : PackageHandoffResult} {db' : DeliveryDb}
      → handoff_item id actor db ≡ ok (r, db')
      → Evolves db.order_items db'.order_items
  handoff_item-Evolves done =
      let (pkg, same, all, there) = handoff_item-effect done in
      subst (λ (t : DeliveryDb). Evolves db.order_items t.order_items) there
        (after_handoff-Evolves pkg actor db u
          (λ x m t. all x m (subst (λ k. in_package k x ≡ true) same t)))
