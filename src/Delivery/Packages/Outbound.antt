-- ===== src/Delivery/Packages/Outbound.antt =====
-- What an outbound scan does, on every branch.
use laundry_api.Base.{
  ℕ, ◌≡◌, refl, sym, ◌∙◌, subst, true, false, some, Memᴰ, arith, Option-cases, Bool-cases, inl, inr,
  ltb, ◌==◌, some_of, some_of-mem, mem-some_of, ◌&&◌,
}
use laundry_api.Billing.Repository.{waiting_of}
use laundry_api.Errors.{
  Thrown, active_run_not_found, billing_not_paid, domain, known_request, of_delivery,
  package_not_found, package_not_deliverable, type_error,
}
use laundry_api.Store.{Prisma}
use laundry_api.Store.Laws.{count-mem, mem-count}
use laundry_api.Store.Many.{contains, contains-find_many}
use laundry_api.Tx.{Result, ok, err}
use laundry_api.Orders.Types.{OrderItem, OrderItemStatus, in_package, same_item_status}
use laundry_api.Route.Types.{ActorContext}
use laundry_api.Delivery.Types.{
  DeliveryDb, DeliveryPackageView, DeliveryRun, ItemPackage, PackageScanOutboundResult,
}
use laundry_api.Delivery.Repository.{
  active_run_of, count_waiting_billings, find_active_run, find_package_by_id,
}
use laundry_api.Delivery.Packages.{load_items, loaded_before, scan_outbound}
use laundry_api.Delivery.Packages.Find.{
  IsViewOf, NoOrder, NoPackage, all_in, all_in-bad, all_in-mem, find_package_by_id-IsViewOf,
  find_package_by_id-cases,
}
use laundry_api.Delivery.Packages.Gate.{
  IsUnpaid, after_loading, ids_of, load_items-err, load_items-ok, scan-broken, scan-missing,
  scan-no_run, scan-not_ready, scan-rows, scan-unpaid,
}

-- Every item of the package has the status.
abbrev pub AllIn : OrderItemStatus → ℕ → DeliveryDb → Type 0
AllIn status id db =
    (x : OrderItem) → Memᴰ x db.order_items → in_package id x ≡ true → x.status ≡ status

-- An item of the package has been loaded before.
abbrev pub IsLoadedBefore : ℕ → DeliveryDb → Type 0
IsLoadedBefore id db =
    (x : OrderItem) × Memᴰ x db.order_items
    × (in_package id x ≡ true)
    × (some_of (λ r. r.order_item_id == x.id) db.delivery_run_items ≡ true)

IsUnpaid-count :
    (db : DeliveryDb) (order : ℕ)
    → ltb 0 (count_waiting_billings db order) ≡ true
    → IsUnpaid order db
unfolding count_waiting_billings
IsUnpaid-count db order e =
    let (b, m, t) = count-mem (waiting_of order) db.billing_requests e in
    (b, m, ground arith, ground arith)

paid_count :
    (db : DeliveryDb) (order : ℕ)
    → ltb 0 (count_waiting_billings db order) ≡ false
    → ¬ IsUnpaid order db
unfolding count_waiting_billings
paid_count db order e (b, m, same, waits) =
    let no = mem-count (waiting_of order) db.billing_requests e m in ground arith

pub count-paid :
    (db : DeliveryDb) (order : ℕ)
    → ¬ IsUnpaid order db
    → ltb 0 (count_waiting_billings db order) ≡ false
unfolding count_waiting_billings
count-paid db order paid = elim (Bool-cases (ltb 0 (count_waiting_billings db order))) [
  | inl e ↦ absurd (paid (IsUnpaid-count db order e))
  | inr e ↦ e
]

module _ ⦃prisma : Prisma⦄ (id : ℕ) (actor : ActorContext) (db : DeliveryDb) where
  -- The package may leave with the run.
  pub record IsDeliverable (view : DeliveryPackageView) (run : DeliveryRun) : Type 0 where
    pub shown : find_package_by_id db id ≡ ok (some view)
    pub ready : AllIn OrderItemStatus.ready_for_delivery id db
    pub paid : ¬ IsUnpaid view.order_id db
    pub running : find_active_run db actor.actor_id ≡ some run

  -- Why an outbound scan is refused, with the error that says so.
  pub data Refusal : Thrown → Type 0 where
    no_package : NoPackage db id → Refusal (domain (of_delivery (package_not_found id)))
    no_order : NoOrder db id → Refusal type_error
    not_ready :
        (x : OrderItem)
        → Memᴰ x db.order_items
        → in_package id x ≡ true
        → same_item_status x.status OrderItemStatus.ready_for_delivery ≡ false
        → Refusal (domain (of_delivery (package_not_deliverable id)))
    unpaid :
        (view : DeliveryPackageView)
        → find_package_by_id db id ≡ ok (some view)
        → AllIn OrderItemStatus.ready_for_delivery id db
        → IsUnpaid view.order_id db
        → Refusal (domain (of_delivery (billing_not_paid view.order_id)))
    no_run :
        ((r : DeliveryRun) → Memᴰ r db.delivery_runs → active_run_of actor.actor_id r ≡ false)
        → Refusal (domain (of_delivery active_run_not_found))
    loaded_twice : IsLoadedBefore id db → Refusal (known_request "P2002")

  -- A scan that returns has a package that may leave; one that throws has a reason.
  abbrev pub Decided : Result (PackageScanOutboundResult × DeliveryDb) → Type 0
  Decided (ok (r, db')) =
      (view : DeliveryPackageView) × (run : DeliveryRun) × (pkg : ItemPackage) × IsDeliverable view
        run
      × (prisma.find_first (λ p. p.id == id) db.item_packages ≡ some pkg)
      × (db' ≡ after_loading pkg run.id actor db)
  Decided (err e) = Refusal e

  pub loaded_before-IsLoadedBefore :
      (pkg : ItemPackage)
      → pkg.id ≡ id
      → loaded_before (ids_of pkg db) db ≡ true
      → IsLoadedBefore id db
  loaded_before-IsLoadedBefore pkg same e =
      let (r, n, c) =
        some_of-mem (λ r. contains (ids_of pkg db) r.order_item_id) db.delivery_run_items e in
      let (x, m, both) =
        some_of-mem (λ i. in_package pkg.id i && i.id == r.order_item_id) db.order_items
          (sym (contains-find_many (λ i. i.id) (in_package pkg.id) db.order_items r.order_item_id)
            ∙ c) in
      (
        x,
        m,
        subst (λ n. in_package n x ≡ true) same (ground arith),
        mem-some_of (λ r. r.order_item_id == x.id) db.delivery_run_items n (ground arith),
      )

  decide_rows :
      (view : DeliveryPackageView) (run : DeliveryRun)
      → IsDeliverable view run
      → (of : IsViewOf db id view) → Decided (load_items of.pkg run.id actor db)
  decide_rows view run d of = elim (Bool-cases (loaded_before (ids_of of.pkg db) db)) [
    | inl e ↦
        subst Decided (sym (load_items-err of.pkg run.id actor db e))
          (loaded_twice (loaded_before-IsLoadedBefore of.pkg of.same_id e))
    | inr e ↦
        subst Decided (sym (load_items-ok of.pkg run.id actor db e))
          (view, run, of.pkg, d, of.found, refl)
  ]

  decide_run :
      (view : DeliveryPackageView)
      → find_package_by_id db id ≡ ok (some view)
      → all_in OrderItemStatus.ready_for_delivery view.items ≡ true
      → AllIn OrderItemStatus.ready_for_delivery id db
      → ltb 0 (count_waiting_billings db view.order_id) ≡ false
      → Decided (scan_outbound id actor db)
  unfolding find_active_run
  decide_run view e f all g = elim (Option-cases (find_active_run db actor.actor_id)) [
    | inl h ↦
        subst Decided (sym (scan-no_run id actor db e f g h)) (
          no_run
            (λ r m. prisma.find_first_none (active_run_of actor.actor_id) db.delivery_runs h m))
    | inr (run, h) ↦
        let of = find_package_by_id-IsViewOf db id e in
        subst Decided (sym (scan-rows id actor db e f g h of)) (
          decide_rows view run
            (record { shown = e; ready = all; paid = paid_count db view.order_id g; running = h })
            of)
  ]

  decide_view :
      (view : DeliveryPackageView)
      → find_package_by_id db id ≡ ok (some view)
      → Decided (scan_outbound id actor db)
  decide_view view e =
      let of = find_package_by_id-IsViewOf db id e in
      elim (Bool-cases (all_in OrderItemStatus.ready_for_delivery view.items)) [
        | inr f ↦
            let (x, m, t, bad) = all_in-bad db id of OrderItemStatus.ready_for_delivery f in
            subst Decided (sym (scan-not_ready id actor db e f)) (not_ready x m t bad)
        | inl f ↦
            let all : AllIn OrderItemStatus.ready_for_delivery id db =
              λ x m t. all_in-mem db id of OrderItemStatus.ready_for_delivery f m t in
            elim (Bool-cases (ltb 0 (count_waiting_billings db view.order_id))) [
              | inl g ↦
                  subst Decided (sym (scan-unpaid id actor db e f g))
                    (unpaid view e all (IsUnpaid-count db view.order_id g))
              | inr g ↦ decide_run view e f all g
            ]
      ]

  -- An outbound scan either returns, and then every item of the package was READY_FOR_DELIVERY, no
  -- billing request of the order was WAITING, the actor had an active run and just the package's
  -- items are loaded into it; or it throws, and then the error names a reason that holds: no package
  -- has the id, an item is not ready, a request is WAITING, the actor has no active run, an item was
  -- loaded before, or, which foreign keys exclude, the package has no order.
  pub scan_outbound-Decided : Decided (scan_outbound id actor db)
  scan_outbound-Decided = elim (find_package_by_id-cases db id) [
    | inl (e, lack) ↦ subst Decided (sym (scan-missing id actor db e)) (no_package lack)
    | inr (inl (view, e)) ↦ decide_view view e
    | inr (inr (e, lack)) ↦ subst Decided (sym (scan-broken id actor db e)) (no_order lack)
  ]
