-- ===== src/Delivery/Packages/Loading.antt =====
-- The effect of an outbound scan on the items.
use laundry_api.Base.{
  ℕ, ◌≡◌, refl, sym, ◌∙◌, subst, true, false, Memᴰ, Bool-cases, inl, inr, ◌==◌, map, ==→eq,
  if◌then◌else◌,
}
use laundry_api.Store.{Prisma}
use laundry_api.Store.Laws.{mem-append_right, update_where-mem}
use laundry_api.Tx.{ok, Returns}
use laundry_api.Orders.Lifecycle.{Evolves, Reach, next, here, loaded, update_where-Evolves}
use laundry_api.Orders.Selected.{HasUniqueIds, contains-mem, mem-map, mem-selected, selected-mem}
use laundry_api.Orders.Types.{OrderItem, OrderItemLocation, OrderItemStatus, in_ids, in_package}
use laundry_api.Route.Types.{ActorContext}
use laundry_api.Delivery.Types.{
  DeliveryDb, DeliveryPackageView, DeliveryRun, DeliveryRunItem, ItemPackage,
  PackageScanOutboundResult,
}
use laundry_api.Delivery.Packages.{loaded_before, place, scan_outbound}
use laundry_api.Delivery.Packages.Find.{find_package_by_id-IsViewOf, mem-all_in}
use laundry_api.Delivery.Packages.Gate.{after_loading, ids_of, load_items-ok, scan-rows}
use laundry_api.Delivery.Packages.Outbound.{
  AllIn, Decided, IsDeliverable, IsLoadedBefore, count-paid, loaded_before-IsLoadedBefore,
  scan_outbound-Decided,
}

-- The item in the van.
abbrev pub in_van : OrderItem → OrderItem
in_van = place OrderItemStatus.delivering OrderItemLocation.delivering_truck

abbrev pub run_item : ℕ → ℕ → DeliveryRunItem
run_item run item = record { run_id = run; order_item_id = item }

module _ ⦃prisma : Prisma⦄ (id : ℕ) (actor : ActorContext) (db : DeliveryDb) where
  -- Just the items of the package are in the van of the run; the others are as before.
  pub record IsLoaded (run : ℕ) (db' : DeliveryDb) : Type 0 where
    pub moved :
        (x : OrderItem)
        → Memᴰ x db.order_items
        → in_package id x ≡ true
        → Memᴰ (in_van x) db'.order_items × Memᴰ (run_item run x.id) db'.delivery_run_items
    pub others :
        (x : OrderItem) → Memᴰ x db.order_items → in_package id x ≡ false → Memᴰ x db'.order_items

  module _ (u : HasUniqueIds db.order_items) where
    loading-IsLoaded :
        (pkg : ItemPackage) (run : ℕ) → pkg.id ≡ id → IsLoaded run (after_loading pkg run actor db)
    loading-IsLoaded pkg run same = record {
      moved = λ x m t.
          let hit : in_ids (ids_of pkg db) x ≡ true =
            mem-selected (in_package pkg.id) db.order_items m
              (subst (λ n. in_package n x ≡ true) (sym same) t) in
          (
            subst
                (λ b. Memᴰ (if b then in_van x else x) (after_loading pkg run actor db).order_items)
                hit (update_where-mem (in_ids (ids_of pkg db)) in_van db.order_items m),
            mem-append_right db.delivery_run_items (map (run_item run) (ids_of pkg db))
                (mem-map (run_item run) (ids_of pkg db) (contains-mem (ids_of pkg db) x.id hit)),
          );
      others = λ x m t. elim (Bool-cases (in_ids (ids_of pkg db) x)) [
        | inl hit ↦
            let inside = selected-mem (in_package pkg.id) db.order_items u m hit in
            absurd (cc (subst (λ n. in_package n x ≡ true) same inside))
        | inr miss ↦
            subst
              (λ b. Memᴰ (if b then in_van x else x) (after_loading pkg run actor db).order_items)
              miss (update_where-mem (in_ids (ids_of pkg db)) in_van db.order_items m)
      ];
    }

    loading-Evolves :
        (pkg : ItemPackage) (run : ℕ)
        → pkg.id ≡ id
        → AllIn OrderItemStatus.ready_for_delivery id db
        → Evolves db.order_items (after_loading pkg run actor db).order_items
    loading-Evolves pkg run same all =
        update_where-Evolves (in_ids (ids_of pkg db)) in_van db.order_items λ x m t.
          let inside =
            subst (λ n. in_package n x ≡ true) same
              (selected-mem (in_package pkg.id) db.order_items u m t) in
          record {
            same_id = refl;
            same_order = refl;
            reach =
                subst (λ s. Reach s OrderItemStatus.delivering) (sym (all x m inside))
                  (next here loaded);
          }

    -- A scan of a package that may leave, none of whose items was loaded before, returns: just its
    -- items are in the van of the actor's run.
    pub scan_outbound-IsLoaded :
        (view : DeliveryPackageView) (run : DeliveryRun)
        → IsDeliverable id actor db view run
        → ¬ IsLoadedBefore id db
        → Returns (λ r db'. IsLoaded run.id db') (scan_outbound id actor db)
    scan_outbound-IsLoaded view run d fresh =
        let of = find_package_by_id-IsViewOf db id d.shown in
        elim (Bool-cases (loaded_before (ids_of of.pkg db) db)) [
          | inl e ↦ absurd (fresh (loaded_before-IsLoadedBefore id actor db of.pkg of.same_id e))
          | inr e ↦
              subst (Returns (λ r db'. IsLoaded run.id db'))
                (sym (
                  scan-rows id actor db d.shown
                    (mem-all_in db id of OrderItemStatus.ready_for_delivery d.ready)
                    (count-paid db view.order_id d.paid) d.running of
                  ∙ load_items-ok of.pkg run.id actor db e))
                (loading-IsLoaded of.pkg run.id of.same_id)
        ]

    -- Every outbound scan that returns moves the items along their life.
    pub scan_outbound-Evolves :
        {r : PackageScanOutboundResult} {db' : DeliveryDb}
        → scan_outbound id actor db ≡ ok (r, db')
        → Evolves db.order_items db'.order_items
    scan_outbound-Evolves {r} {db'} e =
        let (view, run, pkg, d, found, same) =
          subst (Decided id actor db) e (scan_outbound-Decided id actor db) in
        subst (λ t. Evolves db.order_items t.order_items) (sym same)
          (loading-Evolves pkg run.id
            (==→eq pkg.id id (prisma.find_first_test (λ p. p.id == id) db.item_packages found))
            d.ready)
