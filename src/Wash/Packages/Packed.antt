-- ===== src/Wash/Packages/Packed.antt =====
-- The loop over the groups packs each item that is ready, once, with the items of its order.
use laundry_api.Base.{
  ℕ, ◌≡◌, refl, sym, ap, ◌∙◌, subst, List, [], ◌∷◌, Memᴰ, Bool-cases, inl, inr, if◌then◌else◌,
}
use laundry_api.Delivery.Types.{ItemPackage}
use laundry_api.Orders.Selected.{HasUniqueIds, update_where-HasUniqueIds}
use laundry_api.Orders.Types.{OrderItem, in_ids}
use laundry_api.Store.{Prisma}
use laundry_api.Store.Laws.{mem-append_left, mem-append_right, mem-update_where, update_where-mem}
use laundry_api.Store.Many.{contains}
use laundry_api.Tx.{Returns, Returns-bind}
use laundry_api.Wash.Types.{WashDb}
use laundry_api.Wash.Packages.{OrderGroup, connected, pack_group, pack_groups, pack_rows, packed}
use laundry_api.Wash.Packages.Grouping.{ids_of}

module _ (id_for : ℕ → ℕ) where
  -- What becomes of one row.
  abbrev pub pack_one : OrderGroup → OrderItem → OrderItem
  pack_one g i = if contains (ids_of g) i.id then packed (connected (id_for g.order_id) i) else i

  abbrev pub pack_row : List OrderGroup → OrderItem → OrderItem
  pack_row [] i = i
  pack_row (g ∷ groups) i = pack_row groups (pack_one g i)

module _ (id_for : ℕ → ℕ) (now : ℕ) where
  abbrev pub package_of : OrderGroup → ItemPackage
  package_of g = record { id = id_for g.order_id; order_id = g.order_id; created_at = now }

  -- The rows after the loop: each item as packed by the groups, and a package for each group.
  pub record ArePacked (groups : List OrderGroup) (db db' : WashDb) : Type 0 where
    pub kept :
        (x : OrderItem) → Memᴰ x db.order_items → Memᴰ (pack_row id_for groups x) db'.order_items
    pub from :
        (y : OrderItem)
        → Memᴰ y db'.order_items
        → (x : OrderItem) × Memᴰ x db.order_items × (y ≡ pack_row id_for groups x)
    pub packages : (g : OrderGroup) → Memᴰ g groups → Memᴰ (package_of g) db'.item_packages
    pub old_packages : (p : ItemPackage) → Memᴰ p db.item_packages → Memᴰ p db'.item_packages
    pub same_billing : db'.billing ≡ db.billing
    pub unique : HasUniqueIds db.order_items → HasUniqueIds db'.order_items

  abbrev pub after_group : OrderGroup → WashDb → WashDb
  after_group g db = pack_rows (id_for g.order_id) g.order_id (ids_of g) now db

  two_updates :
      (g : OrderGroup) (x : OrderItem)
      → let y : OrderItem = if in_ids (ids_of g) x then connected (id_for g.order_id) x else x in
        (if in_ids (ids_of g) y then packed y else y) ≡ pack_one id_for g x
  two_updates g x = elim (Bool-cases (in_ids (ids_of g) x)) [
    | inl e ↦ rw (e, e) refl
    | inr e ↦ rw (e, e) refl
  ]

  after_group-kept :
      (g : OrderGroup) (db : WashDb) (x : OrderItem)
      → Memᴰ x db.order_items
      → Memᴰ (pack_one id_for g x) (after_group g db).order_items
  after_group-kept g db x m =
      subst (λ z. Memᴰ z (after_group g db).order_items) (two_updates g x)
        (update_where-mem (in_ids (ids_of g)) packed _
          (update_where-mem (in_ids (ids_of g)) (connected (id_for g.order_id)) db.order_items m))

  after_group-from :
      (g : OrderGroup) (db : WashDb) (y : OrderItem)
      → Memᴰ y (after_group g db).order_items
      → (x : OrderItem) × Memᴰ x db.order_items × (y ≡ pack_one id_for g x)
  after_group-from g db y m =
      let (z, n, e) = mem-update_where (in_ids (ids_of g)) packed _ m in
      let (x, o, f) =
        mem-update_where (in_ids (ids_of g)) (connected (id_for g.order_id)) db.order_items n in
      (x, o, e ∙ ap (λ k. if in_ids (ids_of g) k then packed k else k) f ∙ two_updates g x)

  ArePacked-cons :
      (g : OrderGroup) (groups : List OrderGroup) (db db' : WashDb)
      → ArePacked groups (after_group g db) db'
      → ArePacked (g ∷ groups) db db'
  ArePacked-cons g groups db db' p = record {
    kept = λ x m. p.kept (pack_one id_for g x) (after_group-kept g db x m);
    from = λ y m.
        let (z, n, e) = p.from y m in
        let (x, o, f) = after_group-from g db z n in (x, o, e ∙ ap (pack_row id_for groups) f);
    packages = packages;
    same_billing = p.same_billing;
    unique = λ u. p.unique (
        update_where-HasUniqueIds (in_ids (ids_of g)) packed _ (λ x. refl)
          (update_where-HasUniqueIds (in_ids (ids_of g)) (connected (id_for g.order_id))
            db.order_items (λ x. refl) u));
    old_packages = λ q m. p.old_packages q (mem-append_left db.item_packages (package_of g ∷ []) m);
  }
    where
      packages : (h : OrderGroup) → Memᴰ h (g ∷ groups) → Memᴰ (package_of h) db'.item_packages
      packages h (Memᴰ.head e) =
          subst (λ z. Memᴰ (package_of z) db'.item_packages) (sym e)
            (p.old_packages (package_of g)
              (mem-append_right db.item_packages (package_of g ∷ []) (Memᴰ.head refl)))
      packages h (Memᴰ.tail m) = p.packages h m

  pub pack_groups-ArePacked :
      ⦃prisma : Prisma⦄ (groups : List OrderGroup) (db : WashDb)
      → Returns (λ views db'. ArePacked groups db db') (pack_groups id_for now groups db)
  unfolding pack_groups pack_group
  pack_groups-ArePacked [] db = record {
    kept = λ x m. m;
    from = λ y m. (y, m, refl);
    packages = λ g m. elim m [ ];
    old_packages = λ p m. m;
    same_billing = refl;
    unique = λ u. u;
  }
  pack_groups-ArePacked ⦃prisma = prisma⦄ (g ∷ groups) db =
      Returns-bind (λ views db'. ArePacked groups (after_group g db) db')
        (λ views db'. ArePacked (g ∷ groups) db db') (pack_groups id_for now groups) _
        (after_group g db) (pack_groups-ArePacked groups (after_group g db))
        λ views db' p. ArePacked-cons g groups db db' p
