-- ===== src/Wash/Effects.antt =====
-- What a call of the wash module that returns has found and written.
use laundry_api.Base.{
  ℕ, String, ◌≡◌, refl, sym, ap, ◌∙◌, subst, true, Option, none, some, arith, Bool-cases,
  Option-cases, inl, inr, ◌⊎◌, ◌==◌, ◌&&◌, update_where, ==→eq,
}
use laundry_api.Billing.Service.{on_item_tagged}
use laundry_api.Billing.Types.{BillingDb}
use laundry_api.Orders.Types.{
  OrderItem, OrderItemLocation, OrderItemStatus, same_item_status, same_item_status→eq,
  same_location,
}
use laundry_api.Route.Db.{Db, Env}
use laundry_api.Route.Types.{ActorContext, CurrentStateView}
use laundry_api.Store.{Prisma}
use laundry_api.Tx.{Result-cases, Tx, ok}
use laundry_api.Wash.Types.{WashDb, WashItemView, in_billing, in_route}
use laundry_api.Wash.Items.{
  attach_tag_barcode, find_tagged, set_item_status, sort_if_planned, tag_found, tag_item,
  update_item, with_item_status, with_tag, write_item,
}
use laundry_api.Wash.Views.{query_processing_state}

-- A call of another module leaves the items and the packages alone.
pub in_route-same :
    {A : Type 0} (m : Tx Db A) (db : WashDb) {a : A} {db' : WashDb}
    → in_route m db ≡ ok (a, db')
    → (route : Db) × (m db.route ≡ ok (a, route)) × (db' ≡ record db { route = route })
in_route-same m db e = elim (Result-cases (m db.route)) [
  | inl ((b, route), f) ↦ (route, ground arith, ground arith)
  | inr (x, f) ↦ absurd (ground arith)
]

pub in_billing-same :
    {A : Type 0} (m : Tx BillingDb A) (db : WashDb) {a : A} {db' : WashDb}
    → in_billing m db ≡ ok (a, db')
    → (billing : BillingDb) × (m db.billing ≡ ok (a, billing))
      × (db' ≡ record db { billing = billing })
in_billing-same m db e = elim (Result-cases (m db.billing)) [
  | inl ((b, billing), f) ↦ (billing, ground arith, ground arith)
  | inr (x, f) ↦ absurd (ground arith)
]

module _ ⦃prisma : Prisma⦄ where
  pub update_item-effect :
      (id : ℕ) (f : OrderItem → OrderItem) (db : WashDb) {row : OrderItem} {db' : WashDb}
      → update_item id f db ≡ ok (row, db')
      → (old : OrderItem) × (prisma.find_first (λ i. i.id == id) db.order_items ≡ some old)
        × (row ≡ f old)
        × (db' ≡ write_item id f db)
  unfolding update_item
  update_item-effect id f db {row} {db'} e =
      elim (Option-cases (prisma.find_first (λ i. i.id == id) db.order_items)) [
        | inl g ↦ absurd (ground arith)
        | inr (old, g) ↦ (old, g, ground arith, ground arith)
      ]

  attach-effect :
      (id : ℕ) (barcode : String) (actor : ActorContext) (db : WashDb) {row : OrderItem}
      {db' : WashDb}
      → attach_tag_barcode id barcode actor db ≡ ok (row, db')
      → (old : OrderItem) × (route : Db) × (prisma.find_first (λ i. i.id == id) db.order_items
          ≡ some old)
        × (find_tagged barcode db ≡ none)
        × (row ≡ with_tag barcode old)
        × (db' ≡ record (write_item id (with_tag barcode) db) { route = route })
  unfolding attach_tag_barcode
  attach-effect id barcode actor db {row} {db'} e = elim (Option-cases (find_tagged barcode db)) [
    | inr (other, f) ↦ absurd (ground arith)
    | inl f ↦ elim (Result-cases (update_item id (with_tag barcode) db)) [
      | inr (x, g) ↦ absurd (ground arith)
      | inl ((r, mid), g) ↦
          let (old, h, is, at) = update_item-effect id (with_tag barcode) db g in
          (old, db'.route, h, f, ground arith, ground arith)
    ]
  ]

  pub set_item_status-effect :
      (committed : WashDb) (id : ℕ) (status : OrderItemStatus) (db : WashDb) {v : WashItemView}
      {db' : WashDb}
      → set_item_status committed id status db ≡ ok (v, db')
      → (db' ≡ write_item id (with_item_status status) db) × (v.status ≡ status)
  unfolding set_item_status
  set_item_status-effect committed id status db {v} {db'} e =
      elim (Result-cases (update_item id (with_item_status status) db)) [
        | inr (x, g) ↦ absurd (ground arith)
        | inl ((r, mid), g) ↦
            let (old, h, is, at) = update_item-effect id (with_item_status status) db g in
            (ground arith, ground arith)
      ]

  -- The items after a tag: tagged, and sorted at once where there is a plan.
  abbrev pub TaggedItems : OrderItem → String → WashDb → WashDb → Type 0
  TaggedItems item barcode db db' =
      (db'.order_items ≡ update_where (λ i. i.id == item.id) (with_tag barcode) db.order_items)
      ⊎ (db'.order_items
          ≡ update_where (λ i. i.id == item.id) (with_item_status OrderItemStatus.sorted)
              (update_where (λ i. i.id == item.id) (with_tag barcode) db.order_items))

  -- What a tag has found and written.
  pub record HasTagged (env : Env) (id : ℕ) (barcode : String) (db db' : WashDb) : Type 0 where
    pub item : OrderItem
    pub there : prisma.find_first (λ i. i.id == id) db.order_items ≡ some item
    pub picked_up : item.status ≡ OrderItemStatus.pick_up
    pub at_home : same_location item.location OrderItemLocation.in_house ≡ true
    pub new_tag : find_tagged barcode db ≡ none
    pub items : TaggedItems item barcode db db'
    pub billed :
        on_item_tagged env item.id item.order_id item.estimated_min_amount db.billing
        ≡ ok (tt, db'.billing)
    pub others :
        (db'.item_packages ≡ db.item_packages)
        × (db'.route_change_requests ≡ db.route_change_requests)

  sort-effect :
      (committed : WashDb) (row : OrderItem) (o : Option CurrentStateView) (db : WashDb)
      {v : WashItemView} {db' : WashDb}
      → sort_if_planned committed row o db ≡ ok (v, db')
      → (db' ≡ db) ⊎ (db' ≡ write_item row.id (with_item_status OrderItemStatus.sorted) db)
  unfolding sort_if_planned
  sort-effect committed row none db e = inl (ground arith)
  sort-effect committed row (some s) db e =
      inr (set_item_status-effect committed row.id OrderItemStatus.sorted db e).0

  tag_found-effect :
      (committed : WashDb) (env : Env) (id : ℕ) (item : OrderItem) (barcode : String)
      (actor : ActorContext) (db : WashDb) {v : WashItemView} {db' : WashDb}
      → prisma.find_first (λ i. i.id == id) db.order_items ≡ some item
      → item.status ≡ OrderItemStatus.pick_up
      → same_location item.location OrderItemLocation.in_house ≡ true
      → tag_found committed env item barcode actor db ≡ ok (v, db')
      → HasTagged env id barcode db db'
  unfolding tag_found
  tag_found-effect committed env id item barcode actor db {v} {db'} there up home e =
      elim (Result-cases (attach_tag_barcode item.id barcode actor db)) [
        | inr (x, f) ↦ absurd (ground arith)
        | inl ((row, d1), f) ↦
            let bill = on_item_tagged env item.id item.order_id item.estimated_min_amount in
            elim (Result-cases (in_billing bill d1)) [
              | inr (x, g) ↦ absurd (ground arith)
              | inl ((u, d2), g) ↦
                  let (old, route, h, new, is, at1) = attach-effect item.id barcode actor db f in
                  let (billing, paid, at2) = in_billing-same bill d1 g in
                  let last : sort_if_planned committed row
                        (query_processing_state committed.route item.id) d2
                      ≡ ok (v, db') =
                    ground arith in
                  let same_id : row.id ≡ item.id =
                    ap (λ (z : OrderItem). z.id) is
                    ∙ ==→eq old.id item.id
                        (prisma.find_first_test (λ i. i.id == item.id) db.order_items h) in
                  let tagged : WashDb = record (write_item item.id (with_tag barcode) db) {
                    route = route;
                    billing = billing;
                  } in
                  let same2 : d2 ≡ tagged =
                    at2 ∙ ap (λ (z : WashDb). record z { billing = billing }) at1 in
                  let paid' : bill db.billing ≡ ok (tt, billing) =
                    subst (λ (z : WashDb). bill z.billing ≡ ok (tt, billing)) at1 paid in
                  elim (sort-effect committed row (query_processing_state committed.route item.id)
                    d2 last) [
                      | inl s ↦ subst (HasTagged env id barcode db) (sym (s ∙ same2)) (record {
                        item = item;
                        there = there;
                        picked_up = up;
                        at_home = home;
                        new_tag = new;
                        items = inl refl;
                        billed = paid';
                        others = (refl, refl);
                      })
                      | inr s ↦
                          let f = with_item_status OrderItemStatus.sorted in
                          subst (HasTagged env id barcode db)
                            (sym (
                              s
                              ∙ ap (write_item row.id f) same2
                              ∙ ap (λ k. write_item k f tagged) same_id))
                            (record {
                              item = item;
                              there = there;
                              picked_up = up;
                              at_home = home;
                              new_tag = new;
                              items = inr refl;
                              billed = paid';
                              others = (refl, refl);
                            })
                    ]
            ]
      ]

  pub tag_item-effect :
      (env : Env) (id : ℕ) (barcode : String) (actor : ActorContext) (db : WashDb)
      {v : WashItemView} {db' : WashDb}
      → tag_item env id barcode actor db ≡ ok (v, db')
      → HasTagged env id barcode db db'
  unfolding tag_item
  tag_item-effect env id barcode actor db {v} {db'} e =
      elim (Option-cases (prisma.find_first (λ i. i.id == id) db.order_items)) [
        | inl f ↦ absurd (ground arith)
        | inr (item, f) ↦
            elim (Bool-cases (
              same_item_status item.status OrderItemStatus.pick_up
              && same_location item.location OrderItemLocation.in_house)) [
                | inr g ↦ absurd (ground arith)
                | inl g ↦
                    tag_found-effect db env id item barcode actor db {v = v} f
                      (same_item_status→eq item.status OrderItemStatus.pick_up (ground arith))
                      (ground arith) (ground arith)
              ]
      ]
