-- ===== src/Wash/Machine/Steps.antt =====
-- Every call of the wash module keeps its tables sound, and so does every sequence of calls.
use laundry_api.Base.{
  ℕ, String, ◌≤◌, ◌≡◌, sym, subst, some, List, arith, inl, inr, ◌==◌, update_where,
}
use laundry_api.Orders.Lifecycle.{Evolves, Evolves-refl, Evolves-trans, Reach, here, next, routed}
use laundry_api.Orders.Selected.{HasUniqueIds}
use laundry_api.Orders.Types.{OrderItem, OrderItemStatus, item_rank}
use laundry_api.Route.Db.{Env}
use laundry_api.Route.Types.{ActorContext}
use laundry_api.Store.{Prisma}
use laundry_api.Tx.{Returns}
use laundry_api.Wash.Bills.{IsBilled, KeepsBills, claim-KeepsBills, on_item_tagged-IsBilled}
use laundry_api.Wash.Effects.{HasTagged, tag_item-effect}
use laundry_api.Wash.Items.{find_tagged, has_tag, with_item_status}
use laundry_api.Wash.Machine.{
  AllBilled, IsSound, WashReach, WashStep, item_tagged, items_packed, route_assigned, start,
  step_scanned, then,
}
use laundry_api.Wash.Machine.Moves.{
  AllBilled-later, sort-AllBilled, sort-Evolves, sort-HasUniqueIds, status_after_scan-Reach,
  tag-AllBilled, tag-Evolves, tag-HasUniqueIds, write-AllBilled, write-Evolves, write-HasUniqueIds,
}
use laundry_api.Wash.Packages.Whole.{IsPacked, create_packages-IsPacked}
use laundry_api.Wash.Scanned.{HasRun, assign_route-effect}
use laundry_api.Wash.Scans.{scan_step-HasRun}
use laundry_api.Wash.Types.{ScanStepResult, WashDb}

-- A sound database again, in which the items are where they were or further along.
abbrev pub Keeps : WashDb → WashDb → Type 0
Keeps db db' = IsSound db' × Evolves db.order_items db'.order_items

-- From what is known of the items and the bills.
rows-Keeps :
    (db db' : WashDb) (items : List OrderItem)
    → db'.order_items ≡ items
    → HasUniqueIds items
    → AllBilled items db'.billing
    → Evolves db.order_items items
    → Keeps db db'
rows-Keeps db db' items same u billed evolved = (
  record {
    unique = subst HasUniqueIds (sym same) u;
    billed = subst (λ xs. AllBilled xs db'.billing) (sym same) billed;
  },
  subst (Evolves db.order_items) (sym same) evolved,
)

module _ ⦃prisma : Prisma⦄ (db : WashDb) (sound : IsSound db) where
  HasTagged-Keeps :
      (env : Env) (id : ℕ) (barcode : String) (db' : WashDb)
      → HasTagged env id barcode db db'
      → Keeps db db'
  HasTagged-Keeps env id barcode db' h =
      let there = prisma.find_first_mem (λ i. i.id == id) db.order_items h.there in
      let (billed, keeps) =
        on_item_tagged-IsBilled env h.item.id h.item.order_id h.item.estimated_min_amount db.billing
          h.billed in
      let all = AllBilled-later db.order_items db.billing db'.billing keeps sound.billed in
      elim h.items [
        | inl same ↦
            rows-Keeps db db' _ same
              (tag-HasUniqueIds db.order_items h.item sound.unique there barcode)
              (tag-AllBilled db.order_items h.item sound.unique there barcode db'.billing all
                billed)
              (tag-Evolves db.order_items h.item sound.unique there barcode h.picked_up)
        | inr same ↦
            rows-Keeps db db' _ same
              (sort-HasUniqueIds db.order_items h.item sound.unique there barcode)
              (sort-AllBilled db.order_items h.item sound.unique there barcode db'.billing all
                billed)
              (sort-Evolves db.order_items h.item sound.unique there barcode h.picked_up)
      ]

  -- A status is written, and the bills are kept.
  written-Keeps :
      (barcode : String) (item : OrderItem) (status : OrderItemStatus) (db' : WashDb)
      → find_tagged barcode db ≡ some item
      → Reach item.status status
      → 2 ≤ item_rank item.status
      → db'.order_items
        ≡ update_where (λ i. i.id == item.id) (with_item_status status) db.order_items
      → KeepsBills db.billing db'.billing
      → Keeps db db'
  unfolding find_tagged
  written-Keeps barcode item status db' found reach late same keeps =
      let there = prisma.find_first_mem (has_tag barcode) db.order_items found in
      rows-Keeps db db' _ same (write-HasUniqueIds db.order_items item sound.unique there status)
        (write-AllBilled db.order_items item sound.unique there status db'.billing
          (AllBilled-later db.order_items db.billing db'.billing keeps sound.billed) late)
        (write-Evolves db.order_items item sound.unique there status reach)

  HasRun-Keeps :
      (env : Env) (barcode : String) (actor : ActorContext) (r : ScanStepResult) (db' : WashDb)
      → HasRun env barcode actor db r db'
      → Keeps db db'
  HasRun-Keeps env barcode actor r db' h =
      let (reach, late) =
        status_after_scan-Reach h.item.status r.processing_state.is_plan_completed h.scannable in
      let keeps : KeepsBills db.billing db'.billing = elim h.claimed [
        | inl (ready, claim) ↦ claim-KeepsBills env h.item.order_id db.billing claim
        | inr (other, none_left, same) ↦
            subst (KeepsBills db.billing) (sym same) (λ item billed. billed)
      ] in
      written-Keeps barcode h.item _ db' h.there reach late h.items keeps

  IsPacked-Keeps :
      (id_for : ℕ → ℕ) (now : ℕ) (db' : WashDb) → IsPacked id_for now db db' → Keeps db db'
  IsPacked-Keeps id_for now db' p = (
    record {
      unique = p.unique;
      billed = subst (AllBilled db'.order_items) (sym p.same_billing) λ y m late.
          elim (p.from y m) [
            | inl old ↦ sound.billed y old late
            | inr (x, n, ready, e) ↦
                subst (λ (z : OrderItem). IsBilled z.id db.billing) (sym e)
                  (sound.billed x n (rw ready (omega arith)))
          ];
    },
    p.evolves,
  )

  step-Keeps : {db' : WashDb} → WashStep db db' → Keeps db db'
  step-Keeps {db'} (item_tagged env id barcode actor v e) =
      HasTagged-Keeps env id barcode db' (tag_item-effect env id barcode actor db e)
  step-Keeps {db'} (route_assigned env barcode code actor r e) =
      let h = assign_route-effect env barcode code actor db e in
      let tagged : h.item.status ≡ OrderItemStatus.tagged = h.tagged in
      written-Keeps barcode h.item OrderItemStatus.sorted db' h.there
        (subst (λ s. Reach s OrderItemStatus.sorted) (sym tagged) (next here routed))
        (rw tagged (omega arith)) h.items
        (subst (KeepsBills db.billing) (sym h.same_billing) (λ item billed. billed))
  step-Keeps {db'} (step_scanned env barcode actor r e) =
      HasRun-Keeps env barcode actor r db' (scan_step-HasRun env barcode actor db e)
  step-Keeps {db'} (items_packed id_for now views e) = IsPacked-Keeps id_for now db' (
      subst (Returns (λ views db'. IsPacked id_for now db db')) e
        (create_packages-IsPacked id_for now db sound.unique))

-- Through any calls of the wash module, from tables with unique item ids in which every item that is
-- TAGGED or further along has a billing item: this still holds, no item is lost or added, and no
-- item is further back in its life.
pub WashReach-Keeps :
    ⦃prisma : Prisma⦄ {db db' : WashDb} → IsSound db → WashReach db db' → Keeps db db'
WashReach-Keeps {db} sound start = (sound, Evolves-refl db.order_items)
WashReach-Keeps sound (then {mid = mid} reach step) =
    let (between, evolved) = WashReach-Keeps sound reach in
    let (last, moved) = step-Keeps mid between step in (last, Evolves-trans evolved moved)
