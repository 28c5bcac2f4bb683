-- ===== src/Wash/Machine/Moves.antt =====
-- How a write to one item moves the items along and keeps them billed.
use laundry_api.Base.{
  String, ◌≤◌, ◌≡◌, refl, sym, subst, Bool, true, false, List, Memᴰ, arith, Bool-cases, inl, inr,
  ◌==◌, ==_refl, ==→eq, update_where,
}
use laundry_api.Billing.Types.{BillingDb}
use laundry_api.Orders.Lifecycle.{
  Evolves, Evolves-trans, Reach, done, done_at_once, here, next, routed, started, tagged_in,
  update_where-Evolves,
}
use laundry_api.Orders.Selected.{HasUniqueIds, update_where-HasUniqueIds}
use laundry_api.Orders.Types.{OrderItem, OrderItemStatus, item_rank}
use laundry_api.Store.Laws.{mem-update_where, mem-update_where_self}
use laundry_api.Wash.Bills.{IsBilled, KeepsBills}
use laundry_api.Wash.Items.{is_scannable, status_after_scan, with_item_status, with_tag}
use laundry_api.Wash.Machine.{AllBilled}

pub update_where-AllBilled :
    (p : OrderItem → Bool) (f : OrderItem → OrderItem) (items : List OrderItem)
    (billing : BillingDb)
    → AllBilled items billing
    → ((x : OrderItem) → Memᴰ x items → p x ≡ true → IsBilled (f x).id billing)
    → AllBilled (update_where p f items) billing
update_where-AllBilled p f items billing all hit y m late =
    let (x, n, e) = mem-update_where p f items m in
    elim (Bool-cases (p x)) [
      | inl t ↦
          let at : y ≡ f x = ground arith in
          subst (λ (z : OrderItem). IsBilled z.id billing) (sym at) (hit x n t)
      | inr t ↦
          let at : y ≡ x = ground arith in
          subst (λ (z : OrderItem). IsBilled z.id billing) (sym at)
            (all x n (subst (λ (z : OrderItem). 2 ≤ item_rank z.status) at late))
    ]

pub AllBilled-later :
    (items : List OrderItem) (before after : BillingDb)
    → KeepsBills before after
    → AllBilled items before
    → AllBilled items after
AllBilled-later items before after keeps all x m late = keeps x.id (all x m late)

-- A new status is written to one item, whose row the call has found.
module _ (items : List OrderItem) (item : OrderItem) (u : HasUniqueIds items)
    (there : Memᴰ item items) (status : OrderItemStatus) where
  abbrev pub after_write : List OrderItem
  after_write = update_where (λ i. i.id == item.id) (with_item_status status) items

  found_is : (x : OrderItem) → Memᴰ x items → (x.id == item.id) ≡ true → x ≡ item
  found_is x m t = u item.id x item m t there (==_refl item.id)

  pub write-Evolves : Reach item.status status → Evolves items after_write
  write-Evolves reach =
      update_where-Evolves (λ i. i.id == item.id) (with_item_status status) items
        λ x m t. record {
          same_id = refl;
          same_order = refl;
          reach = subst (λ (z : OrderItem). Reach z.status status) (sym (found_is x m t)) reach;
        }

  pub write-AllBilled :
      (billing : BillingDb)
      → AllBilled items billing
      → 2 ≤ item_rank item.status
      → AllBilled after_write billing
  write-AllBilled billing all late =
      update_where-AllBilled (λ i. i.id == item.id) (with_item_status status) items billing all
        λ x m t.
          subst (λ (z : OrderItem). IsBilled z.id billing) (sym (found_is x m t))
            (all item there late)

  pub write-HasUniqueIds : HasUniqueIds after_write
  write-HasUniqueIds =
      update_where-HasUniqueIds (λ i. i.id == item.id) (with_item_status status) items (λ x. refl) u

-- The status after a scan is a step of the item's life, or the same.
pub status_after_scan-Reach :
    (s : OrderItemStatus) (completed : Bool)
    → is_scannable s ≡ true
    → Reach s (status_after_scan completed s) × (2 ≤ item_rank s)
status_after_scan-Reach OrderItemStatus.sorted true t = (next here done_at_once, omega arith)
status_after_scan-Reach OrderItemStatus.sorted false t = (next here started, omega arith)
status_after_scan-Reach OrderItemStatus.processing true t = (next here done, omega arith)
status_after_scan-Reach OrderItemStatus.processing false t = (here, omega arith)
status_after_scan-Reach OrderItemStatus.init completed t = cc
status_after_scan-Reach OrderItemStatus.pick_up completed t = cc
status_after_scan-Reach OrderItemStatus.tagged completed t = cc
status_after_scan-Reach OrderItemStatus.ready_to_package completed t = cc
status_after_scan-Reach OrderItemStatus.ready_for_delivery completed t = cc
status_after_scan-Reach OrderItemStatus.delivering completed t = cc
status_after_scan-Reach OrderItemStatus.finished completed t = cc

-- A tag, and the sorting that may follow it.
module _ (items : List OrderItem) (item : OrderItem) (u : HasUniqueIds items)
    (there : Memᴰ item items) (barcode : String) where
  abbrev pub after_tag : List OrderItem
  after_tag = update_where (λ i. i.id == item.id) (with_tag barcode) items

  abbrev pub after_sort : List OrderItem
  after_sort =
      update_where (λ i. i.id == item.id) (with_item_status OrderItemStatus.sorted) after_tag

  pub tag-AllBilled :
      (billing : BillingDb)
      → AllBilled items billing
      → IsBilled item.id billing
      → AllBilled after_tag billing
  tag-AllBilled billing all billed =
      update_where-AllBilled (λ i. i.id == item.id) (with_tag barcode) items billing all
        λ x m t. subst (λ k. IsBilled k billing) (sym (==→eq x.id item.id t)) billed

  pub sort-AllBilled :
      (billing : BillingDb)
      → AllBilled items billing
      → IsBilled item.id billing
      → AllBilled after_sort billing
  sort-AllBilled billing all billed =
      update_where-AllBilled (λ i. i.id == item.id) (with_item_status OrderItemStatus.sorted)
        after_tag billing (tag-AllBilled billing all billed)
        λ x m t. subst (λ k. IsBilled k billing) (sym (==→eq x.id item.id t)) billed

  pub tag-HasUniqueIds : HasUniqueIds after_tag
  tag-HasUniqueIds =
      update_where-HasUniqueIds (λ i. i.id == item.id) (with_tag barcode) items (λ x. refl) u

  pub sort-HasUniqueIds : HasUniqueIds after_sort
  sort-HasUniqueIds =
      update_where-HasUniqueIds (λ i. i.id == item.id) (with_item_status OrderItemStatus.sorted)
        after_tag (λ x. refl) tag-HasUniqueIds

  module _ (up : item.status ≡ OrderItemStatus.pick_up) where
    pub tag-Evolves : Evolves items after_tag
    tag-Evolves =
        update_where-Evolves (λ i. i.id == item.id) (with_tag barcode) items
          λ x m t. record {
            same_id = refl;
            same_order = refl;
            reach =
                subst (λ (z : OrderItem). Reach z.status OrderItemStatus.tagged)
                  (sym (u item.id x item m t there (==_refl item.id)))
                  (subst (λ s. Reach s OrderItemStatus.tagged) (sym up) (next here tagged_in));
          }

    pub sort-Evolves : Evolves items after_sort
    sort-Evolves = Evolves-trans tag-Evolves (
        update_where-Evolves (λ i. i.id == item.id) (with_item_status OrderItemStatus.sorted)
          after_tag
          λ x m t.
            let (old, n, hit, e) =
              mem-update_where_self (λ i. i.id == item.id) (with_tag barcode) items m t in
            record {
              same_id = refl;
              same_order = refl;
              reach =
                  subst (λ (z : OrderItem). Reach z.status OrderItemStatus.sorted) (sym e)
                    (next here routed);
            })
