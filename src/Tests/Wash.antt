-- ===== src/Tests/Wash.antt =====
-- The theorems on the wash module at work: item 7 is on its route, item 8 waits for a tag and item 9
-- is ready to be packed.
use laundry_api.Base.{ℕ, ◌+◌, ◌≤◌, ◌≡◌, refl, sym, subst, some, none, List, [], ◌∷◌, Memᴰ, arith}
use laundry_api.Base.Int.{pos}
use laundry_api.Billing.Types.{BillingRow, BillingStatus, BillingType}
use laundry_api.Store.InOrder.{in_order}
use laundry_api.Tx.{Returns, Returns-ok, ok}
use laundry_api.Orders.Selected.{HasUniqueIds}
use laundry_api.Orders.Types.{OrderItem, OrderItemLocation, OrderItemStatus, item_rank}
use laundry_api.Route.Db.{Env}
use laundry_api.Route.Engine.Plans.{get_current_state}
use laundry_api.Wash.Agrees.{get_current_state-query_processing_state}
use laundry_api.Wash.Bills.{IsBilled}
use laundry_api.Wash.Items.{
  attach_tag_barcode, claim_if_ready, complete_ready, find_tagged, scan_found, scan_step,
  set_item_status, sort_if_planned, tag_found, tag_item, update_item,
}
use laundry_api.Route.Engine.Complete.{complete_current_step}
use laundry_api.Route.Load.{find_next_step, load_state}
use laundry_api.Route.Engine.RouteStep.{complete_route_step, leave_route_step}
use laundry_api.Route.NextStep.{pick_next_step}
use laundry_api.Billing.Service.{on_item_tagged}
use laundry_api.Billing.Repository.{create_billing_request, insert_base}
use laundry_api.Wash.Machine.{AllBilled, IsSound, WashReach, item_tagged, items_packed, start, then}
use laundry_api.Wash.Machine.Steps.{Keeps, WashReach-Keeps}
use laundry_api.Wash.Packages.{create_packages}
use laundry_api.Wash.Packages.Whole.{IsPacked, create_packages-IsPacked}
use laundry_api.Wash.Outcome.{HasScanned, scan_step-HasScanned}
use laundry_api.Wash.Types.{PackageView, ScanStepResult, WashDb, WashItemView}
use laundry_api.Wash.Views.{query_processing_state}
use laundry_api.Tests.RouteData.{quiet_db, quiet-Standing, washer}
use laundry_api.Tests.Tables.{IsUnique-Ascending}

abbrev on_route : OrderItem
on_route = record {
  id = 7;
  order_id = 3;
  catalog_item_code = "SHIRT";
  display_name_snapshot = "Shirt";
  status = OrderItemStatus.sorted;
  location = OrderItemLocation.in_house;
  tag_barcode = some "T7";
  estimated_min_amount = pos 3000;
  package_id = none;
}

abbrev untagged : OrderItem
untagged = record on_route { id = 8; status = OrderItemStatus.pick_up; tag_barcode = none }

abbrev finished_wash : OrderItem
finished_wash = record on_route {
  id = 9;
  status = OrderItemStatus.ready_to_package;
  tag_barcode = some "T9";
}

abbrev bill_for : ℕ → BillingRow
bill_for item = record {
  id = 50 + item;
  order_id = 3;
  type = BillingType.base;
  status = BillingStatus.waiting;
  source = none;
  total_amount = pos 3000;
  created_at = 100;
  resolved_at = none;
  notified_at = none;
  items = record { order_item_id = item; amount = pos 3000 } ∷ [];
}

abbrev pub laundry : WashDb
laundry = record {
  order_items = on_route ∷ untagged ∷ finished_wash ∷ [];
  item_packages = [];
  route_change_requests = [];
  route = quiet_db;
  billing = record {
    orders = record { id = 3; customer_id = "c1" } ∷ [];
    billing_requests = bill_for 7 ∷ bill_for 9 ∷ [];
    payment_events = [];
  };
}

abbrev pub at_work : Env
at_work = record { new_id = 60; now = 500 }

abbrev package_for : ℕ → ℕ
package_for order = 70 + order

unique_items : HasUniqueIds laundry.order_items
unique_items id = IsUnique-Ascending (λ i. i.id) laundry.order_items id (omega arith)

billed_items : AllBilled laundry.order_items laundry.billing
billed_items x (Memᴰ.head e) late =
    subst (λ (z : OrderItem). IsBilled z.id laundry.billing) (sym e)
      (bill_for 7, Memᴰ.head refl, refl)
billed_items x (Memᴰ.tail (Memᴰ.head e)) late =
    let early = subst (λ (z : OrderItem). 2 ≤ item_rank z.status) e late in absurd (omega arith)
billed_items x (Memᴰ.tail (Memᴰ.tail (Memᴰ.head e))) late =
    subst (λ (z : OrderItem). IsBilled z.id laundry.billing) (sym e)
      (bill_for 9, Memᴰ.tail (Memᴰ.head refl), refl)
billed_items x (Memᴰ.tail (Memᴰ.tail (Memᴰ.tail n))) late = elim n [ ]

sound : IsSound laundry
sound = record { unique = unique_items; billed = billed_items }

scan-Returns :
    Returns (λ r db'. Unit {0}) (scan_step ⦃prisma = in_order⦄ at_work "T7" washer laundry)
unfolding scan_step find_tagged query_processing_state scan_found complete_current_step load_state
    complete_route_step leave_route_step find_next_step pick_next_step complete_ready
    set_item_status update_item claim_if_ready
scan-Returns = tt

scanned :
    (r : ScanStepResult) × (db' : WashDb) × (scan_step ⦃prisma = in_order⦄ at_work "T7" washer
        laundry
      ≡ ok (r, db'))
scanned =
    Returns-ok (λ r db'. Unit {0}) (scan_step ⦃prisma = in_order⦄ at_work "T7" washer laundry)
      scan-Returns

scan_step-HasScanned_example :
    HasScanned ⦃prisma = in_order⦄ at_work "T7" washer laundry scanned.0 scanned.1
scan_step-HasScanned_example =
    scan_step-HasScanned ⦃prisma = in_order⦄ at_work "T7" washer laundry scanned.2

create_packages-IsPacked_example :
    Returns
      (λ views db'. IsPacked package_for 500 laundry db')
      (create_packages ⦃prisma = in_order⦄ package_for 500 laundry)
create_packages-IsPacked_example =
    create_packages-IsPacked ⦃prisma = in_order⦄ package_for 500 laundry unique_items

tag-Returns :
    Returns (λ v db'. Unit {0}) (tag_item ⦃prisma = in_order⦄ at_work 8 "T8" washer laundry)
unfolding tag_item tag_found attach_tag_barcode find_tagged update_item on_item_tagged
    create_billing_request insert_base sort_if_planned query_processing_state
tag-Returns = tt

tagged :
    (v : WashItemView) × (db' : WashDb) × (tag_item ⦃prisma = in_order⦄ at_work 8 "T8" washer
        laundry
      ≡ ok (v, db'))
tagged =
    Returns-ok (λ r db'. Unit {0}) (tag_item ⦃prisma = in_order⦄ at_work 8 "T8" washer laundry)
      tag-Returns

get_current_state-query_processing_state_example :
    Returns
      (λ v db'. (query_processing_state ⦃prisma = in_order⦄ quiet_db 7 ≡ some v) × (db' ≡ quiet_db))
      (get_current_state ⦃prisma = in_order⦄ 7 quiet_db)
get_current_state-query_processing_state_example =
    get_current_state-query_processing_state ⦃prisma = in_order⦄ quiet_db 7 quiet-Standing refl refl
      refl

packs :
    (views : List PackageView) × (db' : WashDb) × (create_packages ⦃prisma = in_order⦄ package_for
        500 tagged.1
      ≡ ok (views, db'))
packs =
    Returns-ok (λ views db'. IsPacked package_for 500 tagged.1 db')
      (create_packages ⦃prisma = in_order⦄ package_for 500 tagged.1)
      (create_packages-IsPacked ⦃prisma = in_order⦄ package_for 500 tagged.1
        (WashReach-Keeps ⦃prisma = in_order⦄ sound
          (then start (item_tagged at_work 8 "T8" washer tagged.0 tagged.2))).0.unique)

abbrev reach : WashReach ⦃prisma = in_order⦄ laundry packs.1
reach =
    then (then start (item_tagged at_work 8 "T8" washer tagged.0 tagged.2))
      (items_packed package_for 500 packs.0 packs.2)

WashReach-Keeps_example : Keeps laundry packs.1
WashReach-Keeps_example = WashReach-Keeps ⦃prisma = in_order⦄ sound reach
