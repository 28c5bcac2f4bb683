-- ===== src/Wash/Machine.antt =====
-- The wash module as a machine whose steps are the calls that return: no item passes the tagging
-- without a bill.
pub mod Moves
pub mod Steps
use laundry_api.Base.{ℕ, String, ◌≤◌, ◌≡◌, List, Memᴰ}
use laundry_api.Billing.Types.{BillingDb}
use laundry_api.Orders.Selected.{HasUniqueIds}
use laundry_api.Orders.Types.{OrderItem, item_rank}
use laundry_api.Route.Db.{Env}
use laundry_api.Route.Types.{ActorContext}
use laundry_api.Store.{Prisma}
use laundry_api.Tx.{Result, ok}
use laundry_api.Wash.Bills.{IsBilled}
use laundry_api.Wash.Items.{assign_route, scan_step, tag_item}
use laundry_api.Wash.Packages.{create_packages}
use laundry_api.Wash.Types.{AssignRouteResult, PackageView, ScanStepResult, WashDb, WashItemView}

-- Every item that is TAGGED or further along has a billing item.
abbrev pub AllBilled : List OrderItem → BillingDb → Type 0
AllBilled items billing =
    (x : OrderItem) → Memᴰ x items → 2 ≤ item_rank x.status → IsBilled x.id billing

-- What the tables of the module keep to.
pub record IsSound (db : WashDb) : Type 0 where
  pub unique : HasUniqueIds db.order_items
  pub billed : AllBilled db.order_items db.billing

module _ ⦃prisma : Prisma⦄ where
  -- One call that returns, with any arguments.
  pub data WashStep (db : WashDb) : WashDb → Type 0 where
    item_tagged :
        (env : Env) (id : ℕ) (barcode : String) (actor : ActorContext) (v : WashItemView)
        {db' : WashDb}
        → tag_item env id barcode actor db ≡ ok (v, db')
        → WashStep db db'
    route_assigned :
        (env : Env) (barcode code : String) (actor : ActorContext) (r : AssignRouteResult)
        {db' : WashDb}
        → assign_route env barcode code actor db ≡ ok (r, db')
        → WashStep db db'
    step_scanned :
        (env : Env) (barcode : String) (actor : ActorContext) (r : ScanStepResult) {db' : WashDb}
        → scan_step env barcode actor db ≡ ok (r, db')
        → WashStep db db'
    items_packed :
        (id_for : ℕ → ℕ) (now : ℕ) (views : List PackageView) {db' : WashDb}
        → create_packages id_for now db ≡ ok (views, db')
        → WashStep db db'

  pub data WashReach (db : WashDb) : WashDb → Type 0 where
    start : WashReach db db
    then : {mid db' : WashDb} → WashReach db mid → WashStep mid db' → WashReach db db'
