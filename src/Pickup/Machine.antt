-- ===== src/Pickup/Machine.antt =====
-- The pickup module as a machine whose steps are the calls that return, and what its tables keep to.
pub mod Bags
pub mod Items
pub mod Invariant
pub mod Steps
use laundry_api.Base.{
  ℕ, String, ◌≡◌, refl, sym, subst, ap, ◌∙◌, Bool, true, false, List, Memᴰ, ◌==◌, arith,
}
use laundry_api.Store.{Prisma}
use laundry_api.Store.Laws.{IsUnique}
use laundry_api.Tx.{Result, ok}
use laundry_api.Route.Db.{Env}
use laundry_api.Orders.Selected.{HasUniqueIds}
use laundry_api.Pickup.Types.{
  PickupBag, PickupBagResult, PickupBagStatus, PickupContainmentResult, PickupDb,
  PickupHandoffResult, PickupPhoto, PickupRun, PickupRunResult,
}
use laundry_api.Pickup.Runs.{create_run, run_is_active}
use laundry_api.Pickup.Runs.OneRun.{HasOneRun}
use laundry_api.Pickup.Bags.{
  handoff_bag, on_run, put_items_into_bag, record_pickup_photo, register_bag,
}

-- Every bag of a run that is not ACTIVE is back.
abbrev pub IsClosed : List PickupRun → List PickupBag → Type 0
IsClosed runs bags =
    (r : PickupRun) (b : PickupBag)
    → Memᴰ r runs
    → run_is_active r.status ≡ false
    → Memᴰ b bags
    → on_run r.id b ≡ true
    → b.status ≡ PickupBagStatus.take_back

-- What the tables of the module keep to.
pub record IsSound (db : PickupDb) : Type 0 where
  pub one_run : HasOneRun db.pickup_runs
  pub unique_items : HasUniqueIds db.order_items
  pub unique_runs : (id : ℕ) → IsUnique (λ r. r.id == id) db.pickup_runs
  pub unique_bags : (id : ℕ) → IsUnique (λ b. b.id == id) db.pickup_bags
  pub closed : IsClosed db.pickup_runs db.pickup_bags

-- The life of a bag.
pub data BagNext : PickupBagStatus → PickupBagStatus → Type 0 where
  registered : BagNext PickupBagStatus.ready PickupBagStatus.take_out
  filled : BagNext PickupBagStatus.take_out PickupBagStatus.contain
  brought_back : BagNext PickupBagStatus.contain PickupBagStatus.take_back

pub data BagReach (s : PickupBagStatus) : PickupBagStatus → Type 0 where
  here : BagReach s s
  next : {t u : PickupBagStatus} → BagReach s t → BagNext t u → BagReach s u

pub BagReach-trans : {s t u : PickupBagStatus} → BagReach s t → BagReach t u → BagReach s u
BagReach-trans r here = r
BagReach-trans r (next q st) = next (BagReach-trans r q) st

-- The bags are those from before, each as it was or further along.
abbrev pub BagsMove : List PickupBag → List PickupBag → Type 0
BagsMove before after =
    (b : PickupBag)
    → Memᴰ b after
    → (a : PickupBag) × Memᴰ a before
      × (b.id ≡ a.id)
      × (b.barcode ≡ a.barcode)
      × BagReach a.status b.status

pub BagsMove-refl : (bags : List PickupBag) → BagsMove bags bags
BagsMove-refl bags b m = (b, m, refl, refl, here)

pub BagsMove-trans : {a b c : List PickupBag} → BagsMove a b → BagsMove b c → BagsMove a c
BagsMove-trans p q z m =
    let (y, n, yi, yb, yr) = q z m in
    let (x, o, xi, xb, xr) = p y n in (x, o, yi ∙ xi, yb ∙ xb, BagReach-trans xr yr)

module _ ⦃prisma : Prisma⦄ where
  -- One call that returns, with any arguments; the id of a new run is new.
  pub data PickupStep (db : PickupDb) : PickupDb → Type 0 where
    created :
        (env : Env) (staff code : String) (v : PickupRunResult) {db' : PickupDb}
        → ((r : PickupRun) → Memᴰ r db.pickup_runs → (r.id == env.new_id) ≡ false)
        → create_run env staff code db ≡ ok (v, db')
        → PickupStep db db'
    bag_registered :
        (staff : String) (run : ℕ) (barcode : String) (v : PickupBagResult) {db' : PickupDb}
        → register_bag staff run barcode db ≡ ok (v, db')
        → PickupStep db db'
    photographed :
        (env : Env) (staff : String) (run order : ℕ) (url : String) (p : PickupPhoto)
        {db' : PickupDb}
        → record_pickup_photo env staff run order url db ≡ ok (p, db')
        → PickupStep db db'
    contained :
        (staff : String) (run order : ℕ) (barcode : String) (ids : List ℕ)
        (r : PickupContainmentResult) {db' : PickupDb}
        → put_items_into_bag staff run order barcode ids db ≡ ok (r, db')
        → PickupStep db db'
    handed :
        (env : Env) (staff : String) (run : ℕ) (barcode : String) (r : PickupHandoffResult)
        {db' : PickupDb}
        → handoff_bag env staff run barcode db ≡ ok (r, db')
        → PickupStep db db'

  pub data PickupReach (db : PickupDb) : PickupDb → Type 0 where
    start : PickupReach db db
    then : {mid db' : PickupDb} → PickupReach db mid → PickupStep mid db' → PickupReach db db'
