-- ===== src/Pickup/Bags/HandIn.antt =====
-- When a handoff ends the run.
use laundry_api.Base.{
  ℕ, String, ◌≡◌, refl, sym, subst, true, false, some, Memᴰ, arith, Bool-cases, inl, inr, ◌==◌,
  ==_refl, ==→eq, if◌then◌else◌,
}
use laundry_api.Billing.Resolve.{count-pos}
use laundry_api.Store.{Prisma}
use laundry_api.Store.Laws.{mem-update_where, mem-update_where_self, none-count, update_where-mem}
use laundry_api.Tx.{ok}
use laundry_api.Route.Db.{Env}
use laundry_api.Pickup.Types.{
  PickupBag, PickupBagStatus, PickupDb, PickupHandoffResult, PickupRun, PickupRunStatus,
  same_bag_status→eq,
}
use laundry_api.Pickup.Runs.{active_run}
use laundry_api.Pickup.Bags.{finish_run, handoff_bag, no_open_bag, on_run, open_bag, return_run}
use laundry_api.Pickup.Bags.Effects.{brought_in, handoff_bag-effect}

module _ ⦃prisma : Prisma⦄ (db : PickupDb) where
  -- Every bag of the run but the one is back.
  abbrev pub OthersBack : ℕ → PickupBag → Type 0
  OthersBack run bag =
      (b : PickupBag)
      → Memᴰ b db.pickup_bags
      → on_run run b ≡ true
      → (b.id == bag.id) ≡ false
      → b.status ≡ PickupBagStatus.take_back

  -- The run has ended with the bag, or goes on without a change.
  pub record IsHandedIn (env : Env) (run : ℕ) (bag : PickupBag) (db' : PickupDb) : Type 0 where
    pub ended :
        OthersBack run bag
        → (r : PickupRun) → Memᴰ r db'.pickup_runs
        → r.id ≡ run
        → (r.status ≡ PickupRunStatus.returned) × (r.ended_at ≡ some env.now)
    pub goes_on : ¬ OthersBack run bag → db'.pickup_runs ≡ db.pickup_runs

  back_shut :
      (run : ℕ) (b : PickupBag) → b.status ≡ PickupBagStatus.take_back → open_bag run b ≡ false
  back_shut run b e = elim (Bool-cases (on_run run b)) [
    | inl on ↦ ground arith
    | inr off ↦ ground arith
  ]

  none_open :
      (run : ℕ) (bag : PickupBag)
      → OthersBack run bag
      → no_open_bag run (brought_in db bag run) ≡ true
  none_open run bag back =
      let none_left = none-count (open_bag run) (brought_in db bag run).pickup_bags λ b m.
        let (x, n, e) =
          mem-update_where (λ b. b.id == bag.id)
            (λ b. record b { status = PickupBagStatus.take_back }) db.pickup_bags m in
        is_shut x b n e in
      ground arith
    where
      is_shut :
          (x b : PickupBag)
          → Memᴰ x db.pickup_bags
          → b ≡ (if x.id == bag.id then record x { status = PickupBagStatus.take_back } else x)
          → open_bag run b ≡ false
      is_shut x b n e = elim (Bool-cases (x.id == bag.id)) [
        | inl hit ↦ back_shut run b (ground arith)
        | inr miss ↦
            let at : b ≡ x = ground arith in
            subst (λ z. open_bag run z ≡ false) (sym at)
              (elim (Bool-cases (on_run run x)) [
                | inl on ↦ back_shut run x (back x n on miss)
                | inr off ↦ ground arith
              ])
      ]

  open_others :
      (run : ℕ) (bag : PickupBag)
      → no_open_bag run (brought_in db bag run) ≡ true
      → OthersBack run bag
  open_others run bag shut b m on other =
      let kept : Memᴰ b (brought_in db bag run).pickup_bags =
        subst
          (λ t.
            Memᴰ (if t then record b { status = PickupBagStatus.take_back } else b)
              (brought_in db bag run).pickup_bags)
          other
          (update_where-mem (λ b. b.id == bag.id)
            (λ b. record b { status = PickupBagStatus.take_back }) db.pickup_bags m) in
      elim (Bool-cases (open_bag run b)) [
        | inl still ↦
            let some_left =
              count-pos (open_bag run) (brought_in db bag run).pickup_bags kept still in
            absurd (ground arith)
        | inr closed ↦ same_bag_status→eq b.status PickupBagStatus.take_back (ground arith)
      ]

  finish-IsHandedIn :
      (env : Env) (run : ℕ) (bag : PickupBag)
      → IsHandedIn env run bag (finish_run env run (brought_in db bag run))
  finish-IsHandedIn env run bag = elim (Bool-cases (no_open_bag run (brought_in db bag run))) [
    | inl e ↦
        let same : finish_run env run (brought_in db bag run)
            ≡ return_run env run (brought_in db bag run) =
          rw e refl in
        subst (IsHandedIn env run bag) (sym same) (record {
          ended = λ back r m at.
              let (x, n, hit, is) =
                mem-update_where_self (λ r. r.id == run)
                  (λ r. record r { status = PickupRunStatus.returned; ended_at = some env.now })
                  db.pickup_runs m (rw at (==_refl run)) in
              ground arith;
          goes_on = λ left. absurd (left (open_others run bag e));
        })
    | inr e ↦
        let same : finish_run env run (brought_in db bag run) ≡ brought_in db bag run = rw e refl in
        subst (IsHandedIn env run bag) (sym same)
          (record { ended = λ back. absurd (cc (none_open run bag back)); goes_on = λ left. refl })
  ]

  -- A handoff that returns was of a bag that was CONTAIN. It ends the run when every other bag of
  -- the run is back, and leaves the runs as they are otherwise, also where the other bag was only
  -- taken out.
  pub handoff_bag-IsHandedIn :
      (env : Env) (staff : String) (run : ℕ) (barcode : String) {r : PickupHandoffResult}
      {db' : PickupDb}
      → handoff_bag env staff run barcode db ≡ ok (r, db')
      → (loaded : PickupRun) × (bag : PickupBag) × (bag.status ≡ PickupBagStatus.contain)
        × (loaded.id ≡ run)
        × IsHandedIn env loaded.id bag db'
  handoff_bag-IsHandedIn env staff run barcode e =
      let (loaded, bag, f, g, full, same) = handoff_bag-effect db env staff run barcode e in
      let test = prisma.find_first_test (active_run run staff) db.pickup_runs f in
      (
        loaded,
        bag,
        full,
        ==→eq loaded.id run (ground arith),
        subst (IsHandedIn env loaded.id bag) (sym same) (finish-IsHandedIn env loaded.id bag),
      )
