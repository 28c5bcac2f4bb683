-- ===== src/Pickup/Machine/Bags.antt =====
-- The bags of the machine, and the runs that wait for them.
use laundry_api.Base.{
  ℕ, String, ◌≡◌, refl, sym, subst, ap, ◌∙◌, true, false, List, Memᴰ, ◌==◌, arith, count,
  Bool-cases, inl, inr, ◌⊎◌, some, update_where, ==_refl,
}
use laundry_api.Store.{Prisma}
use laundry_api.Store.Laws.{IsUnique, mem-update_where, mem-count}
use laundry_api.Route.Db.{Env}
use laundry_api.Pickup.Types.{PickupBag, PickupBagStatus, PickupRun, same_bag_status→eq}
use laundry_api.Pickup.Runs.{active_run, run_is_active}
use laundry_api.Pickup.Runs.OneRun.{returned_run}
use laundry_api.Pickup.Bags.{on_run, open_bag}
use laundry_api.Pickup.Machine.{BagNext, BagReach, BagsMove, IsClosed, here, next}

-- One bag is updated.
module _ (bags : List PickupBag) (bag : PickupBag) (f : PickupBag → PickupBag)
    (u : (id : ℕ) → IsUnique (λ b. b.id == id) bags) (there : Memᴰ bag bags) where
  abbrev updated : List PickupBag
  updated = update_where (λ b. b.id == bag.id) f bags

  -- A row of the new table is the updated bag or an old one.
  pub updated-cases : {b : PickupBag} → Memᴰ b updated → (b ≡ f bag) ⊎ Memᴰ b bags
  updated-cases {b} m =
      let (x, n, e) = mem-update_where (λ b. b.id == bag.id) f bags m in
      elim (Bool-cases (x.id == bag.id)) [
        | inl hit ↦
            let same : x ≡ bag = u bag.id x bag n hit there (==_refl bag.id) in
            let at : b ≡ f x = ground arith in inl (at ∙ ap f same)
        | inr miss ↦ let at : b ≡ x = ground arith in inr (subst (λ z. Memᴰ z bags) (sym at) n)
      ]

  pub updated-BagsMove :
      ((f bag).id ≡ bag.id)
      → ((f bag).barcode ≡ bag.barcode)
      → BagNext bag.status (f bag).status
      → BagsMove bags updated
  updated-BagsMove same_id same_code step b m = elim (updated-cases m) [
    | inr old ↦ (b, old, refl, refl, here)
    | inl e ↦
        subst
          (λ (z : PickupBag).
            (a : PickupBag) × Memᴰ a bags
            × (z.id ≡ a.id)
            × (z.barcode ≡ a.barcode)
            × BagReach a.status z.status)
          (sym e) (bag, there, same_id, same_code, next here step)
  ]

  -- The bags of ended runs are still back, where the updated one is, or is on a run that goes on.
  pub updated-IsClosed :
      (runs : List PickupRun)
      → IsClosed runs bags
      → ((r : PickupRun)
          → Memᴰ r runs
          → run_is_active r.status ≡ false
          → on_run r.id (f bag) ≡ true
          → (f bag).status ≡ PickupBagStatus.take_back)
      → IsClosed runs updated
  updated-IsClosed runs closed new r b mr ended mb on = elim (updated-cases mb) [
    | inr old ↦ closed r b mr ended old on
    | inl e ↦
        subst (λ (z : PickupBag). z.status ≡ PickupBagStatus.take_back) (sym e)
          (new r mr ended (subst (λ z. on_run r.id z ≡ true) e on))
  ]

-- A run that a call has loaded is not one of the ended runs.
pub loaded_goes_on :
    ⦃prisma : Prisma⦄ (runs : List PickupRun) (id : ℕ) (staff : String) {loaded r : PickupRun}
    → ((id : ℕ) → IsUnique (λ r. r.id == id) runs)
    → prisma.find_first (active_run id staff) runs ≡ some loaded
    → Memᴰ r runs
    → run_is_active r.status ≡ false
    → (r.id == id) ≡ true
    → ⊥
loaded_goes_on ⦃prisma = prisma⦄ runs id staff {loaded} {r} u found m ended same =
    let test = prisma.find_first_test (active_run id staff) runs found in
    let at : r ≡ loaded =
      u id r loaded m same (prisma.find_first_mem (active_run id staff) runs found)
        (ground arith) in
    ground (arith, rw at at ended)

-- A run that ends when none of its bags is open.
pub returned-IsClosed :
    (env : Env) (run : ℕ) (runs : List PickupRun) (bags : List PickupBag)
    → IsClosed runs bags
    → (count (open_bag run) bags == 0) ≡ true
    → IsClosed (update_where (λ r. r.id == run) (returned_run env) runs) bags
returned-IsClosed env run runs bags closed none_open r b mr ended mb on =
    let (x, n, e) = mem-update_where (λ r. r.id == run) (returned_run env) runs mr in
    elim (Bool-cases (x.id == run)) [
      | inl hit ↦
          let same : r.id ≡ run = ground arith in
          let shut = mem-count (open_bag run) bags (ground arith) mb in
          let here_on : on_run run b ≡ true = subst (λ k. on_run k b ≡ true) same on in
          same_bag_status→eq b.status PickupBagStatus.take_back (ground arith)
      | inr miss ↦
          let at : r ≡ x = ground arith in
          closed x b n (subst (λ (z : PickupRun). run_is_active z.status ≡ false) at ended) mb
            (subst (λ (z : PickupRun). on_run z.id b ≡ true) at on)
    ]
