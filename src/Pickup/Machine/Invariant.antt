-- ===== src/Pickup/Machine/Invariant.antt =====
-- What every reachable state of the pickup module keeps to.
use laundry_api.Base.{
  ℕ, String, ◌≡◌, refl, sym, subst, true, false, none, some, List, [], ◌∷◌, ◌++◌, Memᴰ, ◌==◌, arith,
  map, Option-cases, Bool-cases, inl, inr, update_where, ==→eq,
}
use laundry_api.Store.{Prisma}
use laundry_api.Store.Laws.{IsUnique, IsUnique-append, mem-append_cases, update_where-IsUnique_of}
use laundry_api.Route.Db.{Env}
use laundry_api.Orders.Lifecycle.{Evolves, Evolves-refl, Evolves-trans}
use laundry_api.Orders.Selected.{HasUniqueIds, update_where-HasUniqueIds}
use laundry_api.Orders.Types.{in_ids}
use laundry_api.Pickup.Types.{PickupBag, PickupBagStatus, PickupDb, PickupRun}
use laundry_api.Pickup.Runs.{active_run_of, active_run_on, new_run, run_is_active}
use laundry_api.Pickup.Runs.OneRun.{
  HasOneRun, opened-HasOneRun, returned-HasOneRun, returned_run, with_run,
}
use laundry_api.Pickup.Bags.{
  contain_items, finish_run, no_open_bag, on_run, return_run, unique_ids, update_bag,
}
use laundry_api.Pickup.Bags.Effects.{IsActiveRun, IsCollectable, brought_in, contained_in}
use laundry_api.Pickup.Machine.{
  BagNext, BagsMove, BagsMove-refl, BagsMove-trans, IsClosed, IsSound, brought_back, filled,
  registered,
}
use laundry_api.Pickup.Machine.Bags.{
  loaded_goes_on, returned-IsClosed, updated-BagsMove, updated-IsClosed,
}
use laundry_api.Pickup.Machine.Items.{bring_in-Evolves, contain-Evolves, in_factory, picked_up}

-- A sound database again, with every item and every bag where it was or further along.
abbrev pub Keeps : PickupDb → PickupDb → Type 0
Keeps db db' =
    IsSound db' × Evolves db.order_items db'.order_items × BagsMove db.pickup_bags db'.pickup_bags

pub Keeps-refl : (db : PickupDb) → IsSound db → Keeps db db
Keeps-refl db sound = (sound, Evolves-refl db.order_items, BagsMove-refl db.pickup_bags)

-- The run that a call opens is new and ACTIVE.
opened-IsClosed :
    (env : Env) (staff : String) (vehicle : ℕ) (runs : List PickupRun) (bags : List PickupBag)
    → IsClosed runs bags
    → IsClosed (runs ++ new_run env staff vehicle ∷ []) bags
opened-IsClosed env staff vehicle runs bags closed r b mr ended mb on =
    elim (mem-append_cases runs (new_run env staff vehicle ∷ []) mr) [
      | inl old ↦ closed r b old ended mb on
      | inr (Memᴰ.head e) ↦
          absurd (cc (subst (λ (z : PickupRun). run_is_active z.status ≡ false) e ended))
      | inr (Memᴰ.tail n) ↦ elim n [ ]
    ]

same_run :
    (bag : PickupBag) (run id : ℕ)
    → on_run id bag ≡ true
    → on_run run bag ≡ true
    → (run == id) ≡ true
same_run bag run id a b = elim (Option-cases bag.current_run_id) [
  | inl e ↦ absurd (ground arith)
  | inr (r, e) ↦ ground arith
]

pub Keeps-trans : (a b c : PickupDb) → Keeps a b → Keeps b c → Keeps a c
Keeps-trans a b c (s, e, m) (t, f, n) = (t, Evolves-trans e f, BagsMove-trans m n)

module _ ⦃prisma : Prisma⦄ (db : PickupDb) (sound : IsSound db) where
  pub created-Keeps :
      (env : Env) (staff : String) (vehicle : ℕ)
      → ((r : PickupRun) → Memᴰ r db.pickup_runs → (r.id == env.new_id) ≡ false)
      → prisma.find_first (active_run_of staff) db.pickup_runs ≡ none
      → prisma.find_first (active_run_on vehicle) db.pickup_runs ≡ none
      → Keeps db (with_run db (new_run env staff vehicle))
  created-Keeps env staff vehicle fresh f g = (
    record {
      one_run = opened-HasOneRun env staff db vehicle sound.one_run f g;
      unique_items = sound.unique_items;
      unique_runs = λ id.
          IsUnique-append (λ r. r.id == id) db.pickup_runs (new_run env staff vehicle)
            (sound.unique_runs id)
            λ t x m. subst (λ k. (x.id == k) ≡ false) (==→eq env.new_id id t) (fresh x m);
      unique_bags = sound.unique_bags;
      closed = opened-IsClosed env staff vehicle db.pickup_runs db.pickup_bags sound.closed;
    },
    Evolves-refl db.order_items,
    BagsMove-refl db.pickup_bags,
  )

  -- An update of one bag that keeps its id and its barcode.
  module _ (bag : PickupBag) (f : PickupBag → PickupBag) (there : Memᴰ bag db.pickup_bags)
      (same_id : (b : PickupBag) → (f b).id ≡ b.id) (same_code : (f bag).barcode ≡ bag.barcode)
      (step : BagNext bag.status (f bag).status)
      (closed : (r : PickupRun)
        → Memᴰ r db.pickup_runs
        → run_is_active r.status ≡ false
        → on_run r.id (f bag) ≡ true
        → (f bag).status ≡ PickupBagStatus.take_back) where
    updated-Keeps :
        (after : PickupDb)
        → after.pickup_runs ≡ db.pickup_runs
        → after.pickup_bags ≡ update_where (λ b. b.id == bag.id) f db.pickup_bags
        → HasUniqueIds after.order_items
        → Evolves db.order_items after.order_items
        → Keeps db after
    updated-Keeps after runs bags u evolved = (
      record {
        one_run = subst HasOneRun (sym runs) sound.one_run;
        unique_items = u;
        unique_runs =
            subst (λ rs. (id : ℕ) → IsUnique (λ r. r.id == id) rs) (sym runs) sound.unique_runs;
        unique_bags =
            subst (λ bs. (id : ℕ) → IsUnique (λ b. b.id == id) bs) (sym bags)
              (λ id.
                update_where-IsUnique_of (λ b. b.id == id) (λ b. b.id == bag.id) f
                  (λ b. rw (same_id b) refl) db.pickup_bags (sound.unique_bags id));
        closed =
            rw (runs, bags)
              (updated-IsClosed db.pickup_bags bag f sound.unique_bags there db.pickup_runs
                sound.closed closed);
      },
      evolved,
      subst (BagsMove db.pickup_bags) (sym bags) (
          updated-BagsMove db.pickup_bags bag f sound.unique_bags there (same_id bag) same_code
            step),
    )

  -- The bag of a call on a run that goes on is on no ended run.
  on_active :
      (id : ℕ) (staff : String) {loaded : PickupRun} (b : PickupBag)
      → IsActiveRun db id staff loaded
      → ((run : ℕ) → on_run run b ≡ true → (run == id) ≡ true)
      → (r : PickupRun) → Memᴰ r db.pickup_runs
      → run_is_active r.status ≡ false
      → on_run r.id b ≡ true
      → b.status ≡ PickupBagStatus.take_back
  on_active id staff b found only r m ended on =
      absurd (loaded_goes_on db.pickup_runs id staff sound.unique_runs found m ended (only r.id on))

  pub registered-Keeps :
      (id : ℕ) (staff : String) (loaded : PickupRun) (bag : PickupBag)
      → IsActiveRun db id staff loaded
      → Memᴰ bag db.pickup_bags
      → bag.status ≡ PickupBagStatus.ready
      → Keeps db (
          update_bag bag.id
            (λ b. record b { status = PickupBagStatus.take_out; current_run_id = some id })
            db)
  registered-Keeps id staff loaded bag found there is_ready =
      let f : PickupBag → PickupBag =
        λ b. record b { status = PickupBagStatus.take_out; current_run_id = some id } in
      updated-Keeps bag f there (λ b. refl) refl
        (subst (λ s. BagNext s PickupBagStatus.take_out) (sym is_ready) registered)
        (on_active id staff (f bag) found (λ run on. ground arith)) (update_bag bag.id f db) refl
        refl sound.unique_items (Evolves-refl db.order_items)

  pub contained-Keeps :
      (id : ℕ) (staff : String) (loaded : PickupRun) (bag : PickupBag) (order : ℕ) (ids : List ℕ)
      → IsActiveRun db id staff loaded
      → Memᴰ bag db.pickup_bags
      → on_run id bag ≡ true
      → bag.status ≡ PickupBagStatus.take_out
      → IsCollectable db order ids
      → Keeps db (contain_items id order bag (unique_ids ids) db)
  contained-Keeps id staff loaded bag order ids found there on out col =
      let f : PickupBag → PickupBag = λ b. record b { status = PickupBagStatus.contain } in
      updated-Keeps bag f there (λ b. refl) refl
        (subst (λ s. BagNext s PickupBagStatus.contain) (sym out) filled)
        (on_active id staff (f bag) found (λ run o. same_run bag run id on o))
        (contain_items id order bag (unique_ids ids) db) refl refl
        (update_where-HasUniqueIds (in_ids (unique_ids ids)) picked_up db.order_items (λ x. refl)
          sound.unique_items)
        (contain-Evolves db order ids sound.unique_items col)

  pub brought-Keeps :
      (bag : PickupBag) (run : ℕ)
      → Memᴰ bag db.pickup_bags
      → bag.status ≡ PickupBagStatus.contain
      → Keeps db (brought_in db bag run)
  brought-Keeps bag run there full =
      let ids = map (λ c. c.order_item_id) (contained_in db bag run) in
      updated-Keeps bag (λ b. record b { status = PickupBagStatus.take_back }) there (λ b. refl)
        refl (subst (λ s. BagNext s PickupBagStatus.take_back) (sym full) brought_back)
        (λ r m ended on. refl) (brought_in db bag run) refl refl
        (update_where-HasUniqueIds (in_ids ids) in_factory db.order_items (λ x. refl)
          sound.unique_items)
        (bring_in-Evolves ids db.order_items)

  pub finished-Keeps : (env : Env) (run : ℕ) → Keeps db (finish_run env run db)
  finished-Keeps env run = elim (Bool-cases (no_open_bag run db)) [
    | inr e ↦
        let same : finish_run env run db ≡ db = rw e refl in
        subst (Keeps db) (sym same) (Keeps-refl db sound)
    | inl e ↦
        let same : finish_run env run db ≡ return_run env run db = rw e refl in
        subst (Keeps db) (sym same) (
          (
            record {
              one_run = returned-HasOneRun env run db.pickup_runs sound.one_run;
              unique_items = sound.unique_items;
              unique_runs = λ id.
                  update_where-IsUnique_of (λ r. r.id == id) (λ r. r.id == run) (returned_run env)
                    (λ r. refl) db.pickup_runs (sound.unique_runs id);
              unique_bags = sound.unique_bags;
              closed = returned-IsClosed env run db.pickup_runs db.pickup_bags sound.closed e;
            },
            Evolves-refl db.order_items,
            BagsMove-refl db.pickup_bags,
          ))
  ]
