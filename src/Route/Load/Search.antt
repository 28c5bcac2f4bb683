-- ===== src/Route/Load/Search.antt =====
-- What `findNextStep` finds, whatever the database's choice among equal rows.
use laundry_api.Base.{
  ℕ, ◌≤◌, ◌<◌, ◌≡◌, refl, subst, Option, none, some, Memᴰ, arith, ◌⊎◌, inl, inr, true, Option-cases,
}
use laundry_api.Store.{Prisma}
use laundry_api.Route.Load.Offered.{override_candidate_of, override_candidate_of-Offers}
use laundry_api.Route.Load.Offers.{Offers}
use laundry_api.Route.Types.{StepRow, NextStepDecision, route, override}
use laundry_api.Route.NextStep.{pick_next_step}
use laundry_api.Route.NextStep.Choice.{Wins, pick_next_step-Wins}
use laundry_api.Route.Db.{Db, RouteStepTableRow, to_step_row}
use laundry_api.Route.Load.{find_next_step, next_route_step, step_after}

-- The next step of a route past a sort order, by the table.
abbrev pub IsNextRouteStep : Db → ℕ → ℕ → RouteStepTableRow → Type 0
IsNextRouteStep db route_id k s =
    Memᴰ s db.route_steps
    × (s.route_id ≡ route_id)
    × (k < s.sort_order)
    × ((t : RouteStepTableRow)
        → Memᴰ t db.route_steps
        → t.route_id ≡ route_id
        → k < t.sort_order
        → s.sort_order ≤ t.sort_order)

step_after_intro :
    (route_id k : ℕ) (t : RouteStepTableRow)
    → t.route_id ≡ route_id
    → k < t.sort_order
    → step_after route_id k t ≡ true
step_after_intro route_id k t e lt = ground arith

module _ ⦃prisma : Prisma⦄ where
  pub next_route_step_least :
      (db : Db) (route_id k : ℕ) {s : RouteStepTableRow}
      → next_route_step db route_id k ≡ some s
      → IsNextRouteStep db route_id k s
  next_route_step_least db route_id k {s} e =
      let test =
        prisma.find_first_asc_test (λ r. r.sort_order) (step_after route_id k) db.route_steps e in
      (
        prisma.find_first_asc_mem (λ r. r.sort_order) (step_after route_id k) db.route_steps e,
        ground arith,
        ground arith,
        λ t m same lt.
            prisma.find_first_asc_least (λ r. r.sort_order) (step_after route_id k) db.route_steps t
              e m (step_after_intro route_id k t same lt),
      )

  pub next_route_step-none :
      (db : Db) (route_id k : ℕ)
      → next_route_step db route_id k ≡ none
      → (t : RouteStepTableRow) → Memᴰ t db.route_steps
      → t.route_id ≡ route_id
      → t.sort_order ≤ k
  next_route_step-none db route_id k e t m same =
      let miss =
        prisma.find_first_asc_none (λ r. r.sort_order) (step_after route_id k) db.route_steps e m in
      ground arith

  abbrev pub route_candidate_of : Db → ℕ → ℕ → Option StepRow
  route_candidate_of db route_id k = elim (next_route_step db route_id k) [
    | none ↦ none
    | some s ↦ some (to_step_row s)
  ]

  pub find_next_step_lem :
      (db : Db) (item k route_id : ℕ)
      → find_next_step db item k route_id
        ≡ pick_next_step (override_candidate_of db item k) (route_candidate_of db route_id k)
  unfolding find_next_step
  find_next_step_lem db item k route_id = refl

  route_candidate-some :
      (db : Db) (route_id k : ℕ) {c : StepRow}
      → route_candidate_of db route_id k ≡ some c
      → (s : RouteStepTableRow) × IsNextRouteStep db route_id k s × (c ≡ to_step_row s)
  route_candidate-some db route_id k {c} = go (next_route_step db route_id k) refl
    where
      go :
          (o : Option RouteStepTableRow)
          → next_route_step db route_id k ≡ o
          → elim o [ none ↦ none | some s ↦ some (to_step_row s) ] ≡ some c
          → (s : RouteStepTableRow) × IsNextRouteStep db route_id k s × (c ≡ to_step_row s)
      go none f e = cc
      go (some s) f e = (s, next_route_step_least db route_id k f, ground arith)

  route_candidate-none :
      (db : Db) (route_id k : ℕ)
      → route_candidate_of db route_id k ≡ none
      → next_route_step db route_id k ≡ none
  route_candidate-none db route_id k = go (next_route_step db route_id k)
    where
      go :
          (o : Option RouteStepTableRow)
          → ◌≡◌ {A = Option StepRow} (elim o [ none ↦ none | some s ↦ some (to_step_row s) ]) none
          → o ≡ none
      go none e = refl
      go (some s) e = cc

  -- What `findNextStep` promises of its result.
  abbrev pub Follows : Db → ℕ → ℕ → ℕ → Option NextStepDecision → Type 0
  Follows db item k route_id none =
      Offers db item k none
      × ((t : RouteStepTableRow) → Memᴰ t db.route_steps → t.route_id ≡ route_id → t.sort_order ≤ k)
  Follows db item k route_id (some d) =
      ((d.source ≡ override)
        × Offers db item k (some d.step)
        × ((t : RouteStepTableRow)
            → Memᴰ t db.route_steps
            → t.route_id ≡ route_id
            → k < t.sort_order
            → d.step.sort_order < t.sort_order))
      ⊎ ((d.source ≡ route)
          × ((s : RouteStepTableRow) × IsNextRouteStep db route_id k s × (d.step ≡ to_step_row s))
          × ((o : Option StepRow) × Offers db item k o
              × ((c : StepRow) → o ≡ some c → d.step.sort_order ≤ c.sort_order)))

  Wins-Follows :
      (db : Db) (item k route_id : ℕ) (d : Option NextStepDecision)
      → Wins (override_candidate_of db item k) (route_candidate_of db route_id k) d
      → Follows db item k route_id d
  Wins-Follows db item k route_id none w = (
    subst (Offers db item k) w.0 (override_candidate_of-Offers db item k),
    next_route_step-none db route_id k (route_candidate-none db route_id k w.1),
  )
  Wins-Follows db item k route_id (some d) (inl (e, c, less)) =
      inl (e, subst (Offers db item k) c (override_candidate_of-Offers db item k), ahead)
    where
      ahead :
          (t : RouteStepTableRow)
          → Memᴰ t db.route_steps
          → t.route_id ≡ route_id
          → k < t.sort_order
          → d.step.sort_order < t.sort_order
      ahead t m same lt = elim (Option-cases (next_route_step db route_id k)) [
        | inl f ↦ absurd (omega (arith, next_route_step-none db route_id k f t m same))
        | inr (s, f) ↦
            let (_, _, _, least) = next_route_step_least db route_id k f in
            omega (arith, least t m same lt, less (to_step_row s) (rw (f, route_candidate_of)))
      ]
  Wins-Follows db item k route_id (some d) (inr (e, c, le)) = inr (
    e,
    route_candidate-some db route_id k c,
    (override_candidate_of db item k, override_candidate_of-Offers db item k, le),
  )

  -- What `findNextStep` returns, for every database and whatever row it picks among equals. A
  -- ROUTE result is a step of the plan's route past the current sort order, with no step of the
  -- route in between, and it sorts no later than what the exception flows offer. An OVERRIDE result is
  -- what they offer, and sorts before every later step of the route. Null means that they offer
  -- nothing and that there is no later step of the route. They offer the newest ACTIVE override where
  -- it lies ahead of the sort order; where the item is on it, the least later step of its template,
  -- or without one the newest of the other ACTIVE overrides; and nothing where there is none of
  -- these, or the newest lies behind.
  pub find_next_step-Follows :
      (db : Db) (item k route_id : ℕ)
      → Follows db item k route_id (find_next_step db item k route_id)
  find_next_step-Follows db item k route_id = rw find_next_step_lem (
      Wins-Follows db item k route_id _
        (pick_next_step-Wins (override_candidate_of db item k)
          (route_candidate_of db route_id k)).0)
