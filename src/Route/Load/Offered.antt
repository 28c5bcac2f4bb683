-- ===== src/Route/Load/Offered.antt =====
-- `findNextStep` takes from the exception flows what they offer.
use laundry_api.Base.{
  ℕ, ◌<◌, ◌≡◌, ◌≢◌, refl, String, sym, subst, IsSorted, ==→eq, Bool, true, false, not, Option, none,
  some, Memᴰ, arith, ◌==◌, ◌&&◌, ==_refl, ltb, inl, inr, Bool-cases, Option-cases,
}
use laundry_api.Store.{Prisma}
use laundry_api.Route.Db.{
  Db, FlowTemplate, OverrideStatus, OverrideTableRow, active_override_of, is_active,
}
use laundry_api.Route.Load.{
  flow_steps, next_override_step, template_steps, top_override, top_override_but,
}
use laundry_api.Route.NextStep.{find_next_template_step, next_template_step}
use laundry_api.Route.NextStep.Choice.{IsNextOf, next_template_step-IsNextOf}
use laundry_api.Route.Types.{StepRow}
use laundry_api.Route.View.{override_candidate}
use laundry_api.Route.Load.Offers.{
  IsActive, IsNewest, IsNewestBut, Offers, ahead, behind, below, last, no_flow, within,
}

active-test :
    (db : Db) (item : ℕ) (r : OverrideTableRow)
    → IsActive db item r
    → active_override_of item r ≡ true
active-test db item r (m, same, on) = rw (same, on) (ground (arith, ==_refl item))

test-status : (s : OverrideStatus) → is_active s ≡ true → s ≡ OverrideStatus.active
test-status OverrideStatus.active e = refl
test-status OverrideStatus.completed e = cc

test-IsActive :
    (db : Db) (item : ℕ) (r : OverrideTableRow)
    → Memᴰ r db.overrides
    → active_override_of item r ≡ true
    → IsActive db item r
test-IsActive db item r m t = (m, ground arith, test-status r.status (ground arith))

-- Neither ahead nor on it.
behind_of : (k n : ℕ) → ltb k n ≡ false → (n == k) ≡ false → n < k
behind_of k n e f = ground (arith, ==_refl k)

module _ ⦃prisma : Prisma⦄ where
  -- The candidate of the override stack, `nextOverrideStep` of `findNextStep`.
  abbrev pub override_candidate_of : Db → ℕ → ℕ → Option StepRow
  override_candidate_of db item k = elim (top_override db item) [
    | none ↦ none
    | some row ↦ next_override_step db item k row
  ]

  top_override-IsNewest :
      (db : Db) (item : ℕ) {o : OverrideTableRow}
      → top_override db item ≡ some o
      → IsNewest db item o
  top_override-IsNewest db item {o} e = (
    test-IsActive db item o
        (prisma.find_first_desc_mem (λ o. o.created_at) (active_override_of item) db.overrides e)
        (prisma.find_first_desc_test (λ o. o.created_at) (active_override_of item) db.overrides e),
    λ r a.
        prisma.find_first_desc_greatest (λ o. o.created_at) (active_override_of item) db.overrides r
          e a.0 (active-test db item r a),
  )

  abbrev other : ℕ → ℕ → OverrideTableRow → Bool
  other item id o = active_override_of item o && not (o.id == id)

  other-test :
      (db : Db) (item id : ℕ) (r : OverrideTableRow)
      → IsActive db item r
      → r.id ≢ id
      → other item id r ≡ true
  other-test db item id r a differs = elim (Bool-cases (r.id == id)) [
    | inl e ↦ absurd (differs (==→eq r.id id e))
    | inr e ↦ let on = active-test db item r a in ground arith
  ]

  top_override_but-IsNewestBut :
      (db : Db) (item : ℕ) (o : OverrideTableRow) {p : OverrideTableRow}
      → top_override_but db item o.id ≡ some p
      → IsNewestBut db item o p
  top_override_but-IsNewestBut db item o {p} e =
      let m = prisma.find_first_desc_mem (λ o. o.created_at) (other item o.id) db.overrides e in
      let t = prisma.find_first_desc_test (λ o. o.created_at) (other item o.id) db.overrides e in
      (
        test-IsActive db item p m (ground arith),
        λ same.
            let apart : (p.id == o.id) ≡ false = ground arith in
            let at : (p.id == o.id) ≡ true = rw same (==_refl o.id) in cc,
        λ r a differs.
            prisma.find_first_desc_greatest (λ o. o.created_at) (other item o.id) db.overrides r e
              a.0 (other-test db item o.id r a differs),
      )

  top_override_but-none :
      (db : Db) (item : ℕ) (o : OverrideTableRow)
      → top_override_but db item o.id ≡ none
      → (r : OverrideTableRow) → IsActive db item r
      → r.id ≡ o.id
  top_override_but-none db item o e r a = elim (Bool-cases (r.id == o.id)) [
    | inl f ↦ ==→eq r.id o.id f
    | inr f ↦
        let miss =
          prisma.find_first_desc_none (λ o. o.created_at) (other item o.id) db.overrides e a.0 in
        let on = active-test db item r a in absurd (ground arith)
  ]

  template_steps-IsSorted : (t : Option FlowTemplate) → IsSorted (λ s. s.offset) (template_steps t)
  template_steps-IsSorted none = tt
  template_steps-IsSorted (some t) = prisma.find_many_asc_sorted (λ s. s.offset) (λ s. true) t.steps

  -- The steps of a flow are in order.
  flow_next-IsNextOf :
      (db : Db) (code : String) (offset : ℕ)
      → IsNextOf offset (flow_steps db code) (next_template_step (flow_steps db code) offset)
  flow_next-IsNextOf db code offset =
      next_template_step-IsNextOf (flow_steps db code) offset (template_steps-IsSorted _)

  next_override_step-ahead :
      (db : Db) (item k : ℕ) (o : OverrideTableRow)
      → ltb k o.sort_order ≡ true
      → next_override_step db item k o ≡ some (override_candidate o)
  unfolding next_override_step
  next_override_step-ahead db item k o e = ground arith

  next_override_step-behind :
      (db : Db) (item k : ℕ) (o : OverrideTableRow)
      → ltb k o.sort_order ≡ false
      → (o.sort_order == k) ≡ false
      → next_override_step db item k o ≡ none
  unfolding next_override_step
  next_override_step-behind db item k o e f = ground arith

  on_flow-Offers :
      (db : Db) (item k : ℕ) (o : OverrideTableRow)
      → IsNewest db item o
      → o.sort_order ≡ k
      → Offers db item k (next_override_step db item k o)
  unfolding next_override_step find_next_template_step
  on_flow-Offers db item k o new same =
      let next = flow_next-IsNextOf db o.flow_code o.current_offset in
      let behind_it : ltb k o.sort_order ≡ false = ground arith in
      let on_it : (o.sort_order == k) ≡ true = ground (arith, ==_refl k) in
      elim (Option-cases (next_template_step (flow_steps db o.flow_code) o.current_offset)) [
        | inr (t, f) ↦ subst (Offers db item k) (sym (rw (behind_it, on_it, f) refl)) (
            within o t new same
              (subst (IsNextOf o.current_offset (flow_steps db o.flow_code)) f next))
        | inl f ↦
            let done = subst (IsNextOf o.current_offset (flow_steps db o.flow_code)) f next in
            elim (Option-cases (top_override_but db item o.id)) [
              | inr (p, g) ↦
                  subst (Offers db item k) (sym (rw (behind_it, on_it, f, g) refl))
                    (below o p new same done (top_override_but-IsNewestBut db item o g))
              | inl g ↦
                  subst (Offers db item k) (sym (rw (behind_it, on_it, f, g) refl))
                    (last o new same done (top_override_but-none db item o g))
            ]
      ]

  row-Offers :
      (db : Db) (item k : ℕ) (o : OverrideTableRow)
      → IsNewest db item o
      → Offers db item k (next_override_step db item k o)
  row-Offers db item k o new = elim (Bool-cases (ltb k o.sort_order)) [
    | inl e ↦
        subst (Offers db item k) (sym (next_override_step-ahead db item k o e))
          (ahead o new (ground arith))
    | inr e ↦ elim (Bool-cases (o.sort_order == k)) [
      | inl f ↦ on_flow-Offers db item k o new (==→eq o.sort_order k f)
      | inr f ↦
          subst (Offers db item k) (sym (next_override_step-behind db item k o e f))
            (behind o new (behind_of k o.sort_order e f))
    ]
  ]

  pub override_candidate_of-Offers :
      (db : Db) (item k : ℕ) → Offers db item k (override_candidate_of db item k)
  override_candidate_of-Offers db item k = elim (Option-cases (top_override db item)) [
    | inl e ↦
        rw (override_candidate_of, e)
          (no_flow λ r a.
            let miss =
              prisma.find_first_desc_none (λ o. o.created_at) (active_override_of item) db.overrides
                e a.0 in
            let on = active-test db item r a in absurd (ground arith))
    | inr (o, e) ↦
        rw (override_candidate_of, e) (row-Offers db item k o (top_override-IsNewest db item e))
  ]
