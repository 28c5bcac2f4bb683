-- ===== src/Exception/Approval/Lost.antt =====
-- What an answer leaves behind when the route engine throws after the claim.
use laundry_api.Base.{
  ℕ, ◌<◌, String, ◌≡◌, refl, true, false, Option, arith, ◌==◌, inl, inr, Option-cases, count,
  update_where,
}
use laundry_api.Base.Int.{ℤ}
use laundry_api.Billing.Resolve.{count-pos}
use laundry_api.Errors.{Thrown}
use laundry_api.Exception.Approval.{
  Commits, ExceptionDb, FoundApproval, bill_extra, commit, followed_by, release_item, answered,
  approve_step, approves, by_customer, carry_out, check_approval, claim_approval, find_approval,
  open_approval, respond_approval,
}
use laundry_api.Exception.Approval.Once.{find_approval-mem}
use laundry_api.Route.Db.{Db, Env}
use laundry_api.Route.Engine.Complete.{complete_current_step}
use laundry_api.Store.{Prisma}
use laundry_api.Tx.{Tx, ok, err}
use laundry_api.Wash.Types.{in_route}

-- Nothing follows a call of the engine that throws.
followed_by-thrown :
    {A B : Type 0} (m : Tx Db A) (f : A → Commits B) (db : ExceptionDb) {e : Thrown}
    → m db.wash.route ≡ err e
    → followed_by (commit (in_route m)) f db ≡ (err e, db)
followed_by-thrown m f db thrown = rw (in_route, thrown) refl

module _ ⦃prisma : Prisma⦄ where
  -- A request that passes the checks is open, so that the claim succeeds.
  check_approval-open :
      (id : ℕ) (customer : String) (db : ExceptionDb) {f : FoundApproval}
      → check_approval id customer db ≡ ok f
      → 0 < count (open_approval id) db.approval_requests
  unfolding check_approval
  check_approval-open id customer db {f} e = elim (Option-cases (find_approval id db)) [
    | inl g ↦ absurd (ground arith)
    | inr (x, g) ↦
        let (m, t) = find_approval-mem id db g in
        count-pos (open_approval id) db.approval_requests m (ground arith)
  ]

  -- The approval where the engine throws.
  carry_out-thrown :
      (env : Env) (decision : String) (extra : Option ℤ) (customer : String) (db : ExceptionDb)
      (f : FoundApproval) {e : Thrown}
      → approves decision ≡ true
      → complete_current_step f.approval.order_item_id (by_customer customer) db.wash.route ≡ err e
      → carry_out env f decision extra customer db ≡ (err e, db)
  unfolding carry_out approve_step
  carry_out-thrown env decision extra customer db f {e} accepts thrown =
      rw accepts (thrown_step extra)
    where
      thrown_step : (extra : Option ℤ) → approve_step env f customer extra db ≡ (err e, db)
      thrown_step extra =
          followed_by-thrown (complete_current_step f.approval.order_item_id (by_customer customer))
            (λ v.
              followed_by (release_item f.approval.order_item_id v)
                λ u. bill_extra env f.approval.id f.order_id extra)
            db thrown

  -- An answer that approves, to a request that passes the checks, of an item whose step the route
  -- engine refuses to complete: the answer throws the engine's error, and all that it has changed
  -- is that the request is answered.
  pub respond_approval-lost :
      (env : Env) (id : ℕ) (decision : String) (extra : Option ℤ) (customer : String)
      (db : ExceptionDb) {f : FoundApproval} {e : Thrown}
      → check_approval id customer db ≡ ok f
      → approves decision ≡ true
      → complete_current_step f.approval.order_item_id (by_customer customer) db.wash.route ≡ err e
      → respond_approval env id decision extra customer db ≡ (
        err e,
        record db {
          approval_requests =
              update_where (open_approval id) (answered env decision) db.approval_requests;
        },
      )
  unfolding respond_approval claim_approval
  respond_approval-lost env id decision extra customer db {f} {e} check accepts thrown =
      let some_open = check_approval-open id customer db check in
      let claims : (count (open_approval id) db.approval_requests == 0) ≡ false = ground arith in
      rw (check, claims) (carry_out-thrown env decision extra customer _ f accepts thrown)
