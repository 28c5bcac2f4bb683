-- ===== src/Exception/Approval/Once.antt =====
-- An approval request is answered once, however the calls after its claim end.
use laundry_api.Base.{
  ℕ, String, ◌≡◌, refl, sym, ◌∙◌, subst, true, false, Option, some, List, Memᴰ, arith, ◌==◌, inl,
  inr, ◌⊎◌, Bool-cases, Option-cases, update_where,
}
use laundry_api.Base.Int.{ℤ}
use laundry_api.Errors.{Thrown}
use laundry_api.Route.Db.{Env}
use laundry_api.Store.{Prisma}
use laundry_api.Store.Laws.{mem-update_where}
use laundry_api.Tx.{Result-cases, err, ok}
use laundry_api.Billing.Repository.{find_order_customer_id}
use laundry_api.Exception.Approval.{
  ApprovalRequest, ExceptionDb, FoundApproval, answered, carry_out, check_approval, claim_approval,
  find_approval, is_open, open_approval, respond_approval,
}
use laundry_api.Exception.Approval.Spares.{carry_out-Spares, proceed-Spares}

-- A row that an answer has met, or had no need to, is not open.
answered-closed :
    (env : Env) (id : ℕ) (d : String) (rows : List ApprovalRequest) {a : ApprovalRequest}
    → Memᴰ a (update_where (open_approval id) (answered env d) rows)
    → (a.id == id) ≡ true
    → is_open a ≡ false
answered-closed env id d rows {a} m t =
    let (x, n, e) = mem-update_where (open_approval id) (answered env d) rows m in
    elim (Bool-cases (open_approval id x)) [
      | inl h ↦
          let at : a ≡ answered env d x = ground arith in
          subst (λ z. is_open z ≡ false) (sym at) refl
      | inr h ↦ let at : a ≡ x = ground arith in ground arith
    ]

module _ ⦃prisma : Prisma⦄ where
  -- After the checks, whatever follows, the requests are those of the claim.
  claimed-rows :
      (env : Env) (id : ℕ) (d : String) (extra : Option ℤ) (customer : String) (db : ExceptionDb)
      (f : FoundApproval)
      → check_approval id customer db ≡ ok f
      → (respond_approval env id d extra customer db).1.approval_requests
        ≡ update_where (open_approval id) (answered env d) db.approval_requests
  unfolding respond_approval claim_approval
  claimed-rows env id d extra customer db f e = rw e (
      proceed-Spares (λ u. carry_out env f d extra customer)
        (λ u. carry_out-Spares env f customer d extra) (claim_approval env id d db).0
        (claim_approval env id d db).1)

  -- A found request stands in the table under the id.
  pub find_approval-mem :
      (id : ℕ) (db : ExceptionDb) {f : FoundApproval}
      → find_approval id db ≡ some f
      → Memᴰ f.approval db.approval_requests × ((f.approval.id == id) ≡ true)
  unfolding find_approval
  find_approval-mem id db {f} e =
      elim (Option-cases (prisma.find_first (λ a. a.id == id) db.approval_requests)) [
        | inl g ↦ absurd (ground arith)
        | inr (a, g) ↦
            elim (Option-cases
              (prisma.find_first (λ i. i.id == a.order_item_id) db.wash.order_items)) [
                | inl h ↦ absurd (ground arith)
                | inr (i, h) ↦
                    elim (Option-cases (find_order_customer_id db.wash.billing i.order_id)) [
                      | inl k ↦ absurd (ground arith)
                      | inr (c, k) ↦
                          let at : f.approval ≡ a = ground arith in
                          subst (λ z. Memᴰ z db.approval_requests × ((z.id == id) ≡ true)) (sym at)
                            (
                              prisma.find_first_mem (λ a. a.id == id) db.approval_requests g,
                              prisma.find_first_test (λ a. a.id == id) db.approval_requests g,
                            )
                    ]
              ]
      ]

  -- Where no row under the id is open, the checks refuse.
  check-closed :
      (id : ℕ) (customer : String) (db : ExceptionDb) {f : FoundApproval}
      → ((a : ApprovalRequest)
          → Memᴰ a db.approval_requests
          → (a.id == id) ≡ true
          → is_open a ≡ false)
      → check_approval id customer db ≡ ok f
      → ⊥
  unfolding check_approval
  check-closed id customer db {f} closed e = elim (Option-cases (find_approval id db)) [
    | inl g ↦ absurd (ground arith)
    | inr (x, g) ↦
        let (m, t) = find_approval-mem id db g in
        let shut = closed x.approval m t in absurd (ground arith)
  ]

  -- A response to a request either is refused by the checks and changes nothing, or every further
  -- response to it, with any decision and by anybody, is refused and changes nothing, as long as the
  -- requests stay as the first one left them. This holds also where the first one throws midway.
  pub respond_approval-once :
      (env later : Env) (id : ℕ) (first second : String) (a b : Option ℤ) (customer other : String)
      (db db' : ExceptionDb)
      → db'.approval_requests ≡ (respond_approval env id first a customer db).1.approval_requests
      → ((e : Thrown) × (respond_approval env id first a customer db ≡ (err e, db)))
        ⊎ ((e : Thrown) × (respond_approval later id second b other db' ≡ (err e, db')))
  unfolding respond_approval
  respond_approval-once env later id first second a b customer other db db' same =
      elim (Result-cases (check_approval id customer db)) [
        | inr (e, g) ↦ inl (e, rw g refl)
        | inl (f, g) ↦ elim (Result-cases (check_approval id other db')) [
          | inr (e, h) ↦ inr (e, rw h refl)
          | inl (x, h) ↦ absurd (
              check-closed id other db'
                (λ r m t.
                  answered-closed env id first db.approval_requests
                    (subst (Memᴰ r) (same ∙ claimed-rows env id first a customer db f g) m) t)
                h)
        ]
      ]
