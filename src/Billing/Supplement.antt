-- ===== src/Billing/Supplement.antt =====
-- Creating a SUPPLEMENT request twice for one source is creating it once.
use laundry_api.Base.{
  ℕ, true, false, some, [], ◌∷◌, ◌++◌, ◌≡◌, refl, sym, subst, Memᴰ, ==_refl, inl, inr, Bool-cases,
  some_of, mem-some_of,
}
use laundry_api.Base.Int.{ℤ}
use laundry_api.Errors.{known_request}
use laundry_api.Idempotency.{after_failure, own, with_idempotency-found, with_idempotency-inserted}
use laundry_api.Store.{Prisma}
use laundry_api.Store.Laws.{IsUnique, IsUnique-insert, find_first-of_mem, mem-append_right}
use laundry_api.Tx.{ok, err, Returns}
use laundry_api.Billing.Types.{BillingDb, BillingRequestView, BillingRow, BillingSource, SourceType}
use laundry_api.Billing.Repository.{
  create_supplement_billing_request, find_by_source, has_source, insert_supplement, same_source,
  supplement_row, to_view,
}
use laundry_api.Billing.Idempotent.{after_insert, find_first-of_some}
use laundry_api.Route.Db.{Env}

same_source_refl : (source : BillingSource) → same_source source source ≡ true
same_source_refl source = go source.type
  where
    go :
        (t : SourceType)
        → same_source (record source { type = t }) (record source { type = t }) ≡ true
    go SourceType.approval_request = ==_refl source.id
    go SourceType.route_change_request = ==_refl source.id

refused :
    (source : BillingSource) (row : BillingRow) (db : BillingDb)
    → some_of (has_source source) db.billing_requests ≡ true
    → insert_supplement source row db ≡ err (known_request "P2002")
unfolding insert_supplement
refused source row db e = rw e refl

inserted :
    (source : BillingSource) (row : BillingRow) (db : BillingDb)
    → some_of (has_source source) db.billing_requests ≡ false
    → insert_supplement source row db ≡ ok (after_insert row db)
unfolding insert_supplement
inserted source row db e = rw e refl

module _ ⦃prisma : Prisma⦄ where
  create-found :
      (env : Env) (order : ℕ) (total : ℤ) (source : BillingSource) (db : BillingDb) {r : BillingRow}
      → some_of (has_source source) db.billing_requests ≡ true
      → prisma.find_first (has_source source) db.billing_requests ≡ some r
      → create_supplement_billing_request env order total source db ≡ ok (to_view r, db)
  unfolding create_supplement_billing_request find_by_source
  create-found env order total source db e f =
      with_idempotency-found (insert_supplement source (supplement_row env order total source))
        (λ s. find_by_source s source) db
        (refused source (supplement_row env order total source) db e) (rw f refl)

  create-new :
      (env : Env) (order : ℕ) (total : ℤ) (source : BillingSource) (db : BillingDb)
      → some_of (has_source source) db.billing_requests ≡ false
      → create_supplement_billing_request env order total source db
        ≡ ok (after_insert (supplement_row env order total source) db)
  unfolding create_supplement_billing_request
  create-new env order total source db e =
      with_idempotency-inserted (insert_supplement source (supplement_row env order total source))
        (after_failure own (λ s. find_by_source s source)) db
        (inserted source (supplement_row env order total source) db e)

  -- The call for a source returns, whether it inserts a row or finds one, and each further call for
  -- the source, with whatever order and amount, returns the same request and writes nothing, where
  -- no two rows had the source before.
  pub create_supplement_billing_request-twice :
      (db : BillingDb) (env later : Env) (source : BillingSource) (order order' : ℕ)
      (total total' : ℤ)
      → IsUnique (has_source source) db.billing_requests
      → Returns
          (λ v db'. create_supplement_billing_request later order' total' source db' ≡ ok (v, db'))
          (create_supplement_billing_request env order total source db)
  create_supplement_billing_request-twice db env later source order order' total total' u =
      elim (Bool-cases (some_of (has_source source) db.billing_requests)) [
        | inl old ↦
            let (r, f) = find_first-of_some (has_source source) db.billing_requests old in
            subst (Returns Again) (sym (create-found env order total source db old f))
              (create-found later order' total' source db old f)
        | inr fresh ↦
            let row = supplement_row env order total source in
            let rows = db.billing_requests ++ row ∷ [] in
            let m : Memᴰ row rows =
              mem-append_right db.billing_requests (row ∷ []) (Memᴰ.head refl) in
            let t : has_source source row ≡ true = same_source_refl source in
            let f =
              find_first-of_mem (has_source source) rows
                (IsUnique-insert (has_source source) db.billing_requests row fresh) m t in
            subst (Returns Again) (sym (create-new env order total source db fresh)) (
              create-found later order' total' source (after_insert row db).1
                (mem-some_of (has_source source) rows m t) f)
      ]
    where
      Again : BillingRequestView → BillingDb → Type 0
      Again v db' = create_supplement_billing_request later order' total' source db' ≡ ok (v, db')
