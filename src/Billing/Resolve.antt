-- ===== src/Billing/Resolve.antt =====
-- A billing request is resolved once, whoever comes second.
use laundry_api.Base.{
  ℕ, ◌<◌, String, Bool, true, false, some, List, [], ◌∷◌, ◌≡◌, refl, Memᴰ, arith, count,
  update_where, inl, inr, Bool-cases,
}
use laundry_api.Errors.{of_billing, billing_already_resolved, domain}
use laundry_api.Store.{Prisma}
use laundry_api.Tx.{ok, err}
use laundry_api.Billing.Types.{BillingDb, BillingRequestView, BillingRow, BillingStatus}
use laundry_api.Billing.Repository.{is_waiting, resolve_request, waiting_row}
use laundry_api.Route.Db.{Env}

module _ {A : Type 0} (p : A → Bool) (f : A → A) where
  -- An update after which no updated row passes the test leaves none that does.
  pub count-update_where-zero :
      (rows : List A)
      → ((x : A) → p x ≡ true → p (f x) ≡ false)
      → count p (update_where p f rows) ≡ 0
  count-update_where-zero [] h = refl
  count-update_where-zero (x ∷ rows) h = elim (Bool-cases (p x)) [
    | inl e ↦ rw (e, h x e) (count-update_where-zero rows h)
    | inr e ↦ rw (e, e) (count-update_where-zero rows h)
  ]

-- A row that passes the test is counted.
pub count-pos :
    {A : Type 0} (p : A → Bool) (rows : List A) {x : A}
    → Memᴰ x rows
    → p x ≡ true
    → 0 < count p rows
count-pos p [] m t = elim m [ ]
count-pos p (y ∷ rows) (Memᴰ.head e) t = rw (rw e at t) (omega arith)
count-pos p (y ∷ rows) (Memᴰ.tail m) t = ground (arith, count-pos p rows m t)

-- A status that a resolution may set.
abbrev pub IsFinal : BillingStatus → Type 0
IsFinal s = is_waiting s ≡ false

-- The row after a resolution.
abbrev pub resolved : Env → BillingStatus → BillingRow → BillingRow
resolved env status r = record r { status = status; resolved_at = some env.now }

module _ ⦃prisma : Prisma⦄ where
  pub resolve_request-resolved :
      (db : BillingDb) (env : Env) (id : ℕ) (status : BillingStatus) (actor : String)
      → count (waiting_row id) db.billing_requests ≡ 0
      → resolve_request env id status actor db
        ≡ err (domain (of_billing (billing_already_resolved id)))
  unfolding resolve_request
  resolve_request-resolved db env id status actor e = ground arith

  -- A resolution that succeeds has rewritten the rows that wait under the id.
  resolve_request-rows :
      (db : BillingDb) (env : Env) (id : ℕ) (status : BillingStatus) (actor : String)
      {v : BillingRequestView} {db' : BillingDb}
      → resolve_request env id status actor db ≡ ok (v, db')
      → db'.billing_requests
        ≡ update_where (waiting_row id) (resolved env status) db.billing_requests
  unfolding resolve_request
  resolve_request-rows db env id status actor e = ground arith

  -- After a resolution that succeeded, to a status other than WAITING, every further resolution of
  -- the request, to any status and by anybody, throws that it is resolved already.
  pub resolve_request-twice :
      (db : BillingDb) (env later : Env) (id : ℕ) (first second : BillingStatus) (a b : String)
      {v : BillingRequestView} {db' : BillingDb}
      → IsFinal first
      → resolve_request env id first a db ≡ ok (v, db')
      → resolve_request later id second b db'
        ≡ err (domain (of_billing (billing_already_resolved id)))
  resolve_request-twice db env later id first second a b {v} {db'} final e =
      resolve_request-resolved db' later id second b (
        rw (resolve_request-rows db env id first a e) (
          count-update_where-zero (waiting_row id) (resolved env first) db.billing_requests
            (λ x h. ground arith)))
