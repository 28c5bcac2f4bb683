-- ===== src/Billing/Access.antt =====
-- Who can resolve a billing request: the owner of its order, while it waits.
use laundry_api.Base.{
  ℕ, ◌⊎◌, ◌≡◌, refl, ap, String, true, false, Option, none, some, update_where, arith, str_eq,
  eq_iff, inl, inr, Bool-cases,
}
use laundry_api.Store.{Prisma}
use laundry_api.Tx.{ok, bind-ok}
use laundry_api.Billing.Types.{BillingDb, BillingRequestView, BillingRow, BillingStatus}
use laundry_api.Billing.Repository.{
  find_by_id, find_order_customer_id, create_payment_event, is_waiting, resolve_event,
  resolve_request, to_view, waiting_row,
}
use laundry_api.Billing.Resolve.{resolved}
use laundry_api.Billing.Service.{
  cancel_billing_request, check_resolvable, get_billing_request, not_owner, pay_billing_request,
}
use laundry_api.Route.Db.{Env}

owner-not_owner :
    (owner : Option String) (customer : String)
    → not_owner owner customer ≡ false
    → owner ≡ some customer
owner-not_owner none customer e = cc
owner-not_owner (some owner) customer e = elim (Bool-cases (str_eq owner customer)) [
  | inl same ↦ ap some ((eq_iff owner customer).0 same)
  | inr other ↦ absurd (ground arith)
]

waiting-is_waiting : (s : BillingStatus) → is_waiting s ≡ true → s ≡ BillingStatus.waiting
waiting-is_waiting BillingStatus.waiting e = refl
waiting-is_waiting BillingStatus.paid e = cc
waiting-is_waiting BillingStatus.cancelled e = cc

-- A request and the tables after its resolution: the row, and one event.
abbrev pub settled :
    Env → BillingStatus → String → BillingRow → BillingDb → BillingRequestView × BillingDb
settled env status customer r db = (
  to_view (resolved env status r),
  create_payment_event
      (record {
        billing_request_id = r.id;
        event_type = resolve_event status;
        actor_id = some customer;
      })
      (record db {
        billing_requests =
            update_where (waiting_row r.id) (resolved env status) db.billing_requests;
      }),
)

module _ ⦃prisma : Prisma⦄ where
  -- The request is there, its order is the customer's, and it waits.
  abbrev pub IsResolvable : ℕ → String → BillingDb → Type 0
  IsResolvable id customer db =
      (b : BillingRequestView) × (find_by_id db id ≡ some b)
      × (find_order_customer_id db b.order_id ≡ some customer)
      × (b.status ≡ BillingStatus.waiting)

  check_resolvable-IsResolvable :
      (id : ℕ) (customer : String) (db : BillingDb) {b : BillingRequestView} {db' : BillingDb}
      → check_resolvable id customer db ≡ ok (b, db')
      → IsResolvable id customer db × (db' ≡ db)
  unfolding check_resolvable get_billing_request
  check_resolvable-IsResolvable id customer db {b} {db'} e = go (find_by_id db id) refl
    where
      go :
          (o : Option BillingRequestView)
          → find_by_id db id ≡ o
          → IsResolvable id customer db × (db' ≡ db)
      go none f = absurd (ground arith)
      go (some x) f =
          elim (Bool-cases (not_owner (find_order_customer_id db x.order_id) customer)) [
            | inl other ↦ absurd (ground arith)
            | inr owns ↦ elim (Bool-cases (is_waiting x.status)) [
              | inl waits ↦ (
                (x, f, owner-not_owner _ customer owns, waiting-is_waiting x.status waits),
                ground arith,
              )
              | inr done ↦ absurd (ground arith)
            ]
          ]

  check_resolvable-ok :
      (id : ℕ) (customer : String) (db : BillingDb) (r : IsResolvable id customer db)
      → check_resolvable id customer db ≡ ok (r.0, db)
  unfolding check_resolvable get_billing_request
  check_resolvable-ok id customer db (b, found, owner, waits) =
      let mine : str_eq customer customer ≡ true = (eq_iff customer customer).1 refl in ground arith

  -- A payment or a cancellation by a customer that succeeds was one of a waiting request of an order
  -- of that customer.
  pub pay_billing_request-IsResolvable :
      (env : Env) (id : ℕ) (customer : String) (db : BillingDb) {v : BillingRequestView}
      {db' : BillingDb}
      → (pay_billing_request env id customer db ≡ ok (v, db'))
        ⊎ (cancel_billing_request env id customer db ≡ ok (v, db'))
      → IsResolvable id customer db
  unfolding pay_billing_request cancel_billing_request
  pay_billing_request-IsResolvable env id customer db (inl e) =
      let (b, db₁, checked, _) =
        bind-ok (check_resolvable id customer)
          (λ b. resolve_request env id BillingStatus.paid customer) db e in
      (check_resolvable-IsResolvable id customer db checked).0
  pay_billing_request-IsResolvable env id customer db (inr e) =
      let (b, db₁, checked, _) =
        bind-ok (check_resolvable id customer)
          (λ b. resolve_request env id BillingStatus.cancelled customer) db e in
      (check_resolvable-IsResolvable id customer db checked).0

  -- Of a waiting request of an order of the customer, a payment is the resolution to PAID and a
  -- cancellation the one to CANCELLED, by that customer.
  pub pay_billing_request-resolve_request :
      (env : Env) (id : ℕ) (customer : String) (db : BillingDb)
      → IsResolvable id customer db
      → (pay_billing_request env id customer db
          ≡ resolve_request env id BillingStatus.paid customer db)
        × (cancel_billing_request env id customer db
            ≡ resolve_request env id BillingStatus.cancelled customer db)
  unfolding pay_billing_request cancel_billing_request
  pay_billing_request-resolve_request env id customer db r =
      let checked = check_resolvable-ok id customer db r in (ground arith, ground arith)
