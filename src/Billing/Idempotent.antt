-- ===== src/Billing/Idempotent.antt =====
-- A tagged item is billed once.
use laundry_api.Base.{
  ℕ, Bool, true, false, none, some, List, [], ◌∷◌, ◌++◌, ◌≡◌, refl, Memᴰ, inl, inr, Option-cases,
  some_of, some_of-mem,
}
use laundry_api.Base.Int.{ℤ}
use laundry_api.Errors.{known_request, type_error}
use laundry_api.Store.{Prisma}
use laundry_api.Tx.{Result, ok, err}
use laundry_api.Billing.Service.{on_item_tagged}
use laundry_api.Billing.Types.{
  BillingDb, BillingItem, BillingRequestView, BillingRow, PaymentEventType,
}
use laundry_api.Billing.Repository.{
  base_row, bills, clashes, create_payment_event, insert_base, to_view,
}
use laundry_api.Route.Db.{Env}

-- One billing item.
abbrev pub item_of : ℕ → ℤ → List BillingItem
item_of item amount = record { order_item_id = item; amount = amount } ∷ []

-- The result of an insert.
abbrev pub after_insert : BillingRow → BillingDb → BillingRequestView × BillingDb
after_insert row db = (
  to_view row,
  create_payment_event
      (record {
        billing_request_id = row.id;
        event_type = PaymentEventType.billing_created;
        actor_id = none;
      })
      (record db { billing_requests = db.billing_requests ++ row ∷ [] }),
)

refused :
    (row : BillingRow) (db : BillingDb)
    → clashes db.billing_requests row.items ≡ true
    → insert_base row db ≡ err (known_request "P2002")
unfolding insert_base
refused row db e = rw e refl

inserted :
    (row : BillingRow) (db : BillingDb)
    → clashes db.billing_requests row.items ≡ false
    → insert_base row db ≡ ok (after_insert row db)
unfolding insert_base
inserted row db e = rw e refl

module _ ⦃prisma : Prisma⦄ where
  -- A test that some row passes finds a row.
  pub find_first-of_some :
      {A : Type 0} (p : A → Bool) (rows : List A)
      → some_of p rows ≡ true
      → (r : A) × (prisma.find_first p rows ≡ some r)
  find_first-of_some p rows e = elim (Option-cases (prisma.find_first p rows)) [
    | inl f ↦
        let (x, m, t) = some_of-mem p rows e in absurd (cc (prisma.find_first_none p rows f m))
    | inr found ↦ found
  ]

  -- What the billing of a tagged item comes to: one new BASE row, after which every further call
  -- for the item throws; or an error, and then the item was billed before.
  abbrev pub BilledOnce : Env → ℕ → ℕ → ℤ → BillingDb → Result (Unit {0} × BillingDb) → Type 0
  BilledOnce env item order amount db (ok (u, db')) =
      ((b : BillingRow) → Memᴰ b db.billing_requests → bills item b ≡ false)
      × (db'.billing_requests
          ≡ db.billing_requests ++ base_row env order (item_of item amount) ∷ [])
      × ((later : Env) (order' : ℕ) (amount' : ℤ)
          → on_item_tagged later item order' amount' db' ≡ err type_error)
  BilledOnce env item order amount db (err e) =
      (e ≡ type_error) × ((b : BillingRow) × Memᴰ b db.billing_requests × (bills item b ≡ true))
