-- ===== src/Billing/Claim.antt =====
-- The claim of the requests to notify of: each is claimed once.
use laundry_api.Base.{
  pair_eq, String, ℕ, Bool, Option, none, some, List, [], ◌∷◌, ◌≡◌, refl, sym, subst, ap, ◌∙◌,
  arith, count, update_where, inl, inr, Option-cases, ◌==◌, map,
}
use laundry_api.Store.{Prisma}
use laundry_api.Tx.{ok, Returns}
use laundry_api.Billing.Types.{BillingDb, BillingRequestView, BillingRow, OrderOwner}
use laundry_api.Billing.Repository.{claim_and_fetch_waiting, to_view, unnotified_of, waiting_of}
use laundry_api.Billing.Resolve.{count-update_where-zero}
use laundry_api.Billing.Service.{EmitPayload, claim_waiting_for_ready_to_package, payload_of}
use laundry_api.Route.Db.{Env}

-- An update that no row passes the test of changes nothing.
pub update_where-none :
    {A : Type 0} (p : A → Bool) (f : A → A) (rows : List A)
    → count p rows ≡ 0
    → update_where p f rows ≡ rows
update_where-none p f [] e = refl
update_where-none p f (x ∷ rows) e = ground (arith, update_where-none p f rows)

-- A claimed row.
abbrev pub notified : Env → BillingRow → BillingRow
notified env r = record r { notified_at = some env.now }

-- The database after a claim.
abbrev pub claimed : Env → ℕ → BillingDb → BillingDb
claimed env order db = record db {
  billing_requests = update_where (unnotified_of order) (notified env) db.billing_requests;
}

none_left :
    (env : Env) (order : ℕ) (db : BillingDb)
    → count (unnotified_of order) (claimed env order db).billing_requests ≡ 0
none_left env order db =
    count-update_where-zero (unnotified_of order) (notified env) db.billing_requests
      (λ r e. ground arith)

no_payload :
    (customer : String) (waiting : List BillingRequestView)
    → payload_of (some customer) waiting 0 ≡ none
no_payload customer waiting = ground arith

module _ ⦃prisma : Prisma⦄ where
  fetch-missing :
      (env : Env) (order : ℕ) (db : BillingDb)
      → prisma.find_first (λ o. o.id == order) db.orders ≡ none
      → claim_and_fetch_waiting env order db
        ≡ ok (record { customer_id = none; all_waiting = []; just_claimed_count = 0 }, db)
  unfolding claim_and_fetch_waiting
  fetch-missing env order db e = rw (claim_and_fetch_waiting, e) refl

  fetch-owner :
      (env : Env) (order : ℕ) (db : BillingDb) {o : OrderOwner}
      → prisma.find_first (λ o. o.id == order) db.orders ≡ some o
      → claim_and_fetch_waiting env order db
        ≡ ok (
          record {
            customer_id = some o.customer_id;
            all_waiting = map to_view (
                prisma.find_many_asc
                  (λ r. r.created_at)
                  (waiting_of order)
                  (claimed env order db).billing_requests);
            just_claimed_count = count (unnotified_of order) db.billing_requests;
          },
          claimed env order db,
        )
  unfolding claim_and_fetch_waiting
  fetch-owner env order db e = rw (claim_and_fetch_waiting, e) refl

  -- The first claim of a batch.
  abbrev pub payload_after : Env → ℕ → BillingDb → OrderOwner → Option EmitPayload
  payload_after env order db o =
      payload_of (some o.customer_id)
        (map to_view (
          prisma.find_many_asc (λ r. r.created_at) (waiting_of order)
            (claimed env order db).billing_requests))
        (count (unnotified_of order) db.billing_requests)

  pub claim-missing :
      (env : Env) (order : ℕ) (db : BillingDb)
      → prisma.find_first (λ o. o.id == order) db.orders ≡ none
      → claim_waiting_for_ready_to_package env order db ≡ ok (none, db)
  unfolding claim_waiting_for_ready_to_package
  claim-missing env order db e = ground (arith, fetch-missing env order db e)

  pub claim-owner :
      (env : Env) (order : ℕ) (db : BillingDb) {o : OrderOwner}
      → prisma.find_first (λ o. o.id == order) db.orders ≡ some o
      → claim_waiting_for_ready_to_package env order db
        ≡ ok (payload_after env order db o, claimed env order db)
  unfolding claim_waiting_for_ready_to_package
  claim-owner env order db {o} e = ground (arith, fetch-owner env order db e)

  nothing_left :
      (env later : Env) (order : ℕ) (db : BillingDb) (o : OrderOwner)
      → payload_after later order (claimed env order db) o ≡ none
  nothing_left env later order db o = rw (none_left env order db) (
      no_payload o.customer_id (
        map to_view (
          prisma.find_many_asc (λ r. r.created_at) (waiting_of order)
            (claimed later order (claimed env order db)).billing_requests)))

  claimed-claimed :
      (env later : Env) (order : ℕ) (db : BillingDb)
      → claimed later order (claimed env order db) ≡ claimed env order db
  claimed-claimed env later order db =
      ap (λ rows. record db { billing_requests = rows })
        (update_where-none (unnotified_of order) (notified later)
          (claimed env order db).billing_requests (none_left env order db))

  -- What a claim leaves for the next one: it returns no payload and changes nothing.
  abbrev pub IsClaimed : ℕ → BillingDb → Type 0
  IsClaimed order db =
      (later : Env) → claim_waiting_for_ready_to_package later order db ≡ ok (none, db)

  -- The claim of an order's requests for a notice returns, and on the tables that it leaves, with no
  -- request added since, every further claim for the order returns no payload and changes nothing: a
  -- batch is sent once.
  pub claim_waiting_for_ready_to_package-once :
      (env : Env) (order : ℕ) (db : BillingDb)
      → Returns (λ p db'. IsClaimed order db') (claim_waiting_for_ready_to_package env order db)
  claim_waiting_for_ready_to_package-once env order db =
      elim (Option-cases (prisma.find_first (λ o. o.id == order) db.orders)) [
        | inl missing ↦
            subst (Returns (λ p db'. IsClaimed order db'))
              (sym (claim-missing env order db missing))
              (λ later. claim-missing later order db missing)
        | inr (o, e) ↦
            subst (Returns (λ p db'. IsClaimed order db')) (sym (claim-owner env order db e))
              (λ later.
                claim-owner later order (claimed env order db) e
                ∙ ap ok (
                    pair_eq (nothing_left env later order db o)
                      (claimed-claimed env later order db)))
      ]
