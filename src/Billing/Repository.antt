-- ===== src/Billing/Repository.antt =====
-- prisma-billing.repository.ts and billing.service.ts.
use laundry_api.Base.{
  ℕ, String, Bool, true, false, Option, none, some, List, [], ◌∷◌, ◌++◌, ◌==◌, ◌&&◌, count, map,
  some_of, update_where,
}
use laundry_api.Base.Int.{ℤ, pos, ◌+ℤ◌}
use laundry_api.Errors.{of_billing, billing_already_resolved, domain, known_request}
use laundry_api.Idempotency.{Client, after_failure, own, with_idempotency}
use laundry_api.Store.{Prisma}
use laundry_api.Tx.{Tx, ◌>>=◌, ◌>>◌, pure, gets, modify, require, throw_if}
use laundry_api.Billing.Types.{
  BillingDb, BillingItem, BillingRequestView, BillingRow, BillingSource, BillingStatus, BillingType,
  ClaimAndFetchResult, PaymentEvent, PaymentEventType, SourceType,
}
use laundry_api.Route.Db.{Env}

-- `toView`.
abbrev pub to_view : BillingRow → BillingRequestView
to_view r = record {
  id = r.id;
  order_id = r.order_id;
  type = r.type;
  status = r.status;
  total_amount = r.total_amount;
  created_at = r.created_at;
  resolved_at = r.resolved_at;
  notified_at = r.notified_at;
  items = r.items;
}

abbrev pub is_waiting : BillingStatus → Bool
is_waiting BillingStatus.waiting = true
is_waiting BillingStatus.paid = false
is_waiting BillingStatus.cancelled = false

abbrev pub is_null {ℓ} : {A : Type ℓ} → Option A → Bool
is_null none = true
is_null (some a) = false

abbrev pub same_source_type : SourceType → SourceType → Bool
same_source_type SourceType.approval_request SourceType.approval_request = true
same_source_type SourceType.route_change_request SourceType.route_change_request = true
same_source_type SourceType.approval_request SourceType.route_change_request = false
same_source_type SourceType.route_change_request SourceType.approval_request = false

abbrev pub same_source : BillingSource → BillingSource → Bool
same_source a b = same_source_type a.type b.type && a.id == b.id

-- `where: { sourceType_sourceId }`.
abbrev pub has_source : BillingSource → BillingRow → Bool
has_source source r = elim r.source [ none ↦ false | some s ↦ same_source s source ]

-- The row holds a billing item for the order item.
abbrev pub bills : ℕ → BillingRow → Bool
bills item r = some_of (λ i. i.order_item_id == item) r.items

-- `where: { orderId, status: 'WAITING' }`.
abbrev pub waiting_of : ℕ → BillingRow → Bool
waiting_of order r = r.order_id == order && is_waiting r.status

-- `where: { orderId, status: 'WAITING', notifiedAt: null }`.
abbrev pub unnotified_of : ℕ → BillingRow → Bool
unnotified_of order r = waiting_of order r && is_null r.notified_at

-- `where: { id, status: 'WAITING' }`.
abbrev pub waiting_row : ℕ → BillingRow → Bool
waiting_row id r = r.id == id && is_waiting r.status

-- `input.items.reduce((sum, i) => sum + i.amount, 0)`.
abbrev pub total_of : ℤ → List BillingItem → ℤ
total_of acc [] = acc
total_of acc (i ∷ items) = total_of (acc +ℤ i.amount) items

abbrev pub resolve_event : BillingStatus → PaymentEventType
resolve_event BillingStatus.paid = PaymentEventType.payment_succeed
resolve_event BillingStatus.waiting = PaymentEventType.payment_failed
resolve_event BillingStatus.cancelled = PaymentEventType.payment_failed

abbrev pub create_payment_event : PaymentEvent → BillingDb → BillingDb
create_payment_event e db = record db { payment_events = db.payment_events ++ e ∷ [] }

-- A billing item of the row stands for an order item that some row of the table bills already.
abbrev pub clashes : List BillingRow → List BillingItem → Bool
clashes rows items = some_of (λ i. some_of (bills i.order_item_id) rows) items

-- `billingRequest.create` for a BASE row: the UNIQUE constraint on `orderItemId` of the items
-- raises P2002.
unfoldable pub insert_base : BillingRow → Tx BillingDb BillingRequestView
insert_base row = do
  throw_if (← gets (λ db. clashes db.billing_requests row.items)) (known_request "P2002")
  modify (λ db. record db { billing_requests = db.billing_requests ++ row ∷ [] })
  modify (
      create_payment_event (record {
        billing_request_id = row.id;
        event_type = PaymentEventType.billing_created;
        actor_id = none;
      }))
  pure (to_view row)

-- `billingRequest.create` for a SUPPLEMENT row: the UNIQUE constraint on its source raises P2002.
unfoldable pub insert_supplement : BillingSource → BillingRow → Tx BillingDb BillingRequestView
insert_supplement source row = do
  throw_if (← gets (λ db. some_of (has_source source) db.billing_requests)) (known_request "P2002")
  modify (λ db. record db { billing_requests = db.billing_requests ++ row ∷ [] })
  modify (
      create_payment_event (record {
        billing_request_id = row.id;
        event_type = PaymentEventType.billing_created;
        actor_id = none;
      }))
  pure (to_view row)

-- The row that `createBillingRequest` inserts.
abbrev pub base_row : Env → ℕ → List BillingItem → BillingRow
base_row env order items = record {
  id = env.new_id;
  order_id = order;
  type = BillingType.base;
  status = BillingStatus.waiting;
  source = none;
  total_amount = total_of (pos 0) items;
  created_at = env.now;
  resolved_at = none;
  notified_at = none;
  items = items;
}

-- The row that `createSupplementBillingRequest` inserts.
abbrev pub supplement_row : Env → ℕ → ℤ → BillingSource → BillingRow
supplement_row env order total source = record {
  id = env.new_id;
  order_id = order;
  type = BillingType.supplement;
  status = BillingStatus.waiting;
  source = some source;
  total_amount = total;
  created_at = env.now;
  resolved_at = none;
  notified_at = none;
  items = [];
}

abbrev pub view? : Option BillingRow → Option BillingRequestView
view? none = none
view? (some r) = some (to_view r)

module _ ⦃prisma : Prisma⦄ where
  -- `findById`.
  unfoldable pub find_by_id : BillingDb → ℕ → Option BillingRequestView
  find_by_id db id = view? (prisma.find_first (λ r. r.id == id) db.billing_requests)

  -- `findOrderCustomerId`.
  unfoldable pub find_order_customer_id : BillingDb → ℕ → Option String
  find_order_customer_id db order = elim (prisma.find_first (λ o. o.id == order) db.orders) [
    | none ↦ none
    | some o ↦ some o.customer_id
  ]

  -- `countWaitingByOrder`.
  unfoldable pub count_waiting_by_order : BillingDb → ℕ → ℕ
  count_waiting_by_order db order = count (waiting_of order) db.billing_requests

  -- `findBySource`.
  unfoldable pub find_by_source : BillingDb → BillingSource → Option BillingRequestView
  find_by_source db source = view? (prisma.find_first (has_source source) db.billing_requests)

  -- The row that bills the first item of the input: `fetchExisting` of `createBillingRequest`.
  unfoldable pub find_billing_of : BillingDb → List BillingItem → Option BillingRequestView
  find_billing_of db [] = none
  find_billing_of db (i ∷ items) =
      view? (prisma.find_first (bills i.order_item_id) db.billing_requests)

  -- `createBillingRequest`, on the client `tx ?? this.prisma`.
  unfoldable pub create_billing_request :
      Client → Env → ℕ → List BillingItem → Tx BillingDb BillingRequestView
  create_billing_request client env order items =
      with_idempotency (insert_base (base_row env order items))
        (after_failure client (λ db. find_billing_of db items))

  -- `createSupplementBillingRequest`.
  unfoldable pub create_supplement_billing_request :
      Env → ℕ → ℤ → BillingSource → Tx BillingDb BillingRequestView
  create_supplement_billing_request env order total source =
      with_idempotency (insert_supplement source (supplement_row env order total source))
        (after_failure own (λ db. find_by_source db source))

  -- `resolveRequest`.
  unfoldable pub resolve_request :
      Env → ℕ → BillingStatus → String → Tx BillingDb BillingRequestView
  resolve_request env id status actor_id = do
    matched ← gets (λ db. count (waiting_row id) db.billing_requests)
    modify (λ db. record db {
      billing_requests =
          update_where (waiting_row id)
            (λ r. record r { status = status; resolved_at = some env.now }) db.billing_requests;
    })
    throw_if (matched == 0) (domain (of_billing (billing_already_resolved id)))
    modify (
        create_payment_event (record {
          billing_request_id = id;
          event_type = resolve_event status;
          actor_id = some actor_id;
        }))
    row ←
        require (← gets (λ db. prisma.find_first (λ r. r.id == id) db.billing_requests))
          (known_request "P2025")
    pure (to_view row)

  -- `claimAndFetchWaiting`.
  unfoldable pub claim_and_fetch_waiting : Env → ℕ → Tx BillingDb ClaimAndFetchResult
  claim_and_fetch_waiting env order db = elim (prisma.find_first (λ o. o.id == order) db.orders) [
    | none ↦ pure (record { customer_id = none; all_waiting = []; just_claimed_count = 0 }) db
    | some owner ↦
        (do
          claimed ← gets (λ db. count (unnotified_of order) db.billing_requests)
          modify (λ db. record db {
            billing_requests =
                update_where (unnotified_of order) (λ r. record r { notified_at = some env.now })
                  db.billing_requests;
          })
          rows ← gets (λ db.
              prisma.find_many_asc (λ r. r.created_at) (waiting_of order) db.billing_requests)
          pure (record {
            customer_id = some owner.customer_id;
            all_waiting = map to_view rows;
            just_claimed_count = claimed;
          }))
          db
  ]
