-- ===== src/Billing/Types.antt =====
-- The tables of the billing module (prisma/schema.prisma), billing.types.ts and
-- billing.repository.ts.
use laundry_api.Base.{ℕ, String, Option, List}
use laundry_api.Base.Int.{ℤ}

pub data BillingType : Type 0 where
  base supplement : BillingType

pub data BillingStatus : Type 0 where
  waiting paid cancelled : BillingStatus

pub data SourceType : Type 0 where
  approval_request route_change_request : SourceType

-- `BillingSource`, the idempotency key of a SUPPLEMENT row.
pub record BillingSource : Type 0 where
  pub type : SourceType
  pub id : ℕ

pub record BillingItem : Type 0 where
  pub order_item_id : ℕ
  pub amount : ℤ

-- A row of `billing_requests` with its items. `BillingRequestView` has the same fields, apart from
-- the source.
pub record BillingRow : Type 0 where
  pub id : ℕ
  pub order_id : ℕ
  pub type : BillingType
  pub status : BillingStatus
  pub source : Option BillingSource
  pub total_amount : ℤ
  pub created_at : ℕ
  pub resolved_at : Option ℕ
  pub notified_at : Option ℕ
  pub items : List BillingItem

pub record BillingRequestView : Type 0 where
  pub id : ℕ
  pub order_id : ℕ
  pub type : BillingType
  pub status : BillingStatus
  pub total_amount : ℤ
  pub created_at : ℕ
  pub resolved_at : Option ℕ
  pub notified_at : Option ℕ
  pub items : List BillingItem

pub data PaymentEventType : Type 0 where
  billing_created payment_succeed payment_failed : PaymentEventType

pub record PaymentEvent : Type 0 where
  pub billing_request_id : ℕ
  pub event_type : PaymentEventType
  pub actor_id : Option String

-- An order with the `customerId` of its owner.
pub record OrderOwner : Type 0 where
  pub id : ℕ
  pub customer_id : String

pub record BillingDb : Type 0 where
  pub orders : List OrderOwner
  pub billing_requests : List BillingRow
  -- Newest last.
  pub payment_events : List PaymentEvent

pub record ClaimAndFetchResult : Type 0 where
  pub customer_id : Option String
  pub all_waiting : List BillingRequestView
  pub just_claimed_count : ℕ
