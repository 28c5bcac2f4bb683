-- ===== src/Exception/Approval.antt =====
-- RespondApprovalUseCase. Its calls are no transaction together: each commits on its own, and an
-- error keeps what the calls before it have written.
pub mod Lost
pub mod Once
pub mod Spares
use laundry_api.Base.{
  ℕ, String, Bool, true, false, not, Option, none, some, List, ◌==◌, ◌&&◌, ◌||◌, count, str_eq,
  update_where, if◌then◌else◌,
}
use laundry_api.Base.Int.{ℤ, negsuc, pos}
use laundry_api.Billing.Repository.{find_order_customer_id}
use laundry_api.Billing.Service.{create_supplement_billing_for_approval}
use laundry_api.Errors.{
  Thrown, approval_request_already_resolved, approval_request_forbidden, approval_request_not_found,
  domain, of_exception,
}
use laundry_api.Orders.Types.{OrderItemStatus}
use laundry_api.Route.Db.{Env}
use laundry_api.Route.Engine.Complete.{complete_current_step}
use laundry_api.Route.Engine.Overrides.{skip_remaining_overrides}
use laundry_api.Route.Types.{ActorContext, ActorType, CurrentStateView}
use laundry_api.Store.{Prisma}
use laundry_api.Tx.{Result, Tx, err, ok}
use laundry_api.Wash.Items.{update_item, with_item_status}
use laundry_api.Wash.Types.{WashDb, in_billing, in_route}

-- The columns status and decision are texts.
pub record ApprovalRequest : Type 0 where
  pub id : ℕ
  pub order_item_id : ℕ
  pub status : String
  pub decision : Option String
  pub resolved_at : Option ℕ

pub record ItemExceptionContext : Type 0 where
  pub order_item_id : ℕ
  pub resolved_at : Option ℕ

pub record ExceptionDb : Type 0 where
  pub approval_requests : List ApprovalRequest
  pub item_exception_contexts : List ItemExceptionContext
  pub wash : WashDb

-- A call that keeps what it has written also when it throws.
abbrev pub Commits : Type 0 → Type 0
Commits A = ExceptionDb → Result A × ExceptionDb

-- A transaction of its own on the tables of the other modules.
abbrev pub settle : {A : Type 0} → ExceptionDb → Result (A × WashDb) → Result A × ExceptionDb
settle db (ok (a, wash)) = (ok a, record db { wash = wash })
settle db (err e) = (err e, db)

abbrev pub commit : {A : Type 0} → Tx WashDb A → Commits A
commit m db = settle db (m db.wash)

-- The rest of the body, unless an error was thrown.
abbrev pub proceed : {A B : Type 0} → (A → Commits B) → Result A → Commits B
proceed f (ok a) db = f a db
proceed f (err e) db = (err e, db)

abbrev pub followed_by : {A B : Type 0} → Commits A → (A → Commits B) → Commits B
followed_by m f db = proceed f (m db).0 (m db).1

-- APPROVE_DECISIONS.
abbrev pub approves : String → Bool
approves d = str_eq d "APPROVE_REPAIR" || str_eq d "APPROVE_VENDOR" || str_eq d "APPROVE_PREMIUM"

-- SKIP_DECISIONS.
abbrev pub skips : String → Bool
skips d = str_eq d "CLEAN_WITHOUT_REPAIR" || str_eq d "APPROVE_AS_IS"

abbrev pub is_open : ApprovalRequest → Bool
is_open a = str_eq a.status "WAITING"

-- `where: { id, status: 'WAITING' }`.
abbrev pub open_approval : ℕ → ApprovalRequest → Bool
open_approval id a = a.id == id && is_open a

abbrev pub answered : Env → String → ApprovalRequest → ApprovalRequest
answered env d a = record a { decision = some d; status = "RESOLVED"; resolved_at = some env.now }

-- The request with what the query includes of its item and order.
pub record FoundApproval : Type 0 where
  pub approval : ApprovalRequest
  pub order_id : ℕ
  pub customer_id : String

-- `where: { orderItemId, resolvedAt: null }`.
abbrev pub is_unresolved : ℕ → ItemExceptionContext → Bool
is_unresolved item c =
    c.order_item_id == item && elim c.resolved_at [ none ↦ true | some t ↦ false ]

-- The actor of every call that follows.
abbrev pub by_customer : String → ActorContext
by_customer customer = record {
  actor_type = ActorType.customer;
  actor_id = customer;
  staff_role = none;
}

abbrev pub is_zero : ℤ → Bool
is_zero (pos n) = n == 0
is_zero (negsuc n) = false

-- The claim of the request, which commits before anything else is done.
unfoldable pub claim_approval : Env → ℕ → String → Commits (Unit {0})
claim_approval env id d db = (
  if count (open_approval id) db.approval_requests == 0
      then err (domain (of_exception approval_request_already_resolved))
      else ok tt,
  record db {
    approval_requests = update_where (open_approval id) (answered env d) db.approval_requests;
  },
)

-- `itemExceptionContext.updateMany`.
unfoldable pub resolve_context : Env → ℕ → Commits (Unit {0})
resolve_context env item db = (
  ok tt,
  record db {
    item_exception_contexts =
        update_where (is_unresolved item) (λ c. record c { resolved_at = some env.now })
          db.item_exception_contexts;
  },
)

abbrev pub do_nothing : Commits (Unit {0})
do_nothing db = (ok tt, db)

module _ ⦃prisma : Prisma⦄ where
  -- The query. A request without its item or its order, which the foreign keys exclude, is none.
  unfoldable pub find_approval : ℕ → ExceptionDb → Option FoundApproval
  find_approval id db = elim (prisma.find_first (λ a. a.id == id) db.approval_requests) [
    | none ↦ none
    | some a ↦ elim (prisma.find_first (λ i. i.id == a.order_item_id) db.wash.order_items) [
      | none ↦ none
      | some i ↦ elim (find_order_customer_id db.wash.billing i.order_id) [
        | none ↦ none
        | some c ↦ some (record { approval = a; order_id = i.order_id; customer_id = c })
      ]
    ]
  ]

  -- The checks before the claim.
  unfoldable pub check_approval : ℕ → String → ExceptionDb → Result FoundApproval
  check_approval id customer db = elim (find_approval id db) [
    | none ↦ err (domain (of_exception (approval_request_not_found id)))
    | some f ↦
        if not (str_eq f.customer_id customer)
        then err (domain (of_exception approval_request_forbidden))
        else if not (is_open f.approval)
        then err (domain (of_exception approval_request_already_resolved))
        else ok f
  ]

  -- The item of a completed plan.
  unfoldable pub release_item : ℕ → CurrentStateView → Commits (Unit {0})
  release_item item v =
      if v.is_plan_completed
      then followed_by
          (commit (update_item item (with_item_status OrderItemStatus.ready_for_delivery)))
          (λ row. do_nothing)
      else do_nothing

  -- The supplement, where an extra amount is given that is not zero.
  unfoldable pub bill_extra : Env → ℕ → ℕ → Option ℤ → Commits (Unit {0})
  bill_extra env approval order none = do_nothing
  bill_extra env approval order (some amount) =
      if is_zero amount
      then do_nothing
      else followed_by
          (commit (in_billing (create_supplement_billing_for_approval env approval order amount)))
          (λ view. do_nothing)

  -- An approval completes the step.
  unfoldable pub approve_step : Env → FoundApproval → String → Option ℤ → Commits (Unit {0})
  approve_step env f customer extra =
      followed_by
        (commit (in_route (complete_current_step f.approval.order_item_id (by_customer customer))))
        λ v.
          followed_by (release_item f.approval.order_item_id v)
            λ u. bill_extra env f.approval.id f.order_id extra

  -- A refusal skips the flow.
  unfoldable pub skip_flow : Env → FoundApproval → String → Commits (Unit {0})
  skip_flow env f customer =
      followed_by
        (commit
          (in_route (skip_remaining_overrides f.approval.order_item_id (by_customer customer))))
        λ v.
          followed_by (release_item f.approval.order_item_id v)
            λ u. resolve_context env f.approval.order_item_id

  -- The body by the decision; an unknown decision does nothing more.
  unfoldable pub carry_out : Env → FoundApproval → String → Option ℤ → String → Commits (Unit {0})
  carry_out env f decision extra customer =
      if approves decision
      then approve_step env f customer extra
      else if skips decision || str_eq decision "RETURN_WITHOUT_PROCESSING"
      then skip_flow env f customer
      else do_nothing

  -- `RespondApprovalUseCase.execute`.
  unfoldable pub respond_approval : Env → ℕ → String → Option ℤ → String → Commits (Unit {0})
  respond_approval env id decision extra customer db =
      proceed
        (λ f.
          followed_by (claim_approval env id decision)
            (λ u. carry_out env f decision extra customer))
        (check_approval id customer db) db
