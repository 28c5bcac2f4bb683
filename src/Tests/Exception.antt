-- ===== src/Tests/Exception.antt =====
-- The theorems on the exception module at work: a request for the item 7, and one for the item 9,
-- which has no route.
use laundry_api.Base.{ℕ, ◌≡◌, refl, some, none, [], ◌∷◌, update_where, ◌⊎◌}
use laundry_api.Base.Int.{pos}
use laundry_api.Errors.{Thrown}
use laundry_api.Exception.Approval.{
  ApprovalRequest, ExceptionDb, FoundApproval, answered, by_customer, check_approval, find_approval,
  open_approval, respond_approval,
}
use laundry_api.Exception.Approval.Lost.{respond_approval-lost}
use laundry_api.Exception.Approval.Once.{respond_approval-once}
use laundry_api.Billing.Repository.{find_order_customer_id}
use laundry_api.Route.Engine.Complete.{complete_current_step}
use laundry_api.Route.Load.{load_state}
use laundry_api.Store.InOrder.{in_order}
use laundry_api.Tx.{err, ok}
use laundry_api.Tests.Wash.{at_work, laundry}

abbrev request_for : ℕ → ℕ → ApprovalRequest
request_for id item = record {
  id = id;
  order_item_id = item;
  status = "WAITING";
  decision = none;
  resolved_at = none;
}

abbrev asked : ExceptionDb
asked = record {
  approval_requests = request_for 1 7 ∷ request_for 2 9 ∷ [];
  item_exception_contexts = [];
  wash = laundry;
}

abbrev repaired : ExceptionDb
repaired =
    (respond_approval ⦃prisma = in_order⦄ at_work 1 "APPROVE_REPAIR" (some (pos 5000)) "c1" asked).1

respond_approval-once_example :
    ((e : Thrown) × (respond_approval ⦃prisma = in_order⦄ at_work 1 "APPROVE_REPAIR"
          (some (pos 5000))
          "c1"
          asked
        ≡ (err e, asked)))
    ⊎ ((e : Thrown) × (respond_approval ⦃prisma = in_order⦄ at_work 1 "APPROVE_AS_IS" none "c1"
            repaired
          ≡ (err e, repaired)))
respond_approval-once_example =
    respond_approval-once ⦃prisma = in_order⦄ at_work at_work 1 "APPROVE_REPAIR" "APPROVE_AS_IS"
      (some (pos 5000)) none "c1" "c1" asked repaired refl

abbrev found : FoundApproval
found = record { approval = request_for 2 9; order_id = 3; customer_id = "c1" }

asked_found : check_approval ⦃prisma = in_order⦄ 2 "c1" asked ≡ ok found
unfolding check_approval find_approval find_order_customer_id
asked_found = refl

no_route :
    (e : Thrown) × (complete_current_step ⦃prisma = in_order⦄ 9 (by_customer "c1") asked.wash.route
      ≡ err e)
unfolding complete_current_step load_state
no_route = (_, refl)

respond_approval-lost_example :
    respond_approval ⦃prisma = in_order⦄ at_work 2 "APPROVE_REPAIR" none "c1" asked ≡ (
      err no_route.0,
      record asked {
        approval_requests =
            update_where
              (open_approval 2)
              (answered at_work "APPROVE_REPAIR")
              asked.approval_requests;
      },
    )
respond_approval-lost_example =
    respond_approval-lost ⦃prisma = in_order⦄ at_work 2 "APPROVE_REPAIR" none "c1" asked asked_found
      refl no_route.1
