-- ===== src/Tests/Billing.antt =====
-- The theorems on the billing module at work.
use laundry_api.Base.{inl, ◌∙◌, ◌≡◌, refl, some, none, [], ◌∷◌, arith, update_where}
use laundry_api.Base.Int.{pos}
use laundry_api.Errors.{of_billing, billing_already_resolved, domain}
use laundry_api.Store.InOrder.{in_order}
use laundry_api.Tx.{Returns, ok, err}
use laundry_api.Route.Db.{Env}
use laundry_api.Billing.Types.{
  BillingSource, SourceType, BillingDb, BillingRow, BillingStatus, BillingType,
}
use laundry_api.Billing.Supplement.{create_supplement_billing_request-twice}
use laundry_api.Billing.Repository.{
  create_supplement_billing_request, has_source, find_by_id, find_order_customer_id,
  create_payment_event, resolve_event, resolve_request, to_view, waiting_row,
}
use laundry_api.Billing.Resolve.{resolve_request-twice, resolved}
use laundry_api.Billing.Idempotent.{item_of}
use laundry_api.Billing.Claim.{IsClaimed, claim_waiting_for_ready_to_package-once}
use laundry_api.Billing.Access.{
  IsResolvable, pay_billing_request-IsResolvable, pay_billing_request-resolve_request,
}
use laundry_api.Billing.Service.{pay_billing_request, claim_waiting_for_ready_to_package}
use laundry_api.Tests.Tables.{IsUnique-count}

abbrev at_noon : Env
at_noon = record { new_id = 40; now = 1200 }

abbrev at_one : Env
at_one = record { new_id = 41; now = 1300 }

abbrev bill : BillingRow
bill = record {
  id = 30;
  order_id = 3;
  type = BillingType.base;
  status = BillingStatus.waiting;
  source = none;
  total_amount = pos 9000;
  created_at = 900;
  resolved_at = none;
  notified_at = none;
  items = item_of 7 (pos 9000);
}

abbrev billed : BillingDb
billed = record {
  orders = record { id = 3; customer_id = "c1" } ∷ [];
  billing_requests = bill ∷ [];
  payment_events = [];
}

-- The payment that the next example cancels too late.
resolve_request-waiting_run :
    resolve_request ⦃prisma = in_order⦄ at_noon 30 BillingStatus.paid "c1" billed
    ≡ ok (
      to_view (resolved at_noon BillingStatus.paid bill),
      create_payment_event
          (record {
            billing_request_id = 30;
            event_type = resolve_event BillingStatus.paid;
            actor_id = some "c1";
          })
          (record billed {
            billing_requests =
                update_where
                  (waiting_row 30)
                  (resolved at_noon BillingStatus.paid)
                  billed.billing_requests;
          }),
    )
unfolding resolve_request
resolve_request-waiting_run = refl

resolve_request-twice_example :
    resolve_request ⦃prisma = in_order⦄ at_one 30 BillingStatus.cancelled "c1" (
      create_payment_event
        (record {
          billing_request_id = 30;
          event_type = resolve_event BillingStatus.paid;
          actor_id = some "c1";
        })
        (record billed {
          billing_requests =
              update_where
                (waiting_row 30)
                (resolved at_noon BillingStatus.paid)
                billed.billing_requests;
        }))
    ≡ err (domain (of_billing (billing_already_resolved 30)))
resolve_request-twice_example =
    resolve_request-twice ⦃prisma = in_order⦄ billed at_noon at_one 30 BillingStatus.paid
      BillingStatus.cancelled "c1" "c1" refl resolve_request-waiting_run

claim_waiting_for_ready_to_package-once_example :
    Returns
      (λ p db'. IsClaimed ⦃prisma = in_order⦄ 3 db')
      (claim_waiting_for_ready_to_package ⦃prisma = in_order⦄ at_noon 3 billed)
claim_waiting_for_ready_to_package-once_example =
    claim_waiting_for_ready_to_package-once ⦃prisma = in_order⦄ at_noon 3 billed

bill-IsResolvable : IsResolvable ⦃prisma = in_order⦄ 30 "c1" billed
unfolding find_by_id find_order_customer_id
bill-IsResolvable = (to_view bill, refl, refl, refl)

paid_run :
    pay_billing_request ⦃prisma = in_order⦄ at_noon 30 "c1" billed
    ≡ ok (
      to_view (resolved at_noon BillingStatus.paid bill),
      create_payment_event
          (record {
            billing_request_id = 30;
            event_type = resolve_event BillingStatus.paid;
            actor_id = some "c1";
          })
          (record billed {
            billing_requests =
                update_where
                  (waiting_row 30)
                  (resolved at_noon BillingStatus.paid)
                  billed.billing_requests;
          }),
    )
paid_run =
    (pay_billing_request-resolve_request ⦃prisma = in_order⦄ at_noon 30 "c1" billed
      bill-IsResolvable).0
    ∙ resolve_request-waiting_run

pay_billing_request-IsResolvable_example : IsResolvable ⦃prisma = in_order⦄ 30 "c1" billed
pay_billing_request-IsResolvable_example =
    pay_billing_request-IsResolvable ⦃prisma = in_order⦄ at_noon 30 "c1" billed (inl paid_run)

abbrev approval : BillingSource
approval = record { type = SourceType.approval_request; id = 90 }

create_supplement_billing_request-twice_example :
    Returns
      (λ v db'.
        create_supplement_billing_request ⦃prisma = in_order⦄ at_one 3 (pos 500) approval db'
        ≡ ok (v, db'))
      (create_supplement_billing_request ⦃prisma = in_order⦄ at_noon 3 (pos 700) approval billed)
create_supplement_billing_request-twice_example =
    create_supplement_billing_request-twice ⦃prisma = in_order⦄ billed at_noon at_one approval 3 3
      (pos 700) (pos 500)
      (IsUnique-count (has_source approval) billed.billing_requests (omega arith))
