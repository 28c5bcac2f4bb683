-- ===== src/Billing/Service.antt =====
-- billing.service.ts and the use cases of the billing module.
use laundry_api.Base.{
  ℕ, zero, suc, String, Bool, true, not, Option, none, some, List, [], ◌∷◌, str_eq, if◌then◌else◌,
}
use laundry_api.Base.Int.{ℤ}
use laundry_api.Errors.{
  of_billing, billing_already_resolved, billing_request_forbidden, billing_request_not_found,
  domain,
}
use laundry_api.Store.{Prisma}
use laundry_api.Tx.{Tx, ◌>>=◌, ◌>>◌, pure, gets, require, throw_if}
use laundry_api.Billing.Types.{BillingDb, BillingRequestView, BillingStatus, SourceType}
use laundry_api.Billing.Repository.{
  claim_and_fetch_waiting, create_billing_request, create_supplement_billing_request, find_by_id,
  find_order_customer_id, is_waiting, resolve_request,
}
use laundry_api.Idempotency.{of_caller}
use laundry_api.Route.Db.{Env}

-- A `ReadyToPackageEmitPayload` that is not null.
pub record EmitPayload : Type 0 where
  pub customer_id : String
  pub all_waiting : List BillingRequestView

-- `!customerId`: the empty text counts as missing.
abbrev pub non_empty : Option String → Option String
non_empty none = none
non_empty (some customer) = if str_eq customer "" then none else some customer

abbrev payload_for : Option String → List BillingRequestView → ℕ → Option EmitPayload
payload_for none waiting claimed = none
payload_for (some customer) waiting zero = none
payload_for (some customer) [] (suc claimed) = none
payload_for (some customer) (w ∷ waiting) (suc claimed) =
    some (record { customer_id = customer; all_waiting = w ∷ waiting })

abbrev pub payload_of : Option String → List BillingRequestView → ℕ → Option EmitPayload
payload_of customer waiting claimed = payload_for (non_empty customer) waiting claimed

-- `ownerCustomerId !== input.customerId`.
abbrev pub not_owner : Option String → String → Bool
not_owner none customer = true
not_owner (some owner) customer = not (str_eq owner customer)

module _ ⦃prisma : Prisma⦄ where
  -- `onItemTagged`, which is called with the transaction of the tagging only.
  unfoldable pub on_item_tagged : Env → ℕ → ℕ → ℤ → Tx BillingDb (Unit {0})
  on_item_tagged env item order estimated = do
    create_billing_request of_caller env order
        (record { order_item_id = item; amount = estimated } ∷ [])
    pure tt

  -- `claimWaitingForReadyToPackage`.
  unfoldable pub claim_waiting_for_ready_to_package : Env → ℕ → Tx BillingDb (Option EmitPayload)
  claim_waiting_for_ready_to_package env order = do
    claim ← claim_and_fetch_waiting env order
    pure (payload_of claim.customer_id claim.all_waiting claim.just_claimed_count)

  -- `createSupplementBillingForApproval`.
  unfoldable pub create_supplement_billing_for_approval :
      Env → ℕ → ℕ → ℤ → Tx BillingDb BillingRequestView
  create_supplement_billing_for_approval env approval order total =
      create_supplement_billing_request env order total
        (record { type = SourceType.approval_request; id = approval })

  -- `createSupplementBillingForRouteChange`.
  unfoldable pub create_supplement_billing_for_route_change :
      Env → ℕ → ℕ → ℤ → Tx BillingDb BillingRequestView
  create_supplement_billing_for_route_change env request order total =
      create_supplement_billing_request env order total
        (record { type = SourceType.route_change_request; id = request })

  -- `GetBillingRequestUseCase.execute`, and the first half of the next two.
  unfoldable pub get_billing_request : ℕ → String → Tx BillingDb BillingRequestView
  get_billing_request id customer = do
    billing ←
        require (← gets (λ db. find_by_id db id))
          (domain (of_billing (billing_request_not_found id)))
    owner ← gets (λ db. find_order_customer_id db billing.order_id)
    throw_if (not_owner owner customer) (domain (of_billing billing_request_forbidden))
    pure billing

  -- What `PayBillingRequestUseCase` and `CancelBillingRequestUseCase` check before they resolve.
  unfoldable pub check_resolvable : ℕ → String → Tx BillingDb BillingRequestView
  unfolding get_billing_request
  check_resolvable id customer = do
    billing ← get_billing_request id customer
    throw_if (not (is_waiting billing.status)) (domain (of_billing (billing_already_resolved id)))
    pure billing

  -- `PayBillingRequestUseCase.execute`.
  unfoldable pub pay_billing_request : Env → ℕ → String → Tx BillingDb BillingRequestView
  pay_billing_request env id customer = do
    check_resolvable id customer
    resolve_request env id BillingStatus.paid customer

  -- `CancelBillingRequestUseCase.execute`.
  unfoldable pub cancel_billing_request : Env → ℕ → String → Tx BillingDb BillingRequestView
  cancel_billing_request env id customer = do
    check_resolvable id customer
    resolve_request env id BillingStatus.cancelled customer
