-- ===== src/Exception/Approval/Spares.antt =====
-- After its claim, an answer leaves the approval requests as they are.
use laundry_api.Base.{
  ℕ, String, ◌≡◌, refl, ◌∙◌, Option, none, some, ◌||◌, inl, inr, Bool-cases, str_eq,
}
use laundry_api.Base.Int.{ℤ}
use laundry_api.Route.Db.{Env}
use laundry_api.Route.Types.{CurrentStateView}
use laundry_api.Store.{Prisma}
use laundry_api.Tx.{Result, Tx, err, ok}
use laundry_api.Wash.Types.{WashDb, in_billing, in_route}
use laundry_api.Wash.Items.{update_item, with_item_status}
use laundry_api.Orders.Types.{OrderItemStatus}
use laundry_api.Billing.Service.{create_supplement_billing_for_approval}
use laundry_api.Route.Engine.Complete.{complete_current_step}
use laundry_api.Route.Engine.Overrides.{skip_remaining_overrides}
use laundry_api.Exception.Approval.{
  Commits, ExceptionDb, FoundApproval, approve_step, approves, bill_extra, carry_out, commit,
  followed_by, do_nothing, by_customer, is_zero, proceed, release_item, resolve_context, settle,
  skip_flow, skips,
}

-- A call that leaves the approval requests as they are, whether it returns or throws.
abbrev pub Spares : {A : Type 0} → Commits A → Type 0
Spares m = (db : ExceptionDb) → (m db).1.approval_requests ≡ db.approval_requests

settle-same :
    {A : Type 0} (db : ExceptionDb) (r : Result (A × WashDb))
    → (settle db r).1.approval_requests ≡ db.approval_requests
settle-same db (ok (a, wash)) = refl
settle-same db (err e) = refl

pub proceed-Spares :
    {A B : Type 0} (f : A → Commits B)
    → ((a : A) → Spares (f a))
    → (r : Result A) → Spares (proceed f r)
proceed-Spares f h (ok a) db = h a db
proceed-Spares f h (err e) db = refl

-- A transaction of its own, and what follows it.
commit-Spares :
    {A B : Type 0} (m : Tx WashDb A) (f : A → Commits B)
    → ((a : A) → Spares (f a))
    → Spares (followed_by (commit m) f)
commit-Spares m f rest db =
    proceed-Spares f rest (commit m db).0 (commit m db).1 ∙ settle-same db (m db.wash)

followed_by-Spares :
    {A B : Type 0} (m : Commits A) (f : A → Commits B)
    → Spares m
    → ((a : A) → Spares (f a))
    → Spares (followed_by m f)
followed_by-Spares m f first rest db = proceed-Spares f rest (m db).0 (m db).1 ∙ first db

module _ ⦃prisma : Prisma⦄ where
  release_item-Spares : (item : ℕ) (v : CurrentStateView) → Spares (release_item item v)
  unfolding release_item
  release_item-Spares item v db = elim (Bool-cases v.is_plan_completed) [
    | inl e ↦ rw e (
        commit-Spares (update_item item (with_item_status OrderItemStatus.ready_for_delivery))
          (λ row. do_nothing) (λ row db. refl) db)
    | inr e ↦ rw e refl
  ]

  bill_extra-Spares :
      (env : Env) (approval order : ℕ) (extra : Option ℤ)
      → Spares (bill_extra env approval order extra)
  unfolding bill_extra
  bill_extra-Spares env approval order none db = refl
  bill_extra-Spares env approval order (some amount) db = elim (Bool-cases (is_zero amount)) [
    | inl e ↦ rw e refl
    | inr e ↦ rw e (
        commit-Spares
          (in_billing (create_supplement_billing_for_approval env approval order amount))
          (λ view. do_nothing) (λ view db. refl) db)
  ]

  module _ (env : Env) (f : FoundApproval) (customer : String) where
    approve_step-Spares : (extra : Option ℤ) → Spares (approve_step env f customer extra)
    unfolding approve_step
    approve_step-Spares extra =
        commit-Spares
          (in_route (complete_current_step f.approval.order_item_id (by_customer customer)))
          (λ v.
            followed_by (release_item f.approval.order_item_id v)
              λ u. bill_extra env f.approval.id f.order_id extra)
          λ v.
            followed_by-Spares (release_item f.approval.order_item_id v)
              (λ u. bill_extra env f.approval.id f.order_id extra)
              (release_item-Spares f.approval.order_item_id v)
              (λ u. bill_extra-Spares env f.approval.id f.order_id extra)

    skip_flow-Spares : Spares (skip_flow env f customer)
    unfolding skip_flow resolve_context
    skip_flow-Spares =
        commit-Spares
          (in_route (skip_remaining_overrides f.approval.order_item_id (by_customer customer)))
          (λ v.
            followed_by (release_item f.approval.order_item_id v)
              λ u. resolve_context env f.approval.order_item_id)
          λ v.
            followed_by-Spares (release_item f.approval.order_item_id v)
              (λ u. resolve_context env f.approval.order_item_id)
              (release_item-Spares f.approval.order_item_id v) (λ u db. refl)

    pub carry_out-Spares :
        (d : String) (extra : Option ℤ) → Spares (carry_out env f d extra customer)
    unfolding carry_out
    carry_out-Spares d extra db = elim (Bool-cases (approves d)) [
      | inl e ↦ rw e (approve_step-Spares extra db)
      | inr e ↦ elim (Bool-cases (skips d || str_eq d "RETURN_WITHOUT_PROCESSING")) [
        | inl g ↦ rw (e, g) (skip_flow-Spares db)
        | inr g ↦ rw (e, g) refl
      ]
    ]
