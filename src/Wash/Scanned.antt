-- ===== src/Wash/Scanned.antt =====
-- What an assignment of a route and a scan that return have found and written.
use laundry_api.Base.{
  ℕ, String, ◌≡◌, refl, sym, ap, ◌∙◌, subst, true, false, not, Option, none, some, arith,
  Bool-cases, Option-cases, inl, inr, ◌⊎◌, ◌==◌, ◌&&◌, update_where,
}
use laundry_api.Billing.Service.{EmitPayload, claim_waiting_for_ready_to_package}
use laundry_api.Billing.Types.{BillingDb}
use laundry_api.Orders.Types.{OrderItem, OrderItemStatus, same_item_status, same_item_status→eq}
use laundry_api.Route.Db.{Db, Env}
use laundry_api.Route.Engine.Complete.{complete_current_step}
use laundry_api.Route.Engine.Flag.{IsFlagged, complete_current_step-IsFlagged}
use laundry_api.Route.Engine.Plans.{create_plan}
use laundry_api.Route.Types.{ActorContext, CurrentStateView}
use laundry_api.Store.{Prisma}
use laundry_api.Tx.{Result-cases, ok}
use laundry_api.Wash.Types.{AssignRouteResult, ScanStepResult, WashDb, in_route}
use laundry_api.Wash.Items.{
  assign_found, assign_route, claim_if_ready, complete_ready, find_tagged, is_on, is_pending_for,
  is_scannable, set_item_status, state_is_on, status_after_scan, with_item_status, write_item,
}
use laundry_api.Wash.Effects.{in_billing-same, in_route-same, set_item_status-effect}
use laundry_api.Wash.Views.{query_processing_state}

module _ ⦃prisma : Prisma⦄ where
  pub record HasAssigned (env : Env) (barcode code : String) (actor : ActorContext)
      (db db' : WashDb) : Type 0 where
    pub item : OrderItem
    pub there : find_tagged barcode db ≡ some item
    pub tagged : item.status ≡ OrderItemStatus.tagged
    pub view : CurrentStateView
    pub planned : create_plan env item.id code actor none db.route ≡ ok (view, db'.route)
    pub items :
        db'.order_items
        ≡ update_where
            (λ i. i.id == item.id)
            (with_item_status OrderItemStatus.sorted)
            db.order_items
    pub same_billing : db'.billing ≡ db.billing

  assign_found-effect :
      (committed : WashDb) (env : Env) (item : OrderItem) (barcode code : String)
      (actor : ActorContext) (db : WashDb) {r : AssignRouteResult} {db' : WashDb}
      → find_tagged barcode db ≡ some item
      → item.status ≡ OrderItemStatus.tagged
      → assign_found committed env item code actor db ≡ ok (r, db')
      → HasAssigned env barcode code actor db db'
  unfolding assign_found
  assign_found-effect committed env item barcode code actor db {r} {db'} there is_tagged e =
      let plan = create_plan env item.id code actor none in
      elim (Result-cases (in_route plan db)) [
        | inr (x, f) ↦ absurd (ground arith)
        | inl ((view, d1), f) ↦
            elim (Result-cases (set_item_status committed item.id OrderItemStatus.sorted d1)) [
              | inr (x, g) ↦ absurd (ground arith)
              | inl ((w, d2), g) ↦
                  let (route, planned, at1) = in_route-same plan db f in
                  let at2 =
                    (set_item_status-effect committed item.id OrderItemStatus.sorted d1 g).0 in
                  let last : db' ≡ d2 = ground arith in
                  subst (HasAssigned env barcode code actor db)
                    (sym (
                      last
                      ∙ at2
                      ∙ ap (write_item item.id (with_item_status OrderItemStatus.sorted)) at1))
                    (record {
                      item = item;
                      there = there;
                      tagged = is_tagged;
                      view = view;
                      planned = planned;
                      items = refl;
                      same_billing = refl;
                    })
            ]
      ]

  pub assign_route-effect :
      (env : Env) (barcode code : String) (actor : ActorContext) (db : WashDb)
      {r : AssignRouteResult} {db' : WashDb}
      → assign_route env barcode code actor db ≡ ok (r, db')
      → HasAssigned env barcode code actor db db'
  unfolding assign_route
  assign_route-effect env barcode code actor db {r} {db'} e =
      elim (Option-cases (find_tagged barcode db)) [
        | inl f ↦ absurd (ground arith)
        | inr (item, f) ↦ elim (Bool-cases (same_item_status item.status OrderItemStatus.tagged)) [
          | inr g ↦ absurd (ground arith)
          | inl g ↦
              assign_found-effect db env item barcode code actor db {r = r} f
                (same_item_status→eq item.status OrderItemStatus.tagged g) (ground arith)
        ]
      ]

  -- The billing tables after a scan: with the claim when the item is ready.
  abbrev pub ClaimedIfReady :
      Env → ℕ → OrderItemStatus → BillingDb → Option EmitPayload → BillingDb → Type 0
  ClaimedIfReady env order status before payload after =
      ((same_item_status status OrderItemStatus.ready_to_package ≡ true)
        × (claim_waiting_for_ready_to_package env order before ≡ ok (payload, after)))
      ⊎ ((same_item_status status OrderItemStatus.ready_to_package ≡ false)
          × (payload ≡ none)
          × (after ≡ before))

  -- What a scan has found and written, in the terms of its parts.
  pub record HasRun (env : Env) (barcode : String) (actor : ActorContext) (db : WashDb)
      (r : ScanStepResult) (db' : WashDb) : Type 0 where
    pub item : OrderItem
    pub there : find_tagged barcode db ≡ some item
    pub scannable : is_scannable item.status ≡ true
    pub not_waiting :
        state_is_on "WAIT_CUSTOMER_DECISION" (query_processing_state db.route item.id) ≡ false
    pub not_pending : prisma.find_first (is_pending_for item.id) db.route_change_requests ≡ none
    pub items :
        db'.order_items
        ≡ update_where
            (λ i. i.id == item.id)
            (with_item_status (status_after_scan r.processing_state.is_plan_completed item.status))
            db.order_items
    pub shown : r.item.status ≡ status_after_scan r.processing_state.is_plan_completed item.status
    pub claimed :
        ClaimedIfReady env item.order_id
          (status_after_scan r.processing_state.is_plan_completed item.status)
          db.billing
          r.emit_payload
          db'.billing
    pub flagged : IsFlagged item.id r.processing_state.is_plan_completed db'.route

  pub complete_ready-same :
      (item : ℕ) (actor : ActorContext) (v : CurrentStateView) (db : WashDb) {w : CurrentStateView}
      {db' : WashDb}
      → complete_ready item actor v db ≡ ok (w, db')
      → (route : Db) × (db' ≡ record db { route = route })
  unfolding complete_ready
  complete_ready-same item actor v db {w} {db'} e =
      elim (Bool-cases (not v.is_plan_completed && is_on "READY_TO_PACKAGE" v.current_step)) [
        | inr f ↦ (db.route, ground arith)
        | inl f ↦
            let (route, m, at) =
              in_route-same (complete_current_step item actor) db {a = w} {db' = db'}
                (ground arith) in
            (route, at)
      ]

  -- The flag of the answer stays that of the state row.
  pub complete_ready-IsFlagged :
      (item : ℕ) (actor : ActorContext) (v : CurrentStateView) (db : WashDb) {w : CurrentStateView}
      {db' : WashDb}
      → complete_ready item actor v db ≡ ok (w, db')
      → IsFlagged item v.is_plan_completed db.route
      → IsFlagged item w.is_plan_completed db'.route
  unfolding complete_ready
  complete_ready-IsFlagged item actor v db {w} {db'} e flagged =
      elim (Bool-cases (not v.is_plan_completed && is_on "READY_TO_PACKAGE" v.current_step)) [
        | inr f ↦
            let same : w ≡ v = ground arith in
            let at : db' ≡ db = ground arith in
            subst (λ (z : CurrentStateView). IsFlagged item z.is_plan_completed db'.route)
              (sym same)
              (subst (λ (z : WashDb). IsFlagged item v.is_plan_completed z.route) (sym at) flagged)
        | inl f ↦
            let (route, m, at) =
              in_route-same (complete_current_step item actor) db {a = w} {db' = db'}
                (ground arith) in
            subst (λ (z : WashDb). IsFlagged item w.is_plan_completed z.route) (sym at)
              (complete_current_step-IsFlagged item actor db.route m)
      ]

  pub claim_if_ready-effect :
      (env : Env) (order : ℕ) (status : OrderItemStatus) (db : WashDb) {p : Option EmitPayload}
      {db' : WashDb}
      → claim_if_ready env order status db ≡ ok (p, db')
      → (billing : BillingDb) × (db' ≡ record db { billing = billing })
        × ClaimedIfReady env order status db.billing p billing
  unfolding claim_if_ready
  claim_if_ready-effect env order status db {p} {db'} e =
      elim (Bool-cases (same_item_status status OrderItemStatus.ready_to_package)) [
        | inr f ↦ (db.billing, ground arith, inr (f, ground arith, refl))
        | inl f ↦
            let (billing, m, at) =
              in_billing-same (claim_waiting_for_ready_to_package env order) db {a = p} {db' = db'}
                (ground arith) in
            (billing, at, inl (f, m))
      ]
