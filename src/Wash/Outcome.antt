-- ===== src/Wash/Outcome.antt =====
-- What a scan comes to.
use laundry_api.Base.{
  String, ◌≡◌, refl, sym, ap, ◌∙◌, subst, true, false, none, some, ◌⊎◌, ◌==◌, Bool-cases, inl, inr,
  update_where,
}
use laundry_api.Billing.Service.{claim_waiting_for_ready_to_package}
use laundry_api.Orders.Types.{OrderItem, OrderItemStatus, same_item_status}
use laundry_api.Route.Db.{Env}
use laundry_api.Route.Engine.Flag.{IsFlagged}
use laundry_api.Route.Types.{ActorContext}
use laundry_api.Store.{Prisma}
use laundry_api.Tx.{ok}
use laundry_api.Wash.Items.{
  find_tagged, is_pending_for, is_scannable, scan_step, state_is_on, status_after_scan,
}
use laundry_api.Wash.Scanned.{HasRun}
use laundry_api.Wash.Scans.{scan_step-HasRun}
use laundry_api.Wash.Types.{ScanStepResult, WashDb}
use laundry_api.Wash.Views.{query_processing_state}

-- The item has the status, in its row and in the result, and no other row is changed.
abbrev pub HasStatus : OrderItem → OrderItemStatus → WashDb → ScanStepResult → WashDb → Type 0
HasStatus item status db r db' =
    (db'.order_items
      ≡ update_where (λ i. i.id == item.id) (λ i. record i { status = status }) db.order_items)
    × (r.item.status ≡ status)

-- The item is SORTED or PROCESSING.
abbrev pub IsOnRoute : OrderItem → Type 0
IsOnRoute item = (item.status ≡ OrderItemStatus.sorted) ⊎ (item.status ≡ OrderItemStatus.processing)

scannable-on_route :
    (s : OrderItemStatus)
    → is_scannable s ≡ true
    → (s ≡ OrderItemStatus.sorted) ⊎ (s ≡ OrderItemStatus.processing)
scannable-on_route OrderItemStatus.sorted e = inl refl
scannable-on_route OrderItemStatus.processing e = inr refl
scannable-on_route OrderItemStatus.init e = cc
scannable-on_route OrderItemStatus.pick_up e = cc
scannable-on_route OrderItemStatus.tagged e = cc
scannable-on_route OrderItemStatus.ready_to_package e = cc
scannable-on_route OrderItemStatus.ready_for_delivery e = cc
scannable-on_route OrderItemStatus.delivering e = cc
scannable-on_route OrderItemStatus.finished e = cc

still_processing :
    (s : OrderItemStatus)
    → is_scannable s ≡ true
    → status_after_scan false s ≡ OrderItemStatus.processing
still_processing s e = elim (scannable-on_route s e) [ inl f ↦ rw f refl | inr f ↦ rw f refl ]

module _ ⦃prisma : Prisma⦄ (env : Env) (barcode : String) (actor : ActorContext) (db : WashDb) where
  -- The item's state row is COMPLETED, and the requests of its order are claimed.
  abbrev pub EndsRoute : OrderItem → ScanStepResult → WashDb → Type 0
  EndsRoute item r db' =
      IsFlagged item.id true db'.route
      × (r.processing_state.is_plan_completed ≡ true)
      × HasStatus item OrderItemStatus.ready_to_package db r db'
      × (claim_waiting_for_ready_to_package env item.order_id db.billing
          ≡ ok (r.emit_payload, db'.billing))

  -- The item's state row is not COMPLETED, and no request is claimed.
  abbrev pub StaysOnRoute : OrderItem → ScanStepResult → WashDb → Type 0
  StaysOnRoute item r db' =
      IsFlagged item.id false db'.route
      × (r.processing_state.is_plan_completed ≡ false)
      × HasStatus item OrderItemStatus.processing db r db'
      × (r.emit_payload ≡ none)
      × (db'.billing ≡ db.billing)

  pub record HasScanned (r : ScanStepResult) (db' : WashDb) : Type 0 where
    pub item : OrderItem
    pub there : find_tagged barcode db ≡ some item
    pub on_route : IsOnRoute item
    pub not_waiting :
        state_is_on "WAIT_CUSTOMER_DECISION" (query_processing_state db.route item.id) ≡ false
    pub not_pending : prisma.find_first (is_pending_for item.id) db.route_change_requests ≡ none
    pub outcome : EndsRoute item r db' ⊎ StaysOnRoute item r db'

  module _ (r : ScanStepResult) (db' : WashDb) (h : HasRun env barcode actor db r db') where
    -- The flag of the answer decides the status.
    status-at :
        (status : OrderItemStatus)
        → status_after_scan r.processing_state.is_plan_completed h.item.status ≡ status
        → HasStatus h.item status db r db'
    status-at status c = (
      h.items
          ∙ ap
              (λ s.
                update_where (λ i. i.id == h.item.id) (λ i. record i { status = s }) db.order_items)
              c,
      h.shown ∙ c,
    )

    ends_route : r.processing_state.is_plan_completed ≡ true → EndsRoute h.item r db'
    ends_route e =
        let c : status_after_scan r.processing_state.is_plan_completed h.item.status
            ≡ OrderItemStatus.ready_to_package =
          ap (λ b. status_after_scan b h.item.status) e in
        (
          subst (λ b. IsFlagged h.item.id b db'.route) e h.flagged,
          e,
          status-at OrderItemStatus.ready_to_package c,
          elim h.claimed [
            | inl (t, claim) ↦ claim
            | inr (f, _, _) ↦
                let clash : true ≡ false =
                  sym (ap (λ s. same_item_status s OrderItemStatus.ready_to_package) c) ∙ f in
                absurd (cc clash)
          ],
        )

    stays_on_route : r.processing_state.is_plan_completed ≡ false → StaysOnRoute h.item r db'
    stays_on_route e =
        let c : status_after_scan r.processing_state.is_plan_completed h.item.status
            ≡ OrderItemStatus.processing =
          ap (λ b. status_after_scan b h.item.status) e
          ∙ still_processing h.item.status h.scannable in
        let (quiet, same) : (r.emit_payload ≡ none) × (db'.billing ≡ db.billing) = elim h.claimed [
          | inr (f, quiet, same) ↦ (quiet, same)
          | inl (t, claim) ↦
              let clash : true ≡ false =
                sym t ∙ ap (λ s. same_item_status s OrderItemStatus.ready_to_package) c in
              absurd (cc clash)
        ] in
        (
          subst (λ b. IsFlagged h.item.id b db'.route) e h.flagged,
          e,
          status-at OrderItemStatus.processing c,
          quiet,
          same,
        )

    outcome_of : EndsRoute h.item r db' ⊎ StaysOnRoute h.item r db'
    outcome_of = elim (Bool-cases r.processing_state.is_plan_completed) [
      | inl e ↦ inl (ends_route e)
      | inr e ↦ inr (stays_on_route e)
    ]

  -- A scan that returns was of a tagged item that is SORTED or PROCESSING, that waits for no decision
  -- of the customer and has no pending route change. Either the answer says that the plan is
  -- completed, the item's state row is COMPLETED, the item is READY_TO_PACKAGE and the claim of the
  -- requests of its order has run; or the answer says that it is not, the state row is not COMPLETED,
  -- the item is PROCESSING and the billing tables are as before. No other item's row is changed.
  pub scan_step-HasScanned :
      {r : ScanStepResult} {db' : WashDb}
      → scan_step env barcode actor db ≡ ok (r, db')
      → HasScanned r db'
  scan_step-HasScanned {r} {db'} e =
      let h = scan_step-HasRun env barcode actor db e in
      record {
        item = h.item;
        there = h.there;
        on_route = scannable-on_route h.item.status h.scannable;
        not_waiting = h.not_waiting;
        not_pending = h.not_pending;
        outcome = outcome_of r db' h;
      }
