-- ===== src/Wash/Scans.antt =====
-- A scan step by step, and what it shows of the item.
use laundry_api.Base.{
  pair_eq, String, ◌≡◌, refl, sym, ap, ◌∙◌, subst, true, false, none, some, arith, Bool-cases,
  Option-cases, inl, inr,
}
use laundry_api.Orders.Types.{OrderItem}
use laundry_api.Route.Db.{Env}
use laundry_api.Route.Engine.Complete.{complete_current_step}
use laundry_api.Route.Types.{ActorContext}
use laundry_api.Route.Engine.Flag.{IsFlagged, complete_current_step-IsFlagged}
use laundry_api.Store.{Prisma}
use laundry_api.Tx.{Result-cases, ok}
use laundry_api.Wash.Types.{ScanStepResult, WashDb, in_route}
use laundry_api.Wash.Items.{
  claim_if_ready, complete_ready, find_tagged, is_pending_for, is_scannable, scan_found, scan_step,
  set_item_status, state_is_on, status_after_scan, with_item_status, write_item,
}
use laundry_api.Wash.Effects.{in_route-same, set_item_status-effect}
use laundry_api.Wash.Scanned.{
  ClaimedIfReady, HasRun, claim_if_ready-effect, complete_ready-IsFlagged, complete_ready-same,
}
use laundry_api.Wash.Views.{query_processing_state}

module _ ⦃prisma : Prisma⦄ where
  scan_found-effect :
      (env : Env) (barcode : String) (item : OrderItem) (actor : ActorContext) (db : WashDb)
      {r : ScanStepResult} {db' : WashDb}
      → find_tagged barcode db ≡ some item
      → is_scannable item.status ≡ true
      → state_is_on "WAIT_CUSTOMER_DECISION" (query_processing_state db.route item.id) ≡ false
      → prisma.find_first (is_pending_for item.id) db.route_change_requests ≡ none
      → scan_found db env item actor db ≡ ok (r, db')
      → HasRun env barcode actor db r db'
  unfolding scan_found
  scan_found-effect env barcode item actor db {r} {db'} there scannable waits pending e =
      elim (Result-cases (in_route (complete_current_step item.id actor) db)) [
        | inr (x, f) ↦ absurd (ground arith)
        | inl ((v, d1), f) ↦ elim (Result-cases (complete_ready item.id actor v d1)) [
          | inr (x, g) ↦ absurd (ground arith)
          | inl ((w, d2), g) ↦
              let status = status_after_scan w.is_plan_completed item.status in
              elim (Result-cases (set_item_status db item.id status d2)) [
                | inr (x, h) ↦ absurd (ground arith)
                | inl ((view, d3), h) ↦
                    elim (Result-cases (claim_if_ready env item.order_id status d3)) [
                      | inr (x, k) ↦ absurd (ground arith)
                      | inl ((p, d4), k) ↦
                          let (route1, m1, at1) =
                            in_route-same (complete_current_step item.id actor) db f in
                          let (route2, at2) = complete_ready-same item.id actor v d1 g in
                          let (at3, is) = set_item_status-effect db item.id status d2 h in
                          let (billing, at4, claim) =
                            claim_if_ready-effect env item.order_id status d3 k in
                          let first : IsFlagged item.id v.is_plan_completed d1.route =
                            subst (λ (z : WashDb). IsFlagged item.id v.is_plan_completed z.route)
                              (sym at1)
                              (complete_current_step-IsFlagged item.id actor db.route m1) in
                          let last : db' ≡ d4 = ground arith in
                          let result : r
                              ≡ record { item = view; processing_state = w; emit_payload = p } =
                            ground arith in
                          let write = write_item item.id (with_item_status status) in
                          let same3 : d3 ≡ record (write db) { route = route2 } =
                            at3
                            ∙ ap write
                                (at2 ∙ ap (λ (z : WashDb). record z { route = route2 }) at1) in
                          let same : db' ≡ record (write db) { route = route2; billing = billing } =
                            last
                            ∙ at4
                            ∙ ap (λ (z : WashDb). record z { billing = billing }) same3 in
                          subst
                            (λ (z : ScanStepResult × WashDb). HasRun env barcode actor db z.0 z.1)
                            (sym (pair_eq result same))
                            (record {
                              item = item;
                              there = there;
                              scannable = scannable;
                              not_waiting = waits;
                              not_pending = pending;
                              items = refl;
                              shown = is;
                              claimed =
                                  subst
                                    (λ (z : WashDb).
                                      ClaimedIfReady env item.order_id status z.billing p billing)
                                    same3 claim;
                              flagged =
                                  subst
                                    (λ (z : WashDb). IsFlagged item.id w.is_plan_completed z.route)
                                    at2 (complete_ready-IsFlagged item.id actor v d1 g first);
                            })
                    ]
              ]
        ]
      ]

  -- A scan that returns has passed its checks.
  pub scan_step-HasRun :
      (env : Env) (barcode : String) (actor : ActorContext) (db : WashDb) {r : ScanStepResult}
      {db' : WashDb}
      → scan_step env barcode actor db ≡ ok (r, db')
      → HasRun env barcode actor db r db'
  unfolding scan_step
  scan_step-HasRun env barcode actor db {r} {db'} e = elim (Option-cases (find_tagged barcode db)) [
    | inl f ↦ absurd (ground arith)
    | inr (item, f) ↦ elim (Bool-cases (is_scannable item.status)) [
      | inr g ↦ absurd (ground arith)
      | inl g ↦
          elim (Bool-cases
            (state_is_on "WAIT_CUSTOMER_DECISION" (query_processing_state db.route item.id))) [
              | inl h ↦ absurd (ground arith)
              | inr h ↦
                  elim (Option-cases
                    (prisma.find_first (is_pending_for item.id) db.route_change_requests)) [
                      | inr (p, k) ↦ absurd (ground arith)
                      | inl k ↦
                          scan_found-effect env barcode item actor db {r = r} f g h k (ground arith)
                    ]
            ]
    ]
  ]
