-- ===== src/Wash/Bills.antt =====
-- A tag bills its item, and a claim keeps every bill.
use laundry_api.Base.{
  ℕ, ◌≡◌, refl, sym, ◌∙◌, subst, true, Option, List, [], ◌∷◌, ◌++◌, Memᴰ, arith, Bool-cases,
  Option-cases, inl, inr, ◌==◌, ==_refl, if◌then◌else◌,
}
use laundry_api.Base.Int.{ℤ}
use laundry_api.Billing.Types.{BillingDb, BillingItem, BillingRow}
use laundry_api.Billing.Repository.{
  base_row, bills, clashes, create_billing_request, find_billing_of, insert_base, unnotified_of,
}
use laundry_api.Billing.Claim.{claim-missing, claim-owner, claimed, notified}
use laundry_api.Billing.Service.{EmitPayload, claim_waiting_for_ready_to_package, on_item_tagged}
use laundry_api.Route.Db.{Env}
use laundry_api.Store.{Prisma}
use laundry_api.Store.Laws.{mem-append_left, mem-append_right, update_where-mem}
use laundry_api.Tx.{Result, ok}

-- A billing request has a billing item for the order item.
abbrev pub IsBilled : ℕ → BillingDb → Type 0
IsBilled item db = (b : BillingRow) × Memᴰ b db.billing_requests × (bills item b ≡ true)

-- Every item that is billed stays billed.
abbrev pub KeepsBills : BillingDb → BillingDb → Type 0
KeepsBills before after = (item : ℕ) → IsBilled item before → IsBilled item after

-- The billing item of a tag.
abbrev pub one_item : ℕ → ℤ → List BillingItem
one_item item amount = record { order_item_id = item; amount = amount } ∷ []

abbrev pub with_row : BillingDb → BillingRow → BillingDb
with_row db row = record db { billing_requests = db.billing_requests ++ row ∷ [] }

base_row-bills :
    (env : Env) (order item : ℕ) (amount : ℤ)
    → bills item (base_row env order (one_item item amount)) ≡ true
base_row-bills env order item amount = ground (arith, ==_refl item)

module _ ⦃prisma : Prisma⦄ where
  pub on_item_tagged-IsBilled :
      (env : Env) (item order : ℕ) (amount : ℤ) (db : BillingDb) {db' : BillingDb}
      → on_item_tagged env item order amount db ≡ ok (tt, db')
      → IsBilled item db' × KeepsBills db db'
  unfolding on_item_tagged create_billing_request insert_base find_billing_of
  on_item_tagged-IsBilled env item order amount db {db'} e =
      let row = base_row env order (one_item item amount) in
      elim (Bool-cases (clashes db.billing_requests (one_item item amount))) [
        | inr free ↦
            let rows : db'.billing_requests ≡ db.billing_requests ++ row ∷ [] = ground arith in
            (
              (
                row,
                subst (Memᴰ row) (sym rows)
                    (mem-append_right db.billing_requests (row ∷ []) (Memᴰ.head refl)),
                base_row-bills env order item amount,
              ),
              λ other (b, m, t). (
                b,
                subst (Memᴰ b) (sym rows) (mem-append_left db.billing_requests (row ∷ []) m),
                t,
              ),
            )
        | inl taken ↦ absurd (ground arith)
      ]

  claimed-KeepsBills :
      (env : Env) (order : ℕ) (db : BillingDb) → KeepsBills db (claimed env order db)
  claimed-KeepsBills env order db item (b, m, t) =
      let there = update_where-mem (unnotified_of order) (notified env) db.billing_requests m in
      elim (Bool-cases (unnotified_of order b)) [
        | inl e ↦ (
          notified env b,
          subst
              (λ x. Memᴰ (if x then notified env b else b) (claimed env order db).billing_requests)
              e there,
          t,
        )
        | inr e ↦ (
          b,
          subst
              (λ x. Memᴰ (if x then notified env b else b) (claimed env order db).billing_requests)
              e there,
          t,
        )
      ]

  pub claim-KeepsBills :
      (env : Env) (order : ℕ) (db : BillingDb) {p : Option EmitPayload} {db' : BillingDb}
      → claim_waiting_for_ready_to_package env order db ≡ ok (p, db')
      → KeepsBills db db'
  claim-KeepsBills env order db {p} {db'} e =
      elim (Option-cases (prisma.find_first (λ o. o.id == order) db.orders)) [
        | inl f ↦
            let same : db ≡ db' = ok_state (sym (claim-missing env order db f) ∙ e) in
            subst (KeepsBills db) same (λ item billed. billed)
        | inr (o, f) ↦
            let same : claimed env order db ≡ db' =
              ok_state (sym (claim-owner env order db f) ∙ e) in
            subst (KeepsBills db) same (claimed-KeepsBills env order db)
      ]
    where
      ok_state :
          {q r : Option EmitPayload} {a b : BillingDb}
          → ◌≡◌ {A = Result (Option EmitPayload × BillingDb)} (ok (q, a)) (ok (r, b))
          → a ≡ b
      ok_state e = ground arith
