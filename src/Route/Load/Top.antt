-- ===== src/Route/Load/Top.antt =====
-- The newest active override of an item, when no other is as new.
use laundry_api.Base.{
  ℕ, ◌<◌, ◌≡◌, ap, ◌∙◌, true, false, some, List, [], ◌∷◌, ◌++◌, Memᴰ, arith, ◌⊎◌, inl, inr,
  Option-cases,
}
use laundry_api.Store.{Prisma}
use laundry_api.Store.Laws.{mem-append_cases, mem-append_left}
use laundry_api.Route.Db.{OverrideTableRow, active_override_of}

-- The override `o` is the newest active one of the item, and no other is as new.
abbrev pub IsTop : ℕ → OverrideTableRow → List OverrideTableRow → Type 0
IsTop item o rows =
    Memᴰ o rows
    × (active_override_of item o ≡ true)
    × ((r : OverrideTableRow)
        → Memᴰ r rows
        → active_override_of item r ≡ true
        → (r ≡ o) ⊎ (r.created_at < o.created_at))

pub IsTop-append :
    (item : ℕ) (o : OverrideTableRow) (rows : List OverrideTableRow) (row : OverrideTableRow)
    → active_override_of item row ≡ false
    → IsTop item o rows
    → IsTop item o (rows ++ row ∷ [])
IsTop-append item o rows row idle (m, active, above) = (
  mem-append_left rows (row ∷ []) m,
  active,
  λ r n t. over r (mem-append_cases rows (row ∷ []) n) t,
)
  where
    over :
        (r : OverrideTableRow)
        → Memᴰ r rows ⊎ Memᴰ r (row ∷ [])
        → active_override_of item r ≡ true
        → (r ≡ o) ⊎ (r.created_at < o.created_at)
    over r (inl old) t = above r old t
    over r (inr (Memᴰ.head e)) t = absurd cc
    over r (inr (Memᴰ.tail n)) t = elim n [ ]

module _ ⦃prisma : Prisma⦄ where
  pub newest-IsTop :
      (item : ℕ) (o : OverrideTableRow) (rows : List OverrideTableRow)
      → IsTop item o rows
      → prisma.find_first_desc (λ r. r.created_at) (active_override_of item) rows ≡ some o
  newest-IsTop item o rows (m, active, above) =
      elim (Option-cases
        (prisma.find_first_desc (λ r. r.created_at) (active_override_of item) rows)) [
          | inl e ↦ absurd (
              cc (
                prisma.find_first_desc_none (λ r. r.created_at) (active_override_of item) rows e m))
          | inr (r, e) ↦
              elim (above r
                (prisma.find_first_desc_mem (λ r. r.created_at) (active_override_of item) rows e)
                (prisma.find_first_desc_test (λ r. r.created_at) (active_override_of item) rows
                  e)) [
                    | inl same ↦ e ∙ ap some same
                    | inr less ↦
                        let most =
                          prisma.find_first_desc_greatest (λ r. r.created_at)
                            (active_override_of item) rows o e m active in
                        absurd (omega (arith, less, most))
                  ]
        ]
