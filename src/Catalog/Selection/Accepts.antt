-- ===== src/Catalog/Selection/Accepts.antt =====
-- What it means that a selection of options is accepted.
use laundry_api.Base.{
  ◌≤◌, ◌<◌, ◌≡◌, sym, ◌∙◌, ap, String, true, some, List, [], ◌∷◌, Memᴰ, arith, str_eq, eq_iff,
  length, inl, inr, Bool-cases, Option-cases,
}
use laundry_api.Catalog.Types.{
  CatalogItemDetail, CatalogOptionGroup, CatalogOptions, EstimateSelectedOption, OptionInfo,
  more_options, no_options, option,
}
use laundry_api.Catalog.Selection.{
  CalculatedSelectedOption, calculated, find_option_by_code, group_selections, is_single,
}

-- The option that the search finds has the code.
pub find_option_by_code-code :
    (options : CatalogOptions) (code : String) {o : OptionInfo}
    → find_option_by_code options code ≡ some o
    → o.code ≡ code
unfolding find_option_by_code
find_option_by_code-code no_options code e = cc
find_option_by_code-code (more_options (option info children) rest) code {o} e =
    elim (Bool-cases (str_eq info.code code)) [
      | inl hit ↦
          let same : info ≡ o = ground arith in
          sym (ap (λ x. x.code) same) ∙ (eq_iff info.code code).0 hit
      | inr miss ↦ elim (Option-cases (find_option_by_code children code)) [
        | inl none_here ↦ find_option_by_code-code rest code {o = o} (ground arith)
        | inr (x, f) ↦ find_option_by_code-code children code {o = o} (ground arith)
      ]
    ]

-- The selections of a group: some if it is required, at most one if it is single-select.
abbrev pub IsSatisfied : List EstimateSelectedOption → CatalogOptionGroup → Type 0
IsSatisfied selected group =
    (group.required ≡ true → 0 < length (group_selections group.code selected))
    × (is_single group.selection_type ≡ true → length (group_selections group.code selected) ≤ 1)

-- The result of one selection: its group and its option are the item's, and its price is the
-- option's first one, or none, for the selected quantity.
abbrev pub IsCalculated :
    CatalogItemDetail → EstimateSelectedOption → CalculatedSelectedOption → Type 0
IsCalculated item s c =
    (g : CatalogOptionGroup) × (o : OptionInfo) × Memᴰ g item.option_groups
    × (g.code ≡ s.group_code)
    × (find_option_by_code g.options s.option_code ≡ some o)
    × (o.code ≡ s.option_code)
    × (c ≡ calculated g o s)

-- One result for each selection, in the order of the selections.
abbrev pub AreCalculated :
    CatalogItemDetail → List EstimateSelectedOption → List CalculatedSelectedOption → Type 0
AreCalculated item [] [] = Unit
AreCalculated item [] (c ∷ cs) = ⊥
AreCalculated item (s ∷ selected) [] = ⊥
AreCalculated item (s ∷ selected) (c ∷ cs) = IsCalculated item s c × AreCalculated item selected cs
