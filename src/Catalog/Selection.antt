-- ===== src/Catalog/Selection.antt =====
-- prisma-catalog.repository.ts: `calculateSelectedOptions`.
pub mod Accepts
use Prim.Native.String.{◌++◌ as concat}
use laundry_api.Base.{
  ℕ, String, Bool, true, false, Option, none, some, List, [], ◌∷◌, ◌==◌, ◌&&◌, str_eq,
  if◌then◌else◌, ltb, filter_by, find?, first?, length,
}
use laundry_api.Errors.{Thrown, http, message_body}
use laundry_api.Tx.{Result, ok, err}
use laundry_api.Catalog.Types.{
  Amounts, CatalogItemDetail, CatalogOption, CatalogOptionGroup, CatalogOptions, CatalogPrice,
  EstimateSelectedOption, OptionInfo, PriceType, SelectionType, more_options, no_options, none_type,
  option,
}
use laundry_api.Catalog.Pricing.{calculate_price}

-- `CalculatedSelectedOption`.
pub record CalculatedSelectedOption : Type 0 where
  pub catalog_option_group_id : ℕ
  pub catalog_option_id : ℕ
  pub group_code : String
  pub option_code : String
  pub display_name : String
  pub price_type : PriceType
  pub estimated_min_amount : ℕ
  pub estimated_max_amount : ℕ
  pub input_value : Option String
  pub quantity : Option ℕ
  pub price : CatalogPrice

-- `new BadRequestException(message)`.
abbrev pub bad_request : String → Thrown
bad_request message = http 400 (message_body message) message

-- `emptyPrice`.
abbrev pub empty_price : CatalogPrice
empty_price = record {
  price_type = none_type;
  currency = "KRW";
  amount = none;
  min_amount = none;
  max_amount = none;
  base_amount = none;
  base_quantity = none;
  extra_unit_quantity = none;
  extra_unit_amount = none;
}

-- `findOptionByCode`, depth first.
unfoldable pub find_option_by_code : CatalogOptions → String → Option OptionInfo
find_option_by_code no_options code = none
find_option_by_code (more_options (option info children) rest) code =
    let in_children = find_option_by_code children code in
    let in_rest = find_option_by_code rest code in
    if str_eq info.code code
    then some info
    else elim in_children [ none ↦ in_rest | some o ↦ some o ]

abbrev pub is_single : SelectionType → Bool
is_single SelectionType.single = true
is_single SelectionType.multi = false

-- `selectedByGroupCode.get(group.code) ?? []`.
abbrev pub group_selections : String → List EstimateSelectedOption → List EstimateSelectedOption
group_selections code selected = filter_by (λ s. str_eq s.group_code code) selected

-- The checks of one group, on the number of its selections.
abbrev pub check_group : String → CatalogOptionGroup → ℕ → Result (Unit {0})
check_group item_code group selections =
    if group.required && selections == 0
    then err (
        bad_request
          (concat "Missing required option group: " (concat item_code (concat "." group.code))))
    else if is_single group.selection_type && ltb 1 selections
    then err (
        bad_request (
          concat "Option group must be single-select: " (concat item_code (concat "." group.code))))
    else ok tt

-- The loop over the groups.
unfoldable pub check_groups :
    String → List CatalogOptionGroup → List EstimateSelectedOption → Result (Unit {0})
check_groups item_code [] selected = ok tt
check_groups item_code (group ∷ groups) selected =
    let rest = check_groups item_code groups selected in
    elim (check_group item_code group (length (group_selections group.code selected))) [
      | err e ↦ err e
      | ok u ↦ rest
    ]

-- `option.prices[0] ?? this.emptyPrice()`.
abbrev pub price_of : Option CatalogPrice → CatalogPrice
price_of none = empty_price
price_of (some price) = price

abbrev pub calculated :
    CatalogOptionGroup → OptionInfo → EstimateSelectedOption → CalculatedSelectedOption
calculated group o selected =
    let price = price_of (first? o.prices) in
    let amounts = calculate_price price selected.quantity in
    record {
      catalog_option_group_id = group.id;
      catalog_option_id = o.id;
      group_code = group.code;
      option_code = o.code;
      display_name = o.display_name;
      price_type = price.price_type;
      estimated_min_amount = amounts.min;
      estimated_max_amount = amounts.max;
      input_value = selected.input_value;
      quantity = selected.quantity;
      price = price;
    }

-- The body of `selectedOptions.map(…)`, for the group and the option that the searches find.
abbrev pub in_group :
    String
    → EstimateSelectedOption
    → CatalogOptionGroup
    → Option OptionInfo
    → Result CalculatedSelectedOption
in_group item_code selected group none = err (
    bad_request (
      concat "Invalid option: " (
        concat item_code
          (concat "." (concat selected.group_code (concat "." selected.option_code))))))
in_group item_code selected group (some o) = ok (calculated group o selected)

abbrev pub calculate_in :
    String → EstimateSelectedOption → Option CatalogOptionGroup → Result CalculatedSelectedOption
calculate_in item_code selected none = err (
    bad_request
      (concat "Invalid option group: " (concat item_code (concat "." selected.group_code))))
calculate_in item_code selected (some group) =
    in_group item_code selected group (find_option_by_code group.options selected.option_code)

unfoldable pub calculate_option :
    CatalogItemDetail → EstimateSelectedOption → Result CalculatedSelectedOption
calculate_option item selected =
    calculate_in item.code selected
      (find? (λ g. str_eq g.code selected.group_code) item.option_groups)

-- The first error, or all the results in order.
abbrev pub both : {A : Type 0} → Result A → Result (List A) → Result (List A)
both (err e) rest = err e
both (ok a) (err e) = err e
both (ok a) (ok rest) = ok (a ∷ rest)

unfoldable pub calculate_each :
    CatalogItemDetail → List EstimateSelectedOption → Result (List CalculatedSelectedOption)
calculate_each item [] = ok []
calculate_each item (s ∷ selected) = both (calculate_option item s) (calculate_each item selected)

-- `calculateSelectedOptions`.
unfoldable pub calculate_selected_options :
    CatalogItemDetail → List EstimateSelectedOption → Result (List CalculatedSelectedOption)
calculate_selected_options item selected =
    elim (check_groups item.code item.option_groups selected) [
      | err e ↦ err e
      | ok u ↦ calculate_each item selected
    ]
