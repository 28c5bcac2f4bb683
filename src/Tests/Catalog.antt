-- ===== src/Tests/Catalog.antt =====
-- The theorems on the catalog module at work.
use laundry_api.Base.{refl, ◌≡◌, true, none, some, List, [], ◌∷◌}
use laundry_api.Catalog.Types.{
  CatalogItemDetail, CatalogOptionGroup, CatalogPrice, EstimateSelectedOption, OptionInfo,
  PriceType, SelectionType, more_options, no_options, option,
}
use laundry_api.Catalog.Doubles.{excess, number, round}
use laundry_api.Catalog.Pricing.{extra_units}
use laundry_api.Catalog.RouteResolution.{
  RouteRule, has_repair_of, is_premium_of, resolve_route_code,
}
use laundry_api.Catalog.RouteResolution.Choice.{Resolves, resolve_route_code-Resolves}

-- 6,000 for one square metre and 1,000 for each further half.
abbrev curtain : CatalogPrice
curtain = record {
  price_type = PriceType.unit;
  currency = "KRW";
  amount = none;
  min_amount = none;
  max_amount = none;
  base_amount = some 6000;
  base_quantity = some (number 100);
  extra_unit_quantity = some (number 50);
  extra_unit_amount = some 1000;
}

abbrev mending : CatalogPrice
mending = record curtain {
  price_type = PriceType.range;
  min_amount = some 2000;
  max_amount = some 8000;
}

abbrev standard_rule : RouteRule
standard_rule = record {
  item_code = "shirt";
  is_premium = none;
  has_repair = none;
  route_code = "STANDARD";
  priority = 0;
}

abbrev premium_rule : RouteRule
premium_rule = record standard_rule { is_premium = some true; route_code = "PREMIUM"; priority = 5 }

abbrev premium_wash : List EstimateSelectedOption
premium_wash =
    record {
      group_code = "cleaning_method";
      option_code = "premium_wash";
      input_value = none;
      quantity = none;
    }
    ∷ []

-- A tenth more than one, in steps of a tenth, is charged as two steps: 1.1 - 1 is a double just
-- above 0.1.
tenth_twice : extra_units (number 110) (number 100) (number 10) ≡ 2
unfolding extra_units round excess
tenth_twice = refl

half_more : extra_units (number 120) (number 100) (number 50) ≡ 1
unfolding extra_units round excess
half_more = refl

resolve_route_code-Resolves_example :
    Resolves "shirt"
      (is_premium_of premium_wash)
      (has_repair_of premium_wash)
      (standard_rule ∷ premium_rule ∷ [])
      (resolve_route_code "shirt" premium_wash (standard_rule ∷ premium_rule ∷ []))
resolve_route_code-Resolves_example =
    resolve_route_code-Resolves "shirt" premium_wash (standard_rule ∷ premium_rule ∷ [])

abbrev premium : OptionInfo
premium = record { id = 71; code = "premium_wash"; display_name = "Premium"; prices = mending ∷ [] }

abbrev regular : OptionInfo
regular = record { id = 70; code = "wash"; display_name = "Wash"; prices = curtain ∷ [] }

-- The premium wash is a child of the wash.
abbrev cleaning : CatalogOptionGroup
cleaning = record {
  id = 60;
  code = "cleaning_method";
  selection_type = SelectionType.single;
  required = true;
  options =
      more_options (option regular (more_options (option premium no_options) no_options))
        no_options;
}

abbrev shirt : CatalogItemDetail
shirt = record { id = 50; code = "shirt"; display_name = "Shirt"; option_groups = cleaning ∷ [] }

abbrev premium_choice : EstimateSelectedOption
premium_choice = record {
  group_code = "cleaning_method";
  option_code = "premium_wash";
  input_value = none;
  quantity = none;
}
