-- ===== src/Catalog/Pricing.antt =====
-- pricing.ts: `calculatePrice`.
use laundry_api.Base.{ℕ, ◌+◌, ◌*◌, Option, none, some, ltb, if◌then◌else◌}
use laundry_api.Catalog.Doubles.{ceil, divide, minus}
use laundry_api.Catalog.Types.{
  CatalogPrice, Amounts, PriceType, fixed, range, unit, matrix, none_type,
}

-- `a ?? b`.
abbrev pub or_else : Option ℕ → ℕ → ℕ
or_else none b = b
or_else (some a) b = a

abbrev pub flat : ℕ → Amounts
flat amount = record { min = amount; max = amount }

-- `extraUnits` of a UNIT price, on doubles.
unfoldable pub extra_units : ℕ → ℕ → ℕ → ℕ
extra_units selected base unit_quantity =
    if ltb 0 unit_quantity then ceil (divide (minus selected base) unit_quantity) else 0

-- The UNIT branch.
unfoldable pub unit_amount : CatalogPrice → Option ℕ → ℕ
unit_amount price quantity =
    let base_amount = or_else price.base_amount (or_else price.amount 0) in
    let base_quantity = or_else price.base_quantity 0 in
    let unit_quantity = or_else price.extra_unit_quantity 0 in
    let extra_amount = or_else price.extra_unit_amount 0 in
    base_amount
    + extra_units (or_else quantity base_quantity) base_quantity unit_quantity * extra_amount

abbrev price_by_type : PriceType → CatalogPrice → Option ℕ → Amounts
price_by_type fixed price quantity = flat (or_else price.amount 0)
price_by_type matrix price quantity = flat (or_else price.amount 0)
price_by_type range price quantity = record {
  min = or_else price.min_amount 0;
  max = or_else price.max_amount (or_else price.min_amount 0);
}
price_by_type unit price quantity = flat (unit_amount price quantity)
price_by_type none_type price quantity = flat 0

-- `calculatePrice`.
unfoldable pub calculate_price : CatalogPrice → Option ℕ → Amounts
calculate_price price quantity = price_by_type price.price_type price quantity
