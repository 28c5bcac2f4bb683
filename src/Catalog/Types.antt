-- ===== src/Catalog/Types.antt =====
-- catalog.types.ts. Amounts are whole KRW and never negative. Quantities are
-- doubles, counted as in Catalog.Doubles: the decimal texts of a price stand for what `Number` makes
-- of them.
use laundry_api.Base.{ℕ, String, Bool, Option, List}

pub data PriceType : Type 0 where
  fixed range unit matrix none_type : PriceType

pub record CatalogPrice : Type 0 where
  pub price_type : PriceType
  pub currency : String
  pub amount : Option ℕ
  pub min_amount : Option ℕ
  pub max_amount : Option ℕ
  pub base_amount : Option ℕ
  pub base_quantity : Option ℕ
  pub extra_unit_quantity : Option ℕ
  pub extra_unit_amount : Option ℕ

-- `{ min, max }`.
pub record Amounts : Type 0 where
  pub min : ℕ
  pub max : ℕ

pub data SelectionType : Type 0 where
  single multi : SelectionType

-- The fields of `CatalogOption` that an estimate reads, beside its children.
pub record OptionInfo : Type 0 where
  pub id : ℕ
  pub code : String
  pub display_name : String
  pub prices : List CatalogPrice

mutual
  -- `CatalogOption`: an option with its child options.
  pub data CatalogOption : Type 0 where
    option : OptionInfo → CatalogOptions → CatalogOption

  pub data CatalogOptions : Type 0 where
    no_options : CatalogOptions
    more_options : CatalogOption → CatalogOptions → CatalogOptions

pub record CatalogOptionGroup : Type 0 where
  pub id : ℕ
  pub code : String
  pub selection_type : SelectionType
  pub required : Bool
  pub options : CatalogOptions

pub record CatalogItemDetail : Type 0 where
  pub id : ℕ
  pub code : String
  pub display_name : String
  pub option_groups : List CatalogOptionGroup

pub record EstimateSelectedOption : Type 0 where
  pub group_code : String
  pub option_code : String
  pub input_value : Option String
  pub quantity : Option ℕ

pub record EstimateItemInput : Type 0 where
  pub item_code : String
  pub options : List EstimateSelectedOption
