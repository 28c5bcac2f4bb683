-- ===== src/Catalog/RouteResolution.antt =====
-- route-resolution.ts: `resolveRouteCode`.
pub mod Choice
use laundry_api.Base.{
  ℕ, String, Bool, true, false, Option, none, some, List, [], ◌∷◌, ◌&&◌, filter_by, first?,
  if◌then◌else◌, leb, some_of, str_eq,
}
use laundry_api.Catalog.Types.{EstimateSelectedOption}

-- A row of `route_resolution_rules`; null on a predicate matches both values.
pub record RouteRule : Type 0 where
  pub item_code : String
  pub is_premium : Option Bool
  pub has_repair : Option Bool
  pub route_code : String
  pub priority : ℕ

abbrev pub bool_eq : Bool → Bool → Bool
bool_eq true b = b
bool_eq false true = false
bool_eq false false = true

-- `r === null || r === value`.
abbrev pub tri_matches : Option Bool → Bool → Bool
tri_matches none value = true
tri_matches (some r) value = bool_eq r value

unfoldable pub is_premium_of : List EstimateSelectedOption → Bool
is_premium_of options =
    some_of (λ o. str_eq o.group_code "cleaning_method" && str_eq o.option_code "premium_wash")
      options

unfoldable pub has_repair_of : List EstimateSelectedOption → Bool
has_repair_of options = some_of (λ o. str_eq o.group_code "repair") options

-- `sort((a, b) => b.priority - a.priority)`, which is stable.
abbrev pub insert_desc : RouteRule → List RouteRule → List RouteRule
insert_desc x [] = x ∷ []
insert_desc x (y ∷ ys) =
    let rest = insert_desc x ys in if leb y.priority x.priority then x ∷ y ∷ ys else y ∷ rest

abbrev pub sort_desc : List RouteRule → List RouteRule
sort_desc [] = []
sort_desc (x ∷ xs) = insert_desc x (sort_desc xs)

-- The three filters.
unfoldable pub candidates : String → Bool → Bool → List RouteRule → List RouteRule
candidates item_code premium repair rules =
    filter_by (λ r. tri_matches r.has_repair repair)
      (filter_by (λ r. tri_matches r.is_premium premium)
        (filter_by (λ r. str_eq r.item_code item_code) rules))

abbrev pub route_code_of : Option RouteRule → Option String
route_code_of none = none
route_code_of (some r) = some r.route_code

-- `resolveRouteCode`.
unfoldable pub resolve_route_code :
    String → List EstimateSelectedOption → List RouteRule → Option String
resolve_route_code item_code options rules = route_code_of (
    first? (sort_desc (candidates item_code (is_premium_of options) (has_repair_of options) rules)))
