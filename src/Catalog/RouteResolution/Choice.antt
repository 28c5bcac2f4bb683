-- ===== src/Catalog/RouteResolution/Choice.antt =====
-- Which rule decides the route of an item.
use native.Mathlib.Nat.{le_refl}
use laundry_api.Base.{
  String, Bool, true, Option, none, some, List, [], ◌∷◌, ◌≡◌, ◌≤◌, refl, Memᴰ, inl, inr, first?,
  leb, str_eq, eq_iff, arith, Bool-cases, filter_by-mem, mem-filter_by,
}
use laundry_api.Catalog.Types.{EstimateSelectedOption}
use laundry_api.Catalog.RouteResolution.{
  RouteRule, candidates, has_repair_of, insert_desc, is_premium_of, resolve_route_code,
  route_code_of, sort_desc, tri_matches,
}

-- The first row of a list in descending order of priority is in it, and none is above it.
abbrev Heads : List RouteRule → Option RouteRule → Type 0
Heads rules none = (r : RouteRule) → Memᴰ r rules → ⊥
Heads rules (some h) = Memᴰ h rules × ((r : RouteRule) → Memᴰ r rules → r.priority ≤ h.priority)

insert_desc-Heads :
    (x : RouteRule) (rules sorted : List RouteRule)
    → Heads rules (first? sorted)
    → Heads (x ∷ rules) (first? (insert_desc x sorted))
insert_desc-Heads x rules [] h = (Memᴰ.head refl, above)
  where
    above : (r : RouteRule) → Memᴰ r (x ∷ rules) → r.priority ≤ x.priority
    above r (Memᴰ.head e) = rw e (le_refl x.priority)
    above r (Memᴰ.tail m) = absurd (h r m)
insert_desc-Heads x rules (y ∷ ys) h = elim (Bool-cases (leb y.priority x.priority)) [
  | inl e ↦ rw e (Memᴰ.head refl, λ r m. up (ground arith) r m)
  | inr e ↦ rw e (Memᴰ.tail h.0, λ r m. over (ground arith) r m)
]
  where
    up : y.priority ≤ x.priority → (r : RouteRule) → Memᴰ r (x ∷ rules) → r.priority ≤ x.priority
    up le r (Memᴰ.head e) = rw e (le_refl x.priority)
    up le r (Memᴰ.tail m) = omega (arith, h.1 r m)

    over : x.priority ≤ y.priority → (r : RouteRule) → Memᴰ r (x ∷ rules) → r.priority ≤ y.priority
    over le r (Memᴰ.head e) = rw e le
    over le r (Memᴰ.tail m) = h.1 r m

sort_desc-Heads : (rules : List RouteRule) → Heads rules (first? (sort_desc rules))
sort_desc-Heads [] = λ r m. elim m [ ]
sort_desc-Heads (x ∷ rules) = insert_desc-Heads x rules (sort_desc rules) (sort_desc-Heads rules)

-- A rule applies to an item with the given predicates.
abbrev pub Applies : String → Bool → Bool → RouteRule → Type 0
Applies item_code premium repair r =
    (r.item_code ≡ item_code)
    × (tri_matches r.is_premium premium ≡ true)
    × (tri_matches r.has_repair repair ≡ true)

candidates-Applies :
    (item_code : String) (premium repair : Bool) (rules : List RouteRule) {r : RouteRule}
    → Memᴰ r (candidates item_code premium repair rules)
    → Memᴰ r rules × Applies item_code premium repair r
unfolding candidates
candidates-Applies item_code premium repair rules {r} m =
    let (m₁, repair_ok) = filter_by-mem (λ x. tri_matches x.has_repair repair) _ m in
    let (m₂, premium_ok) = filter_by-mem (λ x. tri_matches x.is_premium premium) _ m₁ in
    let (m₃, code_ok) = filter_by-mem (λ x. str_eq x.item_code item_code) rules m₂ in
    (m₃, ((eq_iff r.item_code item_code).0 code_ok, premium_ok, repair_ok))

Applies-candidates :
    (item_code : String) (premium repair : Bool) (rules : List RouteRule) {r : RouteRule}
    → Memᴰ r rules
    → Applies item_code premium repair r
    → Memᴰ r (candidates item_code premium repair rules)
unfolding candidates
Applies-candidates item_code premium repair rules {r} m (code, premium_ok, repair_ok) =
    mem-filter_by (λ x. tri_matches x.has_repair repair) _
      (mem-filter_by (λ x. tri_matches x.is_premium premium) _
        (mem-filter_by (λ x. str_eq x.item_code item_code) rules m
          ((eq_iff r.item_code item_code).1 code))
        premium_ok)
      repair_ok

-- What a resolved route must be: null where no rule applies, and otherwise the route of a rule that
-- applies, with no applying rule of a higher priority.
abbrev pub Resolves : String → Bool → Bool → List RouteRule → Option String → Type 0
Resolves item_code premium repair rules none =
    (r : RouteRule) → Memᴰ r rules → Applies item_code premium repair r → ⊥
Resolves item_code premium repair rules (some code) =
    (h : RouteRule) × Memᴰ h rules
    × Applies item_code premium repair h
    × (h.route_code ≡ code)
    × ((r : RouteRule)
        → Memᴰ r rules
        → Applies item_code premium repair r
        → r.priority ≤ h.priority)

Heads-Resolves :
    (item_code : String) (premium repair : Bool) (rules : List RouteRule) (o : Option RouteRule)
    → Heads (candidates item_code premium repair rules) o
    → Resolves item_code premium repair rules (route_code_of o)
Heads-Resolves item_code premium repair rules none h =
    λ r m a. h r (Applies-candidates item_code premium repair rules m a)
Heads-Resolves item_code premium repair rules (some x) (m, top) =
    let (found, applies) = candidates-Applies item_code premium repair rules m in
    (
      x,
      found,
      applies,
      refl,
      λ r n a. top r (Applies-candidates item_code premium repair rules n a),
    )

-- For every item code, selection and rule table, the resolved route is that of an applying rule
-- with the highest priority (its item code is the item's, and each of its predicates is a wildcard
-- or equals the one derived from the selection), and null exactly when no rule applies.
pub resolve_route_code-Resolves :
    (item_code : String) (options : List EstimateSelectedOption) (rules : List RouteRule)
    → Resolves item_code
        (is_premium_of options)
        (has_repair_of options)
        rules
        (resolve_route_code item_code options rules)
unfolding resolve_route_code
resolve_route_code-Resolves item_code options rules =
    Heads-Resolves item_code (is_premium_of options) (has_repair_of options) rules _
      (sort_desc-Heads (candidates item_code (is_premium_of options) (has_repair_of options) rules))
