-- ===== src/Wash/Packages/Grouping.antt =====
-- The groups hold just the items, each in the group of its order.
use laundry_api.Base.{
  ℕ, ◌≡◌, refl, sym, subst, Bool, true, List, [], ◌∷◌, ◌++◌, Memᴰ, arith, some_of, map, ◌==◌, ◌&&◌,
  ◌||◌, Bool-cases, inl, inr, ==_refl, ==→eq, mem-some_of, All,
}
use laundry_api.Orders.Types.{OrderItem}
use laundry_api.Store.Many.{contains}
use laundry_api.Wash.Packages.{OrderGroup, group_by_order, push_group}

-- The ids of a group.
abbrev pub ids_of : OrderGroup → List ℕ
ids_of g = map (λ i. i.id) g.items

abbrev pub in_groups : ℕ → List OrderGroup → Bool
in_groups n groups = some_of (λ g. contains (ids_of g) n) groups

-- An item of the list has the id and the order.
abbrev pub is_listed : ℕ → ℕ → List OrderItem → Bool
is_listed n order items = some_of (λ i. i.id == n && i.order_id == order) items

contains-snoc :
    (items : List OrderItem) (i : OrderItem) (n : ℕ)
    → contains (map (λ j. j.id) (items ++ i ∷ [])) n
      ≡ (contains (map (λ j. j.id) items) n || (i.id == n))
contains-snoc [] i n = ground arith
contains-snoc (j ∷ items) i n = ground (arith, contains-snoc items i n)

push_group-in :
    (i : OrderItem) (groups : List OrderGroup) (n : ℕ)
    → in_groups n (push_group i groups) ≡ (in_groups n groups || (i.id == n))
unfolding push_group
push_group-in i [] n = ground arith
push_group-in i (g ∷ groups) n = ground (arith, push_group-in i groups n, contains-snoc g.items i n)

-- Every item of the list is in a group.
pub group_by_order-in :
    (items : List OrderItem) (groups : List OrderGroup) (n : ℕ)
    → in_groups n (group_by_order items groups)
      ≡ (in_groups n groups || some_of (λ i. i.id == n) items)
unfolding group_by_order
group_by_order-in [] groups n = ground arith
group_by_order-in (i ∷ items) groups n =
    ground (arith, group_by_order-in items (push_group i groups) n, push_group-in i groups n)

-- The items of a group are on the list, with the order of the group.
abbrev pub IsListed : List OrderItem → OrderGroup → Type 0
IsListed all g = (n : ℕ) → contains (ids_of g) n ≡ true → is_listed n g.order_id all ≡ true

listed_as :
    (all : List OrderItem) (i : OrderItem) (n order : ℕ)
    → is_listed i.id i.order_id all ≡ true
    → (i.id == n) ≡ true
    → (order == i.order_id) ≡ true
    → is_listed n order all ≡ true
listed_as all i n order l e f =
    subst (λ k. is_listed n k all ≡ true) (sym (==→eq order i.order_id f))
      (subst (λ k. is_listed k i.order_id all ≡ true) (==→eq i.id n e) l)

push_group-IsListed :
    (all : List OrderItem) (i : OrderItem) (groups : List OrderGroup)
    → is_listed i.id i.order_id all ≡ true
    → All (IsListed all) groups
    → All (IsListed all) (push_group i groups)
unfolding push_group
push_group-IsListed all i [] l s =
    (λ n c. listed_as all i n i.order_id l (ground arith) (==_refl i.order_id), tt)
push_group-IsListed all i (h ∷ groups) l s = elim (Bool-cases (h.order_id == i.order_id)) [
  | inl hit ↦ rw hit (
    λ n c. elim (Bool-cases (i.id == n)) [
      | inl e ↦ listed_as all i n h.order_id l e hit
      | inr e ↦ s.0 n (ground (arith, contains-snoc h.items i n))
    ],
    s.1,
  )
  | inr miss ↦ rw miss (s.0, push_group-IsListed all i groups l s.1)
]

-- Every group holds only items of the list that are of its order.
pub group_by_order-IsListed :
    (all items : List OrderItem) (groups : List OrderGroup)
    → ((i : OrderItem) → Memᴰ i items → is_listed i.id i.order_id all ≡ true)
    → All (IsListed all) groups
    → All (IsListed all) (group_by_order items groups)
unfolding group_by_order
group_by_order-IsListed all [] groups l s = s
group_by_order-IsListed all (i ∷ items) groups l s =
    group_by_order-IsListed all items (push_group i groups) (λ j m. l j (Memᴰ.tail m))
      (push_group-IsListed all i groups (l i (Memᴰ.head refl)) s)

-- An item is listed on its own list.
pub mem-is_listed :
    (items : List OrderItem) {i : OrderItem} → Memᴰ i items → is_listed i.id i.order_id items ≡ true
mem-is_listed items {i} m =
    mem-some_of (λ j. j.id == i.id && j.order_id == i.order_id) items m
      (ground (arith, ==_refl i.id, ==_refl i.order_id))
