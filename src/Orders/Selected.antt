-- ===== src/Orders/Selected.antt =====
-- The items whose ids a query has read: with unique ids they are the items that the query's test
-- passes.
use laundry_api.Base.{
  ℕ, ◌≡◌, refl, sym, subst, ap, ◌∙◌, Bool, true, List, [], ◌∷◌, Memᴰ, arith, ◌&&◌, ◌==◌, ==→eq,
  ==_refl, map, some_of-mem, mem-some_of, update_where,
}
use laundry_api.Store.{Prisma}
use laundry_api.Store.Laws.{IsUnique, update_where-IsUnique_of}
use laundry_api.Store.Many.{contains, contains-find_many, find_many}
use laundry_api.Orders.Types.{OrderItem, in_ids}

-- The primary key of `order_items`.
abbrev pub HasUniqueIds : List OrderItem → Type 0
HasUniqueIds items = (id : ℕ) → IsUnique (λ i. i.id == id) items

pub update_where-HasUniqueIds :
    (p : OrderItem → Bool) (f : OrderItem → OrderItem) (items : List OrderItem)
    → ((x : OrderItem) → (f x).id ≡ x.id)
    → HasUniqueIds items
    → HasUniqueIds (update_where p f items)
update_where-HasUniqueIds p f items same u id =
    update_where-IsUnique_of (λ i. i.id == id) p f (λ x. rw (same x) refl) items (u id)

pub mem-map : {A B : Type 0} (f : A → B) (xs : List A) {x : A} → Memᴰ x xs → Memᴰ (f x) (map f xs)
mem-map f [] m = elim m [ ]
mem-map f (y ∷ xs) (Memᴰ.head e) = Memᴰ.head (ap f e)
mem-map f (y ∷ xs) (Memᴰ.tail m) = Memᴰ.tail (mem-map f xs m)

pub contains-mem : (ids : List ℕ) (n : ℕ) → contains ids n ≡ true → Memᴰ n ids
contains-mem ids n h =
    let (m, at, e) = some_of-mem (λ id. id == n) ids h in subst (λ k. Memᴰ k ids) (==→eq m n e) at

module _ ⦃prisma : Prisma⦄ (p : OrderItem → Bool) (items : List OrderItem) where
  -- The ids that the query reads.
  abbrev pub selected : List ℕ
  selected = map (λ i. i.id) (find_many p items)

  pub mem-selected : {x : OrderItem} → Memᴰ x items → p x ≡ true → in_ids selected x ≡ true
  mem-selected {x} m t =
      contains-find_many (λ i. i.id) p items x.id
      ∙ mem-some_of (λ r. p r && r.id == x.id) items m (ground (arith, ==_refl x.id))

  pub selected-mem :
      {x : OrderItem} → HasUniqueIds items → Memᴰ x items → in_ids selected x ≡ true → p x ≡ true
  selected-mem {x} u m t =
      let (y, n, both) =
        some_of-mem (λ r. p r && r.id == x.id) items
          (sym (contains-find_many (λ i. i.id) p items x.id) ∙ t) in
      let same : y ≡ x = u x.id y x n (ground arith) m (==_refl x.id) in
      subst (λ z. p z ≡ true) same (ground arith)
