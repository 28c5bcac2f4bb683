-- ===== src/Pickup/Bags/Ids.antt =====
-- The ids that a containment compares and writes.
use laundry_api.Base.{
  ℕ, ◌≡◌, refl, sym, ap, ◌∙◌, Bool, true, false, not, List, [], ◌∷◌, arith, some_of, filter_by,
  sort_by, ◌==◌, ◌&&◌, ==→eq, Bool-cases, inl, inr,
}
use laundry_api.Store.InOrder.{sort_by-perm}
use laundry_api.Store.Many.{contains, some_of-filter_by, some_of-perm}
use laundry_api.Pickup.Bags.{same_ids, same_list, unique_ids}

same_list→eq : (a b : List ℕ) → same_list a b ≡ true → a ≡ b
same_list→eq [] [] e = refl
same_list→eq [] (y ∷ b) e = cc
same_list→eq (x ∷ a) [] e = cc
same_list→eq (x ∷ a) (y ∷ b) e =
    let heads : x ≡ y = ==→eq x y (ground arith) in
    let tails : a ≡ b = same_list→eq a b (ground arith) in rw (heads, tails) refl

-- The same ids, in any order.
pub same_ids-contains : (a b : List ℕ) (n : ℕ) → same_ids a b ≡ true → contains a n ≡ contains b n
same_ids-contains a b n e =
    sym (some_of-perm (λ id. id == n) (sort_by-perm (λ k. k) a))
    ∙ ap (λ ids. contains ids n) (same_list→eq (sort_by (λ k. k) a) (sort_by (λ k. k) b) e)
    ∙ some_of-perm (λ id. id == n) (sort_by-perm (λ k. k) b)

some_of-congr :
    (p q : ℕ → Bool) (ids : List ℕ) → ((n : ℕ) → p n ≡ q n) → some_of p ids ≡ some_of q ids
some_of-congr p q [] h = refl
some_of-congr p q (x ∷ ids) h = ground (arith, h x, some_of-congr p q ids h)

others : (x n k : ℕ) → (x == n) ≡ false → (not (k == x) && k == n) ≡ (k == n)
others x n k e = ground arith

-- Dropping doubles drops no id.
pub contains-unique_ids : (ids : List ℕ) (n : ℕ) → contains (unique_ids ids) n ≡ contains ids n
unfolding unique_ids
contains-unique_ids [] n = refl
contains-unique_ids (x ∷ ids) n = elim (Bool-cases (x == n)) [
  | inl e ↦ ground arith
  | inr e ↦
      let tail : contains (filter_by (λ y. not (y == x)) (unique_ids ids)) n ≡ contains ids n =
        some_of-filter_by (λ id. id == n) (λ y. not (y == x)) (unique_ids ids)
        ∙ some_of-congr (λ k. not (k == x) && k == n) (λ k. k == n) (unique_ids ids)
            (λ k. others x n k e)
        ∙ contains-unique_ids ids n in
      ground arith
]
