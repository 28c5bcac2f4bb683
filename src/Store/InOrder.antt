-- ===== src/Store/InOrder.antt =====
-- A client that keeps the rows in the order of the list and takes the first best one. It shows
-- that the laws of `Prisma` can hold, and the tests run on it.
use mathlib.Core.List.{Perm}
use mathlib.Core.List.Perm
use laundry_api.Base.{
  ℕ, ◌≤◌, ◌≡◌, refl, Bool, true, false, Option, none, some, List, [], ◌∷◌, Memᴰ, arith, leb, find?,
  All, IsSorted, insert_by, sort_by, filter_by, if◌then◌else◌, Option-cases, Bool-cases, inl, inr,
  ◌⊎◌,
}
use laundry_api.Store.{Prisma}

module _ {A : Type 0} (p : A → Bool) where
  pub find?-mem : (rows : List A) {r : A} → find? p rows ≡ some r → Memᴰ r rows
  find?-mem [] h = cc
  find?-mem (x ∷ rows) {r} h = elim (Bool-cases (p x)) [
    | inl e ↦ Memᴰ.head (ground arith)
    | inr e ↦ Memᴰ.tail (find?-mem rows {r = r} (ground arith))
  ]

  pub find?-test : (rows : List A) {r : A} → find? p rows ≡ some r → p r ≡ true
  find?-test [] h = cc
  find?-test (x ∷ rows) {r} h = ground (arith, find?-test rows {r = r})

  pub find?-none : (rows : List A) {r : A} → find? p rows ≡ none → Memᴰ r rows → p r ≡ false
  find?-none [] h m = elim m [ ]
  find?-none (x ∷ rows) h (Memᴰ.head e) = rw e (ground arith)
  find?-none (x ∷ rows) h (Memᴰ.tail m) = find?-none rows (ground arith) m

-- The better of a row and the best of the rows behind it.
abbrev prefer : {A : Type 0} → (A → A → Bool) → A → Option A → Option A
prefer le x none = some x
prefer le x (some y) = if le x y then some x else some y

abbrev best : {A : Type 0} → (A → A → Bool) → (A → Bool) → List A → Option A
best le p [] = none
best le p (x ∷ xs) = let rest = best le p xs in if p x then prefer le x rest else rest

module _ {A : Type 0} (le : A → A → Bool) (p : A → Bool) where
  pub best-mem : (rows : List A) {r : A} → best le p rows ≡ some r → Memᴰ r rows
  best-mem [] h = cc
  best-mem (x ∷ rows) {r} h = elim (pick (best le p rows) refl) [
    | inl e ↦ Memᴰ.head e
    | inr e ↦ Memᴰ.tail (best-mem rows e)
  ]
    where
      pick : (o : Option A) → best le p rows ≡ o → (r ≡ x) ⊎ (best le p rows ≡ some r)
      pick none e = ground arith
      pick (some y) e = ground arith

  pub best-test : (rows : List A) {r : A} → best le p rows ≡ some r → p r ≡ true
  best-test [] h = cc
  best-test (x ∷ rows) {r} h = ground (arith, best-test rows {r = r})

  pub best-none : (rows : List A) {r : A} → best le p rows ≡ none → Memᴰ r rows → p r ≡ false
  best-none [] h m = elim m [ ]
  best-none (x ∷ rows) h (Memᴰ.head e) = rw e (ground arith)
  best-none (x ∷ rows) h (Memᴰ.tail m) = best-none rows (ground arith) m

-- Ascending and descending by a key.
abbrev asc : {A : Type 0} → (A → ℕ) → A → A → Bool
asc key a b = leb (key a) (key b)

abbrev desc : {A : Type 0} → (A → ℕ) → A → A → Bool
desc key a b = leb (key b) (key a)

module _ {A : Type 0} (key : A → ℕ) (p : A → Bool) where
  pub best-least :
      (rows : List A) {r : A} (s : A)
      → best (asc key) p rows ≡ some r
      → Memᴰ s rows
      → p s ≡ true
      → key r ≤ key s
  best-least [] s h m t = elim m [ ]
  best-least (x ∷ rows) {r} s h (Memᴰ.head e) t = rw e (ground (arith, rw e at t))
  best-least (x ∷ rows) {r} s h (Memᴰ.tail m) t = elim (Option-cases (best (asc key) p rows)) [
    | inl e ↦ absurd (cc (best-none (asc key) p rows e m))
    | inr (y, e) ↦ let ih = best-least rows s e m t in ground arith
  ]

  pub best-greatest :
      (rows : List A) {r : A} (s : A)
      → best (desc key) p rows ≡ some r
      → Memᴰ s rows
      → p s ≡ true
      → key s ≤ key r
  best-greatest [] s h m t = elim m [ ]
  best-greatest (x ∷ rows) {r} s h (Memᴰ.head e) t = rw e (ground (arith, rw e at t))
  best-greatest (x ∷ rows) {r} s h (Memᴰ.tail m) t = elim (Option-cases (best (desc key) p rows)) [
    | inl e ↦ absurd (cc (best-none (desc key) p rows e m))
    | inr (y, e) ↦ let ih = best-greatest rows s e m t in ground arith
  ]

module _ {A : Type 0} (key : A → ℕ) where
  pub insert_by-perm : (x : A) (xs : List A) → Perm (insert_by key x xs) (x ∷ xs)
  insert_by-perm x [] = Perm.refl (x ∷ [])
  insert_by-perm x (y ∷ ys) = ground (
    arith,
    Perm.refl (x ∷ y ∷ ys),
    Perm.trans (Perm.cons y (insert_by-perm x ys)) (Perm.swap x y ys),
  )

  pub sort_by-perm : (xs : List A) → Perm (sort_by key xs) xs
  sort_by-perm [] = Perm.refl []
  sort_by-perm (x ∷ xs) =
      Perm.trans (insert_by-perm x (sort_by key xs)) (Perm.cons x (sort_by-perm xs))

  All-le_mono : (m n : ℕ) (xs : List A) → m ≤ n → All (λ y. n ≤ key y) xs → All (λ y. m ≤ key y) xs
  All-le_mono m n [] h a = tt
  All-le_mono m n (x ∷ xs) h a = (omega arith, All-le_mono m n xs h a.1)

  All-insert_by :
      (n : ℕ) (x : A) (xs : List A)
      → n ≤ key x
      → All (λ y. n ≤ key y) xs
      → All (λ y. n ≤ key y) (insert_by key x xs)
  All-insert_by n x [] h a = (h, tt)
  All-insert_by n x (y ∷ ys) h a = ground (arith, All-insert_by n x ys h a.1)

  pub insert_by-IsSorted :
      (x : A) (xs : List A) → IsSorted key xs → IsSorted key (insert_by key x xs)
  insert_by-IsSorted x [] s = (tt, tt)
  insert_by-IsSorted x (y ∷ ys) s = ground (
    arith,
    insert_by-IsSorted x ys s.1,
    All-le_mono (key x) (key y) ys,
    All-insert_by (key y) x ys,
  )

  pub sort_by-IsSorted : (xs : List A) → IsSorted key (sort_by key xs)
  sort_by-IsSorted [] = tt
  sort_by-IsSorted (x ∷ xs) = insert_by-IsSorted x (sort_by key xs) (sort_by-IsSorted xs)

abbrev pub in_order : Prisma
in_order = record {
  find_first = λ p rows. find? p rows;
  find_first_asc = λ key p rows. best (asc key) p rows;
  find_first_desc = λ key p rows. best (desc key) p rows;
  find_first_mem = λ p rows h. find?-mem p rows h;
  find_first_test = λ p rows h. find?-test p rows h;
  find_first_none = λ p rows h m. find?-none p rows h m;
  find_first_asc_mem = λ key p rows h. best-mem (asc key) p rows h;
  find_first_asc_test = λ key p rows h. best-test (asc key) p rows h;
  find_first_asc_least = λ key p rows s h m t. best-least key p rows s h m t;
  find_first_asc_none = λ key p rows h m. best-none (asc key) p rows h m;
  find_first_desc_mem = λ key p rows h. best-mem (desc key) p rows h;
  find_first_desc_test = λ key p rows h. best-test (desc key) p rows h;
  find_first_desc_greatest = λ key p rows s h m t. best-greatest key p rows s h m t;
  find_first_desc_none = λ key p rows h m. best-none (desc key) p rows h m;
  find_many_asc = λ key p rows. sort_by key (filter_by p rows);
  find_many_asc_perm = λ key p rows. sort_by-perm key (filter_by p rows);
  find_many_asc_sorted = λ key p rows. sort_by-IsSorted key (filter_by p rows);
}
