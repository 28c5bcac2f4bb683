-- ===== src/Store/Many.antt =====
-- `findMany` without an order: the rows that pass the test, in any order, and what a test of all
-- of them sees.
use mathlib.Core.List.{Perm, Permᴰ}
use mathlib.Core.Logic.{∥∥₁_elim}
use laundry_api.Base.{
  ◌≡◌, ◌∙◌, Bool, true, false, not, List, [], ◌∷◌, arith, filter_by, some_of, every, ◌&&◌, ◌==◌,
  map, ℕ, refl, Bool-cases, inl, inr, ap, Memᴰ, mem-some_of, some_of-mem,
}
use laundry_api.Store.{Prisma}

module _ {A : Type 0} (q : A → Bool) where
  some_of-permᴰ : {xs ys : List A} → Permᴰ xs ys → some_of q xs ≡ some_of q ys
  some_of-permᴰ Permᴰ.nil = refl
  some_of-permᴰ (Permᴰ.cons e d) = rw (e, some_of-permᴰ d) refl
  some_of-permᴰ (Permᴰ.swap {a = a} {b = b} {l = l} e f) = ground (arith, ap q e, ap q f)
  some_of-permᴰ (Permᴰ.trans d e) = some_of-permᴰ d ∙ some_of-permᴰ e

  pub some_of-perm : {xs ys : List A} → Perm xs ys → some_of q xs ≡ some_of q ys
  some_of-perm p = ∥∥₁_elim p (hlevel) (λ d. some_of-permᴰ d)

  pub some_of-filter_by :
      (p : A → Bool) (xs : List A) → some_of q (filter_by p xs) ≡ some_of (λ r. p r && q r) xs
  some_of-filter_by p [] = refl
  some_of-filter_by p (x ∷ xs) = ground (arith, some_of-filter_by p xs)

  pub every-not_some : (xs : List A) → every q xs ≡ not (some_of (λ r. not (q r)) xs)
  every-not_some [] = refl
  every-not_some (x ∷ xs) = ground (arith, every-not_some xs)

-- `list.includes(n)`, and `{ in: list }`.
abbrev pub contains : List ℕ → ℕ → Bool
contains ids n = some_of (λ id. id == n) ids

pub contains-map :
    {A : Type 0} (key : A → ℕ) (xs : List A) (n : ℕ)
    → contains (map key xs) n ≡ some_of (λ r. key r == n) xs
contains-map key [] n = refl
contains-map key (x ∷ xs) n = ground (arith, contains-map key xs n)

module _ ⦃prisma : Prisma⦄ {A : Type 0} where
  -- `findMany({ where })`, and `include` of a relation.
  unfoldable pub find_many : (A → Bool) → List A → List A
  find_many p rows = prisma.find_many_asc (λ r. 0) p rows

  pub some_of-find_many :
      (p q : A → Bool) (rows : List A)
      → some_of q (find_many p rows) ≡ some_of (λ r. p r && q r) rows
  unfolding find_many
  some_of-find_many p q rows =
      some_of-perm q (prisma.find_many_asc_perm (λ r. 0) p rows) ∙ some_of-filter_by q p rows

  pub every-find_many :
      (p q : A → Bool) (rows : List A)
      → every q (find_many p rows) ≡ not (some_of (λ r. p r && not (q r)) rows)
  every-find_many p q rows =
      every-not_some q (find_many p rows) ∙ ap not (some_of-find_many p (λ r. not (q r)) rows)

  pub contains-find_many :
      (key : A → ℕ) (p : A → Bool) (rows : List A) (n : ℕ)
      → contains (map key (find_many p rows)) n ≡ some_of (λ r. p r && key r == n) rows
  contains-find_many key p rows n =
      contains-map key (find_many p rows) n ∙ some_of-find_many p (λ r. key r == n) rows

  -- Whether all rows that pass one test pass another.
  pub every-find_many-mem :
      (p q : A → Bool) (rows : List A) {x : A}
      → every q (find_many p rows) ≡ true
      → Memᴰ x rows
      → p x ≡ true
      → q x ≡ true
  every-find_many-mem p q rows {x} h m t = elim (Bool-cases (q x)) [
    | inl e ↦ e
    | inr e ↦
        let bad = mem-some_of (λ r. p r && not (q r)) rows m (ground arith) in
        absurd (ground (arith, every-find_many p q rows))
  ]

  pub find_many-every :
      (p q : A → Bool) (rows : List A)
      → ((x : A) → Memᴰ x rows → p x ≡ true → q x ≡ true)
      → every q (find_many p rows) ≡ true
  find_many-every p q rows h = elim (Bool-cases (some_of (λ r. p r && not (q r)) rows)) [
    | inl e ↦
        let (x, m, t) = some_of-mem (λ r. p r && not (q r)) rows e in absurd (ground (arith, h x m))
    | inr e ↦ ground (arith, every-find_many p q rows)
  ]

  pub find_many-bad :
      (p q : A → Bool) (rows : List A)
      → every q (find_many p rows) ≡ false
      → (x : A) × Memᴰ x rows × (p x ≡ true) × (q x ≡ false)
  find_many-bad p q rows h =
      let (x, m, t) =
        some_of-mem (λ r. p r && not (q r)) rows (ground (arith, every-find_many p q rows)) in
      (x, m, ground arith, ground arith)

pub every-map :
    {A B : Type 0} (q : B → Bool) (f : A → B) (xs : List A)
    → every q (map f xs) ≡ every (λ x. q (f x)) xs
every-map q f [] = refl
every-map q f (x ∷ xs) = ground (arith, every-map q f xs)
