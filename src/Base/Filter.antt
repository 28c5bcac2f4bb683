-- ===== src/Base/Filter.antt =====
-- Membership in a filtered list, and rows that a test finds.
use mathlib.Core.Path.{◌≡◌, refl}
use mathlib.Core.Bool.{Bool, true, false}
use mathlib.Core.List.{List, [], ◌∷◌, Memᴰ}
use laundry_api.Base.Lists.{filter_by, some_of}
use laundry_api.Base.Tests.{if◌then◌else◌, Bool-cases}
use mathlib.Core.Logic.{inl, inr}
use native.Mathlib.Omega.{arith}

module _ {ℓ} {A : Type ℓ} where
  filtered_head :
      (b : Bool) (y : A) (rest xs : List A) {x : A} (P : A → Bool)
      → P y ≡ b
      → (Memᴰ x rest → Memᴰ x xs × (P x ≡ true))
      → Memᴰ x (if b then y ∷ rest else rest)
      → Memᴰ x (y ∷ xs) × (P x ≡ true)
  filtered_head true y rest xs P e ih (Memᴰ.head h) = (Memᴰ.head h, rw h e)
  filtered_head true y rest xs P e ih (Memᴰ.tail n) = (Memᴰ.tail (ih n).0, (ih n).1)
  filtered_head false y rest xs P e ih n = (Memᴰ.tail (ih n).0, (ih n).1)

  filtered_tail :
      (b : Bool) (y : A) (rest : List A) {x : A}
      → Memᴰ x rest
      → Memᴰ x (if b then y ∷ rest else rest)
  filtered_tail true y rest m = Memᴰ.tail m
  filtered_tail false y rest m = m

module _ {ℓ} {A : Type ℓ} (p : A → Bool) where
  pub filter_by-mem : (xs : List A) {x : A} → Memᴰ x (filter_by p xs) → Memᴰ x xs × (p x ≡ true)
  filter_by-mem [] m = elim m [ ]
  filter_by-mem (y ∷ xs) m =
      filtered_head (p y) y (filter_by p xs) xs p refl (λ n. filter_by-mem xs n) m

  pub mem-filter_by : (xs : List A) {x : A} → Memᴰ x xs → p x ≡ true → Memᴰ x (filter_by p xs)
  mem-filter_by [] m t = elim m [ ]
  mem-filter_by (y ∷ xs) (Memᴰ.head e) t = rw (rw e at t) (Memᴰ.head e)
  mem-filter_by (y ∷ xs) (Memᴰ.tail m) t =
      filtered_tail (p y) y (filter_by p xs) (mem-filter_by xs m t)

  pub some_of-mem : (xs : List A) → some_of p xs ≡ true → (x : A) × Memᴰ x xs × (p x ≡ true)
  some_of-mem [] e = cc
  some_of-mem (y ∷ xs) e = elim (Bool-cases (p y)) [
    | inl h ↦ (y, Memᴰ.head refl, h)
    | inr h ↦ let (x, m, t) = some_of-mem xs (ground arith) in (x, Memᴰ.tail m, t)
  ]

  pub mem-some_of : (xs : List A) {x : A} → Memᴰ x xs → p x ≡ true → some_of p xs ≡ true
  mem-some_of [] m t = elim m [ ]
  mem-some_of (y ∷ xs) (Memᴰ.head e) t = ground (arith, rw e at t)
  mem-some_of (y ∷ xs) (Memᴰ.tail m) t = ground (arith, mem-some_of xs m t)
