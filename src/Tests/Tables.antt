-- ===== src/Tests/Tables.antt =====
-- UNIQUE constraints of the tables of the tests, which are short lists.
use laundry_api.Base.{
  ℕ, ◌≤◌, ◌<◌, sym, ◌∙◌, Bool, List, [], ◌∷◌, Memᴰ, arith, All, count, ◌==◌, ==→eq,
}
use laundry_api.Store.Laws.{IsUnique}
use laundry_api.Billing.Resolve.{count-pos}

module _ {A : Type 0} where
  -- A test that at most one row passes.
  pub IsUnique-count : (p : A → Bool) (rows : List A) → count p rows ≤ 1 → IsUnique p rows
  IsUnique-count p [] le x y mx px my py = elim mx [ ]
  IsUnique-count p (r ∷ rows) le x y (Memᴰ.head e) px (Memᴰ.head f) py = e ∙ sym f
  IsUnique-count p (r ∷ rows) le x y (Memᴰ.head e) px (Memᴰ.tail n) py =
      let more = count-pos p rows n py in absurd (ground (arith, rw e at px))
  IsUnique-count p (r ∷ rows) le x y (Memᴰ.tail m) px (Memᴰ.head f) py =
      let more = count-pos p rows m px in absurd (ground (arith, rw f at py))
  IsUnique-count p (r ∷ rows) le x y (Memᴰ.tail m) px (Memᴰ.tail n) py =
      IsUnique-count p rows (ground arith) x y m px n py

  -- Every row has a larger key than the rows before it.
  abbrev pub Ascending : (A → ℕ) → List A → Type 0
  Ascending key [] = Unit
  Ascending key (x ∷ rows) = All (λ y. key x < key y) rows × Ascending key rows

  above :
      (key : A → ℕ) (n : ℕ) (rows : List A) {x : A}
      → All (λ y. n < key y) rows
      → Memᴰ x rows
      → n < key x
  above key n [] a m = elim m [ ]
  above key n (r ∷ rows) a (Memᴰ.head e) = rw e a.0
  above key n (r ∷ rows) a (Memᴰ.tail m) = above key n rows a.1 m

  pub IsUnique-Ascending :
      (key : A → ℕ) (rows : List A) (k : ℕ) → Ascending key rows → IsUnique (λ r. key r == k) rows
  IsUnique-Ascending key [] k a x y mx px my py = elim mx [ ]
  IsUnique-Ascending key (r ∷ rows) k a x y (Memᴰ.head e) px (Memᴰ.head f) py = e ∙ sym f
  IsUnique-Ascending key (r ∷ rows) k a x y (Memᴰ.head e) px (Memᴰ.tail n) py =
      let more = above key (key r) rows a.0 n in
      absurd (omega (arith, ==→eq _ _ (rw e at px), ==→eq _ _ py))
  IsUnique-Ascending key (r ∷ rows) k a x y (Memᴰ.tail m) px (Memᴰ.head f) py =
      let more = above key (key r) rows a.0 m in
      absurd (omega (arith, ==→eq _ _ (rw f at py), ==→eq _ _ px))
  IsUnique-Ascending key (r ∷ rows) k a x y (Memᴰ.tail m) px (Memᴰ.tail n) py =
      IsUnique-Ascending key rows k a.1 x y m px n py
