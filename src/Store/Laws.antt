-- ===== src/Store/Laws.antt =====
-- What follows from the laws of `Prisma` for a table that a write has changed.
use laundry_api.Base.{
  ◌≤◌, ◌<◌, ◌≡◌, refl, sym, subst, ◌∙◌, Bool, true, false, some, List, [], ◌∷◌, ◌++◌, Memᴰ, arith,
  if◌then◌else◌, update_where, Option-cases, Bool-cases, inl, inr, ◌⊎◌, count, some_of, mem-some_of,
  ltb,
}
use laundry_api.Store.{Prisma}

-- At most one row passes the test, as under a UNIQUE constraint.
abbrev pub IsUnique {ℓ} : {A : Type ℓ} → (A → Bool) → List A → Type ℓ
IsUnique {A = A} p rows = (x y : A) → Memᴰ x rows → p x ≡ true → Memᴰ y rows → p y ≡ true → x ≡ y

module _ {ℓ} {A : Type ℓ} where
  pub mem-update_where :
      (p : A → Bool) (f : A → A) (rows : List A) {r : A}
      → Memᴰ r (update_where p f rows)
      → (x : A) × Memᴰ x rows × (r ≡ (if p x then f x else x))
  mem-update_where p f [] m = elim m [ ]
  mem-update_where p f (x ∷ rows) (Memᴰ.head e) = (x, Memᴰ.head refl, e)
  mem-update_where p f (x ∷ rows) (Memᴰ.tail m) =
      let (y, n, e) = mem-update_where p f rows m in (y, Memᴰ.tail n, e)

  pub update_where-mem :
      (p : A → Bool) (f : A → A) (rows : List A) {x : A}
      → Memᴰ x rows
      → Memᴰ (if p x then f x else x) (update_where p f rows)
  update_where-mem p f [] m = elim m [ ]
  update_where-mem p f (y ∷ rows) (Memᴰ.head e) = Memᴰ.head (rw e)
  update_where-mem p f (y ∷ rows) (Memᴰ.tail m) = Memᴰ.tail (update_where-mem p f rows m)

  pub mem-append_right : (xs ys : List A) {x : A} → Memᴰ x ys → Memᴰ x (xs ++ ys)
  mem-append_right [] ys m = m
  mem-append_right (y ∷ xs) ys m = Memᴰ.tail (mem-append_right xs ys m)

  pub mem-append_left : (xs ys : List A) {x : A} → Memᴰ x xs → Memᴰ x (xs ++ ys)
  mem-append_left [] ys m = elim m [ ]
  mem-append_left (y ∷ xs) ys (Memᴰ.head e) = Memᴰ.head e
  mem-append_left (y ∷ xs) ys (Memᴰ.tail m) = Memᴰ.tail (mem-append_left xs ys m)

  pub mem-append_cases : (xs ys : List A) {x : A} → Memᴰ x (xs ++ ys) → Memᴰ x xs ⊎ Memᴰ x ys
  mem-append_cases [] ys m = inr m
  mem-append_cases (y ∷ xs) ys (Memᴰ.head e) = inl (Memᴰ.head e)
  mem-append_cases (y ∷ xs) ys (Memᴰ.tail m) = elim (mem-append_cases xs ys m) [
    | inl n ↦ inl (Memᴰ.tail n)
    | inr n ↦ inr n
  ]

  -- A test that a row passes and that implies another counts fewer rows.
  pub count-le :
      (p q : A → Bool) (rows : List A)
      → ((x : A) → q x ≡ true → p x ≡ true)
      → count q rows ≤ count p rows
  count-le p q [] h = omega arith
  count-le p q (x ∷ rows) h = ground (arith, h x, count-le p q rows h)

  pub count-lt :
      (p q : A → Bool) (rows : List A) {r : A}
      → ((x : A) → q x ≡ true → p x ≡ true)
      → Memᴰ r rows
      → p r ≡ true
      → q r ≡ false
      → count q rows < count p rows
  count-lt p q [] h m pr qr = elim m [ ]
  count-lt p q (x ∷ rows) h (Memᴰ.head e) pr qr =
      ground (arith, rw e at pr, rw e at qr, count-le p q rows h)
  count-lt p q (x ∷ rows) h (Memᴰ.tail m) pr qr = ground (arith, h x, count-lt p q rows h m pr qr)

-- A table with a new row at its end, where the new row is the only one to pass the test.
pub IsUnique-insert :
    {A : Type 0} (p : A → Bool) (rows : List A) (row : A)
    → some_of p rows ≡ false
    → IsUnique p (rows ++ row ∷ [])
IsUnique-insert {A} p rows row fresh x y mx px my py = is_row x mx px ∙ sym (is_row y my py)
  where
    is_row : (z : A) → Memᴰ z (rows ++ row ∷ []) → p z ≡ true → z ≡ row
    is_row z m t = elim (mem-append_cases rows (row ∷ []) m) [
      | inl old ↦ absurd (cc (mem-some_of p rows old t))
      | inr (Memᴰ.head e) ↦ e
      | inr (Memᴰ.tail n) ↦ elim n [ ]
    ]

module _ {ℓ} {A : Type ℓ} (p : A → Bool) (f : A → A) (rows : List A) where
  -- A row that passes the test after an update which keeps the test is the update of one that did.
  pub mem-update_where_self :
      {r : A}
      → Memᴰ r (update_where p f rows)
      → p r ≡ true
      → (x : A) × Memᴰ x rows × (p x ≡ true) × (r ≡ f x)
  mem-update_where_self {r} m t =
      let (x, n, e) = mem-update_where p f rows m in
      elim (Bool-cases (p x)) [
        | inl hit ↦ (x, n, hit, ground arith)
        | inr miss ↦ let same : r ≡ x = ground arith in absurd (cc (rw same at t))
      ]

  pub update_where-IsUnique : IsUnique p rows → IsUnique p (update_where p f rows)
  update_where-IsUnique u a b ma ta mb tb =
      let (x, mx, px, ex) = mem-update_where_self ma ta in
      let (y, my, py, ey) = mem-update_where_self mb tb in rw (ex, ey, u x y mx px my py)

  pub update_where-mem_self :
      {x : A} → Memᴰ x rows → p x ≡ true → Memᴰ (f x) (update_where p f rows)
  update_where-mem_self {x} m t =
      subst (λ b. Memᴰ (if b then f x else x) (update_where p f rows)) t
        (update_where-mem p f rows m)

-- An update that the test of a UNIQUE constraint does not see keeps the constraint.
module _ {ℓ} {A : Type ℓ} (q p : A → Bool) (f : A → A) (same : (x : A) → q (f x) ≡ q x) where
  test_through : (x : A) (b : Bool) → q (if b then f x else x) ≡ q x
  test_through x true = same x
  test_through x false = refl

  pub update_where-IsUnique_of :
      (rows : List A) → IsUnique q rows → IsUnique q (update_where p f rows)
  update_where-IsUnique_of rows u a b ma ta mb tb =
      let (x, mx, ex) = mem-update_where p f rows ma in
      let (y, my, ey) = mem-update_where p f rows mb in
      let qx : q x ≡ true = sym (test_through x (p x)) ∙ rw ex at ta in
      let qy : q y ≡ true = sym (test_through y (p y)) ∙ rw ey at tb in
      rw (ex, ey, u x y mx qx my qy)

module _ ⦃prisma : Prisma⦄ {A : Type 0} where
  -- The one row that passes the test is the row found.
  pub find_first-of_mem :
      (p : A → Bool) (rows : List A) {x : A}
      → IsUnique p rows
      → Memᴰ x rows
      → p x ≡ true
      → prisma.find_first p rows ≡ some x
  find_first-of_mem p rows {x} u m t = elim (Option-cases (prisma.find_first p rows)) [
    | inl e ↦ absurd (cc (prisma.find_first_none p rows e m))
    | inr (y, e) ↦
        rw (e, u y x (prisma.find_first_mem p rows e) (prisma.find_first_test p rows e) m t)
  ]

  -- After an update that keeps the test, the same search finds the updated row.
  pub find_first-update_where :
      (p : A → Bool) (f : A → A) (rows : List A) {s : A}
      → ((x : A) → p x ≡ true → p (f x) ≡ true)
      → IsUnique p rows
      → prisma.find_first p rows ≡ some s
      → prisma.find_first p (update_where p f rows) ≡ some (f s)
  find_first-update_where p f rows {s} keep u e =
      let m = prisma.find_first_mem p rows e in
      let t = prisma.find_first_test p rows e in
      find_first-of_mem p (update_where p f rows) (update_where-IsUnique p f rows u)
        (update_where-mem_self p f rows m t) (keep s t)

-- Whether a count is zero.
module _ {A : Type 0} (p : A → Bool) where
  pub count-mem :
      (rows : List A) → ltb 0 (count p rows) ≡ true → (x : A) × Memᴰ x rows × (p x ≡ true)
  count-mem [] e = absurd (ground arith)
  count-mem (x ∷ rows) e = elim (Bool-cases (p x)) [
    | inl t ↦ (x, Memᴰ.head refl, t)
    | inr t ↦ let (y, m, u) = count-mem rows (ground arith) in (y, Memᴰ.tail m, u)
  ]

  pub mem-count : (rows : List A) {x : A} → ltb 0 (count p rows) ≡ false → Memᴰ x rows → p x ≡ false
  mem-count [] e m = elim m [ ]
  mem-count (y ∷ rows) e (Memᴰ.head h) = rw h (ground arith)
  mem-count (y ∷ rows) e (Memᴰ.tail m) = mem-count rows (ground arith) m

  pub none-count :
      (rows : List A) → ((x : A) → Memᴰ x rows → p x ≡ false) → ltb 0 (count p rows) ≡ false
  none-count [] h = refl
  none-count (x ∷ rows) h =
      ground (arith, h x (Memᴰ.head refl), none-count rows (λ y m. h y (Memᴰ.tail m)))

-- A new row keeps a UNIQUE constraint where it is the only one to pass the test, or does not pass.
pub IsUnique-append :
    {A : Type 0} (p : A → Bool) (rows : List A) (row : A)
    → IsUnique p rows
    → (p row ≡ true → (x : A) → Memᴰ x rows → p x ≡ false)
    → IsUnique p (rows ++ row ∷ [])
IsUnique-append {A} p rows row u fresh x y mx px my py =
    elim (mem-append_cases rows (row ∷ []) mx) [
      | inl a ↦ elim (mem-append_cases rows (row ∷ []) my) [
        | inl b ↦ u x y a px b py
        | inr (Memᴰ.head e) ↦ absurd (cc (fresh (subst (λ z. p z ≡ true) e py) x a))
        | inr (Memᴰ.tail n) ↦ elim n [ ]
      ]
      | inr (Memᴰ.head e) ↦ elim (mem-append_cases rows (row ∷ []) my) [
        | inl b ↦ absurd (cc (fresh (subst (λ z. p z ≡ true) e px) y b))
        | inr (Memᴰ.head f) ↦ e ∙ sym f
        | inr (Memᴰ.tail n) ↦ elim n [ ]
      ]
      | inr (Memᴰ.tail n) ↦ elim n [ ]
    ]

-- An update after which no more rows pass the test keeps the constraint.
pub update_where-IsUnique_fewer :
    {A : Type 0} (q p : A → Bool) (f : A → A) (rows : List A)
    → ((x : A) → q (f x) ≡ true → f x ≡ x)
    → IsUnique q rows
    → IsUnique q (update_where p f rows)
update_where-IsUnique_fewer {A} q p f rows same u a b ma ta mb tb =
    let (x, mx, ex) = kept a ma ta in
    let (y, my, ey) = kept b mb tb in
    ex ∙ u x y mx (subst (λ z. q z ≡ true) ex ta) my (subst (λ z. q z ≡ true) ey tb) ∙ sym ey
  where
    kept : (z : A) → Memᴰ z (update_where p f rows) → q z ≡ true → (x : A) × Memᴰ x rows × (z ≡ x)
    kept z m t =
        let (x, n, e) = mem-update_where p f rows m in
        elim (Bool-cases (p x)) [
          | inl hit ↦
              let at : z ≡ f x = ground arith in (x, n, at ∙ same x (subst (λ z. q z ≡ true) at t))
          | inr miss ↦ (x, n, ground arith)
        ]
