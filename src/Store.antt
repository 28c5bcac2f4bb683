-- ===== src/Store.antt =====
-- The Prisma client as the repositories use it (third-party, so a parameter of every definition
-- that queries): a table is the list of its rows, whose order says nothing, and a query that
-- chooses a row is an operation of this record with the laws that Prisma documents for it.
-- Writes are no part of it: the model writes the new rows out.
pub mod InOrder
pub mod Laws
pub mod Many
use mathlib.Core.List.{Perm}
use laundry_api.Base.{
  ℕ, ◌≤◌, ◌≡◌, Bool, true, false, Option, none, some, List, Memᴰ, filter_by, IsSorted,
}

pub record Prisma : Type 1 where
  -- `findFirst({ where })`, and `findUnique`, whose filter at most one row passes.
  pub find_first : {A : Type 0} → (A → Bool) → List A → Option A
  -- `findFirst({ where, orderBy: { key: 'asc' } })`: among equal keys the choice is open.
  pub find_first_asc : {A : Type 0} → (A → ℕ) → (A → Bool) → List A → Option A
  -- `findFirst({ where, orderBy: { key: 'desc' } })`.
  pub find_first_desc : {A : Type 0} → (A → ℕ) → (A → Bool) → List A → Option A
  -- `findMany({ where, orderBy: { key: 'asc' } })`, and `include` with an `orderBy`.
  pub find_many_asc : {A : Type 0} → (A → ℕ) → (A → Bool) → List A → List A
  pub find_first_mem :
      {A : Type 0} (p : A → Bool) (rows : List A) {r : A} → find_first p rows ≡ some r → Memᴰ r rows
  pub find_first_test :
      {A : Type 0} (p : A → Bool) (rows : List A) {r : A} → find_first p rows ≡ some r → p r ≡ true
  pub find_first_none :
      {A : Type 0} (p : A → Bool) (rows : List A) {r : A}
      → find_first p rows ≡ none
      → Memᴰ r rows
      → p r ≡ false
  pub find_first_asc_mem :
      {A : Type 0} (key : A → ℕ) (p : A → Bool) (rows : List A) {r : A}
      → find_first_asc key p rows ≡ some r
      → Memᴰ r rows
  pub find_first_asc_test :
      {A : Type 0} (key : A → ℕ) (p : A → Bool) (rows : List A) {r : A}
      → find_first_asc key p rows ≡ some r
      → p r ≡ true
  pub find_first_asc_least :
      {A : Type 0} (key : A → ℕ) (p : A → Bool) (rows : List A) {r : A} (s : A)
      → find_first_asc key p rows ≡ some r
      → Memᴰ s rows
      → p s ≡ true
      → key r ≤ key s
  pub find_first_asc_none :
      {A : Type 0} (key : A → ℕ) (p : A → Bool) (rows : List A) {r : A}
      → find_first_asc key p rows ≡ none
      → Memᴰ r rows
      → p r ≡ false
  pub find_first_desc_mem :
      {A : Type 0} (key : A → ℕ) (p : A → Bool) (rows : List A) {r : A}
      → find_first_desc key p rows ≡ some r
      → Memᴰ r rows
  pub find_first_desc_test :
      {A : Type 0} (key : A → ℕ) (p : A → Bool) (rows : List A) {r : A}
      → find_first_desc key p rows ≡ some r
      → p r ≡ true
  pub find_first_desc_greatest :
      {A : Type 0} (key : A → ℕ) (p : A → Bool) (rows : List A) {r : A} (s : A)
      → find_first_desc key p rows ≡ some r
      → Memᴰ s rows
      → p s ≡ true
      → key s ≤ key r
  pub find_first_desc_none :
      {A : Type 0} (key : A → ℕ) (p : A → Bool) (rows : List A) {r : A}
      → find_first_desc key p rows ≡ none
      → Memᴰ r rows
      → p r ≡ false
  pub find_many_asc_perm :
      {A : Type 0} (key : A → ℕ) (p : A → Bool) (rows : List A)
      → Perm (find_many_asc key p rows) (filter_by p rows)
  pub find_many_asc_sorted :
      {A : Type 0} (key : A → ℕ) (p : A → Bool) (rows : List A)
      → IsSorted key (find_many_asc key p rows)
