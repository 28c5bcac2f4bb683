-- ===== src/Wash/Packages/Rows.antt =====
-- What the loop of `createPackages` makes of the row of one item.
use laundry_api.Base.{
  ℕ, ◌≡◌, refl, sym, ap, ◌∙◌, subst, true, false, List, [], ◌∷◌, Memᴰ, arith, Bool-cases, inl, inr,
  All,
}
use laundry_api.Orders.Types.{OrderItem}
use laundry_api.Store.Many.{contains}
use laundry_api.Wash.Packages.{OrderGroup, connected, packed}
use laundry_api.Wash.Packages.Grouping.{ids_of, in_groups}
use laundry_api.Wash.Packages.Packed.{pack_one, pack_row}

pub mem-All : {A : Type 0} (P : A → Type 0) (xs : List A) → All P xs → {x : A} → Memᴰ x xs → P x
mem-All P [] a m = elim m [ ]
mem-All P (y ∷ xs) a (Memᴰ.head e) = subst P (sym e) a.0
mem-All P (y ∷ xs) a (Memᴰ.tail m) = mem-All P xs a.1 m

module _ (id_for : ℕ → ℕ) where
  -- The item in the package of its order.
  abbrev pub in_its_package : OrderItem → OrderItem
  in_its_package x = packed (connected (id_for x.order_id) x)

  -- Each group with the id is of the item's order.
  abbrev pub OfItsOrder : OrderItem → OrderGroup → Type 0
  OfItsOrder x g = contains (ids_of g) x.id ≡ true → g.order_id ≡ x.order_id

  pack_one-again :
      (g : OrderGroup) (x : OrderItem)
      → OfItsOrder x g
      → pack_one id_for g (in_its_package x) ≡ in_its_package x
  pack_one-again g x of = elim (Bool-cases (contains (ids_of g) x.id)) [
    | inl e ↦ rw (e, of e) refl
    | inr e ↦ rw e refl
  ]

  pack_row-again :
      (groups : List OrderGroup) (x : OrderItem)
      → All (OfItsOrder x) groups
      → pack_row id_for groups (in_its_package x) ≡ in_its_package x
  pack_row-again [] x a = refl
  pack_row-again (g ∷ groups) x a =
      ap (pack_row id_for groups) (pack_one-again g x a.0) ∙ pack_row-again groups x a.1

  pub pack_row-hit :
      (groups : List OrderGroup) (x : OrderItem)
      → All (OfItsOrder x) groups
      → in_groups x.id groups ≡ true
      → pack_row id_for groups x ≡ in_its_package x
  pack_row-hit [] x a h = cc
  pack_row-hit (g ∷ groups) x a h = elim (Bool-cases (contains (ids_of g) x.id)) [
    | inl e ↦
        let one : pack_one id_for g x ≡ in_its_package x = rw (e, a.0 e) refl in
        ap (pack_row id_for groups) one ∙ pack_row-again groups x a.1
    | inr e ↦
        let one : pack_one id_for g x ≡ x = rw e refl in
        ap (pack_row id_for groups) one ∙ pack_row-hit groups x a.1 (ground arith)
  ]

  pub pack_row-miss :
      (groups : List OrderGroup) (x : OrderItem)
      → in_groups x.id groups ≡ false
      → pack_row id_for groups x ≡ x
  pack_row-miss [] x h = refl
  pack_row-miss (g ∷ groups) x h =
      let off : contains (ids_of g) x.id ≡ false = ground arith in
      let one : pack_one id_for g x ≡ x = rw off refl in
      ap (pack_row id_for groups) one ∙ pack_row-miss groups x (ground arith)
