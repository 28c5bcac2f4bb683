-- ===== src/Orders/Lifecycle.antt =====
-- The life of an order item as an abstract machine, and what it means that an operation keeps to it.
use laundry_api.Base.{
  ◌≤◌, ◌≡◌, refl, sym, ◌∙◌, subst, Bool, true, List, Memᴰ, update_where, arith, if◌then◌else◌,
  Bool-cases, inl, inr,
}
use laundry_api.Store.Laws.{mem-update_where, update_where-mem}
use laundry_api.Orders.Types.{OrderItem, OrderItemStatus, item_rank}
use laundry_api.Orders.Types.OrderItemStatus.{
  init, pick_up, tagged, sorted, processing, ready_to_package, ready_for_delivery, delivering,
  finished,
}

-- One step of an item.
pub data Next : OrderItemStatus → OrderItemStatus → Type 0 where
  picked : Next init pick_up
  tagged_in : Next pick_up tagged
  routed : Next tagged sorted
  started : Next sorted processing
  -- The last step of the route can be the first that is scanned.
  done_at_once : Next sorted ready_to_package
  done : Next processing ready_to_package
  packaged : Next ready_to_package ready_for_delivery
  loaded : Next ready_for_delivery delivering
  delivered : Next delivering finished

pub data Reach (s : OrderItemStatus) : OrderItemStatus → Type 0 where
  here : Reach s s
  next : {t u : OrderItemStatus} → Reach s t → Next t u → Reach s u

pub Reach-trans : {s t u : OrderItemStatus} → Reach s t → Reach t u → Reach s u
Reach-trans r here = r
Reach-trans r (next q st) = next (Reach-trans r q) st

Next-rank : {s t : OrderItemStatus} → Next s t → item_rank s ≤ item_rank t
Next-rank picked = omega arith
Next-rank tagged_in = omega arith
Next-rank routed = omega arith
Next-rank started = omega arith
Next-rank done_at_once = omega arith
Next-rank done = omega arith
Next-rank packaged = omega arith
Next-rank loaded = omega arith
Next-rank delivered = omega arith

-- An item never moves back.
pub Reach-rank : {s t : OrderItemStatus} → Reach s t → item_rank s ≤ item_rank t
Reach-rank here = omega arith
Reach-rank (next r st) = omega (arith, Reach-rank r, Next-rank st)

-- The same item of the same order, further along.
pub record IsLater (x y : OrderItem) : Type 0 where
  pub same_id : y.id ≡ x.id
  pub same_order : y.order_id ≡ x.order_id
  pub reach : Reach x.status y.status

pub IsLater-refl : (x : OrderItem) → IsLater x x
IsLater-refl x = record { same_id = refl; same_order = refl; reach = here }

pub IsLater-trans : {x y z : OrderItem} → IsLater x y → IsLater y z → IsLater x z
IsLater-trans p q = record {
  same_id = q.same_id ∙ p.same_id;
  same_order = q.same_order ∙ p.same_order;
  reach = Reach-trans p.reach q.reach;
}

-- Every item of the first table is in the second, at the same point of its life or later, and the
-- second has no others.
pub record Evolves (before after : List OrderItem) : Type 0 where
  pub kept : (x : OrderItem) → Memᴰ x before → (y : OrderItem) × Memᴰ y after × IsLater x y
  pub from : (y : OrderItem) → Memᴰ y after → (x : OrderItem) × Memᴰ x before × IsLater x y

pub Evolves-refl : (items : List OrderItem) → Evolves items items
Evolves-refl items = record {
  kept = λ x m. (x, m, IsLater-refl x);
  from = λ x m. (x, m, IsLater-refl x);
}

pub Evolves-trans : {a b c : List OrderItem} → Evolves a b → Evolves b c → Evolves a c
Evolves-trans p q = record {
  kept =
      λ x m. let (y, n, l) = p.kept x m in let (z, o, k) = q.kept y n in (z, o, IsLater-trans l k);
  from =
      λ z m. let (y, n, l) = q.from z m in let (x, o, k) = p.from y n in (x, o, IsLater-trans k l);
}

-- An update moves the table along when it moves the rows that it hits along.
pub update_where-Evolves :
    (p : OrderItem → Bool) (f : OrderItem → OrderItem) (items : List OrderItem)
    → ((x : OrderItem) → Memᴰ x items → p x ≡ true → IsLater x (f x))
    → Evolves items (update_where p f items)
update_where-Evolves p f items later = record {
  kept = λ x m. (if p x then f x else x, update_where-mem p f items m, hit x m);
  from = λ y m.
      let (x, n, e) = mem-update_where p f items m in (x, n, subst (IsLater x) (sym e) (hit x n));
}
  where
    hit : (x : OrderItem) → Memᴰ x items → IsLater x (if p x then f x else x)
    hit x m = elim (Bool-cases (p x)) [
      | inl t ↦ subst (λ b. IsLater x (if b then f x else x)) (sym t) (later x m t)
      | inr t ↦ subst (λ b. IsLater x (if b then f x else x)) (sym t) (IsLater-refl x)
    ]
