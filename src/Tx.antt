-- ===== src/Tx.antt =====
-- A transaction over a database state: it returns a value and the new state, or throws, and then
-- the state is rolled back.
use laundry_api.Base.{Bool, true, false, Option, none, some, ◌≡◌, refl, subst, ◌⊎◌, inl, inr}
use laundry_api.Errors.{Thrown}

pub data Result {ℓ} (A : Type ℓ) : Type ℓ where
  ok : A → Result A
  err : Thrown → Result A

abbrev pub Tx : Type 0 → Type 0 → Type 0
Tx S A = S → Result (A × S)

infixl 5 ◌>>=◌ ◌>>◌
abbrev pub ◌>>=◌ : {S A B : Type 0} → Tx S A → (A → Tx S B) → Tx S B
◌>>=◌ m f s = elim (m s) [ err e ↦ err e | ok (a, s') ↦ f a s' ]

abbrev pub ◌>>◌ : {S A B : Type 0} → Tx S A → Tx S B → Tx S B
m >> k = m >>= λ _. k

abbrev pub pure : {S A : Type 0} → A → Tx S A
pure a s = ok (a, s)

abbrev pub throw : {S A : Type 0} → Thrown → Tx S A
throw e s = err e

-- A read.
abbrev pub gets : {S A : Type 0} → (S → A) → Tx S A
gets f s = ok (f s, s)

-- A read that can throw.
abbrev pub query : {S A : Type 0} → (S → Result A) → Tx S A
query f s = elim (f s) [ ok a ↦ ok (a, s) | err e ↦ err e ]

-- A write.
abbrev pub modify : {S : Type 0} → (S → S) → Tx S (Unit {0})
modify f s = ok (tt, f s)

-- `if (test) throw e`.
abbrev pub throw_if : {S : Type 0} → Bool → Thrown → Tx S (Unit {0})
throw_if true e s = err e
throw_if false e s = ok (tt, s)

-- `if (!value) throw e`.
abbrev pub require : {S A : Type 0} → Option A → Thrown → Tx S A
require none e s = err e
require (some a) e s = ok (a, s)

-- Either a value and a state, or an error, with the equation.
pub Result-cases {ℓ} :
    {A : Type ℓ} (r : Result A) → ((a : A) × (r ≡ ok a)) ⊎ ((e : Thrown) × (r ≡ err e))
Result-cases (ok a) = inl (a, refl)
Result-cases (err e) = inr (e, refl)

-- Total correctness: the call returns, with a value and a state of which `P` holds.
abbrev pub Returns : {S A : Type 0} → (A → S → Type 0) → Result (A × S) → Type 0
Returns P (ok (a, s)) = P a s
Returns P (err e) = ⊥

-- A weaker property of the result.
pub Returns-map :
    {S A : Type 0} {P Q : A → S → Type 0} (r : Result (A × S))
    → ((a : A) (s : S) → P a s → Q a s)
    → Returns P r
    → Returns Q r
Returns-map (ok (a, s)) h p = h a s p
Returns-map (err e) h p = elim p [ ]

-- A sequence that returns has two parts that return.
pub bind-ok :
    {S A B : Type 0} (m : Tx S A) (f : A → Tx S B) (s : S) {r : B × S}
    → (m >>= f) s ≡ ok r
    → (a : A) × (s' : S) × (m s ≡ ok (a, s')) × (f a s' ≡ ok r)
bind-ok {S} {A} {B} m f s {r} e = go (m s) refl e
  where
    go :
        (o : Result (A × S))
        → m s ≡ o
        → elim o as (λ x. Result (B × S)) [ err x ↦ err x | ok (a, s') ↦ f a s' ] ≡ ok r
        → (a : A) × (s' : S) × (m s ≡ ok (a, s')) × (f a s' ≡ ok r)
    go (ok (a, s')) g h = (a, s', g, h)
    go (err x) g h = cc

-- A sequence returns where both of its parts do.
pub Returns-bind :
    {S A B : Type 0} (P : A → S → Type 0) (Q : B → S → Type 0) (m : Tx S A) (f : A → Tx S B) (s : S)
    → Returns P (m s)
    → ((a : A) (s' : S) → P a s' → Returns Q (f a s'))
    → Returns Q ((m >>= f) s)
Returns-bind {S} {A} {B} P Q m f s p h = go (m s) p
  where
    go :
        (o : Result (A × S))
        → Returns P o
        → Returns Q (elim o as (λ x. Result (B × S)) [ err x ↦ err x | ok (a, s') ↦ f a s' ])
    go (ok (a, s')) q = h a s' q
    go (err x) q = elim q [ ]

-- The value and the state of a call that returns.
pub Returns-ok :
    {S A : Type 0} (P : A → S → Type 0) (r : Result (A × S))
    → Returns P r
    → (a : A) × (s : S) × (r ≡ ok (a, s))
Returns-ok P (ok (a, s)) p = (a, s, refl)
Returns-ok P (err e) p = elim p [ ]

-- Partial correctness: what holds if the call returns.
abbrev pub Holds : {S A : Type 0} → (A → S → Type 0) → Result (A × S) → Type 0
Holds P (ok (a, s)) = P a s
Holds P (err e) = Unit

pub Holds-ok :
    {S A : Type 0} (P : A → S → Type 0) {r : Result (A × S)} {a : A} {s : S}
    → Holds P r
    → r ≡ ok (a, s)
    → P a s
Holds-ok P h e = subst (Holds P) e h
