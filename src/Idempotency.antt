-- ===== src/Idempotency.antt =====
-- common/errors/idempotency.ts: what becomes of a violated UNIQUE constraint.
use laundry_api.Base.{Bool, false, Option, none, some, str_eq, if◌then◌else◌, ◌≡◌, refl}
use laundry_api.Errors.{Thrown, domain, http, known_request, type_error}
use laundry_api.Tx.{◌>>=◌, Tx, err, gets, ok, throw}

-- `e instanceof PrismaClientKnownRequestError && e.code === 'P2002'`.
abbrev pub is_unique_conflict : Thrown → Bool
is_unique_conflict (known_request code) = str_eq code "P2002"
is_unique_conflict (domain e) = false
is_unique_conflict (http status body message) = false
is_unique_conflict type_error = false

-- After the fetch: the row that is there, or the error again.
abbrev pub existing_or_throw : {S A : Type 0} → Thrown → Option A → Tx S A
existing_or_throw e (some a) s = ok (a, s)
existing_or_throw e none s = err e

-- The client that the two calls run on: the module's own, where each call is a transaction of its
-- own, or the caller's transaction.
pub data Client : Type 0 where
  own of_caller : Client

-- A query right after a statement that failed. On the module's own client it runs as any other.
-- Within the caller's transaction PostgreSQL has aborted the transaction with the failed statement,
-- and refuses every further one with an error that the Prisma client does not know.
abbrev pub after_failure : {S A : Type 0} → Client → (S → A) → Tx S A
after_failure own query = gets query
after_failure of_caller query = throw type_error

-- `withIdempotency`.
abbrev pub with_idempotency : {S A : Type 0} → Tx S A → Tx S (Option A) → Tx S A
with_idempotency insert fetch_existing s = elim (insert s) [
  | ok r ↦ ok r
  | err e ↦ if is_unique_conflict e then (fetch_existing >>= existing_or_throw e) s else err e
]

-- A conflict, where the row is there, returns it and writes nothing.
pub with_idempotency-found :
    {S A : Type 0} (insert : Tx S A) (query : S → Option A) (s : S) {a : A}
    → insert s ≡ err (known_request "P2002")
    → query s ≡ some a
    → with_idempotency insert (after_failure own query) s ≡ ok (a, s)
with_idempotency-found insert query s e f = rw (with_idempotency, e, f) refl

-- A conflict within the caller's transaction throws.
pub with_idempotency-aborted :
    {S A : Type 0} (insert : Tx S A) (query : S → Option A) (s : S)
    → insert s ≡ err (known_request "P2002")
    → with_idempotency insert (after_failure of_caller query) s ≡ err type_error
with_idempotency-aborted insert query s e = rw (with_idempotency, e) refl

-- An insert that succeeds is the result.
pub with_idempotency-inserted :
    {S A : Type 0} (insert : Tx S A) (fetch : Tx S (Option A)) (s : S) {r : A × S}
    → insert s ≡ ok r
    → with_idempotency insert fetch s ≡ ok r
with_idempotency-inserted insert fetch s e = rw (with_idempotency, e) refl

-- `mapUniqueConflict`.
abbrev pub map_unique_conflict : {S A : Type 0} → Tx S A → Thrown → Tx S A
map_unique_conflict insert error s = elim (insert s) [
  | ok r ↦ ok r
  | err e ↦ if is_unique_conflict e then err error else err e
]
