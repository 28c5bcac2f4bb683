-- ===== src/Errors/Masking.antt =====
-- What an error response can show of an internal error.
use laundry_api.Base.{
  ℕ, ◌≡◌, ◌≢◌, refl, String, true, List, [], ◌∷◌, Memᴰ, str_eq, Bool-cases, inl, inr, arith,
}
use laundry_api.Errors.{Exception, Thrown, domain, http, known_request, type_error}
use laundry_api.Errors.Classify.{
  ClassifiedError, LogLevel, classify_exception, classify_request, classify_thrown,
}

abbrev pub fixed_texts : List String
fixed_texts = "Resource not found" ∷ "Unique constraint violation" ∷ "Internal server error" ∷ []

-- What is neither a domain error nor an `HttpException` must not be shown.
abbrev pub IsInternal : Thrown → Type 0
IsInternal (domain e) = ⊥
IsInternal (http status body message) = ⊥
IsInternal (known_request code) = Unit
IsInternal type_error = Unit

-- The response of an internal error: it is logged, with its original; its text is fixed, and under
-- the status 500 and the level error, which come together, it says no more than that.
abbrev pub IsMasked : ClassifiedError → Type 0
IsMasked c =
    Memᴰ c.message fixed_texts
    × (c.log_original ≡ true)
    × (c.log_level ≢ LogLevel.silent)
    × (c.log_level ≡ LogLevel.error → (c.status ≡ 500) × (c.message ≡ "Internal server error"))
    × (c.status ≡ 500 → c.message ≡ "Internal server error")

request-IsMasked : (code own : String) → IsMasked (classify_request code own)
unfolding classify_request
request-IsMasked code own = elim (Bool-cases (str_eq code "P2025")) [
  | inl e ↦ rw e (Memᴰ.head refl, refl, (λ x. cc), (λ x. cc), (λ x. absurd (omega (arith, x))))
  | inr e ↦ elim (Bool-cases (str_eq code "P2002")) [
    | inl f ↦
        rw (e, f)
          (Memᴰ.tail (Memᴰ.head refl), refl, (λ x. cc), (λ x. cc), (λ x. absurd (omega (arith, x))))
    | inr f ↦
        rw (e, f)
          (
            Memᴰ.tail (Memᴰ.tail (Memᴰ.head refl)),
            refl,
            (λ x. cc),
            (λ x. (refl, refl)),
            (λ x. refl),
          )
  ]
]

request_same : (code own other : String) → classify_request code own ≡ classify_request code other
unfolding classify_request
request_same code own other = refl

-- Whatever texts ids and numbers have: where a thrown value is neither a domain error nor an
-- `HttpException`, the response does not depend on the value's own message. Its text is one of
-- three fixed ones, it asks to log the original, its level is not silent, and the level error and
-- the status 500 both come with the text "Internal server error" only.
pub classify_exception-IsMasked :
    (id_text number_text : ℕ → String) (x : Exception)
    → IsInternal x.thrown
    → IsMasked (classify_exception id_text number_text x)
      × ((other : String)
          → classify_exception id_text number_text (record x { own_message = other })
            ≡ classify_exception id_text number_text x)
unfolding classify_exception classify_thrown
classify_exception-IsMasked id_text number_text x internal = go x.thrown x.own_message internal
  where
    go :
        (e : Thrown) (own : String)
        → IsInternal e
        → IsMasked (classify_thrown id_text number_text e own)
          × ((other : String)
              → classify_thrown id_text number_text e other
                ≡ classify_thrown id_text number_text e own)
    go (domain e) own h = absurd h
    go (http status body message) own h = absurd h
    go (known_request code) own h =
        (request-IsMasked code own, λ other. request_same code other own)
    go type_error own h = (
      (Memᴰ.tail (Memᴰ.tail (Memᴰ.head refl)), refl, (λ x. cc), (λ x. (refl, refl)), (λ x. refl)),
      λ other. refl,
    )
