-- ===== src/Catalog/Doubles.antt =====
-- The JavaScript arithmetic on quantities in pricing.ts: IEEE doubles that are finite and not
-- negative, each counted in units of 2 ^ -1074, the least double, so that every double is a ℕ.
-- Every operation gives the double nearest to the exact result, and the even one of two that are
-- equally near. Results of 2 ^ 1024 and more, which would be Infinity, are not rounded to it.
use Prim.Native.Nat.{◌%◌, ◌^◌}
use laundry_api.Base.{ℕ, zero, suc, ◌+◌, ◌-◌, ◌*◌, ◌/◌, ltb, if◌then◌else◌}

-- The double 1.
abbrev pub one : ℕ
one = 2 ^ 1074

-- How many binary digits `n` has beyond the 53 of a double. A double below 2 ^ 1024 has at most
-- 2045 of them.
unfoldable pub excess : ℕ → ℕ → ℕ
excess zero n = 0
excess (suc fuel) n = let rest = excess fuel (n / 2) in if ltb n (2 ^ 53) then 0 else 1 + rest

-- `a / b` to the nearest multiple of the divisor, ties to even.
abbrev pub nearest : ℕ → ℕ → ℕ
nearest a b =
    let q = a / b in
    let twice = 2 * (a % b) in if ltb twice b then q else if ltb b twice then q + 1 else q + q % 2

-- The double nearest to the fraction `a / b`.
unfoldable pub round : ℕ → ℕ → ℕ
round a b = let scale = 2 ^ excess 2046 (a / b) in nearest a (b * scale) * scale

-- `Math.max(x - y, 0)`.
abbrev pub minus : ℕ → ℕ → ℕ
minus x y = round (x - y) 1

-- `x / y`, for a positive `y`.
abbrev pub divide : ℕ → ℕ → ℕ
divide x y = round (x * one) y

-- `Math.ceil(x)`, as a whole number.
abbrev pub ceil : ℕ → ℕ
ceil x = (x + (one - 1)) / one

-- `Number(text)`, for the text of a decimal with two places, given in hundredths.
abbrev pub number : ℕ → ℕ
number hundredths = round (hundredths * one) 100
