-- ===== src/RateLimit/Float64.antt =====
-- The floating-point numbers of src/infra/rate_limit.rs, which are not negative. A value is written
-- as its multiple of 2 ^ -256: the values that the limiter comes to are 0 or at least 2 ^ -117, and so
-- are multiples of 2 ^ -170. A result that is no value of `f64` is rounded to 53 binary digits.
use alfavibe_hack.Prelude.{ℕ, zero, suc, ◌+◌, ◌-◌, ◌*◌, ◌/◌, ◌%◌, ◌^◌, ltb, eqb, if◌then◌else◌}

-- 1.0
abbrev pub one : ℕ
one = 2 ^ 256

-- A quotient to the nearest number, and to an even one from the middle.
unfoldable pub nearest : ℕ → ℕ → ℕ
nearest n d =
    if ltb (2 * (n % d)) d
    then n / d
    else if ltb d (2 * (n % d))
    then suc (n / d)
    else if eqb (n / d % 2) 0
    then n / d
    else suc (n / d)

-- The quotient with at most 53 binary digits, tried from the place `e` on. No result here has more
-- than 400 digits.
unfoldable pub round_from : ℕ → ℕ → ℕ → ℕ → ℕ
unfolding nearest
round_from zero e n d = nearest n (2 ^ e * d) * 2 ^ e
round_from (suc fuel) e n d =
    let more = round_from fuel (suc e) n d in
    if ltb n (2 ^ 53 * (2 ^ e * d)) then nearest n (2 ^ e * d) * 2 ^ e else more

unfoldable pub round : ℕ → ℕ → ℕ
unfolding round_from
round n d = round_from 400 0 n d

-- `n as f64` of a `u64`
unfoldable pub of_u64 : ℕ → ℕ
of_u64 n = round (n * one) 1

unfoldable pub add : ℕ → ℕ → ℕ
add a b = round (a + b) 1

-- For `b` not above `a`.
unfoldable pub sub : ℕ → ℕ → ℕ
sub a b = round (a - b) 1

unfoldable pub mul : ℕ → ℕ → ℕ
mul a b = round (a * b) one

-- For `b` that is not 0.
unfoldable pub div : ℕ → ℕ → ℕ
div a b = round (a * one) b

abbrev pub nanos_per_sec : ℕ
nanos_per_sec = 1000000000

-- `Duration::as_secs_f64` of nanoseconds
unfoldable pub as_secs : ℕ → ℕ
unfolding of_u64 add div
as_secs ns =
    add (of_u64 (ns / nanos_per_sec)) (div (of_u64 (ns % nanos_per_sec)) (of_u64 nanos_per_sec))

-- `Duration::from_secs_f64`, in nanoseconds
unfoldable pub from_secs : ℕ → ℕ
unfolding nearest
from_secs x = nearest (x * nanos_per_sec) one
