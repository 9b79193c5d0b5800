-- ===== src/Prelude/Numbers.antt =====
-- `str::parse::<usize>()`: decimal digits, perhaps after a plus, below 2 ^ 64.
use Prim.Native.Nat.{ℕ, zero, suc, ◌+◌, ◌-◌, ◌*◌, ◌/◌, ◌%◌, ◌<◌, ◌^◌}
use mathlib.Core.Path.{◌≡◌, refl}
use mathlib.Core.Logic.{◌≢◌, inl, inr}
use mathlib.Core.Bool.{true}
use mathlib.Core.Option.{Option, none, some}
use mathlib.Core.List.{[], ◌∷◌, ◌++◌}
use native.Mathlib.Omega.{arith}
use alfavibe_hack.Prelude.Tests.{eqb, ltb, if◌then◌else◌, Bool-cases}
use alfavibe_hack.Prelude.Lists.{All, All-append}
use alfavibe_hack.Prelude.Options.{◌>>=◌}
use alfavibe_hack.Prelude.Texts.{Text, is_ascii_digit, decimal, decimal_from}

abbrev usize_limit : ℕ
usize_limit = 2 ^ 64

-- The digits are added to `n`; `none` for another byte and for a number that is too large.
unfoldable pub digits_from : ℕ → Text → Option ℕ
digits_from n [] = some n
digits_from n (c ∷ cs) =
    let rest = digits_from (10 * n + (c - b'0')) cs in
    if is_ascii_digit c
    then (if ltb (10 * n + (c - b'0')) usize_limit then rest else none)
    else none

abbrev some_digits : Text → Option ℕ
some_digits [] = none
some_digits (c ∷ cs) = digits_from 0 (c ∷ cs)

unfoldable pub parse_usize : Text → Option ℕ
unfolding digits_from
parse_usize [] = none
parse_usize (c ∷ cs) = if eqb c b'+' then some_digits cs else some_digits (c ∷ cs)

-- Digits one after the other.
digits_from-append :
    (a : ℕ) (xs ys : Text) → digits_from a (xs ++ ys) ≡ (digits_from a xs >>= λ b. digits_from b ys)
unfolding digits_from
digits_from-append a [] ys = refl
digits_from-append a (x ∷ xs) ys = ground (arith, digits_from-append (10 * a + (x - b'0')) xs ys)

digits_from-decimal_from :
    (f n : ℕ) → n < 10 ^ f → n < 2 ^ 64 → digits_from 0 (decimal_from f n) ≡ some n
unfolding digits_from decimal_from
digits_from-decimal_from zero n h small = ground arith
digits_from-decimal_from (suc f) n h small = ground (
  arith,
  digits_from-append 0 (decimal_from f (n / 10)) ((b'0' + n % 10) ∷ []),
  digits_from-decimal_from f (n / 10),
)

decimal_from-digits : (f n : ℕ) → All (λ c. is_ascii_digit c ≡ true) (decimal_from f n)
unfolding decimal_from
decimal_from-digits zero n = tt
decimal_from-digits (suc f) n = elim (Bool-cases (ltb n 10)) [
  | inl one ↦ rw one (ground arith, tt)
  | inr more ↦ rw more (
      All-append (λ c. is_ascii_digit c ≡ true) (decimal_from f (n / 10)) _
        (decimal_from-digits f (n / 10)) (ground arith, tt))
]

decimal_from-nonempty : (f n : ℕ) → decimal_from (suc f) n ≢ []
unfolding decimal_from
decimal_from-nonempty f n h = elim (Bool-cases (ltb n 10)) [
  | inl one ↦ ground arith
  | inr more ↦ nonempty (decimal_from f (n / 10)) (b'0' + n % 10) (ground arith)
]
  where
    nonempty : (xs : Text) (c : ℕ) → (xs ++ c ∷ []) ≡ [] → ⊥
    nonempty [] c g = cc
    nonempty (x ∷ xs) c g = cc

pub decimal-digits : (n : ℕ) → All (λ c. is_ascii_digit c ≡ true) (decimal n)
unfolding decimal
decimal-digits n = decimal_from-digits 20 n

pub decimal-nonempty : (n : ℕ) → decimal n ≢ []
unfolding decimal
decimal-nonempty n = decimal_from-nonempty 19 n

-- A number below 2 ^ 64 that is written out is read back.
pub parse_usize-decimal : (n : ℕ) → n < 2 ^ 64 → parse_usize (decimal n) ≡ some n
unfolding parse_usize
parse_usize-decimal n h = read (decimal n) (decimal-digits n) (decimal-nonempty n) (by_digits n h)
  where
    by_digits : (n : ℕ) → n < 2 ^ 64 → digits_from 0 (decimal n) ≡ some n
    by_digits n h = unfold decimal in digits_from-decimal_from 20 n (omega arith) h

    read :
        (ds : Text)
        → All (λ c. is_ascii_digit c ≡ true) ds
        → ds ≢ []
        → digits_from 0 ds ≡ some n
        → parse_usize ds ≡ some n
    read [] all some_ g = absurd (some_ refl)
    read (d ∷ ds) all some_ g = ground arith
