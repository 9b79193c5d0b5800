-- ===== src/Mask/Synthetic.antt =====
-- The generated numbers of `SyntheticMasker::mask` in src/service/mask.rs.
pub mod Card
pub mod Number
use alfavibe_hack.Prelude.{
  ◌>>=◌, ℕ, zero, suc, ◌+◌, ◌-◌, ◌*◌, ◌/◌, ◌%◌, Bool, true, not, List, [], ◌∷◌, ◌++◌, Option, none,
  some, reverse, Text, utf8, length, take, drop, slice, decimal,
}
use alfavibe_hack.Validators.{luhn_term, weighted, inn12_weights_1, inn12_weights_2}

-- `for _ in 0..n { digits.push('0' + s % 10); s /= 10; }`
unfoldable pub seed_digits : ℕ → ℕ → Text
seed_digits zero s = []
seed_digits (suc n) s = (b'0' + s % 10) ∷ seed_digits n (s / 10)

-- The sum over the reversed digits, the last one doubled.
unfoldable pub check_sum : ℕ → Bool → Text → ℕ
unfolding luhn_term
check_sum sum double [] = sum
check_sum sum double (c ∷ cs) = check_sum (sum + luhn_term double (c - b'0')) (not double) cs

unfoldable pub card_digits : ℕ → Text
unfolding seed_digits check_sum
card_digits s =
    let digits = seed_digits 15 s in
    digits ++ decimal ((10 - check_sum 0 true (reverse digits) % 10) % 10)

-- `chunks(4)`, on fuel: the length is enough.
chunks : ℕ → Text → List Text
chunks zero text = []
chunks (suc fuel) [] = []
chunks (suc fuel) (c ∷ cs) = take 4 (c ∷ cs) ∷ chunks fuel (drop 4 (c ∷ cs))

-- `join(" ")`
join : List Text → Text
join [] = []
join (t ∷ []) = t
join (t ∷ u ∷ ts) = t ++ (b' ' ∷ join (u ∷ ts))

group_by_four : Text → Text
unfolding chunks join
group_by_four full = join (chunks (length full) full)

unfoldable pub synthetic_card : ℕ → Text
unfolding group_by_four
synthetic_card s = group_by_four (card_digits s)

unfoldable pub synthetic_phone : ℕ → Text
unfolding seed_digits
synthetic_phone s =
    let digits = utf8 "79" ++ seed_digits 10 s in
    utf8 "+7 ("
    ++ slice 2 5 digits
    ++ utf8 ") "
    ++ slice 5 8 digits
    ++ utf8 "-"
    ++ slice 8 10 digits
    ++ utf8 "-"
    ++ slice 10 12 digits

-- Ten digits and both check digits; `none` would be a panic.
unfoldable pub complete_inn : Text → Option Text
complete_inn digits = do
  sum1 ← weighted inn12_weights_1 digits
  let c1 = sum1 % 11 % 10
  sum2 ← weighted inn12_weights_2 (digits ++ (b'0' + c1) ∷ [])
  some (digits ++ (decimal c1 ++ decimal (sum2 % 11 % 10)))

unfoldable pub synthetic_inn : ℕ → Option Text
unfolding complete_inn
synthetic_inn s = complete_inn (seed_digits 10 s)
