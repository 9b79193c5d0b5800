-- ===== src/Mask/Synthetic/Card.antt =====
-- The card numbers that `SyntheticMasker::mask` of src/service/mask.rs makes pass the Luhn test.
use mathlib.Core.List.{reverse-append}
use native.Mathlib.Nat.{add_assoc, add-zero}
use alfavibe_hack.Prelude.{
  ℕ, zero, suc, ◌+◌, ◌-◌, ◌%◌, ◌/◌, ◌≤◌, ◌<◌, ◌≡◌, refl, sym, ap, ◌∙◌, Bool, true, false, not, List,
  [], ◌∷◌, ◌++◌, reverse, Text, utf8, is_ascii_digit, digits_of, take, drop, length, All,
  All-append, arith, length-append, length-drop, take-append-drop, Bool-cases, inl, inr, eqb,
  ◌≡⟨◌⟩◌, ◌∎, append-nil, decimal_digit,
}
use alfavibe_hack.Validators.{luhn_term, luhn_validate, luhn_valid, valid}
use alfavibe_hack.Validators.Luhn.{IsDigit, luhn_sum, luhn_valid-sum}
use alfavibe_hack.Mask.Synthetic.{
  seed_digits, check_sum, card_digits, chunks, join, group_by_four, synthetic_card,
}

pub seed_digits-All : (n s : ℕ) → All IsDigit (seed_digits n s)
unfolding seed_digits
seed_digits-All zero s = tt
seed_digits-All (suc n) s = (ground arith, seed_digits-All n (s / 10))

pub length-seed_digits : (n s : ℕ) → length (seed_digits n s) ≡ n
unfolding seed_digits
length-seed_digits zero s = refl
length-seed_digits (suc n) s = ap suc (length-seed_digits n (s / 10))

pub digits_of-append : (xs ys : Text) → digits_of (xs ++ ys) ≡ digits_of xs ++ digits_of ys
unfolding digits_of
digits_of-append [] ys = refl
digits_of-append (x ∷ xs) ys = elim (Bool-cases (is_ascii_digit x)) [
  | inl d ↦ rw d (ap (λ zs. x ∷ zs) (digits_of-append xs ys))
  | inr o ↦ rw o (digits_of-append xs ys)
]

pub digits_of_digits : (xs : Text) → All IsDigit xs → digits_of xs ≡ xs
unfolding digits_of
digits_of_digits [] h = refl
digits_of_digits (x ∷ xs) (d, h) = rw d (ap (λ zs. x ∷ zs) (digits_of_digits xs h))

digits_of-join-cons :
    (t : Text) (ts : List Text) → digits_of (join (t ∷ ts)) ≡ digits_of t ++ digits_of (join ts)
unfolding join digits_of
digits_of-join-cons t [] = sym (append-nil _)
digits_of-join-cons t (u ∷ ts) = digits_of-append t (utf8 " " ++ join (u ∷ ts))

-- Grouping by four leaves the digits as they are.
digits_of-join-chunks :
    (fuel : ℕ) (xs : Text) → length xs ≤ fuel → digits_of (join (chunks fuel xs)) ≡ digits_of xs
unfolding chunks
digits_of-join-chunks zero [] h = unfold join digits_of in refl
digits_of-join-chunks zero (x ∷ xs) h = elim h [ ]
digits_of-join-chunks (suc fuel) [] h = unfold join digits_of in refl
digits_of-join-chunks (suc fuel) (x ∷ xs) h =
    digits_of (join (take 4 (x ∷ xs) ∷ chunks fuel (drop 4 (x ∷ xs))))
    ≡⟨ digits_of-join-cons (take 4 (x ∷ xs)) (chunks fuel (drop 4 (x ∷ xs))) ⟩
      digits_of (take 4 (x ∷ xs)) ++ digits_of (join (chunks fuel (drop 4 (x ∷ xs))))
    ≡⟨ ap (λ t. digits_of (take 4 (x ∷ xs)) ++ t)
        (digits_of-join-chunks fuel (drop 4 (x ∷ xs)) (omega (arith, length-drop 4 (x ∷ xs)))) ⟩
      digits_of (take 4 (x ∷ xs)) ++ digits_of (drop 4 (x ∷ xs))
    ≡⟨ sym (digits_of-append (take 4 (x ∷ xs)) (drop 4 (x ∷ xs))) ⟩
      digits_of (take 4 (x ∷ xs) ++ drop 4 (x ∷ xs))
    ≡⟨ ap digits_of (take-append-drop 4 (x ∷ xs)) ⟩ digits_of (x ∷ xs) ∎

digits_of-group : (full : Text) → digits_of (group_by_four full) ≡ digits_of full
unfolding group_by_four
digits_of-group full = digits_of-join-chunks (length full) full (omega arith)

luhn_validate_of :
    (raw ds : Text)
    → digits_of raw ≡ ds
    → 13 ≤ length ds
    → length ds ≤ 19
    → luhn_valid ds ≡ true
    → luhn_validate raw ≡ valid
unfolding luhn_validate
luhn_validate_of raw ds e low high v = rw (e, v) (ground arith)

check_sum-eq :
    (sum : ℕ) (double : Bool) (cs : Text) → check_sum sum double cs ≡ sum + luhn_sum double cs
unfolding check_sum
check_sum-eq sum double [] = sym (add-zero sum)
check_sum-eq sum double (c ∷ cs) =
    check_sum-eq (sum + luhn_term double (c - b'0')) (not double) cs
    ∙ add_assoc sum (luhn_term double (c - b'0')) (luhn_sum (not double) cs)

-- A check digit that is the complement of the sum brings it to 0.
check_closes :
    (c sum total : ℕ)
    → c ≡ (10 - total % 10) % 10
    → total ≡ 0 + sum
    → eqb ((luhn_term false (b'0' + c - b'0') + sum) % 10) 0 ≡ true
unfolding luhn_term
check_closes c sum total p q = ground arith

module _ (s : ℕ) where
  abbrev body : Text
  body = seed_digits 15 s

  abbrev check : ℕ
  check = (10 - check_sum 0 true (reverse body) % 10) % 10

  card_digits-eq : card_digits s ≡ body ++ (b'0' + check) ∷ []
  unfolding card_digits
  card_digits-eq = ap (λ t. body ++ t) (decimal_digit check (omega arith))

  card_digits-All : All IsDigit (card_digits s)
  card_digits-All =
      rw card_digits-eq
        (All-append IsDigit body _ (seed_digits-All 15 s) (check-IsDigit check (omega arith), tt))
    where
      check-IsDigit : (c : ℕ) → c < 10 → IsDigit (b'0' + c)
      check-IsDigit c h = ground arith

  length-card_digits : length (card_digits s) ≡ 16
  length-card_digits =
      rw card_digits-eq
        (omega (arith, length-append body ((b'0' + check) ∷ []), length-seed_digits 15 s))

  luhn_valid-card_digits : luhn_valid (card_digits s) ≡ true
  luhn_valid-card_digits =
      luhn_valid-sum (card_digits s) card_digits-All (omega (arith, length-card_digits))
      ∙ rw (card_digits-eq, reverse-append)
          (check_closes check (luhn_sum true (reverse body)) _ refl
            (check_sum-eq 0 true (reverse body)))

-- Whatever the seed, the generated card number is one that the validator accepts.
pub synthetic_card-valid : (s : ℕ) → luhn_validate (synthetic_card s) ≡ valid
unfolding synthetic_card
synthetic_card-valid s =
    luhn_validate_of (synthetic_card s) (card_digits s)
      (digits_of-group (card_digits s) ∙ digits_of_digits _ (card_digits-All s))
      (omega (arith, length-card_digits s)) (omega (arith, length-card_digits s))
      (luhn_valid-card_digits s)
