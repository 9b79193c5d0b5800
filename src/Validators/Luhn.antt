-- ===== src/Validators/Luhn.antt =====
-- The Luhn test of src/service/detect/validators.rs finds every wrong digit.
use alfavibe_hack.Prelude.{
  ℕ, suc, ◌+◌, ◌-◌, ◌*◌, ◌%◌, ◌^◌, ◌<◌, ◌≤◌, length, length-append, ◌≡◌, refl, Bool, true, false,
  not, sym, ◌∙◌, eqb_iff, List, [], ◌∷◌, ◌++◌, reverse, Text, eqb, is_ascii_digit, All, All-reverse,
  arith, append_assoc,
}
use mathlib.Core.List.{reverse-append, reverse-cons}
use native.Mathlib.Nat.{add_assoc, add-zero, zero-add}
use alfavibe_hack.Validators.{luhn_term, luhn_loop, luhn_valid}

abbrev pub IsDigit : ℕ → Type 0
IsDigit c = is_ascii_digit c ≡ true

-- The sum that the loop adds up.
abbrev pub luhn_sum : Bool → Text → ℕ
luhn_sum double [] = 0
luhn_sum double (c ∷ cs) = luhn_term double (c - b'0') + luhn_sum (not double) cs

-- A term is at most 9, so that the sum does not wrap below 2 ^ 32 / 9 digits.
luhn_term-wraps_not :
    (sum c n : ℕ) (double : Bool)
    → IsDigit c
    → sum + 9 * suc n < 2 ^ 32
    → (sum + luhn_term double (c - b'0')) % 2 ^ 32 ≡ sum + luhn_term double (c - b'0')
      × sum + luhn_term double (c - b'0') + 9 * n < 2 ^ 32
unfolding luhn_term
luhn_term-wraps_not sum c n double d small =
    let term : luhn_term double (c - b'0') ≤ 9 = ground arith in (omega arith, omega arith)

pub luhn_loop-sum :
    (sum : ℕ) (double : Bool) (cs : Text)
    → All IsDigit cs
    → sum + 9 * length cs < 2 ^ 32
    → luhn_loop sum double cs ≡ eqb ((sum + luhn_sum double cs) % 10) 0
unfolding luhn_loop
luhn_loop-sum sum double [] h small = rw add-zero refl
luhn_loop-sum sum double (c ∷ cs) (d, h) small =
    let (same, small') = luhn_term-wraps_not sum c (length cs) double d small in
    rw (d, same, luhn_loop-sum (sum + luhn_term double (c - b'0')) (not double) cs h small')
      (rw add_assoc refl)

-- The parity after `cs`.
abbrev flips : Bool → Text → Bool
flips double [] = double
flips double (c ∷ cs) = flips (not double) cs

luhn_sum-append :
    (double : Bool) (xs ys : Text)
    → luhn_sum double (xs ++ ys) ≡ luhn_sum double xs + luhn_sum (flips double xs) ys
luhn_sum-append double [] ys = omega arith
luhn_sum-append double (c ∷ xs) ys = omega (arith, luhn_sum-append (not double) xs ys)

-- The terms of two digits agree modulo 10 only if the digits do.
luhn_term_injective :
    (double : Bool) (a b n : ℕ)
    → a < 10
    → b < 10
    → (luhn_term double a + n) % 10 ≡ 0
    → (luhn_term double b + n) % 10 ≡ 0
    → a ≡ b
unfolding luhn_term
luhn_term_injective true a b n p q h k = ground arith
luhn_term_injective false a b n p q h k = omega arith

length-reverse {ℓ} : {A : Type ℓ} (xs : List A) → length (reverse xs) ≡ length xs
length-reverse [] = refl
length-reverse (x ∷ xs) =
    rw (reverse-cons x xs) (omega (arith, length-append (reverse xs) (x ∷ []), length-reverse xs))

-- The test of a text of digits is the test of its sum.
pub luhn_valid-sum :
    (ds : Text)
    → All IsDigit ds
    → 9 * length ds < 2 ^ 32
    → luhn_valid ds ≡ eqb (luhn_sum false (reverse ds) % 10) 0
unfolding luhn_valid
luhn_valid-sum ds h small =
    let fits : 0 + 9 * length (reverse ds) < 2 ^ 32 = omega (arith, length-reverse ds) in
    rw (luhn_loop-sum 0 false (reverse ds) (All-reverse IsDigit ds h) fits) (rw zero-add refl)

reverse-middle : (xs ys : Text) (a : ℕ) → reverse (xs ++ a ∷ ys) ≡ reverse ys ++ a ∷ reverse xs
reverse-middle xs ys a = simp (reverse-append, reverse-cons, append_assoc)

-- The sum with one digit singled out.
luhn_sum-middle :
    (xs ys : Text) (a : ℕ)
    → luhn_sum false (reverse (xs ++ a ∷ ys))
      ≡ luhn_term (flips false (reverse ys)) (a - b'0')
        + (luhn_sum false (reverse ys) + luhn_sum (not (flips false (reverse ys))) (reverse xs))
luhn_sum-middle xs ys a =
    rw (reverse-middle xs ys a) (omega (arith, luhn_sum-append false (reverse ys) (a ∷ reverse xs)))

All-middle {κ} : {A : Type 0} (P : A → Type κ) (xs ys : List A) (a : A) → All P (xs ++ a ∷ ys) → P a
All-middle P [] ys a h = h.0
All-middle P (x ∷ xs) ys a h = All-middle P xs ys a h.1

digit-lt : (c : ℕ) → IsDigit c → c - b'0' < 10
digit-lt c p = ground arith

sum_of_valid :
    (ds : Text)
    → All IsDigit ds
    → 9 * length ds < 2 ^ 32
    → luhn_valid ds ≡ true
    → luhn_sum false (reverse ds) % 10 ≡ 0
sum_of_valid ds h small v = (eqb_iff _ _).0 (sym (luhn_valid-sum ds h small) ∙ v)

-- No two texts of digits that differ in exactly one place both pass the Luhn test: a single wrong
-- digit is always found, in texts of fewer than 2 ^ 32 / 9 digits.
pub luhn_valid_single_error :
    (xs ys : Text) (a b : ℕ)
    → All IsDigit (xs ++ a ∷ ys)
    → All IsDigit (xs ++ b ∷ ys)
    → 9 * length (xs ++ a ∷ ys) < 2 ^ 32
    → luhn_valid (xs ++ a ∷ ys) ≡ true
    → luhn_valid (xs ++ b ∷ ys) ≡ true
    → a ≡ b
luhn_valid_single_error xs ys a b da db small va vb =
    digits_agree (All-middle IsDigit xs ys a da) (All-middle IsDigit xs ys b db) (
      luhn_term_injective double (a - b'0') (b - b'0') rest
        (digit-lt _ (All-middle IsDigit xs ys a da)) (digit-lt _ (All-middle IsDigit xs ys b db))
        (rw (luhn_sum-middle xs ys a) at (sum_of_valid _ da small va))
        (rw (luhn_sum-middle xs ys b) at (sum_of_valid _ db small' vb)))
  where
    small' : 9 * length (xs ++ b ∷ ys) < 2 ^ 32
    small' = omega (arith, length-append xs (a ∷ ys), length-append xs (b ∷ ys))

    double : Bool
    double = flips false (reverse ys)

    rest : ℕ
    rest = luhn_sum false (reverse ys) + luhn_sum (not double) (reverse xs)

    digits_agree : IsDigit a → IsDigit b → a - b'0' ≡ b - b'0' → a ≡ b
    digits_agree p q e = ground arith
