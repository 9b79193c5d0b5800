-- ===== src/RateLimit/Exact.antt =====
-- Whole numbers below 2 ^ 53 are exact in the floating-point arithmetic of src/infra/rate_limit.rs.
use alfavibe_hack.Prelude.{
  ℕ, zero, suc, ◌-◌, ◌*◌, ◌^◌, ◌<◌, ◌≡◌, refl, sym, ap, subst, ltb, Bool-cases, inl, inr, arith,
  true,
}
use native.Mathlib.Nat.{
  mul_assoc, mul_comm, mul-div_cancel, mul-lt-mul_of_pos_right, pow-suc, mul-mod_left, mul-one,
  one-le-pow, zero-div, zero-mod, zero-mul, suc-mul, add-zero, add-sub_cancel, sub_self,
}
use alfavibe_hack.RateLimit.Float64.{
  add, as_secs, div, mul, nearest, of_u64, one, round, round_from, sub,
}

nearest_mul : (m d : ℕ) → 0 < d → nearest (m * d) d ≡ m
unfolding nearest
nearest_mul m d pos =
    let small : ltb 0 d ≡ true = ground arith in
    rw (mul-mod_left m d, mul-div_cancel m pos, small) refl

nearest_zero : (d : ℕ) → nearest 0 d ≡ 0
unfolding nearest
nearest_zero zero = refl
nearest_zero (suc d) =
    let small : ltb 0 (suc d) ≡ true = ground arith in
    rw (zero-mod (suc d), zero-div (suc d), small) refl

pow_pos : (e : ℕ) → 0 < 2 ^ e
pow_pos e = one-le-pow e 2 (omega arith)

exact_here : (e m : ℕ) → nearest (m * 2 ^ e) (2 ^ e * 1) * 2 ^ e ≡ m * 2 ^ e
exact_here e m = rw (mul-one (2 ^ e), nearest_mul m (2 ^ e) (pow_pos e)) refl

shifted : (e k n : ℕ) → n * 2 ^ suc k * 2 ^ e ≡ n * 2 ^ k * 2 ^ suc e
shifted e k n =
    rw
      (
        pow-suc 2 k,
        pow-suc 2 e,
        mul_assoc n (2 ^ k * 2) (2 ^ e),
        mul_assoc (2 ^ k) 2 (2 ^ e),
        mul_comm 2 (2 ^ e),
      )
      (sym (mul_assoc n (2 ^ k) (2 ^ e * 2)))

exact_from :
    (fuel e k n : ℕ) → n < 2 ^ 53 → round_from fuel e (n * 2 ^ k * 2 ^ e) 1 ≡ n * 2 ^ k * 2 ^ e
unfolding round_from
exact_from zero e k n small = exact_here e (n * 2 ^ k)
exact_from (suc fuel) e zero n small =
    let scaled : n * 2 ^ e < 2 ^ 53 * 2 ^ e = mul-lt-mul_of_pos_right small (pow_pos e) in
    let fits : ltb (n * 2 ^ e) (2 ^ 53 * 2 ^ e) ≡ true = ground arith in
    rw
      (
        mul-one n,
        mul-one (2 ^ e),
        fits,
        ap (λ x. nearest (n * 2 ^ e) x * 2 ^ e) (sym (mul-one (2 ^ e))),
      )
      (exact_here e n)
exact_from (suc fuel) e (suc k) n small =
    let later = exact_from fuel (suc e) k n small in
    elim (Bool-cases (ltb (n * 2 ^ suc k * 2 ^ e) (2 ^ 53 * (2 ^ e * 1)))) [
      | inl fits ↦ rw fits (exact_here e (n * 2 ^ suc k))
      | inr over ↦
          rw over (subst (λ x. round_from fuel (suc e) x 1 ≡ x) (sym (shifted e k n)) later)
    ]

pub round-zero : (fuel e d : ℕ) → round_from fuel e 0 d ≡ 0
unfolding round_from
round-zero zero e d = rw (nearest_zero (2 ^ e * d)) (zero-mul (2 ^ e))
round-zero (suc fuel) e d = elim (Bool-cases (ltb 0 (2 ^ 53 * (2 ^ e * d)))) [
  | inl fits ↦ rw (fits, nearest_zero (2 ^ e * d)) (zero-mul (2 ^ e))
  | inr over ↦ rw (over, round-zero fuel (suc e) d) refl
]

pub exact_whole : (n : ℕ) → n < 2 ^ 53 → round (n * one) 1 ≡ n * one
unfolding round
exact_whole n small =
    subst (λ x. round_from 400 0 x 1 ≡ x) (mul-one (n * one)) (exact_from 400 0 256 n small)

pub of_u64_exact : (n : ℕ) → n < 2 ^ 53 → of_u64 n ≡ n * one
unfolding of_u64
of_u64_exact n small = exact_whole n small

pub add_none : (n : ℕ) → n < 2 ^ 53 → add (n * one) 0 ≡ n * one
unfolding add
add_none n small = rw (add-zero (n * one)) (exact_whole n small)

pub sub_one : (n : ℕ) → n < 2 ^ 53 → sub (suc n * one) one ≡ n * one
unfolding sub
sub_one n small = rw (suc-mul n one, add-sub_cancel (n * one) one) (exact_whole n small)

-- Nothing comes to a bucket in no time.
pub mul_none : (t x : ℕ) → mul (as_secs (t - t)) x ≡ 0
unfolding mul as_secs round add of_u64 div
mul_none t x = rw (sub_self t, zero-mul x) (round-zero 400 0 one)
