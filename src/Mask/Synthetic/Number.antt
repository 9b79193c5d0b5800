-- ===== src/Mask/Synthetic/Number.antt =====
-- The numbers that `SyntheticMasker::mask` of src/service/mask.rs makes for an INN pass its checksum.
use alfavibe_hack.Prelude.{
  ◌>>=◌, ℕ, ◌+◌, ◌%◌, ◌≤◌, ◌<◌, ◌≡◌, refl, sym, true, List, [], ◌∷◌, ◌++◌, some, Text, length, All,
  All-append, arith, length-append, eqb, get_elem?, append_assoc, decimal_digit,
}
use alfavibe_hack.Validators.{
  weighted, to_digit, digit_at, check_digit, inn12_weights_1, inn12_weights_2, inn12_valid,
  inn_validate, valid,
}
use alfavibe_hack.Validators.Luhn.{IsDigit}
use alfavibe_hack.Validators.Inn.{weighted-Runs}
use alfavibe_hack.Mask.Synthetic.{seed_digits, complete_inn, synthetic_inn}
use alfavibe_hack.Mask.Synthetic.Card.{seed_digits-All, length-seed_digits, digits_of_digits}

-- Digits behind the weighted ones do not count.
weighted-append :
    (ks : List ℕ) (ds es : Text) → length ks ≤ length ds → weighted ks (ds ++ es) ≡ weighted ks ds
unfolding weighted
weighted-append [] [] es h = refl
weighted-append [] (d ∷ ds) es h = refl
weighted-append (k ∷ ks) [] es h = elim h [ ]
weighted-append (k ∷ ks) (d ∷ ds) es h = rw (weighted-append ks ds es (omega arith))

get_elem?-append : (ds : Text) (x : ℕ) (es : Text) → get_elem? (ds ++ x ∷ es) (length ds) ≡ some x
get_elem?-append [] x es = refl
get_elem?-append (d ∷ ds) x es = get_elem?-append ds x es

IsDigit-add : (c : ℕ) → c < 10 → IsDigit (b'0' + c)
IsDigit-add c h = ground arith

digit_passes : (c : ℕ) → c < 10 → (to_digit (b'0' + c) >>= λ given. some (eqb c given)) ≡ some true
unfolding to_digit
digit_passes c h = ground arith

-- A digit written behind `ds` that is the control number of `ds` passes.
check_digit-append :
    (ks : List ℕ) (ds es : Text) (n sum : ℕ)
    → n ≡ length ds
    → length ks ≤ length ds
    → weighted ks ds ≡ some sum
    → check_digit ks (ds ++ (b'0' + sum % 11 % 10) ∷ es) n ≡ some true
unfolding check_digit digit_at
check_digit-append ks ds es n sum e h w =
    rw
      (
        e,
        weighted-append ks ds ((b'0' + sum % 11 % 10) ∷ es) h,
        w,
        get_elem?-append ds (b'0' + sum % 11 % 10) es,
      )
      (digit_passes (sum % 11 % 10) (omega arith))

inn_validate_of :
    (ds : Text)
    → All IsDigit ds
    → length ds ≡ 12
    → check_digit inn12_weights_1 ds 10 ≡ some true
    → check_digit inn12_weights_2 ds 11 ≡ some true
    → inn_validate ds ≡ some valid
unfolding inn_validate inn12_valid
inn_validate_of ds h n p q = rw (digits_of_digits ds h, n, p, q) refl

module _ (ds : Text) (h : All IsDigit ds) (ten : length ds ≡ 10) where
  abbrev c₁ : ℕ
  c₁ = (weighted-Runs inn12_weights_1 ds h).0 % 11 % 10

  abbrev first : Text
  first = ds ++ (b'0' + c₁) ∷ []

  first-All : All IsDigit first
  first-All = All-append IsDigit ds _ h (IsDigit-add c₁ (omega arith), tt)

  length-first : length first ≡ 11
  length-first = omega (arith, length-append ds ((b'0' + c₁) ∷ []))

  abbrev c₂ : ℕ
  c₂ = (weighted-Runs inn12_weights_2 first first-All).0 % 11 % 10

  complete_inn-eq : complete_inn ds ≡ some (first ++ (b'0' + c₂) ∷ [])
  unfolding complete_inn
  complete_inn-eq =
      rw
        (
          (weighted-Runs inn12_weights_1 ds h).1,
          (weighted-Runs inn12_weights_2 first first-All).1,
          decimal_digit c₁ (omega arith),
          decimal_digit c₂ (omega arith),
          append_assoc ds ((b'0' + c₁) ∷ []) ((b'0' + c₂) ∷ []),
        )
        refl

  complete_inn-valid : inn_validate (first ++ (b'0' + c₂) ∷ []) ≡ some valid
  complete_inn-valid =
      inn_validate_of _ (All-append IsDigit first _ first-All (IsDigit-add c₂ (omega arith), tt))
        (omega (arith, length-first, length-append first ((b'0' + c₂) ∷ [])))
        (rw (append_assoc ds ((b'0' + c₁) ∷ []) ((b'0' + c₂) ∷ [])) (
          check_digit-append inn12_weights_1 ds ((b'0' + c₂) ∷ []) 10 _ (sym ten) (omega arith)
            (weighted-Runs inn12_weights_1 ds h).1))
        (check_digit-append inn12_weights_2 first [] 11 _ (sym length-first)
          (omega (arith, length-first)) (weighted-Runs inn12_weights_2 first first-All).1)

-- Whatever the seed, the generation of an INN does not panic, and the validator accepts the number.
pub synthetic_inn-valid :
    (s : ℕ) → (text : Text) × (synthetic_inn s ≡ some text) × (inn_validate text ≡ some valid)
unfolding synthetic_inn
synthetic_inn-valid s =
    let h = seed_digits-All 10 s in
    let ten = length-seed_digits 10 s in
    (_, complete_inn-eq (seed_digits 10 s) h ten, complete_inn-valid (seed_digits 10 s) h ten)
