-- ===== src/Domain/Document/Boundaries.antt =====
-- Steps to the next border of a character, as in src/domain/document.rs.
use alfavibe_hack.Prelude.{
  ℕ, zero, suc, ◌+◌, ◌≤◌, ◌≡◌, refl, true, [], ◌∷◌, Text, length, arith, Bool-cases, inl, inr,
  is_char_boundary,
}
use native.Mathlib.Decide.{dec_lt}
use alfavibe_hack.Domain.Document.{align_from}

pub boundary_end : (text : Text) → is_char_boundary text (length text) ≡ true
unfolding is_char_boundary
boundary_end [] = refl
boundary_end (b ∷ []) = refl
boundary_end (b ∷ c ∷ cs) = boundary_end (c ∷ cs)

module _ (original : Text) where
  pub align_from-ge : (fuel byte : ℕ) → byte ≤ align_from original fuel byte
  unfolding align_from
  align_from-ge zero byte = omega arith
  align_from-ge (suc fuel) byte = ground (arith, align_from-ge fuel (suc byte))

  -- Nothing before the next boundary is passed over.
  pub align_from-least :
      (fuel byte b : ℕ)
      → byte ≤ b
      → is_char_boundary original b ≡ true
      → align_from original fuel byte ≤ b
  unfolding align_from
  align_from-least zero byte b le h = le
  align_from-least (suc fuel) byte b le h = elim (Bool-cases (is_char_boundary original byte)) [
    | inl here ↦ rw here le
    | inr further ↦ rw further (elim (dec_lt byte b) [
      | yes lt ↦ align_from-least fuel (suc byte) b lt h
      | no ge ↦ let e : byte ≡ b = omega arith in absurd (cc (further, rw (← e) at h))
    ])
  ]

  pub align_from-boundary :
      (fuel byte : ℕ)
      → byte + fuel ≡ length original
      → is_char_boundary original (align_from original fuel byte) ≡ true
  unfolding align_from
  align_from-boundary zero byte e =
      let same : byte ≡ length original = omega arith in rw same (boundary_end original)
  align_from-boundary (suc fuel) byte e = elim (Bool-cases (is_char_boundary original byte)) [
    | inl here ↦ rw here here
    | inr further ↦ rw further (align_from-boundary fuel (suc byte) (omega arith))
  ]
