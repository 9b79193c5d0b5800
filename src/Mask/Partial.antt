-- ===== src/Mask/Partial.antt =====
-- The text that `PartialMasker::mask` of src/service/mask.rs makes, and what it hides.
use alfavibe_hack.Prelude.{
  ℕ, suc, ◌-◌, ◌≤◌, [], ◌∷◌, Text, min, leb, if◌then◌else◌, is_ascii_digit, is_continuation,
  char_count, length, digits_of, arith,
}

-- The loop over the characters: `i` characters have begun, those from `bound` on are kept. Only a
-- digit is replaced, and a digit is one byte.
partial_loop : ℕ → ℕ → Text → Text
partial_loop i bound [] = []
partial_loop i bound (c ∷ cs) =
    (if leb bound i then c else if is_ascii_digit c then b'*' else c)
    ∷ partial_loop (if is_continuation c then i else suc i) bound cs

unfoldable pub partial_text : ℕ → Text → Text
unfolding partial_loop
partial_text keep_last original =
    let n = char_count original in partial_loop 0 (n - min keep_last n) original

-- Digits stand only among the kept characters.
partial_loop-digits :
    (i bound : ℕ) (cs : Text)
    → length (digits_of (partial_loop i bound cs)) ≤ char_count cs - (bound - i)
unfolding partial_loop digits_of
partial_loop-digits i bound [] = omega arith
partial_loop-digits i bound (c ∷ cs) =
    ground (arith, partial_loop-digits i bound cs, partial_loop-digits (suc i) bound cs)

-- The result shows at most `keep_last` digits of the value.
pub partial_text-digits :
    (keep_last : ℕ) (original : Text)
    → length (digits_of (partial_text keep_last original)) ≤ keep_last
unfolding partial_text
partial_text-digits keep_last original = omega (
  arith,
  partial_loop-digits 0 (char_count original - min keep_last (char_count original)) original,
)
