-- ===== src/Detect/Numwords/Composed.antt =====
-- How numerals of src/service/detect/numwords.rs are put together.
use alfavibe_hack.Prelude.{
  ℕ, zero, suc, ap, ◌+◌, ◌*◌, ◌%◌, ◌^◌, ◌<◌, ◌≡◌, refl, sym, ◌∙◌, ◌≢◌, append-nil, List, [], ◌∷◌,
  ◌++◌, some, Text, text_Eq, All, arith,
}
use mathlib.Core.Option.{some-injective}
use alfavibe_hack.Prelude.Maps.{get}
use alfavibe_hack.Detect.Numwords.{dict, add_number, words_from, parse_numeral_words}

-- A numeral below a thousand.
abbrev pub IsSmall : Text → Type 0
IsSmall w = (v : ℕ) × (get w dict ≡ some v) × (v < 1000)

add_small : (v t c : ℕ) → v < 1000 → add_number v (t, c) ≡ (t, (add_number v (0, c)).1)
unfolding add_number
add_small v t c h = ground arith

-- Small numerals leave the total alone.
small_from :
    (c : ℕ) (ws : List Text)
    → All IsSmall ws
    → (d : ℕ) × ((t : ℕ) (vs : List Text) → words_from (t, c) (ws ++ vs) ≡ words_from (t, d) vs)
unfolding words_from
small_from c [] h = (c, λ t vs. refl)
small_from c (w ∷ ws) ((v, e, lt), h) =
    let (d, f) = small_from (add_number v (0, c)).1 ws h in
    (d, λ t vs. rw (e, add_small v t c lt) (f t vs))

-- The number of a row of small numerals.
value_from :
    (ws : List Text) {a : ℕ}
    → All IsSmall ws
    → parse_numeral_words ws ≡ some a
    → (d : ℕ) × (a ≡ d % 2 ^ 32)
      × ((t : ℕ) (vs : List Text) → words_from (t, 0) (ws ++ vs) ≡ words_from (t, d) vs)
unfolding parse_numeral_words
value_from [] h e = absurd (cc e)
value_from (w ∷ ws) {a} h e =
    let (d, f) = small_from 0 (w ∷ ws) h in
    (d, some-injective _ _ (sym e ∙ nil_end (w ∷ ws) ∙ f 0 []) ∙ last d, f)
  where
    nil_end : (l : List Text) → words_from (0, 0) l ≡ words_from (0, 0) (l ++ [])
    nil_end l = rw append-nil refl

    last : (d : ℕ) → (0 + d) % 2 ^ 32 ≡ d % 2 ^ 32
    last d = omega arith

parse-append :
    (ws vs : List Text) {a : ℕ}
    → parse_numeral_words ws ≡ some a
    → parse_numeral_words (ws ++ vs) ≡ words_from (0, 0) (ws ++ vs)
unfolding parse_numeral_words
parse-append [] vs e = absurd (cc e)
parse-append (w ∷ ws) vs e = refl

thousands : (d : ℕ) → d % 2 ^ 32 ≢ 0 → add_number 1000 (0, d) ≡ (d * 1000 % 2 ^ 32 % 2 ^ 32, 0)
unfolding add_number
thousands zero h = absurd (h refl)
thousands (suc d) h = ap (λ n. (n, 0)) (ground arith)

-- Numerals compose: when small numerals (all below a thousand) read as `a`, not 0, other small
-- numerals read as `b`, and `w` is a form of "thousand" between them, then the whole reads as
-- 1000 * a + b, in the arithmetic of a `u32`.
pub parse_numeral_words-append :
    (ws vs : List Text) (w : Text) (a b : ℕ)
    → All IsSmall ws
    → All IsSmall vs
    → get w dict ≡ some 1000
    → parse_numeral_words ws ≡ some a
    → a ≢ 0
    → parse_numeral_words vs ≡ some b
    → parse_numeral_words (ws ++ w ∷ vs) ≡ some ((1000 * a + b) % 2 ^ 32)
unfolding words_from
parse_numeral_words-append ws vs w a b hw hv e ew nonzero ev =
    let (d, p, f) = value_from ws hw ew in
    let (d', p', f') = value_from vs hv ev in
    let total = d * 1000 % 2 ^ 32 % 2 ^ 32 in
    parse-append ws (w ∷ vs) ew
    ∙ f 0 (w ∷ vs)
    ∙ rw e refl
    ∙ ap (λ state. words_from state vs) (thousands d (λ z. nonzero (p ∙ z)))
    ∙ ap (λ l. words_from (total, 0) l) (sym (append-nil vs))
    ∙ f' total []
    ∙ ap some (combined d d' p p')
  where
    combined :
        (d d' : ℕ)
        → a ≡ d % 2 ^ 32
        → b ≡ d' % 2 ^ 32
        → (d * 1000 % 2 ^ 32 % 2 ^ 32 + d') % 2 ^ 32 ≡ (1000 * a + b) % 2 ^ 32
    combined d d' p p' = omega arith
