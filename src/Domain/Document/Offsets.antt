-- ===== src/Domain/Document/Offsets.antt =====
-- The map of offsets of src/domain/document.rs: every range of the folded text has a range of whole
-- characters in the original.
use alfavibe_hack.Prelude.{
  ℕ, zero, suc, ◌+◌, ◌-◌, ◌%◌, ◌^◌, ◌≤◌, ◌<◌, ◌≡◌, refl, true, List, [], ◌∷◌, ◌++◌, some, Text,
  length, get_elem?, replicate, arith, Bool-cases, and-eq-true_iff, subst, ◌∙◌, inl, inr,
  is_char_boundary, slice?, slice, chars, total_length, total_length-chars, length-append, min,
}
use native.Mathlib.Nat.{zero-add, suc-add}
use native.Mathlib.Decide.{dec_lt}
use alfavibe_hack.Domain.Span.{Span}
use alfavibe_hack.Domain.Document.{
  Document, new, build, folded, align_from, align_forward, to_original, original_slice,
  is_ascii_fast_path,
}
use alfavibe_hack.Domain.Document.Boundaries.{
  align_from-ge, align_from-least, align_from-boundary, boundary_end,
}

-- The offsets at `i` and `j` are there, in order, and between `lo` and `hi`.
abbrev Between : List ℕ → ℕ → ℕ → ℕ → ℕ → Type 0
Between offsets i j lo hi =
    (u : ℕ) × (v : ℕ) × (get_elem? offsets i ≡ some u)
    × (get_elem? offsets j ≡ some v)
    × (lo ≤ u)
    × (u ≤ v)
    × (v ≤ hi)

get_replicated :
    (n x : ℕ) (ys : List ℕ) (i : ℕ) → i < n → get_elem? (replicate n x ++ ys) i ≡ some x
get_replicated zero x ys i lt = elim lt [ ]
get_replicated (suc n) x ys zero lt = refl
get_replicated (suc n) x ys (suc i) lt = get_replicated n x ys i (omega arith)

get_behind :
    (n x : ℕ) (ys : List ℕ) (k : ℕ) → get_elem? (replicate n x ++ ys) (n + k) ≡ get_elem? ys k
get_behind zero x ys k = rw zero-add refl
get_behind (suc n) x ys k = rw suc-add (get_behind n x ys k)

-- More equal offsets in front.
module _ (n m byte lo hi : ℕ) (offsets : List ℕ) (low : byte ≤ lo) (high : byte ≤ hi)
    (rest : (k l : ℕ) → k ≤ l → l ≤ m → Between offsets k l lo hi) where
  shifted :
      (k w : ℕ)
      → n ≤ k
      → get_elem? offsets (k - n) ≡ some w
      → get_elem? (replicate n byte ++ offsets) k ≡ some w
  shifted k w nk g =
      subst (λ t. get_elem? (replicate n byte ++ offsets) t ≡ some w) (omega arith)
        (get_behind n byte offsets (k - n) ∙ g)

  prepend : (i j : ℕ) → i ≤ j → j ≤ n + m → Between (replicate n byte ++ offsets) i j byte hi
  prepend i j le top = elim (dec_lt j n) [
    | yes before ↦ (
      byte,
      byte,
      get_replicated n byte offsets i (omega arith),
      get_replicated n byte offsets j before,
      omega arith,
      omega arith,
      omega arith,
    )
    | no behind ↦ elim (dec_lt i n) [
      | yes first ↦
          let (u, v, gu, gv, a, b, c) = rest (j - n) (j - n) (omega arith) (omega arith) in
          (
            byte,
            v,
            get_replicated n byte offsets i first,
            shifted j v (omega arith) gv,
            omega arith,
            omega arith,
            omega arith,
          )
      | no both ↦
          let (u, v, gu, gv, a, b, c) = rest (i - n) (j - n) (omega arith) (omega arith) in
          (
            u,
            v,
            shifted i u (omega arith) gu,
            shifted j v (omega arith) gv,
            omega arith,
            omega arith,
            omega arith,
          )
    ]
  ]

-- In lower-case ASCII every offset is a boundary.
is_ascii-boundary :
    (text : Text) (i : ℕ)
    → is_ascii_fast_path text ≡ true
    → i ≤ length text
    → is_char_boundary text i ≡ true
unfolding is_char_boundary is_ascii_fast_path
is_ascii-boundary text zero h le = refl
is_ascii-boundary [] (suc i) h le = elim le [ ]
is_ascii-boundary (b ∷ []) (suc zero) h le = refl
is_ascii-boundary (b ∷ c ∷ cs) (suc zero) h le = ground arith
is_ascii-boundary (b ∷ bs) (suc (suc i)) h le =
    is_ascii-boundary bs (suc i) ((and-eq-true_iff _ _).0 h).1 (omega arith)

module _ (fold : Text → List Text) where
  build-Between :
      (byte : ℕ) (chs : List Text) (i j : ℕ)
      → i ≤ j
      → j ≤ length (build fold byte chs).0
      → byte + total_length chs < 2 ^ 32
      → Between (build fold byte chs).1 i j byte (byte + total_length chs)
  unfolding build
  build-Between byte [] zero zero le top small =
      (byte, byte, ground arith, ground arith, omega arith, omega arith, omega arith)
  build-Between byte [] i (suc j) le top small = elim top [ ]
  build-Between byte [] (suc i) zero le top small = elim le [ ]
  build-Between byte (ch ∷ chs) i j le top small =
      let out = folded fold (fold ch) in
      let fits : byte % 2 ^ 32 ≡ byte = omega arith in
      rw fits (
        subst
          (λ hi.
            Between (replicate (length out) byte ++ (build fold (byte + length ch) chs).1) i j byte
              hi)
          (omega arith)
          (prepend (length out) (length (build fold (byte + length ch) chs).0) byte
            (byte + length ch) (byte + length ch + total_length chs)
            (build fold (byte + length ch) chs).1 (omega arith) (omega arith)
            (λ k l kl lt. build-Between (byte + length ch) chs k l kl lt (omega arith)) i j le
            (omega (arith, length-append out (build fold (byte + length ch) chs).0))))

  -- A span of whole characters of the original.
  abbrev Fits : Text → Span → Type 0
  Fits original s =
      (s.start ≤ s.end)
      × (s.end ≤ length original)
      × (is_char_boundary original s.start ≡ true)
      × (is_char_boundary original s.end ≡ true)

  slice-Fits :
      (original : Text) (s : Span)
      → Fits original s
      → slice? s.start s.end original ≡ some (slice s.start s.end original)
  unfolding slice?
  slice-Fits original s (le, top, a, b) = ground arith

  aligned :
      (doc : Document) (u v : ℕ)
      → u ≤ v
      → v ≤ length doc.original
      → Fits doc.original (record { start = align_forward doc u; end = align_forward doc v })
  unfolding align_forward
  aligned doc u v le top = (
    align_from-least doc.original (n - u) u v' (omega (arith, align_from-ge doc.original (n - v) v))
        at_v,
    align_from-least doc.original (n - v) v n top (boundary_end doc.original),
    align_from-boundary doc.original (n - u) u (omega arith),
    at_v,
  )
    where
      n : ℕ
      n = length doc.original

      v' : ℕ
      v' = align_from doc.original (n - v) v

      at_v : is_char_boundary doc.original v' ≡ true
      at_v = align_from-boundary doc.original (n - v) v (omega arith)

  -- The span that a range of the folded text has in the original.
  abbrev Maps : Document → ℕ → ℕ → Type 0
  Maps doc i j = (s : Span) × (to_original doc i j ≡ some s) × Fits doc.original s

  min-eq : (m n : ℕ) → m ≤ n → min m n ≡ m
  min-eq m n h = omega arith

  folded_Maps :
      (original norm : Text) (offsets : List ℕ) (i j : ℕ)
      → i ≤ j
      → j ≤ length norm
      → Between offsets i j 0 (length original)
      → Maps (record { original = original; norm = norm; norm_to_orig = offsets }) i j
  unfolding to_original
  folded_Maps original norm [] i j le top (u, v, gu, gv, a, b, c) = absurd (cc gu)
  folded_Maps original norm (o ∷ offsets) i j le top (u, v, gu, gv, a, b, c) = (
    record { start = align_forward doc u; end = align_forward doc v },
    rw (min-eq i (length norm) (omega arith), min-eq j (length norm) top, gu, gv) refl,
    aligned doc u v b c,
  )
    where
      doc : Document
      doc = record { original = original; norm = norm; norm_to_orig = o ∷ offsets }

  new-Maps :
      (original : Text) (i j : ℕ)
      → length original < 2 ^ 32
      → i ≤ j
      → j ≤ length (new fold original).norm
      → Maps (new fold original) i j
  unfolding new
  new-Maps original i j small le top = elim (Bool-cases (is_ascii_fast_path original)) [
    | inl fast ↦ rw fast (
        unfold to_original in
        (record { start = i; end = j }, refl, ascii fast (rw (fast, new) at top)))
    | inr slow ↦ rw slow (
        folded_Maps original (build fold 0 (chars original)).0 (build fold 0 (chars original)).1 i j
          le (rw (slow, new) at top)
          (subst (λ n. Between (build fold 0 (chars original)).1 i j 0 n)
            (omega (arith, total_length-chars original))
            (build-Between 0 (chars original) i j le (rw (slow, new) at top)
              (omega (arith, total_length-chars original)))))
  ]
    where
      ascii :
          is_ascii_fast_path original ≡ true
          → j ≤ length original
          → Fits original (record { start = i; end = j })
      ascii fast t = (
        le,
        t,
        is_ascii-boundary original i fast (omega arith),
        is_ascii-boundary original j fast t,
      )

  original_of : (original : Text) → (new fold original).original ≡ original
  unfolding new
  original_of original = ground arith

  -- In a text of fewer than 2 ^ 32 bytes every range of the folded text is mapped, without a panic,
  -- to a span inside the original, and the slice of the original at that span does not panic: the
  -- span lies on character boundaries.
  pub to_original_total :
      (original : Text) (i j : ℕ)
      → length original < 2 ^ 32
      → i ≤ j
      → j ≤ length (new fold original).norm
      → (s : Span) × (to_original (new fold original) i j ≡ some s)
        × (s.start ≤ s.end)
        × (s.end ≤ length original)
        × (original_slice (new fold original) s ≡ some (slice s.start s.end original))
  unfolding original_slice
  to_original_total original i j small le top =
      let (s, e, fits) = new-Maps original i j small le top in
      let f : Fits original s = rw original_of at fits in
      (s, e, f.0, f.1, rw original_of (slice-Fits original s f))
