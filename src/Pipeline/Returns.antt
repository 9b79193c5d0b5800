-- ===== src/Pipeline/Returns.antt =====
-- When the masking pass of src/service/pipeline.rs does not panic.
use alfavibe_hack.Prelude.{
  ℕ, ◌≤◌, ◌≡◌, refl, true, List, [], ◌∷◌, some, Text, Runs, length, slice, slice?, is_char_boundary,
  All, arith, Bool-cases, inl, inr, ltb, map,
}
use alfavibe_hack.Domain.Document.Boundaries.{boundary_end}
use alfavibe_hack.Domain.Entity
use alfavibe_hack.Domain.Entity.{Entity}
use alfavibe_hack.Domain.MaskState.{MaskState}
use alfavibe_hack.Domain.Policy.{EffectivePolicy}
use alfavibe_hack.Domain.Span.{Span}
use alfavibe_hack.Pipeline.Masking.{Maskers, mask_pass, masked_end, masker_for, replace_one}

-- A range of the text that lies on the borders of characters.
abbrev pub OnBorders : Text → Span → Type 0
OnBorders text s =
    (s.start ≤ s.end)
    × (s.end ≤ length text)
    × (is_char_boundary text s.start ≡ true)
    × (is_char_boundary text s.end ≡ true)

slice?-Runs :
    (text : Text) (a b : ℕ)
    → a ≤ b
    → b ≤ length text
    → is_char_boundary text a ≡ true
    → is_char_boundary text b ≡ true
    → slice? a b text ≡ some (slice a b text)
unfolding slice?
slice?-Runs text a b le top at_a at_b = ground arith

module _ {S : Type 0} (maskers : Maskers S) (policy : EffectivePolicy S) (original : Text)
    (total : (e : Entity S) (t : Text) (state : MaskState)
      → Runs (masker_for maskers policy original e e t state)) where
  replace_one-Runs :
      (e : Entity S) (cursor : ℕ) (state : MaskState)
      → OnBorders original (Entity.span e)
      → cursor ≤ (Entity.span e).start
      → is_char_boundary original cursor ≡ true
      → Runs (replace_one maskers policy original e cursor state)
  unfolding replace_one
  replace_one-Runs e cursor state (le, top, at_a, at_b) before at_c =
      let s = (Entity.span e).start in
      let cut = slice?-Runs original s (Entity.span e).end le top at_a at_b in
      let gap = slice?-Runs original cursor s before (omega arith) at_c at_a in
      let ((out, state'), made) = total e (slice s (Entity.span e).end original) state in
      rw (cut, made, gap) (_, refl)

  mask_pass-Runs_from :
      (es : List (Entity S)) (cursor base : ℕ) (state : MaskState)
      → All (OnBorders original) (map Entity.span es)
      → cursor ≤ length original
      → is_char_boundary original cursor ≡ true
      → Runs (mask_pass maskers policy original es cursor base state)
  unfolding mask_pass
  mask_pass-Runs_from [] cursor base state h top at_c =
      rw
        (slice?-Runs original cursor (length original) top (omega arith) at_c
          (boundary_end original))
        (_, refl)
  mask_pass-Runs_from (e ∷ es) cursor base state (fits, h) top at_c =
      elim (Bool-cases (ltb (Entity.span e).start cursor)) [
        | inl skip ↦ rw (mask_pass, skip) (mask_pass-Runs_from es cursor base state h top at_c)
        | inr take_ ↦
            let (p, made) = replace_one-Runs e cursor state fits (ground arith) at_c in
            let (rest, passed) =
              mask_pass-Runs_from es (Entity.span e).end (masked_end base p) p.state h fits.1
                fits.3 in
            rw (mask_pass, take_, made, passed) (_, refl)
      ]

  -- If no masker panics and every entity lies in the text on the borders of characters, the masking
  -- pass does not panic, whether entities overlap or not.
  pub mask_pass-Runs :
      (es : List (Entity S)) (state : MaskState)
      → All (OnBorders original) (map Entity.span es)
      → Runs (mask_pass maskers policy original es 0 0 state)
  unfolding is_char_boundary
  mask_pass-Runs es state h = mask_pass-Runs_from es 0 0 state h (omega arith) refl
