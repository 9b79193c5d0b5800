-- ===== src/Pipeline/Restore.antt =====
-- What the masking pass of src/service/pipeline.rs keeps of the text.
use alfavibe_hack.Prelude.{
  subst, ℕ, ◌+◌, ◌-◌, ◌≤◌, ◌≡◌, refl, false, List, [], ◌∷◌, ◌++◌, map, Option-cases, Bool-cases,
  inl, inr, some, Text, ltb, length, slice, slice?, take, drop, drop-drop, take-append-drop,
  take-append, drop-append, length-drop, arith, All, take-length,
}
use alfavibe_hack.Domain.Span.{Span}
use alfavibe_hack.Domain.Entity
use alfavibe_hack.Domain.Entity.{Entity, MaskRecord}
use alfavibe_hack.Domain.MaskState.{MaskState}
use alfavibe_hack.Domain.Policy.{EffectivePolicy}
use alfavibe_hack.Pipeline.Masking.{
  Maskers, MaskedEntityInfo, Masked, Piece, masked_start, masked_end, assemble, replace_one,
  mask_pass,
}
use alfavibe_hack.Resolve.Separation.{Separate}

-- The original text out of a masked one whose bytes from `base` on are `text`: the range of each
-- replacement is exchanged for the range of the original that it stands for.
unfoldable pub restore : {S : Type 0} → Text → List (MaskedEntityInfo S) → ℕ → Text → Text
restore original [] base text = text
restore original (i ∷ is) base text =
    take (i.masked_start - base) text
    ++ (slice i.start i.end original
        ++ restore original is i.masked_end (drop (i.masked_end - base) text))

slice-append-drop : (a b : ℕ) (t : Text) → a ≤ b → slice a b t ++ drop b t ≡ drop a t
slice-append-drop a b t le =
    let e : a + (b - a) ≡ b = omega arith in
    subst (λ n. slice a b t ++ drop n t ≡ drop a t) e
      (rw (← drop-drop (b - a) a t) (take-append-drop (b - a) (drop a t)))

take_front : (n : ℕ) (xs ys : Text) → n ≡ length xs → take n (xs ++ ys) ≡ xs
take_front n xs ys e = rw e (take-append xs ys)

drop_two : (n : ℕ) (xs ys zs : Text) → n ≡ length xs + length ys → drop n (xs ++ (ys ++ zs)) ≡ zs
drop_two n xs ys zs e =
    rw (e, ← drop-drop (length ys) (length xs) (xs ++ (ys ++ zs)), drop-append xs (ys ++ zs))
      (drop-append ys zs)

pub slice_end : (cursor : ℕ) (t : Text) → slice cursor (length t) t ≡ drop cursor t
slice_end cursor t = rw (← length-drop cursor t) (take-length (drop cursor t))

module _ {S : Type 0} (maskers : Maskers S) (policy : EffectivePolicy S) (original : Text) where
  -- What a replacement of one entity that does not panic tells.
  pub record Replaced (e : Entity S) (cursor : ℕ) (p : Piece S) : Type 0 where
    pub same : p.of ≡ e
    pub copied : p.gap ≡ slice cursor (Entity.span e).start original
    pub ordered :
        (cursor ≤ (Entity.span e).start)
        × ((Entity.span e).start ≤ (Entity.span e).end)
        × ((Entity.span e).end ≤ length original)

  pub replace_one-Replaced :
      (e : Entity S) (cursor : ℕ) (state : MaskState) (p : Piece S)
      → replace_one maskers policy original e cursor state ≡ some p
      → Replaced e cursor p
  unfolding replace_one slice?
  replace_one-Replaced e cursor state p h = record {
    same = ground arith;
    copied = ground arith;
    ordered = ground arith;
  }

  -- A step of the pass that replaces an entity.
  pub record Step (e : Entity S) (es : List (Entity S)) (cursor base : ℕ) (m : Masked S)
      : Type 0 where
    pub piece : Piece S
    pub rest : Masked S
    pub replaced : Replaced e cursor piece
    pub passed :
        mask_pass maskers policy original es (Entity.span e).end (masked_end base piece) piece.state
        ≡ some rest
    pub joined : assemble base piece rest ≡ m

  pub mask_pass-Step :
      (e : Entity S) (es : List (Entity S)) (cursor base : ℕ) (state : MaskState) (m : Masked S)
      → ltb (Entity.span e).start cursor ≡ false
      → mask_pass maskers policy original (e ∷ es) cursor base state ≡ some m
      → Step e es cursor base m
  unfolding mask_pass
  mask_pass-Step e es cursor base state m off h =
      elim (Option-cases (replace_one maskers policy original e cursor state)) [
        | inl failed ↦ absurd (ground arith)
        | inr (p, made) ↦
            elim (Option-cases (
              mask_pass maskers policy original es (Entity.span e).end (masked_end base p)
                p.state)) [
                  | inl failed ↦ absurd (ground arith)
                  | inr (rest, passed) ↦ record {
                    piece = p;
                    rest = rest;
                    replaced = replace_one-Replaced e cursor state p made;
                    passed = passed;
                    joined = ground arith;
                  }
                ]
      ]

  restore-assemble :
      (e : Entity S) (cursor base : ℕ) (p : Piece S) (rest : Masked S)
      → Replaced e cursor p
      → restore original rest.infos (masked_end base p) rest.text
        ≡ drop (Entity.span e).end original
      → restore original (assemble base p rest).infos base (assemble base p rest).text
        ≡ drop cursor original
  unfolding restore assemble
  restore-assemble e cursor base p rest r ih =
      rw
        (
          take_front (masked_start base p - base) p.gap (p.out.replacement ++ rest.text)
              (omega arith),
          drop_two (masked_end base p - base) p.gap p.out.replacement rest.text (omega arith),
          ih,
          r.same,
          r.copied,
          slice-append-drop (Entity.span e).start (Entity.span e).end original r.ordered.1,
        )
        (slice-append-drop cursor (Entity.span e).start original r.ordered.0)

  restore-tail :
      (cursor base : ℕ) (state : MaskState) (m : Masked S)
      → cursor ≤ length original
      → mask_pass maskers policy original [] cursor base state ≡ some m
      → restore original m.infos base m.text ≡ drop cursor original
  unfolding mask_pass restore slice?
  restore-tail cursor base state m le h =
      let none_left : m.infos ≡ [] = ground arith in
      let copied : m.text ≡ slice cursor (length original) original = ground arith in
      rw (none_left, copied) (slice_end cursor original)

  restore-mask_pass_from :
      (es : List (Entity S)) (cursor base : ℕ) (state : MaskState) (m : Masked S)
      → cursor ≤ length original
      → mask_pass maskers policy original es cursor base state ≡ some m
      → restore original m.infos base m.text ≡ drop cursor original
  unfolding mask_pass
  restore-mask_pass_from [] cursor base state m le h = restore-tail cursor base state m le h
  restore-mask_pass_from (e ∷ es) cursor base state m le h =
      elim (Bool-cases (ltb (Entity.span e).start cursor)) [
        | inl skip ↦ restore-mask_pass_from es cursor base state m le (rw (skip, mask_pass) at h)
        | inr take_ ↦
            let s = mask_pass-Step e es cursor base state m take_ h in
            subst (λ n. restore original n.infos base n.text ≡ drop cursor original) s.joined
              (restore-assemble e cursor base s.piece s.rest s.replaced (
                restore-mask_pass_from es (Entity.span e).end (masked_end base s.piece)
                  s.piece.state s.rest s.replaced.ordered.2 s.passed))
      ]

  -- If the pass does not panic, the original text can be had back from its result: exchange in the
  -- masked text the range of each replacement for the range of the original that the entity covers,
  -- and copy everything between.
  pub restore-mask_pass :
      (es : List (Entity S)) (state : MaskState) (m : Masked S)
      → mask_pass maskers policy original es 0 0 state ≡ some m
      → restore original m.infos 0 m.text ≡ original
  restore-mask_pass es state m h = restore-mask_pass_from es 0 0 state m (omega arith) h

  abbrev pub range : MaskedEntityInfo S → Span
  range i = record { start = i.start; end = i.end }

  range-tail :
      (cursor base : ℕ) (state : MaskState) (m : Masked S)
      → mask_pass maskers policy original [] cursor base state ≡ some m
      → m.infos ≡ []
  unfolding mask_pass slice?
  range-tail cursor base state m h = ground arith

  range-assemble :
      (e : Entity S) (cursor base : ℕ) (p : Piece S) (rest : Masked S) (spans : List Span)
      → Replaced e cursor p
      → map range rest.infos ≡ spans
      → map range (assemble base p rest).infos ≡ Entity.span e ∷ spans
  unfolding assemble
  range-assemble e cursor base p rest spans r ih = rw (r.same, ih) refl

  mask_pass-range_from :
      (es : List (Entity S)) (cursor base : ℕ) (state : MaskState) (m : Masked S)
      → All (λ s. cursor ≤ s.start) (map Entity.span es)
      → Separate (map Entity.span es)
      → mask_pass maskers policy original es cursor base state ≡ some m
      → map range m.infos ≡ map Entity.span es
  mask_pass-range_from [] cursor base state m first apart h =
      rw (range-tail cursor base state m h) refl
  mask_pass-range_from (e ∷ es) cursor base state m (first, _) (later, apart) h =
      let s = mask_pass-Step e es cursor base state m (ground arith) h in
      subst (λ n. map range n.infos ≡ map Entity.span (e ∷ es)) s.joined
        (range-assemble e cursor base s.piece s.rest (map Entity.span es) s.replaced (
          mask_pass-range_from es (Entity.span e).end (masked_end base s.piece) s.piece.state s.rest
            later apart s.passed))

  from_zero : (ss : List Span) → All (λ s. 0 ≤ s.start) ss
  from_zero [] = tt
  from_zero (s ∷ ss) = (omega arith, from_zero ss)

  -- If the entities do not overlap and come in order, the pass replaces every one of them.
  pub mask_pass-range :
      (es : List (Entity S)) (state : MaskState) (m : Masked S)
      → Separate (map Entity.span es)
      → mask_pass maskers policy original es 0 0 state ≡ some m
      → map range m.infos ≡ map Entity.span es
  mask_pass-range es state m apart h =
      mask_pass-range_from es 0 0 state m (from_zero (map Entity.span es)) apart h
