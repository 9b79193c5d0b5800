-- ===== src/Resolve/Separation.antt =====
-- The entities that src/service/resolve.rs selects do not overlap.
use alfavibe_hack.Prelude.{
  ℕ, ◌≤◌, ◌≡◌, refl, true, false, List, [], ◌∷◌, ◌++◌, map, reverse, All, All-append, All-map,
  All-reverse, All-filter, map-append, filter, arith, Bool-cases, inl, inr, ap,
}
use mathlib.Core.List.{reverse-cons}
use alfavibe_hack.Domain.Span.{Span, overlaps, IsFull}
use alfavibe_hack.Domain.Float32.{Float32}
use alfavibe_hack.Domain.Candidate
use alfavibe_hack.Domain.Candidate.{Candidate, candidate}
use alfavibe_hack.Domain.Entity
use alfavibe_hack.Domain.Entity.{Entity}
use alfavibe_hack.Domain.Policy.{EffectivePolicy}
use alfavibe_hack.Resolve.{start, passes, absorbs, a_wins, select, sweep, to_entity, resolve}
use alfavibe_hack.Resolve.Sorting.{sort_by, Sorted, sort_by-All, sort_by-Sorted}

-- Every span ends before each later one starts.
abbrev pub Separate : List Span → Type 0
Separate [] = Unit
Separate (s ∷ ss) = All (λ t. s.end ≤ t.start) ss × Separate ss

Separate-append :
    (ss : List Span) (t : Span)
    → Separate ss
    → All (λ s. s.end ≤ t.start) ss
    → Separate (ss ++ t ∷ [])
Separate-append [] t h k = (tt, tt)
Separate-append (s ∷ ss) t (p, h) (q, k) =
    (All-append (λ u. s.end ≤ u.start) ss (t ∷ []) p (q, tt), Separate-append ss t h k)

module _ {S : Type 0} where
  abbrev pub Full : Candidate S → Type 0
  Full c = IsFull (Candidate.span c)

  -- The same of a stack with the last one on top.
  abbrev Stacked : List (Candidate S) → Type 0
  Stacked [] = Unit
  Stacked (c ∷ cs) = All (λ b. (Candidate.span b).end ≤ (Candidate.span c).start) cs × Stacked cs

  below_mono :
      (a b : ℕ) (cs : List (Candidate S))
      → a ≤ b
      → All (λ c. (Candidate.span c).end ≤ a) cs
      → All (λ c. (Candidate.span c).end ≤ b) cs
  below_mono a b [] le h = tt
  below_mono a b (c ∷ cs) le (p, h) = (omega arith, below_mono a b cs le h)

module _ (F : Float32) (policy : EffectivePolicy F.Carrier) where
  open F use {Carrier}

  module _ (last : Candidate Carrier) (before : List (Candidate Carrier))
      (cand : Candidate Carrier) where
    -- A round keeps the selection or replaces its last candidate, if the new one overlaps that, and
    -- adds the new one otherwise.
    pub data Round : List (Candidate Carrier) → Type 0 where
      keep : overlaps (Candidate.span last) (Candidate.span cand) ≡ true → Round (last ∷ before)
      replace : overlaps (Candidate.span last) (Candidate.span cand) ≡ true → Round (cand ∷ before)
      push :
          overlaps (Candidate.span last) (Candidate.span cand) ≡ false
          → Round (cand ∷ last ∷ before)

    pub select-Round : Round (select F policy (last ∷ before) cand)
    unfolding select
    select-Round = elim (Bool-cases (overlaps (Candidate.span last) (Candidate.span cand))) [
      | inr apart ↦ rw apart (push apart)
      | inl meets ↦ rw meets (elim (Bool-cases (absorbs F policy last cand)) [
        | inl taken ↦ rw taken (keep meets)
        | inr free ↦ rw free (elim (Bool-cases (a_wins F policy cand last)) [
          | inl wins ↦ rw wins (replace meets)
          | inr loses ↦ rw loses (keep meets)
        ])
      ])
    ]

  -- The last selected candidate starts at `n` or before.
  abbrev At : List (Candidate Carrier) → ℕ → Type 0
  At [] n = Unit
  At (c ∷ _) n = (Candidate.span c).start ≤ n

  abbrev Good : List (Candidate Carrier) → ℕ → Type 0
  Good cs n = Stacked cs × All Full cs × At cs n

  Round-Good :
      {last cand : Candidate Carrier} {before cs : List (Candidate Carrier)}
      → Round last before cand cs
      → Full cand
      → Good (last ∷ before) (Candidate.span cand).start
      → Good cs (Candidate.span cand).start
  Round-Good (keep m) full g = g
  Round-Good {last} {cand} {before} (replace m) full ((below, h), (f, fs), at) =
      ((below_mono _ _ before at below, h), (full, fs), omega arith)
  Round-Good {last} {cand} {before} (push a) full ((below, h), (f, fs), at) = (
    (
      (apart (Candidate.span last) (Candidate.span cand) a full at, below_mono _ _ before at below),
      (below, h),
    ),
    (full, (f, fs)),
    omega arith,
  )
    where
      apart : (s t : Span) → overlaps s t ≡ false → IsFull t → s.start ≤ t.start → s.end ≤ t.start
      apart s t o f le = unfold overlaps in ground arith

  select-Good :
      (selected : List (Candidate Carrier)) (cand : Candidate Carrier)
      → Full cand
      → Good selected (Candidate.span cand).start
      → Good (select F policy selected cand) (Candidate.span cand).start
  select-Good [] cand full g = unfold select in ((tt, tt), (full, tt), omega arith)
  select-Good (last ∷ before) cand full g = Round-Good (select-Round last before cand) full g

  At_mono : (cs : List (Candidate Carrier)) (m n : ℕ) → m ≤ n → Good cs m → Good cs n
  At_mono [] m n le g = g
  At_mono (c ∷ cs) m n le (h, f, at) = (h, f, omega arith)

  sweep-Stacked :
      (selected cands : List (Candidate Carrier)) (n : ℕ)
      → Good selected n
      → All Full cands
      → Sorted (start F policy) cands
      → All (λ c. n ≤ start F policy c) cands
      → Stacked (sweep F policy selected cands)
  unfolding sweep
  sweep-Stacked selected [] n g f s a = g.0
  sweep-Stacked selected (cand ∷ cands) n g (full, f) (later, s) (here, a) =
      sweep-Stacked (select F policy selected cand) cands (Candidate.span cand).start
        (select-Good selected cand full (At_mono selected n _ here g)) f s later

  map-to_entity :
      (cs : List (Candidate Carrier)) → map Entity.span (map to_entity cs) ≡ map Candidate.span cs
  unfolding to_entity
  map-to_entity [] = refl
  map-to_entity (candidate _ s _ _ _ _ ∷ cs) = ap (λ ss. s ∷ ss) (map-to_entity cs)

  Stacked-Separate :
      (cs : List (Candidate Carrier)) → Stacked cs → Separate (map Candidate.span (reverse cs))
  Stacked-Separate [] h = tt
  Stacked-Separate (c ∷ cs) (below, h) =
      rw (reverse-cons c cs, map-append)
        (Separate-append (map Candidate.span (reverse cs)) (Candidate.span c)
          (Stacked-Separate cs h)
          (All-map (λ s. s.end ≤ (Candidate.span c).start) Candidate.span (reverse cs)
            (All-reverse _ cs below)))

  trivially : (cs : List (Candidate Carrier)) → All (λ c. 0 ≤ start F policy c) cs
  trivially [] = tt
  trivially (c ∷ cs) = (omega arith, trivially cs)

  -- If no candidate has an empty span, no two entities of the result overlap, and they come in the
  -- order of the text: each ends at or before the start of every later one.
  pub resolve-Separate :
      (cands : List (Candidate Carrier))
      → All Full cands
      → Separate (map Entity.span (resolve F policy cands))
  unfolding resolve
  resolve-Separate cands full = rw (map-to_entity (reverse (sweep F policy [] sorted))) (
      Stacked-Separate (sweep F policy [] sorted) (
        sweep-Stacked [] sorted 0 (tt, tt, tt)
          (sort_by-All (start F policy) Full _ (All-filter Full (passes F policy) cands full))
          (sort_by-Sorted (start F policy) (filter (passes F policy) cands)) (trivially sorted)))
    where
      sorted : List (Candidate Carrier)
      sorted = sort_by (start F policy) (filter (passes F policy) cands)
