-- ===== src/Resolve/Selection.antt =====
-- Which candidates src/service/resolve.rs selects, and which it loses.
use alfavibe_hack.Prelude.{
  ◌≤◌, ◌≡◌, refl, Bool, true, false, List, [], ◌∷◌, All, All-map, All-reverse, In, here, there,
  In-map, In-reverse, filter, Bool-cases, inl, inr,
}
use native.Mathlib.Nat.{le_trans}
use alfavibe_hack.Domain.Span.{overlaps}
use alfavibe_hack.Domain.Float32.{Float32}
use alfavibe_hack.Domain.Candidate
use alfavibe_hack.Domain.Candidate.{Candidate}
use alfavibe_hack.Domain.Policy.{EffectivePolicy}
use alfavibe_hack.Resolve.{start, passes, absorbs, a_wins, select, sweep, to_entity, resolve}
use alfavibe_hack.Resolve.Sorting.{
  Around, found, later, Sorted, sort_by_id, sort_by-All, sort_by-Around,
}
use alfavibe_hack.Resolve.Separation.{Round, keep, replace, push, select-Round}

-- Neither candidate overlaps the other.
abbrev pub Apart : {S : Type 0} → Candidate S → Candidate S → Type 0
Apart c d =
    (overlaps (Candidate.span c) (Candidate.span d) ≡ false)
    × (overlaps (Candidate.span d) (Candidate.span c) ≡ false)

module _ {ℓ κ} {A : Type ℓ} (p : A → Bool) (P : A → Type κ) where
  filter_passed : (xs : List A) → All P xs → All (λ x. P x × (p x ≡ true)) (filter p xs)
  filter_passed [] h = tt
  filter_passed (x ∷ xs) (q, h) = elim (Bool-cases (p x)) [
    | inl in_ ↦ rw in_ ((q, in_), filter_passed xs h)
    | inr out ↦ rw out (filter_passed xs h)
  ]

  filter-if : (xs : List A) → All (λ x. p x ≡ true → P x) xs → All P (filter p xs)
  filter-if [] h = tt
  filter-if (x ∷ xs) (q, h) = elim (Bool-cases (p x)) [
    | inl in_ ↦ rw in_ (q in_, filter-if xs h)
    | inr out ↦ rw out (filter-if xs h)
  ]

  filter-Around :
      (c : A) {xs : List A}
      → p c ≡ true
      → Around c (λ x. p x ≡ true → P x) xs
      → Around c P (filter p xs)
  filter-Around c in_ (found {xs} h) = rw in_ (found (filter-if xs h))
  filter-Around c in_ (later {x} {xs} q a) = elim (Bool-cases (p x)) [
    | inl yes_ ↦ rw yes_ (later (q yes_) (filter-Around c in_ a))
    | inr no_ ↦ rw no_ (filter-Around c in_ a)
  ]

listed {ℓ} : {A : Type ℓ} (xs : List A) → All (λ x. In x xs) xs
listed {A} xs = go xs (λ x m. m)
  where
    go : (ys : List A) → ((x : A) → In x ys → In x xs) → All (λ x. In x xs) ys
    go [] f = tt
    go (y ∷ ys) f = (f y here, go ys (λ x m. f x (there m)))

module _ (F : Float32) (policy : EffectivePolicy F.Carrier) where
  open F use {Carrier}

  Round-All {κ} :
      (P : Candidate Carrier → Type κ) {last cand : Candidate Carrier}
      {before cs : List (Candidate Carrier)}
      → Round F policy last before cand cs
      → P cand
      → All P (last ∷ before)
      → All P cs
  Round-All P (keep m) p h = h
  Round-All P (replace m) p (_, h) = (p, h)
  Round-All P (push a) p h = (p, h)

  select-All {κ} :
      (P : Candidate Carrier → Type κ) (selected : List (Candidate Carrier))
      (cand : Candidate Carrier)
      → P cand
      → All P selected
      → All P (select F policy selected cand)
  select-All P [] cand p h = unfold select in (p, tt)
  select-All P (last ∷ before) cand p h = Round-All P (select-Round F policy last before cand) p h

  sweep-All {κ} :
      (P : Candidate Carrier → Type κ) (selected cands : List (Candidate Carrier))
      → All P selected
      → All P cands
      → All P (sweep F policy selected cands)
  unfolding sweep
  sweep-All P selected [] h k = h
  sweep-All P selected (cand ∷ cands) h (p, k) =
      sweep-All P (select F policy selected cand) cands (select-All P selected cand p h) k

  -- Every entity of the result is the conversion of a candidate that was given and that reaches the
  -- threshold of its type.
  pub resolve_sound :
      (cands : List (Candidate Carrier))
      → All
          (λ e.
            (c : Candidate Carrier) × In c cands × (passes F policy c ≡ true) × (e ≡ to_entity c))
          (resolve F policy cands)
  unfolding resolve
  resolve_sound cands = All-map _ to_entity _ (
      All-reverse _ _ (
        from_given (sweep F policy [] _) (
          sweep-All (λ c. In c cands × (passes F policy c ≡ true)) [] _ tt
            (sort_by-All (start F policy) _ _
              (filter_passed (passes F policy) (λ c. In c cands) cands (listed cands))))))
    where
      from_given :
          (cs : List (Candidate Carrier))
          → All (λ c. In c cands × (passes F policy c ≡ true)) cs
          → All
              (λ d.
                (c : Candidate Carrier) × In c cands
                × (passes F policy c ≡ true)
                × (to_entity d ≡ to_entity c))
              cs
      from_given [] h = tt
      from_given (c ∷ cs) ((m, p), h) = ((c, m, p, refl), from_given cs h)

  Round-keeps :
      (c : Candidate Carrier) {last cand : Candidate Carrier} {before cs : List (Candidate Carrier)}
      → Round F policy last before cand cs
      → Apart c cand
      → In c (last ∷ before)
      → In c cs
  Round-keeps c (keep m) a i = i
  Round-keeps c (push m) a i = there i
  Round-keeps c (replace m) a here = absurd (cc (m, a.0))
  Round-keeps c (replace m) a (there i) = there i

  sweep-keeps :
      (c : Candidate Carrier) (selected cands : List (Candidate Carrier))
      → All (Apart c) cands
      → In c selected
      → In c (sweep F policy selected cands)
  unfolding sweep
  sweep-keeps c selected [] h i = i
  sweep-keeps c [] (cand ∷ cands) h i = elim i [ ]
  sweep-keeps c (last ∷ before) (cand ∷ cands) (a, h) i =
      sweep-keeps c (select F policy (last ∷ before) cand) cands h
        (Round-keeps c (select-Round F policy last before cand) a i)

  select-Apart :
      (c : Candidate Carrier) (selected : List (Candidate Carrier))
      → All (Apart c) selected
      → In c (select F policy selected c)
  select-Apart c [] h = unfold select in here
  select-Apart c (last ∷ before) (a, h) = go (select-Round F policy last before c)
    where
      go : {cs : List (Candidate Carrier)} → Round F policy last before c cs → In c cs
      go (keep m) = absurd (cc (m, a.1))
      go (replace m) = absurd (cc (m, a.1))
      go (push m) = here

  sweep-Around :
      (c : Candidate Carrier) {cands : List (Candidate Carrier)}
      (selected : List (Candidate Carrier))
      → Around c (Apart c) cands
      → All (Apart c) selected
      → In c (sweep F policy selected cands)
  unfolding sweep
  sweep-Around c selected (found {xs} h) k =
      sweep-keeps c (select F policy selected c) xs h (select-Apart c selected k)
  sweep-Around c selected (later {x} a h) k =
      sweep-Around c (select F policy selected x) h (select-All (Apart c) selected x a k)

  -- A candidate that reaches its threshold and overlaps no other candidate that does becomes an
  -- entity, whatever the order of the candidates.
  pub resolve_complete :
      (c : Candidate Carrier) (cands : List (Candidate Carrier))
      → passes F policy c ≡ true
      → Around c (λ d. passes F policy d ≡ true → Apart c d) cands
      → In (to_entity c) (resolve F policy cands)
  unfolding resolve
  resolve_complete c cands p h = In-map to_entity (
      In-reverse (
        sweep-Around c []
          (sort_by-Around (start F policy) (Apart c) c
            (filter-Around (passes F policy) (Apart c) c p h))
          tt))

  -- Three candidates in the order of their starts, where each overlaps the next one only, the second
  -- wins against the first and the third against the second, and none is an address: the third alone
  -- is selected, although it does not overlap the first.
  pub resolve_chain :
      (a b c : Candidate Carrier)
      → passes F policy a ≡ true
      → passes F policy b ≡ true
      → passes F policy c ≡ true
      → start F policy a ≤ start F policy b
      → start F policy b ≤ start F policy c
      → overlaps (Candidate.span a) (Candidate.span b) ≡ true
      → overlaps (Candidate.span b) (Candidate.span c) ≡ true
      → absorbs F policy a b ≡ false
      → absorbs F policy b c ≡ false
      → a_wins F policy b a ≡ true
      → a_wins F policy c b ≡ true
      → Apart a c
      → resolve F policy (a ∷ b ∷ c ∷ []) ≡ to_entity c ∷ []
  unfolding resolve sweep select
  resolve_chain a b c pa pb pc ab bc oab obc xab xbc wba wcb apart =
      rw (pa, pb, pc, sort_by_id (start F policy) (a ∷ b ∷ c ∷ []) sorted)
        (rw (oab, xab, wba) (rw (obc, xbc, wcb) refl))
    where
      sorted : Sorted (start F policy) (a ∷ b ∷ c ∷ [])
      sorted = ((ab, (le_trans ab bc, tt)), ((bc, tt), (tt, tt)))
