-- ===== src/Domain/MaskState/Numbering.antt =====
-- The numbers of src/domain/entity.rs identify values: the invariant of `MaskState`.
use alfavibe_hack.Prelude.{
  ℕ, ◌+◌, ◌^◌, ◌≤◌, ◌<◌, ◌≡◌, refl, ◌↔◌, List, [], ◌∷◌, Text, text_Eq, pair_Eq, none, some, arith,
  length, Option-cases, inl, inr, ==_iff, subst, ◌⊎◌, ◌==◌, ◌&&◌, if◌then◌else◌,
}
use native.Mathlib.Nat.{add-zero}
use alfavibe_hack.Prelude.Maps.{get, get_or, get-insert}
use alfavibe_hack.Domain.PdType.{PdType}
use alfavibe_hack.Domain.MaskState.{MaskState, empty, bump, assign, next_number, run}

-- After at most `k` new values.
pub record IsNumbered (k : ℕ) (s : MaskState) : Type 0 where
  pub few : (t : PdType) → get_or t 0 s.counters ≤ k
  pub bounded :
      (t : PdType) (c : Text) (n : ℕ) → get (t, c) s.assigned ≡ some n → n ≤ get_or t 0 s.counters
  pub distinct :
      (t : PdType) (c d : Text) (n : ℕ)
      → get (t, c) s.assigned ≡ some n
      → get (t, d) s.assigned ≡ some n
      → c ≡ d

empty-IsNumbered : IsNumbered 0 empty
unfolding get
empty-IsNumbered = record {
  few = λ t. omega arith;
  bounded = λ t c n h. cc;
  distinct = λ t c d n h. cc;
}

module _ (t : PdType) (c : Text) (s : MaskState) where
  -- A value that has a number keeps the state; a new one takes the next number.
  next_number_cases :
      ((n : ℕ) × (get (t, c) s.assigned ≡ some n) × (next_number t c s ≡ (s, n)))
      ⊎ ((get (t, c) s.assigned ≡ none) × (next_number t c s ≡ (assign t c (bump t s) s, bump t s)))
  unfolding next_number
  next_number_cases = elim (Option-cases (get (t, c) s.assigned)) [
    | inl new ↦ inr (new, rw (new, next_number) refl)
    | inr (n, old) ↦ inl (n, old, rw (old, next_number) refl)
  ]

  get-assign :
      (n : ℕ) (u : PdType) (d : Text)
      → get (u, d) (assign t c n s).assigned
        ≡ (if (t == u) && (c == d) then some n else get (u, d) s.assigned)
  unfolding assign
  get-assign n u d = get-insert (t, c) (u, d) n s.assigned

  counter-assign :
      (n : ℕ) (u : PdType)
      → get_or u 0 (assign t c n s).counters ≡ (if t == u then n else get_or u 0 s.counters)
  unfolding assign
  counter-assign n u = ground (arith, get-insert t u n s.counters)

  bump-eq : (k : ℕ) → k + 1 < 2 ^ 32 → IsNumbered k s → bump t s ≡ get_or t 0 s.counters + 1
  unfolding bump
  bump-eq k small inv = omega (arith, inv.few t)

  assign-IsNumbered :
      (k : ℕ) → IsNumbered k s → IsNumbered (k + 1) (assign t c (get_or t 0 s.counters + 1) s)
  assign-IsNumbered k inv = record {
    few = λ u. ground (arith, counter-assign n u, inv.few t, inv.few u);
    bounded = λ u a m h.
        ground (arith, counter-assign n u, get-assign n u a, ==_iff t u, inv.bounded u a m);
    distinct = λ u a b m h h'. ground (
      arith,
      get-assign n u a,
      get-assign n u b,
      ==_iff t u,
      ==_iff c a,
      ==_iff c b,
      inv.bounded u a m,
      inv.bounded u b m,
      inv.distinct u a b m,
    );
  }
    where
      n : ℕ
      n = get_or t 0 s.counters + 1

  next_number-assigned : get (t, c) (next_number t c s).0.assigned ≡ some (next_number t c s).1
  next_number-assigned = elim next_number_cases [
    | inl (n, old, e) ↦ rw e old
    | inr (new, e) ↦ rw e (ground (arith, get-assign (bump t s) t c, ==_iff t t, ==_iff c c))
  ]

  next_number-keeps :
      (u : PdType) (d : Text) (n : ℕ)
      → get (u, d) s.assigned ≡ some n
      → get (u, d) (next_number t c s).0.assigned ≡ some n
  next_number-keeps u d n h = elim next_number_cases [
    | inl (m, old, e) ↦ rw e h
    | inr (new, e) ↦ rw e (ground (arith, get-assign (bump t s) u d, ==_iff t u, ==_iff c d))
  ]

  -- One more request keeps the invariant.
  pub next_number-IsNumbered :
      (k : ℕ) → k + 1 < 2 ^ 32 → IsNumbered k s → IsNumbered (k + 1) (next_number t c s).0
  next_number-IsNumbered k small inv = elim next_number_cases [
    | inl (m, old, e) ↦ rw e (record {
      few = λ u. omega (arith, inv.few u);
      bounded = inv.bounded;
      distinct = inv.distinct;
    })
    | inr (new, e) ↦ rw (e, bump-eq k small inv) (assign-IsNumbered k inv)
  ]

run-keeps :
    (reqs : List (PdType × Text)) (s : MaskState) (t : PdType) (c : Text) (n : ℕ)
    → get (t, c) s.assigned ≡ some n
    → get (t, c) (run reqs s).assigned ≡ some n
unfolding run
run-keeps [] s t c n h = h
run-keeps ((u, d) ∷ reqs) s t c n h =
    run-keeps reqs (next_number u d s).0 t c n (next_number-keeps u d s t c n h)

run-IsNumbered :
    (reqs : List (PdType × Text)) (k : ℕ) (s : MaskState)
    → k + length reqs < 2 ^ 32
    → IsNumbered k s
    → IsNumbered (k + length reqs) (run reqs s)
unfolding run
run-IsNumbered [] k s small inv = rw add-zero inv
run-IsNumbered ((u, d) ∷ reqs) k s small inv =
    let later =
      run-IsNumbered reqs (k + 1) (next_number u d s).0 (omega arith)
        (next_number-IsNumbered u d s k (omega arith) inv) in
    subst (λ j. IsNumbered j (run reqs (next_number u d s).0)) (omega arith) later

-- In a session of fewer than 2 ^ 32 requests, whatever is numbered before, between and after, two
-- values of one type get the same number exactly when their canonical forms are the same.
pub number-eq_iff :
    (before between : List (PdType × Text)) (t : PdType) (c d : Text)
    → length before + length between + 2 < 2 ^ 32
    → ((next_number t c (run before empty)).1
        ≡ (next_number t d (run between (next_number t c (run before empty)).0)).1)
      ↔ (c ≡ d)
number-eq_iff before between t c d small = (to, from)
  where
    s₁ : MaskState
    s₁ = run before empty

    m : ℕ
    m = (next_number t c s₁).1

    s₂ : MaskState
    s₂ = run between (next_number t c s₁).0

    first : get (t, c) s₂.assigned ≡ some m
    first = run-keeps between _ t c m (next_number-assigned t c s₁)

    inv₁ : IsNumbered (length before) s₁
    inv₁ =
        subst (λ j. IsNumbered j s₁) (omega arith)
          (run-IsNumbered before 0 empty (omega arith) empty-IsNumbered)

    inv₃ : IsNumbered (length before + 1 + length between + 1) (next_number t d s₂).0
    inv₃ = next_number-IsNumbered t d s₂ _ (omega arith) (
        run-IsNumbered between _ _ (omega arith)
          (next_number-IsNumbered t c s₁ _ (omega arith) inv₁))

    kept : get (t, c) (next_number t d s₂).0.assigned ≡ some m
    kept = next_number-keeps t d s₂ t c m first

    to : m ≡ (next_number t d s₂).1 → c ≡ d
    to e = inv₃.distinct t c d m kept (rw e (next_number-assigned t d s₂))

    from : c ≡ d → m ≡ (next_number t d s₂).1
    from e = cc (kept, next_number-assigned t d s₂, e)
