-- ===== src/Resolve/Sorting.antt =====
-- The stable sort of the standard library by a key, as insertion sort.
use alfavibe_hack.Prelude.{
  ℕ, ◌≤◌, ◌≡◌, refl, List, [], ◌∷◌, leb, if◌then◌else◌, All, arith, Bool-cases, inl, inr,
}

module _ {ℓ} {A : Type ℓ} (key : A → ℕ) where
  -- Before the first element with a key that is not smaller.
  unfoldable pub insert : A → List A → List A
  insert x [] = x ∷ []
  insert x (y ∷ ys) = if leb (key x) (key y) then x ∷ y ∷ ys else y ∷ insert x ys

  unfoldable pub sort_by : List A → List A
  unfolding insert
  sort_by [] = []
  sort_by (x ∷ xs) = insert x (sort_by xs)

  abbrev pub Sorted : List A → Type 0
  Sorted [] = Unit
  Sorted (x ∷ xs) = All (λ y. key x ≤ key y) xs × Sorted xs

-- `c` stands in the list, and `P` holds of all the others.
pub data Around {ℓ κ} {A : Type ℓ} (c : A) (P : A → Type κ) : List A → Type (ℓ ⊔ κ) where
  found : {xs : List A} → All P xs → Around c P (c ∷ xs)
  later : {x : A} {xs : List A} → P x → Around c P xs → Around c P (x ∷ xs)

module _ {ℓ κ} {A : Type ℓ} (key : A → ℕ) (P : A → Type κ) where
  insert-All : (x : A) (ys : List A) → P x → All P ys → All P (insert key x ys)
  unfolding insert
  insert-All x [] p h = (p, tt)
  insert-All x (y ∷ ys) p (q, h) = elim (Bool-cases (leb (key x) (key y))) [
    | inl small ↦ rw small (p, (q, h))
    | inr large ↦ rw large (q, insert-All x ys p h)
  ]

  pub sort_by-All : (xs : List A) → All P xs → All P (sort_by key xs)
  unfolding sort_by
  sort_by-All [] h = tt
  sort_by-All (x ∷ xs) (p, h) = insert-All x (sort_by key xs) p (sort_by-All xs h)

  insert_found : (c : A) (ys : List A) → All P ys → Around c P (insert key c ys)
  unfolding insert
  insert_found c [] h = found tt
  insert_found c (y ∷ ys) (q, h) = elim (Bool-cases (leb (key c) (key y))) [
    | inl small ↦ rw small (found (q, h))
    | inr large ↦ rw large (later q (insert_found c ys h))
  ]

  insert-Around : (c x : A) {ys : List A} → P x → Around c P ys → Around c P (insert key x ys)
  unfolding insert
  insert-Around c x p (found {xs} h) = elim (Bool-cases (leb (key x) (key c))) [
    | inl small ↦ rw small (later p (found h))
    | inr large ↦ rw large (found (insert-All x xs p h))
  ]
  insert-Around c x p (later {x = y} {xs} q a) = elim (Bool-cases (leb (key x) (key y))) [
    | inl small ↦ rw small (later p (later q a))
    | inr large ↦ rw large (later q (insert-Around c x p a))
  ]

  -- Sorting moves `c` and the others about, and loses none.
  pub sort_by-Around : (c : A) {xs : List A} → Around c P xs → Around c P (sort_by key xs)
  unfolding sort_by
  sort_by-Around c (found {xs} h) = insert_found c (sort_by key xs) (sort_by-All xs h)
  sort_by-Around c (later {x} p a) = insert-Around c x p (sort_by-Around c a)

module _ {ℓ} {A : Type ℓ} (key : A → ℕ) where
  All-weaken : (a b : ℕ) (zs : List A) → All (λ z. b ≤ key z) zs → a ≤ b → All (λ z. a ≤ key z) zs
  All-weaken a b [] k le = tt
  All-weaken a b (z ∷ zs) (p, k) le = (omega arith, All-weaken a b zs k le)

  insert-Sorted : (x : A) (ys : List A) → Sorted key ys → Sorted key (insert key x ys)
  unfolding insert
  insert-Sorted x [] h = (tt, tt)
  insert-Sorted x (y ∷ ys) (q, h) = elim (Bool-cases (leb (key x) (key y))) [
    | inl small ↦ rw small ((ground arith, All-weaken (key x) (key y) ys q (ground arith)), (q, h))
    | inr large ↦
        rw large (insert-All key (λ z. key y ≤ key z) x ys (ground arith) q, insert-Sorted x ys h)
  ]

  -- The result is in the order of the keys.
  pub sort_by-Sorted : (xs : List A) → Sorted key (sort_by key xs)
  unfolding sort_by
  sort_by-Sorted [] = tt
  sort_by-Sorted (x ∷ xs) = insert-Sorted x (sort_by key xs) (sort_by-Sorted xs)

  insert_least : (x : A) (ys : List A) → All (λ y. key x ≤ key y) ys → insert key x ys ≡ x ∷ ys
  unfolding insert
  insert_least x [] h = refl
  insert_least x (y ∷ ys) (le, h) = ground arith

  -- What is in order stays as it is.
  pub sort_by_id : (xs : List A) → Sorted key xs → sort_by key xs ≡ xs
  unfolding sort_by
  sort_by_id [] h = refl
  sort_by_id (x ∷ xs) (le, h) = rw (sort_by_id xs h) (insert_least x xs le)
