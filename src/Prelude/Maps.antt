-- ===== src/Prelude/Maps.antt =====
-- `HashMap` as an association list: the first entry of a key counts.
use alfavibe_hack.Prelude.{
  Bool, true, List, [], ◌∷◌, Option, none, some, ◌≡◌, refl, arith, Eq, ◌==◌, ==_iff, ==_refl, ==_ne,
  ◌≢◌, if◌then◌else◌,
}

module _ {ℓ κ} {K : Type ℓ} {V : Type κ} ⦃e : Eq K⦄ where
  unfoldable pub get : K → List (K × V) → Option V
  get k [] = none
  get k ((j, v) ∷ m) = if j == k then some v else get k m

  unfoldable pub insert : K → V → List (K × V) → List (K × V)
  insert k new [] = (k, new) ∷ []
  insert k new ((j, old) ∷ m) = if j == k then (k, new) ∷ m else (j, old) ∷ insert k new m

  unfoldable pub remove : K → List (K × V) → List (K × V)
  remove k [] = []
  remove k ((j, v) ∷ m) = let rest = remove k m in if j == k then rest else (j, v) ∷ rest

  pub get-insert :
      (k j : K) (v : V) (m : List (K × V))
      → get j (insert k v m) ≡ (if k == j then some v else get j m)
  unfolding get insert
  get-insert k j v [] = refl
  get-insert k j v ((i, w) ∷ m) =
      ground (arith, ==_iff k j, ==_iff i k, ==_iff i j, get-insert k j v m)

  pub get-insert_self : (k : K) (v : V) (m : List (K × V)) → get k (insert k v m) ≡ some v
  get-insert_self k v m = rw (get-insert k k v m) (rw (==_refl k))

  pub get-insert_ne : (k j : K) (v : V) (m : List (K × V)) → k ≢ j → get j (insert k v m) ≡ get j m
  get-insert_ne k j v m h = rw (get-insert k j v m) (rw (==_ne k j h))

abbrev pub get_or {ℓ κ} : {K : Type ℓ} {V : Type κ} ⦃e : Eq K⦄ → K → V → List (K × V) → V
get_or k d m = elim (get k m) [ none ↦ d | some v ↦ v ]

abbrev pub contains_key {ℓ κ} : {K : Type ℓ} {V : Type κ} ⦃e : Eq K⦄ → K → List (K × V) → Bool
contains_key k m = elim (get k m) [ none ↦ Bool.false | some _ ↦ true ]
