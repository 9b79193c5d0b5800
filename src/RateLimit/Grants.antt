-- ===== src/RateLimit/Grants.antt =====
-- How many requests the limiter of src/infra/rate_limit.rs lets through.
use alfavibe_hack.Prelude.{
  ℕ, zero, suc, ◌+◌, ◌*◌, ◌^◌, ◌≤◌, ◌<◌, ◌≡◌, ◌≢◌, refl, true, false, List, [], ◌∷◌, Option, none,
  some, Text, text_Eq, eqb, leb, min, if◌then◌else◌, arith, Bool-cases, inl, inr, ap, ◌∙◌, All,
  ==_iff, ◌==◌, length,
}
use alfavibe_hack.Prelude.Maps.{get, get-insert_self, get-insert_ne}
use alfavibe_hack.RateLimit.{Bucket, bucket_of, check, holding, new, refilled, try_take}
use alfavibe_hack.RateLimit.Exact.{add_none, mul_none, of_u64_exact, sub_one}
use alfavibe_hack.RateLimit.Float64.{of_u64, one}
use native.Mathlib.Nat.{mul-le-mul_right, suc-mul}

abbrev pub granted : Option ℕ → ℕ
granted none = 1
granted (some _) = 0

-- The requests of a sequence of times that find a token.
unfoldable pub grants : List ℕ → Bucket → ℕ
grants [] b = 0
grants (now ∷ times) b = let (wait, b') = try_take now b in granted wait + grants times b'

-- A bucket of the limit `r` with `n` tokens at the time `t`.
abbrev level : ℕ → ℕ → ℕ → Bucket
unfolding new
level t r n = holding t (n * one) (new t r)

new-level : (t r : ℕ) → r < 2 ^ 53 → new t r ≡ level t r r
unfolding new
new-level t r small = ap (λ x. holding t x (new t r)) (of_u64_exact r small)

refilled-level : (t r n : ℕ) → n ≤ r → r < 2 ^ 53 → refilled t (level t r n) ≡ n * one
unfolding refilled new
refilled-level t r n le small =
    let below : n * one ≤ r * one = mul-le-mul_right one le in
    let held : min (n * one) (r * one) ≡ n * one = omega arith in
    rw (mul_none t (of_u64 r), add_none n (omega arith), of_u64_exact r small) held

try_take-level :
    (t r n : ℕ) → suc n ≤ r → r < 2 ^ 53 → try_take t (level t r (suc n)) ≡ (none, level t r n)
unfolding try_take new
try_take-level t r n le small =
    let enough : leb one (suc n * one) ≡ true = ground (arith, suc-mul n one) in
    rw (refilled-level t r (suc n) le small, enough, sub_one n (omega arith)) refl

try_take-empty :
    (t r : ℕ)
    → r < 2 ^ 53
    → granted (try_take t (level t r 0)).0 ≡ 0 × (try_take t (level t r 0)).1 ≡ level t r 0
unfolding try_take new
try_take-empty t r small = rw (refilled-level t r 0 (omega arith) small) (refl, refl)

grants-level :
    (times : List ℕ) (t r n : ℕ)
    → n ≤ r
    → r < 2 ^ 53
    → All (λ now. now ≡ t) times
    → grants times (level t r n) ≡ min (length times) n
unfolding grants
grants-level [] t r n le small at = omega arith
grants-level (now ∷ times) t r zero le small (here, at) =
    let (refused, same) = try_take-empty t r small in
    rw (here, refused, same, grants-level times t r 0 le small at) (omega arith)
grants-level (now ∷ times) t r (suc n) le small (here, at) =
    rw (here, try_take-level t r n le small, grants-level times t r n (omega arith) small at)
      (omega arith)

-- A call of `check`: its time, its system and the limit of that system.
abbrev pub Call : Type 0
Call = ℕ × (Text × ℕ)

-- The calls of a system among all.
unfoldable pub times_of : Text → List Call → List ℕ
times_of id [] = []
times_of id ((now, (system_id, rps)) ∷ cs) =
    let later = times_of id cs in if system_id == id then now ∷ later else later

-- How many of them `check` lets pass.
unfoldable pub passes : Text → List Call → List (Text × Bucket) → ℕ
passes id [] m = 0
passes id ((now, (system_id, rps)) ∷ cs) m =
    let (wait, m') = check now system_id rps m in
    let later = passes id cs m' in if system_id == id then granted wait + later else later

-- The calls of the system have one limit, which is not 0.
abbrev pub Limited : Text → ℕ → List Call → Type 0
Limited id r cs = All (λ c. c.1.0 ≡ id → c.1.1 ≡ r) cs

check-own :
    (now r : ℕ) (id : Text) (m : List (Text × Bucket))
    → 0 < r
    → (check now id r m).0 ≡ (try_take now (bucket_of now r (get id m))).0
      × get id (check now id r m).1 ≡ some (try_take now (bucket_of now r (get id m))).1
unfolding check
check-own now r id m pos =
    let limited : eqb r 0 ≡ false = ground arith in
    rw limited (refl, get-insert_self id (try_take now (bucket_of now r (get id m))).1 m)

check-other :
    (now r : ℕ) (id other : Text) (m : List (Text × Bucket))
    → other ≢ id
    → get id (check now other r m).1 ≡ get id m
unfolding check
check-other now r id other m differ = elim (Bool-cases (eqb r 0)) [
  | inl free ↦ rw free refl
  | inr limited ↦
      rw limited (get-insert_ne other id (try_take now (bucket_of now r (get other m))).1 m differ)
]

passes-grants :
    (id : Text) (r t : ℕ) (cs : List Call) (m : List (Text × Bucket))
    → 0 < r
    → Limited id r cs
    → All (λ now. now ≡ t) (times_of id cs)
    → passes id cs m ≡ grants (times_of id cs) (bucket_of t r (get id m))
unfolding passes grants times_of
passes-grants id r t [] m pos limited = λ at. refl
passes-grants id r t ((now, (other, rps)) ∷ cs) m pos (one, limited) =
    elim (Bool-cases (other == id)) [
      | inl same ↦
          rw (times_of, same)
            (λ (here, at).
              let own : other ≡ id = (==_iff other id).0 same in
              let (waited, got) = check-own t r id m pos in
              let ih = passes-grants id r t cs (check t id r m).1 pos limited at in
              rw (own, one own, here, grants, ← waited)
                (ap (λ n. granted (check t id r m).0 + n)
                  (ih ∙ ap (λ o. grants (times_of id cs) (bucket_of t r o)) got)))
      | inr differ ↦
          let ne : other ≢ id = λ e. absurd (ground (arith, (==_iff other id).1 e)) in
          rw (passes, times_of, differ)
            (λ at.
              passes-grants id r t cs (check now other rps m).1 pos limited at
              ∙ ap (λ o. grants (times_of id cs) (bucket_of t r o))
                  (check-other now rps id other m ne))
    ]

-- When all calls of a system come at one time and carry one limit that is not 0, exactly as many of
-- them pass as the limit says, or all if they are fewer, whatever calls of other systems come between.
-- The limit is below 2 ^ 53.
pub passes-burst :
    (id : Text) (r t : ℕ) (cs : List Call)
    → 0 < r
    → r < 2 ^ 53
    → Limited id r cs
    → All (λ now. now ≡ t) (times_of id cs)
    → passes id cs [] ≡ min (length (times_of id cs)) r
unfolding get
passes-burst id r t cs pos small limited at =
    rw (passes-grants id r t cs [] pos limited at, new-level t r small)
      (grants-level (times_of id cs) t r r (omega arith) small at)
