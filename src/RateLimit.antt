-- ===== src/RateLimit.antt =====
-- src/infra/rate_limit.rs: a bucket of tokens for each system. The counts are `f64` values, as
-- RateLimit.Float64 writes them; times are in nanoseconds.
pub mod Float64
pub mod Exact
pub mod Grants
use alfavibe_hack.Prelude.{
  ℕ, zero, suc, ◌-◌, Bool, true, false, List, [], ◌∷◌, Option, none, some, Text, text_Eq, leb, eqb,
  min, if◌then◌else◌,
}
use alfavibe_hack.Prelude.Maps.{get, insert}
use alfavibe_hack.RateLimit.Float64.{add, as_secs, div, from_secs, mul, of_u64, one, sub}

pub record Bucket : Type 0 where
  pub capacity : ℕ
  pub tokens : ℕ
  pub refill_per_sec : ℕ
  pub last : ℕ

unfoldable pub new : ℕ → ℕ → Bucket
new now rps = record {
  capacity = of_u64 rps;
  tokens = of_u64 rps;
  refill_per_sec = of_u64 rps;
  last = now;
}

-- What a bucket holds at a time; `duration_since` a later time is 0.
unfoldable pub refilled : ℕ → Bucket → ℕ
refilled now b = min (add b.tokens (mul (as_secs (now - b.last)) b.refill_per_sec)) b.capacity

abbrev pub holding : ℕ → ℕ → Bucket → Bucket
holding now tokens b = record {
  capacity = b.capacity;
  tokens = tokens;
  refill_per_sec = b.refill_per_sec;
  last = now;
}

-- `try_take`: whether a token was taken, or else how long to wait for the next one.
unfoldable pub try_take : ℕ → Bucket → Option ℕ × Bucket
unfolding refilled
try_take now b =
    let tokens = refilled now b in
    if leb one tokens
    then (none, holding now (sub tokens one) b)
    else (some (from_secs (div (sub one tokens) b.refill_per_sec)), holding now tokens b)

abbrev pub bucket_of : ℕ → ℕ → Option Bucket → Bucket
bucket_of now rps none = new now rps
bucket_of now rps (some b) = b

-- `check`: `none` is a pass. A system without a limit has no bucket.
unfoldable pub check : ℕ → Text → ℕ → List (Text × Bucket) → Option ℕ × List (Text × Bucket)
unfolding try_take
check now system_id rps buckets =
    let (wait, b) = try_take now (bucket_of now rps (get system_id buckets)) in
    if eqb rps 0 then (none, buckets) else (wait, insert system_id b buckets)
