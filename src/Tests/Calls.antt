-- ===== src/Tests/Calls.antt =====
-- The limiter, the breaker and the JSON paths on sequences of calls.
use alfavibe_hack.Prelude.{
  ℕ, suc, ◌+◌, ◌*◌, ◌≡◌, ◌≢◌, refl, true, false, List, [], ◌∷◌, ◌++◌, Text, none, some, utf8,
  text_eq, arith, leb, min, length, All,
}
use alfavibe_hack.Breaker.{CircuitState, Settings, allow, new, opened, record_call}
use alfavibe_hack.Breaker.States.{Steps, Step, Steps-stays_open}
use alfavibe_hack.Breaker.Window.{failed_calls, last_time, run_calls, run_calls-verdict, verdict}
use alfavibe_hack.JsonPaths.{Members, Path_, PathSegment, Value, Values, extract, replace}
use alfavibe_hack.JsonPaths.Parse.{at_end, parse_from, parse_trimmed, step}
use alfavibe_hack.JsonPaths.Parse.Printed.{parse_trimmed-print_path, print_path}
use alfavibe_hack.JsonPaths.Replaced.{extract-replace, run_over}
use alfavibe_hack.RateLimit.Grants.{Call, Limited, passes, passes-burst, times_of}

-- Three calls of a system with the limit 2, and one of another between.
abbrev calls : List Call
calls = (9, (utf8 "a", 2)) ∷ (5, (utf8 "b", 1)) ∷ (9, (utf8 "a", 2)) ∷ (9, (utf8 "a", 2)) ∷ []

limited : Limited (utf8 "a") 2 calls
limited = ((λ e. refl), ((λ e. cc), ((λ e. refl), ((λ e. refl), tt))))

at_once : All (λ now. now ≡ 9) (times_of (utf8 "a") calls)
unfolding times_of text_eq
at_once = (refl, (refl, (refl, tt)))

passes-burst_example : passes (utf8 "a") calls [] ≡ min (length (times_of (utf8 "a") calls)) 2
passes-burst_example = passes-burst (utf8 "a") 2 9 calls (omega arith) (omega arith) limited at_once

-- Opens when half of four calls fail, for a second.
abbrev settings : Settings
settings = record { ratio_reached = λ f t. leb t (2 * f); window = 4; open_seconds = 1 }

Steps-stays_open_example :
    (record_call settings 3000 true (allow settings 2000 (opened 500)).1).state
    ≢ CircuitState.closed
Steps-stays_open_example =
    Steps-stays_open settings
      (Steps.step (Step.asked {b = opened 500} 2000) (Steps.step (Step.told 3000 true) Steps.stop))
      is_open
  where
    is_open : CircuitState.open_ ≢ CircuitState.closed
    is_open h = cc

run_calls-verdict_example :
    run_calls settings ((1, true) ∷ (2, false) ∷ (3, true) ∷ (4, false) ∷ []) new
    ≡ verdict settings
        (0 + failed_calls ((1, true) ∷ (2, false) ∷ (3, true) ∷ (4, false) ∷ []))
        (last_time 1 ((2, false) ∷ (3, true) ∷ (4, false) ∷ []))
        new
run_calls-verdict_example =
    run_calls-verdict settings (omega arith) 1 true ((2, false) ∷ (3, true) ∷ (4, false) ∷ []) new
      (omega arith) refl

abbrev marked : Text → ℕ → Text × ℕ
marked t n = (t ++ utf8 "!", suc n)

abbrev document : Value
document = Value.object (
    Members.member (utf8 "m")
      (Value.array (
        Values.item (Value.string (utf8 "x")) (Values.item (Value.string (utf8 "y")) Values.none_)))
      Members.empty)

abbrev every : Path_
every = PathSegment.key (utf8 "m") ∷ PathSegment.all_ ∷ []

extract-replace_example :
    (extract every (replace every marked document 0).0, (replace every marked document 0).1)
    ≡ run_over marked (extract every document) 0
extract-replace_example = extract-replace marked every document 0

parse_trimmed-print_path_example :
    parse_trimmed (print_path (PathSegment.key (utf8 "m") ∷ PathSegment.index 10 ∷ []))
    ≡ some (PathSegment.key (utf8 "m") ∷ PathSegment.index 10 ∷ [])
parse_trimmed-print_path_example =
    parse_trimmed-print_path (PathSegment.key (utf8 "m") ∷ PathSegment.index 10 ∷ [])
      (((λ h. ground arith), tt), (omega arith, tt))

-- The loose forms that the parser takes too.
loose_paths :
    (parse_trimmed (utf8 "$.messages[*].content")
      ≡ some (
          PathSegment.key (utf8 "messages")
          ∷ PathSegment.all_
          ∷ PathSegment.key (utf8 "content")
          ∷ []))
    × (parse_trimmed (utf8 "$[\"a\"") ≡ some (PathSegment.key (utf8 "a") ∷ []))
    × (parse_trimmed (utf8 "$[\"a") ≡ none)
unfolding parse_trimmed parse_from step at_end
loose_paths = (refl, refl, refl)
