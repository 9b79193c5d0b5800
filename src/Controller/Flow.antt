-- ===== src/Controller/Flow.antt =====
-- What a handler of src/controller/ works on, and its early returns.
pub mod Returns
use alfavibe_hack.Prelude.{
  ℕ, ◌+◌, ◌*◌, ◌/◌, ◌≡◌, refl, Bool, List, [], ◌∷◌, Option, none, some, Text, text_Eq, utf8,
  decimal, max,
}
use alfavibe_hack.Prelude.Maps.{get, get_or}
use alfavibe_hack.Domain.PdType.{PdType}
use alfavibe_hack.RateLimit.{Bucket, check}
use alfavibe_hack.RateLimit.Float64.{nanos_per_sec}
use alfavibe_hack.Guard.Types.{Outside}
use alfavibe_hack.Controller.Dto.{BatchRequest, Body, ErrorBody, ProcessRequest, Request, Response}
use alfavibe_hack.Controller.Errors.{ServiceError, code, message, status}
use alfavibe_hack.Controller.Middleware.{ServerConfig}

-- What the log says of a call that went well.
pub data Details : Type 0 where
  found : ℕ → Bool → ℕ → List (PdType × ℕ) → Text → Details
  filled : ℕ → ℕ → Details
  restored : ℕ → ℕ → Details
  repeated : ℕ → Details
  items : ℕ → Details

-- A counter of src/infra/metrics.rs that goes up, a line of the log, or a request that is sent to an
-- upstream. Durations carry no value.
pub data Event : Type 0 where
  requests : Text → Text → Text → ℕ → Event
  request_duration : Text → Text → Text → Event
  tokens : Text → Text → ℕ → Event
  entities : PdType → Text → Event
  processed : Text → Text → Text → Details → Event
  sent : Text → Request → Event

-- The events stand with the latest first.
pub record State (V : Type 0) : Type 0 where
  pub vault : V
  pub buckets : List (Text × Bucket)
  pub events : List Event

-- A value, an answer that ends the handler, or a panic.
pub data Flow (S V A : Type 0) : Type 0 where
  goes : A → State V → Flow S V A
  answers : Response S → State V → Flow S V A
  panics : Flow S V A

abbrev pub Handler : Type 0 → Type 0 → Type 0 → Type 0
Handler S V A = State V → Flow S V A

infixl 5 ◌>>=◌
abbrev pub ◌>>=◌ : {S V A B : Type 0} → Handler S V A → (A → Handler S V B) → Handler S V B
◌>>=◌ m f s = elim (m s) [ goes a t ↦ f a t | answers r t ↦ answers r t | panics ↦ panics ]

-- The answer of a handler and the state after it; `none` for a panic.
abbrev pub responds : {S V : Type 0} → Flow S V (Response S) → Option (Response S × State V)
responds (goes r s) = some (r, s)
responds (answers r s) = some (r, s)
responds panics = none

-- How a call with a deadline ends: in time, or dropped, and then it leaves a vault behind.
pub data Timed (V : Type 0) : Type 0 where
  in_time : Timed V
  elapsed : V → Timed V

-- What a request draws from outside. The identifiers come from the crate `uuid`, the bodies are read
-- by `serde_json`, and `call` is of the n-th call of the service.
pub record World (V : Type 0) : Type 0 where
  pub request_id : Text
  pub auth_request_id : Text
  pub now : ℕ
  pub latency : ℕ
  pub call : ℕ → Timed V
  pub outside : ℕ → Outside
  pub parse_request : Text → Option ProcessRequest
  pub parse_batch : Text → Option BatchRequest

module _ {V : Type 0} where
  abbrev pub note : Event → State V → State V
  note e s = record s { events = e ∷ s.events }

  abbrev pub notes : List Event → State V → State V
  notes [] s = s
  notes (e ∷ es) s = notes es (note e s)

abbrev json_header : List (Text × Text)
json_header = (utf8 "content-type", utf8 "application/json") ∷ []

module _ {S : Type 0} where
  unfoldable pub json_response : ℕ → Body S → Response S
  json_response st body = record { status = st; headers = json_header; body = body }

  abbrev pub error_body : Text → ServiceError → Body S
  error_body request_id se =
      Body.error (record { code = code se; message = message se; request_id = request_id })

module _ {S : Type 0} where
  abbrev rate_limited : ℕ → Text → Response S
  rate_limited secs request_id = record {
    status = 429;
    headers = (utf8 "retry-after", decimal secs) ∷ [];
    body = Body.error (record {
      code = utf8 "rate_limited";
      message = utf8 "rate limit exceeded";
      request_id = request_id;
    });
  }

module _ {S V : Type 0} where
  -- `error_response` of process_handler.rs, which counts the answer.
  unfoldable pub error_response : {A : Type 0} → ℕ → ServiceError → Text → Handler S V A
  unfolding json_response
  error_response st se request_id s =
      answers (json_response st (error_body request_id se)) (note (Event.requests [] [] [] st) s)

  abbrev pub refuse : {A : Type 0} → ServiceError → Text → Handler S V A
  refuse se request_id = error_response (status se) se request_id

  abbrev limited : Text → Text → Option ℕ × List (Text × Bucket) → Handler S V (Unit {0})
  limited system_id request_id (none, buckets) s = goes tt (record s { buckets = buckets })
  limited system_id request_id (some wait, buckets) s =
      answers (rate_limited (max (wait / nanos_per_sec) 1) request_id)
        (record s { buckets = buckets })

  -- The limit of the rate of a system.
  unfoldable pub limit_rate : ServerConfig → ℕ → Text → Text → Handler S V (Unit {0})
  limit_rate cfg now system_id request_id s =
      limited system_id request_id
        (check now system_id (get_or system_id 0 cfg.system_rate_limit) s.buckets) s
