-- ===== src/Controller/Proxy/Steps.antt =====
-- The steps of the handler in src/controller/proxy_handler.rs that end it early.
use alfavibe_hack.Prelude.{
  ℕ, Bool, true, false, List, [], ◌∷◌, Option, none, some, Text, text_Eq, utf8, if◌then◌else◌,
}
use alfavibe_hack.Domain.Policy.{EffectivePolicy}
use alfavibe_hack.Config.Profile.{CompiledConfig, RouteConfig}
use alfavibe_hack.Config.Policy.{Resolved}
use alfavibe_hack.Guard.Types.{GuardService}
use alfavibe_hack.JsonPaths.{Value}
use alfavibe_hack.Controller.Dto.{Body, Request, Response}
use alfavibe_hack.Controller.Errors.{ServiceError, of_policy, status}
use alfavibe_hack.Controller.Flow.{
  Event, Handler, answers, error_body, goes, json_response, note, panics,
}
use alfavibe_hack.Controller.Middleware.{Auth, RequestCtx, ServerConfig, auth_status}
use alfavibe_hack.Prelude.{leb, length}
use alfavibe_hack.Prelude.{leb, length}

-- The answer of a language model.
pub record Upstream : Type 0 where
  pub status : ℕ
  pub headers : List (Text × Text)
  pub body : Text

-- The reader and the writer of JSON of the crate `serde_json`.
pub record Json : Type 0 where
  pub parse : Text → Option Value
  pub write : Value → Text

-- `llm` sends a request to an upstream; its errors are not told apart.
pub record ProxyHandler (S V : Type 0) : Type 0 where
  pub cfg : ServerConfig
  pub service : GuardService S V
  pub resolver : CompiledConfig S
  pub llm : Option (Text → Request → Option Upstream)

abbrev pub with_body : Request → Text → Request
with_body req body = record req { body = some body }

-- The answer of the upstream as it is.
abbrev pub raw : {S : Type 0} → Upstream → Response S
raw resp = record { status = resp.status; headers = resp.headers; body = Body.bytes resp.body }

abbrev pub degraded_header : Bool → List (Text × Text)
degraded_header false = []
degraded_header true = (utf8 "x-pd-degraded", utf8 "ner") ∷ []

abbrev pub rebuilt : {S : Type 0} → ℕ → Bool → Text → Response S
rebuilt st degraded body = record {
  status = st;
  headers = degraded_header degraded;
  body = Body.bytes body;
}

module _ {S V : Type 0} where
  -- `error_response` of proxy_handler.rs, which does not count the answer.
  unfoldable pub plain_error : {A : Type 0} → ℕ → ServiceError → Text → Handler S V A
  plain_error st se request_id s = answers (json_response st (error_body request_id se)) s

  abbrev pub identified : Text → Auth → Handler S V RequestCtx
  identified fresh (Auth.authenticated ctx) s = goes ctx s
  identified fresh (Auth.rejected f) s =
      plain_error (auth_status f) ServiceError.unauthorized fresh s

  unfoldable pub read_body : ℕ → Text → Option Text → Handler S V Text
  read_body limit request_id none s =
      plain_error (status ServiceError.payload_too_large) ServiceError.payload_too_large request_id
        s
  read_body limit request_id (some b) s =
      if leb (length b) limit
      then goes b s
      else plain_error (status ServiceError.payload_too_large) ServiceError.payload_too_large
          request_id s

  abbrev pub route_or_error : Text → Option RouteConfig → Handler S V RouteConfig
  route_or_error request_id none s =
      plain_error 404 (ServiceError.bad_request (utf8 "route not found")) request_id s
  route_or_error request_id (some r) s = goes r s

  abbrev pub policy_or_error : Text → Resolved S → Handler S V (EffectivePolicy S)
  policy_or_error request_id (Resolved.resolved p) s = goes p s
  policy_or_error request_id (Resolved.refused e) s =
      plain_error (status (of_policy e)) (of_policy e) request_id s

  abbrev pub json_or_error : Text → Option Value → Handler S V Value
  json_or_error request_id none s =
      plain_error 400 (ServiceError.bad_request (utf8 "invalid json")) request_id s
  json_or_error request_id (some j) s = goes j s

  -- The request is sent, if there is a client.
  unfoldable pub send :
      Option (Text → Request → Option Upstream) → Text → Text → Request → Handler S V Upstream
  send none request_id upstream req s = plain_error 500 ServiceError.internal request_id s
  send (some client) request_id upstream req s = elim (client upstream req) [
    | none ↦
        plain_error 502 ServiceError.upstream_error request_id (note (Event.sent upstream req) s)
    | some resp ↦ goes resp (note (Event.sent upstream req) s)
  ]

  abbrev pub progressed : {A : Type 0} → Option A → (A → V) → Handler S V A
  progressed none f s = panics
  progressed (some a) f s = goes a (record s { vault = f a })
