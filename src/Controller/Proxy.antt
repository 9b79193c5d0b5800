-- ===== src/Controller/Proxy.antt =====
-- src/controller/proxy_handler.rs: requests that are masked on the way to a language model.
pub mod Routes
pub mod Strings
pub mod Steps
pub mod Sent
pub mod Guarded
pub mod Allowed
use alfavibe_hack.Prelude.{
  ℕ, Bool, true, false, not, ◌&&◌, ◌||◌, List, [], ◌∷◌, ◌++◌, Option, none, some, Text, text_Eq,
  utf8, if◌then◌else◌, ◌==◌,
}
use alfavibe_hack.Domain.Float32.{Float32}
use alfavibe_hack.Domain.Policy.{EffectivePolicy}
use alfavibe_hack.Domain.Unicode.{Unicode}
use alfavibe_hack.Mask.Digest.{Digests}
use alfavibe_hack.Config.Profile.{CompiledConfig, RouteConfig}
use alfavibe_hack.Config.Policy.{Resolved}
use alfavibe_hack.Config.Resolver.{resolve}
use alfavibe_hack.Guard.Types.{GuardService}
use alfavibe_hack.JsonPaths.{Value}
use alfavibe_hack.Controller.Dto.{Body, Request, Response}
use alfavibe_hack.Controller.Errors.{ServiceError, of_policy, status}
use alfavibe_hack.Controller.Flow.{
  Event, Flow, Handler, State, World, answers, error_body, goes, json_response, limit_rate, note,
  panics, ◌>>=◌,
}
use alfavibe_hack.Controller.Middleware.{Auth, RequestCtx, ServerConfig, auth_status, authenticate}
use alfavibe_hack.Controller.Process.{or_empty}
use alfavibe_hack.Controller.Proxy.Routes.{find_route}
use alfavibe_hack.Controller.Proxy.Strings.{Progress, demask_string, mask_string, over_paths}
use alfavibe_hack.Controller.Proxy.Steps.{
  Json, ProxyHandler, Upstream, identified, json_or_error, plain_error, policy_or_error, progressed,
  raw, read_body, rebuilt, route_or_error, send, with_body,
}

module _ (F : Float32) (u : Unicode) {V : Type 0} (h : ProxyHandler F.Carrier V) (j : Json)
    (session : Text) where
  open F use {Carrier}

  -- `proxy_raw`: without masking.
  unfoldable pub proxy_raw : RouteConfig → Text → Request → Handler Carrier V (Response Carrier)
  proxy_raw route request_id req = do
    body ← read_body h.cfg.max_body_bytes request_id req.body
    resp ← send h.llm request_id route.upstream (with_body req body)
    (λ s. goes (raw resp) s)

  -- The strings of the request are masked in one session.
  unfoldable pub mask_body :
      EffectivePolicy Carrier
      → Text
      → RouteConfig
      → World V
      → Value
      → V
      → Value × Option (Progress V)
  mask_body policy system_id route w json v =
      over_paths u (mask_string F u h.service policy system_id session w.outside) route.json_paths
        json (some (record { vault = v; calls = 0; degraded = false }))

  abbrev written : Value × Option V → Text × Option V
  written (json, v) = (j.write json, v)

  abbrev demasked :
      EffectivePolicy Carrier → Text → List Text → Text → V → Option Value → Text × Option V
  demasked policy system_id paths body v none = (body, some v)
  demasked policy system_id paths body v (some json) =
      written
        (over_paths u (demask_string F u h.service policy system_id session) paths json (some v))

  unfoldable pub demask_response :
      EffectivePolicy Carrier → Text → List Text → Text → V → Text × Option V
  demask_response policy system_id paths body v =
      demasked policy system_id paths body v (j.parse body)

  abbrev no_paths : List Text → Bool
  no_paths [] = true
  no_paths (p ∷ ps) = false

  abbrev filled_in : ℕ → Bool → Text × Option V → Handler Carrier V (Response Carrier)
  filled_in st degraded (body, none) s = panics
  filled_in st degraded (body, some v) s = goes (rebuilt st degraded body) (record s { vault = v })

  -- The answer of the upstream, demasked if the route wants it.
  unfoldable pub answer_client :
      EffectivePolicy Carrier
      → Text
      → RouteConfig
      → Bool
      → Upstream
      → Handler Carrier V (Response Carrier)
  answer_client policy system_id route degraded resp s =
      if route.response_demask && not (no_paths route.response_json_paths)
      then filled_in resp.status degraded
          (demask_response policy system_id route.response_json_paths resp.body s.vault) s
      else goes (rebuilt resp.status degraded resp.body) s

  abbrev pub send_masked :
      EffectivePolicy Carrier
      → RequestCtx
      → RouteConfig
      → Request
      → Value × Option (Progress V)
      → Handler Carrier V (Response Carrier)
  send_masked policy ctx route req (json, progress) = do
    p ← progressed progress (λ p. p.vault)
    resp ← send h.llm ctx.request_id route.upstream (with_body req (j.write json))
    answer_client policy ctx.system_id route p.degraded resp

  unfoldable pub proxy_json :
      EffectivePolicy Carrier
      → RequestCtx
      → RouteConfig
      → Request
      → World V
      → Value
      → Handler Carrier V (Response Carrier)
  proxy_json policy ctx route req w json s =
      send_masked policy ctx route req (mask_body policy ctx.system_id route w json s.vault) s

  unfoldable pub proxy_body :
      EffectivePolicy Carrier
      → RequestCtx
      → RouteConfig
      → Request
      → World V
      → Text
      → Handler Carrier V (Response Carrier)
  proxy_body policy ctx route req w body = do
    json ← json_or_error ctx.request_id (j.parse body)
    proxy_json policy ctx route req w json

  unfoldable pub proxy_policy :
      RouteConfig
      → RequestCtx
      → Request
      → World V
      → EffectivePolicy Carrier
      → Handler Carrier V (Response Carrier)
  proxy_policy route ctx req w policy = do
    body ← read_body h.cfg.max_body_bytes ctx.request_id req.body
    proxy_body policy ctx route req w body

  unfoldable pub proxy_masked :
      RouteConfig → RequestCtx → Request → World V → Handler Carrier V (Response Carrier)
  proxy_masked route ctx req w = do
    policy ← policy_or_error ctx.request_id (resolve h.resolver ctx.system_id (some route.id))
    proxy_policy route ctx req w policy

  -- The action of the route: refuse, pass on, or mask.
  unfoldable pub proxy_route :
      RequestCtx → Request → World V → RouteConfig → Handler Carrier V (Response Carrier)
  proxy_route ctx req w route s =
      if or_empty route.action == utf8 "block"
      then plain_error 403 ServiceError.forbidden ctx.request_id s
      else if or_empty route.action == utf8 "bypass"
      then proxy_raw route ctx.request_id req s
      else proxy_masked route ctx req w s

  unfoldable pub proxy_rated : Request → World V → RequestCtx → Handler Carrier V (Response Carrier)
  proxy_rated req w ctx = do
    route ← route_or_error ctx.request_id (find_route h.cfg.routes req.method req.path)
    proxy_route ctx req w route

  unfoldable pub proxy_ctx : Request → World V → RequestCtx → Handler Carrier V (Response Carrier)
  proxy_ctx req w ctx = do
    _ ← limit_rate h.cfg w.now ctx.system_id ctx.request_id
    proxy_rated req w ctx

  unfoldable pub handle : Digests → Request → World V → Handler Carrier V (Response Carrier)
  handle dig req w = do
    ctx ← identified w.request_id (authenticate dig h.cfg req.header w.auth_request_id)
    proxy_ctx req w ctx
