-- ===== src/Controller/Router.antt =====
-- src/controller/router.rs: which handler answers a request.
use alfavibe_hack.Prelude.{
  Bool, ◌&&◌, List, [], Option, none, some, Text, text_Eq, utf8, if◌then◌else◌, ◌==◌, ◌⊎◌,
}
use alfavibe_hack.Domain.Float32.{Float32}
use alfavibe_hack.Domain.Unicode.{Unicode, starts_with}
use alfavibe_hack.Mask.Digest.{Digests}
use alfavibe_hack.RateLimit.{Bucket}
use alfavibe_hack.Controller.Admin
use alfavibe_hack.Controller.Batch.{handle_batch}
use alfavibe_hack.Controller.Dto.{Body, Request, Response}
use alfavibe_hack.Controller.Flow.{Event, State, World, responds}
use alfavibe_hack.Controller.Middleware.{InflightGuard}
use alfavibe_hack.Controller.Process.{ProcessHandler}
use alfavibe_hack.Controller.Process
use alfavibe_hack.Controller.Proxy.Steps.{Json, ProxyHandler}
use alfavibe_hack.Controller.Proxy

pub data Endpoint : Type 0 where
  process batch live ready proxy metrics reload nowhere : Endpoint

abbrev is : Request → Text → Text → Bool
is req method path = (req.method == method) && (req.path == path)

unfoldable pub public_endpoint : Request → Endpoint
public_endpoint req =
    if is req (utf8 "POST") (utf8 "/process")
    then Endpoint.process
    else if is req (utf8 "POST") (utf8 "/process/batch")
    then Endpoint.batch
    else if is req (utf8 "GET") (utf8 "/health/live")
    then Endpoint.live
    else if is req (utf8 "GET") (utf8 "/health/ready")
    then Endpoint.ready
    else if starts_with (utf8 "/proxy/") req.path
    then Endpoint.proxy
    else Endpoint.nowhere

unfoldable pub admin_endpoint : Request → Endpoint
admin_endpoint req =
    if is req (utf8 "GET") (utf8 "/metrics")
    then Endpoint.metrics
    else if is req (utf8 "GET") (utf8 "/health/live")
    then Endpoint.live
    else if is req (utf8 "GET") (utf8 "/health/ready")
    then Endpoint.ready
    else if is req (utf8 "POST") (utf8 "/admin/config/reload")
    then Endpoint.reload
    else Endpoint.nowhere

abbrev not_found : {S : Type 0} → Response S
not_found = record { status = 404; headers = []; body = Body.bytes (utf8 "not found") }

-- The vault is shared; each of the two handlers that limit the rate has its own buckets.
pub record Server (V : Type 0) : Type 0 where
  pub vault : V
  pub process_buckets : List (Text × Bucket)
  pub proxy_buckets : List (Text × Bucket)
  pub events : List Event

module _ {V : Type 0} where
  abbrev of_process : Server V → State V
  of_process s = record { vault = s.vault; buckets = s.process_buckets; events = s.events }

  abbrev of_proxy : Server V → State V
  of_proxy s = record { vault = s.vault; buckets = s.proxy_buckets; events = s.events }

module _ {S V : Type 0} where
  abbrev after_process : Server V → Option (Response S × State V) → Option (Response S × Server V)
  after_process s none = none
  after_process s (some (r, t)) =
      some (r, record s { vault = t.vault; process_buckets = t.buckets; events = t.events })

  abbrev after_proxy : Server V → Option (Response S × State V) → Option (Response S × Server V)
  after_proxy s none = none
  after_proxy s (some (r, t)) =
      some (r, record s { vault = t.vault; proxy_buckets = t.buckets; events = t.events })

module _ (F : Float32) (u : Unicode) {V : Type 0} (process : ProcessHandler F.Carrier V)
    (proxy : ProxyHandler F.Carrier V) (dig : Digests) (j : Json) where
  -- `route`; `none` is a panic of the handler.
  unfoldable pub route :
      Request
      → World V
      → Text
      → InflightGuard
      → Bool
      → Server V
      → Option (Response F.Carrier × Server V)
  route req w session inflight vault_ok s = elim (public_endpoint req) [
    | Endpoint.process ↦
        after_process s (responds (Process.handle F u process dig req w inflight (of_process s)))
    | Endpoint.batch ↦
        after_process s (responds (handle_batch F u process dig req w inflight (of_process s)))
    | Endpoint.live ↦ some (Admin.health_live process.cfg, s)
    | Endpoint.ready ↦ some (Admin.health_ready process.cfg vault_ok, s)
    | Endpoint.proxy ↦
        after_proxy s (responds (Proxy.handle F u proxy j session dig req w (of_proxy s)))
    | _ ↦ some (not_found, s)
  ]

  -- `route_admin`, with the configuration of the resolver of policies.
  unfoldable pub route_admin :
      {C : Type 0} → Request → Bool → Text → C ⊎ Text → C → Response F.Carrier × C
  route_admin req vault_ok render loaded c = elim (admin_endpoint req) [
    | Endpoint.live ↦ (Admin.health_live process.cfg, c)
    | Endpoint.ready ↦ (Admin.health_ready process.cfg vault_ok, c)
    | Endpoint.metrics ↦ (Admin.metrics process.cfg render, c)
    | Endpoint.reload ↦ Admin.config_reload process.cfg dig loaded req c
    | _ ↦ (not_found, c)
  ]
