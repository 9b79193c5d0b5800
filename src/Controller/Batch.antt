-- ===== src/Controller/Batch.antt =====
-- `handle_batch` of src/controller/process_handler.rs.
use alfavibe_hack.Prelude.{ℕ, List, [], ◌∷◌, none, some, Text, text_Eq, utf8, length}
use alfavibe_hack.Domain.Float32.{Float32}
use alfavibe_hack.Domain.Policy.{EffectivePolicy}
use alfavibe_hack.Domain.Unicode.{Unicode}
use alfavibe_hack.Mask.Digest.{Digests}
use alfavibe_hack.Config.Resolver.{resolve}
use alfavibe_hack.Guard.Run.{Run}
use alfavibe_hack.Controller.Dto.{BatchItem, BatchRequest, Body, Request, Response}
use alfavibe_hack.Controller.Errors.{ServiceError}
use alfavibe_hack.Controller.Flow.{
  Details, Event, Handler, World, error_response, goes, json_response, limit_rate, panics, refuse,
  ◌>>=◌,
}
use alfavibe_hack.Controller.Items.{batch_items}
use alfavibe_hack.Controller.Middleware.{
  Auth, InflightGuard, RequestCtx, auth_status, authenticate, try_acquire,
}
use alfavibe_hack.Controller.Process.{
  ProcessHandler, answer, or_empty, or_refuse, policy_or_refuse, read_body,
}

-- Who asks; there is no default system here.
abbrev identified : {S V : Type 0} → Text → Auth → Handler S V RequestCtx
identified fresh (Auth.authenticated ctx) s = goes ctx s
identified fresh (Auth.rejected f) s =
    error_response (auth_status f) ServiceError.unauthorized fresh s

module _ (F : Float32) (u : Unicode) {V : Type 0} (h : ProcessHandler F.Carrier V) where
  open F use {Carrier}

  unfoldable pub run_batch :
      EffectivePolicy Carrier
      → BatchRequest
      → RequestCtx
      → World V
      → Handler Carrier V (List (BatchItem Carrier))
  run_batch policy dto ctx w s =
      elim (batch_items F u h policy ctx.system_id dto.operation w 0 dto.texts s.vault) [
        | Run.returned (items, v) ↦ goes items (record s { vault = v })
        | Run.failed e ↦ panics
        | Run.panicked ↦ panics
      ]

  abbrev batch_events : BatchRequest → RequestCtx → ℕ → List Event
  batch_events dto ctx n =
      Event.requests ctx.system_id (or_empty dto.route) (utf8 "batch") 200
      ∷ Event.request_duration ctx.system_id (or_empty dto.route) (utf8 "batch")
      ∷ Event.processed ctx.request_id ctx.system_id (utf8 "batch") (Details.items n)
      ∷ []

  unfoldable pub batch_permitted :
      Digests → Request → World V → Handler Carrier V (Response Carrier)
  batch_permitted dig req w = do
    ctx ← identified w.request_id (authenticate dig h.cfg req.header w.auth_request_id)
    _ ← limit_rate h.cfg w.now ctx.system_id ctx.request_id
    body ← read_body h.cfg.max_body_bytes ctx.request_id req.body
    dto ←
        or_refuse (ServiceError.bad_request (utf8 "Невалидный JSON")) ctx.request_id
          (w.parse_batch body)
    policy ← policy_or_refuse ctx.request_id (resolve h.resolver ctx.system_id dto.route)
    items ← run_batch policy dto ctx w
    answer (batch_events dto ctx (length items))
        (json_response 200 (Body.batch (record { request_id = ctx.request_id; results = items })))

  unfoldable pub handle_batch :
      Digests → Request → World V → InflightGuard → Handler Carrier V (Response Carrier)
  handle_batch dig req w inflight s = elim (try_acquire inflight) [
    | none ↦ refuse ServiceError.overloaded w.request_id s
    | some held ↦ batch_permitted dig req w s
  ]
