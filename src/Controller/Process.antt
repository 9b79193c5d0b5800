-- ===== src/Controller/Process.antt =====
-- `handle` and `handle_tz` of src/controller/process_handler.rs.
pub mod Admitted
pub mod Statuses
pub mod Answers
mod Parts
unfoldable pub use Parts.*
use alfavibe_hack.Prelude.{
  ℕ, zero, suc, ◌+◌, Bool, true, false, not, ◌&&◌, ◌||◌, List, [], ◌∷◌, ◌++◌, map, Option, none,
  some, Text, text_Eq, utf8, length, ltb, leb, if◌then◌else◌, ◌==◌, decimal, parse_usize,
}
use alfavibe_hack.Prelude.Maps.{get_or, insert}
use alfavibe_hack.Domain.Float32.{Float32}
use alfavibe_hack.Domain.PdType.{PdType}
use alfavibe_hack.Domain.Policy.{EffectivePolicy}
use alfavibe_hack.Domain.Unicode.{Unicode}
use alfavibe_hack.Mask.Digest.{Digests}
use alfavibe_hack.Pipeline.Masking.{MaskedEntityInfo}
use alfavibe_hack.Config.Profile.{CompiledConfig}
use alfavibe_hack.Config.Policy.{Resolved}
use alfavibe_hack.Config.Resolver.{resolve}
use alfavibe_hack.Guard.Run.{Run, VaultError}
use alfavibe_hack.Guard.Types.{DemaskResult, GuardService, MaskResult, TzOutcome, step_of, text_of}
use alfavibe_hack.Guard.Service
use alfavibe_hack.Controller.Dto.{Body, EntityDto, ProcessRequest, Request, Response, StatsDto}
use alfavibe_hack.Controller.Errors.{ServiceError, of_demasking, of_masking, of_policy}
use alfavibe_hack.Controller.Flow.{
  Details, Event, Flow, Handler, State, Timed, World, answers, elapsed, error_response, goes,
  in_time, json_response, limit_rate, notes, panics, refuse, ◌>>=◌,
}
use alfavibe_hack.Controller.Middleware.{
  Auth, AuthFailure, InflightGuard, RequestCtx, ServerConfig, auth_status, authenticate,
  check_body_limit, try_acquire,
}

module _ (F : Float32) (u : Unicode) {V : Type 0} (h : ProcessHandler F.Carrier V) where
  open F use {Carrier}

  unfoldable pub mask_response :
      ProcessRequest → RequestCtx → World V → MaskResult Carrier → Response Carrier
  mask_response dto ctx w r = json_response 200 (
      Body.mask (record {
        request_id = ctx.request_id;
        session_id = r.session_id;
        text = r.text;
        entities = map dto_of r.entities;
        degraded = r.degraded;
        mask_context = r.mask_context;
        stats = record { tokens = h.token_counter (or_empty dto.text); latency_ms = w.latency };
      }))

  -- The operation `mask`.
  unfoldable pub handle_mask :
      EffectivePolicy Carrier
      → ProcessRequest
      → RequestCtx
      → World V
      → Handler Carrier V (Response Carrier)
  handle_mask policy dto ctx w = do
    r ← timed (w.call 0) ctx.request_id of_masking (
        Service.mask F u h.service policy ctx.system_id (or_empty dto.text) dto.session_id
          dto.dry_run (w.outside 0))
    answer
        (mask_events h.cfg ctx.system_id (or_empty dto.route) (utf8 "mask") ctx.request_id
          (h.token_counter (or_empty dto.text)) r.degraded r.entities)
        (mask_response dto ctx w r)

  unfoldable pub demask_response : ProcessRequest → RequestCtx → DemaskResult → Response Carrier
  demask_response dto ctx r = json_response 200 (
      Body.demask (record {
        request_id = ctx.request_id;
        session_id = or_empty dto.session_id;
        text = r.text;
        restored = r.restored;
        unresolved = r.unresolved;
        degraded = r.degraded;
      }))

  unfoldable pub demask_events : ProcessRequest → RequestCtx → DemaskResult → List Event
  demask_events dto ctx r =
      Event.requests ctx.system_id (or_empty dto.route) (utf8 "demask") 200
      ∷ Event.request_duration ctx.system_id (or_empty dto.route) (utf8 "demask")
      ∷ Event.tokens ctx.system_id (utf8 "demask") (h.token_counter (or_empty dto.text))
      ∷ Event.processed ctx.request_id ctx.system_id (utf8 "demask")
          (Details.filled r.restored r.unresolved)
      ∷ []

  unfoldable pub demask_session :
      EffectivePolicy Carrier
      → ProcessRequest
      → RequestCtx
      → World V
      → Handler Carrier V (Response Carrier)
  demask_session policy dto ctx w = do
    r ← timed (w.call 0) ctx.request_id of_demasking (
        Service.demask F u h.service policy ctx.system_id (or_empty dto.text)
          (or_empty dto.session_id) dto.mask_context)
    answer (demask_events dto ctx r) (demask_response dto ctx r)

  -- The operation `demask`, which wants a session.
  unfoldable pub handle_demask :
      EffectivePolicy Carrier
      → ProcessRequest
      → RequestCtx
      → World V
      → Handler Carrier V (Response Carrier)
  handle_demask policy dto ctx w s =
      if is_empty (or_empty dto.session_id)
      then refuse (ServiceError.bad_request (utf8 "session_id required")) ctx.request_id s
      else demask_session policy dto ctx w s

  abbrev pub outcome_details : ℕ → TzOutcome Carrier → Details
  outcome_details tokens (TzOutcome.masked r) =
      Details.found tokens r.degraded (length r.entities) (type_counts r.entities [])
        (entity_spans h.cfg r.entities)
  outcome_details tokens (TzOutcome.restored text n) = Details.restored n tokens
  outcome_details tokens (TzOutcome.repeated text) = Details.repeated tokens

  abbrev pub outcome_entities : TzOutcome Carrier → List Event
  outcome_entities (TzOutcome.masked r) =
      map (λ (e : MaskedEntityInfo Carrier). Event.entities e.pd_type e.source) r.entities
  outcome_entities _ = []

  abbrev pub outcome_events : RequestCtx → ℕ → TzOutcome Carrier → List Event
  outcome_events ctx tokens o =
      Event.requests ctx.system_id [] (step_of o) 200
      ∷ Event.request_duration ctx.system_id [] (step_of o)
      ∷ Event.tokens ctx.system_id (step_of o) tokens
      ∷ (outcome_entities o
          ++ Event.processed ctx.request_id ctx.system_id (step_of o) (outcome_details tokens o)
            ∷ [])

  -- The form with an identifier of the payload.
  unfoldable pub handle_tz :
      EffectivePolicy Carrier
      → Text
      → Text
      → RequestCtx
      → World V
      → Handler Carrier V (Response Carrier)
  handle_tz policy payload_id payload ctx w = do
    o ←
        timed (w.call 0) ctx.request_id of_masking
          (Service.process_tz F u h.service policy ctx.system_id payload_id payload (w.outside 0))
    answer (outcome_events ctx (h.token_counter payload) o)
        (json_response 200 (Body.tz (record { result = text_of o })))

  abbrev pub by_operation :
      EffectivePolicy Carrier
      → ProcessRequest
      → RequestCtx
      → World V
      → Text
      → Handler Carrier V (Response Carrier)
  by_operation policy dto ctx w operation s =
      if operation == utf8 "mask"
      then handle_mask policy dto ctx w s
      else if operation == utf8 "demask"
      then handle_demask policy dto ctx w s
      else refuse (ServiceError.bad_request (utf8 "operation must be mask or demask"))
          ctx.request_id s

  unfoldable pub dispatch :
      EffectivePolicy Carrier
      → ProcessRequest
      → RequestCtx
      → World V
      → Handler Carrier V (Response Carrier)
  dispatch policy dto ctx w s = elim dto.payload_id [
    | some payload_id ↦ handle_tz policy payload_id (or_empty dto.payload) ctx w s
    | none ↦ by_operation policy dto ctx w (or_empty dto.operation) s
  ]

  -- `handle` with a permit, from its last step back to its first.
  unfoldable pub with_dto :
      RequestCtx → World V → ProcessRequest → Handler Carrier V (Response Carrier)
  with_dto ctx w dto = do
    policy ← policy_or_refuse ctx.request_id (resolve h.resolver ctx.system_id dto.route)
    dispatch policy dto ctx w

  unfoldable pub with_body : RequestCtx → World V → Text → Handler Carrier V (Response Carrier)
  with_body ctx w body = do
    dto ←
        or_refuse (ServiceError.bad_request (utf8 "Невалидный JSON")) ctx.request_id
          (w.parse_request body)
    with_dto ctx w dto

  unfoldable pub with_length : RequestCtx → Request → World V → Handler Carrier V (Response Carrier)
  with_length ctx req w = do
    body ← read_body h.cfg.max_body_bytes ctx.request_id req.body
    with_body ctx w body

  unfoldable pub with_rate : RequestCtx → Request → World V → Handler Carrier V (Response Carrier)
  with_rate ctx req w = do _ ← check_length h.cfg ctx.request_id req; with_length ctx req w

  unfoldable pub with_ctx : Request → World V → RequestCtx → Handler Carrier V (Response Carrier)
  with_ctx req w ctx = do
    _ ← limit_rate h.cfg w.now ctx.system_id ctx.request_id
    with_rate ctx req w

  unfoldable pub handle_permitted :
      Digests → Request → World V → Handler Carrier V (Response Carrier)
  handle_permitted dig req w = do ctx ← identify h.cfg dig req w; with_ctx req w ctx

  -- `handle`: one of the free permits is held for as long as it runs.
  unfoldable pub handle :
      Digests → Request → World V → InflightGuard → Handler Carrier V (Response Carrier)
  handle dig req w inflight s = elim (try_acquire inflight) [
    | none ↦ refuse ServiceError.overloaded w.request_id s
    | some held ↦ handle_permitted dig req w s
  ]
