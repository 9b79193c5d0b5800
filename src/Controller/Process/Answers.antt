-- ===== src/Controller/Process/Answers.antt =====
-- The answers of `handle` in src/controller/process_handler.rs that are no errors.
use alfavibe_hack.Prelude.{
  ℕ, ◌≤◌, ◌<◌, ◌≡◌, ◌≢◌, ◌∙◌, inl, inr, refl, Option, none, some, Text, text_Eq, utf8, arith,
  Option-cases,
}
use alfavibe_hack.Prelude.Maps.{get_or}
use alfavibe_hack.Domain.Float32.{Float32}
use alfavibe_hack.Domain.Policy.{EffectivePolicy}
use alfavibe_hack.Domain.Unicode.{Unicode}
use alfavibe_hack.Mask.Digest.{Digests}
use alfavibe_hack.Config.Policy.{Resolved}
use alfavibe_hack.Config.Resolver.{resolve}
use alfavibe_hack.RateLimit.{check}
use alfavibe_hack.Controller.Dto.{ProcessRequest, Request, Response}
use alfavibe_hack.Controller.Errors.{ServiceError, of_policy}
use alfavibe_hack.Controller.Flow.{
  Flow, State, World, answers, error_response, goes, limit_rate, panics, responds,
}
use alfavibe_hack.Controller.Flow.Returns.{>>=-Refuses, Refuses, limit_rate-Refuses, status_bounds}
use alfavibe_hack.Controller.Middleware.{
  Auth, AuthFailure, InflightGuard, RequestCtx, ServerConfig, auth_status, authenticate,
  try_acquire,
}
use alfavibe_hack.Controller.Process.{
  ProcessHandler, check_length, dispatch, handle, handle_permitted, identify, or_refuse,
  policy_or_refuse, read_body, with_body, with_ctx, with_dto, with_length, with_rate,
}
use alfavibe_hack.Controller.Process.Admitted.{Admitted, Identified, handle_permitted-goes}
use alfavibe_hack.Controller.Process.Statuses.{dispatch-Refuses}

module _ {S V : Type 0} where
  identify-Refuses :
      (cfg : ServerConfig) (dig : Digests) (req : Request) (w : World V)
      → Refuses (identify {S = S} cfg dig req w)
  unfolding identify error_response auth_status
  identify-Refuses cfg dig req w s t r h =
      by_auth (authenticate dig cfg req.header w.auth_request_id) refl h
    where
      by_auth :
          (a : Auth)
          → authenticate dig cfg req.header w.auth_request_id ≡ a
          → identify {S = S} cfg dig req w s ≡ answers r t
          → 400 ≤ r.status
      by_auth (Auth.authenticated c) is g = absurd (ground arith)
      by_auth (Auth.rejected AuthFailure.missing) is g = ground arith
      by_auth (Auth.rejected AuthFailure.invalid) is g = ground arith

  check_length-Refuses :
      (cfg : ServerConfig) (request_id : Text) (req : Request)
      → Refuses (check_length {S = S} {V = V} cfg request_id req)
  unfolding check_length error_response
  check_length-Refuses cfg request_id req s t r h =
      ground (arith, status_bounds ServiceError.payload_too_large)

  read_body-Refuses :
      (limit : ℕ) (request_id : Text) (body : Option Text)
      → Refuses (read_body {S = S} {V = V} limit request_id body)
  unfolding read_body error_response
  read_body-Refuses limit request_id none s t r h =
      ground (arith, status_bounds ServiceError.payload_too_large)
  read_body-Refuses limit request_id (some b) s t r h =
      ground (arith, status_bounds ServiceError.payload_too_large)

  or_refuse-Refuses :
      {A : Type 0} (se : ServiceError) (request_id : Text) (o : Option A)
      → Refuses (or_refuse {S = S} {V = V} se request_id o)
  unfolding error_response
  or_refuse-Refuses se request_id none s t r h = ground (arith, status_bounds se)
  or_refuse-Refuses se request_id (some a) s t r h = absurd (ground arith)

  policy-Refuses :
      (request_id : Text) (p : Resolved S) → Refuses (policy_or_refuse {S = S} {V = V} request_id p)
  unfolding error_response
  policy-Refuses request_id (Resolved.resolved p) s t r h = absurd (ground arith)
  policy-Refuses request_id (Resolved.refused e) s t r h =
      ground (arith, status_bounds (of_policy e))

module _ (F : Float32) (u : Unicode) {V : Type 0} (h : ProcessHandler F.Carrier V) (dig : Digests)
    (req : Request) (w : World V) where
  with_body-Refuses : (ctx : RequestCtx) (body : Text) → Refuses (with_body F u h ctx w body)
  unfolding with_body with_dto
  with_body-Refuses ctx body =
      >>=-Refuses
        (or_refuse (ServiceError.bad_request (utf8 "Невалидный JSON")) ctx.request_id
          (w.parse_request body))
        (with_dto F u h ctx w)
        (or_refuse-Refuses (ServiceError.bad_request (utf8 "Невалидный JSON")) ctx.request_id
          (w.parse_request body))
        (λ dto.
          >>=-Refuses (policy_or_refuse ctx.request_id (resolve h.resolver ctx.system_id dto.route))
            (λ policy. dispatch F u h policy dto ctx w)
            (policy-Refuses ctx.request_id (resolve h.resolver ctx.system_id dto.route))
            (λ policy. dispatch-Refuses F u h policy dto ctx w))

  with_ctx-Refuses : (ctx : RequestCtx) → Refuses (with_ctx F u h req w ctx)
  unfolding with_ctx with_rate with_length
  with_ctx-Refuses ctx =
      >>=-Refuses (limit_rate h.cfg w.now ctx.system_id ctx.request_id)
        (λ _. with_rate F u h ctx req w)
        (limit_rate-Refuses h.cfg w.now ctx.system_id ctx.request_id)
        (λ _.
          >>=-Refuses (check_length h.cfg ctx.request_id req) (λ _. with_length F u h ctx req w)
            (check_length-Refuses h.cfg ctx.request_id req)
            (λ _.
              >>=-Refuses (read_body h.cfg.max_body_bytes ctx.request_id req.body)
                (with_body F u h ctx w)
                (read_body-Refuses h.cfg.max_body_bytes ctx.request_id req.body)
                (with_body-Refuses ctx)))

  handle_permitted-Refuses : Refuses (handle_permitted F u h dig req w)
  unfolding handle_permitted
  handle_permitted-Refuses =
      >>=-Refuses (identify h.cfg dig req w) (with_ctx F u h req w)
        (identify-Refuses h.cfg dig req w) with_ctx-Refuses

  -- An answer of `POST /process` with a status below 400 goes only to a request that brings the key of
  -- a system, or no credentials where a default system is configured, that found a free permit and a
  -- token of its system's limit, whose body arrived and is not too long and is a request in JSON, and
  -- for whose system and route there is a policy; and it is the answer of that policy, on the vault
  -- that `handle` was called with.
  pub handle-Admitted :
      (inflight : InflightGuard) (s s' : State V) (r : Response F.Carrier)
      → responds (handle F u h dig req w inflight s) ≡ some (r, s')
      → r.status < 400
      → (try_acquire inflight ≢ none)
        × ((ctx : RequestCtx) × (dto : ProcessRequest) × (policy : EffectivePolicy F.Carrier)
            × (body : Text) × (t : State V) × Identified h.cfg dig req w ctx
            × ((check w.now ctx.system_id
                  (get_or ctx.system_id 0 h.cfg.system_rate_limit)
                  s.buckets).0
                ≡ none)
            × Admitted h.cfg h.resolver req w ctx dto policy body
            × (t.vault ≡ s.vault)
            × (dispatch F u h policy dto ctx w t ≡ goes r s'))
  unfolding handle error_response
  handle-Admitted inflight s s' r e ok = elim (Option-cases (try_acquire inflight)) [
    | inl full ↦ absurd (ground (arith, status_bounds ServiceError.overloaded))
    | inr (held, free) ↦ (
      (λ gone. ground arith),
      handle_permitted-goes F u h dig req w s s' r
          (went (handle_permitted F u h dig req w s) refl (rw (handle, free) at e)),
    )
  ]
    where
      went :
          (x : Flow F.Carrier V (Response F.Carrier))
          → handle_permitted F u h dig req w s ≡ x
          → responds x ≡ some (r, s')
          → handle_permitted F u h dig req w s ≡ goes r s'
      went (goes q t) is g = is ∙ ground arith
      went (answers q t) is g = absurd (ground (arith, handle_permitted-Refuses s t q is))
      went panics is g = absurd (ground arith)
