-- ===== src/Controller/Process/Statuses.antt =====
-- The statuses of the answers of `handle` in src/controller/process_handler.rs.
use alfavibe_hack.Prelude.{
  ◌≤◌, ◌≡◌, inl, inr, Text, text_Eq, utf8, arith, Option-cases, Bool-cases, ◌==◌, List,
}
use alfavibe_hack.Domain.Float32.{Float32}
use alfavibe_hack.Domain.Policy.{EffectivePolicy}
use alfavibe_hack.Domain.Unicode.{Unicode}
use alfavibe_hack.Guard.Run.{Run, Run-cases, VaultError, fails, panics, returns}
use alfavibe_hack.Guard.Types.{text_of}
use alfavibe_hack.Controller.Dto.{Body, ProcessRequest, Response}
use alfavibe_hack.Controller.Errors.{ServiceError, of_demasking, of_masking}
use alfavibe_hack.Controller.Flow.{
  Event, Timed, World, ◌>>=◌, answers, error_response, json_response, panics,
}
use alfavibe_hack.Controller.Flow.Returns.{>>=-Refuses, Refuses, refuse-Refuses, status_bounds}
use alfavibe_hack.Controller.Middleware.{RequestCtx}
use alfavibe_hack.Controller.Process.{
  ProcessHandler, answer, by_operation, demask_events, is_empty, mask_events, outcome_events,
  demask_response, demask_session, dispatch, handle_demask, handle_mask, handle_tz, mask_response,
  or_empty, timed,
}

module _ {S V : Type 0} where
  timed-Refuses :
      {A : Type 0} (by : Timed V) (request_id : Text) (of_error : VaultError → ServiceError)
      (call : V → Run (A × V))
      → Refuses (timed {S = S} by request_id of_error call)
  unfolding timed error_response
  timed-Refuses (Timed.elapsed v) request_id of_error call s t r h =
      ground (arith, status_bounds ServiceError.upstream_timeout)
  timed-Refuses Timed.in_time request_id of_error call s t r h = elim (Run-cases (call s.vault)) [
    | returns (a, v) is ↦ absurd (ground arith)
    | fails e is ↦ ground (arith, status_bounds (of_error e))
    | panics is ↦ absurd (ground arith)
  ]

  answer-Refuses :
      {A : Type 0} (by : Timed V) (request_id : Text) (of_error : VaultError → ServiceError)
      (call : V → Run (A × V)) (es : A → List Event) (r : A → Response S)
      → Refuses (λ s. ◌>>=◌ (timed by request_id of_error call) (λ a. answer (es a) (r a)) s)
  answer-Refuses by request_id of_error call es r =
      >>=-Refuses (timed by request_id of_error call) (λ a. answer (es a) (r a))
        (timed-Refuses by request_id of_error call) (λ a s t q h. absurd (ground arith))

module _ (F : Float32) (u : Unicode) {V : Type 0} (h : ProcessHandler F.Carrier V) where
  handle_mask-Refuses :
      (policy : EffectivePolicy F.Carrier) (dto : ProcessRequest) (ctx : RequestCtx) (w : World V)
      → Refuses (handle_mask F u h policy dto ctx w)
  unfolding handle_mask
  handle_mask-Refuses policy dto ctx w =
      answer-Refuses (w.call 0) ctx.request_id of_masking _
        (λ r.
          mask_events h.cfg ctx.system_id (or_empty dto.route) (utf8 "mask") ctx.request_id
            (h.token_counter (or_empty dto.text)) r.degraded r.entities)
        (mask_response F u h dto ctx w)

  handle_demask-Refuses :
      (policy : EffectivePolicy F.Carrier) (dto : ProcessRequest) (ctx : RequestCtx) (w : World V)
      → Refuses (handle_demask F u h policy dto ctx w)
  unfolding handle_demask demask_session
  handle_demask-Refuses policy dto ctx w s t r e =
      elim (Bool-cases (is_empty (or_empty dto.session_id))) [
        | inl empty_ ↦
            refuse-Refuses (ServiceError.bad_request (utf8 "session_id required")) ctx.request_id s
              t r (rw (handle_demask, empty_) at e)
        | inr some_ ↦
            answer-Refuses (w.call 0) ctx.request_id of_demasking _ (demask_events F u h dto ctx)
              (demask_response F u h dto ctx) s t r (rw (handle_demask, some_) at e)
      ]

  handle_tz-Refuses :
      (policy : EffectivePolicy F.Carrier) (payload_id payload : Text) (ctx : RequestCtx)
      (w : World V)
      → Refuses (handle_tz F u h policy payload_id payload ctx w)
  unfolding handle_tz
  handle_tz-Refuses policy payload_id payload ctx w =
      answer-Refuses (w.call 0) ctx.request_id of_masking _
        (outcome_events F u h ctx (h.token_counter payload))
        (λ o. json_response 200 (Body.tz (record { result = text_of o })))

  pub dispatch-Refuses :
      (policy : EffectivePolicy F.Carrier) (dto : ProcessRequest) (ctx : RequestCtx) (w : World V)
      → Refuses (dispatch F u h policy dto ctx w)
  unfolding dispatch
  dispatch-Refuses policy dto ctx w s t r e = elim (Option-cases dto.payload_id) [
    | inr (id, is) ↦
        handle_tz-Refuses policy id (or_empty dto.payload) ctx w s t r (rw (dispatch, is) at e)
    | inl none_ ↦ by_name (or_empty dto.operation) (rw (dispatch, none_) at e)
  ]
    where
      by_name :
          (operation : Text)
          → by_operation F u h policy dto ctx w operation s ≡ answers r t
          → 400 ≤ r.status
      by_name operation g = elim (Bool-cases (operation == utf8 "mask")) [
        | inl mask_ ↦ handle_mask-Refuses policy dto ctx w s t r (rw mask_ at g)
        | inr other ↦ elim (Bool-cases (operation == utf8 "demask")) [
          | inl demask_ ↦ handle_demask-Refuses policy dto ctx w s t r (rw (other, demask_) at g)
          | inr neither ↦
              refuse-Refuses (ServiceError.bad_request (utf8 "operation must be mask or demask"))
                ctx.request_id s t r (rw (other, neither) at g)
        ]
      ]
