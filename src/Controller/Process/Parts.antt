-- ===== src/Controller/Process/Parts.antt =====
-- What the handler of src/controller/process_handler.rs is put together from: the parts of an answer,
-- the reading of the body, and the checks of a request before it.
use alfavibe_hack.Prelude.{
  ℕ, ◌+◌, Bool, true, false, not, List, [], ◌∷◌, ◌++◌, map, Option, none, some, Text, text_Eq, utf8,
  length, leb, if◌then◌else◌, decimal, parse_usize,
}
use alfavibe_hack.Prelude.Maps.{get_or, insert}
use alfavibe_hack.Domain.PdType.{PdType}
use alfavibe_hack.Domain.Policy.{EffectivePolicy}
use alfavibe_hack.Mask.Digest.{Digests}
use alfavibe_hack.Pipeline.Masking.{MaskedEntityInfo}
use alfavibe_hack.Config.Profile.{CompiledConfig}
use alfavibe_hack.Config.Policy.{Resolved}
use alfavibe_hack.Guard.Run.{Run, VaultError}
use alfavibe_hack.Guard.Types.{GuardService}
use alfavibe_hack.Controller.Dto.{EntityDto, Request, Response}
use alfavibe_hack.Controller.Errors.{ServiceError, of_policy}
use alfavibe_hack.Controller.Flow.{
  Details, Event, Handler, Timed, World, elapsed, error_response, goes, in_time, notes, panics,
  refuse,
}
use alfavibe_hack.Controller.Middleware.{
  Auth, AuthFailure, RequestCtx, ServerConfig, auth_status, authenticate, check_body_limit,
}

-- `unwrap_or_default`
abbrev pub or_empty : Option Text → Text
or_empty none = []
or_empty (some t) = t

abbrev pub is_empty : Text → Bool
is_empty [] = true
is_empty (c ∷ cs) = false

abbrev pub or_zero : Option ℕ → ℕ
or_zero none = 0
or_zero (some n) = n

abbrev parsed : Option Text → Option ℕ
parsed none = none
parsed (some t) = parse_usize t

module _ {S : Type 0} where
  abbrev pub dto_of : MaskedEntityInfo S → EntityDto S
  dto_of e = record {
    pd_type = e.pd_type;
    start = e.start;
    end = e.end;
    masked_start = e.masked_start;
    masked_end = e.masked_end;
    replacement = e.replacement;
    score = e.score;
    source = e.source;
  }

  -- How many entities of each type there are; the source prints the types in order.
  unfoldable pub type_counts : List (MaskedEntityInfo S) → List (PdType × ℕ) → List (PdType × ℕ)
  type_counts [] counts = counts
  type_counts (e ∷ es) counts =
      type_counts es (insert e.pd_type (get_or e.pd_type 0 counts + 1) counts)

  -- `{type}:{start}-{end}`
  abbrev span_of : MaskedEntityInfo S → Text
  span_of e = e.pd_type ++ (utf8 ":" ++ (decimal e.start ++ (utf8 "-" ++ decimal e.end)))

  abbrev spans_from : Text → List (MaskedEntityInfo S) → Text
  spans_from out [] = out
  spans_from out (e ∷ es) = spans_from (out ++ (utf8 " " ++ span_of e)) es

  unfoldable pub entity_spans : ServerConfig → List (MaskedEntityInfo S) → Text
  entity_spans cfg [] = []
  entity_spans cfg (e ∷ es) = if not cfg.log_entity_offsets then [] else spans_from (span_of e) es

  -- The counters and the line of the log of a call that masked.
  unfoldable pub mask_events :
      ServerConfig → Text → Text → Text → Text → ℕ → Bool → List (MaskedEntityInfo S) → List Event
  mask_events cfg system_id route operation request_id tokens degraded es =
      Event.requests system_id route operation 200
      ∷ Event.request_duration system_id route operation
      ∷ Event.tokens system_id operation tokens
      ∷ (map (λ (e : MaskedEntityInfo S). Event.entities e.pd_type e.source) es
          ++ Event.processed request_id system_id operation
              (Details.found tokens degraded (length es) (type_counts es []) (entity_spans cfg es))
            ∷ [])

module _ {S V : Type 0} where
  -- A call of the service under `tokio::time::timeout`. A call that fails leaves the vault as it was.
  unfoldable pub timed :
      {A : Type 0}
      → Timed V
      → Text
      → (VaultError → ServiceError)
      → (V → Run (A × V))
      → Handler S V A
  timed in_time request_id of_error call s = elim (call s.vault) [
    | Run.returned (a, v) ↦ goes a (record s { vault = v })
    | Run.failed e ↦ refuse (of_error e) request_id s
    | Run.panicked ↦ panics
  ]
  timed (elapsed v) request_id of_error call s =
      refuse ServiceError.upstream_timeout request_id (record s { vault = v })

  -- `read_body`: a body that is longer than the limit or does not arrive.
  unfoldable pub read_body : ℕ → Text → Option Text → Handler S V Text
  read_body limit request_id none s = refuse ServiceError.payload_too_large request_id s
  read_body limit request_id (some b) s =
      if leb (length b) limit then goes b s else refuse ServiceError.payload_too_large request_id s

  abbrev pub or_refuse : {A : Type 0} → ServiceError → Text → Option A → Handler S V A
  or_refuse se request_id none s = refuse se request_id s
  or_refuse se request_id (some a) s = goes a s

  abbrev pub policy_or_refuse : Text → Resolved S → Handler S V (EffectivePolicy S)
  policy_or_refuse request_id (Resolved.resolved p) s = goes p s
  policy_or_refuse request_id (Resolved.refused e) s = refuse (of_policy e) request_id s

  -- The answer, after the counters and the log.
  abbrev pub answer : List Event → Response S → Handler S V (Response S)
  answer es r s = goes r (notes es s)

pub record ProcessHandler (S V : Type 0) : Type 0 where
  pub cfg : ServerConfig
  pub service : GuardService S V
  pub resolver : CompiledConfig S
  pub token_counter : Text → ℕ

-- The first steps of a request: who asks, and whether the system may ask now.
module _ {S V : Type 0} (cfg : ServerConfig) where
  -- A request without any credentials is of the default system, if there is one.
  abbrev identified : Text → Auth → Handler S V RequestCtx
  identified fresh (Auth.authenticated ctx) s = goes ctx s
  identified fresh (Auth.rejected AuthFailure.missing) s =
      if not (is_empty cfg.default_system_id)
      then goes (record { request_id = fresh; system_id = cfg.default_system_id }) s
      else error_response (auth_status AuthFailure.missing) ServiceError.unauthorized fresh s
  identified fresh (Auth.rejected AuthFailure.invalid) s =
      error_response (auth_status AuthFailure.invalid) ServiceError.unauthorized fresh s

  unfoldable pub identify : Digests → Request → World V → Handler S V RequestCtx
  identify dig req w = identified w.request_id (authenticate dig cfg req.header w.auth_request_id)

  unfoldable pub check_length : Text → Request → Handler S V (Unit {0})
  check_length request_id req s =
      if check_body_limit cfg (or_zero (parsed (req.header (utf8 "content-length"))))
      then goes tt s
      else refuse ServiceError.payload_too_large request_id s
