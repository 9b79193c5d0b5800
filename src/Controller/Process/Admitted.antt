-- ===== src/Controller/Process/Admitted.antt =====
-- Which requests `handle` of src/controller/process_handler.rs answers with 200.
use alfavibe_hack.Prelude.{
  ℕ, ◌≤◌, ◌≡◌, ◌≢◌, ◌⊎◌, inl, inr, refl, ap, ◌∙◌, [], Option, none, some, Text, text_Eq, length,
  arith, Option-cases,
}
use alfavibe_hack.Prelude.Maps.{get_or}
use alfavibe_hack.Domain.Float32.{Float32}
use alfavibe_hack.Domain.Policy.{EffectivePolicy}
use alfavibe_hack.Domain.Unicode.{Unicode}
use alfavibe_hack.Mask.Digest.{Digests}
use alfavibe_hack.Config.Profile.{CompiledConfig}
use alfavibe_hack.Config.Policy.{Resolved}
use alfavibe_hack.Config.Resolver.{resolve}
use alfavibe_hack.RateLimit.{check}
use alfavibe_hack.Controller.Dto.{ProcessRequest, Request, Response}
use alfavibe_hack.Controller.Flow.{State, World, error_response, goes, limit_rate}
use alfavibe_hack.Controller.Flow.Returns.{>>=-goes, limit_rate_vault}
use alfavibe_hack.Controller.Middleware.{Auth, AuthFailure, RequestCtx, ServerConfig, authenticate}
use alfavibe_hack.Controller.Process.{
  ProcessHandler, check_length, dispatch, handle_permitted, identify, read_body, with_body,
  with_ctx, with_dto, with_length, with_rate,
}

-- The request shows a system's key, or no credentials at all where there is a default system.
abbrev pub Identified :
    {V : Type 0} → ServerConfig → Digests → Request → World V → RequestCtx → Type 0
Identified cfg dig req w ctx =
    (authenticate dig cfg req.header w.auth_request_id ≡ Auth.authenticated ctx)
    ⊎ ((authenticate dig cfg req.header w.auth_request_id ≡ Auth.rejected AuthFailure.missing)
        × (ctx.system_id ≡ cfg.default_system_id)
        × (cfg.default_system_id ≢ []))

module _ {S V : Type 0} where
  identify-Identified :
      (cfg : ServerConfig) (dig : Digests) (req : Request) (w : World V) (s t : State V)
      (ctx : RequestCtx)
      → identify {S = S} cfg dig req w s ≡ goes ctx t
      → Identified cfg dig req w ctx × (t ≡ s)
  unfolding identify error_response
  identify-Identified cfg dig req w s t ctx h =
      by_auth (authenticate dig cfg req.header w.auth_request_id) refl h
    where
      by_auth :
          (a : Auth)
          → authenticate dig cfg req.header w.auth_request_id ≡ a
          → identify {S = S} cfg dig req w s ≡ goes ctx t
          → Identified cfg dig req w ctx × (t ≡ s)
      by_auth (Auth.authenticated c) is g =
          let same : c ≡ ctx = ground arith in (inl (is ∙ ap Auth.authenticated same), ground arith)
      by_auth (Auth.rejected AuthFailure.missing) is g =
          (inr (is, ground arith, λ e. ground arith), ground arith)
      by_auth (Auth.rejected AuthFailure.invalid) is g = absurd (ground arith)

  check_length_vault :
      (cfg : ServerConfig) (request_id : Text) (req : Request) (s t : State V) (x : Unit {0})
      → check_length {S = S} cfg request_id req s ≡ goes x t
      → t ≡ s
  unfolding check_length error_response
  check_length_vault cfg request_id req s t x h = ground arith

  pub read_body-goes :
      (limit : ℕ) (request_id b : Text) (body : Option Text) (s t : State V)
      → read_body {S = S} limit request_id body s ≡ goes b t
      → (body ≡ some b) × (length b ≤ limit) × (t ≡ s)
  unfolding read_body error_response
  read_body-goes limit request_id b none s t h = absurd (ground arith)
  read_body-goes limit request_id b (some c) s t h = ground arith

-- A request whose body is read, within the limit, and for whose system and route there is a policy.
pub record Admitted {S V : Type 0} (cfg : ServerConfig) (resolver : CompiledConfig S)
    (req : Request) (w : World V) (ctx : RequestCtx) (dto : ProcessRequest)
    (policy : EffectivePolicy S) (body : Text) : Type 0 where
  pub arrived : req.body ≡ some body
  pub small : length body ≤ cfg.max_body_bytes
  pub read : w.parse_request body ≡ some dto
  pub resolved : resolve resolver ctx.system_id dto.route ≡ Resolved.resolved policy

module _ (F : Float32) (u : Unicode) {V : Type 0} (h : ProcessHandler F.Carrier V) (dig : Digests)
    (req : Request) (w : World V) where
  with_dto-goes :
      (ctx : RequestCtx) (dto : ProcessRequest) (s s' : State V) (r : Response F.Carrier)
      → with_dto F u h ctx w dto s ≡ goes r s'
      → (policy : EffectivePolicy F.Carrier) × (resolve h.resolver ctx.system_id dto.route
          ≡ Resolved.resolved policy)
        × (dispatch F u h policy dto ctx w s ≡ goes r s')
  unfolding with_dto error_response
  with_dto-goes ctx dto s s' r e = by_policy (resolve h.resolver ctx.system_id dto.route) refl e
    where
      by_policy :
          (p : Resolved F.Carrier)
          → resolve h.resolver ctx.system_id dto.route ≡ p
          → with_dto F u h ctx w dto s ≡ goes r s'
          → (policy : EffectivePolicy F.Carrier) × (resolve h.resolver ctx.system_id dto.route
              ≡ Resolved.resolved policy)
            × (dispatch F u h policy dto ctx w s ≡ goes r s')
      by_policy (Resolved.resolved p) is g = (p, is, (rw (with_dto, is) at g))
      by_policy (Resolved.refused x) is g = absurd (ground arith)

  with_body-goes :
      (ctx : RequestCtx) (body : Text) (s s' : State V) (r : Response F.Carrier)
      → with_body F u h ctx w body s ≡ goes r s'
      → (dto : ProcessRequest) × (w.parse_request body ≡ some dto)
        × (with_dto F u h ctx w dto s ≡ goes r s')
  unfolding with_body error_response
  with_body-goes ctx body s s' r e = elim (Option-cases (w.parse_request body)) [
    | inl none_ ↦ absurd (ground arith)
    | inr (dto, is) ↦ (dto, is, (rw (with_body, is) at e))
  ]

  -- The steps up to the one that takes the request apart.
  pub handle_permitted-goes :
      (s s' : State V) (r : Response F.Carrier)
      → handle_permitted F u h dig req w s ≡ goes r s'
      → (ctx : RequestCtx) × (dto : ProcessRequest) × (policy : EffectivePolicy F.Carrier)
        × (body : Text) × (t : State V) × Identified h.cfg dig req w ctx
        × ((check w.now ctx.system_id (get_or ctx.system_id 0 h.cfg.system_rate_limit) s.buckets).0
            ≡ none)
        × Admitted h.cfg h.resolver req w ctx dto policy body
        × (t.vault ≡ s.vault)
        × (dispatch F u h policy dto ctx w t ≡ goes r s')
  unfolding handle_permitted with_ctx with_rate with_length
  handle_permitted-goes s s' r e =
      let (ctx, s₁, asked, e₁) = >>=-goes (identify h.cfg dig req w) (with_ctx F u h req w) e in
      let (x, s₂, rated, e₂) =
        >>=-goes (limit_rate h.cfg w.now ctx.system_id ctx.request_id)
          (λ _. with_rate F u h ctx req w) e₁ in
      let (y, s₃, sized, e₃) =
        >>=-goes (check_length h.cfg ctx.request_id req) (λ _. with_length F u h ctx req w) e₂ in
      let (body, s₄, came, e₄) =
        >>=-goes (read_body h.cfg.max_body_bytes ctx.request_id req.body) (with_body F u h ctx w)
          e₃ in
      let (who, same₁) = identify-Identified h.cfg dig req w s s₁ ctx asked in
      let (free, same₂) = limit_rate_vault h.cfg w.now ctx.system_id ctx.request_id s₁ s₂ x rated in
      let same₃ = check_length_vault h.cfg ctx.request_id req s₂ s₃ y sized in
      let (arrived, small, same₄) =
        read_body-goes h.cfg.max_body_bytes ctx.request_id body req.body s₃ s₄ came in
      let (dto, read, e₅) = with_body-goes ctx body s₄ s' r e₄ in
      let (policy, resolved, e₆) = with_dto-goes ctx dto s₄ s' r e₅ in
      (
        ctx,
        dto,
        policy,
        body,
        s₄,
        who,
        (rw same₁ at free),
        record { arrived = arrived; small = small; read = read; resolved = resolved },
        ap (λ (q : State V). q.vault) (same₄ ∙ same₃)
            ∙ (same₂ ∙ ap (λ (q : State V). q.vault) same₁),
        e₆,
      )
