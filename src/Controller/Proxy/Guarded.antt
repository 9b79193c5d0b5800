-- ===== src/Controller/Proxy/Guarded.antt =====
-- The requests that src/controller/proxy_handler.rs sends.
use alfavibe_hack.Prelude.{
  false, ◌≡◌, ◌⊎◌, inl, inr, refl, ap, ◌∷◌, Option, none, some, Text, text_Eq, arith,
}
use alfavibe_hack.Domain.Float32.{Float32}
use alfavibe_hack.Domain.Policy.{EffectivePolicy}
use alfavibe_hack.Domain.Unicode.{Unicode}
use alfavibe_hack.Config.Profile.{RouteConfig}
use alfavibe_hack.Config.Policy.{Resolved}
use alfavibe_hack.Config.Resolver.{resolve}
use alfavibe_hack.JsonPaths.{Value}
use alfavibe_hack.Controller.Dto.{Request, Response}
use alfavibe_hack.Controller.Flow.{Event, State, World, answers, goes, responds}
use alfavibe_hack.Controller.Flow.Returns.{>>=-responds}
use alfavibe_hack.Controller.Middleware.{Auth, RequestCtx}
use alfavibe_hack.Controller.Proxy.Steps.{
  Json, ProxyHandler, identified, json_or_error, plain_error, policy_or_error, read_body,
  route_or_error, with_body,
}
use alfavibe_hack.Controller.Proxy.{mask_body, proxy_body, proxy_json, proxy_masked, proxy_policy}
use alfavibe_hack.Controller.Proxy.Strings.{Progress, mask_string, over_paths}
use alfavibe_hack.Controller.Proxy.Strings.Put.{PutThrough, mask_string-PutThrough}
use alfavibe_hack.Controller.Proxy.Sent.{read_body_cases, read_body_reads, send_masked-Sends}

module _ {S V : Type 0} where
  pub identified_cases :
      (fresh : Text) (a : Auth) (s t : State V) (r : Response S)
      → identified fresh a s ≡ answers r t
      → t ≡ s
  unfolding plain_error
  identified_cases fresh (Auth.authenticated c) s t r h = absurd (ground arith)
  identified_cases fresh (Auth.rejected f) s t r h = ground arith

  pub identified_goes :
      (fresh : Text) (a : Auth) (s t : State V) (ctx : RequestCtx)
      → identified {S = S} fresh a s ≡ goes ctx t
      → (a ≡ Auth.authenticated ctx) × (t ≡ s)
  unfolding plain_error
  identified_goes fresh (Auth.authenticated c) s t ctx h = ground arith
  identified_goes fresh (Auth.rejected f) s t ctx h = absurd (ground arith)

  policy_steps :
      (request_id : Text) (p : Resolved S) (s t : State V)
      → ((r : Response S) → policy_or_error request_id p s ≡ answers r t → t ≡ s)
        × ((policy : EffectivePolicy S)
            → policy_or_error request_id p s ≡ goes policy t
            → (p ≡ Resolved.resolved policy) × (t ≡ s))
  unfolding plain_error
  policy_steps request_id (Resolved.resolved p) s t =
      ((λ r h. absurd (ground arith)), (λ policy h. ground arith))
  policy_steps request_id (Resolved.refused e) s t =
      ((λ r h. ground arith), (λ policy h. absurd (ground arith)))

  json_steps :
      (request_id : Text) (o : Option Value) (s t : State V)
      → ((r : Response S) → json_or_error request_id o s ≡ answers r t → t ≡ s)
        × ((v : Value) → json_or_error {S = S} request_id o s ≡ goes v t → (o ≡ some v) × (t ≡ s))
  unfolding plain_error
  json_steps request_id none s t = ((λ r h. ground arith), (λ v h. absurd (ground arith)))
  json_steps request_id (some o) s t = ((λ r h. absurd (ground arith)), (λ v h. ground arith))

  pub route_steps :
      (request_id : Text) (o : Option RouteConfig) (s t : State V)
      → ((r : Response S) → route_or_error request_id o s ≡ answers r t → t ≡ s)
        × ((v : RouteConfig)
            → route_or_error {S = S} request_id o s ≡ goes v t
            → (o ≡ some v) × (t ≡ s))
  unfolding plain_error
  route_steps request_id none s t = ((λ r h. ground arith), (λ v h. absurd (ground arith)))
  route_steps request_id (some o) s t = ((λ r h. absurd (ground arith)), (λ v h. ground arith))

module _ (F : Float32) (u : Unicode) {V : Type 0} (h : ProxyHandler F.Carrier V) (j : Json)
    (session : Text) (req : Request) (w : World V) where
  -- The body of the request is JSON, there is a policy for the system and the route, and what is sent
  -- is the body in which each string at the paths of the route was put through `mask` by that policy:
  -- it is masked, or left as it is where `mask` fails.
  pub record MaskedBody (ctx : RequestCtx) (route : RouteConfig) (out : Request) (v : V)
      : Type 0 where
    pub policy : EffectivePolicy F.Carrier
    pub body : Text
    pub json : Value
    pub resolved : resolve h.resolver ctx.system_id (some route.id) ≡ Resolved.resolved policy
    pub arrived : req.body ≡ some body
    pub parsed : j.parse body ≡ some json
    pub put : Text → Option (Progress V) → Text × Option (Progress V)
    pub puts :
        (text : Text) (p : Progress V)
        → PutThrough F u h.service policy ctx.system_id session w.outside text p (put text (some p))
    pub masked :
        out
        ≡ with_body req (
            j.write
              (over_paths u put route.json_paths json
                (some (record { vault = v; calls = 0; degraded = false }))).0)

  pub proxy_masked-Sends :
      (route : RouteConfig) (ctx : RequestCtx) (s t : State V) (r : Response F.Carrier)
      → responds (proxy_masked F u h j session route ctx req w s) ≡ some (r, t)
      → (t.events ≡ s.events)
        ⊎ ((out : Request) × MaskedBody ctx route out s.vault
            × (t.events ≡ Event.sent route.upstream out ∷ s.events))
  unfolding proxy_masked proxy_policy proxy_body proxy_json
  proxy_masked-Sends route ctx s t r e =
      elim (>>=-responds
        (policy_or_error ctx.request_id (resolve h.resolver ctx.system_id (some route.id)))
        (proxy_policy F u h j session route ctx req w) e) [
          | inl a ↦ inl (
              ap (λ (q : State V). q.events)
                ((policy_steps ctx.request_id (resolve h.resolver ctx.system_id (some route.id)) s
                    t).0
                  r a))
          | inr (policy, s₁, allowed, e₁) ↦
              let (is, same₁) =
                (policy_steps ctx.request_id (resolve h.resolver ctx.system_id (some route.id)) s
                    s₁).1
                  policy allowed in
              by_body policy is (rw (same₁) at e₁)
        ]
    where
      by_json :
          (policy : EffectivePolicy F.Carrier) (body : Text)
          → resolve h.resolver ctx.system_id (some route.id) ≡ Resolved.resolved policy
          → req.body ≡ some body
          → responds (proxy_body F u h j session policy ctx route req w body s) ≡ some (r, t)
          → (t.events ≡ s.events)
            ⊎ ((out : Request) × MaskedBody ctx route out s.vault
                × (t.events ≡ Event.sent route.upstream out ∷ s.events))
      by_json policy body is arrived g =
          elim (>>=-responds (json_or_error ctx.request_id (j.parse body))
            (proxy_json F u h j session policy ctx route req w) g) [
              | inl a ↦ inl (
                  ap (λ (q : State V). q.events)
                    ((json_steps ctx.request_id (j.parse body) s t).0 r a))
              | inr (json, s₁, read, g₁) ↦
                  let (parsed, same) =
                    (json_steps {S = F.Carrier} ctx.request_id (j.parse body) s s₁).1 json read in
                  let done = mask_body F u h j session policy ctx.system_id route w json s.vault in
                  elim (send_masked-Sends F u h j session policy ctx route req done.0 done.1 s t r
                    (rw (same) at g₁)) [
                      | inl quiet ↦ inl quiet
                      | inr sent_ ↦ inr (
                        with_body req (j.write done.0),
                        record {
                          policy = policy;
                          body = body;
                          json = json;
                          resolved = is;
                          arrived = arrived;
                          parsed = parsed;
                          put = mask_string F u h.service policy ctx.system_id session w.outside;
                          puts =
                              mask_string-PutThrough F u h.service policy ctx.system_id session
                                w.outside;
                          masked = unfold mask_body in refl;
                        },
                        sent_,
                      )
                    ]
            ]

      by_body :
          (policy : EffectivePolicy F.Carrier)
          → resolve h.resolver ctx.system_id (some route.id) ≡ Resolved.resolved policy
          → responds (proxy_policy F u h j session route ctx req w policy s) ≡ some (r, t)
          → (t.events ≡ s.events)
            ⊎ ((out : Request) × MaskedBody ctx route out s.vault
                × (t.events ≡ Event.sent route.upstream out ∷ s.events))
      by_body policy is g =
          elim (>>=-responds (read_body h.cfg.max_body_bytes ctx.request_id req.body)
            (proxy_body F u h j session policy ctx route req w) g) [
              | inl a ↦ inl (read_body_cases h.cfg.max_body_bytes ctx.request_id req.body s t r a)
              | inr (body, s₁, came, g₁) ↦
                  let (arrived, same) =
                    read_body_reads h.cfg.max_body_bytes ctx.request_id body req.body s s₁ came in
                  by_json policy body is arrived (rw (same) at g₁)
            ]
