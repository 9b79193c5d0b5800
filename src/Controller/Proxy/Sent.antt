-- ===== src/Controller/Proxy/Sent.antt =====
-- What src/controller/proxy_handler.rs sends to a language model, and for whom.
use alfavibe_hack.Prelude.{
  ℕ, Bool, ◌≡◌, ◌⊎◌, inl, inr, ap, ◌∙◌, ◌∷◌, Option, none, some, Text, text_Eq, arith, Option-cases,
}
use alfavibe_hack.Domain.Float32.{Float32}
use alfavibe_hack.Domain.Policy.{EffectivePolicy}
use alfavibe_hack.Domain.Unicode.{Unicode}
use alfavibe_hack.Config.Profile.{RouteConfig}
use alfavibe_hack.JsonPaths.{Value}
use alfavibe_hack.Controller.Dto.{Request, Response}
use alfavibe_hack.Controller.Flow.{Event, State, ◌>>=◌, answers, goes, responds}
use alfavibe_hack.Controller.Flow.Returns.{>>=-responds}
use alfavibe_hack.Controller.Middleware.{RequestCtx}
use alfavibe_hack.Controller.Proxy.Strings.{Progress}
use alfavibe_hack.Controller.Proxy.Steps.{
  Json, ProxyHandler, Upstream, plain_error, raw, read_body, send, with_body,
}
use alfavibe_hack.Controller.Proxy.{answer_client, proxy_raw, send_masked}

module _ {S V : Type 0} where
  pub read_body_cases :
      (limit : ℕ) (request_id : Text) (body : Option Text) (s t : State V) (r : Response S)
      → read_body limit request_id body s ≡ answers r t
      → t.events ≡ s.events
  unfolding read_body plain_error
  read_body_cases limit request_id none s t r h = ground arith
  read_body_cases limit request_id (some b) s t r h = ground arith

  pub read_body_reads :
      (limit : ℕ) (request_id b : Text) (body : Option Text) (s t : State V)
      → read_body {S = S} limit request_id body s ≡ goes b t
      → (body ≡ some b) × (t ≡ s)
  unfolding read_body plain_error
  read_body_reads limit request_id b none s t h = absurd (ground arith)
  read_body_reads limit request_id b (some c) s t h = ground arith

  -- A request is sent at most once, and only by `send`.
  send_events :
      (llm : Option (Text → Request → Option Upstream)) (request_id upstream : Text) (req : Request)
      (s : State V)
      → ((r : Response S) (t : State V)
          → send llm request_id upstream req s ≡ answers r t
          → (t.events ≡ s.events) ⊎ (t.events ≡ Event.sent upstream req ∷ s.events))
        × ((x : Upstream) (t : State V)
            → send {S = S} llm request_id upstream req s ≡ goes x t
            → t.events ≡ Event.sent upstream req ∷ s.events)
  unfolding send plain_error
  send_events none request_id upstream req s =
      ((λ r t h. inl (ground arith)), (λ x t h. absurd (ground arith)))
  send_events (some client) request_id upstream req s = elim (Option-cases (client upstream req)) [
    | inl none_ ↦ ((λ r t h. inr (ground arith)), (λ x t h. absurd (ground arith)))
    | inr (y, is) ↦ ((λ r t h. absurd (ground arith)), (λ x t h. ground arith))
  ]

module _ (F : Float32) (u : Unicode) {V : Type 0} (h : ProxyHandler F.Carrier V) (j : Json)
    (session : Text) where
  -- Nothing is sent, or the request to the upstream of the route.
  abbrev pub Sends : RouteConfig → Request → State V → State V → Type 0
  Sends route out s t =
      (t.events ≡ s.events) ⊎ (t.events ≡ Event.sent route.upstream out ∷ s.events)

  answer_client_quiet :
      (policy : EffectivePolicy F.Carrier) (system_id : Text) (route : RouteConfig)
      (degraded : Bool) (resp : Upstream) (s t : State V) (r : Response F.Carrier)
      → responds (answer_client F u h j session policy system_id route degraded resp s)
        ≡ some (r, t)
      → t.events ≡ s.events
  unfolding answer_client
  answer_client_quiet policy system_id route degraded resp s t r e = ground arith

  pub send_masked-Sends :
      (policy : EffectivePolicy F.Carrier) (ctx : RequestCtx) (route : RouteConfig) (req : Request)
      (json : Value) (progress : Option (Progress V)) (s t : State V) (r : Response F.Carrier)
      → responds (send_masked F u h j session policy ctx route req (json, progress) s) ≡ some (r, t)
      → Sends route (with_body req (j.write json)) s t
  send_masked-Sends policy ctx route req json none s t r e = absurd (ground arith)
  send_masked-Sends policy ctx route req json (some p) s t r e =
      let out = with_body req (j.write json) in
      let s' = record s { vault = p.vault } in
      let (refused, passed) =
        send_events {S = F.Carrier} h.llm ctx.request_id route.upstream out s' in
      elim (>>=-responds (send h.llm ctx.request_id route.upstream out)
        (answer_client F u h j session policy ctx.system_id route p.degraded) e) [
          | inl a ↦ refused r t a
          | inr (x, s'', went, more) ↦ inr (
              answer_client_quiet policy ctx.system_id route p.degraded x s'' t r more
              ∙ passed x s'' went)
        ]

  pub proxy_raw-Sends :
      (route : RouteConfig) (request_id : Text) (req : Request) (s t : State V)
      (r : Response F.Carrier)
      → responds (proxy_raw F u h j session route request_id req s) ≡ some (r, t)
      → (t.events ≡ s.events)
        ⊎ ((body : Text) × (req.body ≡ some body)
            × (t.events ≡ Event.sent route.upstream (with_body req body) ∷ s.events))
  unfolding proxy_raw
  proxy_raw-Sends route request_id req s t r e =
      elim (>>=-responds (read_body h.cfg.max_body_bytes request_id req.body)
        (λ body.
          ◌>>=◌ (send h.llm request_id route.upstream (with_body req body))
            (λ resp s. goes (raw resp) s))
        e) [
          | inl a ↦ inl (read_body_cases h.cfg.max_body_bytes request_id req.body s t r a)
          | inr (body, s', came, more) ↦
              let (arrived, same) =
                read_body_reads h.cfg.max_body_bytes request_id body req.body s s' came in
              let (refused, passed) =
                send_events {S = F.Carrier} h.llm request_id route.upstream (with_body req body)
                  s' in
              let kept = ap (λ (q : State V). q.events) same in
              elim (>>=-responds (send h.llm request_id route.upstream (with_body req body))
                (λ resp s. goes (raw resp) s) more) [
                  | inl a ↦ elim (refused r t a) [
                    | inl quiet ↦ inl (quiet ∙ kept)
                    | inr sent_ ↦ inr (body, arrived, ground arith)
                  ]
                  | inr (x, s'', went, done) ↦
                      let sent_ = passed x s'' went in inr (body, arrived, ground arith)
                ]
        ]
