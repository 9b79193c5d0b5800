-- ===== src/Controller/Proxy/Allowed.antt =====
-- Which requests src/controller/proxy_handler.rs lets through to a language model.
use alfavibe_hack.Prelude.{◌≡◌, ◌≢◌, ◌⊎◌, some, Text, text_Eq, utf8}
use alfavibe_hack.Domain.Float32.{Float32}
use alfavibe_hack.Domain.Unicode.{Unicode}
use alfavibe_hack.Config.Profile.{RouteConfig}
use alfavibe_hack.Controller.Dto.{Request}
use alfavibe_hack.Controller.Flow.{World}
use alfavibe_hack.Controller.Middleware.{RequestCtx}
use alfavibe_hack.Controller.Process.{or_empty}
use alfavibe_hack.Controller.Proxy.Steps.{Json, ProxyHandler, with_body}
use alfavibe_hack.Controller.Proxy.Guarded.{MaskedBody}

module _ (F : Float32) (u : Unicode) {V : Type 0} (h : ProxyHandler F.Carrier V) (j : Json)
    (session : Text) (req : Request) (w : World V) where
  -- What may be sent by a route: the body as it came, where the route passes it by, or put
  -- through `mask` string by string.
  abbrev pub Allowed : RequestCtx → RouteConfig → Request → V → Type 0
  Allowed ctx route out v =
      (or_empty route.action ≢ utf8 "block")
      × (((or_empty route.action ≡ utf8 "bypass")
            × ((body : Text) × (req.body ≡ some body) × (out ≡ with_body req body)))
          ⊎ MaskedBody F u h j session req w ctx route out v)
