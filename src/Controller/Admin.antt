-- ===== src/Controller/Admin.antt =====
-- src/controller/admin_handler.rs: health, metrics and the reload of the configuration.
use alfavibe_hack.Prelude.{
  ℕ, ◌≡◌, ◌≢◌, ◌⊎◌, Bool, true, false, not, [], ◌∷◌, ◌++◌, Option, none, some, Text, text_Eq, utf8,
  arith, drop, decimal, if◌then◌else◌, ◌==◌, ==_iff, inl, inr,
}
use alfavibe_hack.Domain.Unicode.{starts_with}
use alfavibe_hack.Mask.Digest.{Digests, sha256_hex}
use alfavibe_hack.Controller.Dto.{Body, Request, Response}
use alfavibe_hack.Controller.Middleware.{ServerConfig}

abbrev plain : {S : Type 0} → ℕ → Text → Response S
plain st body = record { status = st; headers = []; body = Body.bytes body }

-- `json!` writes the members of an object in the order of their names.
abbrev flag : Bool → Text
flag true = utf8 "true"
flag false = utf8 "false"

abbrev bearer : Option Text → Text
bearer none = []
bearer (some v) = if starts_with (utf8 "Bearer ") v then drop 7 v else []

abbrev is_empty : Text → Bool
is_empty [] = true
is_empty (c ∷ cs) = false

module _ {S : Type 0} (cfg : ServerConfig) where
  unfoldable pub health_live : Response S
  health_live = plain 200 (utf8 "ok")

  unfoldable pub health_ready : Bool → Response S
  health_ready vault_ok = record {
    status = if vault_ok then 200 else 503;
    headers = (utf8 "content-type", utf8 "application/json") ∷ [];
    body = Body.bytes (
        utf8 "{\"config_version\":"
        ++ (decimal cfg.version
            ++ (utf8 ",\"ready\":"
                ++ (flag vault_ok ++ (utf8 ",\"vault\":" ++ (flag vault_ok ++ utf8 "}"))))));
  }

  -- `render` is of the crate `metrics_exporter_prometheus`.
  unfoldable pub metrics : Text → Response S
  metrics render = record {
    status = 200;
    headers = (utf8 "content-type", utf8 "text/plain") ∷ [];
    body = Body.bytes render;
  }

module _ {S C : Type 0} (cfg : ServerConfig) where
  -- `reload` reads the new configuration, or says why not.
  abbrev reloaded : C → C ⊎ Text → Response S × C
  reloaded c (inl c') = (plain 200 (utf8 "reloaded"), c')
  reloaded c (inr e) = (plain 500 (utf8 "reload failed: " ++ e), c)

  -- `config_reload`, on the configuration of the resolver of policies.
  unfoldable pub config_reload : Digests → C ⊎ Text → Request → C → Response S × C
  config_reload dig reload req c =
      if is_empty cfg.admin_token_sha256
      then (plain 401 (utf8 "admin token not configured"), c)
      else if not
          (sha256_hex dig (bearer (req.header (utf8 "authorization"))) == cfg.admin_token_sha256)
      then (plain 401 (utf8 "unauthorized"), c)
      else reloaded c reload

-- A reload is answered with 200 only where a digest of the administrator's token is configured and the
-- request brings a token with this digest; and then the new configuration is the one in use.
pub config_reload_guarded :
    (S : Type 0) {C : Type 0} (cfg : ServerConfig) (dig : Digests) (reload : C ⊎ Text)
    (req : Request) (c : C)
    → (config_reload {S = S} cfg dig reload req c).0.status ≡ 200
    → (cfg.admin_token_sha256 ≢ [])
      × (sha256_hex dig (bearer (req.header (utf8 "authorization"))) ≡ cfg.admin_token_sha256)
      × (reload ≡ inl (config_reload {S = S} cfg dig reload req c).1)
unfolding config_reload
config_reload_guarded S cfg dig reload req c ok = ground (
  arith,
  ==_iff (sha256_hex dig (bearer (req.header (utf8 "authorization")))) cfg.admin_token_sha256,
)
