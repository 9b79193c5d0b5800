-- ===== src/Controller/Middleware.antt =====
-- src/controller/middleware.rs: who asks, and how much may be sent.
pub mod Keys
use alfavibe_hack.Prelude.{
  ℕ, zero, suc, ◌+◌, ◌-◌, ◌*◌, Bool, true, false, Option, none, some, Text, text_Eq, ltb,
  if◌then◌else◌, ◌==◌, List, utf8,
}
use alfavibe_hack.Prelude.Maps.{get}
use alfavibe_hack.Mask.Digest.{Digests, sha256_hex}
use alfavibe_hack.Config.Profile.{RouteConfig}
use alfavibe_hack.Controller.Dto.{Request}

-- The fields of the compiled configuration that the handlers read themselves.
pub record ServerConfig : Type 0 where
  pub version : ℕ
  pub auth_header : Text
  pub system_id_header : Text
  pub default_system_id : Text
  pub max_body_bytes : ℕ
  pub log_entity_offsets : Bool
  pub admin_token_sha256 : Text
  pub system_keys : List (Text × Text)
  pub system_key_bytes : List (Text × Text)
  pub system_rate_limit : List (Text × ℕ)
  pub routes : List RouteConfig

pub record RequestCtx : Type 0 where
  pub request_id : Text
  pub system_id : Text

pub data AuthFailure : Type 0 where
  missing invalid : AuthFailure

unfoldable pub auth_status : AuthFailure → ℕ
auth_status f = 401

pub data Auth : Type 0 where
  authenticated : RequestCtx → Auth
  rejected : AuthFailure → Auth

abbrev or_else : Text → Option Text → Text
or_else d none = d
or_else d (some t) = t

module _ (dig : Digests) (cfg : ServerConfig) where
  -- The digest of the key is the bytes that are expected, or else their hexadecimal form.
  unfoldable pub key_matches : Text → Text → Text → Bool
  key_matches system_id key expected = elim (get system_id cfg.system_key_bytes) [
    | some expected_bytes ↦ dig.sha256 key == expected_bytes
    | none ↦ sha256_hex dig key == expected
  ]

  unfoldable pub check_key : (Text → Option Text) → Text → Text → Text → Auth
  check_key header fresh system_id key = elim (get system_id cfg.system_keys) [
    | none ↦ Auth.rejected AuthFailure.invalid
    | some expected ↦
        if key_matches system_id key expected
        then Auth.authenticated (record {
          request_id = or_else fresh (header (utf8 "x-request-id"));
          system_id = system_id;
        })
        else Auth.rejected AuthFailure.invalid
  ]

  abbrev credentials : (Text → Option Text) → Text → Option Text → Option Text → Auth
  credentials header fresh (some system_id) (some key) = check_key header fresh system_id key
  credentials header fresh none none = Auth.rejected AuthFailure.missing
  credentials header fresh _ _ = Auth.rejected AuthFailure.invalid

  -- `fresh` is the identifier of a request that brings none.
  unfoldable pub authenticate : (Text → Option Text) → Text → Auth
  authenticate header fresh =
      credentials header fresh (header cfg.system_id_header) (header cfg.auth_header)

-- Whether a body of a length is accepted.
unfoldable pub check_body_limit : ServerConfig → ℕ → Bool
check_body_limit cfg len = if ltb cfg.max_body_bytes len then false else true

-- `InflightGuard`: the permits of the semaphore that are free; a permit that is dropped is free again.
pub record InflightGuard : Type 0 where
  pub free : ℕ

abbrev pub new : ℕ → InflightGuard
new max = record { free = max }

unfoldable pub try_acquire : InflightGuard → Option InflightGuard
try_acquire g = elim g.free [ zero ↦ none | suc n ↦ some (record { free = n }) ]

abbrev pub release : InflightGuard → InflightGuard
release g = record { free = suc g.free }
