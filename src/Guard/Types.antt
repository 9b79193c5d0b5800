-- ===== src/Guard/Types.antt =====
-- The types of src/service/guard_service.rs, and `Vault` of src/domain/traits.rs.
use alfavibe_hack.Prelude.{ℕ, Bool, List, Option, Text, text_Eq, utf8}
use alfavibe_hack.Pipeline.Masking.{MaskedEntityInfo}
use alfavibe_hack.Pipeline.Line.{Clock, PipelineCtx}
use alfavibe_hack.Demask.{Mapping, Match}
use alfavibe_hack.Guard.Crypto.{Cipher, EncryptedMapping}
use alfavibe_hack.Guard.Run.{Result, Run}

-- `Vault` of src/domain/traits.rs, on a state of type `V`. Nothing looks at the outcome of `delete`.
pub record Vault (V : Type 0) : Type 0 where
  pub put : Text → EncryptedMapping → V → Run V
  pub get : Text → V → Run (Option EncryptedMapping)
  pub delete : Text → V → V

-- The crates `bincode`, `base64` and `regex`.
pub record Codec : Type 0 where
  pub serialize : Mapping → Result Text
  pub deserialize : Text → Result Mapping
  pub encode : Text → Text
  pub decode : Text → Result Text
  pub captures : Text → List Match

pub record GuardService (S V : Type 0) : Type 0 where
  pub pipeline : PipelineCtx S
  pub vault : Vault V
  pub cipher : Cipher
  pub codec : Codec
  pub master_key : Text
  pub vault_mode : Text
  pub delete_after_demask : Bool
  pub heavy_text_threshold_bytes : ℕ

pub record MaskResult (S : Type 0) : Type 0 where
  pub text : Text
  pub session_id : Text
  pub entities : List (MaskedEntityInfo S)
  pub degraded : Bool
  pub mask_context : Option Text
  pub mapping : Mapping

pub data TzOutcome (S : Type 0) : Type 0 where
  masked : MaskResult S → TzOutcome S
  restored : Text → ℕ → TzOutcome S
  repeated : Text → TzOutcome S

-- `TzOutcome::text` and `TzOutcome::step`
unfoldable pub text_of : {S : Type 0} → TzOutcome S → Text
text_of (TzOutcome.masked r) = r.text
text_of (TzOutcome.restored text n) = text
text_of (TzOutcome.repeated text) = text

unfoldable pub step_of : {S : Type 0} → TzOutcome S → Text
step_of (TzOutcome.masked r) = utf8 "mask"
step_of (TzOutcome.restored text n) = utf8 "demask"
step_of (TzOutcome.repeated text) = utf8 "mask_retry"

pub record DemaskResult : Type 0 where
  pub text : Text
  pub restored : ℕ
  pub unresolved : ℕ
  pub degraded : Bool

-- What a call draws from outside: the clock, the random nonce, a fresh session and the text of the
-- error of a blocking task that panicked.
pub record Outside : Type 0 where
  pub clock : Clock
  pub nonce : Text
  pub fresh : Text
  pub join_error : Text
