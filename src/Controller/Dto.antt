-- ===== src/Controller/Dto.antt =====
-- src/controller/dto.rs, and `EntityDto` of src/controller/process_handler.rs: what the bodies say.
use alfavibe_hack.Prelude.{ℕ, Bool, List, Option, Text}
use alfavibe_hack.Domain.PdType.{PdType}

-- A request; its header values are those that `to_str` accepts. A body that does not arrive is `none`.
pub record Request : Type 0 where
  pub method : Text
  pub path : Text
  pub header : Text → Option Text
  pub body : Option Text

pub record ProcessRequest : Type 0 where
  pub operation : Option Text
  pub payload : Option Text
  pub payload_id : Option Text
  pub session_id : Option Text
  pub mask_context : Option Text
  pub text : Option Text
  pub route : Option Text
  pub dry_run : Bool

pub record BatchRequest : Type 0 where
  pub operation : Text
  pub texts : List Text
  pub route : Option Text

pub record EntityDto (S : Type 0) : Type 0 where
  pub pd_type : PdType
  pub start : ℕ
  pub end : ℕ
  pub masked_start : ℕ
  pub masked_end : ℕ
  pub replacement : Text
  pub score : S
  pub source : Text

-- The latency is what the clock shows.
pub record StatsDto : Type 0 where
  pub tokens : ℕ
  pub latency_ms : ℕ

pub record MaskResponse (S : Type 0) : Type 0 where
  pub request_id : Text
  pub session_id : Text
  pub text : Text
  pub entities : List (EntityDto S)
  pub degraded : Bool
  pub mask_context : Option Text
  pub stats : StatsDto

pub record DemaskResponse : Type 0 where
  pub request_id : Text
  pub session_id : Text
  pub text : Text
  pub restored : ℕ
  pub unresolved : ℕ
  pub degraded : Bool

pub record TzResponse : Type 0 where
  pub result : Text

pub record ErrorBody : Type 0 where
  pub code : Text
  pub message : Text
  pub request_id : Text

pub record BatchItem (S : Type 0) : Type 0 where
  pub index : ℕ
  pub session_id : Text
  pub text : Text
  pub entities : List (EntityDto S)
  pub degraded : Bool
  pub mask_context : Option Text
  pub error : Option Text

pub record BatchResponse (S : Type 0) : Type 0 where
  pub request_id : Text
  pub results : List (BatchItem S)

-- A body before it is written by the crate `serde_json`, or plain bytes.
pub data Body (S : Type 0) : Type 0 where
  mask : MaskResponse S → Body S
  demask : DemaskResponse → Body S
  tz : TzResponse → Body S
  batch : BatchResponse S → Body S
  error : ErrorBody → Body S
  bytes : Text → Body S

pub record Response (S : Type 0) : Type 0 where
  pub status : ℕ
  pub headers : List (Text × Text)
  pub body : Body S
