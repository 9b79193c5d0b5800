-- ===== src/Tests/Requests.antt =====
-- Requests to the handlers, of one system with one key.
use alfavibe_hack.Prelude.{
  eqb, ℕ, ◌%◌, ◌≡◌, ◌≢◌, refl, false, List, [], ◌∷◌, Option, none, some, Text, text_Eq, utf8,
  length, arith, if◌then◌else◌, ◌==◌, replicate, text_eq, decimal, chars, slice?, is_char_boundary,
}
use alfavibe_hack.Combination.{apply, distinct, holds, keeps}
use alfavibe_hack.Domain.Candidate.{kind}
use alfavibe_hack.Domain.Document.{
  build, folded, is_ascii_fast_path, new, normalize_char, original_slice,
}
use alfavibe_hack.Domain.Float32.{millis}
use alfavibe_hack.Domain.MaskState.{assign, bump, next_number}
use alfavibe_hack.Domain.PdType.{phone}
use alfavibe_hack.Domain.Span.{len, overlaps}
use alfavibe_hack.Domain.Unicode.{ascii, contains, starts_with}
use alfavibe_hack.Guard.Crypto.{encrypt_mapping, session_key}
use alfavibe_hack.Guard.Types.{step_of, text_of}
use alfavibe_hack.Guard.Service.{
  conclude, entries_of, forward, keep, lookup_mapping, mask, masked_form, process_tz, run_line,
  stateless, to_bytes,
}
use alfavibe_hack.Mask.{placeholder_mask}
use alfavibe_hack.Mask.Replace.{replace}
use alfavibe_hack.Pipeline.Line.{
  active_detectors, active_filters, apply_filters, ask_ner, canonical_from_original, canonicalize,
  detect_from, entities_of, expand, gather, leaks_of, mask_line,
}
use alfavibe_hack.Pipeline.Masking.{assemble, mask_pass, masker_for, replace_one}
use alfavibe_hack.Pipeline.Signal
use alfavibe_hack.Pipeline.Signal.{has_pd_signal, note_char, scan}
use alfavibe_hack.Resolve.{a_wins, absorbs, passes, resolve, select, sweep, to_entity}
use alfavibe_hack.Resolve.Sorting
use alfavibe_hack.Resolve.Sorting.{sort_by}
use alfavibe_hack.Prelude.Maps.{get, get_or, insert}
use alfavibe_hack.Mask.Digest.{Digests, hex, sha256_hex}
use alfavibe_hack.RateLimit.{check}
use alfavibe_hack.Config.Resolver
use alfavibe_hack.Config.Profile.{CompiledConfig}
use alfavibe_hack.Controller.Dto.{BatchItem, Body, ProcessRequest, Request, Response}
use alfavibe_hack.Controller.Flow.{
  Details, Event, Flow, State, Timed, World, responds, json_response, limit_rate,
}
use alfavibe_hack.Controller.Middleware.{
  InflightGuard, RequestCtx, ServerConfig, authenticate, check_body_limit, check_key, key_matches,
  try_acquire,
}
use alfavibe_hack.Controller.Middleware.Keys.{IsDigest, key_matches-hex}
use alfavibe_hack.Controller.Process.{
  ProcessHandler, check_length, dispatch, entity_spans, handle, handle_permitted, handle_tz,
  identify, read_body, timed, type_counts, with_body, with_ctx, with_dto, with_length, with_rate,
}
use alfavibe_hack.Config.Keys.{decode_hex32, decode_pairs, to_digit}
use alfavibe_hack.Controller.Items.{failed_item, masked_item}
use alfavibe_hack.Controller.Process.Admitted.{Admitted, Identified}
use alfavibe_hack.Controller.Process.Answers.{handle-Admitted}
use alfavibe_hack.Domain.Policy.{EffectivePolicy}
use alfavibe_hack.Tests.Sessions.{answer}
use alfavibe_hack.Tests.Configs.{config}
use alfavibe_hack.Tests.Samples.{Store, masked_text, sealed, original, outside, policy, service}

-- A digest that keeps the length of the text.
abbrev pub digests : Digests
digests = record {
  hmac = λ k t. length t % 256 ∷ replicate 31 0;
  sha256 = λ t. length t % 256 ∷ replicate 31 0;
}

pub digests-IsDigest : IsDigest digests
digests-IsDigest = record { sized = λ t. refl; bytes = λ t. omega arith }

abbrev pub server : ServerConfig
server = record {
  version = 1;
  auth_header = utf8 "key";
  system_id_header = utf8 "id";
  default_system_id = [];
  max_body_bytes = 100;
  log_entity_offsets = false;
  admin_token_sha256 = [];
  system_keys = (utf8 "A", utf8 "02") ∷ [];
  system_key_bytes = (utf8 "A", 2 ∷ replicate 31 0) ∷ [];
  system_rate_limit = [];
  routes = [];
}

abbrev pub headers : Text → Option Text
headers name =
    if name == utf8 "id"
    then some (utf8 "A")
    else if name == utf8 "key"
    then some (utf8 "k1")
    else none

abbrev pub request : Request
request = record {
  method = utf8 "POST";
  path = utf8 "/process";
  header = headers;
  body = some (utf8 "{}");
}

abbrev pub dto : ProcessRequest
dto = record {
  operation = none;
  payload = some original;
  payload_id = some (utf8 "7");
  session_id = none;
  mask_context = none;
  text = none;
  route = none;
  dry_run = false;
}

abbrev pub world : World Store
world = record {
  request_id = utf8 "r";
  auth_request_id = utf8 "q";
  now = 0;
  latency = 0;
  call = λ n. Timed.in_time;
  outside = λ n. outside;
  parse_request = λ t. some dto;
  parse_batch = λ t. some (record { operation = utf8 "mask"; texts = original ∷ []; route = none });
}

abbrev pub resolver : CompiledConfig ℕ
resolver = record config { policies = ((utf8 "A", none), policy) ∷ [] }

abbrev pub handler : ProcessHandler ℕ Store
handler = record {
  cfg = server;
  service = service (utf8 "memory");
  resolver = resolver;
  token_counter = λ t. length t;
}

abbrev pub fresh : State Store
fresh = record { vault = []; buckets = []; events = [] }

abbrev permits : InflightGuard
permits = record { free = 1 }

abbrev tz_answer : Response ℕ
tz_answer = record {
  status = 200;
  headers = (utf8 "content-type", utf8 "application/json") ∷ [];
  body = Body.tz (record { result = masked_text });
}

abbrev after : State Store
after = record {
  vault = (utf8 "7", sealed (utf8 "A")) ∷ [];
  buckets = [];
  events =
      Event.processed (utf8 "q") (utf8 "A") (utf8 "mask")
        (Details.found 6 false 1 ((phone, 1) ∷ []) [])
      ∷ Event.entities phone (utf8 "regex")
      ∷ Event.tokens (utf8 "A") (utf8 "mask") 6
      ∷ Event.request_duration (utf8 "A") [] (utf8 "mask")
      ∷ Event.requests (utf8 "A") [] (utf8 "mask") 200
      ∷ [];
}

answered :
    responds (handle millis ascii handler digests request world permits fresh)
    ≡ some (tz_answer, after)
unfolding process_tz stateless lookup_mapping get insert forward mask run_line conclude entries_of
    masked_form keep to_bytes encrypt_mapping session_key mask_line gather detect_from
    active_detectors ask_ner apply_filters active_filters entities_of canonicalize
    canonical_from_original expand leaks_of resolve passes sweep select sort_by Sorting.insert
    a_wins absorbs to_entity apply keeps distinct holds mask_pass masker_for replace_one assemble
    placeholder_mask replace next_number assign bump decimal has_pd_signal scan note_char
    Signal.conclude chars contains starts_with new is_ascii_fast_path build folded normalize_char
    original_slice slice? is_char_boundary text_eq kind overlaps len handle try_acquire
    handle_permitted identify authenticate check_key key_matches with_ctx limit_rate check with_rate
    check_length check_body_limit with_length read_body with_body with_dto Resolver.resolve dispatch
    handle_tz timed text_of type_counts entity_spans step_of json_response
answered = refl

handle-Admitted_example :
    (try_acquire permits ≢ none)
    × ((ctx : RequestCtx) × (d : ProcessRequest) × (p : EffectivePolicy ℕ) × (body : Text)
        × (t : State Store) × Identified server digests request world ctx
        × ((check 0 ctx.system_id (get_or ctx.system_id 0 server.system_rate_limit) []).0 ≡ none)
        × Admitted server resolver request world ctx d p body
        × (t.vault ≡ [])
        × (dispatch millis ascii handler p d ctx world t ≡ Flow.goes tz_answer after))
handle-Admitted_example =
    handle-Admitted millis ascii handler digests request world permits fresh after tz_answer
      answered (omega arith)

abbrev batch : List Text
batch = original ∷ utf8 "x" ∷ []

-- The call of the second text takes too long.
abbrev slow : World Store
slow = record world { call = λ n. if eqb n 0 then Timed.in_time else Timed.elapsed [] }

-- The item of the first text, and of the second.
abbrev first_item : BatchItem ℕ
first_item = masked_item 0 (record (answer none) { session_id = utf8 "s" })

abbrev second_item : BatchItem ℕ
second_item = failed_item 1 (utf8 "x") (utf8 "timeout")

key_matches-hex_example :
    key_matches digests server (utf8 "A") (utf8 "ab") (sha256_hex digests (utf8 "k1"))
    ≡ (sha256_hex digests (utf8 "ab") == sha256_hex digests (utf8 "k1"))
key_matches-hex_example =
    key_matches-hex digests digests-IsDigest server (utf8 "A") (utf8 "ab") (utf8 "k1")
      (2 ∷ replicate 31 0) decoded stored
  where
    decoded : decode_hex32 (sha256_hex digests (utf8 "k1")) ≡ some (2 ∷ replicate 31 0)
    decoded = unfold decode_hex32 decode_pairs to_digit sha256_hex hex in refl

    stored : get (utf8 "A") server.system_key_bytes ≡ some (2 ∷ replicate 31 0)
    stored = unfold get text_eq in refl
