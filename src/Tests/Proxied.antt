-- ===== src/Tests/Proxied.antt =====
-- The dictionary that a vault represents, and the proxy, at concrete inputs.
use alfavibe_hack.Prelude.{
  All, ℕ, ◌≡◌, ◌≢◌, refl, false, List, [], ◌∷◌, ◌++◌, none, some, Text, text_Eq, utf8, arith,
  text_eq, decimal, chars, slice?, is_char_boundary,
}
use alfavibe_hack.Combination.{apply, distinct, holds, keeps}
use alfavibe_hack.Domain.Candidate.{kind}
use alfavibe_hack.Domain.Document.{
  build, folded, is_ascii_fast_path, new, normalize_char, original_slice,
}
use alfavibe_hack.Domain.Float32.{millis}
use alfavibe_hack.Domain.MaskState.{assign, bump, next_number}
use alfavibe_hack.Domain.Span.{len, overlaps}
use alfavibe_hack.Domain.Unicode.{ascii, contains, starts_with}
use alfavibe_hack.Guard.Crypto.{encrypt_mapping, session_key}
use alfavibe_hack.Guard.Run.{returned}
use alfavibe_hack.Guard.Types.{TzOutcome, text_of}
use alfavibe_hack.Guard.Service.{
  conclude, entries_of, keep, lookup_mapping, mask, masked_form, process_tz, run_line, stateless,
  to_bytes,
}
use alfavibe_hack.Guard.Steps.{process_tz-back}
use alfavibe_hack.Mask.{placeholder_mask}
use alfavibe_hack.Mask.Replace.{replace}
use alfavibe_hack.Pipeline.Line.{
  active_detectors, active_filters, apply_filters, ask_ner, canonical_from_original, canonicalize,
  detect_from, entities_of, expand, gather, leaks_of, mask_line,
}
use alfavibe_hack.Pipeline.Masking.{assemble, mask_pass, masker_for, replace_one}
use alfavibe_hack.Pipeline.Signal
use alfavibe_hack.Pipeline.Signal.{has_pd_signal, note_char, scan}
use alfavibe_hack.Resolve.{a_wins, absorbs, passes, resolve, select, sweep, to_entity}
use alfavibe_hack.Resolve.Sorting
use alfavibe_hack.Resolve.Sorting.{sort_by}
use alfavibe_hack.Prelude.Maps.{get, insert}
use alfavibe_hack.Config.Resolver
use alfavibe_hack.Controller.Dto.{Body, Request, Response}
use alfavibe_hack.Controller.Flow.{Event, State}
use alfavibe_hack.Tests.Samples.{
  Store, masked_text, original, outside, policy, service, entry, sealed_of,
}
use alfavibe_hack.Prelude.Maps.{get-insert_ne}
use alfavibe_hack.Config.Profile.{RouteConfig}
use alfavibe_hack.Controller.Proxy
use alfavibe_hack.Controller.Proxy.Allowed.{Allowed}
use alfavibe_hack.Controller.Proxy.Steps.{Json, ProxyHandler}
use alfavibe_hack.Controller.Proxy.Strings.{Progress, mask_string}
use alfavibe_hack.Controller.Proxy.Strings.Kept.{mask_strings-last}
use alfavibe_hack.JsonPaths.{Value}
use alfavibe_hack.JsonPaths.{replace as replace_path}
use alfavibe_hack.JsonPaths.Parse
use alfavibe_hack.Demask.{Mapping}
use alfavibe_hack.JsonPaths.Replaced.{run_over}
use alfavibe_hack.Guard.Sessions.Recorded.{IsPart}
use alfavibe_hack.Guard.Refines.{Dictionary, KeepsOthers, Represents}
use alfavibe_hack.Guard.Refines.Runs.{AllAnswers, Call, serve, serve-AllAnswers}
use alfavibe_hack.Tests.Samples.{vault, cipher-IsCipher, codec-IsCodec, vault-IsVault}
use alfavibe_hack.Tests.Sessions.{answer, in_memory, masked_first, store_of}
use alfavibe_hack.Tests.Requests.{headers, resolver, server}

vault-KeepsOthers : KeepsOthers vault
vault-KeepsOthers = record {
  undisturbed = λ j k e v v' differ put.
      let same : insert k e v ≡ v' = ground arith in rw (← same, get-insert_ne k j e v differ) refl;
}

abbrev nothing : Dictionary
nothing id = none

empty-Represents : Represents millis ascii (service (utf8 "memory")) (utf8 "A") [] nothing
unfolding lookup_mapping stateless text_eq get
empty-Represents id = (none, refl, refl)

-- A payload is masked, and its masked text is put back.
abbrev calls : List Call
calls = ((utf8 "7", original), outside) ∷ ((utf8 "7", masked_text), outside) ∷ []

served :
    serve millis ascii (service (utf8 "memory")) policy (utf8 "A") calls []
    ≡ returned (masked_text ∷ original ∷ [], store_of (utf8 "A"))
unfolding serve text_of
served = rw (serve, masked_first, put_back) refl
  where
    changed : masked_text ≢ original
    changed h = cc

    put_back :
        process_tz millis ascii
          (service (utf8 "memory"))
          policy
          (utf8 "A")
          (utf8 "7")
          masked_text
          outside
          (store_of (utf8 "A"))
        ≡ returned (TzOutcome.restored original 1, store_of (utf8 "A"))
    put_back =
        process_tz-back millis ascii (service (utf8 "memory")) cipher-IsCipher codec-IsCodec
          vault-IsVault in_memory policy (utf8 "A") (utf8 "7") original outside outside
          (answer none) [] (store_of (utf8 "A")) refl refl masked_first changed

serve-AllAnswers_example :
    (a : Dictionary) × AllAnswers nothing calls (masked_text ∷ original ∷ []) a
    × Represents millis ascii (service (utf8 "memory")) (utf8 "A") (store_of (utf8 "A")) a
serve-AllAnswers_example =
    serve-AllAnswers millis ascii (service (utf8 "memory")) cipher-IsCipher codec-IsCodec
      vault-IsVault vault-KeepsOthers in_memory policy (utf8 "A") calls nothing _ [] _ refl
      (refl, (refl, tt)) empty-Represents served

-- The proxy masks the one string of a body.
abbrev progress : ℕ → Store → Progress Store
progress n v = record { vault = v; calls = n; degraded = false }

-- Another string, which the session holds before the last one comes.
abbrev earlier : Text
earlier = utf8 "t 15 k"

abbrev earlier_mapping : Mapping
earlier_mapping = record {
  entries = record entry { original = utf8 "15" } ∷ [];
  original = earlier;
  masked = masked_text;
}

abbrev held : Store
held = (utf8 "7", sealed_of earlier_mapping (utf8 "A")) ∷ []

masked_earlier :
    mask millis ascii
      (service (utf8 "memory"))
      policy
      (utf8 "A")
      earlier
      (some (utf8 "7"))
      false
      outside
      []
    ≡ returned (record (answer none) { mapping = earlier_mapping }, held)
unfolding stateless get insert mask run_line conclude entries_of masked_form keep to_bytes
    encrypt_mapping session_key mask_line gather detect_from active_detectors ask_ner apply_filters
    active_filters entities_of canonicalize canonical_from_original expand leaks_of resolve passes
    sweep select sort_by Sorting.insert a_wins absorbs to_entity apply keeps distinct holds
    mask_pass masker_for replace_one assemble placeholder_mask replace next_number assign bump
    decimal has_pd_signal scan note_char Signal.conclude chars contains starts_with new
    is_ascii_fast_path build folded normalize_char original_slice slice? is_char_boundary text_eq
    kind overlaps len
masked_earlier = refl

masked_again :
    mask millis ascii
      (service (utf8 "memory"))
      policy
      (utf8 "A")
      original
      (some (utf8 "7"))
      false
      outside
      held
    ≡ returned (answer none, store_of (utf8 "A"))
unfolding stateless get insert mask run_line conclude entries_of masked_form keep to_bytes
    encrypt_mapping session_key mask_line gather detect_from active_detectors ask_ner apply_filters
    active_filters entities_of canonicalize canonical_from_original expand leaks_of resolve passes
    sweep select sort_by Sorting.insert a_wins absorbs to_entity apply keeps distinct holds
    mask_pass masker_for replace_one assemble placeholder_mask replace next_number assign bump
    decimal has_pd_signal scan note_char Signal.conclude chars contains starts_with new
    is_ascii_fast_path build folded normalize_char original_slice slice? is_char_boundary text_eq
    kind overlaps len
masked_again = refl

mask_strings-last_example :
    (lookup_mapping millis ascii
        (service (utf8 "memory"))
        (utf8 "A")
        (utf8 "7")
        (store_of (utf8 "A"))
      ≡ returned (some (answer none).mapping))
    × ((answer none).mapping.original ≡ original)
    × All (IsPart original) (answer none).mapping.entries
mask_strings-last_example =
    mask_strings-last millis ascii (service (utf8 "memory")) cipher-IsCipher codec-IsCodec
      vault-IsVault in_memory policy refl (utf8 "A") (utf8 "7") (λ n. outside) (λ n. refl)
      (earlier ∷ []) original (progress 0 []) (progress 1 held) (progress 2 (store_of (utf8 "A")))
      (answer none) (store_of (utf8 "A")) first masked_again both
  where
    first :
        (run_over
          (mask_string millis ascii
            (service (utf8 "memory"))
            policy
            (utf8 "A")
            (utf8 "7")
            (λ n. outside))
          (earlier ∷ [])
          (some (progress 0 []))).1
        ≡ some (progress 1 held)
    first = unfold run_over mask_string in rw masked_earlier refl

    both :
        (run_over
          (mask_string millis ascii
            (service (utf8 "memory"))
            policy
            (utf8 "A")
            (utf8 "7")
            (λ n. outside))
          (earlier ∷ [] ++ original ∷ [])
          (some (progress 0 []))).1
        ≡ some (progress 2 (store_of (utf8 "A")))
    both = unfold run_over mask_string in rw (masked_earlier, masked_again) refl

-- A JSON text is its bytes, as one string.
abbrev json : Json
json = record {
  parse = λ t. some (Value.string t);
  write = λ v. elim v [ Value.string t ↦ t | _ ↦ [] ];
}

abbrev route : RouteConfig
route = record {
  id = utf8 "chat";
  systems = [];
  profile_override = none;
  types_override = [];
  response_demask = false;
  match_ = record { method = utf8 "POST"; path = utf8 "/chat"; path_prefix = []; header = [] };
  upstream = utf8 "llm";
  json_paths = utf8 "$" ∷ [];
  response_json_paths = [];
  action = none;
}

abbrev proxy : ProxyHandler ℕ Store
proxy = record {
  cfg = record server { routes = route ∷ [] };
  service = service (utf8 "memory");
  resolver = record resolver { policies = ((utf8 "A", some (utf8 "chat")), policy) ∷ [] };
  llm = some (λ upstream req. some (record { status = 200; headers = []; body = utf8 "ok" }));
}

abbrev chat : Request
chat = record {
  method = utf8 "POST";
  path = utf8 "/proxy/chat";
  header = headers;
  body = some original;
}

abbrev sent_on : State Store
sent_on = record {
  vault = store_of (utf8 "A");
  buckets = [];
  events = Event.sent (utf8 "llm") (record chat { body = some masked_text }) ∷ [];
}

abbrev passed_back : Response ℕ
passed_back = record { status = 200; headers = []; body = Body.bytes (utf8 "ok") }
