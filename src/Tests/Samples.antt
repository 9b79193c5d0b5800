-- ===== src/Tests/Samples.antt =====
-- A small profile, pipeline and service on which the theorems are tried.
use alfavibe_hack.Prelude.{
  ℕ, ◌≡◌, refl, true, false, List, [], ◌∷◌, ◌++◌, Option, none, some, Text, text_Eq, utf8, length,
  take, drop, if◌then◌else◌, ◌==◌, ==_refl, ==_ne, take-append, drop-append,
}
use alfavibe_hack.Prelude.Maps.{get, insert, get-insert_self}
use alfavibe_hack.Domain.PdType.{PdType, phone}
use alfavibe_hack.Domain.Candidate.{Candidate, candidate, no_signals, Candidates, DetectorSource}
use alfavibe_hack.Domain.Policy.{
  AddressMode, AmbiguousIdsMode, EffectivePolicy, NerOnFailure, PolicyAction,
}
use alfavibe_hack.Pipeline.Line.{Clock, Detector, PipelineCtx}
use alfavibe_hack.Mask.{placeholder_mask}
use alfavibe_hack.Demask.{Mapping, MappingEntry, Match}
use alfavibe_hack.Guard.Crypto.{Cipher, EncryptedMapping, IsCipher}
use alfavibe_hack.Guard.Run.{Result, Run}
use alfavibe_hack.Guard.Types.{Codec, GuardService, Outside, Vault}
use alfavibe_hack.Guard.Sessions.{IsCodec, IsVault}
use alfavibe_hack.Guard.Sessions.Systems.{IsAuthentic}

abbrev pub policy : EffectivePolicy ℕ
policy = record {
  action = PolicyAction.mask;
  types = phone ∷ [];
  demask = true;
  ambiguous_ids = AmbiguousIdsMode.skip;
  placeholder_format = utf8 "[{label}_{n}]";
  labels = [];
  thresholds = [];
  priorities = [];
  mask_kinds = [];
  address_mode = AddressMode.whole;
  ner_enabled = false;
  ner_types = [];
  ner_on_failure = NerOnFailure.degrade;
  max_windows_per_request = 0;
  trigger_words = [];
  filters = [];
  combination = record { rules = []; min_distinct_types = 0; always_mask = [] };
  json_paths = [];
  response_json_paths = [];
}

-- A candidate of a type and a score between two offsets.
abbrev pub found_at : PdType → ℕ → ℕ → ℕ → Candidate ℕ
found_at t start end score =
    candidate t (record { start = start; end = end }) score (DetectorSource.regex []) Candidates.nil
      no_signals

-- Finds the bytes 2 and 3 of every text.
abbrev pub detector : Detector ℕ
detector = record {
  id = utf8 "phone";
  types = phone ∷ [];
  detect = λ doc active. found_at phone 2 4 900 ∷ [];
}

abbrev pub ctx : PipelineCtx ℕ
ctx = record {
  detectors = detector ∷ [];
  ner = none;
  filters = [];
  maskers = record { by_kind = λ k. none; default = placeholder_mask (utf8 "[{label}_{n}]") [] };
  prefilter_regex_set = none;
}

abbrev pub in_time : Clock
in_time = record { at_detector = λ i. false; at_ner = false; at_resolver = false }

abbrev pub original : Text
original = utf8 "t 89 k"

abbrev pub masked_text : Text
masked_text = utf8 "t [PHONE_1] k"

-- A cipher that keeps the associated data in front of the text, and checks it.
abbrev open_text : Text → Text → Result Text
open_text aad [] = Result.error []
open_text aad (n ∷ rest) = if take n rest == aad then Result.ok (drop n rest) else Result.error []

abbrev pub cipher : Cipher
cipher = record {
  hkdf = λ salt key info. salt ++ (key ++ info);
  encrypt = λ key nonce msg aad. Result.ok (length aad ∷ (aad ++ msg));
  decrypt = λ key nonce ct aad. open_text aad ct;
}

ok_injective : {A : Type 0} (a b : A) → Result.ok a ≡ Result.ok b → a ≡ b
ok_injective a b h = cc

pub cipher-IsCipher : IsCipher cipher
cipher-IsCipher = record {
  decrypts = λ key nonce msg aad ct h.
      rw (← ok_injective _ ct h, take-append aad msg, ==_refl aad, drop-append aad msg) refl;
}

pub cipher-IsAuthentic : IsAuthentic cipher
cipher-IsAuthentic = record {
  refuses = λ key key' nonce msg aad aad' ct h differ.
      ([], rw (← ok_injective _ ct h, take-append aad msg, ==_ne aad aad' differ) refl);
}

-- A text with its length in front.
abbrev sized : Text → Text
sized t = length t ∷ t

abbrev read : Text → Text × Text
read [] = ([], [])
read (n ∷ rest) = (take n rest, drop n rest)

read-sized : (t rest : Text) → read (sized t ++ rest) ≡ (t, rest)
read-sized t rest = rw (take-append t rest, drop-append t rest) refl

-- A codec of mappings with one entry that has a masked form; other mappings are refused.
abbrev write_entry : MappingEntry → Text → Result Text
write_entry e rest = elim e.masked [
  | none ↦ Result.error []
  | some m ↦ Result.ok (sized e.key ++ (sized e.pd_type ++ (sized e.original ++ (sized m ++ rest))))
]

abbrev write_entries : List MappingEntry → Text → Result Text
write_entries (e ∷ []) rest = write_entry e rest
write_entries _ rest = Result.error []

abbrev write_mapping : Mapping → Result Text
write_mapping m = write_entries m.entries (sized m.original ++ (sized m.masked ++ []))

abbrev read_mapping : Text → Result Mapping
read_mapping t =
    let (key, t₁) = read t in
    let (pd_type, t₂) = read t₁ in
    let (orig, t₃) = read t₂ in
    let (form, t₄) = read t₃ in
    let (whole, t₅) = read t₄ in
    let (masked, t₆) = read t₅ in
    Result.ok (record {
      entries = record { key = key; pd_type = pd_type; original = orig; masked = some form } ∷ [];
      original = whole;
      masked = masked;
    })

read-write :
    (k p o f w n : Text)
    → read_mapping (sized k ++ (sized p ++ (sized o ++ (sized f ++ (sized w ++ (sized n ++ []))))))
      ≡ Result.ok (record {
        entries = record { key = k; pd_type = p; original = o; masked = some f } ∷ [];
        original = w;
        masked = n;
      })
read-write k p o f w n =
    rw
      (
        take-append k (sized p ++ (sized o ++ (sized f ++ (sized w ++ (sized n ++ []))))),
        drop-append k (sized p ++ (sized o ++ (sized f ++ (sized w ++ (sized n ++ []))))),
        take-append p (sized o ++ (sized f ++ (sized w ++ (sized n ++ [])))),
        drop-append p (sized o ++ (sized f ++ (sized w ++ (sized n ++ [])))),
        take-append o (sized f ++ (sized w ++ (sized n ++ []))),
        drop-append o (sized f ++ (sized w ++ (sized n ++ []))),
        take-append f (sized w ++ (sized n ++ [])),
        drop-append f (sized w ++ (sized n ++ [])),
        take-append w (sized n ++ []),
        drop-append w (sized n ++ []),
        take-append n [],
      )
      refl

read-write_entries :
    (es : List MappingEntry) (w n t : Text)
    → write_entries es (sized w ++ (sized n ++ [])) ≡ Result.ok t
    → read_mapping t ≡ Result.ok (record { entries = es; original = w; masked = n })
read-write_entries [] w n t h = cc
read-write_entries (e ∷ []) w n t h = by_form e.masked refl h
  where
    by_form :
        (form : Option Text)
        → e.masked ≡ form
        → (elim form [
          | none ↦ Result.error []
          | some m ↦ Result.ok (
              sized e.key
              ++ (sized e.pd_type
                  ++ (sized e.original ++ (sized m ++ (sized w ++ (sized n ++ []))))))
        ])
          ≡ Result.ok t
        → read_mapping t ≡ Result.ok (record { entries = e ∷ []; original = w; masked = n })
    by_form none same g = cc
    by_form (some m) same g =
        rw (← ok_injective _ t g, same) (read-write e.key e.pd_type e.original m w n)
read-write_entries (e ∷ f ∷ es) w n t h = cc

-- Finds the placeholder of the masked text.
abbrev captures : Text → List Match
captures text =
    if text == masked_text
    then record { start = 2; end = 11; label = utf8 "PHONE"; num = utf8 "1" } ∷ []
    else []

abbrev pub codec : Codec
codec = record {
  serialize = write_mapping;
  deserialize = read_mapping;
  encode = λ t. t;
  decode = λ t. Result.ok t;
  captures = captures;
}

pub codec-IsCodec : IsCodec codec
codec-IsCodec = record {
  deserializes = λ m t h. read-write_entries m.entries m.original m.masked t h;
  decodes = λ t. refl;
}

abbrev pub Store : Type 0
Store = List (Text × EncryptedMapping)

abbrev pub vault : Vault Store
vault = record {
  put = λ k e v. Run.returned (insert k e v);
  get = λ k v. Run.returned (get k v);
  delete = λ k v. v;
}

pub vault-IsVault : IsVault vault
vault-IsVault = record {
  gets = λ k e v v' h. rw (← returned_injective _ v' h, get-insert_self k e v) refl;
}
  where
    returned_injective : (a b : Store) → Run.returned a ≡ Run.returned b → a ≡ b
    returned_injective a b h = cc

-- A service with a vault or without.
abbrev pub service : Text → GuardService ℕ Store
service mode = record {
  pipeline = ctx;
  vault = vault;
  cipher = cipher;
  codec = codec;
  master_key = utf8 "k";
  vault_mode = mode;
  delete_after_demask = false;
  heavy_text_threshold_bytes = 1000;
}

abbrev pub outside : Outside
outside = record { clock = in_time; nonce = utf8 "0123456789ab"; fresh = utf8 "s"; join_error = [] }

abbrev pub entry : MappingEntry
entry = record {
  key = utf8 "PHONE_1";
  pd_type = phone;
  original = utf8 "89";
  masked = some (utf8 "[PHONE_1]");
}

abbrev pub mapping : Mapping
mapping = record { entries = entry ∷ []; original = original; masked = masked_text }

-- A mapping as the cipher and the codec leave it for a system.
abbrev pub sealed_of : Mapping → Text → EncryptedMapping
sealed_of m system_id = record {
  nonce = utf8 "0123456789ab";
  ciphertext =
      length system_id
      ∷ (system_id ++ (elim (write_mapping m) [ Result.ok t ↦ t | Result.error _ ↦ [] ]));
}

abbrev pub sealed : Text → EncryptedMapping
sealed = sealed_of mapping
