-- ===== src/Guard/Service.antt =====
-- `GuardService` of src/service/guard_service.rs.
use alfavibe_hack.Prelude.{
  Bool, true, false, not, ◌&&◌, List, [], ◌∷◌, ◌++◌, Option, none, some, Text, text_Eq, utf8,
  length, ltb, take, drop, slice?, if◌then◌else◌, ◌==◌,
}
use alfavibe_hack.Domain.Entity.{MaskRecord}
use alfavibe_hack.Domain.Float32.{Float32}
use alfavibe_hack.Domain.MaskState
use alfavibe_hack.Domain.Policy.{EffectivePolicy, NerOnFailure}
use alfavibe_hack.Domain.Unicode.{Unicode}
use alfavibe_hack.Pipeline.Line.{MaskLineResult, mask_line}
use alfavibe_hack.Demask.{Mapping, MappingEntry, Match, no_mapping}
use alfavibe_hack.Demask
use alfavibe_hack.Guard.Crypto.{EncryptedMapping, encrypt_mapping, decrypt_mapping}
use alfavibe_hack.Guard.Run.{Run, VaultError, map_err, of_option, ◌>>=◌}
use alfavibe_hack.Guard.Types.{DemaskResult, GuardService, MaskResult, Outside, TzOutcome}

-- `unwrap_or_default`
abbrev pub or_empty : Option Text → Text
or_empty none = []
or_empty (some t) = t

abbrev pub or_fresh : Text → Option Text → Text
or_fresh fresh none = fresh
or_fresh fresh (some session) = session

-- The masked form of a record: nothing for an empty range.
unfoldable pub masked_form : Text → MaskRecord → Run (Option Text)
masked_form text r =
    if ltb r.masked_span.start r.masked_span.end
    then (do
      t ← of_option (slice? r.masked_span.start r.masked_span.end text)
      Run.returned (some t))
    else Run.returned none

unfoldable pub entries_of : Text → Text → List MaskRecord → Run (List MappingEntry)
entries_of text out [] = Run.returned []
entries_of text out (r ∷ rs) = do
  orig ← of_option (slice? r.original_span.start r.original_span.end text)
  form ← masked_form out r
  rest ← entries_of text out rs
  Run.returned
      (record { key = or_empty r.key; pd_type = r.pd_type; original = orig; masked = form } ∷ rest)

abbrev requires_ner : NerOnFailure → Bool
requires_ner NerOnFailure.fail = true
requires_ner NerOnFailure.degrade = false

module _ (F : Float32) (u : Unicode) {V : Type 0} (service : GuardService F.Carrier V) where
  open F use {Carrier}

  unfoldable pub stateless : Bool
  stateless = service.vault_mode == utf8 "stateless"

  -- `Mapping::to_bytes` and `Mapping::from_bytes`
  unfoldable pub to_bytes : Mapping → Run Text
  to_bytes m = map_err VaultError.serialization (service.codec.serialize m)

  unfoldable pub from_bytes : Text → Run Mapping
  from_bytes bytes = map_err VaultError.serialization (service.codec.deserialize bytes)

  -- The text is masked with new numbers; a panic in a blocking task is an error.
  unfoldable pub run_line : EffectivePolicy Carrier → Text → Outside → Run (MaskLineResult Carrier)
  run_line policy text out =
      elim (mask_line F u service.pipeline policy out.clock text MaskState.empty) [
        | none ↦
            if ltb service.heavy_text_threshold_bytes (length text)
            then Run.failed
                (VaultError.unavailable (utf8 "heavy task panicked: " ++ out.join_error))
            else Run.panicked
        | some (r, state) ↦ Run.returned r
      ]

  -- The end of `mask`: the mapping goes to the client or to the vault.
  unfoldable pub keep : Text → Text → Text → Mapping → V → Run (Option Text × V)
  keep system_id session nonce mapping v = do
    bytes ← to_bytes mapping
    enc ← encrypt_mapping service.cipher service.master_key nonce session system_id bytes
    (if stateless
        then Run.returned (some (service.codec.encode (enc.nonce ++ enc.ciphertext)), v)
        else (do v' ← service.vault.put session enc v; Run.returned (none, v')))

  -- `mask` after the run of the pipeline, unless it is a dry run.
  unfoldable pub conclude :
      EffectivePolicy Carrier
      → Text
      → Text
      → Text
      → Text
      → MaskLineResult Carrier
      → V
      → Run (MaskResult Carrier × V)
  conclude policy system_id text session nonce result v =
      if result.ner_failed && requires_ner policy.ner_on_failure
      then Run.failed (VaultError.unavailable (utf8 "NER unavailable and policy requires fail"))
      else (do
        entries ← entries_of text result.text result.records
        (mask_context, v') ←
            (if policy.demask
              then keep system_id session nonce
                  (record { entries = entries; original = text; masked = result.text }) v
              else Run.returned (none, v))
        Run.returned (
          record {
            text = result.text;
            session_id = session;
            entities = result.entities;
            degraded = result.degraded;
            mask_context = mask_context;
            mapping = record { entries = entries; original = text; masked = result.text };
          },
          v',
        ))

  unfoldable pub mask :
      EffectivePolicy Carrier
      → Text
      → Text
      → Option Text
      → Bool
      → Outside
      → V
      → Run (MaskResult Carrier × V)
  mask policy system_id text session_id dry_run out v = do
    result ← run_line policy text out
    (if dry_run
        then Run.returned (
          record {
            text = text;
            session_id = or_fresh out.fresh session_id;
            entities = result.entities;
            degraded = result.degraded;
            mask_context = none;
            mapping = no_mapping;
          },
          v,
        )
        else conclude policy system_id text (or_fresh out.fresh session_id) out.nonce result v)

  abbrev ok {ℓ} : {A : Type ℓ} → Run A → Run (Option A)
  ok (Run.returned a) = Run.returned (some a)
  ok (Run.failed e) = Run.returned none
  ok Run.panicked = Run.panicked

  abbrev decoded : Text → Text → Option EncryptedMapping → Run (Option Mapping)
  decoded system_id session none = Run.returned none
  decoded system_id session (some enc) = ok (do
    plain ← decrypt_mapping service.cipher service.master_key session system_id enc
    from_bytes plain)

  abbrev fetched : Text → Text → Run (Option EncryptedMapping) → Run (Option Mapping)
  fetched system_id session (Run.returned got) = decoded system_id session got
  fetched system_id session (Run.failed e) = Run.returned none
  fetched system_id session Run.panicked = Run.panicked

  -- `lookup_mapping`: every failure is as if nothing were stored.
  unfoldable pub lookup_mapping : Text → Text → V → Run (Option Mapping)
  lookup_mapping system_id session v =
      if stateless
      then Run.returned none
      else fetched system_id session (service.vault.get session v)

  -- `process_tz` for an identifier that is known.
  unfoldable pub known : Text → Mapping → Run (TzOutcome Carrier)
  known payload mapping =
      if payload == mapping.original
      then Run.returned (TzOutcome.repeated mapping.masked)
      else if payload == mapping.masked
      then Run.returned (TzOutcome.restored mapping.original (length mapping.entries))
      else (do
        res ← of_option (Demask.demask service.codec.captures payload mapping)
        Run.returned (TzOutcome.restored res.text res.restored))

  -- And for one that is not.
  unfoldable pub forward :
      EffectivePolicy Carrier → Text → Text → Text → Outside → V → Run (TzOutcome Carrier × V)
  forward policy system_id payload_id payload out v = do
    (r, v') ← mask policy system_id payload (some payload_id) false out v
    Run.returned (TzOutcome.masked r, v')

  abbrev answer :
      EffectivePolicy Carrier
      → Text
      → Text
      → Text
      → Outside
      → V
      → Option Mapping
      → Run (TzOutcome Carrier × V)
  answer policy system_id payload_id payload out v none =
      forward policy system_id payload_id payload out v
  answer policy system_id payload_id payload out v (some mapping) = do
    outcome ← known payload mapping
    Run.returned (outcome, v)

  unfoldable pub process_tz :
      EffectivePolicy Carrier → Text → Text → Text → Outside → V → Run (TzOutcome Carrier × V)
  process_tz policy system_id payload_id payload out v =
      if policy.demask
      then (do
        found ← lookup_mapping system_id payload_id v
        answer policy system_id payload_id payload out v found)
      else forward policy system_id payload_id payload out v

  abbrev context_of : Option Text → Run Text
  context_of none =
      Run.failed (VaultError.unavailable (utf8 "mask_context required for stateless vault"))
  context_of (some ct) =
      map_err (λ e. VaultError.crypto (utf8 "bad mask_context: " ++ e)) (service.codec.decode ct)

  abbrev session_of : Option EncryptedMapping → Run EncryptedMapping
  session_of none = Run.failed (VaultError.unavailable (utf8 "session not found"))
  session_of (some enc) = Run.returned enc

  -- Where `demask` takes the encrypted mapping from.
  unfoldable pub encrypted : Text → Option Text → V → Run EncryptedMapping
  encrypted session_id mask_context v =
      if stateless
      then (do
        ct_bytes ← context_of mask_context
        (if ltb (length ct_bytes) 12
            then Run.failed (VaultError.crypto (utf8 "mask_context too short"))
            else Run.returned (record { nonce = take 12 ct_bytes; ciphertext = drop 12 ct_bytes })))
      else (do got ← service.vault.get session_id v; session_of got)

  -- The end of `demask`: the text is filled in, and the session may be deleted.
  unfoldable pub finish : Text → Text → Mapping → V → Run (DemaskResult × V)
  finish session_id text mapping v = do
    res ← of_option (Demask.demask service.codec.captures text mapping)
    Run.returned (
      record {
        text = res.text;
        restored = res.restored;
        unresolved = res.unresolved;
        degraded = false;
      },
      (if service.delete_after_demask && not stateless
          then service.vault.delete session_id v
          else v),
    )

  unfoldable pub demask :
      EffectivePolicy Carrier → Text → Text → Text → Option Text → V → Run (DemaskResult × V)
  demask policy system_id text session_id mask_context v =
      if not policy.demask
      then Run.failed (VaultError.unavailable (utf8 "demask disabled for this system"))
      else (do
        enc ← encrypted session_id mask_context v
        plain ← decrypt_mapping service.cipher service.master_key session_id system_id enc
        mapping ← from_bytes plain
        finish session_id text mapping v)
