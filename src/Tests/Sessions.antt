-- ===== src/Tests/Sessions.antt =====
-- The calls on a session, at a service with one detector of telephone numbers.
use alfavibe_hack.Prelude.{
  ℕ, Option, ◌≡◌, ◌≢◌, refl, false, [], ◌∷◌, ◌++◌, none, some, Text, utf8, is_char_boundary, slice?,
  chars, text_eq, decimal, here, there, arith,
}
use alfavibe_hack.Prelude.Maps.{get, insert}
use alfavibe_hack.Combination.{apply, distinct, holds, keeps}
use alfavibe_hack.Demask.{by_masked, find_text, MappingEntry}
use alfavibe_hack.Domain.Candidate.{kind}
use alfavibe_hack.Domain.Document.{
  build, folded, is_ascii_fast_path, new, normalize_char, original_slice,
}
use alfavibe_hack.Domain.Float32.{millis}
use alfavibe_hack.Domain.MaskState.{assign, bump, next_number}
use alfavibe_hack.Domain.PdType.{phone}
use alfavibe_hack.Domain.Span.{len, overlaps}
use alfavibe_hack.Domain.Unicode.{ascii, contains, starts_with}
use alfavibe_hack.Guard.Crypto.{decrypt_mapping, encrypt_mapping, session_key}
use alfavibe_hack.Guard.Run.{returned}
use alfavibe_hack.Guard.Types.{MaskResult, TzOutcome}
use alfavibe_hack.Guard.Service.{
  conclude, entries_of, forward, from_bytes, keep, lookup_mapping, mask, masked_form, demask,
  finish, process_tz, run_line, stateless, to_bytes,
}
use alfavibe_hack.Demask.Placeholders.{Aligned, Consistent, Unmasked, demask-restore}
use alfavibe_hack.Pipeline.Restore.{restore}
use alfavibe_hack.Guard.Steps.{process_tz-back}
use alfavibe_hack.Guard.Sessions.Contexts.{demask-mask}
use alfavibe_hack.Guard.Sessions.Recorded.{Spotted}
use alfavibe_hack.Guard.Sessions.RoundTrip.{demask-mask_original}
use alfavibe_hack.Guard.Sessions.Systems.{process_tz-overwritten}
use alfavibe_hack.Mask.{placeholder_mask}
use alfavibe_hack.Mask.Replace.{replace}
use alfavibe_hack.Pipeline.Line.{
  active_detectors, active_filters, apply_filters, ask_ner, canonical_from_original, canonicalize,
  detect_from, entities_of, expand, gather, leaks_of, mask_line,
}
use alfavibe_hack.Pipeline.Masking.{assemble, mask_pass, masker_for, replace_one}
use alfavibe_hack.Pipeline.Signal
use alfavibe_hack.Pipeline.Signal.{has_pd_signal, note_char, scan}
use alfavibe_hack.Resolve.{a_wins, absorbs, passes, resolve, select, sweep, to_entity}
use alfavibe_hack.Resolve.Sorting
use alfavibe_hack.Resolve.Sorting.{sort_by}
use alfavibe_hack.Tests.Samples.{
  Store, cipher-IsAuthentic, cipher-IsCipher, codec, sealed, codec-IsCodec, entry, mapping,
  masked_text, original, outside, policy, service, vault-IsVault,
}

-- What `mask` answers for the sample text.
abbrev pub answer : Option Text → MaskResult ℕ
answer context = record {
  text = masked_text;
  session_id = utf8 "7";
  entities =
      record {
        pd_type = phone;
        start = 2;
        end = 4;
        masked_start = 2;
        masked_end = 11;
        replacement = utf8 "[PHONE_1]";
        score = 900;
        source = utf8 "regex";
      }
      ∷ [];
  degraded = false;
  mask_context = context;
  mapping = mapping;
}

abbrev pub store_of : Text → Store
store_of system_id = (utf8 "7", sealed system_id) ∷ []

pub in_memory : stateless millis ascii (service (utf8 "memory")) ≡ false
unfolding stateless text_eq
in_memory = refl

pub masked_first :
    process_tz millis ascii
      (service (utf8 "memory"))
      policy
      (utf8 "A")
      (utf8 "7")
      original
      outside
      []
    ≡ returned (TzOutcome.masked (answer none), store_of (utf8 "A"))
unfolding process_tz stateless lookup_mapping get insert forward mask run_line conclude entries_of
    masked_form keep to_bytes encrypt_mapping session_key mask_line gather detect_from
    active_detectors ask_ner apply_filters active_filters entities_of canonicalize
    canonical_from_original expand leaks_of resolve passes sweep select sort_by Sorting.insert
    a_wins absorbs to_entity apply keeps distinct holds mask_pass masker_for replace_one assemble
    placeholder_mask replace next_number assign bump decimal has_pd_signal scan note_char
    Signal.conclude chars contains starts_with new is_ascii_fast_path build folded normalize_char
    original_slice slice? is_char_boundary text_eq kind overlaps len
masked_first = refl

masked_second :
    process_tz millis ascii
      (service (utf8 "memory"))
      policy
      (utf8 "B")
      (utf8 "7")
      original
      outside
      (store_of (utf8 "A"))
    ≡ returned (TzOutcome.masked (answer none), store_of (utf8 "B"))
unfolding decrypt_mapping from_bytes process_tz stateless lookup_mapping get insert forward mask
    run_line conclude entries_of masked_form keep to_bytes encrypt_mapping session_key mask_line
    gather detect_from active_detectors ask_ner apply_filters active_filters entities_of
    canonicalize canonical_from_original expand leaks_of resolve passes sweep select sort_by
    Sorting.insert a_wins absorbs to_entity apply keeps distinct holds mask_pass masker_for
    replace_one assemble placeholder_mask replace next_number assign bump decimal has_pd_signal scan
    note_char Signal.conclude chars contains starts_with new is_ascii_fast_path build folded
    normalize_char original_slice slice? is_char_boundary text_eq kind overlaps len
masked_second = refl

pub mask_in_memory :
    mask millis ascii
      (service (utf8 "memory"))
      policy
      (utf8 "A")
      original
      (some (utf8 "7"))
      false
      outside
      []
    ≡ returned (answer none, store_of (utf8 "A"))
unfolding stateless get insert mask run_line conclude entries_of masked_form keep to_bytes
    encrypt_mapping session_key mask_line gather detect_from active_detectors ask_ner apply_filters
    active_filters entities_of canonicalize canonical_from_original expand leaks_of resolve passes
    sweep select sort_by Sorting.insert a_wins absorbs to_entity apply keeps distinct holds
    mask_pass masker_for replace_one assemble placeholder_mask replace next_number assign bump
    decimal has_pd_signal scan note_char Signal.conclude chars contains starts_with new
    is_ascii_fast_path build folded normalize_char original_slice slice? is_char_boundary text_eq
    kind overlaps len
mask_in_memory = refl

abbrev context : Text
context = (sealed (utf8 "A")).nonce ++ (sealed (utf8 "A")).ciphertext

mask_stateless :
    mask millis ascii
      (service (utf8 "stateless"))
      policy
      (utf8 "A")
      original
      (some (utf8 "7"))
      false
      outside
      []
    ≡ returned (answer (some context), [])
unfolding stateless get insert mask run_line conclude entries_of masked_form keep to_bytes
    encrypt_mapping session_key mask_line gather detect_from active_detectors ask_ner apply_filters
    active_filters entities_of canonicalize canonical_from_original expand leaks_of resolve passes
    sweep select sort_by Sorting.insert a_wins absorbs to_entity apply keeps distinct holds
    mask_pass masker_for replace_one assemble placeholder_mask replace next_number assign bump
    decimal has_pd_signal scan note_char Signal.conclude chars contains starts_with new
    is_ascii_fast_path build folded normalize_char original_slice slice? is_char_boundary text_eq
    kind overlaps len
mask_stateless = refl

changed : masked_text ≢ original
changed h = cc

process_tz-back_example :
    process_tz millis ascii
      (service (utf8 "memory"))
      policy
      (utf8 "A")
      (utf8 "7")
      masked_text
      outside
      (store_of (utf8 "A"))
    ≡ returned (TzOutcome.restored original 1, store_of (utf8 "A"))
process_tz-back_example =
    process_tz-back millis ascii (service (utf8 "memory")) cipher-IsCipher codec-IsCodec
      vault-IsVault in_memory policy (utf8 "A") (utf8 "7") original outside outside (answer none) []
      (store_of (utf8 "A")) refl refl masked_first changed

systems_differ : utf8 "A" ≢ utf8 "B"
systems_differ h = cc

process_tz-overwritten_example :
    process_tz millis ascii
      (service (utf8 "memory"))
      policy
      (utf8 "A")
      (utf8 "7")
      masked_text
      outside
      (store_of (utf8 "B"))
    ≡ forward millis ascii
        (service (utf8 "memory"))
        policy
        (utf8 "A")
        (utf8 "7")
        masked_text
        outside
        (store_of (utf8 "B"))
process_tz-overwritten_example =
    process_tz-overwritten millis ascii (service (utf8 "memory")) cipher-IsCipher cipher-IsAuthentic
      codec-IsCodec vault-IsVault in_memory policy policy (utf8 "A") (utf8 "B") (utf8 "7") original
      original outside outside outside (answer none) (answer none) [] (store_of (utf8 "A"))
      (store_of (utf8 "B")) refl refl refl refl systems_differ masked_first masked_second

demask-mask_example :
    demask millis ascii
      (service (utf8 "stateless"))
      policy
      (utf8 "A")
      (utf8 "PHONE_1")
      (utf8 "7")
      (some context)
      []
    ≡ finish millis ascii (service (utf8 "stateless")) (utf8 "7") (utf8 "PHONE_1") mapping []
demask-mask_example =
    demask-mask millis ascii (service (utf8 "stateless")) cipher-IsCipher codec-IsCodec
      vault-IsVault policy (utf8 "A") (utf8 "7") original (utf8 "PHONE_1") outside
      (answer (some context)) [] [] refl refl mask_stateless

single : (e : MappingEntry) → Consistent (e ∷ [])
single e _ _ here here h = refl
single e _ _ here (there i) h = elim i [ ]
single e _ _ (there i) _ h = elim i [ ]

unmasked : Unmasked original (entry ∷ [])
unfolding by_masked find_text starts_with
unmasked = (refl, tt)

aligned :
    Aligned original masked_text (entry ∷ []) 0 (codec.captures masked_text) (answer none).entities
unfolding slice? is_char_boundary text_eq
aligned =
    Aligned.next _ _ entry (_, refl) refl refl (omega arith) here refl refl (Aligned.done (_, refl))

spotted : Spotted masked_text 0 (codec.captures masked_text) (answer none).entities (entry ∷ [])
unfolding slice? is_char_boundary text_eq
spotted = Spotted.next _ _ entry (_, refl) refl refl (omega arith) refl (Spotted.done (_, refl))

demask-mask_original_example :
    demask millis ascii
      (service (utf8 "memory"))
      policy
      (utf8 "A")
      masked_text
      (utf8 "7")
      none
      (store_of (utf8 "A"))
    ≡ returned (
      record { text = original; restored = 1; unresolved = 0; degraded = false },
      store_of (utf8 "A"),
    )
unfolding text_eq
demask-mask_original_example =
    demask-mask_original millis ascii (service (utf8 "memory")) cipher-IsCipher codec-IsCodec
      vault-IsVault policy (utf8 "A") (utf8 "7") original outside (answer none) []
      (store_of (utf8 "A")) refl refl mask_in_memory (single entry) unmasked spotted

restored_text : restore original (answer none).entities 0 masked_text ≡ original
unfolding restore
restored_text = refl

demask-restore_example :
    alfavibe_hack.Demask.demask codec.captures masked_text mapping
    ≡ some (record { text = original; restored = 1; unresolved = 0 })
unfolding text_eq
demask-restore_example =
    demask-restore codec.captures original masked_text mapping (answer none).entities (single entry)
      unmasked aligned restored_text
