-- ===== src/Tests/Lines.antt =====
-- The pipeline and its parts on a text with a telephone number.
use alfavibe_hack.Prelude.{
  Runs, ℕ, ◌≡◌, ◌↔◌, ◌≤◌, refl, true, false, List, [], ◌∷◌, some, Text, utf8, is_char_boundary,
  slice, slice?, chars, digits_of, text_eq, decimal, In, All, arith, length, map,
}
use alfavibe_hack.Prelude.Maps.{get, insert}
use alfavibe_hack.Domain.Policy.{EffectivePolicy}
use alfavibe_hack.Combination.{apply, distinct, holds, keeps}
use alfavibe_hack.Domain.Candidate
use alfavibe_hack.Domain.Candidate.{Candidate, kind}
use alfavibe_hack.Domain.Document.{
  build, folded, is_ascii_fast_path, new, normalize_char, original_slice, to_original,
}
use alfavibe_hack.Domain.Document.Offsets.{to_original_total}
use alfavibe_hack.Domain.Entity
use alfavibe_hack.Domain.Entity.{Entity, Entities, entity}
use alfavibe_hack.Domain.Candidate.{DetectorSource}
use alfavibe_hack.Domain.Float32.{millis}
use alfavibe_hack.Domain.MaskState
use alfavibe_hack.Domain.MaskState.{MaskState, assign, bump, next_number, run}
use alfavibe_hack.Domain.MaskState.Numbering.{number-eq_iff}
use alfavibe_hack.Domain.PdType.{fio, phone}
use alfavibe_hack.Domain.Span.{Span, len, overlaps}
use alfavibe_hack.Domain.Unicode.{ascii, contains, starts_with}
use alfavibe_hack.Mask.{placeholder_mask}
use alfavibe_hack.Mask.Replace.{replace}
use alfavibe_hack.Pipeline.Guarantees.{mask_line-types, restore-mask_line}
use alfavibe_hack.Pipeline.Line.{
  MaskLineResult, active_detectors, active_filters, apply_filters, ask_ner, canonical_from_original,
  canonicalize, detect_from, entities_of, expand, gather, leaks_of, mask_line,
}
use alfavibe_hack.Pipeline.Masking.{
  MaskedEntityInfo, Masked, assemble, mask_pass, masker_for, replace_one,
}
use alfavibe_hack.Pipeline.Returns.{OnBorders, mask_pass-Runs}
use alfavibe_hack.Pipeline.Restore.{mask_pass-range, range, restore}
use alfavibe_hack.Pipeline.Signal
use alfavibe_hack.Pipeline.Signal.{has_pd_signal, has_pd_signal-any, note_char, scan, signs_of}
use alfavibe_hack.Resolve.{a_wins, absorbs, passes, resolve, select, sweep, to_entity}
use alfavibe_hack.Resolve.Selection.{Apart, resolve_complete, resolve_sound, resolve_chain}
use alfavibe_hack.Resolve.Separation.{Separate, resolve-Separate}
use alfavibe_hack.Resolve.Sorting
use alfavibe_hack.Resolve.Sorting.{found, later, sort_by}
use alfavibe_hack.Tests.Samples.{ctx, found_at, in_time, masked_text, original, policy}

abbrev state_after : MaskState
state_after = record { counters = (phone, 1) ∷ []; assigned = ((phone, utf8 "89"), 1) ∷ [] }

abbrev infos : List (MaskedEntityInfo ℕ)
infos =
    record {
      pd_type = phone;
      start = 2;
      end = 4;
      masked_start = 2;
      masked_end = 11;
      replacement = utf8 "[PHONE_1]";
      score = 900;
      source = utf8 "regex";
    }
    ∷ []

abbrev line : MaskLineResult ℕ
line = record {
  text = masked_text;
  entities = infos;
  records =
      record {
        masked_span = record { start = 2; end = 11 };
        original_span = record { start = 2; end = 4 };
        pd_type = phone;
        key = some (utf8 "PHONE_1");
      }
      ∷ [];
  degraded = false;
  ner_failed = false;
  leaks = phone ∷ [];
}

mask_line_run :
    mask_line millis ascii ctx policy in_time original MaskState.empty ≡ some (line, state_after)
unfolding get insert mask_line gather detect_from active_detectors ask_ner apply_filters
    active_filters entities_of canonicalize canonical_from_original expand leaks_of resolve passes
    sweep select sort_by Sorting.insert a_wins absorbs to_entity apply keeps distinct holds
    mask_pass masker_for replace_one assemble placeholder_mask replace next_number assign bump
    decimal has_pd_signal scan note_char Signal.conclude chars contains starts_with new
    is_ascii_fast_path build folded normalize_char original_slice slice? is_char_boundary text_eq
    kind overlaps len digits_of
mask_line_run = refl

restore-mask_line_example : restore original infos 0 masked_text ≡ original
restore-mask_line_example =
    restore-mask_line millis ascii ctx policy in_time original MaskState.empty state_after line
      mask_line_run

mask_line-types_example : All (λ i. holds policy.types i.pd_type ≡ true) infos
mask_line-types_example =
    mask_line-types millis ascii ctx policy in_time original MaskState.empty state_after line
      mask_line_run

abbrev one : List (Entity ℕ)
one =
    entity phone (record { start = 2; end = 4 }) 900 (DetectorSource.regex []) Entities.nil
      (utf8 "89")
    ∷ []

abbrev passed : Masked ℕ
passed = record { text = masked_text; records = line.records; infos = infos; state = state_after }

mask_pass_run : mask_pass ctx.maskers policy original one 0 0 MaskState.empty ≡ some passed
unfolding get insert mask_pass masker_for replace_one assemble placeholder_mask replace next_number
    assign bump decimal starts_with slice? is_char_boundary text_eq kind
mask_pass_run = refl

mask_pass-range_example :
    map (range ctx.maskers policy original) infos ≡ record { start = 2; end = 4 } ∷ []
mask_pass-range_example =
    mask_pass-range ctx.maskers policy original one MaskState.empty passed (tt, tt) mask_pass_run

-- Each overlaps the next one only.
abbrev first : Candidate ℕ
first = found_at phone 0 4 700

abbrev second : Candidate ℕ
second = found_at fio 3 8 800

abbrev third : Candidate ℕ
third = found_at phone 7 10 900

resolve-Separate_example :
    Separate (map Entity.span (resolve millis policy (third ∷ second ∷ first ∷ [])))
resolve-Separate_example =
    resolve-Separate millis policy (third ∷ second ∷ first ∷ [])
      (omega arith, (omega arith, (omega arith, tt)))

resolve_sound_example :
    All
      (λ e.
        (c : Candidate ℕ) × In c (third ∷ second ∷ [])
        × (passes millis policy c ≡ true)
        × (e ≡ to_entity c))
      (resolve millis policy (third ∷ second ∷ []))
resolve_sound_example = resolve_sound millis policy (third ∷ second ∷ [])

passes-first : passes millis policy first ≡ true
unfolding passes get
passes-first = refl

passes-second : passes millis policy second ≡ true
unfolding passes get
passes-second = refl

passes-third : passes millis policy third ≡ true
unfolding passes get
passes-third = refl

apart : Apart first third
unfolding overlaps
apart = (refl, refl)

resolve_complete_example : In (to_entity first) (resolve millis policy (third ∷ first ∷ []))
resolve_complete_example =
    resolve_complete millis policy first (third ∷ first ∷ []) passes-first
      (later (λ p. apart) (found tt))

wins : (a_wins millis policy second first ≡ true) × (a_wins millis policy third second ≡ true)
unfolding a_wins get
wins = (refl, refl)

no_address :
    (absorbs millis policy first second ≡ false) × (absorbs millis policy second third ≡ false)
unfolding absorbs text_eq
no_address = (refl, refl)

touching :
    (overlaps (Candidate.span first) (Candidate.span second) ≡ true)
    × (overlaps (Candidate.span second) (Candidate.span third) ≡ true)
unfolding overlaps
touching = (refl, refl)

resolve_chain_example : resolve millis policy (first ∷ second ∷ third ∷ []) ≡ to_entity third ∷ []
resolve_chain_example =
    resolve_chain millis policy first second third passes-first passes-second passes-third
      (omega arith) (omega arith) touching.0 touching.1 no_address.0 no_address.1 wins.0 wins.1
      apart

abbrev asked : List (Text × Text)
asked = (phone, utf8 "89") ∷ []

number-eq_iff_example :
    ((next_number fio (utf8 "a") (run asked MaskState.empty)).1
      ≡ (next_number fio
          (utf8 "b")
          (run asked (next_number fio (utf8 "a") (run asked MaskState.empty)).0)).1)
    ↔ (utf8 "a" ≡ utf8 "b")
number-eq_iff_example = number-eq_iff asked asked fio (utf8 "a") (utf8 "b") (omega arith)

norm_length : length (new ascii.fold (utf8 "Ab")).norm ≡ 2
unfolding new build is_ascii_fast_path folded normalize_char chars text_eq
norm_length = refl

to_original_total_example :
    (s : Span) × (to_original (new ascii.fold (utf8 "Ab")) 0 1 ≡ some s)
    × (s.start ≤ s.end)
    × (s.end ≤ length (utf8 "Ab"))
    × (original_slice (new ascii.fold (utf8 "Ab")) s ≡ some (slice s.start s.end (utf8 "Ab")))
to_original_total_example =
    to_original_total ascii.fold (utf8 "Ab") 0 1 (omega arith) (omega arith)
      (omega (arith, norm_length))

-- At least two types are wanted.
abbrev two_types : EffectivePolicy ℕ
two_types = record policy {
  combination = record { rules = []; min_distinct_types = 2; always_mask = fio ∷ [] };
}

of_phone : All (λ t. holds (phone ∷ []) t ≡ true) (map Entity.pd_type one)
unfolding holds text_eq
of_phone = (refl, tt)

total :
    (e : Entity ℕ) (t : Text) (state : MaskState)
    → Runs (masker_for ctx.maskers policy original e e t state)
unfolding masker_for placeholder_mask
total e t state = (_, refl)

on_borders : All (OnBorders original) (map Entity.span one)
unfolding is_char_boundary
on_borders = ((omega arith, omega arith, refl, refl), tt)

mask_pass-Runs_example : Runs (mask_pass ctx.maskers policy original one 0 0 MaskState.empty)
mask_pass-Runs_example =
    mask_pass-Runs ctx.maskers policy original total one MaskState.empty on_borders
