-- ===== src/Pipeline/Line.antt =====
-- `mask_line` of src/service/pipeline.rs: detectors, models, filters, resolver, masking pass, check.
use alfavibe_hack.Prelude.{
  ◌>>=◌, ℕ, suc, Bool, true, false, not, ◌&&◌, ◌||◌, List, [], ◌∷◌, ◌++◌, Option, none, some, Text,
  text_Eq, utf8, map, any, all, filter, eqb, if◌then◌else◌, digits_of, ◌==◌,
}
use alfavibe_hack.Domain.PdType.{
  PdType, address, card_holder, card_number, fio, inn, org_inn, phone, snils,
}
use alfavibe_hack.Domain.Document
use alfavibe_hack.Domain.Document.{Document, original_slice}
use alfavibe_hack.Domain.Span.{Span}
use alfavibe_hack.Domain.Candidate
use alfavibe_hack.Domain.Candidate.{Candidate}
use alfavibe_hack.Domain.Entity
use alfavibe_hack.Domain.Entity.{Entity, MaskRecord, with_canonical}
use alfavibe_hack.Domain.Float32.{Float32}
use alfavibe_hack.Domain.MaskState.{MaskState}
use alfavibe_hack.Domain.Policy.{AddressMode, EffectivePolicy}
use alfavibe_hack.Domain.Unicode.{Unicode, join_spaces, split_whitespace}
use alfavibe_hack.Resolve.{resolve}
use alfavibe_hack.Resolve.Sorting.{sort_by}
use alfavibe_hack.Combination.{apply, holds}
use alfavibe_hack.Pipeline.Masking.{MaskedEntityInfo, Maskers, mask_pass}
use alfavibe_hack.Pipeline.Signal.{has_pd_signal}
use alfavibe_hack.Pipeline.Windows.{select_ner_windows}

-- A detector returns what it appends to the candidates.
pub record Detector (S : Type 0) : Type 0 where
  pub id : Text
  pub types : List PdType
  pub detect : Document → List ℕ → List (Candidate S)

pub record RelevanceFilter (S : Type 0) : Type 0 where
  pub id : Text
  pub keep : Document → Candidate S → List (Candidate S) → Bool

-- The comparisons of the clock with the deadline, in the order of the code: true is too late.
pub record Clock : Type 0 where
  pub at_detector : ℕ → Bool
  pub at_ner : Bool
  pub at_resolver : Bool

-- `PipelineCtx`: the model of names may fail, and a set of patterns tells whether any matches.
pub record PipelineCtx (S : Type 0) : Type 0 where
  pub detectors : List (Detector S)
  pub ner : Option (Text → List Span → Option (List (Candidate S)))
  pub filters : List (RelevanceFilter S)
  pub maskers : Maskers S
  pub prefilter_regex_set : Option (Text → Bool)

-- `MaskLineResult`, with the types that the check of the masked text counts as leaks.
pub record MaskLineResult (S : Type 0) : Type 0 where
  pub text : Text
  pub entities : List (MaskedEntityInfo S)
  pub records : List MaskRecord
  pub degraded : Bool
  pub ner_failed : Bool
  pub leaks : List PdType

-- The candidates so far, and whether something was left out.
pub record Found (S : Type 0) : Type 0 where
  pub candidates : List (Candidate S)
  pub degraded : Bool
  pub ner_failed : Bool

unfoldable pub canonical_from_original : Unicode → Text → PdType → Text
canonical_from_original u original t =
    if any (λ k. t == k) (card_number ∷ inn ∷ org_inn ∷ snils ∷ phone ∷ [])
    then digits_of original
    else if any (λ k. t == k) (fio ∷ card_holder ∷ [])
    then join_spaces (split_whitespace u (u.to_lowercase original))
    else u.to_lowercase original

abbrev is_empty : List Text → Bool
is_empty [] = true
is_empty (_ ∷ _) = false

module _ {S : Type 0} where
  abbrev pub relevant : EffectivePolicy S → Detector S → Bool
  relevant policy d = any (λ t. holds policy.types t || t == org_inn) d.types

  abbrev is_config : Detector S → Bool
  is_config d = d.id == utf8 "config_regex"

  -- The indices of the configured detectors, if any pattern of the set matches.
  unfoldable pub active_from : Bool → ℕ → List (Detector S) → List ℕ
  active_from matched i [] = []
  active_from matched i (d ∷ ds) =
      let later = active_from matched (suc i) ds in
      if is_config d && matched then i ∷ later else later

  unfoldable pub active_detectors : PipelineCtx S → Document → List ℕ
  unfolding active_from
  active_detectors ctx doc = elim ctx.prefilter_regex_set [
    | none ↦ []
    | some matches ↦ active_from (matches doc.norm) 0 ctx.detectors
  ]

  -- Stage A from the detector `i` on: candidates, and whether the deadline stopped it.
  unfoldable pub detect_from :
      EffectivePolicy S
      → Clock
      → Document
      → List ℕ
      → ℕ
      → List (Detector S)
      → List (Candidate S) × Bool
  detect_from policy clock doc active i [] = ([], false)
  detect_from policy clock doc active i (d ∷ ds) =
      let (later, degraded) = detect_from policy clock doc active (suc i) ds in
      if clock.at_detector i
      then ([], true)
      else if not (relevant policy d)
      then (later, degraded)
      else if is_config d && not (any (λ j. eqb j i) active)
      then (later, degraded)
      else (d.detect doc active ++ later, degraded)

  unfoldable pub answer : Found S → Option (List (Candidate S)) → Found S
  answer found none = record { candidates = found.candidates; degraded = true; ner_failed = true }
  answer found (some more) = record {
    candidates = found.candidates ++ more;
    degraded = found.degraded;
    ner_failed = found.ner_failed;
  }

  -- The model is asked only if there is a window.
  unfoldable pub ask :
      (Text → List Span → Option (List (Candidate S))) → Document → Found S → List Span → Found S
  ask recognize doc found [] = found
  ask recognize doc found (w ∷ ws) = answer found (recognize doc.original (w ∷ ws))

  -- Stage B: the model of names, if the profile wants it, there is one and there is time.
  unfoldable pub ask_ner :
      Unicode → PipelineCtx S → EffectivePolicy S → Clock → Document → Found S → Option (Found S)
  ask_ner u ctx policy clock doc found = elim ctx.ner [
    | none ↦ some found
    | some recognize ↦
        if policy.ner_enabled && not clock.at_ner
        then (do windows ← select_ner_windows u doc policy; some (ask recognize doc found windows))
        else some found
  ]

  -- A profile that names no filters has all of them.
  unfoldable pub active_filters : PipelineCtx S → EffectivePolicy S → List (RelevanceFilter S)
  active_filters ctx policy =
      if is_empty policy.filters
      then ctx.filters
      else filter (λ f. any (λ id. id == f.id) policy.filters) ctx.filters

  unfoldable pub apply_filters :
      PipelineCtx S → EffectivePolicy S → Document → List (Candidate S) → List (Candidate S)
  apply_filters ctx policy doc cands =
      filter (λ c. all (λ f. f.keep doc c cands) (active_filters ctx policy)) cands

  abbrev has_components : Entity S → Bool
  has_components e = elim (Entity.components e) [ [] ↦ false | _ ∷ _ ↦ true ]

  -- An address with components gives way to them.
  unfoldable pub expand_components : List (Entity S) → List (Entity S)
  expand_components [] = []
  expand_components (e ∷ es) =
      if (Entity.pd_type e == address) && has_components e
      then Entity.components e ++ expand_components es
      else e ∷ expand_components es

  unfoldable pub expand : EffectivePolicy S → List (Entity S) → List (Entity S)
  expand policy es = elim policy.address_mode [
    | AddressMode.components ↦ expand_components es
    | AddressMode.whole ↦ es
  ]

  -- The canonical forms, from the text that each entity covers.
  unfoldable pub canonicalize : Unicode → Document → List (Entity S) → Option (List (Entity S))
  canonicalize u doc [] = some []
  canonicalize u doc (e ∷ es) = do
    orig ← original_slice doc (Entity.span e)
    rest ← canonicalize u doc es
    some (with_canonical (canonical_from_original u orig (Entity.pd_type e)) e ∷ rest)

  -- `self_check`: the types of what the detectors still find.
  unfoldable pub leaks_of : EffectivePolicy S → Document → List (Detector S) → List PdType
  leaks_of policy doc [] = []
  leaks_of policy doc (d ∷ ds) =
      let later = leaks_of policy doc ds in
      if relevant policy d then map Candidate.pd_type (d.detect doc []) ++ later else later

module _ (F : Float32) (u : Unicode) where
  open F use {Carrier}

  -- Both stages: what is found before the filters.
  unfoldable pub gather :
      PipelineCtx Carrier → EffectivePolicy Carrier → Clock → Document → Option (Found Carrier)
  gather ctx policy clock doc =
      let (cands, late) = detect_from policy clock doc (active_detectors ctx doc) 0 ctx.detectors in
      ask_ner u ctx policy clock doc
        (record { candidates = cands; degraded = late; ner_failed = false })

  -- The entities that go into the masking pass, in its order.
  unfoldable pub entities_of :
      PipelineCtx Carrier
      → EffectivePolicy Carrier
      → Document
      → List (Candidate Carrier)
      → Option (List (Entity Carrier))
  entities_of ctx policy doc cands = do
    es ← canonicalize u doc (
        filter (λ e. holds policy.types (Entity.pd_type e))
          (expand policy (apply policy (resolve F policy (apply_filters ctx policy doc cands)))))
    some (sort_by (λ e. (Entity.span e).start) es)

  -- The result, and the numbers after it; `none` is a panic.
  unfoldable pub mask_line :
      PipelineCtx Carrier
      → EffectivePolicy Carrier
      → Clock
      → Text
      → MaskState
      → Option (MaskLineResult Carrier × MaskState)
  mask_line ctx policy clock original state =
      if not (has_pd_signal u original)
      then some (
        record {
          text = original;
          entities = [];
          records = [];
          degraded = false;
          ner_failed = false;
          leaks = [];
        },
        state,
      )
      else do
        found ← gather ctx policy clock (Document.new u.fold original)
        es ← entities_of ctx policy (Document.new u.fold original) found.candidates
        masked ← mask_pass ctx.maskers policy original es 0 0 state
        some (
          record {
            text = masked.text;
            entities = masked.infos;
            records = masked.records;
            degraded = found.degraded || clock.at_resolver;
            ner_failed = found.ner_failed;
            leaks = leaks_of policy (Document.new u.fold masked.text) ctx.detectors;
          },
          masked.state,
        )
