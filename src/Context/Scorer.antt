-- ===== src/Context/Scorer.antt =====
-- `KeywordContextScorer` of src/service/detect/context.rs, and what words around a candidate do to
-- its score there and in the detectors.
use alfavibe_hack.Prelude.{
  ◌>>=◌, ℕ, ◌+◌, ◌-◌, min, Bool, ◌||◌, List, Option, some, Text, length, any, slice?, if◌then◌else◌,
}
use alfavibe_hack.Domain.Candidate.{Candidate, candidate, SignalFlags}
use alfavibe_hack.Domain.Document.{Document}
use alfavibe_hack.Domain.Float32.{Float32}
use alfavibe_hack.Domain.Unicode.{contains}

pub record KeywordContextScorer : Type 0 where
  pub id : Text
  pub pos_words : List Text
  pub neg_words : List Text
  pub left : ℕ
  pub right : ℕ

-- `|= CONTEXT_POS` and `|= CONTEXT_NEG`, each under its condition.
abbrev flagged : Bool → Bool → SignalFlags → SignalFlags
flagged pos neg f = record {
  checksum_ok = f.checksum_ok;
  context_pos = f.context_pos || pos;
  context_neg = f.context_neg || neg;
  dict_hit = f.dict_hit;
  capitalized_original = f.capitalized_original;
  validated = f.validated;
}

module _ (F : Float32) where
  unfoldable pub raised : Bool → F.Carrier → F.Carrier
  raised pos score =
      if pos then F.min_of (F.add score (F.of_millis 350)) (F.of_millis 1000) else score

  unfoldable pub lowered : Bool → F.Carrier → F.Carrier
  lowered neg score =
      if neg then F.max_of (F.sub score (F.of_millis 500)) (F.of_millis 0) else score

  -- `none` is the panic of the slice, whose offsets are not moved to the border of a character.
  unfoldable pub keyword_score :
      KeywordContextScorer → Document → Candidate F.Carrier → Option (Candidate F.Carrier)
  unfolding raised lowered
  keyword_score k doc (candidate t s score src comps f) = do
    around ← slice? (s.start - k.left) (min (s.end + k.right) (length doc.norm)) doc.norm
    let pos = any (λ w. contains w around) k.pos_words in
        let neg = any (λ w. contains w around) k.neg_words in
        some (candidate t s (lowered neg (raised pos score)) src comps (flagged pos neg f))
