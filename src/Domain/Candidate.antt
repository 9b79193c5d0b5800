-- ===== src/Domain/Candidate.antt =====
-- `DetectorSource`, `SignalFlags` and `Candidate` of src/domain/entity.rs.
use alfavibe_hack.Prelude.{Bool, false, List, [], ◌∷◌, Text, utf8}
use alfavibe_hack.Domain.PdType.{PdType}
use alfavibe_hack.Domain.Span.{Span}

pub data DetectorSource : Type 0 where
  regex checksum ner dictionary custom : Text → DetectorSource

unfoldable pub kind : DetectorSource → Text
kind (regex _) = utf8 "regex"
kind (checksum _) = utf8 "checksum"
kind (ner _) = utf8 "ner"
kind (dictionary _) = utf8 "dictionary"
kind (custom _) = utf8 "custom"

-- The bits of the flag word, one field each.
pub record SignalFlags : Type 0 where
  pub checksum_ok : Bool
  pub context_pos : Bool
  pub context_neg : Bool
  pub dict_hit : Bool
  pub capitalized_original : Bool
  pub validated : Bool

abbrev pub no_signals : SignalFlags
no_signals = record {
  checksum_ok = false;
  context_pos = false;
  context_neg = false;
  dict_hit = false;
  capitalized_original = false;
  validated = false;
}

-- The fields of the source's struct in its order: type, span, score, source, components, signals.
mutual
  pub data Candidate (S : Type 0) : Type 0 where
    candidate : PdType → Span → S → DetectorSource → Candidates S → SignalFlags → Candidate S

  pub data Candidates (S : Type 0) : Type 0 where
    nil : Candidates S
    cons : Candidate S → Candidates S → Candidates S

module _ {S : Type 0} where
  abbrev pub pd_type : Candidate S → PdType
  pd_type (candidate t _ _ _ _ _) = t

  abbrev pub span : Candidate S → Span
  span (candidate _ s _ _ _ _) = s

  abbrev pub score : Candidate S → S
  score (candidate _ _ x _ _ _) = x

  abbrev pub signals : Candidate S → SignalFlags
  signals (candidate _ _ _ _ _ f) = f

  abbrev pub list : Candidates S → List (Candidate S)
  list nil = []
  list (cons c cs) = c ∷ list cs

  abbrev pub components : Candidate S → List (Candidate S)
  components (candidate _ _ _ _ cs _) = list cs

  -- `Candidate::new`
  abbrev pub new : PdType → Span → S → DetectorSource → Candidate S
  new t s x src = candidate t s x src nil no_signals
