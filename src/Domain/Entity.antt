-- ===== src/Domain/Entity.antt =====
-- `Entity` and `MaskRecord` of src/domain/entity.rs, and the output of a masker.
use alfavibe_hack.Prelude.{List, [], ◌∷◌, Text, Option}
use alfavibe_hack.Domain.PdType.{PdType}
use alfavibe_hack.Domain.Span.{Span}
use alfavibe_hack.Domain.Candidate.{DetectorSource}

-- Type, span, score, source, components, canonical form.
mutual
  pub data Entity (S : Type 0) : Type 0 where
    entity : PdType → Span → S → DetectorSource → Entities S → Text → Entity S

  pub data Entities (S : Type 0) : Type 0 where
    nil : Entities S
    cons : Entity S → Entities S → Entities S

module _ {S : Type 0} where
  abbrev pub pd_type : Entity S → PdType
  pd_type (entity t _ _ _ _ _) = t

  abbrev pub span : Entity S → Span
  span (entity _ s _ _ _ _) = s

  abbrev pub score : Entity S → S
  score (entity _ _ x _ _ _) = x

  abbrev pub source : Entity S → DetectorSource
  source (entity _ _ _ d _ _) = d

  abbrev pub list : Entities S → List (Entity S)
  list nil = []
  list (cons e es) = e ∷ list es

  abbrev pub components : Entity S → List (Entity S)
  components (entity _ _ _ _ es _) = list es

  abbrev pub canonical : Entity S → Text
  canonical (entity _ _ _ _ _ c) = c

  abbrev pub with_canonical : Text → Entity S → Entity S
  with_canonical c (entity t s x d es _) = entity t s x d es c

pub record MaskRecord : Type 0 where
  pub masked_span : Span
  pub original_span : Span
  pub pd_type : PdType
  pub key : Option Text
