-- ===== src/Detect.antt =====
-- src/service/detect: the detectors, each a function from a document to its candidates. The regular
-- expressions are compiled and run by the `regex` crate; what a search finds is a parameter.
pub mod Matches
pub mod Card
pub mod Inn
pub mod Snils
pub mod Phone
pub mod Email
pub mod Passport
pub mod Numwords
pub mod Dates
pub mod Structured
pub mod Documents
pub mod Citizenship
pub mod Custom
pub mod Fio
pub mod Address
use alfavibe_hack.Prelude.{
  ◌>>=◌, ℕ, ◌+◌, ◌-◌, List, [], ◌∷◌, ◌++◌, Option, none, some, Text, slice?, true, false,
  if◌then◌else◌,
}
use alfavibe_hack.Domain.Candidate.{Candidate, candidate, DetectorSource, SignalFlags, nil}
use alfavibe_hack.Domain.Document.{Document, to_original}
use alfavibe_hack.Domain.PdType.{PdType}
use alfavibe_hack.Domain.Span.{Span}
use alfavibe_hack.Context.{is_boundary, window}

-- A match: a range of the text that was searched.
pub record Found : Type 0 where
  pub start : ℕ
  pub end : ℕ

-- A match with the ranges of its groups, by number and by name.
pub record Captures : Type 0 where
  pub whole : Found
  pub group : ℕ → Option Found
  pub name : Text → Option Found

-- `Regex::find_iter` and `Regex::captures_iter`
abbrev pub FindIter : Type 0
FindIter = Text → List Found

abbrev pub CapturesIter : Type 0
CapturesIter = Text → List Captures

-- The loop over the matches: the body pushes candidates, `some []` is a `continue`, `none` a panic.
unfoldable pub collect {ℓ κ} :
    {A : Type ℓ} {C : Type κ} → (A → Option (List C)) → List A → Option (List C)
collect body [] = some []
collect body (a ∷ xs) = do pushed ← body a; rest ← collect body xs; some (pushed ++ rest)

-- `&doc.norm[m.start()..m.end()]`
abbrev pub matched : Document → Found → Option Text
matched doc m = slice? m.start m.end doc.norm

-- `window(doc, m.start().saturating_sub(60), m.end() + 20)`
abbrev pub around : Document → Found → Option Text
around doc m = window doc.norm (m.start - 60) (m.end + 20)

-- `doc.to_original(m.start(), m.end())`
abbrev pub origin : Document → Found → Option Span
origin doc m = to_original doc m.start m.end

-- The guard that most loops begin with: a match that is a part of a longer word is passed over.
unfoldable pub guarded : {C : Type 0} → Document → Found → Option (List C) → Option (List C)
guarded doc m rest = do
  bounded ← is_boundary doc.norm m.start m.end
  if bounded then rest else some []

-- `.map(|c| c.as_str()).unwrap_or("")` of a group.
unfoldable pub group_text : Document → Option Found → Option Text
group_text doc none = some []
group_text doc (some c) = matched doc c

-- A pushed candidate without components.
abbrev pub emit :
    {S : Type 0} → PdType → Span → S → DetectorSource → SignalFlags → Option (List (Candidate S))
emit t s x src flags = some (candidate t s x src nil flags ∷ [])

-- The range of a group reckoned from the start of its match, as the source does. A group lies in its
-- match, so the subtractions do not fall below 0; a group that took no part gives the empty range.
unfoldable pub in_match : Found → Option Found → Found
in_match m none = record { start = m.start; end = m.start }
in_match m (some c) = record {
  start = m.start + (c.start - m.start);
  end = m.start + (c.end - m.start);
}

-- `|= CHECKSUM_OK` and `|= VALIDATED`, `|= CONTEXT_POS`, on a new candidate.
abbrev pub checked : SignalFlags
checked = record {
  checksum_ok = true;
  context_pos = false;
  context_neg = false;
  dict_hit = false;
  capitalized_original = false;
  validated = true;
}

abbrev pub in_context : SignalFlags
in_context = record {
  checksum_ok = false;
  context_pos = true;
  context_neg = false;
  dict_hit = false;
  capitalized_original = false;
  validated = false;
}
