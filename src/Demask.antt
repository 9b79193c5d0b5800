-- ===== src/Demask.antt =====
-- src/service/demask.rs: putting the values of a session back into a text.
pub mod Placeholders
use alfavibe_hack.Prelude.{
  ◌>>=◌, ℕ, zero, suc, ◌+◌, Bool, true, false, List, [], ◌∷◌, ◌++◌, Option, none, some, Text,
  text_Eq, utf8, length, slice?, take, drop, if◌then◌else◌, foldl,
}
use alfavibe_hack.Prelude.Maps.{get, insert}
use alfavibe_hack.Domain.PdType.{PdType}
use alfavibe_hack.Domain.Unicode.{starts_with}

pub record MappingEntry : Type 0 where
  pub key : Text
  pub pd_type : PdType
  pub original : Text
  pub masked : Option Text

pub record Mapping : Type 0 where
  pub entries : List MappingEntry
  pub original : Text
  pub masked : Text

-- `Mapping::default()`
abbrev pub no_mapping : Mapping
no_mapping = record { entries = []; original = []; masked = [] }

pub record DemaskResult : Type 0 where
  pub text : Text
  pub restored : ℕ
  pub unresolved : ℕ

-- One of `captures_iter`: its range and its two groups.
pub record Match : Type 0 where
  pub start : ℕ
  pub end : ℕ
  pub label : Text
  pub num : Text

-- `format!("{label}_{num}")`
abbrev pub key_of : Match → Text
key_of m = m.label ++ (utf8 "_" ++ m.num)

-- A later entry with the same key replaces an earlier one.
unfoldable pub by_key_from : List (Text × Text) → List MappingEntry → List (Text × Text)
by_key_from m [] = m
by_key_from m (e ∷ es) = by_key_from (insert e.key e.original m) es

unfoldable pub by_masked : List MappingEntry → List (Text × Text)
by_masked [] = []
by_masked (e ∷ es) = elim e.masked [ none ↦ by_masked es | some m ↦ (m, e.original) ∷ by_masked es ]

abbrev pub found : Text → Text → DemaskResult → DemaskResult
found gap orig rest = record {
  text = gap ++ (orig ++ rest.text);
  restored = suc rest.restored;
  unresolved = rest.unresolved;
}

abbrev pub kept : Text → DemaskResult → DemaskResult
kept copied rest = record {
  text = copied ++ rest.text;
  restored = rest.restored;
  unresolved = suc rest.unresolved;
}

-- The loop over the matches from the offset `last` on: what it appends, and its counts.
unfoldable pub replace_matches : List (Text × Text) → Text → List Match → ℕ → Option DemaskResult
replace_matches by_key text [] last = do
  rest ← slice? last (length text) text
  some (record { text = rest; restored = 0; unresolved = 0 })
replace_matches by_key text (m ∷ ms) last = elim (get (key_of m) by_key) [
  | some orig ↦ do
    gap ← slice? last m.start text
    rest ← replace_matches by_key text ms m.end
    some (found gap orig rest)
  | none ↦ do
    copied ← slice? last m.end text
    rest ← replace_matches by_key text ms m.end
    some (kept copied rest)
]

-- `str::find`: the offset of the first occurrence.
unfoldable pub find_text : Text → Text → Option ℕ
find_text pattern [] = if starts_with pattern [] then some 0 else none
find_text pattern (c ∷ cs) =
    let later = find_text pattern cs in
    if starts_with pattern (c ∷ cs)
    then some 0
    else elim later [ none ↦ none | some n ↦ some (suc n) ]

abbrev pub is_empty : Text → Bool
is_empty [] = true
is_empty (_ ∷ _) = false

-- The loop over the entries with a masked form: each is put back once, behind the one before.
unfoldable pub replace_masked : List (Text × Text) → Text → ℕ → ℕ → Option (Text × ℕ)
replace_masked [] out search_from restored = some (out, restored)
replace_masked ((masked, orig) ∷ es) out search_from restored =
    let skipped = replace_masked es out search_from restored in
    if is_empty masked then skipped else (do
      rest ← slice? search_from (length out) out
      elim (find_text masked rest) [
        | none ↦ skipped
        | some pos ↦
            let abs = search_from + pos in
            replace_masked es (take abs out ++ (orig ++ drop (abs + length masked) out))
              (abs + length orig) (suc restored)
      ])

-- `captures` stands for the expression `captures_iter` runs over the text, which is the work of the
-- `regex` crate.
module _ (captures : Text → List Match) where
  -- `demask`, and `demask_line` of src/service/pipeline.rs; `none` is a panic.
  unfoldable pub demask : Text → Mapping → Option DemaskResult
  demask text mapping = do
    r ← replace_matches (by_key_from [] mapping.entries) text (captures text) 0
    (out, restored) ← replace_masked (by_masked mapping.entries) r.text 0 r.restored
    some (record { text = out; restored = restored; unresolved = r.unresolved })
