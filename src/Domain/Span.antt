-- ===== src/Domain/Span.antt =====
-- `Span` of src/domain/document.rs: a range [start, end) of byte offsets.
use alfavibe_hack.Prelude.{ℕ, ◌-◌, ◌<◌, Bool, ◌&&◌, leb, ltb}

pub record Span : Type 0 where
  pub start : ℕ
  pub end : ℕ

-- `saturating_sub`
unfoldable pub len : Span → ℕ
len s = s.end - s.start

unfoldable pub is_empty : Span → Bool
is_empty s = leb s.end s.start

unfoldable pub contains : Span → Span → Bool
contains s t = leb s.start t.start && leb t.end s.end

unfoldable pub overlaps : Span → Span → Bool
overlaps s t = ltb s.start t.end && ltb t.start s.end

-- A span that holds at least one byte.
abbrev pub IsFull : Span → Type 0
IsFull s = s.start < s.end
