-- ===== src/Domain/MaskState.antt =====
-- `MaskState` of src/domain/entity.rs: the numbers of the placeholders of a session.
pub mod Numbering
use alfavibe_hack.Prelude.{ℕ, ◌+◌, ◌%◌, ◌^◌, List, [], ◌∷◌, Text, text_Eq, pair_Eq, none, some}
use alfavibe_hack.Prelude.Maps.{get, get_or, insert}
use alfavibe_hack.Domain.PdType.{PdType}

pub record MaskState : Type 0 where
  pub counters : List (PdType × ℕ)
  pub assigned : List ((PdType × Text) × ℕ)

-- `MaskState::default()`
abbrev pub empty : MaskState
empty = record { counters = []; assigned = [] }

-- The counter is a u32, and wraps in a release build.
unfoldable pub bump : PdType → MaskState → ℕ
bump t s = (get_or t 0 s.counters + 1) % 2 ^ 32

unfoldable pub assign : PdType → Text → ℕ → MaskState → MaskState
assign t canonical n s = record {
  counters = insert t n s.counters;
  assigned = insert (t, canonical) n s.assigned;
}

unfoldable pub next_number : PdType → Text → MaskState → MaskState × ℕ
unfolding bump assign
next_number t canonical s = elim (get (t, canonical) s.assigned) [
  | some n ↦ (s, n)
  | none ↦ let n = bump t s in (assign t canonical n s, n)
]

-- The state after a sequence of requests.
unfoldable pub run : List (PdType × Text) → MaskState → MaskState
run [] s = s
run ((t, canonical) ∷ reqs) s = run reqs (next_number t canonical s).0
