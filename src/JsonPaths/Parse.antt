-- ===== src/JsonPaths/Parse.antt =====
-- `parse_path` of src/service/json_paths.rs.
pub mod Printed
use alfavibe_hack.Prelude.{
  ℕ, Bool, true, false, ◌||◌, List, [], ◌∷◌, ◌++◌, Option, none, some, Text, text_Eq, eqb,
  if◌then◌else◌, is_ascii_digit, parse_usize, ◌>>=◌,
}
use alfavibe_hack.Domain.Unicode.{Unicode, trim}
use alfavibe_hack.JsonPaths.{PathSegment, Path_}

-- Where the loops of the parser stand: between segments, in a key after a dot, after `[`, in a quoted
-- key, where a `]` may follow, in a number.
pub data Mode : Type 0 where
  between : Mode
  dotted : Text → Mode
  bracket : Mode
  quoted : Text → Mode
  closing : Mode
  digits : Text → Mode

-- A byte that begins something, or is passed over.
unfoldable pub enter : ℕ → Mode
enter c = if eqb c b'.' then Mode.dotted [] else if eqb c b'[' then Mode.bracket else Mode.between

-- A key that is empty is no segment.
abbrev pub key_segment : Text → List PathSegment
key_segment [] = []
key_segment (c ∷ cs) = PathSegment.key (c ∷ cs) ∷ []

-- A `]` is passed over after a segment in brackets.
unfoldable pub close : ℕ → Mode
unfolding enter
close c = if eqb c b']' then Mode.between else enter c

-- The segments that end before a byte, and where the parser stands after it. A number that is too
-- large ends the parser.
unfoldable pub step : Mode → ℕ → Option (List PathSegment × Mode)
unfolding enter close
step Mode.between c = some ([], enter c)
step (Mode.dotted k) c =
    if eqb c b'.' || eqb c b'['
    then some (key_segment k, enter c)
    else some ([], Mode.dotted (k ++ c ∷ []))
step Mode.bracket c =
    if eqb c b'"'
    then some ([], Mode.quoted [])
    else if eqb c b'*'
    then some (PathSegment.all_ ∷ [], Mode.closing)
    else if is_ascii_digit c
    then some ([], Mode.digits (c ∷ []))
    else some ([], close c)
step (Mode.quoted k) c =
    if eqb c b'"'
    then some (PathSegment.key k ∷ [], Mode.closing)
    else some ([], Mode.quoted (k ++ c ∷ []))
step Mode.closing c = some ([], close c)
step (Mode.digits d) c =
    if is_ascii_digit c
    then some ([], Mode.digits (d ++ c ∷ []))
    else (do n ← parse_usize d; some (PathSegment.index n ∷ [], close c))

-- What the end of the text adds.
unfoldable pub at_end : Mode → Option (List PathSegment)
at_end (Mode.dotted k) = some (key_segment k)
at_end (Mode.quoted k) = none
at_end (Mode.digits d) = do n ← parse_usize d; some (PathSegment.index n ∷ [])
at_end _ = some []

unfoldable pub parse_from : Mode → Text → Option Path_
parse_from m [] = at_end m
parse_from m (c ∷ cs) = do
  (segments, m') ← step m c
  rest ← parse_from m' cs
  some (segments ++ rest)

unfoldable pub parse_trimmed : Text → Option Path_
parse_trimmed [] = none
parse_trimmed (c ∷ cs) = if eqb c b'$' then parse_from Mode.between cs else none

unfoldable pub parse_path : Unicode → Text → Option Path_
parse_path u s = parse_trimmed (trim u s)
