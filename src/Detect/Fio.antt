-- ===== src/Detect/Fio.antt =====
-- src/service/detect/fio.rs: the detector of names of persons.
mod Tokens
unfoldable pub use Tokens.*
use alfavibe_hack.Prelude.{
  ◌>>=◌, ℕ, suc, zero, ◌-◌, Bool, true, false, not, ◌&&◌, ◌||◌, List, [], ◌∷◌, ◌++◌, Option, none,
  some, Text, text_Eq, utf8, chars, length, leb, ltb, eqb, any, all, drop, slice?, if◌then◌else◌,
  ◌==◌,
}
use alfavibe_hack.Domain.Candidate.{Candidate, SignalFlags, dictionary}
use alfavibe_hack.Domain.Document.{Document, original_slice}
use alfavibe_hack.Domain.Float32.{Float32}
use alfavibe_hack.Domain.PdType.{fio}
use alfavibe_hack.Domain.Unicode.{Unicode}
use alfavibe_hack.Context.{has_any_word}
use alfavibe_hack.Detect.{Found, collect, matched, around, origin, emit}

abbrev context_words : List Text
context_words =
    utf8 "клиент"
    ∷ utf8 "гражданин"
    ∷ utf8 "господин"
    ∷ utf8 "г-н"
    ∷ utf8 "г-жа"
    ∷ utf8 "фамилия"
    ∷ utf8 "фио"
    ∷ utf8 "заемщик"
    ∷ utf8 "получатель"
    ∷ utf8 "отправитель"
    ∷ []

module _ (u : Unicode) (F : Float32) (first_names : List Text) where
  -- Between the two tokens stand blanks and commas only.
  unfoldable pub are_adjacent : Document → Token → Token → Option Bool
  are_adjacent doc a b = if ltb b.place.start a.place.end then some false else do
    gap ← slice? a.place.end b.place.start doc.norm
    some (all (λ c. eqb c b' ' || eqb c b',') gap)

  -- `flags && are_adjacent(..)`: the second test is made only after the first.
  abbrev when_adjacent : Bool → Document → Token → Token → Option Bool
  when_adjacent false doc a b = some false
  when_adjacent true doc a b = are_adjacent doc a b

  abbrev when_row : Bool → Document → Token → Token → Token → Option Bool
  when_row fits doc a b c = do first ← when_adjacent fits doc a b; when_adjacent first doc b c

  abbrev Pushed : Type 0
  Pushed = Option (List (Candidate F.Carrier))

  abbrev dict_hit : SignalFlags
  dict_hit = record {
    checksum_ok = false;
    context_pos = false;
    context_neg = false;
    dict_hit = true;
    capitalized_original = false;
    validated = false;
  }

  unfoldable pub push_fio : Document → ℕ → ℕ → F.Carrier → Pushed
  push_fio doc start end score = do
    span ← origin doc (record { start = start; end = end })
    emit fio span score (dictionary (utf8 "fio")) dict_hit

  -- Surname, name and patronymic, in this order or with the surname last.
  unfoldable pub is_full_name : Document → Token → Token → Token → Option Bool
  unfolding are_adjacent
  is_full_name doc a b c = do
    surname_first ← when_row (a.flags.surname_shape && b.flags.name && c.flags.patronymic) doc a b c
    if surname_first
        then some true
        else when_row (a.flags.name && b.flags.patronymic && c.flags.surname_shape) doc a b c

  abbrev name_score : Token → Token → F.Carrier
  name_score a b =
      if a.flags.capitalized && b.flags.capitalized
      then F.add (F.of_millis 800) (F.of_millis 100)
      else F.of_millis 800

  -- The score of two tokens that make a name; `some none` when they make none.
  unfoldable pub pair_score : Document → Token → Token → Option (Option F.Carrier)
  unfolding are_adjacent
  pair_score doc a b = do
    patronymic ← when_adjacent (a.flags.name && b.flags.patronymic) doc a b
    if patronymic then some (some (F.of_millis 950)) else do
      initials ←
          when_adjacent
            (a.flags.surname_shape && b.flags.initials || a.flags.initials && b.flags.surname_shape)
            doc a b
      if initials then some (some (F.of_millis 900)) else do
        surname ←
            when_adjacent
              (a.flags.name && b.flags.surname_shape || a.flags.surname_shape && b.flags.name) doc a
              b
        some (if surname then some (name_score a b) else none)

  -- A surname alone, which needs a word of its context.
  unfoldable pub fio_single : Document → Token → Pushed
  unfolding push_fio
  fio_single doc t =
      if t.flags.surname_shape
      then (do
        w ← around doc t.place
        if has_any_word u w context_words
            then push_fio doc t.place.start t.place.end (F.of_millis 750)
            else some [])
      else some []

  -- One turn of the loop: what it pushes, and how many tokens more than one it takes.
  abbrev Turn : Type 0
  Turn = Option (List (Candidate F.Carrier) × ℕ)

  unfoldable pub fio_scored : Document → Token → Token → Option F.Carrier → Turn
  unfolding fio_single push_fio
  fio_scored doc a b none = do pushed ← fio_single doc a; some (pushed, 0)
  fio_scored doc a b (some score) = do
    pushed ← push_fio doc a.place.start b.place.end score
    some (pushed, 1)

  unfoldable pub fio_pair : Document → Token → Token → Turn
  unfolding fio_scored pair_score
  fio_pair doc a b = do score ← pair_score doc a b; fio_scored doc a b score

  unfoldable pub fio_turn : Document → Token → List Token → Turn
  unfolding fio_single push_fio fio_pair is_full_name
  fio_turn doc a [] = do pushed ← fio_single doc a; some (pushed, 0)
  fio_turn doc a (b ∷ []) = fio_pair doc a b
  fio_turn doc a (b ∷ c ∷ _) = do
    full ← is_full_name doc a b c
    if full
        then (do
          pushed ← push_fio doc a.place.start c.place.end (F.of_millis 950)
          some (pushed, 2))
        else fio_pair doc a b

  -- The loop, with the tokens that the last turn has taken.
  unfoldable pub fio_from : Document → ℕ → List Token → Pushed
  unfolding fio_turn
  fio_from doc skip [] = some []
  fio_from doc (suc skip) (t ∷ ts) = fio_from doc skip ts
  fio_from doc zero (t ∷ ts) = do
    (pushed, taken) ← fio_turn doc t ts
    rest ← fio_from doc taken ts
    some (pushed ++ rest)

  unfoldable pub fio_detect : Document → Pushed
  unfolding tokenize fio_from
  fio_detect doc = do tokens ← tokenize u first_names doc; fio_from doc 0 tokens
