-- ===== src/Detect/Address.antt =====
-- src/service/detect/address.rs: the detector of addresses, which it puts together from parts.
pub mod Chained
use alfavibe_hack.Prelude.{
  ◌>>=◌, ℕ, suc, zero, ◌+◌, ◌-◌, min, Bool, true, false, ◌&&◌, ◌||◌, List, [], ◌∷◌, ◌++◌, Option,
  none, some, reverse, Text, text_Eq, utf8, chars, length, get_elem?, leb, ltb, eqb, any, all,
  slice?, if◌then◌else◌, ◌==◌,
}
use alfavibe_hack.Domain.Candidate.{
  Candidate, candidate, Candidates, nil, cons, regex, no_signals, span, pd_type,
}
use alfavibe_hack.Domain.Document.{Document, align_from}
use alfavibe_hack.Domain.Float32.{Float32}
use alfavibe_hack.Domain.PdType.{
  PdType, address, addr_index, addr_region, addr_city, addr_street, addr_house, addr_flat,
}
use alfavibe_hack.Domain.Unicode.{Unicode, starts_with}
use alfavibe_hack.Context.{align_back, has_any_word, has_word}
use alfavibe_hack.Detect.{
  FindIter, CapturesIter, Found, Captures, collect, guarded, around, origin, emit, in_context,
}
use alfavibe_hack.Resolve.Sorting.{sort_by}

-- `str::find` of a text, and of the first comma or semicolon.
unfoldable pub find_str : Text → Text → Option ℕ
find_str word [] = if starts_with word [] then some 0 else none
find_str word (b ∷ bs) =
    let later = find_str word bs in
    if starts_with word (b ∷ bs) then some 0 else (later >>= λ i. some (suc i))

unfoldable pub find_stop : Text → Option ℕ
find_stop [] = none
find_stop (b ∷ bs) =
    let later = find_stop bs in
    if eqb b b',' || eqb b b';' then some 0 else (later >>= λ i. some (suc i))

-- The first result there is.
abbrev or_else : Option ℕ → Option ℕ → Option ℕ
or_else none o = o
or_else (some i) o = some i

-- How far behind the match the name of a street goes on: to a comma or the mark of a house.
unfoldable pub street_rest : Text → ℕ
unfolding find_str find_stop
street_rest rest =
    let_or_zero (
      or_else (find_stop rest) (or_else (find_str (utf8 " д.") rest) (find_str (utf8 " дом") rest)))
  where
    let_or_zero : Option ℕ → ℕ
    let_or_zero none = 0
    let_or_zero (some i) = i

-- The blanks at the end are taken off, down to `start`; `none` is the panic of an index.
unfoldable pub trim_blanks : Text → ℕ → ℕ → Option ℕ
trim_blanks norm start zero = some zero
trim_blanks norm start (suc e) =
    let shorter = trim_blanks norm start e in
    if ltb start (suc e)
    then (get_elem? norm e >>= λ b. if eqb b b' ' then shorter else some (suc e))
    else some (suc e)

-- `original_window`
unfoldable pub original_window : Unicode → Text → ℕ → ℕ → ℕ → ℕ → Option Text
original_window u text start end left right = do
  around ←
      slice? (align_back text (start - left))
        (align_from text (length text - min (end + right) (length text))
          (min (end + right) (length text)))
        text
  some (u.to_lowercase around)

module _ (u : Unicode) (F : Float32) where
  abbrev pub Part : Type 0
  Part = Candidate F.Carrier

  -- A postal index counts only near its word.
  unfoldable pub index_round : Document → Found → Option (List Part)
  index_round doc m = guarded doc m (do
    b ← get_elem? doc.norm m.start
    if leb 1 (b - b'0') && leb (b - b'0') 6
        then (do
          span ← origin doc m
          w ← around doc m
          if has_word u w (utf8 "индекс")
              then emit addr_index span (F.of_millis 800) (regex (utf8 "address")) in_context
              else some [])
        else some [])

  -- The round of the loops for regions, cities, houses and flats.
  unfoldable pub part_round : PdType → Document → Found → Option (List Part)
  part_round t doc m =
      guarded doc m
        (do span ← origin doc m; emit t span (F.of_millis 700) (regex (utf8 "address")) no_signals)

  unfoldable pub street_round : Document → Captures → Option (List Part)
  unfolding street_rest trim_blanks
  street_round doc caps = guarded doc caps.whole (do
    rest ← slice? caps.whole.end (length doc.norm) doc.norm
    end ← trim_blanks doc.norm caps.whole.start (caps.whole.end + street_rest rest)
    if leb end caps.whole.start then some [] else do
      span ← origin doc (record { start = caps.whole.start; end = end })
      emit addr_street span (F.of_millis 700) (regex (utf8 "address")) no_signals)

  -- The six regular expressions of the struct.
  pub record Patterns : Type 0 where
    pub index : FindIter
    pub region : FindIter
    pub city : FindIter
    pub street : CapturesIter
    pub house : FindIter
    pub flat : FindIter

  unfoldable pub address_parts : Patterns → Document → Option (List Part)
  unfolding index_round part_round street_round
  address_parts re doc = do
    indexes ← collect (index_round doc) (re.index doc.norm)
    regions ← collect (part_round addr_region doc) (re.region doc.norm)
    cities ← collect (part_round addr_city doc) (re.city doc.norm)
    streets ← collect (street_round doc) (re.street doc.norm)
    houses ← collect (part_round addr_house doc) (re.house doc.norm)
    flats ← collect (part_round addr_flat doc) (re.flat doc.norm)
    some (indexes ++ regions ++ cities ++ streets ++ houses ++ flats)

  abbrev is_gap : Text → Bool
  is_gap c = c == utf8 "," || c == utf8 ";" || u.is_whitespace c

  -- The part goes on with the chain whose last part is `last`: behind it, with at most three bytes
  -- of commas, semicolons and white space between.
  unfoldable pub follows : Document → Part → Part → Option Bool
  follows doc last part = if ltb (span part).start (span last).end then some false else do
    gap ← slice? (span last).end (span part).start doc.original
    some (all is_gap (chars gap) && leb ((span part).start - (span last).end) 3)

  -- A chain that is being built, the last part first.
  abbrev Open : Type 0
  Open = Part × List Part

  abbrev whole : Open → List Part
  whole (last, before) = reverse (last ∷ before)

  abbrev grown : Bool → Part → Open → Open
  grown true part (last, before) = (part, last ∷ before)
  grown false part chain = (part, [])

  abbrev finished : Bool → Open → List (List Part) → List (List Part)
  finished true chain rest = rest
  finished false chain rest = whole chain ∷ rest

  -- The loop that builds the chains.
  unfoldable pub chains_from : Document → Open → List Part → Option (List (List Part))
  unfolding follows
  chains_from doc chain [] = some (whole chain ∷ [])
  chains_from doc chain (part ∷ parts) = do
    on ← follows doc chain.0 part
    rest ← chains_from doc (grown on part chain) parts
    some (finished on chain rest)

  unfoldable pub chains : Document → List Part → Option (List (List Part))
  unfolding chains_from
  chains doc [] = some []
  chains doc (part ∷ parts) = chains_from doc (part, []) parts

  abbrev has_type : PdType → List Part → Bool
  has_type t chain = any (λ c. pd_type c == t) chain

  -- The score of a chain; `none` for one that is no address.
  unfoldable pub chain_score : List Part → Option F.Carrier
  chain_score chain =
      if leb 3 (length chain) && (has_type addr_street chain && has_type addr_house chain)
      then some (F.of_millis 950)
      else if eqb (length chain) 2
          && (has_type addr_street chain && (has_type addr_city chain || has_type addr_house chain))
      then some (F.of_millis 800)
      else none

  abbrev components_of : List Part → Candidates F.Carrier
  components_of [] = nil
  components_of (c ∷ cs) = cons c (components_of cs)

  abbrev last_of : Part → List Part → Part
  last_of p [] = p
  last_of p (q ∷ ps) = last_of q ps

  abbrev context_words : List Text
  context_words = utf8 "проживает" ∷ utf8 "зарегистрирован" ∷ utf8 "адрес" ∷ utf8 "прописан" ∷ []

  -- The address of a chain from its first part to its last.
  unfoldable pub push_address : Document → Part → List Part → Option F.Carrier → Option (List Part)
  unfolding original_window
  push_address doc first rest none = some []
  push_address doc first rest (some score) = do
    let start = (span first).start in
        let end = (span (last_of first rest)).end in
        do
          ctx ← original_window u doc.original start end 120 40
          some (
              candidate address (record { start = start; end = end })
                (if has_any_word u ctx context_words
                  then F.min_of (F.add score (F.of_millis 200)) (F.of_millis 1000)
                  else score)
                (regex (utf8 "address")) (components_of (first ∷ rest)) no_signals
              ∷ [])

  unfoldable pub chain_round : Document → List Part → Option (List Part)
  unfolding push_address chain_score
  chain_round doc [] = some []
  chain_round doc (first ∷ rest) = push_address doc first rest (chain_score (first ∷ rest))

  abbrev pub flatten : List (List Part) → List Part
  flatten [] = []
  flatten (c ∷ cs) = c ++ flatten cs

  -- First the parts are pushed, then the addresses.
  unfoldable pub address_detect : Patterns → Document → Option (List Part)
  unfolding address_parts chains chain_round
  address_detect re doc = do
    parts ← address_parts re doc
    linked ← chains doc (sort_by (λ c. (span c).start) parts)
    addresses ← collect (chain_round doc) linked
    some (flatten linked ++ addresses)
