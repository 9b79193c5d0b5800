-- ===== src/Detect/Fio/Tokens.antt =====
-- The tokens of src/service/detect/fio.rs: words with what their form says.
use alfavibe_hack.Prelude.{
  ◌>>=◌, ℕ, suc, ◌-◌, Bool, false, not, ◌&&◌, ◌||◌, List, [], ◌∷◌, Option, none, some, Text,
  text_Eq, utf8, chars, length, leb, eqb, any, drop, if◌then◌else◌, ◌==◌,
}
use alfavibe_hack.Domain.Document.{Document, original_slice}
use alfavibe_hack.Domain.Unicode.{Unicode}
use alfavibe_hack.Detect.{Found, collect, matched, origin}

-- The bits of `TokFlags`, one field each.
pub record TokFlags : Type 0 where
  pub name : Bool
  pub patronymic : Bool
  pub surname_shape : Bool
  pub initials : Bool
  pub capitalized : Bool

pub record Token : Type 0 where
  pub place : Found  -- `start` and `end`
  pub flags : TokFlags

abbrev patronymic_suffixes : List Text
patronymic_suffixes =
    utf8 "ович"
    ∷ utf8 "евич"
    ∷ utf8 "ич"
    ∷ utf8 "овна"
    ∷ utf8 "евна"
    ∷ utf8 "ична"
    ∷ utf8 "инична"
    ∷ utf8 "овича"
    ∷ utf8 "евича"
    ∷ utf8 "ича"
    ∷ utf8 "овны"
    ∷ utf8 "евны"
    ∷ utf8 "ичны"
    ∷ utf8 "овичу"
    ∷ utf8 "евичу"
    ∷ utf8 "ичу"
    ∷ utf8 "овной"
    ∷ utf8 "евной"
    ∷ utf8 "ичной"
    ∷ utf8 "овичем"
    ∷ utf8 "евичем"
    ∷ utf8 "ичем"
    ∷ utf8 "овне"
    ∷ utf8 "евне"
    ∷ utf8 "ичне"
    ∷ utf8 "оглы"
    ∷ utf8 "кызы"
    ∷ utf8 "улы"
    ∷ []

abbrev surname_suffixes : List Text
surname_suffixes =
    utf8 "ов"
    ∷ utf8 "ев"
    ∷ utf8 "ёв"
    ∷ utf8 "ин"
    ∷ utf8 "ын"
    ∷ utf8 "ский"
    ∷ utf8 "цкий"
    ∷ utf8 "ской"
    ∷ utf8 "цкой"
    ∷ utf8 "ова"
    ∷ utf8 "ева"
    ∷ utf8 "ина"
    ∷ utf8 "ына"
    ∷ utf8 "ская"
    ∷ utf8 "цкая"
    ∷ utf8 "енко"
    ∷ utf8 "ук"
    ∷ utf8 "юк"
    ∷ utf8 "ян"
    ∷ utf8 "дзе"
    ∷ utf8 "швили"
    ∷ utf8 "их"
    ∷ utf8 "ых"
    ∷ utf8 "ко"
    ∷ utf8 "ову"
    ∷ utf8 "еву"
    ∷ utf8 "ину"
    ∷ utf8 "ыну"
    ∷ utf8 "овым"
    ∷ utf8 "евым"
    ∷ utf8 "иным"
    ∷ utf8 "ыным"
    ∷ utf8 "ове"
    ∷ utf8 "еве"
    ∷ utf8 "ине"
    ∷ utf8 "ыне"
    ∷ utf8 "овой"
    ∷ utf8 "евой"
    ∷ utf8 "иной"
    ∷ utf8 "ыной"
    ∷ []

-- `str::ends_with`
unfoldable pub ends_with : Text → Text → Bool
ends_with suffix word =
    leb (length suffix) (length word) && drop (length word - length suffix) word == suffix

abbrev dotted : List Text → Bool
dotted (_ ∷ b ∷ _ ∷ d ∷ []) = b == utf8 "." && d == utf8 "."
dotted _ = false

unfoldable pub is_initials : Text → Bool
is_initials word = dotted (chars word)

unfoldable pub is_patronymic : Text → Bool
unfolding ends_with
is_patronymic word = any (λ s. ends_with s word) patronymic_suffixes

unfoldable pub is_surname_shape : Text → Bool
unfolding ends_with
is_surname_shape word = any (λ s. ends_with s word) surname_suffixes

-- ASCII white space and the comma.
abbrev is_separator : ℕ → Bool
is_separator b = eqb b b' ' || leb 9 b && leb b 10 || leb 12 b && leb b 13 || eqb b b','

abbrev opened : ℕ → Option ℕ → Option ℕ
opened i none = some i
opened i (some start) = some start

abbrev closed : ℕ → Option ℕ → List Found → List Found
closed i none rest = rest
closed i (some start) rest = record { start = start; end = i } ∷ rest

-- The ranges between separators, from the byte at `i` on, with the start of the open one.
unfoldable pub ranges_from : ℕ → Option ℕ → Text → List Found
ranges_from i open_ [] = closed i open_ []
ranges_from i open_ (b ∷ bs) =
    let next = if is_separator b then none else opened i open_ in
    let rest = ranges_from (suc i) next bs in if is_separator b then closed i open_ rest else rest

abbrev first_upper : Unicode → List Text → Bool
first_upper u [] = false
first_upper u (c ∷ _) = u.is_uppercase c

-- `flags.is_empty()`
abbrev no_flags : TokFlags → Bool
no_flags f = not (f.name || f.patronymic || f.surname_shape || f.initials || f.capitalized)

module _ (u : Unicode) (first_names : List Text) where
  -- One range of `tokenize`.
  unfoldable pub token_round : Document → Found → Option (List Token)
  unfolding is_initials is_patronymic is_surname_shape
  token_round doc place = do
    word ← matched doc place
    span ← origin doc place
    orig ← original_slice doc span
    let flags : TokFlags = record {
      name = any (λ n. word == n) first_names;
      patronymic = is_patronymic word;
      surname_shape = is_surname_shape word;
      initials = is_initials word;
      capitalized = first_upper u (chars orig);
    } in
        some (if no_flags flags then [] else record { place = place; flags = flags } ∷ [])

  unfoldable pub tokenize : Document → Option (List Token)
  unfolding ranges_from token_round
  tokenize doc = collect (token_round doc) (ranges_from 0 none doc.norm)
