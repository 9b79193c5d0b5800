-- ===== src/Relevance.antt =====
-- src/service/relevance.rs: candidates that are no personal data. A filter returns whether it keeps
-- the candidate; `none` is a panic of a slice.
pub mod Sequence
pub mod Offices
pub mod Persons
use alfavibe_hack.Prelude.{
  ◌>>=◌, ℕ, ◌+◌, ◌-◌, Bool, true, false, not, ◌&&◌, ◌||◌, List, [], ◌∷◌, ◌++◌, Option, none, some,
  Text, text_Eq, utf8, eqb, leb, ltb, min, if◌then◌else◌, length, take, any, filter, map, slice?,
  chars, digits_of, ◌==◌,
}
use alfavibe_hack.Domain.PdType.{
  PdType, addr_city, addr_flat, addr_house, addr_index, addr_region, addr_street, address, fio, inn,
  org_inn, passport, phone,
}
use alfavibe_hack.Domain.Span.{Span}
use alfavibe_hack.Domain.Document.{Document, original_slice}
use alfavibe_hack.Domain.Candidate
use alfavibe_hack.Domain.Candidate.{Candidate}
use alfavibe_hack.Domain.Float32.{Float32}
use alfavibe_hack.Domain.Unicode.{Unicode, contains, join_spaces, split_whitespace}
use alfavibe_hack.Context.{window, window_end, window_start}

abbrev mentions : List Text → Text → Bool
mentions words text = any (λ w. contains w text) words

abbrev pub is_one_of : List PdType → PdType → Bool
is_one_of ts t = any (λ u. t == u) ts

-- `haystack.windows(n)`
unfoldable pub windows : ℕ → List Text → List (List Text)
windows n [] = []
windows n (x ∷ xs) =
    let rest = windows n xs in if leb n (length (x ∷ xs)) then take n (x ∷ xs) ∷ rest else []

unfoldable pub same_words : List Text → List Text → Bool
same_words (a ∷ as_) (b ∷ bs) = (a == b) && same_words as_ bs
same_words _ _ = true

abbrev pub is_empty : List Text → Bool
is_empty [] = true
is_empty (_ ∷ _) = false

unfoldable pub contains_token_sequence : List Text → List Text → Bool
contains_token_sequence haystack needle =
    if is_empty needle || ltb (length haystack) (length needle)
    then false
    else any (λ w. same_words w needle) (windows (length needle) haystack)

-- `window_original`, which aligns its range as `window` does, in the original text.
unfoldable pub window_original : {S : Type 0} → Document → Candidate S → ℕ → ℕ → Option Text
window_original doc cand left right =
    let text = doc.original in
    slice? (window_start text ((Candidate.span cand).start - left))
      (window_end text ((Candidate.span cand).end + right)) text

unfoldable pub spaced : Unicode → List Text → Text
spaced u [] = []
spaced u (c ∷ cs) = (if u.is_alphanumeric c then c else utf8 " ") ++ spaced u cs

unfoldable pub normalize_for_compare : Unicode → Text → Text
normalize_for_compare u s = join_spaces (split_whitespace u (spaced u (chars (u.to_lowercase s))))

-- `BankAllowlistFilter`
pub record BankAllowlist : Type 0 where
  pub office_tokens : List (List Text)
  pub phone_digits : List Text

unfoldable pub bank_allowlist : Unicode → List Text → List Text → BankAllowlist
bank_allowlist u offices phones = record {
  office_tokens =
      filter (λ t. not (is_empty t))
        (map (λ o. split_whitespace u (normalize_for_compare u o)) offices);
  phone_digits = map digits_of phones;
}

abbrev place_types : List PdType
place_types =
    address ∷ addr_city ∷ addr_street ∷ addr_house ∷ addr_flat ∷ addr_region ∷ addr_index ∷ phone
    ∷ []

abbrev is_blank : Text → Bool
is_blank [] = true
is_blank (_ ∷ _) = false

module _ {S : Type 0} (u : Unicode) where
  unfoldable pub keep_allowlist : BankAllowlist → Document → Candidate S → Option Bool
  keep_allowlist bank doc cand = do
    orig ← original_slice doc (Candidate.span cand)
    near ← window_original doc cand 60 60
    let around = normalize_for_compare u near
    some (
        if any (λ office. contains_token_sequence (split_whitespace u around) office)
          bank.office_tokens
        then false
        else if is_one_of place_types (Candidate.pd_type cand)
            && mentions
                (utf8 "отделение банка"
                  ∷ utf8 "офис банка"
                  ∷ utf8 "филиал банка"
                  ∷ utf8 "горячей линии"
                  ∷ utf8 "горячая линия"
                  ∷ [])
                around
        then false
        else not (
            (Candidate.pd_type cand == phone)
            && any (λ pd. not (is_blank pd) && contains pd (digits_of orig)) bank.phone_digits))

  -- `NegativeNumberContext`
  unfoldable pub keep_number : Document → Candidate S → Option Bool
  keep_number doc cand =
      let start = (Candidate.span cand).start in
      let judged = (do
        text ← window doc.norm (start - 60) start
        some (
            not (
              mentions
                (utf8 "заказ"
                  ∷ utf8 "договор"
                  ∷ utf8 "счет-фактура"
                  ∷ utf8 "артикул"
                  ∷ utf8 "инвойс"
                  ∷ utf8 "номер заявки"
                  ∷ utf8 "тикет"
                  ∷ utf8 "сумма"
                  ∷ utf8 "руб"
                  ∷ [])
                text))) in
      if not (is_one_of (passport ∷ phone ∷ inn ∷ org_inn ∷ []) (Candidate.pd_type cand))
        || (Candidate.signals cand).checksum_ok
      then some true
      else judged

  -- `OrgContextFilter`
  unfoldable pub keep_org : Document → Candidate S → Option Bool
  keep_org doc cand =
      let judged = (do
        text ← window doc.norm ((Candidate.span cand).start - 40) ((Candidate.span cand).end + 40)
        some (
            not (
              mentions
                (utf8 "ооо" ∷ utf8 "зао" ∷ utf8 "ао" ∷ utf8 "пао" ∷ utf8 "ип" ∷ utf8 "оао" ∷ [])
                text))) in
      if not (Candidate.pd_type cand == fio) then some true else judged
