-- ===== src/Guard/Sessions/Recorded.antt =====
-- What the mapping of `mask` in src/service/guard_service.rs says of the original text.
use alfavibe_hack.Prelude.{
  All, ℕ, suc, ◌≤◌, ◌≡◌, refl, ap, ◌∙◌, List, [], ◌∷◌, Text, Runs, In, here, there, length, slice,
  slice?, slice?-eq-some, some, inl, inr, Option-cases, arith,
}
use alfavibe_hack.Domain.Entity.{MaskRecord}
use alfavibe_hack.Demask.{MappingEntry, Match, key_of}
use alfavibe_hack.Demask.Placeholders.{Aligned}
use alfavibe_hack.Pipeline.Masking.{MaskedEntityInfo}
use alfavibe_hack.Pipeline.Records.{Keyed}
use alfavibe_hack.Guard.Run.{Run-cases, fails, panics, returned, returns}
use alfavibe_hack.Guard.Service.{entries_of, masked_form, or_empty}

-- The matches in the masked text are the replacements, in order and on the borders of characters, and
-- each reads the key of the entry that has the same place in the mapping.
pub data Spotted {S : Type 0} (text : Text)
    : ℕ → List Match → List (MaskedEntityInfo S) → List MappingEntry → Type 0 where
  done : {last : ℕ} → Runs (slice? last (length text) text) → Spotted text last [] [] []
  next :
      {last : ℕ} {ms : List Match} {is : List (MaskedEntityInfo S)} {es : List MappingEntry}
      (m : Match) (i : MaskedEntityInfo S) (e : MappingEntry)
      → Runs (slice? last m.start text)
      → m.start ≡ i.masked_start
      → m.end ≡ i.masked_end
      → m.start ≤ m.end
      → key_of m ≡ e.key
      → Spotted text m.end ms is es
      → Spotted text last (m ∷ ms) (i ∷ is) (e ∷ es)

-- Each entry holds the text that its replacement stands for.
data Drawn {S : Type 0} (original : Text)
    : List (MaskedEntityInfo S) → List MappingEntry → Type 0 where
  end : Drawn original [] []
  step :
      {i : MaskedEntityInfo S} {is : List (MaskedEntityInfo S)} {e : MappingEntry}
      {es : List MappingEntry}
      → e.original ≡ slice i.start i.end original
      → Drawn original is es
      → Drawn original (i ∷ is) (e ∷ es)

module _ (original : Text) where
  -- The steps of `entries_of` for a record.
  record Listed (out : Text) (r : MaskRecord) (rs : List MaskRecord) (es : List MappingEntry)
      : Type 0 where
    first : MappingEntry
    rest : List MappingEntry
    sliced : slice? r.original_span.start r.original_span.end original ≡ some first.original
    later : entries_of original out rs ≡ returned rest
    whole : first ∷ rest ≡ es

  entries_of-Listed :
      (out : Text) (r : MaskRecord) (rs : List MaskRecord) (es : List MappingEntry)
      → entries_of original out (r ∷ rs) ≡ returned es
      → Listed out r rs es
  unfolding entries_of
  entries_of-Listed out r rs es h =
      elim (Option-cases (slice? r.original_span.start r.original_span.end original)) [
        | inl outside ↦ absurd (ground arith)
        | inr (o, cut) ↦ elim (Run-cases (masked_form out r)) [
          | fails x made ↦ absurd (ground arith)
          | panics made ↦ absurd (ground arith)
          | returns form made ↦ elim (Run-cases (entries_of original out rs)) [
            | fails x more ↦ absurd (ground arith)
            | panics more ↦ absurd (ground arith)
            | returns rest more ↦ record {
              first = record {
                key = or_empty r.key;
                pd_type = r.pd_type;
                original = o;
                masked = form;
              };
              rest = rest;
              sliced = cut;
              later = more;
              whole = ground arith;
            }
          ]
        ]
      ]

  pub entries_of-length :
      (out : Text) (rs : List MaskRecord) (es : List MappingEntry)
      → entries_of original out rs ≡ returned es
      → length rs ≡ length es
  unfolding entries_of
  entries_of-length out [] es h = let none_ : [] ≡ es = ground arith in rw (← none_) refl
  entries_of-length out (r ∷ rs) es h =
      let l = entries_of-Listed out r rs es h in
      rw (← l.whole) (ap suc (entries_of-length out rs l.rest l.later))

  -- The value of an entry is a range of the text.
  abbrev pub IsPart : MappingEntry → Type 0
  IsPart e = (start : ℕ) × ((end : ℕ) × (slice? start end original ≡ some e.original))

  pub entries_of-All :
      (out : Text) (rs : List MaskRecord) (es : List MappingEntry)
      → entries_of original out rs ≡ returned es
      → All IsPart es
  unfolding entries_of
  entries_of-All out [] es h = let none_ : [] ≡ es = ground arith in rw (← none_) tt
  entries_of-All out (r ∷ rs) es h =
      let l = entries_of-Listed out r rs es h in
      rw (← l.whole) (
        (r.original_span.start, (r.original_span.end, l.sliced)),
        entries_of-All out rs l.rest l.later,
      )

module _ {S : Type 0} (original : Text) where
  entries_of-Drawn :
      (out : Text) (is : List (MaskedEntityInfo S)) (rs : List MaskRecord) (es : List MappingEntry)
      → Keyed is rs
      → entries_of original out rs ≡ returned es
      → Drawn original is es
  unfolding entries_of
  entries_of-Drawn out [] [] es Keyed.done h =
      let none_ : [] ≡ es = ground arith in rw (← none_) end
  entries_of-Drawn out (i ∷ is) (r ∷ rs) es (Keyed.next at more) h =
      let l = entries_of-Listed original out r rs es h in
      rw (← l.whole) (
        step ((slice?-eq-some _ _ original l.sliced).2 ∙ ap (λ s. slice s.start s.end original) at)
          (entries_of-Drawn out is rs l.rest more l.later))
  entries_of-Drawn out [] (r ∷ rs) es keyed h = elim keyed [ ]
  entries_of-Drawn out (i ∷ is) [] es keyed h = elim keyed [ ]

  Aligned-Drawn :
      (text : Text) (last : ℕ) (ms : List Match) (is : List (MaskedEntityInfo S))
      (es entries : List MappingEntry)
      → ((e : MappingEntry) → In e es → In e entries)
      → Spotted text last ms is es
      → Drawn original is es
      → Aligned original text entries last ms is
  Aligned-Drawn text last _ _ _ entries into (Spotted.done fits) end = Aligned.done fits
  Aligned-Drawn text last _ _ _ entries into
        (Spotted.next {ms} {is} {es} m i e fits start stop le key more) (step orig rest) =
      Aligned.next m i e fits start stop le (into e here) key orig
        (Aligned-Drawn text m.end ms is es entries (λ f j. into f (there j)) more rest)

  pub Spotted-length :
      (text : Text) (last : ℕ) (ms : List Match) (is : List (MaskedEntityInfo S))
      (es : List MappingEntry)
      → Spotted text last ms is es
      → length is ≡ length es
  Spotted-length text last _ _ _ (Spotted.done fits) = refl
  Spotted-length text last _ _ _ (Spotted.next {ms} {is} {es} m i e _ _ _ _ _ more) =
      ap suc (Spotted-length text m.end ms is es more)

  -- The mapping that `entries_of` makes of the records holds what the replacements stand for.
  pub Aligned-entries_of :
      (text : Text) (ms : List Match) (is : List (MaskedEntityInfo S)) (rs : List MaskRecord)
      (es : List MappingEntry)
      → entries_of original text rs ≡ returned es
      → Keyed is rs
      → Spotted text 0 ms is es
      → Aligned original text es 0 ms is
  Aligned-entries_of text ms is rs es listed keyed spotted =
      Aligned-Drawn text 0 ms is es es (λ e j. j) spotted
        (entries_of-Drawn text is rs es keyed listed)
