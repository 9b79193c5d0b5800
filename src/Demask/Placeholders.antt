-- ===== src/Demask/Placeholders.antt =====
-- `demask` of src/service/demask.rs on the answer of `mask_line` of src/service/pipeline.rs.
use alfavibe_hack.Prelude.{
  ◌>>=◌, ℕ, suc, ◌+◌, ◌-◌, ◌≤◌, ◌≡◌, refl, sym, ap, ◌∙◌, subst, List, [], ◌∷◌, ◌++◌, none, some,
  Text, text_Eq, length, slice, slice?, slice?-eq-some, drop, drop-drop, All, In, here, there,
  arith, Bool-cases, inl, inr, Runs, is_char_boundary,
}
use alfavibe_hack.Prelude.Maps.{get, insert, get-insert_self, get-insert}
use alfavibe_hack.Prelude.{◌==◌, ==_iff}
use alfavibe_hack.Domain.Document.Boundaries.{boundary_end}
use alfavibe_hack.Pipeline.Masking.{MaskedEntityInfo}
use alfavibe_hack.Pipeline.Restore.{restore, slice_end}
use alfavibe_hack.Demask.{
  DemaskResult, Mapping, MappingEntry, Match, by_key_from, by_masked, demask, find_text, found,
  is_empty, key_of, replace_masked, replace_matches,
}

-- Entries with one key stand for one value.
abbrev pub Consistent : List MappingEntry → Type 0
Consistent es = (e f : MappingEntry) → In e es → In f es → e.key ≡ f.key → e.original ≡ f.original

get-by_key_from_kept :
    (k o : Text) (m : List (Text × Text)) (es : List MappingEntry)
    → ((f : MappingEntry) → In f es → k ≡ f.key → o ≡ f.original)
    → get k m ≡ some o
    → get k (by_key_from m es) ≡ some o
unfolding by_key_from
get-by_key_from_kept k o m [] same h = h
get-by_key_from_kept k o m (f ∷ es) same h =
    get-by_key_from_kept k o (insert f.key f.original m) es (λ g i. same g (there i))
      (elim (Bool-cases (f.key == k)) [
        | inl eq ↦
            let e : f.key ≡ k = (==_iff f.key k).0 eq in
            rw (get-insert f.key k f.original m, eq, same f here (sym e)) refl
        | inr ne ↦ rw (get-insert f.key k f.original m, ne) h
      ])

get-by_key_from :
    (e : MappingEntry) (m : List (Text × Text)) (es : List MappingEntry)
    → ((f : MappingEntry) → In f es → e.key ≡ f.key → e.original ≡ f.original)
    → In e es
    → get e.key (by_key_from m es) ≡ some e.original
unfolding by_key_from
get-by_key_from e m [] same in_ = elim in_ [ ]
get-by_key_from e m (f ∷ es) same here =
    get-by_key_from_kept e.key e.original (insert e.key e.original m) es (λ g i. same g (there i))
      (get-insert_self e.key e.original m)
get-by_key_from e m (f ∷ es) same (there i) =
    get-by_key_from e (insert f.key f.original m) es (λ g j. same g (there j)) i

-- The matches in the masked text are the replacements, in order and on the borders of characters, and
-- each has an entry with its key and the text that it replaced.
pub data Aligned {S : Type 0} (original text : Text) (entries : List MappingEntry)
    : ℕ → List Match → List (MaskedEntityInfo S) → Type 0 where
  done :
      {last : ℕ} → Runs (slice? last (length text) text) → Aligned original text entries last [] []
  next :
      {last : ℕ} {ms : List Match} {is : List (MaskedEntityInfo S)} (m : Match)
      (i : MaskedEntityInfo S) (e : MappingEntry)
      → Runs (slice? last m.start text)
      → m.start ≡ i.masked_start
      → m.end ≡ i.masked_end
      → m.start ≤ m.end
      → In e entries
      → key_of m ≡ e.key
      → e.original ≡ slice i.start i.end original
      → Aligned original text entries m.end ms is
      → Aligned original text entries last (m ∷ ms) (i ∷ is)

-- What the first loop gives then.
pub record Restored (original text : Text) (entries : List MappingEntry) (ms : List Match)
    (last : ℕ) (expected : Text) : Type 0 where
  pub result : DemaskResult
  pub returned : replace_matches (by_key_from [] entries) text ms last ≡ some result
  pub text_is : result.text ≡ expected
  pub counted : result.restored ≡ length ms
  pub none_left : result.unresolved ≡ 0

module _ (original text : Text) (entries : List MappingEntry) (same : Consistent entries) where
  Restored-end :
      (last : ℕ)
      → Runs (slice? last (length text) text)
      → Restored original text entries [] last (drop last text)
  unfolding replace_matches
  Restored-end last (t, h) = record {
    result = record { text = t; restored = 0; unresolved = 0 };
    returned = rw h refl;
    text_is = (slice?-eq-some last (length text) text h).2 ∙ slice_end last text;
    counted = refl;
    none_left = refl;
  }

  Restored-step :
      (m : Match) (ms : List Match) (e : MappingEntry) (last : ℕ) (expected : Text)
      → Runs (slice? last m.start text)
      → In e entries
      → key_of m ≡ e.key
      → Restored original text entries ms m.end expected
      → Restored original text entries
          (m ∷ ms)
          last
          (slice last m.start text ++ (e.original ++ expected))
  unfolding replace_matches
  Restored-step m ms e last expected (gap, h) in_ key r =
      let known : get (key_of m) (by_key_from [] entries) ≡ some e.original =
        rw key (get-by_key_from e [] entries (λ f j. same e f in_ j) in_) in
      let copied : gap ≡ slice last m.start text = (slice?-eq-some last m.start text h).2 in
      record {
        result = found gap e.original r.result;
        returned = rw (replace_matches, known, h, r.returned) refl;
        text_is = rw (r.text_is, copied) refl;
        counted = ap suc r.counted;
        none_left = r.none_left;
      }

module _ {S : Type 0} (original text : Text) (entries : List MappingEntry)
    (same : Consistent entries) where
  restore-next :
      (i : MaskedEntityInfo S) (is : List (MaskedEntityInfo S)) (last : ℕ)
      → last ≤ i.masked_end
      → restore original (i ∷ is) last (drop last text)
        ≡ slice last i.masked_start text
          ++ (slice i.start i.end original
              ++ restore original is i.masked_end (drop i.masked_end text))
  unfolding restore
  restore-next i is last le =
      let e : last + (i.masked_end - last) ≡ i.masked_end = omega arith in
      rw (drop-drop (i.masked_end - last) last text, e) refl

  pub replace_matches-restore :
      (last : ℕ) (ms : List Match) (is : List (MaskedEntityInfo S))
      → Aligned original text entries last ms is
      → Restored original text entries ms last (restore original is last (drop last text))
  unfolding restore
  replace_matches-restore last [] [] (done fits) = Restored-end original text entries same last fits
  replace_matches-restore last [] (i ∷ is) h = elim h [ ]
  replace_matches-restore last (m ∷ ms) [] h = elim h [ ]
  replace_matches-restore last (m ∷ ms) (i ∷ is) (next _ _ e fits start end le in_ key orig rest) =
      let before : last ≤ m.start = (slice?-eq-some last m.start text fits.1).0 in
      let step =
        Restored-step original text entries same m ms e last _ fits in_ key
          (replace_matches-restore m.end ms is rest) in
      subst (Restored original text entries (m ∷ ms) last)
        (rw (restore-next i is last (omega arith), ← start, ← end, ← orig) refl) step

-- No masked form of an entry stands in the text, so the second loop finds nothing.
abbrev pub Unmasked : Text → List MappingEntry → Type 0
Unmasked text entries = All (λ p. find_text p.0 text ≡ none) (by_masked entries)

slice?_whole : (text : Text) → slice? 0 (length text) text ≡ some text
unfolding slice? is_char_boundary
slice?_whole text =
    let same : slice 0 (length text) text ≡ text = slice_end 0 text in
    ground (arith, boundary_end text, same)

replace_masked-none :
    (es : List (Text × Text)) (out : Text) (restored : ℕ)
    → All (λ p. find_text p.0 out ≡ none) es
    → replace_masked es out 0 restored ≡ some (out, restored)
unfolding replace_masked slice?
replace_masked-none [] out restored h = refl
replace_masked-none ((m, o) ∷ es) out restored (absent, h) = elim (Bool-cases (is_empty m)) [
  | inl empty ↦ rw (replace_masked, empty) (replace_masked-none es out restored h)
  | inr full ↦
      rw (replace_masked, full, slice?_whole out, ◌>>=◌, absent)
        (replace_masked-none es out restored h)
]

-- The regular expression finds just the replacements of an answer of `mask_line`, entries with one
-- key stand for one value, and no masked form stands in the original. Then `demask` of the masked
-- text does not panic and returns the original, with every match counted as restored.
pub demask-restore :
    {S : Type 0} (captures : Text → List Match) (original text : Text) (mapping : Mapping)
    (is : List (MaskedEntityInfo S))
    → Consistent mapping.entries
    → Unmasked original mapping.entries
    → Aligned original text mapping.entries 0 (captures text) is
    → restore original is 0 text ≡ original
    → demask captures text mapping
      ≡ some (record { text = original; restored = length (captures text); unresolved = 0 })
unfolding demask
demask-restore captures original text mapping is same absent aligned back =
    let r =
      replace_matches-restore original text mapping.entries same 0 (captures text) is aligned in
    let text_is : r.result.text ≡ original = r.text_is ∙ back in
    rw
      (
        r.returned,
        text_is,
        replace_masked-none (by_masked mapping.entries) original r.result.restored absent,
        r.counted,
        r.none_left,
      )
      refl
