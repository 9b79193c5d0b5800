-- ===== src/Detect/Card/Exact.antt =====
-- What the detector of card numbers of src/service/detect/card.rs finds: the matches that are card
-- numbers, and nothing else.
use alfavibe_hack.Prelude.{
  ◌>>=◌, >>=-eq-some, Runs, ℕ, zero, suc, ◌^◌, ◌≤◌, ◌<◌, ◌≡◌, refl, sym, ap, ◌∙◌, true, false, ◌||◌,
  List, [], ◌∷◌, some, Text, digits_of, length, ltb, get_elem?, slice, slice?, is_char_boundary, In,
  here, All, arith, Bool-cases, inl, inr,
}
use alfavibe_hack.Domain.Candidate.{Candidate, span, pd_type}
use alfavibe_hack.Domain.Document.{Document, new}
use alfavibe_hack.Domain.Document.Offsets.{to_original_total}
use alfavibe_hack.Domain.Float32.{Float32}
use alfavibe_hack.Domain.PdType.{card_number}
use alfavibe_hack.Domain.Span.{Span}
use alfavibe_hack.Context.{is_boundary}
use alfavibe_hack.Validators.{
  ValidationResult, valid, invalid, not_applicable, luhn_valid, luhn_validate,
}
use alfavibe_hack.Validators.Luhn.{IsDigit}
use alfavibe_hack.Validators.Inn.{digits_of-All}
use alfavibe_hack.Detect.{FindIter, Found, matched, origin}
use alfavibe_hack.Detect.Matches.{
  emit-In, nothing-In, guarded-Runs, guarded-In, guarded-passes, collect-Runs, collect-In,
  In-collect, Pushes,
}
use alfavibe_hack.Detect.Card.{card_judged, card_checked, card_round, card_number_detect}

-- The digits of digits are they themselves.
digits_of-idempotent : (ds : Text) → All IsDigit ds → digits_of ds ≡ ds
unfolding digits_of
digits_of-idempotent [] h = refl
digits_of-idempotent (d ∷ ds) (p, h) = rw p (rw (digits_of-idempotent ds h))

-- A regular expression gives ranges of the text it searched, on character boundaries.
abbrev pub IsRange : Text → Found → Type 0
IsRange norm m =
    (m.start ≤ m.end)
    × (m.end ≤ length norm)
    × (is_char_boundary norm m.start ≡ true)
    × (is_char_boundary norm m.end ≡ true)

pub matched-IsRange : (doc : Document) (m : Found) → IsRange doc.norm m → Runs (matched doc m)
unfolding slice?
matched-IsRange doc m (le, top, b, c) = (slice m.start m.end doc.norm, ground arith)

get_elem?-Runs : (norm : Text) (i : ℕ) → i < length norm → Runs (get_elem? norm i)
get_elem?-Runs [] i h = elim h [ ]
get_elem?-Runs (b ∷ bs) zero h = (b, refl)
get_elem?-Runs (b ∷ bs) (suc i) h = get_elem?-Runs bs i (omega arith)

pub is_boundary-Runs :
    (norm : Text) (i j : ℕ) → i ≤ j → j ≤ length norm → Runs (is_boundary norm i j)
unfolding is_boundary
is_boundary-Runs norm zero j le top = (_, refl)
is_boundary-Runs norm (suc i) j le top =
    let (b, e) = get_elem?-Runs norm i (omega arith) in rw e (_, refl)

-- A match that is a card number: no part of a longer word, 13 to 19 digits, and the Luhn test holds.
abbrev pub IsCard : Document → Found → Type 0
IsCard doc m =
    (is_boundary doc.norm m.start m.end ≡ some true)
    × ((text : Text) × (matched doc m ≡ some text)
        × (13 ≤ length (digits_of text))
        × (length (digits_of text) ≤ 19)
        × (luhn_valid (digits_of text) ≡ true))

prefix_Runs : (ds : Text) → All IsDigit ds → 13 ≤ length ds → Runs (slice? 0 2 ds)
unfolding slice? is_char_boundary
prefix_Runs (a ∷ b ∷ c ∷ ds) (_, (_, (d, _))) long = (a ∷ b ∷ [], ground arith)
prefix_Runs [] _ long = elim long [ ]
prefix_Runs (a ∷ []) _ long = absurd (omega (arith, long))
prefix_Runs (a ∷ b ∷ []) _ long = (a ∷ b ∷ [], refl)

module _ (F : Float32) where
  judged-Runs :
      (span : Span) (ds : Text)
      → All IsDigit ds
      → 13 ≤ length ds
      → (v : ValidationResult) → Runs (card_judged F span ds v)
  unfolding card_judged
  judged-Runs span ds h long valid = let (p, e) = prefix_Runs ds h long in rw e (_, refl)
  judged-Runs span ds h long invalid = ([], refl)
  judged-Runs span ds h long not_applicable = ([], refl)

  -- What a valid number gives, and only it.
  judged-valid :
      (s : Span) (ds : Text)
      → All IsDigit ds
      → 13 ≤ length ds
      → (c : Candidate F.Carrier) × (span c ≡ s)
        × ((pushed : List (Candidate F.Carrier)) × (card_judged F s ds valid ≡ some pushed)
            × In c pushed)
  unfolding card_judged
  judged-valid s ds h long = let (p, e) = prefix_Runs ds h long in rw e (_, refl, (_, refl, here))

  judged-In :
      (s : Span) (ds : Text) (v : ValidationResult)
      → {pushed : List (Candidate F.Carrier)} {c : Candidate F.Carrier}
      → card_judged F s ds v ≡ some pushed
      → In c pushed
      → (v ≡ valid) × (pd_type c ≡ card_number) × (span c ≡ s)
  unfolding card_judged
  judged-In s ds valid e m =
      let (_, _, k) = >>=-eq-some (slice? 0 2 ds) _ e in let (t, p) = emit-In k m in (refl, t, p)
  judged-In s ds invalid e m = nothing-In e m
  judged-In s ds not_applicable e m = nothing-In e m

  verdict-valid : (ds : Text) → All IsDigit ds → luhn_validate ds ≡ valid → luhn_valid ds ≡ true
  unfolding luhn_validate
  verdict-valid ds h e = ground (arith, digits_of-idempotent ds h)

  valid-verdict :
      (ds : Text)
      → All IsDigit ds
      → 13 ≤ length ds
      → length ds ≤ 19
      → luhn_valid ds ≡ true
      → luhn_validate ds ≡ valid
  unfolding luhn_validate
  valid-verdict ds h lo hi ok = ground (arith, digits_of-idempotent ds h)

  -- A round does not panic on a range that the map of offsets takes to the original.
  round-Runs :
      (doc : Document) (m : Found)
      → IsRange doc.norm m
      → Runs (origin doc m)
      → Runs (card_round F doc m)
  unfolding card_round card_checked
  round-Runs doc m r (s, o) =
      let (text, e) = matched-IsRange doc m r in
      guarded-Runs doc m _ (is_boundary-Runs doc.norm m.start m.end r.0 r.1) (
        rw e
          (elim (Bool-cases
            (ltb (length (digits_of text)) 13 || ltb 19 (length (digits_of text)))) [
              | inl out ↦ rw out ([], refl)
              | inr long ↦
                  rw (long, o)
                    (judged-Runs s (digits_of text) (digits_of-All text) (ground arith)
                      (luhn_validate (digits_of text)))
            ]))

  -- What a round pushes is a card number at the place of its match.
  abbrev At : Document → Found → Candidate F.Carrier → Type 0
  At doc m c = (pd_type c ≡ card_number) × (origin doc m ≡ some (span c))

  digits-In :
      (doc : Document) (m : Found) (ds : Text)
      → All IsDigit ds
      → {pushed : List (Candidate F.Carrier)} {c : Candidate F.Carrier}
      → card_checked F doc m ds ≡ some pushed
      → In c pushed
      → (13 ≤ length ds) × (length ds ≤ 19) × (luhn_valid ds ≡ true) × At doc m c
  unfolding card_checked
  digits-In doc m ds h e i = elim (Bool-cases (ltb (length ds) 13 || ltb 19 (length ds))) [
    | inl out ↦ nothing-In (rw out at e) i
    | inr long ↦
        let (s, o, k) = >>=-eq-some (origin doc m) _ (rw long at e) in
        let (v, t, p) = judged-In s ds (luhn_validate ds) k i in
        (ground arith, ground arith, verdict-valid ds h v, (t, o ∙ ap some (sym p)))
  ]

  round-In :
      (doc : Document) (m : Found) {c : Candidate F.Carrier}
      → Pushes (card_round F doc) m c
      → IsCard doc m × At doc m c
  unfolding card_round
  round-In doc m (pushed, e, i) =
      let (b, f) = guarded-In doc m _ e i in
      let (text, g, k) = >>=-eq-some (matched doc m) _ f in
      let (lo, hi, ok, at_) = digits-In doc m (digits_of text) (digits_of-All text) k i in
      ((b, (text, g, lo, hi, ok)), at_)

  In-round :
      (doc : Document) (m : Found) {s : Span}
      → IsCard doc m
      → origin doc m ≡ some s
      → (c : Candidate F.Carrier) × (span c ≡ s) × Pushes (card_round F doc) m c
  unfolding card_round card_checked
  In-round doc m {s} (b, (text, e, lo, hi, ok)) o =
      let h = digits_of-All text in
      let (c, p, (pushed, k, i)) = judged-valid s (digits_of text) h lo in
      (c, p, (pushed, guarded-passes doc m _ b ∙ step h k, i))
    where
      step :
          All IsDigit (digits_of text)
          → {pushed : List (Candidate F.Carrier)}
          → card_judged F s (digits_of text) valid ≡ some pushed
          → (matched doc m >>= λ t. card_checked F doc m (digits_of t)) ≡ some pushed
      step h k =
          let long : (ltb (length (digits_of text)) 13 || ltb 19 (length (digits_of text)))
              ≡ false =
            ground arith in
          rw (e, long, o, valid-verdict (digits_of text) h lo hi ok) k

-- The detector returns; each match that is a card number gives a candidate at its place, and each
-- candidate is of the type CARD_NUMBER and stands at the place of such a match.
abbrev pub FindsCards : Float32 → FindIter → Document → Type 0
FindsCards F re doc =
    (cs : List (Candidate F.Carrier)) × (card_number_detect F re doc ≡ some cs)
    × ((m : Found)
        → In m (re doc.norm)
        → IsCard doc m
        → (c : Candidate F.Carrier) × In c cs × (origin doc m ≡ some (span c)))
    × ((c : Candidate F.Carrier)
        → In c cs
        → (pd_type c ≡ card_number)
          × ((m : Found) × In m (re doc.norm) × IsCard doc m × (origin doc m ≡ some (span c))))

-- In a text of fewer than 2 ^ 32 bytes, when the matches of the regular expression are ranges of the
-- folded text on character boundaries, the detector of card numbers does not panic. Each match that
-- is no part of a longer word, has 13 to 19 digits and passes the Luhn test gives a candidate at its
-- place in the original, and each candidate is of the type CARD_NUMBER and comes from such a match.
pub card_number_detect-exact :
    (F : Float32) (fold : Text → List Text) (re : FindIter) (original : Text)
    → length original < 2 ^ 32
    → ((m : Found) → In m (re (new fold original).norm) → IsRange (new fold original).norm m)
    → FindsCards F re (new fold original)
unfolding card_number_detect
card_number_detect-exact F fold re original small ranges =
    let doc = new fold original in
    let placed : (m : Found) → In m (re doc.norm) → Runs (origin doc m) = λ m i.
      let r = ranges m i in
      let (s, o, _, _, _) = to_original_total fold original m.start m.end small r.0 r.1 in (s, o) in
    let (cs, e) =
      collect-Runs (card_round F doc) (re doc.norm)
        (λ m i. round-Runs F doc m (ranges m i) (placed m i)) in
    (
      cs,
      e,
      λ m i card.
          let (s, o) = placed m i in
          let (c, p, pushes) = In-round F doc m card o in
          (c, In-collect (card_round F doc) (re doc.norm) e i pushes, o ∙ ap some (sym p)),
      λ c i.
          let (m, in_, pushes) = collect-In (card_round F doc) (re doc.norm) e i in
          let (card, (t, o)) = round-In F doc m pushes in (t, (m, in_, card, o)),
    )
