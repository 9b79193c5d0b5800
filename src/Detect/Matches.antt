-- ===== src/Detect/Matches.antt =====
-- The loop of the detectors of src/service/detect: when it ends without a panic, and what it pushes.
use alfavibe_hack.Prelude.{
  >>=-eq-some, Runs, ◌≡◌, refl, ap, List, [], ◌∷◌, ◌++◌, Option, some, In, here, there,
  In-append_left, In-append_right, In-append-cases, inl, inr, subst, sym, ◌∙◌, Bool, true, false,
  if◌then◌else◌,
}
use mathlib.Core.Option.{some-injective}
use alfavibe_hack.Domain.Document.{Document}
use alfavibe_hack.Domain.Candidate.{Candidate, DetectorSource, SignalFlags, pd_type, span}
use alfavibe_hack.Domain.PdType.{PdType}
use alfavibe_hack.Domain.Span.{Span}
use alfavibe_hack.Context.{is_boundary}
use alfavibe_hack.Detect.{Found, collect, emit, guarded}

module _ {ℓ κ} {A : Type ℓ} {C : Type κ} (body : A → Option (List C)) where
  -- The loop ends when every round does.
  pub collect-Runs : (xs : List A) → ((x : A) → In x xs → Runs (body x)) → Runs (collect body xs)
  unfolding collect
  collect-Runs [] each = ([], refl)
  collect-Runs (x ∷ xs) each =
      let (pushed, e) = each x here in
      let (rest, f) = collect-Runs xs (λ y m. each y (there m)) in (pushed ++ rest, rw (e, f) refl)

  -- The round of `x` pushes `c`.
  abbrev pub Pushes : A → C → Type κ
  Pushes x c = (pushed : List C) × (body x ≡ some pushed) × In c pushed

  -- Whatever the loop has pushed, one of its rounds has.
  pub collect-In :
      (xs : List A) {cs : List C} {c : C}
      → collect body xs ≡ some cs
      → In c cs
      → (x : A) × In x xs × Pushes x c
  unfolding collect
  collect-In [] {cs} {c} e m = elim (subst (λ l. In c l) (sym (some-injective _ _ e)) m) [ ]
  collect-In (x ∷ xs) {cs} {c} e m =
      let (pushed, f, g) = >>=-eq-some (body x) _ e in
      let (rest, h, k) = >>=-eq-some (collect body xs) _ g in
      elim (In-append-cases pushed (subst (λ l. In c l) (sym (some-injective _ _ k)) m)) [
        | inl now ↦ (x, here, (pushed, f, now))
        | inr later ↦ let (y, in_, p) = collect-In xs h later in (y, there in_, p)
      ]

  -- And what a round has pushed is there.
  pub In-collect :
      (xs : List A) {cs : List C} {x : A} {c : C}
      → collect body xs ≡ some cs
      → In x xs
      → Pushes x c
      → In c cs
  unfolding collect
  In-collect (x ∷ xs) {c = c} e here (own, q, r) =
      let (pushed, f, g) = >>=-eq-some (body x) _ e in
      let (rest, _, k) = >>=-eq-some (collect body xs) _ g in
      let r' : In c pushed = subst (λ l. In c l) (some-injective own pushed (sym q ∙ f)) r in
      subst (λ l. In c l) (some-injective _ _ k) (In-append_left rest r')
  In-collect (x ∷ xs) {c = c} e (there in_) p =
      let (pushed, _, g) = >>=-eq-some (body x) _ e in
      let (rest, h, k) = >>=-eq-some (collect body xs) _ g in
      subst (λ l. In c l) (some-injective _ _ k) (In-append_right pushed (In-collect xs h in_ p))
  In-collect [] e m p = elim m [ ]

-- A round that passes its match over pushes nothing.
pub nothing-In {ℓ κ} :
    {C : Type ℓ} {Goal : Type κ} {pushed : List C} {c : C}
    → ◌≡◌ {A = Option (List C)} (some []) (some pushed)
    → In c pushed
    → Goal
nothing-In {pushed = pushed} {c = c} e i =
    elim (subst (λ l. In c l) (sym (some-injective _ _ e)) i) [ ]

In-single : {C : Type 0} {c d : C} → In c (d ∷ []) → c ≡ d
In-single here = refl
In-single (there i) = elim i [ ]

-- What `emit` pushes.
pub emit-In :
    {S : Type 0} {t : PdType} {s : Span} {x : S} {src : DetectorSource} {f : SignalFlags}
    {pushed : List (Candidate S)} {c : Candidate S}
    → emit t s x src f ≡ some pushed
    → In c pushed
    → (pd_type c ≡ t) × (span c ≡ s)
emit-In {c = c} e i =
    let same = In-single (subst (λ l. In c l) (sym (some-injective _ _ e)) i) in
    (ap pd_type same, ap span same)

-- The guard of a round.
module _ {C : Type 0} (doc : Document) (m : Found) (rest : Option (List C)) where
  pub guarded-passes : is_boundary doc.norm m.start m.end ≡ some true → guarded doc m rest ≡ rest
  unfolding guarded
  guarded-passes e = rw e refl

  pub guarded-In :
      {pushed : List C} {c : C}
      → guarded doc m rest ≡ some pushed
      → In c pushed
      → (is_boundary doc.norm m.start m.end ≡ some true) × (rest ≡ some pushed)
  unfolding guarded
  guarded-In {pushed} {c} e i =
      let (b, f, g) = >>=-eq-some (is_boundary doc.norm m.start m.end) _ e in decided b f g
    where
      decided :
          (b : Bool)
          → is_boundary doc.norm m.start m.end ≡ some b
          → (if b then rest else some []) ≡ some pushed
          → (is_boundary doc.norm m.start m.end ≡ some true) × (rest ≡ some pushed)
      decided true f g = (f, g)
      decided false f g = nothing-In g i

  pub guarded-Runs :
      Runs (is_boundary doc.norm m.start m.end) → Runs rest → Runs (guarded doc m rest)
  unfolding guarded
  guarded-Runs (true, e) (pushed, f) = (pushed, rw (e, f) refl)
  guarded-Runs (false, e) r = ([], rw e refl)
