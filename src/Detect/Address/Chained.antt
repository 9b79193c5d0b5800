-- ===== src/Detect/Address/Chained.antt =====
-- The chains that the detector of addresses of src/service/detect/address.rs builds.
use alfavibe_hack.Prelude.{
  >>=-eq-some, ◌≡◌, refl, subst, ◌∙◌, Bool, true, false, List, [], ◌∷◌, ◌++◌, some, reverse,
  append_assoc, All,
}
use mathlib.Core.List.{reverse-cons}
use mathlib.Core.Option.{some-injective}
use alfavibe_hack.Domain.Document.{Document}
use alfavibe_hack.Domain.Float32.{Float32}
use alfavibe_hack.Domain.Unicode.{Unicode}
use alfavibe_hack.Detect.Address.{
  Part, Open, whole, grown, finished, follows, chains_from, chains, flatten,
}

module _ (u : Unicode) (F : Float32) where
  -- Each part of the list follows the one before it.
  abbrev pub Linked : Document → List (Part u F) → Type 0
  Linked doc [] = Unit
  Linked doc (p ∷ []) = Unit
  Linked doc (p ∷ q ∷ ps) = (follows u F doc p q ≡ some true) × Linked doc (q ∷ ps)

  -- A chain with its last part first.
  abbrev Backwards : Document → Part u F → List (Part u F) → Type 0
  Backwards doc q [] = Unit
  Backwards doc q (p ∷ ps) = (follows u F doc p q ≡ some true) × Backwards doc p ps

  Linked-whole :
      (doc : Document) (q : Part u F) (ps rest : List (Part u F))
      → Backwards doc q ps
      → Linked doc (q ∷ rest)
      → Linked doc (reverse ps ++ q ∷ rest)
  Linked-whole doc q [] rest b h = h
  Linked-whole doc q (p ∷ ps) rest (j, b) h =
      rw (reverse-cons p ps, append_assoc) (Linked-whole doc p ps (q ∷ rest) b (j, h))

  abbrev Chain : Document → Open u F → Type 0
  Chain doc (q, ps) = Backwards doc q ps

  whole_Linked :
      (doc : Document) (q : Part u F) (ps : List (Part u F))
      → Backwards doc q ps
      → Linked doc (whole u F (q, ps))
  whole_Linked doc q ps b = rw (reverse-cons q ps) (Linked-whole doc q ps [] b tt)

  grown-Chain :
      (doc : Document) (q : Part u F) (ps : List (Part u F)) (part : Part u F)
      → Backwards doc q ps
      → (on : Bool) → follows u F doc q part ≡ some on
      → Chain doc (grown u F on part (q, ps))
  grown-Chain doc q ps part b true j = (j, b)
  grown-Chain doc q ps part b false j = tt

  -- One step of the loop, from what holds of the rest.
  placed :
      (doc : Document) (q : Part u F) (ps : List (Part u F)) (part : Part u F)
      (parts : List (Part u F))
      → Backwards doc q ps
      → (on : Bool) → follows u F doc q part ≡ some on
      → (rest : List (List (Part u F)))
      → (flatten u F rest ≡ whole u F (grown u F on part (q, ps)) ++ parts) × All (Linked doc) rest
      → (flatten u F (finished u F on (q, ps) rest) ≡ whole u F (q, ps) ++ part ∷ parts)
        × All (Linked doc) (finished u F on (q, ps) rest)
  placed doc q ps part parts b true j rest (e, h) =
      (e ∙ rw (reverse-cons part (q ∷ ps), append_assoc) refl, h)
  placed doc q ps part parts b false j rest (e, h) = (rw e refl, (whole_Linked doc q ps b, h))

  flatten_from :
      (doc : Document) (chain : Open u F) (parts : List (Part u F))
      → {linked : List (List (Part u F))} → Chain doc chain
      → chains_from u F doc chain parts ≡ some linked
      → (flatten u F linked ≡ whole u F chain ++ parts) × All (Linked doc) linked
  unfolding chains_from
  flatten_from doc (q, ps) [] b e =
      subst (λ l. (flatten u F l ≡ whole u F (q, ps) ++ []) × All (Linked doc) l)
        (some-injective _ _ e) (refl, (whole_Linked doc q ps b, tt))
  flatten_from doc (q, ps) (part ∷ parts) {linked} b e =
      let (on, j, f) = >>=-eq-some (follows u F doc q part) _ e in
      let (rest, g, k) = >>=-eq-some (chains_from u F doc (grown u F on part (q, ps)) parts) _ f in
      subst (λ l. (flatten u F l ≡ whole u F (q, ps) ++ part ∷ parts) × All (Linked doc) l)
        (some-injective _ _ k)
        (placed doc q ps part parts b on j rest
          (flatten_from doc (grown u F on part (q, ps)) parts (grown-Chain doc q ps part b on j) g))

  -- When the loop that builds the chains returns, the chains hold the parts in their order, each
  -- once; and within a chain each part begins at the end of the one before it or behind it, with at
  -- most three bytes between, all of them commas, semicolons and white space.
  pub chains-flatten :
      (doc : Document) (parts : List (Part u F))
      → {linked : List (List (Part u F))} → chains u F doc parts ≡ some linked
      → (flatten u F linked ≡ parts) × All (Linked doc) linked
  unfolding chains
  chains-flatten doc [] e =
      subst (λ l. (flatten u F l ≡ []) × All (Linked doc) l) (some-injective _ _ e) (refl, tt)
  chains-flatten doc (part ∷ parts) e = flatten_from doc (part, []) parts tt e
