-- ===== src/JsonPaths/Replaced.antt =====
-- `replace` against `extract` of src/service/json_paths.rs.
use alfavibe_hack.Prelude.{
  ℕ, zero, suc, ◌≡◌, refl, ap, List, [], ◌∷◌, ◌++◌, Text, text_Eq, Bool-cases, inl, inr, ◌==◌,
}
use alfavibe_hack.JsonPaths.{
  Members, Path_, Value, Values, all_, array, bool, empty, extract, in_item, in_items, in_member,
  index, item, key, member, none_, null, number, object, of_item, of_items, of_member, replace,
  string,
}

module _ {S : Type 0} (f : Text → S → Text × S) where
  -- The function on every string of a list, from left to right.
  unfoldable pub run_over : List Text → S → List Text × S
  run_over [] s = ([], s)
  run_over (x ∷ xs) s = let (y, t) = f x s in let (ys, t') = run_over xs t in (y ∷ ys, t')

  pub run_over-append :
      (xs ys : List Text) (s : S)
      → run_over (xs ++ ys) s ≡ (
        (run_over xs s).0 ++ (run_over ys (run_over xs s).1).0,
        (run_over ys (run_over xs s).1).1,
      )
  unfolding run_over
  run_over-append [] ys s = refl
  run_over-append (x ∷ xs) ys s = rw (run_over-append xs ys (f x s).1) refl

  -- `h` replaces just what `g` extracts.
  abbrev Agree : (Value → List Text) → (Value → S → Value × S) → Type 0
  Agree g h = (v : Value) (s : S) → (g (h v s).0, (h v s).1) ≡ run_over (g v) s

  module _ (g : Value → List Text) (h : Value → S → Value × S) (agree : Agree g h) where
    of_member-in_member :
        (k : Text) (ms : Members) (s : S)
        → (of_member g k (in_member h k ms s).0, (in_member h k ms s).1)
          ≡ run_over (of_member g k ms) s
    unfolding of_member in_member run_over
    of_member-in_member k empty s = refl
    of_member-in_member k (member j v ms) s = elim (Bool-cases (j == k)) [
      | inl same ↦ rw (same, of_member, same) (agree v s)
      | inr other ↦ rw (other, of_member, other) (of_member-in_member k ms s)
    ]

    of_item-in_item :
        (n : ℕ) (vs : Values) (s : S)
        → (of_item g n (in_item h n vs s).0, (in_item h n vs s).1) ≡ run_over (of_item g n vs) s
    unfolding of_item in_item run_over
    of_item-in_item zero none_ s = refl
    of_item-in_item (suc n) none_ s = refl
    of_item-in_item zero (item v vs) s = agree v s
    of_item-in_item (suc n) (item v vs) s = of_item-in_item n vs s

    of_items-in_items :
        (vs : Values) (s : S)
        → (of_items g (in_items h vs s).0, (in_items h vs s).1) ≡ run_over (of_items g vs) s
    unfolding of_items in_items run_over
    of_items-in_items none_ s = refl
    of_items-in_items (item v vs) s =
        let first : g (h v s).0 ≡ (run_over (g v) s).0 = ap (λ p. p.0) (agree v s) in
        let after : (h v s).1 ≡ (run_over (g v) s).1 = ap (λ p. p.1) (agree v s) in
        let rest = of_items-in_items vs (run_over (g v) s).1 in
        rw (run_over-append (g v) (of_items g vs) s, ← rest, ← after, ← first) refl

  -- Replacing at a path runs the function once on every string that the path extracts, in order and
  -- with its state handed on, and the path then extracts the results.
  pub extract-replace :
      (path : Path_) (v : Value) (s : S)
      → (extract path (replace path f v s).0, (replace path f v s).1) ≡ run_over (extract path v) s
  unfolding extract replace run_over
  extract-replace [] (string x) s = refl
  extract-replace [] null s = refl
  extract-replace [] (bool b) s = refl
  extract-replace [] (number n) s = refl
  extract-replace [] (array vs) s = refl
  extract-replace [] (object ms) s = refl
  extract-replace (key k ∷ path) (object ms) s =
      of_member-in_member (extract path) (replace path f) (extract-replace path) k ms s
  extract-replace (key k ∷ path) null s = refl
  extract-replace (key k ∷ path) (bool b) s = refl
  extract-replace (key k ∷ path) (number n) s = refl
  extract-replace (key k ∷ path) (string x) s = refl
  extract-replace (key k ∷ path) (array vs) s = refl
  extract-replace (index n ∷ path) (array vs) s =
      of_item-in_item (extract path) (replace path f) (extract-replace path) n vs s
  extract-replace (index n ∷ path) null s = refl
  extract-replace (index n ∷ path) (bool b) s = refl
  extract-replace (index n ∷ path) (number x) s = refl
  extract-replace (index n ∷ path) (string x) s = refl
  extract-replace (index n ∷ path) (object ms) s = refl
  extract-replace (all_ ∷ path) (array vs) s =
      of_items-in_items (extract path) (replace path f) (extract-replace path) vs s
  extract-replace (all_ ∷ path) null s = refl
  extract-replace (all_ ∷ path) (bool b) s = refl
  extract-replace (all_ ∷ path) (number n) s = refl
  extract-replace (all_ ∷ path) (string x) s = refl
  extract-replace (all_ ∷ path) (object ms) s = refl
