-- ===== src/JsonPaths.antt =====
-- src/service/json_paths.rs: the strings at a path of a JSON value.
pub mod Replaced
pub mod Parse
use alfavibe_hack.Prelude.{
  ℕ, zero, suc, Bool, List, [], ◌∷◌, ◌++◌, Text, text_Eq, if◌then◌else◌, ◌==◌,
}

-- The members of an object stand in a list: the first one with a key counts.
mutual
  pub data Value : Type 0 where
    null : Value
    bool : Bool → Value
    number : Text → Value
    string : Text → Value
    array : Values → Value
    object : Members → Value

  pub data Values : Type 0 where
    none_ : Values
    item : Value → Values → Values

  pub data Members : Type 0 where
    empty : Members
    member : Text → Value → Members → Members

pub data PathSegment : Type 0 where
  key : Text → PathSegment
  index : ℕ → PathSegment
  all_ : PathSegment

abbrev pub Path_ : Type 0
Path_ = List PathSegment

-- What `g` gives for the member, the item, or all items in turn.
module _ (g : Value → List Text) where
  unfoldable pub of_member : Text → Members → List Text
  of_member k empty = []
  of_member k (member j v ms) = if j == k then g v else of_member k ms

  unfoldable pub of_item : ℕ → Values → List Text
  of_item n none_ = []
  of_item zero (item v vs) = g v
  of_item (suc n) (item v vs) = of_item n vs

  unfoldable pub of_items : Values → List Text
  of_items none_ = []
  of_items (item v vs) = g v ++ of_items vs

unfoldable pub extract : Path_ → Value → List Text
extract [] (string s) = s ∷ []
extract [] _ = []
extract (key k ∷ path) (object ms) = of_member (extract path) k ms
extract (key k ∷ path) _ = []
extract (index n ∷ path) (array vs) = of_item (extract path) n vs
extract (index n ∷ path) _ = []
extract (all_ ∷ path) (array vs) = of_items (extract path) vs
extract (all_ ∷ path) _ = []

-- The caller's function may change a state of its own with every string.
module _ {S : Type 0} (h : Value → S → Value × S) where
  unfoldable pub in_member : Text → Members → S → Members × S
  in_member k empty s = (empty, s)
  in_member k (member j v ms) s =
      let (w, t) = h v s in
      let (rest, t') = in_member k ms s in
      if j == k then (member j w ms, t) else (member j v rest, t')

  unfoldable pub in_item : ℕ → Values → S → Values × S
  in_item n none_ s = (none_, s)
  in_item zero (item v vs) s = let (w, t) = h v s in (item w vs, t)
  in_item (suc n) (item v vs) s = let (rest, t) = in_item n vs s in (item v rest, t)

  unfoldable pub in_items : Values → S → Values × S
  in_items none_ s = (none_, s)
  in_items (item v vs) s = let (w, t) = h v s in let (rest, t') = in_items vs t in (item w rest, t')

-- `replace`, and `replace_async`, which awaits the function in the same order.
unfoldable pub replace : {S : Type 0} → Path_ → (Text → S → Text × S) → Value → S → Value × S
replace [] f (string x) s = let (y, t) = f x s in (string y, t)
replace [] f v s = (v, s)
replace (key k ∷ path) f (object ms) s =
    let (ms', t) = in_member (replace path f) k ms s in (object ms', t)
replace (key k ∷ path) f v s = (v, s)
replace (index n ∷ path) f (array vs) s =
    let (vs', t) = in_item (replace path f) n vs s in (array vs', t)
replace (index n ∷ path) f v s = (v, s)
replace (all_ ∷ path) f (array vs) s =
    let (vs', t) = in_items (replace path f) vs s in (array vs', t)
replace (all_ ∷ path) f v s = (v, s)
