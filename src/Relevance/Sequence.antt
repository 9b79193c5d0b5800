-- ===== src/Relevance/Sequence.antt =====
-- `contains_token_sequence` of src/service/relevance.rs against its description.
use alfavibe_hack.Prelude.{
  suc, ◌≡◌, refl, true, false, List, [], ◌∷◌, ◌++◌, Text, text_Eq, ==_refl, leb, ltb, any, length,
  take, length-append, arith,
}
use alfavibe_hack.Relevance.{contains_token_sequence, same_words, windows}

same_words-front : (xs ys : List Text) → same_words (take (length xs) (xs ++ ys)) xs ≡ true
unfolding same_words
same_words-front [] [] = refl
same_words-front [] (y ∷ ys) = refl
same_words-front (x ∷ xs) ys = rw (==_refl x) (same_words-front xs ys)

windows-found :
    (front back : List Text) (n : Text) (needle : List Text)
    → any
        (λ w. same_words w (n ∷ needle))
        (windows (length (n ∷ needle)) (front ++ ((n ∷ needle) ++ back)))
      ≡ true
unfolding windows
windows-found [] back n needle =
    let fits : leb (suc (length needle)) (suc (length (needle ++ back))) ≡ true =
      ground (arith, length-append needle back) in
    rw (fits, same_words-front (n ∷ needle) back) refl
windows-found (x ∷ front) back n needle =
    let fits : leb (suc (length needle)) (suc (length (front ++ ((n ∷ needle) ++ back)))) ≡ true =
      ground (arith, length-append front ((n ∷ needle) ++ back), length-append (n ∷ needle) back) in
    rw fits (ground (arith, windows-found front back n needle))

-- Words that stand one after the other somewhere in a text are found there.
pub contains_token_sequence-found :
    (front back : List Text) (n : Text) (needle : List Text)
    → contains_token_sequence (front ++ ((n ∷ needle) ++ back)) (n ∷ needle) ≡ true
unfolding contains_token_sequence
contains_token_sequence-found front back n needle =
    let fits : ltb (length (front ++ ((n ∷ needle) ++ back))) (length (n ∷ needle)) ≡ false =
      ground (arith, length-append front ((n ∷ needle) ++ back), length-append (n ∷ needle) back) in
    rw (fits, windows-found front back n needle) refl
