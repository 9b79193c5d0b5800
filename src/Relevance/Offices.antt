-- ===== src/Relevance/Offices.antt =====
-- `BankAllowlistFilter` of src/service/relevance.rs near an office of the bank.
use alfavibe_hack.Prelude.{
  ◌≡◌, refl, Bool, true, false, List, [], ◌∷◌, ◌++◌, some, Text, text_Eq, any, In, here, there,
  arith,
}
use alfavibe_hack.Domain.Candidate
use alfavibe_hack.Domain.Candidate.{Candidate}
use alfavibe_hack.Domain.Document.{Document, original_slice}
use alfavibe_hack.Domain.Unicode.{Unicode, split_whitespace}
use alfavibe_hack.Relevance.{
  BankAllowlist, contains_token_sequence, keep_allowlist, normalize_for_compare, window_original,
}
use alfavibe_hack.Relevance.Sequence.{contains_token_sequence-found}

any-In :
    (p : List Text → Bool) (x : List Text) (xs : List (List Text))
    → In x xs
    → p x ≡ true
    → any p xs ≡ true
any-In p x [] i h = elim i [ ]
any-In p x (_ ∷ xs) here h = rw h refl
any-In p x (y ∷ xs) (there i) h = ground (arith, any-In p x xs i h)

-- The words of a known office stand one after the other in the 60 bytes around a candidate. Then the
-- filter drops the candidate, of whatever type it is.
pub keep_allowlist-near :
    {S : Type 0} (u : Unicode) (bank : BankAllowlist) (doc : Document) (cand : Candidate S)
    (orig near w : Text) (office front back : List Text)
    → original_slice doc (Candidate.span cand) ≡ some orig
    → window_original doc cand 60 60 ≡ some near
    → split_whitespace u (normalize_for_compare u near) ≡ front ++ ((w ∷ office) ++ back)
    → In (w ∷ office) bank.office_tokens
    → keep_allowlist u bank doc cand ≡ some false
unfolding keep_allowlist
keep_allowlist-near u bank doc cand orig near w office front back sliced around words known =
    let hit : any
          (λ o. contains_token_sequence (split_whitespace u (normalize_for_compare u near)) o)
          bank.office_tokens
        ≡ true =
      any-In (λ o. contains_token_sequence (split_whitespace u (normalize_for_compare u near)) o)
        (w ∷ office) bank.office_tokens known
        (rw words (contains_token_sequence-found front back w office)) in
    rw (sliced, around, hit) refl
