-- ===== src/JsonPaths/Parse/Printed.antt =====
-- Paths that are written out and parsed.
use alfavibe_hack.Prelude.{
  ℕ, ◌^◌, ◌<◌, ◌≡◌, ◌≢◌, refl, true, [], ◌∷◌, ◌++◌, some, Text, text_Eq, arith, All, decimal,
  decimal-digits, decimal-nonempty, parse_usize-decimal, is_ascii_digit, parse_usize, append-nil,
  append_assoc, ◌>>=◌,
}
use alfavibe_hack.JsonPaths.{PathSegment, Path_}
use alfavibe_hack.JsonPaths.Parse.{Mode, close, enter, at_end, parse_from, parse_trimmed, step}

-- A key in quotes, a number or a star, in brackets.
unfoldable pub print_segment : PathSegment → Text → Text
print_segment (PathSegment.key k) rest = b'[' ∷ b'"' ∷ (k ++ (b'"' ∷ b']' ∷ rest))
print_segment (PathSegment.index n) rest = b'[' ∷ (decimal n ++ (b']' ∷ rest))
print_segment PathSegment.all_ rest = b'[' ∷ b'*' ∷ b']' ∷ rest

unfoldable pub print_from : Path_ → Text
print_from [] = []
print_from (p ∷ ps) = print_segment p (print_from ps)

unfoldable pub print_path : Path_ → Text
print_path path = b'$' ∷ print_from path

-- A key without a quote, and a number that is read back.
abbrev pub Printable : PathSegment → Type 0
Printable (PathSegment.key k) = All (λ c. c ≢ b'"') k
Printable (PathSegment.index n) = n < 2 ^ 64
Printable PathSegment.all_ = Unit

parse-quoted :
    (k done rest : Text)
    → All (λ c. c ≢ b'"') k
    → parse_from (Mode.quoted done) (k ++ (b'"' ∷ b']' ∷ rest))
      ≡ (parse_from Mode.between rest >>= λ p. some (PathSegment.key (done ++ k) ∷ p))
unfolding parse_from step close
parse-quoted [] done rest h = rw (append-nil done) (ground arith)
parse-quoted (c ∷ cs) done rest (other, h) =
    ground (arith, parse-quoted cs (done ++ c ∷ []) rest h, append_assoc done (c ∷ []) cs)

parse-digits :
    (ds done rest : Text)
    → All (λ c. is_ascii_digit c ≡ true) ds
    → parse_from (Mode.digits done) (ds ++ (b']' ∷ rest)) ≡ (
        parse_usize (done ++ ds) >>= λ n.
        parse_from Mode.between rest >>= λ p. some (PathSegment.index n ∷ p))
unfolding parse_from step close
parse-digits [] done rest h = rw (append-nil done) (ground arith)
parse-digits (c ∷ cs) done rest (digit, h) =
    ground (arith, parse-digits cs (done ++ c ∷ []) rest h, append_assoc done (c ∷ []) cs)

parse-number :
    (n : ℕ) (ds rest : Text)
    → All (λ c. is_ascii_digit c ≡ true) ds
    → ds ≢ []
    → parse_usize ds ≡ some n
    → parse_from Mode.between (b'[' ∷ (ds ++ (b']' ∷ rest)))
      ≡ (parse_from Mode.between rest >>= λ p. some (PathSegment.index n ∷ p))
unfolding parse_from step enter
parse-number n [] rest h some_ read = absurd (some_ refl)
parse-number n (c ∷ cs) rest (digit, h) some_ read = ground (arith, parse-digits cs (c ∷ []) rest h)

parse-segment :
    (p : PathSegment) (rest : Text)
    → Printable p
    → parse_from Mode.between (print_segment p rest)
      ≡ (parse_from Mode.between rest >>= λ ps. some (p ∷ ps))
unfolding print_segment parse_from step enter close
parse-segment (PathSegment.key k) rest h = ground (arith, parse-quoted k [] rest h)
parse-segment (PathSegment.index n) rest h =
    parse-number n (decimal n) rest (decimal-digits n) (decimal-nonempty n)
      (parse_usize-decimal n h)
parse-segment PathSegment.all_ rest h = ground arith

parse-print_from :
    (path : Path_) → All Printable path → parse_from Mode.between (print_from path) ≡ some path
unfolding print_from parse_from at_end
parse-print_from [] h = refl
parse-print_from (p ∷ ps) (here, h) =
    rw (parse-segment p (print_from ps) here, parse-print_from ps h) refl

-- A path of keys without quotes, of numbers below 2 ^ 64 and of stars is written out as
-- `$["key"][0][*]` and so on, and `parse_path` reads that path from it, apart from the trimming.
pub parse_trimmed-print_path :
    (path : Path_) → All Printable path → parse_trimmed (print_path path) ≡ some path
unfolding parse_trimmed print_path
parse_trimmed-print_path path h = parse-print_from path h
