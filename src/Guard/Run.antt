-- ===== src/Guard/Run.antt =====
-- The outcome of a fallible call: a value, an error of src/domain/errors.rs, or a panic.
use alfavibe_hack.Prelude.{Text, Option, none, some, ◌≡◌, refl}

pub data VaultError : Type 0 where
  unavailable crypto serialization internal : Text → VaultError

pub data Run {ℓ} (A : Type ℓ) : Type ℓ where
  returned : A → Run A
  failed : VaultError → Run A
  panicked : Run A

-- The `?` of the source.
infixl 5 ◌>>=◌
abbrev pub ◌>>=◌ {ℓ κ} : {A : Type ℓ} {B : Type κ} → Run A → (A → Run B) → Run B
returned a >>= f = f a
failed e >>= f = failed e
panicked >>= f = panicked

abbrev pub of_option {ℓ} : {A : Type ℓ} → Option A → Run A
of_option none = panicked
of_option (some a) = returned a

-- The value of a call or the text of its error, as third-party code returns it.
pub data Result {ℓ} (A : Type ℓ) : Type ℓ where
  ok : A → Result A
  error : Text → Result A

-- `map_err(..)?`
abbrev pub map_err {ℓ} : {A : Type ℓ} → (Text → VaultError) → Result A → Run A
map_err f (ok a) = returned a
map_err f (error e) = failed (f e)

-- Either it returns, or it does not and the chain after it does not.
pub data Case {ℓ} {A : Type ℓ} (m : Run A) : Type ℓ where
  returns : (a : A) → m ≡ returned a → Case m
  fails : (e : VaultError) → m ≡ failed e → Case m
  panics : m ≡ panicked → Case m

pub Run-cases {ℓ} : {A : Type ℓ} (m : Run A) → Case m
Run-cases (returned a) = returns a refl
Run-cases (failed e) = fails e refl
Run-cases panicked = panics refl
