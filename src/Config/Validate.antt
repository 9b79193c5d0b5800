-- ===== src/Config/Validate.antt =====
-- `validate` of src/config/loader.rs: what a configuration has to agree on with itself.
use alfavibe_hack.Prelude.{
  ℕ, suc, ◌+◌, ◌≡◌, refl, Bool, true, false, not, ◌&&◌, ◌↔◌, List, [], ◌∷◌, ◌++◌, Option, none,
  some, Text, text_Eq, utf8, decimal, length, eqb, any, all, All, Option-cases, inl, inr, ◌==◌,
}
use alfavibe_hack.Prelude.Maps.{contains_key, get}
use alfavibe_hack.Domain.PdType.{PdType}
use alfavibe_hack.Config.Profile.{ProfileConfig, RouteConfig, RouteMatch}

-- `ConfigError::Validation`
pub data ConfigError : Type 0 where
  validation : Text → Text → ConfigError

-- The parts of `Config` that `validate` reads; of the types and the upstreams it reads the keys, of
-- a system the profile.
pub record Config : Type 0 where
  pub pd_types : List PdType
  pub profiles : List (Text × ProfileConfig)
  pub system_profiles : List (Text × Text)
  pub default_profile : Text
  pub upstreams : List Text
  pub routes : List RouteConfig

abbrev among : List Text → Text → Bool
among keys k = any (λ j. j == k) keys

-- `is_empty() || contains_key(..)`
abbrev names : (Text → Bool) → Text → Bool
names known [] = true
names known (c ∷ cs) = known (c ∷ cs)

-- The first error that a loop returns.
abbrev first_error {ℓ} : {A : Type ℓ} → (A → Option ConfigError) → List A → Option ConfigError
first_error check [] = none
first_error check (x ∷ xs) = elim (check x) [ some e ↦ some e | none ↦ first_error check xs ]

abbrev unless : Bool → Text → Text → Option ConfigError
unless true path msg = none
unless false path msg = some (ConfigError.validation path msg)

abbrev quoted : Text → Text
quoted name = utf8 "'" ++ name ++ utf8 "'"

-- `==` of two hash maps.
abbrev same_headers : List (Text × Text) → List (Text × Text) → Bool
same_headers h k =
    eqb (length h) (length k) && all (λ p. elim (get p.0 k) [ none ↦ false | some w ↦ p.1 == w ]) h

unfoldable pub same_match : RouteMatch → RouteMatch → Bool
same_match a b =
    (a.method == b.method)
    && (a.path == b.path)
    && (a.path_prefix == b.path_prefix)
    && same_headers a.header b.header

unfoldable pub check_types : Config → Text × ProfileConfig → Option ConfigError
check_types cfg (name, profile) =
    first_error
      (λ t.
        unless (among cfg.pd_types t.0) (utf8 "profiles." ++ name ++ utf8 ".types." ++ t.0)
          (utf8 "type not declared in pd_types"))
      profile.types

unfoldable pub check_profile : Config → Text → Text → Option ConfigError
check_profile cfg path profile =
    unless (names (λ p. contains_key p cfg.profiles) profile) path
      (utf8 "unknown profile " ++ quoted profile)

unfoldable pub check_upstream : Config → RouteConfig → Option ConfigError
check_upstream cfg r =
    unless (names (among cfg.upstreams) r.upstream) (utf8 "routes." ++ r.id ++ utf8 ".upstream")
      (utf8 "unknown upstream " ++ quoted r.upstream)

abbrev route_pair : ℕ → RouteConfig → RouteConfig → Option ConfigError
route_pair i a b =
    unless (not (same_match a.match_ b.match_))
      (utf8 "routes[" ++ decimal i ++ utf8 "] vs routes[" ++ decimal (i + 1) ++ utf8 "]")
      (utf8 "duplicate route match without distinguishing condition")

abbrev or_else : Option ConfigError → Option ConfigError → Option ConfigError
or_else (some e) rest = some e
or_else none rest = rest

-- The two loops over the routes, from the one with the index `i` on.
unfoldable pub check_pairs : ℕ → List RouteConfig → Option ConfigError
unfolding same_match
check_pairs i [] = none
check_pairs i (a ∷ rs) =
    let rest = check_pairs (suc i) rs in or_else (first_error (route_pair i a) rs) rest

-- `none` is `Ok(())`.
unfoldable pub validate : Config → Option ConfigError
unfolding check_types check_profile check_upstream check_pairs
validate cfg = or_else (first_error (check_types cfg) cfg.profiles) (
    or_else
      (first_error (λ s. check_profile cfg (utf8 "systems." ++ s.0 ++ utf8 ".profile") s.1)
        cfg.system_profiles)
      (or_else (check_profile cfg (utf8 "defaults.profile") cfg.default_profile)
        (or_else (first_error (check_upstream cfg) cfg.routes) (check_pairs 0 cfg.routes))))

-- What a consistent configuration is.
abbrev Apart : List RouteConfig → Type 0
Apart [] = Unit
Apart (a ∷ rs) = All (λ b. same_match a.match_ b.match_ ≡ false) rs × Apart rs

abbrev pub IsConsistent : Config → Type 0
IsConsistent cfg =
    All (λ p. All (λ t. among cfg.pd_types t.0 ≡ true) p.1.types) cfg.profiles
    × All (λ s. names (λ p. contains_key p cfg.profiles) s.1 ≡ true) cfg.system_profiles
    × (names (λ p. contains_key p cfg.profiles) cfg.default_profile ≡ true)
    × All (λ r. names (among cfg.upstreams) r.upstream ≡ true) cfg.routes
    × Apart cfg.routes

first_error_iff {ℓ κ} :
    {A : Type ℓ} (P : A → Type κ) (check : A → Option ConfigError)
    → ((x : A) → (check x ≡ none) ↔ P x)
    → (xs : List A) → (first_error check xs ≡ none) ↔ All P xs
first_error_iff P check each [] = (λ e. tt, λ h. refl)
first_error_iff P check each (x ∷ xs) = elim (Option-cases (check x)) [
  | inl ok ↦
      let rest = first_error_iff P check each xs in
      rw (ok, first_error) ((λ e. ((each x).0 ok, rest.0 e)), (λ h. rest.1 h.1))
  | inr (e, bad) ↦
      rw (bad, first_error) ((λ h. absurd (cc h)), (λ h. absurd (cc (bad, (each x).1 h.0))))
]

unless_iff : (b : Bool) (path msg : Text) → (unless b path msg ≡ none) ↔ (b ≡ true)
unless_iff true path msg = (λ _. refl, λ _. refl)
unless_iff false path msg = (λ e. absurd (cc e), λ e. absurd (cc e))

or_else_iff : (a b : Option ConfigError) → (or_else a b ≡ none) ↔ ((a ≡ none) × (b ≡ none))
or_else_iff (some e) b = (λ h. absurd (cc h), λ h. absurd (cc h.0))
or_else_iff none b = (λ h. (refl, h), λ h. h.1)

not_iff : (b : Bool) → (not b ≡ true) ↔ (b ≡ false)
not_iff true = (λ e. absurd (cc e), λ e. absurd (cc e))
not_iff false = (λ _. refl, λ _. refl)

check_pairs_iff : (i : ℕ) (rs : List RouteConfig) → (check_pairs i rs ≡ none) ↔ Apart rs
unfolding check_pairs
check_pairs_iff i [] = (λ _. tt, λ _. refl)
check_pairs_iff i (a ∷ rs) =
    let both = or_else_iff (first_error (route_pair i a) rs) (check_pairs (suc i) rs) in
    let first =
      first_error_iff (λ b. same_match a.match_ b.match_ ≡ false) (route_pair i a)
        (λ b.
          let test = unless_iff (not (same_match a.match_ b.match_)) _ _ in
          let flip = not_iff (same_match a.match_ b.match_) in
          (λ e. flip.0 (test.0 e), λ e. test.1 (flip.1 e)))
        rs in
    let rest = check_pairs_iff (suc i) rs in
    (λ e. (first.0 (both.0 e).0, rest.0 (both.0 e).1), λ h. both.1 (first.1 h.0, rest.1 h.1))

check_types_iff :
    (cfg : Config) (p : Text × ProfileConfig)
    → (check_types cfg p ≡ none) ↔ All (λ t. among cfg.pd_types t.0 ≡ true) p.1.types
unfolding check_types
check_types_iff cfg (name, profile) =
    first_error_iff (λ t. among cfg.pd_types t.0 ≡ true) _ (λ t. unless_iff _ _ _) profile.types

check_profile_iff :
    (cfg : Config) (path profile : Text)
    → (check_profile cfg path profile ≡ none)
      ↔ (names (λ p. contains_key p cfg.profiles) profile ≡ true)
unfolding check_profile
check_profile_iff cfg path profile = unless_iff _ _ _

check_upstream_iff :
    (cfg : Config) (r : RouteConfig)
    → (check_upstream cfg r ≡ none) ↔ (names (among cfg.upstreams) r.upstream ≡ true)
unfolding check_upstream
check_upstream_iff cfg r = unless_iff _ _ _

both_iff {ℓ κ} :
    {P : Type ℓ} {Q : Type κ} {a b : Option ConfigError}
    → (a ≡ none) ↔ P
    → (b ≡ none) ↔ Q
    → (or_else a b ≡ none) ↔ (P × Q)
both_iff {a} {b} p q = (
  λ e. let (l, r) = (or_else_iff a b).0 e in (p.0 l, q.0 r),
  λ h. (or_else_iff a b).1 (p.1 h.0, q.1 h.1),
)

-- `validate` accepts a configuration exactly when every type of a profile is declared, every profile
-- that a system or the defaults name exists, every upstream that a route names exists, and no two
-- routes have the same match.
pub validate_iff : (cfg : Config) → (validate cfg ≡ none) ↔ IsConsistent cfg
unfolding validate
validate_iff cfg =
    let types =
      first_error_iff (λ p. All (λ t. among cfg.pd_types t.0 ≡ true) p.1.types) (check_types cfg)
        (check_types_iff cfg) cfg.profiles in
    let systems =
      first_error_iff (λ s. names (λ p. contains_key p cfg.profiles) s.1 ≡ true) _
        (λ s. check_profile_iff cfg _ s.1) cfg.system_profiles in
    let default = check_profile_iff cfg (utf8 "defaults.profile") cfg.default_profile in
    let upstreams =
      first_error_iff (λ r. names (among cfg.upstreams) r.upstream ≡ true) (check_upstream cfg)
        (check_upstream_iff cfg) cfg.routes in
    let pairs = check_pairs_iff 0 cfg.routes in
    let all_ = both_iff types (both_iff systems (both_iff default (both_iff upstreams pairs))) in
    (
      λ e. let (a, (b, (c, (d, f)))) = all_.0 e in (a, b, c, d, f),
      λ (a, b, c, d, f). all_.1 (a, (b, (c, (d, f)))),
    )
