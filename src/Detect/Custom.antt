-- ===== src/Detect/Custom.antt =====
-- `ConfigRegexDetector` of src/service/detect/mod.rs, the detector that a configuration declares, and
-- `get_validator` of validators.rs.
use alfavibe_hack.Prelude.{
  ◌>>=◌, ℕ, Bool, true, false, List, Option, none, some, Text, text_Eq, utf8, if◌then◌else◌, ◌==◌,
}
use alfavibe_hack.Domain.Candidate.{Candidate, SignalFlags, custom}
use alfavibe_hack.Domain.Document.{Document}
use alfavibe_hack.Domain.Float32.{Float32}
use alfavibe_hack.Domain.PdType.{PdType}
use alfavibe_hack.Domain.Unicode.{Unicode}
use alfavibe_hack.Context.{has_any_word}
use alfavibe_hack.Context.Scorer.{lowered, raised}
use alfavibe_hack.Validators.{
  ValidationResult, valid, invalid, not_applicable, luhn_validate, inn_validate, snils_validate,
}
use alfavibe_hack.Validators.Dates.{date_validate}
use alfavibe_hack.Detect.{
  CapturesIter, Found, Captures, collect, guarded, matched, around, origin, emit,
}
use alfavibe_hack.Detect.Passport.{passport_series_validate}

-- A validator, with the panics that it can have.
abbrev pub Validator : Type 0
Validator = Text → Option ValidationResult

-- `get_validator`, with the year that the clock tells.
unfoldable pub get_validator : ℕ → Text → Option Validator
get_validator year name =
    if name == utf8 "luhn"
    then some (λ raw. some (luhn_validate raw))
    else if name == utf8 "inn"
    then some inn_validate
    else if name == utf8 "snils"
    then some snils_validate
    else if name == utf8 "date"
    then some (λ raw. some (date_validate raw))
    else if name == utf8 "passport_series"
    then some (λ raw. some (passport_series_validate year raw))
    else none

abbrev is_valid : ValidationResult → Bool
is_valid valid = true
is_valid invalid = false
is_valid not_applicable = false

abbrev passes : Option Validator → Text → Option Bool
passes none value = some false
passes (some v) value = do result ← v value; some (is_valid result)

-- The match on the name of the validator: four names are known here.
unfoldable pub checksum_of : ℕ → Text → Text → Option Bool
unfolding get_validator
checksum_of year validator value =
    if validator == utf8 "luhn"
    then passes (get_validator year (utf8 "luhn")) value
    else if validator == utf8 "inn"
    then passes (get_validator year (utf8 "inn")) value
    else if validator == utf8 "snils"
    then passes (get_validator year (utf8 "snils")) value
    else if validator == utf8 "date"
    then passes (get_validator year (utf8 "date")) value
    else some false

abbrev value_range : Found → Option Found → Found
value_range m none = m
value_range m (some c) = c

module _ (u : Unicode) (F : Float32) where
  pub record ConfigRegex : Type 0 where
    pub pd_type : PdType
    pub value_group : Text
    pub validator : Text
    pub base_score : F.Carrier
    pub context_pos : List Text
    pub context_neg : List Text

  abbrev Pushed : Type 0
  Pushed = Option (List (Candidate F.Carrier))

  abbrev flags : Bool → Bool → Bool → SignalFlags
  flags ok pos neg = record {
    checksum_ok = ok;
    context_pos = pos;
    context_neg = neg;
    dict_hit = false;
    capitalized_original = false;
    validated = false;
  }

  unfoldable pub custom_round : ℕ → ConfigRegex → Document → Captures → Pushed
  unfolding checksum_of raised lowered
  custom_round year d doc caps = guarded doc caps.whole (do
    value ← matched doc (value_range caps.whole (caps.name d.value_group))
    span ← origin doc (value_range caps.whole (caps.name d.value_group))
    ok ← checksum_of year d.validator value
    w ← around doc caps.whole
    let pos = has_any_word u w d.context_pos in
        let neg = has_any_word u w d.context_neg in
        emit d.pd_type span (lowered F neg (raised F pos d.base_score))
          (custom (utf8 "config_regex")) (flags ok pos neg))

  unfoldable pub custom_detect : ℕ → ConfigRegex → CapturesIter → Document → Pushed
  unfolding custom_round
  custom_detect year d re doc = collect (custom_round year d doc) (re doc.norm)
