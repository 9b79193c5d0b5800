-- ===== src/Tests/Configs.antt =====
-- A configuration with one system and one profile.
use alfavibe_hack.Prelude.{
  ℕ, ◌≡◌, ◌↔◌, refl, true, false, false, ◌||◌, ◌&&◌, [], ◌∷◌, none, some, utf8, text_eq, text_Eq,
  any, ◌==◌,
}
use alfavibe_hack.Prelude.Maps.{get, insert}
use alfavibe_hack.Combination.{holds}
use alfavibe_hack.Domain.PdType.{address, addr_city, fio}
use alfavibe_hack.Domain.Policy.{EffectivePolicy}
use alfavibe_hack.Config.Profile.{CompiledConfig, ProfileConfig, RouteConfig}
use alfavibe_hack.Config.Effective.{
  add_component, add_components, add_type, add_types, build_effective, component_types,
  enable_address_components, kind_of, start_effective,
}
use alfavibe_hack.Config.Policy.{
  Resolved, admits, base_profile, demask_allowed, demask_of, merge_route, merge_route_override,
  merged_profile, resolve_policy, route_of,
}
use alfavibe_hack.Config.Validate.{Config, IsConsistent, validate, validate_iff}
use alfavibe_hack.Config.Resolver.{compiled, resolve, resolve-compiled}
use alfavibe_hack.Config.Demasking.{resolve_policy-demask}
use alfavibe_hack.Config.Types.{build_effective-types, enabled_in, wants_components}

abbrev profile : ProfileConfig
profile = record {
  types =
      (fio, record { mask = none; mode = none; keep_last = none; disabled = some true })
      ∷ (
        address,
        record {
          mask = some (utf8 "redact");
          mode = some (utf8 "components");
          keep_last = none;
          disabled = none;
        },
      )
      ∷ [];
  ner = record { enabled = false; types = []; on_failure = none };
  filters = [];
  combination = record { rules = []; min_distinct_types = 0; always_mask = [] };
  ambiguous_ids = none;
  demask = none;
}

abbrev pub config : CompiledConfig ℕ
config = record {
  system_enabled = (utf8 "a", true) ∷ [];
  system_profile = (utf8 "a", utf8 "p") ∷ [];
  system_overrides = [];
  system_route_overrides = [];
  system_demask = (utf8 "a", true) ∷ [];
  routes = [];
  profiles = (utf8 "p", profile) ∷ [];
  default_profile = [];
  default_action = utf8 "mask";
  placeholder_format = utf8 "[{label}_{n}]";
  labels = [];
  thresholds = [];
  priorities = [];
  max_windows_per_request = 0;
  trigger_words = [];
  policies = [];
}

build_effective-types_example :
    holds (build_effective config profile true (utf8 "mask")).types addr_city ≡ (
      enabled_in profile.types addr_city
      || (wants_components profile.types
          && enabled_in profile.types address
          && any (λ u. u == addr_city) component_types))
build_effective-types_example = build_effective-types config profile true (utf8 "mask") addr_city

abbrev built : EffectivePolicy ℕ
built = build_effective config profile true (utf8 "mask")

resolved_run : resolve_policy config (utf8 "a") none ≡ Resolved.resolved built
unfolding resolve_policy get text_eq admits route_of merged_profile merge_route merge_route_override
    base_profile demask_allowed
resolved_run = refl

allowed_run : built.demask ≡ true
unfolding build_effective enable_address_components add_types add_type add_components add_component
    start_effective get insert text_eq holds kind_of
allowed_run = refl

resolve_policy-demask_example :
    (get (utf8 "a") config.system_enabled ≡ some true)
    × (admits (route_of config none) (utf8 "a") ≡ true)
    × (get (utf8 "a") config.system_demask ≡ some true)
    × (demask_of (route_of config none) ≡ true)
resolve_policy-demask_example =
    resolve_policy-demask config (utf8 "a") none built resolved_run allowed_run

resolve-compiled_example :
    resolve (compiled config) (utf8 "A") none ≡ resolve_policy config (utf8 "A") none
resolve-compiled_example = resolve-compiled config (utf8 "A") none

abbrev chat : RouteConfig
chat = record {
  id = utf8 "chat";
  systems = [];
  profile_override = none;
  types_override = [];
  response_demask = false;
  match_ = record { method = utf8 "POST"; path = utf8 "/chat"; path_prefix = []; header = [] };
  upstream = utf8 "llm";
  json_paths = [];
  response_json_paths = [];
  action = none;
}

abbrev file : Config
file = record {
  pd_types = fio ∷ address ∷ [];
  profiles = (utf8 "p", profile) ∷ [];
  system_profiles = (utf8 "a", utf8 "p") ∷ [];
  default_profile = [];
  upstreams = utf8 "llm" ∷ [];
  routes = chat ∷ [];
}

file_accepted : validate file ≡ none
unfolding validate get text_eq
file_accepted = refl

validate_iff_example : (validate file ≡ none) ↔ IsConsistent file
validate_iff_example = validate_iff file
