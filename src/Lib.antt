-- ===== src/Lib.antt =====
-- A model of alfavibe-hack, a service that masks personal data in texts before they are sent to a
-- language model, and puts them back into its answers.
--
-- A request goes through src/controller to `GuardService` (src/service/guard_service.rs), which runs
-- `mask_line` (src/service/pipeline.rs) and keeps the mapping of masks to values, encrypted, in a
-- vault. `mask_line` folds the text (`Document`), collects candidates from detectors and a model of
-- names, filters them, resolves overlaps (`DefaultResolver`), applies the combination rules, and
-- replaces each entity by what a masker makes of it, with numbers out of a `MaskState`. `demask`
-- looks for the masks in a text and puts the values back.
--
-- Files, with the code that they model:
--   Domain          src/domain: types of data, spans, documents, candidates, entities, `MaskState`,
--                   the effective policy; Domain.Unicode and Domain.Float32 are parameters
--   Validators      src/service/detect/validators.rs: Luhn, INN, SNILS, dates
--   Mask            src/service/mask.rs and the digests of src/infra/crypto.rs: the maskers
--   Resolve         src/service/resolve.rs: selection among overlapping candidates
--   Combination     src/service/combination.rs: entities that count only beside others
--   Pipeline        src/service/pipeline.rs: Signal is `has_pd_signal`, Windows the sentences for the
--                   model of names, Masking the pass that replaces, Line the whole of `mask_line`
--   Demask          src/service/demask.rs: putting values back
--   Guard           src/service/guard_service.rs: Service has `mask`, `process_tz`, `demask`; Crypto
--                   the encryption of mappings in src/infra/crypto.rs
--   Breaker         src/adapter/circuit_breaker.rs
--   RateLimit       src/infra/rate_limit.rs: Float64 is the arithmetic of its `f64` values
--   JsonPaths       src/service/json_paths.rs: Parse has `parse_path`, and extraction and replacement
--   Detect          src/service/detect: a module for each file of detectors, Custom for the one that
--                   a configuration declares (mod.rs), Numwords for numwords.rs
--   Context         src/service/detect/context.rs: what stands around a candidate
--   Relevance       src/service/relevance.rs: filters of persons, offices, numbers and
--                   organizations
--   Config          src/config: Profile has the parts of the configuration and their merging,
--                   Effective `build_effective`, Policy `resolve_policy` of src/config/loader.rs,
--                   Resolver src/service/policy_resolver.rs, Validate `validate`, Keys the
--                   digests of keys
--   Controller      src/controller: Errors is error_mapper.rs, Dto dto.rs, Middleware middleware.rs;
--                   Process and Batch the handlers of process_handler.rs, Proxy proxy_handler.rs,
--                   Admin admin_handler.rs, Router router.rs; Flow the early returns and the state
--   Tests           concrete inputs for the theorems
--
-- Conventions. A text is the list of its bytes, so that offsets and lengths are those of the source.
-- A panic is `none`, or `panicked` where a call can fail as well; slices outside of a text or inside
-- of a character panic as in the source. Counters of 32 and 64 bits wrap as in a release build.
-- State that a call changes is an argument and a part of the result. Calls of the clock, random bytes
-- and fresh identifiers are arguments.
--
-- Bounds and fuel. `decimal` has fuel for 20 digits, more than a number of 64 bits has. The loop of
-- `align_forward` has the bytes that are left for fuel, after which it would be at the end anyway. A
-- value of the rate limiter is written as its multiple of 2 ^ -256, for it is 0 or not below 2 ^ -117;
-- rounding has fuel for 400 binary digits, and products and quotients of its values have fewer.
--
-- Parameters, with what is assumed of them: the Unicode tables (nothing), f32 arithmetic (nothing),
-- HMAC and SHA-256 (nothing), the regular expressions (nothing, that they find what a theorem
-- names, or that they find ranges of the text on borders of characters), AES-GCM (what was encrypted is decrypted with the same key, nonce and associated data, and
-- refused with other associated data), bincode and base64 (what was written can be read), the vault
-- (what was put can be got, while the entry lives, and the other keys stay), detectors, models and filters (nothing).
--
-- Hash maps are association lists; where the source iterates over one, in an order that it does not
-- determine, the list gives the order.
--
-- A handler is a function on the vault, the buckets of the limiter and the events so far: counters,
-- lines of the log and requests to language models, without the values of durations. An early return
-- is `answers`. A timeout drops a call, which then leaves any vault behind; a call that fails leaves
-- the vault as it was.
--
-- A detector is a function from a document to its candidates; what its regular expressions find is an
-- argument, and so is the year for the series of passports.
--
-- Not modelled: the reading of the configuration and of secrets, which are files; the HTTP server,
-- clients of other services and the rendering of metrics, which are I/O; the interleaving of
-- concurrent requests.
pub mod Prelude
pub mod Domain
pub mod Validators
pub mod Mask
pub mod Combination
pub mod Resolve
pub mod Pipeline
pub mod Demask
pub mod Detect
pub mod Guard
pub mod Breaker
pub mod JsonPaths
pub mod RateLimit
pub mod Config
pub mod Context
pub mod Controller
pub mod Relevance
pub mod Tests
