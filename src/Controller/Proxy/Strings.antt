-- ===== src/Controller/Proxy/Strings.antt =====
-- The strings of a JSON body that src/controller/proxy_handler.rs masks and demasks.
pub mod Kept
pub mod Put
use alfavibe_hack.Prelude.{
  ℕ, suc, ◌+◌, Bool, true, false, ◌||◌, List, [], ◌∷◌, Option, none, some, Text,
}
use alfavibe_hack.Domain.Float32.{Float32}
use alfavibe_hack.Domain.Policy.{EffectivePolicy}
use alfavibe_hack.Domain.Unicode.{Unicode}
use alfavibe_hack.JsonPaths.{Value, replace}
use alfavibe_hack.JsonPaths.Parse.{parse_path}
use alfavibe_hack.Guard.Run.{Run}
use alfavibe_hack.Guard.Types.{DemaskResult, GuardService, MaskResult, Outside}
use alfavibe_hack.Guard.Service

-- The vault, the number of calls so far, and whether one was degraded.
pub record Progress (V : Type 0) : Type 0 where
  pub vault : V
  pub calls : ℕ
  pub degraded : Bool

-- `f` on the strings at each path that can be parsed, path by path.
unfoldable pub over_paths :
    {S : Type 0} → Unicode → (Text → S → Text × S) → List Text → Value → S → Value × S
over_paths u f [] json s = (json, s)
over_paths u f (p ∷ ps) json s = elim (parse_path u p) [
  | none ↦ over_paths u f ps json s
  | some path ↦ let (json', s') = replace path f json s in over_paths u f ps json' s'
]

module _ (F : Float32) (u : Unicode) {V : Type 0} (service : GuardService F.Carrier V)
    (policy : EffectivePolicy F.Carrier) (system_id session : Text) where
  open F use {Carrier}

  -- A string that is not masked because of an error goes on as it is; `none` is a panic.
  abbrev pub masked_string :
      Text → Progress V → Run (MaskResult Carrier × V) → Text × Option (Progress V)
  masked_string text p (Run.returned (r, v)) = (
    r.text,
    some (record { vault = v; calls = suc p.calls; degraded = p.degraded || r.degraded }),
  )
  masked_string text p (Run.failed e) = (text, some (record p { calls = suc p.calls }))
  masked_string text p Run.panicked = (text, none)

  unfoldable pub mask_string :
      (ℕ → Outside) → Text → Option (Progress V) → Text × Option (Progress V)
  mask_string outside text none = (text, none)
  mask_string outside text (some p) = masked_string text p (
      Service.mask F u service policy system_id text (some session) false (outside p.calls) p.vault)

  -- `demask_response`, with the state of the vault.
  abbrev demasked_string : Text → V → Run (DemaskResult × V) → Text × Option V
  demasked_string text v (Run.returned (r, v')) = (r.text, some v')
  demasked_string text v (Run.failed e) = (text, some v)
  demasked_string text v Run.panicked = (text, none)

  unfoldable pub demask_string : Text → Option V → Text × Option V
  demask_string text none = (text, none)
  demask_string text (some v) =
      demasked_string text v (Service.demask F u service policy system_id text session none v)
