-- ===== src/Controller/Proxy/Strings/Put.antt =====
-- What src/controller/proxy_handler.rs does to one string of a body.
use alfavibe_hack.Prelude.{ℕ, suc, ◌≡◌, ◌||◌, false, Option, none, some, Text}
use alfavibe_hack.Domain.Float32.{Float32}
use alfavibe_hack.Domain.Policy.{EffectivePolicy}
use alfavibe_hack.Domain.Unicode.{Unicode}
use alfavibe_hack.Guard.Run.{Run-cases, VaultError, fails, panics, returned, returns}
use alfavibe_hack.Guard.Run
use alfavibe_hack.Guard.Types.{GuardService, MaskResult, Outside}
use alfavibe_hack.Guard.Service.{mask}
use alfavibe_hack.Controller.Proxy.Strings.{Progress, mask_string}

module _ (F : Float32) (u : Unicode) {V : Type 0} (service : GuardService F.Carrier V)
    (policy : EffectivePolicy F.Carrier) (system_id session : Text) (outside : ℕ → Outside) where
  -- The string that goes on in place of `text`, and the vault after it: the masked text where `mask`
  -- succeeds, and the string itself where `mask` fails.
  pub data PutThrough (text : Text) (p : Progress V) : Text × Option (Progress V) → Type 0 where
    masked :
        {r : MaskResult F.Carrier} {v : V}
        → mask F u service policy system_id text (some session) false (outside p.calls) p.vault
          ≡ returned (r, v)
        → PutThrough text p (
          r.text,
          some (record { vault = v; calls = suc p.calls; degraded = p.degraded || r.degraded }),
        )
    unmasked :
        {e : VaultError}
        → mask F u service policy system_id text (some session) false (outside p.calls) p.vault
          ≡ Run.failed e
        → PutThrough text p (text, some (record p { calls = suc p.calls }))
    lost :
        mask F u service policy system_id text (some session) false (outside p.calls) p.vault
          ≡ Run.panicked
        → PutThrough text p (text, none)

  pub mask_string-PutThrough :
      (text : Text) (p : Progress V)
      → PutThrough text p (mask_string F u service policy system_id session outside text (some p))
  unfolding mask_string
  mask_string-PutThrough text p =
      elim (Run-cases
        (mask F u service policy system_id text (some session) false (outside p.calls) p.vault)) [
          | returns (r, v) made ↦ rw made (masked made)
          | fails e made ↦ rw made (unmasked made)
          | panics made ↦ rw made (lost made)
        ]
