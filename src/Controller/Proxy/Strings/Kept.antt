-- ===== src/Controller/Proxy/Strings/Kept.antt =====
-- What is left in the vault when src/controller/proxy_handler.rs has masked the strings of a body.
use alfavibe_hack.Prelude.{
  All, ℕ, true, false, ◌≡◌, ap, List, [], ◌∷◌, ◌++◌, Option, some, Text, text_Eq, length, arith,
}
use alfavibe_hack.Domain.Float32.{Float32}
use alfavibe_hack.Domain.Policy.{EffectivePolicy}
use alfavibe_hack.Domain.Unicode.{Unicode}
use alfavibe_hack.JsonPaths.Replaced.{run_over, run_over-append}
use alfavibe_hack.Guard.Crypto.{IsCipher}
use alfavibe_hack.Guard.Run.{returned}
use alfavibe_hack.Guard.Types.{GuardService, MaskResult, Outside}
use alfavibe_hack.Guard.Service.{lookup_mapping, mask, stateless}
use alfavibe_hack.Guard.Sessions.{IsCodec, IsVault, lookup-keep, mask-Remembers}
use alfavibe_hack.Guard.Sessions.Recorded.{IsPart}
use alfavibe_hack.Guard.Sessions.RoundTrip.{mask-IsPart}
use alfavibe_hack.Controller.Proxy.Strings.{Progress, mask_string}

module _ (F : Float32) (u : Unicode) {V : Type 0} (service : GuardService F.Carrier V)
    (cipher : IsCipher service.cipher) (codec : IsCodec service.codec)
    (vault : IsVault service.vault) (in_vault : stateless F u service ≡ false)
    (policy : EffectivePolicy F.Carrier) (wants : policy.demask ≡ true) (system_id session : Text)
    (outside : ℕ → Outside) (sized : (n : ℕ) → length (outside n).nonce ≡ 12) where
  -- The strings of a body are masked one after the other, for a profile that allows demasking and with
  -- a vault. When `mask` succeeds on the last one, what the session holds in the end is the mapping that
  -- this call made: that string is its original, and each value in it is a range of that string, so
  -- that a value of an earlier string is not in it, unless that string holds it as well.
  pub mask_strings-last :
      (xs : List Text) (x : Text) (p q p' : Progress V) (r : MaskResult F.Carrier) (v : V)
      → (run_over (mask_string F u service policy system_id session outside) xs (some p)).1 ≡ some q
      → mask F u service policy system_id x (some session) false (outside q.calls) q.vault
        ≡ returned (r, v)
      → (run_over
          (mask_string F u service policy system_id session outside)
          (xs ++ x ∷ [])
          (some p)).1
        ≡ some p'
      → (lookup_mapping F u service system_id session p'.vault ≡ returned (some r.mapping))
        × (r.mapping.original ≡ x)
        × All (IsPart x) r.mapping.entries
  unfolding run_over mask_string
  mask_strings-last xs x p q p' r v before made after =
      let f = mask_string F u service policy system_id session outside in
      let split = run_over-append f xs (x ∷ []) (some p) in
      let last = ap (λ (y : List Text × Option (Progress V)). y.1) split in
      let step : (f x (some q)).1 ≡ some p' = rw (before) at (rw (last) at after) in
      let kept =
        mask-Remembers F u service cipher codec policy system_id x session (outside q.calls) r
          q.vault v wants made in
      let same : v ≡ p'.vault = ground arith in
      (
        rw (← same) (
            lookup-keep F u service cipher codec vault in_vault system_id session
              (outside q.calls).nonce r.mapping q.vault v r.mask_context (sized q.calls) kept.kept),
        kept.original,
        mask-IsPart F u service policy system_id x session (outside q.calls) r q.vault v wants made,
      )
