-- ===== src/Guard/Sessions/RoundTrip.antt =====
-- A text through `mask` and `demask` of src/service/guard_service.rs.
use alfavibe_hack.Prelude.{
  All, true, false, not, ◌&&◌, ◌≡◌, refl, sym, ap, ◌∙◌, List, some, Text, length, arith,
  if◌then◌else◌, Option-cases, inl, inr,
}
use alfavibe_hack.Domain.Float32.{Float32}
use alfavibe_hack.Domain.MaskState
use alfavibe_hack.Domain.Policy.{EffectivePolicy}
use alfavibe_hack.Domain.Unicode.{Unicode}
use alfavibe_hack.Demask.{Mapping, Match}
use alfavibe_hack.Demask
use alfavibe_hack.Demask.Placeholders.{Aligned, Consistent, Unmasked, demask-restore}
use alfavibe_hack.Pipeline.Guarantees.{mask_line-Keyed, restore-mask_line}
use alfavibe_hack.Pipeline.Records.{Keyed}
use alfavibe_hack.Pipeline.Line.{MaskLineResult, mask_line}
use alfavibe_hack.Pipeline.Restore.{restore}
use alfavibe_hack.Guard.Crypto.{IsCipher}
use alfavibe_hack.Guard.Run.{Run-cases, fails, panics, returned, returns}
use alfavibe_hack.Guard.Types.{GuardService, MaskResult, Outside}
use alfavibe_hack.Guard.Service.{
  conclude, demask, entries_of, finish, keep, mask, run_line, stateless,
}
use alfavibe_hack.Guard.Sessions.{IsCodec, IsVault}
use alfavibe_hack.Guard.Sessions.Recorded.{
  Aligned-entries_of, IsPart, entries_of-All, Spotted, Spotted-length, entries_of-length,
}
use alfavibe_hack.Guard.Sessions.Contexts.{demask-mask}

module _ (F : Float32) (u : Unicode) {V : Type 0} (service : GuardService F.Carrier V) where
  restore-run_line :
      (policy : EffectivePolicy F.Carrier) (text : Text) (out : Outside)
      (result : MaskLineResult F.Carrier)
      → run_line F u service policy text out ≡ returned result
      → restore text result.entities 0 result.text ≡ text
  unfolding run_line
  restore-run_line policy text out result h =
      elim (Option-cases (mask_line F u service.pipeline policy out.clock text MaskState.empty)) [
        | inl panicked_ ↦ absurd (ground arith)
        | inr ((r, state), ran) ↦
            let same : r ≡ result = ground arith in
            rw (← same) (
              restore-mask_line F u service.pipeline policy out.clock text MaskState.empty state r
                ran)
      ]

  -- The answer of `mask` is that of the pipeline.
  record Ran (policy : EffectivePolicy F.Carrier) (text : Text) (out : Outside)
      (r : MaskResult F.Carrier) : Type 0 where
    result : MaskLineResult F.Carrier
    ran : run_line F u service policy text out ≡ returned result
    same_text : result.text ≡ r.text
    same_entities : result.entities ≡ r.entities
    listed : entries_of text result.text result.records ≡ returned r.mapping.entries

  conclude-text :
      (policy : EffectivePolicy F.Carrier) (system_id text session nonce : Text)
      (result : MaskLineResult F.Carrier) (r : MaskResult F.Carrier) (v v' : V)
      → policy.demask ≡ true
      → conclude F u service policy system_id text session nonce result v ≡ returned (r, v')
      → (result.text ≡ r.text)
        × (result.entities ≡ r.entities)
        × (entries_of text result.text result.records ≡ returned r.mapping.entries)
  unfolding conclude
  conclude-text policy system_id text session nonce result r v v' wants h =
      elim (Run-cases (entries_of text result.text result.records)) [
        | fails e made ↦ absurd (ground arith)
        | panics made ↦ absurd (ground arith)
        | returns entries listed ↦
            elim (Run-cases (
              keep F u service system_id session nonce
                (record { entries = entries; original = text; masked = result.text }) v)) [
                  | fails e made ↦ absurd (ground arith)
                  | panics made ↦ absurd (ground arith)
                  | returns (ctx, w) kept ↦
                      let same : entries ≡ r.mapping.entries = ground arith in
                      (ground arith, ground arith, rw (← same) listed)
                ]
      ]

  mask-Ran :
      (policy : EffectivePolicy F.Carrier) (system_id text session : Text) (out : Outside)
      (r : MaskResult F.Carrier) (v v' : V)
      → policy.demask ≡ true
      → mask F u service policy system_id text (some session) false out v ≡ returned (r, v')
      → Ran policy text out r
  unfolding mask
  mask-Ran policy system_id text session out r v v' wants h =
      elim (Run-cases (run_line F u service policy text out)) [
        | fails e made ↦ absurd (ground arith)
        | panics made ↦ absurd (ground arith)
        | returns result ran ↦
            let (t, es, listed) =
              conclude-text policy system_id text session out.nonce result r v v' wants
                (rw (mask, ran) at h) in
            record {
              result = result;
              ran = ran;
              same_text = t;
              same_entities = es;
              listed = listed;
            }
      ]

  -- The values in the mapping of `mask` are ranges of its text.
  pub mask-IsPart :
      (policy : EffectivePolicy F.Carrier) (system_id text session : Text) (out : Outside)
      (r : MaskResult F.Carrier) (v v' : V)
      → policy.demask ≡ true
      → mask F u service policy system_id text (some session) false out v ≡ returned (r, v')
      → All (IsPart text) r.mapping.entries
  mask-IsPart policy system_id text session out r v v' wants h =
      let ran = mask-Ran policy system_id text session out r v v' wants h in
      entries_of-All text ran.result.text ran.result.records r.mapping.entries ran.listed

  finish-demask :
      (session text original : Text) (m : Mapping) (v : V) (res : Demask.DemaskResult)
      → Demask.demask service.codec.captures text m ≡ some res
      → finish F u service session text m v
        ≡ returned (
          record {
            text = res.text;
            restored = res.restored;
            unresolved = res.unresolved;
            degraded = false;
          },
          (if service.delete_after_demask && not (stateless F u service)
              then service.vault.delete session v
              else v),
        )
  unfolding finish
  finish-demask session text original m v res h = rw (finish, h) refl

  keyed :
      (policy : EffectivePolicy F.Carrier) (text : Text) (out : Outside)
      (result : MaskLineResult F.Carrier)
      → run_line F u service policy text out ≡ returned result
      → length result.records ≡ length result.entities
      → Keyed result.entities result.records
  unfolding run_line
  keyed policy text out result h even =
      elim (Option-cases (mask_line F u service.pipeline policy out.clock text MaskState.empty)) [
        | inl panicked_ ↦ absurd (ground arith)
        | inr ((r, state), ran) ↦
            let same : r ≡ result = ground arith in
            rw (← same) (
              mask_line-Keyed F u service.pipeline policy out.clock text MaskState.empty state r ran
                (rw (← same) at even))
      ]

  -- The expression finds the replacements, so the mapping of `mask` is aligned with its text.
  Ran-Aligned :
      (policy : EffectivePolicy F.Carrier) (text : Text) (out : Outside) (r : MaskResult F.Carrier)
      (ms : List Match)
      → Ran policy text out r
      → Spotted r.text 0 ms r.entities r.mapping.entries
      → Aligned text r.text r.mapping.entries 0 ms r.entities
  Ran-Aligned policy text out r ms ran spotted =
      let even : length ran.result.records ≡ length ran.result.entities =
        entries_of-length text ran.result.text ran.result.records r.mapping.entries ran.listed
        ∙ sym (Spotted-length text r.text 0 ms r.entities r.mapping.entries spotted)
        ∙ ap length (sym ran.same_entities) in
      Aligned-entries_of text r.text ms r.entities ran.result.records r.mapping.entries
        (rw ran.same_text at ran.listed)
        (rw ran.same_entities at (keyed policy text out ran.result ran.ran even)) spotted

  -- The profile allows demasking and `mask` returned, not in a dry run; the expression of `demask`
  -- finds in the masked text just the replacements, one for each entry of the mapping and with its key;
  -- entries with one key stand for one value, and no masked form stands in the original. Then `demask` of the masked text, with a vault or with the
  -- context that `mask` gave, answers with the original text and leaves nothing unresolved; the
  -- session is deleted if the settings say so.
  pub demask-mask_original :
      (cipher : IsCipher service.cipher) (codec : IsCodec service.codec)
      (vault : IsVault service.vault) (policy : EffectivePolicy F.Carrier)
      (system_id session original : Text) (out : Outside) (r : MaskResult F.Carrier) (v v' : V)
      → policy.demask ≡ true
      → length out.nonce ≡ 12
      → mask F u service policy system_id original (some session) false out v ≡ returned (r, v')
      → Consistent r.mapping.entries
      → Unmasked original r.mapping.entries
      → Spotted r.text 0 (service.codec.captures r.text) r.entities r.mapping.entries
      → demask F u service policy system_id r.text session r.mask_context v'
        ≡ returned (
          record {
            text = original;
            restored = length (service.codec.captures r.text);
            unresolved = 0;
            degraded = false;
          },
          (if service.delete_after_demask && not (stateless F u service)
              then service.vault.delete session v'
              else v'),
        )
  demask-mask_original cipher codec vault policy system_id session original out r v v' wants size h
        same absent spotted =
      let ran = mask-Ran policy system_id original session out r v v' wants h in
      let back : restore original r.entities 0 r.text ≡ original =
        rw (← ran.same_text, ← ran.same_entities)
          (restore-run_line policy original out ran.result ran.ran) in
      demask-mask F u service cipher codec vault policy system_id session original r.text out r v v'
        wants size h
      ∙ finish-demask session r.text original r.mapping v' _ (
          demask-restore service.codec.captures original r.text r.mapping r.entities same absent
            (Ran-Aligned policy original out r (service.codec.captures r.text) ran spotted) back)
