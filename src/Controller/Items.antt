-- ===== src/Controller/Items.antt =====
-- The items of a batch in src/controller/process_handler.rs.
pub mod Order
use alfavibe_hack.Prelude.{
  ℕ, zero, suc, ◌+◌, Bool, true, false, List, [], ◌∷◌, ◌++◌, map, Option, none, some, Text, text_Eq,
  utf8, length, if◌then◌else◌, ◌==◌,
}
use alfavibe_hack.Domain.Float32.{Float32}
use alfavibe_hack.Domain.Policy.{EffectivePolicy}
use alfavibe_hack.Domain.Unicode.{Unicode}
use alfavibe_hack.Guard.Run.{Run, VaultError, ◌>>=◌}
use alfavibe_hack.Guard.Types.{MaskResult}
use alfavibe_hack.Guard.Service
use alfavibe_hack.Controller.Dto.{BatchItem}
use alfavibe_hack.Controller.Flow.{World, elapsed, in_time}
use alfavibe_hack.Controller.Process.{ProcessHandler, dto_of}

-- `Display` of an error, as src/domain/errors.rs derives it.
unfoldable pub display : VaultError → Text
display (VaultError.unavailable m) = utf8 "vault unavailable: " ++ m
display (VaultError.crypto m) = utf8 "vault crypto error: " ++ m
display (VaultError.serialization m) = utf8 "vault serialization error: " ++ m
display (VaultError.internal m) = utf8 "vault internal error: " ++ m

module _ {S : Type 0} where
  abbrev pub masked_item : ℕ → MaskResult S → BatchItem S
  masked_item i r = record {
    index = i;
    session_id = r.session_id;
    text = r.text;
    entities = map dto_of r.entities;
    degraded = r.degraded;
    mask_context = r.mask_context;
    error = none;
  }

  -- An item that was not masked gives the text back as it is.
  abbrev pub failed_item : ℕ → Text → Text → BatchItem S
  failed_item i text e = record {
    index = i;
    session_id = [];
    text = text;
    entities = [];
    degraded = false;
    mask_context = none;
    error = some e;
  }

module _ (F : Float32) (u : Unicode) {V : Type 0} (h : ProcessHandler F.Carrier V) where
  open F use {Carrier}

  -- The item of a call that ended, with the vault after it.
  abbrev item_of : ℕ → Text → V → Run (MaskResult Carrier × V) → Run (BatchItem Carrier × V)
  item_of i text v (Run.returned (r, v')) = Run.returned (masked_item i r, v')
  item_of i text v (Run.failed e) = Run.returned (failed_item i text (display e), v)
  item_of i text v Run.panicked = Run.panicked

  unfoldable pub mask_item :
      EffectivePolicy Carrier → Text → World V → ℕ → Text → V → Run (BatchItem Carrier × V)
  mask_item policy system_id w i text v = elim (w.call i) [
    | in_time ↦
        item_of i text v
          (Service.mask F u h.service policy system_id text none false (w.outside i) v)
    | elapsed v' ↦ Run.returned (failed_item i text (utf8 "timeout"), v')
  ]

  unfoldable pub batch_item :
      EffectivePolicy Carrier → Text → Text → World V → ℕ → Text → V → Run (BatchItem Carrier × V)
  batch_item policy system_id operation w i text v =
      if operation == utf8 "mask"
      then mask_item policy system_id w i text v
      else Run.returned (failed_item i text (utf8 "operation must be mask"), v)

  -- The items of the texts from the `i`-th on, one call after the other.
  unfoldable pub batch_items :
      EffectivePolicy Carrier
      → Text
      → Text
      → World V
      → ℕ
      → List Text
      → V
      → Run (List (BatchItem Carrier) × V)
  batch_items policy system_id operation w i [] v = Run.returned ([], v)
  batch_items policy system_id operation w i (text ∷ texts) v = do
    (item, v') ← batch_item policy system_id operation w i text v
    (rest, v'') ← batch_items policy system_id operation w (suc i) texts v'
    Run.returned (item ∷ rest, v'')
