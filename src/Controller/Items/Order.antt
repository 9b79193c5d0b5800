-- ===== src/Controller/Items/Order.antt =====
-- A batch of src/controller/process_handler.rs answers each text by an item of its own.
use alfavibe_hack.Prelude.{ℕ, suc, ◌≡◌, ◌≢◌, false, List, [], ◌∷◌, none, Text, text_Eq, utf8}
use alfavibe_hack.Domain.Float32.{Float32}
use alfavibe_hack.Domain.Policy.{EffectivePolicy}
use alfavibe_hack.Domain.Unicode.{Unicode}
use alfavibe_hack.Guard.Run.{VaultError, returned}
use alfavibe_hack.Guard.Run
use alfavibe_hack.Guard.Service
use alfavibe_hack.Guard.Types.{MaskResult}
use alfavibe_hack.Controller.Dto.{BatchItem}
use alfavibe_hack.Controller.Flow.{Timed, World}
use alfavibe_hack.Controller.Process.{ProcessHandler}
use alfavibe_hack.Controller.Items.{display, failed_item, masked_item}

module _ (F : Float32) (u : Unicode) {V : Type 0} (h : ProcessHandler F.Carrier V)
    (policy : EffectivePolicy F.Carrier) (system_id operation : Text) (w : World V) where
  -- How the item with the index `i` answers a text, and what becomes of the vault: what `mask` makes
  -- of this text with the vault as it is then, or the text itself with the reason why it was not
  -- masked.
  pub data Answered (i : ℕ) (text : Text) (v : V) : BatchItem F.Carrier → V → Type 0 where
    masked :
        {r : MaskResult F.Carrier} {v' : V}
        → operation ≡ utf8 "mask"
        → w.call i ≡ Timed.in_time
        → Service.mask F u h.service policy system_id text none false (w.outside i) v
          ≡ returned (r, v')
        → Answered i text v (masked_item i r) v'
    unmasked :
        {e : VaultError}
        → operation ≡ utf8 "mask"
        → w.call i ≡ Timed.in_time
        → Service.mask F u h.service policy system_id text none false (w.outside i) v ≡ Run.failed e
        → Answered i text v (failed_item i text (display e)) v
    late :
        {v' : V}
        → operation ≡ utf8 "mask"
        → w.call i ≡ Timed.elapsed v'
        → Answered i text v (failed_item i text (utf8 "timeout")) v'
    refused :
        operation ≢ utf8 "mask"
        → Answered i text v (failed_item i text (utf8 "operation must be mask")) v

  -- The texts and their items, in one order, from the index `i` on.
  pub data AllAnswered : ℕ → List Text → V → List (BatchItem F.Carrier) → V → Type 0 where
    done : {i : ℕ} {v : V} → AllAnswered i [] v [] v
    next :
        {i : ℕ} {text : Text} {texts : List Text} {v v' v'' : V} {item : BatchItem F.Carrier}
        {items : List (BatchItem F.Carrier)}
        → Answered i text v item v'
        → AllAnswered (suc i) texts v' items v''
        → AllAnswered i (text ∷ texts) v (item ∷ items) v''
