-- ===== src/Detect/Email.antt =====
-- src/service/detect/email.rs: the detector of mail addresses.
use alfavibe_hack.Prelude.{◌>>=◌, List, Option, utf8}
use alfavibe_hack.Domain.Candidate.{Candidate, regex, no_signals}
use alfavibe_hack.Domain.Document.{Document}
use alfavibe_hack.Domain.Float32.{Float32}
use alfavibe_hack.Domain.PdType.{email}
use alfavibe_hack.Detect.{FindIter, Found, collect, guarded, origin, emit}

module _ (F : Float32) where
  abbrev Pushed : Type 0
  Pushed = Option (List (Candidate F.Carrier))

  unfoldable pub email_round : Document → Found → Pushed
  email_round doc m =
      guarded doc m (do
        span ← origin doc m
        emit email span (F.of_millis 950) (regex (utf8 "email")) no_signals)

  unfoldable pub email_detect : FindIter → Document → Pushed
  unfolding email_round
  email_detect re doc = collect (email_round doc) (re doc.norm)
