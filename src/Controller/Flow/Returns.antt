-- ===== src/Controller/Flow/Returns.antt =====
-- Early returns of the handlers in src/controller/process_handler.rs.
use alfavibe_hack.Prelude.{ℕ, ◌≤◌, ◌≡◌, ◌⊎◌, inl, inr, refl, none, some, Text, text_Eq, arith}
use alfavibe_hack.Prelude.Maps.{get_or}
use alfavibe_hack.RateLimit.{check}
use alfavibe_hack.Controller.Dto.{Response}
use alfavibe_hack.Controller.Errors.{ServiceError, status}
use alfavibe_hack.Controller.Middleware.{ServerConfig}
use alfavibe_hack.Controller.Flow.{
  Flow, Handler, State, answers, error_response, goes, limit_rate, panics, refuse, responds, ◌>>=◌,
}

module _ {S V A B : Type 0} (m : Handler S V A) (f : A → Handler S V B) {s t : State V} where
  pub >>=-goes :
      {b : B}
      → ◌>>=◌ m f s ≡ goes b t
      → (a : A) × (s' : State V) × (m s ≡ goes a s') × (f a s' ≡ goes b t)
  >>=-goes {b} h = by_step (m s) refl h
    where
      by_step :
          (x : Flow S V A)
          → m s ≡ x
          → (elim x [ goes a s' ↦ f a s' | answers r s' ↦ answers r s' | panics ↦ panics ])
            ≡ goes b t
          → (a : A) × (s' : State V) × (m s ≡ goes a s') × (f a s' ≡ goes b t)
      by_step (goes a s') is g = (a, s', is, g)
      by_step (answers r s') is g = cc
      by_step panics is g = cc

  pub >>=-answers :
      {r : Response S}
      → ◌>>=◌ m f s ≡ answers r t
      → (m s ≡ answers r t)
        ⊎ ((a : A) × (s' : State V) × (m s ≡ goes a s') × (f a s' ≡ answers r t))
  >>=-answers {r} h = by_step (m s) refl h
    where
      by_step :
          (x : Flow S V A)
          → m s ≡ x
          → (elim x [ goes a s' ↦ f a s' | answers q s' ↦ answers q s' | panics ↦ panics ])
            ≡ answers r t
          → (m s ≡ answers r t)
            ⊎ ((a : A) × (s' : State V) × (m s ≡ goes a s') × (f a s' ≡ answers r t))
      by_step (goes a s') is g = inr (a, s', is, g)
      by_step (answers q s') is g = inl (ground arith)
      by_step panics is g = cc

pub status_bounds : (se : ServiceError) → 400 ≤ status se
unfolding status
status_bounds se = ground arith

-- An early answer is an error.
abbrev pub Refuses : {S V A : Type 0} → Handler S V A → Type 0
Refuses {S} {V} m = (s t : State V) (r : Response S) → m s ≡ answers r t → 400 ≤ r.status

module _ {S V : Type 0} where
  pub >>=-Refuses :
      {A B : Type 0} (m : Handler S V A) (f : A → Handler S V B)
      → Refuses m
      → ((a : A) → Refuses (f a))
      → Refuses (λ s. ◌>>=◌ m f s)
  >>=-Refuses m f first later s t r h = elim (>>=-answers m f h) [
    | inl e ↦ first s t r e
    | inr (a, s', is, e) ↦ later a s' t r e
  ]

  pub error_response-Refuses :
      {A : Type 0} (st : ℕ) (se : ServiceError) (request_id : Text)
      → 400 ≤ st
      → Refuses (error_response {S = S} {V = V} {A = A} st se request_id)
  unfolding error_response
  error_response-Refuses st se request_id bound s t r h = ground arith

  pub refuse-Refuses :
      {A : Type 0} (se : ServiceError) (request_id : Text)
      → Refuses (λ s. refuse {S = S} {V = V} {A = A} se request_id s)
  refuse-Refuses se request_id = error_response-Refuses (status se) se request_id (status_bounds se)

  pub limit_rate-Refuses :
      (cfg : ServerConfig) (now : ℕ) (system_id request_id : Text)
      → Refuses (limit_rate {S = S} {V = V} cfg now system_id request_id)
  unfolding limit_rate
  limit_rate-Refuses cfg now system_id request_id s t r h = ground arith

  -- The limiter leaves the vault alone.
  pub limit_rate_vault :
      (cfg : ServerConfig) (now : ℕ) (system_id request_id : Text) (s t : State V) (x : Unit {0})
      → limit_rate {S = S} cfg now system_id request_id s ≡ goes x t
      → (check now system_id (get_or system_id 0 cfg.system_rate_limit) s.buckets).0 ≡ none
        × (t.vault ≡ s.vault)
  unfolding limit_rate
  limit_rate_vault cfg now system_id request_id s t x h = ground arith

-- An answer is of the first part, or of the second one.
pub >>=-responds :
    {S V A : Type 0} (m : Handler S V A) (f : A → Handler S V (Response S)) {s t : State V}
    {r : Response S}
    → responds (◌>>=◌ m f s) ≡ some (r, t)
    → (m s ≡ answers r t)
      ⊎ ((a : A) × (s' : State V) × (m s ≡ goes a s') × (responds (f a s') ≡ some (r, t)))
>>=-responds {S} {V} {A} m f {s} {t} {r} h = by_step (m s) refl h
  where
    by_step :
        (x : Flow S V A)
        → m s ≡ x
        → responds (elim x [ goes a s' ↦ f a s' | answers q s' ↦ answers q s' | panics ↦ panics ])
          ≡ some (r, t)
        → (m s ≡ answers r t)
          ⊎ ((a : A) × (s' : State V) × (m s ≡ goes a s') × (responds (f a s') ≡ some (r, t)))
    by_step (goes a s') is g = inr (a, s', is, g)
    by_step (answers q s') is g = inl (ground arith)
    by_step panics is g = absurd (ground arith)

-- The limiter says nothing to the outside, and passes a request only with a token.
pub limit_rate_quiet :
    {S V : Type 0} (cfg : ServerConfig) (now : ℕ) (system_id request_id : Text) (s t : State V)
    (r : Response S)
    → limit_rate cfg now system_id request_id s ≡ answers r t
    → t.events ≡ s.events
unfolding limit_rate
limit_rate_quiet cfg now system_id request_id s t r h = ground arith

pub limit_rate_passes :
    {S V : Type 0} (cfg : ServerConfig) (now : ℕ) (system_id request_id : Text) (s t : State V)
    (x : Unit {0})
    → limit_rate {S = S} cfg now system_id request_id s ≡ goes x t
    → ((check now system_id (get_or system_id 0 cfg.system_rate_limit) s.buckets).0 ≡ none)
      × (t.events ≡ s.events)
      × (t.vault ≡ s.vault)
unfolding limit_rate
limit_rate_passes cfg now system_id request_id s t x h = ground arith
