-- ===== src/Domain/Float32.antt =====
-- The f32 scores: the type and the operations that the code uses, as a parameter of the model.
-- The language here has no floats, and no theorem needs a law of them.
use alfavibe_hack.Prelude.{ℕ, ◌+◌, ◌-◌, Bool, ◌||◌, ltb, leb, min, max}

pub record Float32 : Type 1 where
  pub Carrier : Type 0
  pub of_millis : ℕ → Carrier  -- the literal n / 1000
  pub ge : Carrier → Carrier → Bool
  pub gt : Carrier → Carrier → Bool
  pub differ : Carrier → Carrier → Bool  -- (a - b).abs() > f32::EPSILON
  pub add : Carrier → Carrier → Carrier
  pub sub : Carrier → Carrier → Carrier
  pub min_of : Carrier → Carrier → Carrier
  pub max_of : Carrier → Carrier → Carrier

-- Thousandths, for running the model.
abbrev pub millis : Float32
millis = record {
  Carrier = ℕ;
  of_millis = λ n. n;
  ge = λ a b. leb b a;
  gt = λ a b. ltb b a;
  differ = λ a b. ltb a b || ltb b a;
  add = λ a b. a + b;
  sub = λ a b. a - b;
  min_of = min;
  max_of = max;
}
