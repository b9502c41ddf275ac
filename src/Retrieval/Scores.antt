-- ===== src/Retrieval/Scores.antt =====
-- Scores are Python floats: a type with the comparison and the halving that the code uses. The
-- laws of the comparison hold for floats other than NaN.
use legal_viet_namese.Base.{◌≡◌, Bool, true, false}

pub record Scores : Type 1 where
  pub Score : Type 0
  -- `a < b`
  pub below : Score → Score → Bool
  -- `a * 0.5`
  pub half : Score → Score
  pub below-asym : (a b : Score) → below a b ≡ true → below b a ≡ false
  -- if b is at least a and c at least b, then c is at least a
  pub below-trans : (a b c : Score) → below b a ≡ false → below c b ≡ false → below c a ≡ false
