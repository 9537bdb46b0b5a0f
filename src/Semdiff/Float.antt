-- ===== src/Semdiff/Float.antt =====
-- The floating-point numbers of semdiff.go, which nothing here computes: a type with the operations
-- and constants that the code uses. No law is assumed of them.
use promptnet.Prelude.{Bool}

pub record Float : Type 1 where
  -- float64 and float32
  pub Double : Type 0
  pub Single : Type 0
  pub widen : Single → Double
  pub zero : Double
  pub one : Double
  pub add : Double → Double → Double
  pub sub : Double → Double → Double
  pub mul : Double → Double → Double
  pub div : Double → Double → Double
  pub sqrt : Double → Double
  pub abs : Double → Double
  pub min : Double → Double → Double
  pub max : Double → Double → Double
  pub lt : Double → Double → Bool
  pub ge : Double → Double → Bool
  pub eq : Double → Double → Bool
  pub flatten_eps : Double
  pub local_thresh : Double
  pub struct_min_delta : Double
