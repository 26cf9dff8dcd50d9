-- ===== src/Building/Double.antt =====
-- What the program uses of `double` and of <cmath>. The carrier is a parameter, as is each operation:
-- nothing is assumed of them but what a theorem names.
use imrmf_map_editor.Base.{Bool}
use imrmf_map_editor.Base.Int.{ℤ}

pub record Double (D : Type 0) : Type 0 where
  pub zero : D
  pub half : D
  pub one : D
  pub tiny : D
  pub add : D → D → D
  pub sub : D → D → D
  pub mul : D → D → D
  pub div : D → D → D
  pub neg : D → D
  pub sqrt : D → D
  pub cos : D → D
  pub sin : D → D
  pub atan2 : D → D → D
  pub of_int : ℤ → D
  pub lt : D → D → Bool
  pub le : D → D → Bool
