-- ===== src/Building.antt =====
-- The data of a map: model/building.hpp. A `double` is a value of `D`, and a YAML node, which the
-- library yaml-cpp owns, is a value of `N`; both are parameters. A `std::map` is the list of its
-- entries, a `std::vector` a list, an `int` an integer.
pub mod Delete
pub mod Double
pub mod Scale
pub mod Frames
use imrmf_map_editor.Base.{ℕ, Bool, true, false, List, [], ◌∷◌, Option, none, some, if◌then◌else◌}
use imrmf_map_editor.Base.Int.{ℤ}
use imrmf_map_editor.Base.Text.{Text, text_eq}

-- The type codes of parameters in building.yaml.
pub data ParamType : Type 0 where
  string int double bool : ParamType

pub record ParamValue (D : Type 0) : Type 0 where
  pub type : ParamType
  pub s : Text
  pub i : ℤ
  pub d : D
  pub b : Bool

abbrev pub Params : Type 0 → Type 0
Params D = List (Text × ParamValue D)

pub record Vertex (D : Type 0) : Type 0 where
  pub x : D
  pub y : D
  pub z : D
  pub name : Text
  pub params : Params D

-- The common shape of `Lane`, `Wall`, `Door` and `Measurement`, over which the source's templates
-- range.
pub record Edge (D : Type 0) : Type 0 where
  pub start_idx : ℤ
  pub end_idx : ℤ
  pub params : Params D

-- A closed loop of vertex indices, with inner loops cut out.
pub record Floor (D N : Type 0) : Type 0 where
  pub vertices : List ℤ
  pub holes : List (List ℤ)
  pub params : Params D
  pub passthrough : N

pub record Fiducial (D : Type 0) : Type 0 where
  pub x : D
  pub y : D
  pub name : Text

pub record Layer (D N : Type 0) : Type 0 where
  pub name : Text
  pub filename : Text
  pub visible : Bool
  pub color_r : D
  pub color_g : D
  pub color_b : D
  pub color_a : D
  pub scale : D
  pub yaw : D
  pub translation_x : D
  pub translation_y : D
  pub passthrough : N

pub record Level (D N : Type 0) : Type 0 where
  pub name : Text
  pub elevation : D
  pub drawing_filename : Text
  pub vertices : List (Vertex D)
  pub lanes : List (Edge D)
  pub walls : List (Edge D)
  pub doors : List (Edge D)
  pub measurements : List (Edge D)
  pub floors : List (Floor D N)
  pub fiducials : List (Fiducial D)
  pub layers : List (Layer D N)
  pub passthrough : N
  pub mpp_snapshot : D

pub record Building (D N : Type 0) : Type 0 where
  pub name : Text
  pub coordinate_system : Text
  pub reference_level_name : Text
  pub levels : List (Level D N)
  pub passthrough : N

-- `params.find(key)`
unfoldable pub find {ℓ} : {V : Type ℓ} → Text → List (Text × V) → Option V
find k [] = none
find k ((j, v) ∷ m) = elim (text_eq j k) [ true ↦ some v | false ↦ find k m ]
