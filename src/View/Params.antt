-- ===== src/View/Params.antt =====
-- The parameters that the editor knows, and those that it gives to what it creates
-- (view/editor_view.cpp).
pub mod Kept
use imrmf_map_editor.Base.{ℕ, Bool, true, false, Option, none, some, List, [], ◌∷◌}
use imrmf_map_editor.Base.Int.{pos}
use imrmf_map_editor.Base.Text.{Text, codes, text_eq}
use imrmf_map_editor.Building.{Params, ParamType, ParamValue}
use imrmf_map_editor.Building.ParamType.{string, int, double, bool}
use imrmf_map_editor.Building.Double.{Double}
use imrmf_map_editor.View.Split.Tool.{need}

pub record ParamSpec : Type 0 where
  pub key : Text
  pub type : ParamType
  pub optional : Bool

abbrev spec : Text → ParamType → ParamSpec
spec key type = record { key = key; type = type; optional = false }

abbrev optional_spec : Text → ParamType → ParamSpec
optional_spec key type = record { key = key; type = type; optional = true }

abbrev pub vertex_params : List ParamSpec
vertex_params =
    spec (codes "is_charger") bool
    ∷ spec (codes "is_parking_spot") bool
    ∷ spec (codes "is_holding_point") bool
    ∷ spec (codes "is_passthrough_point") bool
    ∷ spec (codes "is_cleaning_zone") bool
    ∷ spec (codes "dock_name") string
    ∷ spec (codes "pickup_dispenser") string
    ∷ spec (codes "dropoff_ingestor") string
    ∷ spec (codes "spawn_robot_type") string
    ∷ spec (codes "spawn_robot_name") string
    ∷ spec (codes "human_goal_set_name") string
    ∷ spec (codes "mutex") string
    ∷ optional_spec (codes "merge_radius") double
    ∷ []

abbrev pub lane_params : List ParamSpec
lane_params =
    spec (codes "bidirectional") bool
    ∷ spec (codes "orientation") string
    ∷ spec (codes "graph_idx") int
    ∷ optional_spec (codes "speed_limit") double
    ∷ spec (codes "mutex") string
    ∷ spec (codes "demo_mock_floor_name") string
    ∷ spec (codes "demo_mock_lift_name") string
    ∷ []

unfoldable pub find_spec : Text → List ParamSpec → Option ParamSpec
find_spec key [] = none
find_spec key (s ∷ specs) = elim (text_eq s.key key) [ true ↦ some s | false ↦ find_spec key specs ]

unfoldable pub param_optional : Text → Bool
unfolding find_spec
param_optional key = elim (find_spec key vertex_params) [
  | some s ↦ s.optional
  | none ↦ elim (find_spec key lane_params) [ some s ↦ s.optional | none ↦ false ]
]

-- The numbers 2.5 and 90.0.
pub record Defaults (D : Type 0) : Type 0 where
  pub texture_height : D
  pub motion_degrees : D

unfoldable pub ensure_params : {D : Type 0} → Params D → Params D → Params D
unfolding need
ensure_params [] params = params
ensure_params ((k, v) ∷ defs) params = ensure_params defs (need k v params)

module _ {D : Type 0} (F : Double D) (N : Defaults D) where
  abbrev make_string : Text → ParamValue D
  make_string s = record { type = string; s = s; i = pos 0; d = F.zero; b = false }

  abbrev make_int : ℕ → ParamValue D
  make_int n = record { type = int; s = []; i = pos n; d = F.zero; b = false }

  abbrev make_double : D → ParamValue D
  make_double d = record { type = double; s = []; i = pos 0; d = d; b = false }

  -- The list of defaults of each kind of edge, and of floors.
  abbrev pub wall_defaults : Params D
  wall_defaults =
      (codes "texture_name", make_string [])
      ∷ (codes "texture_height", make_double N.texture_height)
      ∷ (codes "texture_width", make_double F.one)
      ∷ (codes "texture_scale", make_double F.one)
      ∷ (codes "alpha", make_double F.one)
      ∷ []

  abbrev pub door_defaults : Params D
  door_defaults =
      (codes "name", make_string [])
      ∷ (codes "type", make_string (codes "hinged"))
      ∷ (codes "motion_axis", make_string (codes "start"))
      ∷ (codes "motion_degrees", make_double N.motion_degrees)
      ∷ (codes "motion_direction", make_int 1)
      ∷ []

  abbrev pub measurement_defaults : Params D
  measurement_defaults = (codes "distance", make_double F.one) ∷ []

  abbrev pub floor_defaults : Params D
  floor_defaults =
      (codes "texture_name", make_string [])
      ∷ (codes "texture_rotation", make_double F.zero)
      ∷ (codes "texture_scale", make_double F.one)
      ∷ []

  unfoldable pub init_default_wall_params : Params D → Params D
  unfolding ensure_params
  init_default_wall_params params = ensure_params wall_defaults params

  unfoldable pub init_default_door_params : Params D → Params D
  unfolding ensure_params
  init_default_door_params params = ensure_params door_defaults params

  unfoldable pub init_default_measurement_params : Params D → Params D
  unfolding ensure_params
  init_default_measurement_params params = ensure_params measurement_defaults params

  unfoldable pub init_default_floor_params : Params D → Params D
  unfolding ensure_params
  init_default_floor_params params = ensure_params floor_defaults params
