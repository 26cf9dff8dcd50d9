-- ===== src/Canvas/Marks.antt =====
-- The colors and badges of vertices and lanes (canvas/canvas.cpp). A color is its red, green, blue and
-- alpha; an icon of a badge is its name.
pub mod Palette
use imrmf_map_editor.Base.{
  ℕ, suc, ◌+◌, ◌-◌, ◌*◌, ◌%◌, ◌^◌, Bool, true, false, not, ◌&&◌, Option, none, some, List, [], ◌∷◌,
  ◌++◌, get_elem?, if◌then◌else◌,
}
use imrmf_map_editor.Base.Int.{ℤ, pos, negsuc}
use imrmf_map_editor.Base.Text.{Text, codes, text_eq, is_empty}
use imrmf_map_editor.Building.{Params, ParamType, ParamValue, Vertex, Edge, find}
use imrmf_map_editor.Building.ParamType.{string, int, double, bool}
use imrmf_map_editor.Server.Protocol.{xor}

pub record Color : Type 0 where
  pub red : ℕ
  pub green : ℕ
  pub blue : ℕ
  pub alpha : ℕ

abbrev color : ℕ → ℕ → ℕ → ℕ → Color
color r g b a = record { red = r; green = g; blue = b; alpha = a }

abbrev badge : Bool → Text → List Text
badge shown icon = if shown then icon ∷ [] else []

module _ {D : Type 0} where
  unfoldable pub param_flag : Params D → Text → Bool
  unfolding find
  param_flag params k = elim (find k params) [
    | none ↦ false
    | some v ↦ elim v.type [ bool ↦ v.b | string ↦ false | int ↦ false | double ↦ false ]
  ]

  unfoldable pub param_str : Params D → Text → Bool
  unfolding find
  param_str params k = elim (find k params) [
    | none ↦ false
    | some v ↦ elim v.type [
      | string ↦ not (is_empty v.s)
      | int ↦ false
      | double ↦ false
      | bool ↦ false
    ]
  ]

  unfoldable pub vertex_color : Vertex D → Color
  unfolding param_flag param_str
  vertex_color v =
      if param_flag v.params (codes "is_charger")
      then color 220 60 60 255
      else if param_flag v.params (codes "is_parking_spot")
      then color 80 140 255 255
      else if param_str v.params (codes "pickup_dispenser")
      then color 60 200 80 255
      else if param_str v.params (codes "dropoff_ingestor")
      then color 255 140 40 255
      else if param_flag v.params (codes "is_holding_point")
      then color 230 220 60 255
      else if param_flag v.params (codes "is_passthrough_point")
      then color 170 170 170 255
      else color 230 230 230 255

  unfoldable pub vertex_badges : Vertex D → List Text
  unfolding param_flag param_str
  vertex_badges v =
      badge (param_flag v.params (codes "is_charger")) (codes "EV_STATION")
      ++ (badge (param_flag v.params (codes "is_parking_spot")) (codes "PARKING")
          ++ (badge (param_str v.params (codes "pickup_dispenser")) (codes "UPLOAD")
              ++ (badge (param_str v.params (codes "dropoff_ingestor")) (codes "DOWNLOAD")
                  ++ badge (param_flag v.params (codes "is_holding_point"))
                      (codes "PAUSE_CIRCLE"))))

  unfoldable pub graph_of : Params D → ℤ
  unfolding find
  graph_of params = elim (find (codes "graph_idx") params) [
    | none ↦ pos 0
    | some v ↦ elim v.type [ int ↦ v.i | string ↦ pos 0 | double ↦ pos 0 | bool ↦ pos 0 ]
  ]

  unfoldable pub is_bidirectional : Params D → Bool
  unfolding find
  is_bidirectional params = elim (find (codes "bidirectional") params) [
    | none ↦ true
    | some v ↦ elim v.type [ bool ↦ v.b | string ↦ true | int ↦ true | double ↦ true ]
  ]

  unfoldable pub lane_orientation_sign : Params D → ℤ
  unfolding find text_eq
  lane_orientation_sign params = elim (find (codes "orientation") params) [
    | none ↦ pos 0
    | some v ↦ elim v.type [
      | string ↦
          if text_eq v.s (codes "forward")
          then pos 1
          else if text_eq v.s (codes "backward")
          then negsuc 0
          else pos 0
      | int ↦ pos 0
      | double ↦ pos 0
      | bool ↦ pos 0
    ]
  ]

abbrev pub lane_palette : List Color
lane_palette =
    color 120 170 255 220
    ∷ color 255 160 120 220
    ∷ color 140 220 140 220
    ∷ color 220 140 220 220
    ∷ color 220 220 120 220
    ∷ []

abbrev pub mutex_palette : List Color
mutex_palette =
    color 232 104 104 235
    ∷ color 104 168 232 235
    ∷ color 120 214 132 235
    ∷ color 214 140 222 235
    ∷ color 230 196 96 235
    ∷ color 108 214 214 235
    ∷ color 232 156 96 235
    ∷ color 168 152 232 235
    ∷ []

-- `((g % 5) + 5) % 5`, where the remainder of a negative number is not positive.
unfoldable pub palette_index : ℤ → ℕ
palette_index (pos g) = (g % 5 + 5) % 5
palette_index (negsuc g) = (5 - suc g % 5) % 5

-- A read past the end of the palette is none.
unfoldable pub lane_color : {D : Type 0} → Params D → Option Color
unfolding graph_of palette_index
lane_color params = get_elem? lane_palette (palette_index (graph_of params))

-- `h ^= c; h *= 16777619u;` on 32 bits.
unfoldable pub fnv1a_32 : ℕ → Text → ℕ
unfolding xor
fnv1a_32 h [] = h
fnv1a_32 h (c ∷ group) = fnv1a_32 (xor 32 h c * 16777619 % 2 ^ 32) group

unfoldable pub mutex_color : Text → Option Color
unfolding fnv1a_32
mutex_color group = get_elem? mutex_palette (fnv1a_32 2166136261 group % 8)
