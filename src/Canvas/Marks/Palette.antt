-- ===== src/Canvas/Marks/Palette.antt =====
-- The colors of lanes stand in their palettes (canvas/canvas.cpp).
use imrmf_map_editor.Base.{◌%◌, ◌<◌, ◌≡◌, some, arith, get_elem?-some}
use imrmf_map_editor.Base.Int.{ℤ, pos, negsuc}
use imrmf_map_editor.Base.Text.{Text}
use imrmf_map_editor.Building.{Params}
use imrmf_map_editor.Canvas.Marks.{
  Color, lane_palette, mutex_palette, palette_index, graph_of, lane_color, fnv1a_32, mutex_color,
}

palette_index_lt : (g : ℤ) → palette_index g < 5
unfolding palette_index
palette_index_lt (pos g) = omega arith
palette_index_lt (negsuc g) = omega arith

-- Of any graph index, negative ones included, and of any name of a mutex group, the color is one of the
-- palette, so no palette is read past its end.
pub colors_in_palette :
    {D : Type 0} (params : Params D) (group : Text)
    → ((c : Color) × (lane_color params ≡ some c)) × ((c : Color) × (mutex_color group ≡ some c))
unfolding lane_color mutex_color
colors_in_palette params group = (
  get_elem?-some lane_palette (palette_index (graph_of params))
      (palette_index_lt (graph_of params)),
  get_elem?-some mutex_palette (fnv1a_32 2166136261 group % 8) (omega arith),
)
