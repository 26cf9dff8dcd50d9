-- ===== src/Tests/Editing.antt =====
-- Giving defaults, aligning, and counting mutex groups (view/editor_view.cpp) on the sample map.
use imrmf_map_editor.Base.{ℕ, ◌≡◌, ◌≢◌, refl, true, false, [], ◌∷◌, arith, All}
use imrmf_map_editor.Base.Int.{pos}
use imrmf_map_editor.Base.Text.{Text, codes, text_eq}
use imrmf_map_editor.Building.{Params, ParamValue, Level, Edge, find}
use imrmf_map_editor.Building.ParamType.{string}
use imrmf_map_editor.Building.Delete.{out_of_range}
use imrmf_map_editor.View.Params.{Defaults, param_optional}
use imrmf_map_editor.View.Align.{vertical, max, apply_align}
use imrmf_map_editor.View.Align.Exact.{IsAligned, apply_align-IsAligned}
use imrmf_map_editor.View.Mutex.{get_mutex, gather_mutex_groups, lane_names, vertex_names}
use imrmf_map_editor.View.Mutex.Counts.{by_name, named, counted, count, gather_mutex_groups-counted}
use imrmf_map_editor.Tests.Maps.{Node, level}
use imrmf_map_editor.Tests.Nodes.{toy_double}

abbrev defaults : Defaults ℕ
defaults = record { texture_height = 2; motion_degrees = 90 }

-- `speed_limit` may be absent, `graph_idx` may not.
optional-read :
    (param_optional (codes "speed_limit") ≡ true) × (param_optional (codes "graph_idx") ≡ false)
unfolding param_optional text_eq
optional-read = (refl, refl)

abbrev text_value : Text → ParamValue ℕ
text_value s = record { type = string; s = s; i = pos 0; d = 0; b = false }

abbrev brick : Params ℕ
brick = (codes "texture_name", text_value (codes "brick")) ∷ []

in_level : All (λ i. out_of_range i 5 ≡ false) (pos 1 ∷ pos 3 ∷ pos 1 ∷ [])
unfolding out_of_range
in_level = ground arith

apply_align-IsAligned_example :
    IsAligned toy_double
      (pos 1 ∷ pos 3 ∷ pos 1 ∷ [])
      vertical
      max
      level
      (apply_align toy_double (pos 1 ∷ pos 3 ∷ pos 1 ∷ []) vertical max level)
apply_align-IsAligned_example =
    apply_align-IsAligned toy_double (pos 1 ∷ pos 3 ∷ pos 1 ∷ []) vertical max level in_level
      (omega arith)

-- Two lanes of one group.
abbrev guarded : Edge ℕ
guarded = record {
  start_idx = pos 0;
  end_idx = pos 1;
  params = (codes "mutex", text_value (codes "dock")) ∷ [];
}

abbrev guarded_level : Level ℕ Node
guarded_level = record level { lanes = guarded ∷ guarded ∷ [] }

two_guarded :
    gather_mutex_groups guarded_level ≡ record { name = codes "dock"; lanes = 2; vertices = 0 } ∷ []
unfolding gather_mutex_groups get_mutex text_eq
two_guarded = refl

dock_named : codes "dock" ≢ []
dock_named = λ e. cc

gather_mutex_groups-counted_example :
    find (codes "dock") (by_name (gather_mutex_groups guarded_level))
    ≡ named (codes "dock") (
        counted
          (count (codes "dock") (lane_names guarded_level))
          (count (codes "dock") (vertex_names guarded_level)))
gather_mutex_groups-counted_example =
    gather_mutex_groups-counted guarded_level (codes "dock") dock_named
