-- ===== src/Tests/Lanes.antt =====
-- The lane tool (view/editor_view.cpp) on two lanes, of which a drag crosses one, over hundredths.
use imrmf_map_editor.Base.{ℕ, ◌*◌, ◌/◌, ◌≡◌, refl, true, false, [], ◌∷◌, ◌++◌, arith}
use imrmf_map_editor.Base.Int.{pos, negsuc}
use imrmf_map_editor.Building.{Vertex, Edge, Level}
use imrmf_map_editor.Building.Double.{Double}
use imrmf_map_editor.Tests.Maps.{Node}
use imrmf_map_editor.Tests.Nodes.{toy_double}
use imrmf_map_editor.View.Selection.{delete_lane_indices}
use imrmf_map_editor.View.Selection.Exact.{unselected, delete_lane_indices-exact}
use imrmf_map_editor.View.Split.{Literals, crossing, dissect}
use imrmf_map_editor.View.Split.Exact.{uncrossed, crossed, redrawn, dissect-exact}
use imrmf_map_editor.View.Split.Pieces.{points, all_halves}
use imrmf_map_editor.View.Split.Tool.{LaneTool, drag, click}
use imrmf_map_editor.View.Split.Bounds.{IsReady, Uses, begins, drags, clicks, Uses-IsReady}

abbrev hundredths : Double ℕ
hundredths = record toy_double { one = 100; mul = λ a b. a * b / 100; div = λ a b. a * 100 / b }

abbrev literals : Literals ℕ
literals = record { parallel = 1; margin = 1; degenerate = 1; diagonal = 241 }

abbrev vertex : ℕ → ℕ → Vertex ℕ
vertex x y = record { x = x; y = y; z = 0; name = []; params = [] }

abbrev lane : ℕ → ℕ → Edge ℕ
lane a b = record { start_idx = pos a; end_idx = pos b; params = [] }

abbrev two_lanes : Level ℕ Node
two_lanes = record {
  name = [];
  elevation = 0;
  drawing_filename = [];
  vertices = vertex 50 0 ∷ vertex 50 200 ∷ vertex 300 0 ∷ vertex 300 200 ∷ [];
  lanes = lane 0 1 ∷ lane 2 3 ∷ [];
  walls = [];
  doors = [];
  measurements = [];
  floors = [];
  fiducials = [];
  layers = [];
  passthrough = tt;
  mpp_snapshot = 0;
}

one-crossed :
    crossed hundredths literals (0, 0) (100, 200) two_lanes.vertices two_lanes.lanes
    ≡ (lane 0 1, (50, 100)) ∷ []
unfolding crossed crossing
one-crossed = refl

dissect-exact_example :
    dissect hundredths literals (0, 0) (100, 200) two_lanes
    ≡ redrawn hundredths literals two_lanes
        (points (crossed hundredths literals (0, 0) (100, 200) two_lanes.vertices two_lanes.lanes))
        (uncrossed hundredths literals (0, 0) (100, 200) two_lanes.vertices two_lanes.lanes
          ++ all_halves 4
              (crossed hundredths literals (0, 0) (100, 200) two_lanes.vertices two_lanes.lanes))
dissect-exact_example = dissect-exact hundredths literals (0, 0) (100, 200) two_lanes

abbrev fresh_tool : LaneTool ℕ Node
fresh_tool = record {
  level = two_lanes;
  pending_lane_start = negsuc 0;
  selected_vertices = [];
  selected_lanes = [];
}

fresh_tool-IsReady : IsReady hundredths literals fresh_tool
fresh_tool-IsReady = record {
  level = record {
    lanes = (
      record { start = omega arith; end = omega arith },
      (record { start = omega arith; end = omega arith }, tt),
    );
    walls = tt;
    doors = tt;
    measurements = tt;
    floors = tt;
  };
  start = λ e. cc;
  selected = tt;
}

-- A drag over the lanes, a click on the first vertex, and one beside all vertices and lanes.
abbrev clicked : LaneTool ℕ Node
clicked = click hundredths literals (pos 0) (negsuc 0) (50, 0) false fresh_tool

abbrev used : LaneTool ℕ Node
used =
    drag hundredths literals (0, 0) (100, 200)
      (click hundredths literals (negsuc 0) (negsuc 0) (7, 7) true clicked)

used-Uses : Uses hundredths literals fresh_tool used
used-Uses =
    drags (0, 0) (100, 200)
      (clicks (negsuc 0) (negsuc 0) (7, 7) true (λ e. cc)
        (clicks (pos 0) (negsuc 0) (50, 0) false (λ e. omega arith) begins))

Uses-IsReady_example : IsReady hundredths literals used
Uses-IsReady_example = Uses-IsReady hundredths literals used-Uses fresh_tool-IsReady

delete_lane_indices-exact_example :
    delete_lane_indices (pos 0 ∷ pos 7 ∷ pos 0 ∷ []) two_lanes
    ≡ record two_lanes { lanes = unselected (pos 0 ∷ pos 7 ∷ pos 0 ∷ []) 0 two_lanes.lanes }
delete_lane_indices-exact_example = delete_lane_indices-exact (pos 0 ∷ pos 7 ∷ pos 0 ∷ []) two_lanes
