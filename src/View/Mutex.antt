-- ===== src/View/Mutex.antt =====
-- The mutex groups of a level (`gather_mutex_groups` of view/editor_view.cpp).
pub mod Counts
use imrmf_map_editor.Base.{ℕ, suc, Option, none, some, List, [], ◌∷◌, map, if◌then◌else◌}
use imrmf_map_editor.Base.Text.{Text, codes, is_empty}
use imrmf_map_editor.Building.{Params, ParamType, ParamValue, Vertex, Edge, Level, find}
use imrmf_map_editor.Building.ParamType.{string, int, double, bool}
use imrmf_map_editor.Yaml.{assign}

unfoldable pub get_mutex : {D : Type 0} → Params D → Text
unfolding find
get_mutex p = elim (find (codes "mutex") p) [
  | none ↦ []
  | some v ↦ elim v.type [ string ↦ v.s | int ↦ [] | double ↦ [] | bool ↦ [] ]
]

pub record MutexGroupInfo : Type 0 where
  pub name : Text
  pub lanes : ℕ
  pub vertices : ℕ

abbrev pub new_group : MutexGroupInfo
new_group = record { name = []; lanes = 0; vertices = 0 }

abbrev pub Groups : Type 0
Groups = List (Text × MutexGroupInfo)

-- `m[s].lanes++` and `m[s].vertices++`, for each name that is not empty; `bump` is the increment.
abbrev pub or_new : Option MutexGroupInfo → MutexGroupInfo
or_new none = new_group
or_new (some info) = info

unfoldable pub tally : (MutexGroupInfo → MutexGroupInfo) → List Text → Groups → Groups
unfolding assign find
tally bump [] m = m
tally bump (s ∷ names) m =
    tally bump names (if is_empty s then m else assign s (bump (or_new (find s m))) m)

abbrev pub add_lane : MutexGroupInfo → MutexGroupInfo
add_lane info = record info { lanes = suc info.lanes }

abbrev pub add_vertex : MutexGroupInfo → MutexGroupInfo
add_vertex info = record info { vertices = suc info.vertices }

module _ {D N : Type 0} where
  abbrev pub lane_names : Level D N → List Text
  lane_names level = map (λ (l : Edge D). get_mutex l.params) level.lanes

  abbrev pub vertex_names : Level D N → List Text
  vertex_names level = map (λ (v : Vertex D). get_mutex v.params) level.vertices

  -- The `std::map` of the function.
  unfoldable pub group_map : Level D N → Groups
  unfolding tally
  group_map level = tally add_vertex (vertex_names level) (tally add_lane (lane_names level) [])

  unfoldable pub gather_mutex_groups : Level D N → List MutexGroupInfo
  unfolding group_map get_mutex
  gather_mutex_groups level =
      map (λ (g : Text × MutexGroupInfo). record (g.1) { name = g.0 }) (group_map level)
