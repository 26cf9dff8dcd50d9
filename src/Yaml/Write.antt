-- ===== src/Yaml/Write.antt =====
-- Writing a map: `param_to_yaml` to `serialize_building` of model/yaml_io.cpp. An assignment to a key
-- that a passthrough holds replaces that node; that the two share it is not modelled.
use imrmf_map_editor.Base.{Bool, false, Option, some, List, [], ◌∷◌, ◌++◌, map, if◌then◌else◌}
use imrmf_map_editor.Base.Int.{ℤ, pos}
use imrmf_map_editor.Base.Text.{Text, codes, is_empty}
use imrmf_map_editor.Building.{
  ParamValue, Params, Vertex, Edge, Floor, Fiducial, Layer, Level, Building,
}
use imrmf_map_editor.Building.ParamType.{string, int, double, bool}
use imrmf_map_editor.Yaml.{Yaml, ◌>>=◌, for_each, put}

module _ {D : Type 0} (Y : Yaml D) where
  unfoldable pub param_to_yaml : ParamValue D → Y.Node
  param_to_yaml p = elim p.type [
    | string ↦ Y.sequence (Y.of_int (pos 1) ∷ Y.of_text p.s ∷ [])
    | int ↦ Y.sequence (Y.of_int (pos 2) ∷ Y.of_int p.i ∷ [])
    | double ↦ Y.sequence (Y.of_int (pos 3) ∷ Y.of_double p.d ∷ [])
    | bool ↦ Y.sequence (Y.of_int (pos 4) ∷ Y.of_bool p.b ∷ [])
  ]

  -- The loop that adds parameters to a map node.
  unfoldable pub put_params : List (Text × Y.Node) → Params D → List (Text × Y.Node)
  unfolding put
  put_params kvs [] = kvs
  put_params kvs ((k, p) ∷ m) = put_params (put k (param_to_yaml p) kvs) m

  -- A vertex leaves out its empty string parameters.
  unfoldable pub is_blank : ParamValue D → Bool
  is_blank p = elim p.type [ string ↦ is_empty p.s | int ↦ false | double ↦ false | bool ↦ false ]

  unfoldable pub put_vertex_params : List (Text × Y.Node) → Params D → List (Text × Y.Node)
  unfolding put is_blank
  put_vertex_params kvs [] = kvs
  put_vertex_params kvs ((k, p) ∷ m) =
      put_vertex_params (if is_blank p then kvs else put k (param_to_yaml p) kvs) m

  unfoldable pub vertex_to_yaml : Vertex D → Y.Node
  unfolding put_vertex_params
  vertex_to_yaml v = Y.sequence (
      Y.of_double v.x
      ∷ Y.of_double v.y
      ∷ Y.of_double v.z
      ∷ Y.of_text v.name
      ∷ Y.mapping (put_vertex_params [] v.params)
      ∷ [])

  unfoldable pub edge_to_yaml : Edge D → Y.Node
  unfolding put_params
  edge_to_yaml e =
      Y.sequence
        (Y.of_int e.start_idx ∷ Y.of_int e.end_idx ∷ Y.mapping (put_params [] e.params) ∷ [])

  -- The pairs of a passthrough, which come first.
  splice : Y.Node → Option (List (Text × Y.Node))
  unfolding put
  splice passthrough = if Y.is_map passthrough then go [] (Y.entries passthrough) else some []
    where
      go : List (Text × Y.Node) → List (Y.Node × Y.Node) → Option (List (Text × Y.Node))
      go kvs [] = some kvs
      go kvs ((key, value) ∷ entries) = do k ← Y.as_text key; go (put k value kvs) entries

  -- `if (!xs.empty()) node[key] = nodes;`
  put_if : {A : Type 0} → List A → Text → Y.Node → List (Text × Y.Node) → List (Text × Y.Node)
  unfolding put
  put_if xs key node kvs = if is_empty xs then kvs else put key node kvs

  ints_to_yaml : List ℤ → Y.Node
  ints_to_yaml is = Y.sequence (map Y.of_int is)

  unfoldable pub floor_to_yaml : Floor D Y.Node → Option Y.Node
  unfolding put put_params splice put_if ints_to_yaml
  floor_to_yaml f = do
    kvs ← splice f.passthrough
    let with_params = put (codes "parameters") (Y.mapping (put_params [] f.params)) kvs
    let with_vertices = put (codes "vertices") (ints_to_yaml f.vertices) with_params
    some (
        Y.mapping
          (put_if f.holes (codes "holes") (Y.sequence (map ints_to_yaml f.holes)) with_vertices))

  unfoldable pub fiducial_to_yaml : Fiducial D → Y.Node
  fiducial_to_yaml f = Y.sequence (Y.of_double f.x ∷ Y.of_double f.y ∷ Y.of_text f.name ∷ [])

  unfoldable pub layer_to_yaml : Layer D Y.Node → Option Y.Node
  unfolding put splice
  layer_to_yaml l = do
    kvs ← splice l.passthrough
    let color = Y.sequence (
        Y.of_double l.color_r
        ∷ Y.of_double l.color_g
        ∷ Y.of_double l.color_b
        ∷ Y.of_double l.color_a
        ∷ [])
    let transform = Y.mapping (
        (codes "scale", Y.of_double l.scale)
        ∷ (codes "yaw", Y.of_double l.yaw)
        ∷ (codes "translation_x", Y.of_double l.translation_x)
        ∷ (codes "translation_y", Y.of_double l.translation_y)
        ∷ [])
    some (
        Y.mapping (
          put (codes "transform") transform (
            put (codes "color") color (
              put (codes "visible") (Y.of_bool l.visible)
                (put (codes "filename") (Y.of_text l.filename) kvs)))))

  put_layers : List (Text × Y.Node) → List (Layer D Y.Node) → Option (List (Text × Y.Node))
  unfolding put layer_to_yaml
  put_layers kvs [] = some kvs
  put_layers kvs (l ∷ layers) = do node ← layer_to_yaml l; put_layers (put l.name node kvs) layers

  put_edges : Text → List (Edge D) → List (Text × Y.Node) → List (Text × Y.Node)
  unfolding put_if edge_to_yaml
  put_edges key edges kvs = put_if edges key (Y.sequence (map edge_to_yaml edges)) kvs

  unfoldable pub level_to_yaml : Level D Y.Node → Option Y.Node
  unfolding put put_if put_edges put_layers splice for_each vertex_to_yaml edge_to_yaml
      floor_to_yaml fiducial_to_yaml
  level_to_yaml l = do
    kvs ← splice l.passthrough
    floors ← for_each floor_to_yaml l.floors
    layers ← put_layers [] l.layers
    let drawing = Y.mapping ((codes "filename", Y.of_text l.drawing_filename) ∷ [])
    let with_drawing = put_if l.drawing_filename (codes "drawing") drawing kvs
    let with_elevation = put (codes "elevation") (Y.of_double l.elevation) with_drawing
    let with_vertices =
        put (codes "vertices") (Y.sequence (map vertex_to_yaml l.vertices)) with_elevation
    let with_lanes = put (codes "lanes") (Y.sequence (map edge_to_yaml l.lanes)) with_vertices
    let with_walls = put_edges (codes "walls") l.walls with_lanes
    let with_doors = put_edges (codes "doors") l.doors with_walls
    let with_measurements = put_edges (codes "measurements") l.measurements with_doors
    let with_floors = put_if l.floors (codes "floors") (Y.sequence floors) with_measurements
    let with_fiducials =
        put_if l.fiducials (codes "fiducials") (Y.sequence (map fiducial_to_yaml l.fiducials))
          with_floors
    some (Y.mapping (put_if l.layers (codes "layers") (Y.mapping layers) with_fiducials))

  put_levels : List (Text × Y.Node) → List (Level D Y.Node) → Option (List (Text × Y.Node))
  unfolding put level_to_yaml
  put_levels kvs [] = some kvs
  put_levels kvs (l ∷ levels) = do node ← level_to_yaml l; put_levels (put l.name node kvs) levels

  unfoldable pub building_to_yaml : Building D Y.Node → Option Y.Node
  unfolding put put_if put_levels splice
  building_to_yaml b = do
    kvs ← splice b.passthrough
    levels ← put_levels [] b.levels
    let with_system =
        put_if b.coordinate_system (codes "coordinate_system") (Y.of_text b.coordinate_system) kvs
    let with_reference =
        put_if b.reference_level_name (codes "reference_level_name")
          (Y.of_text b.reference_level_name) with_system
    some (
        Y.mapping (
          put (codes "levels") (Y.mapping levels)
            (put (codes "name") (Y.of_text b.name) with_reference)))

  -- The text of one element, and of a map, which ends in a newline.
  unfoldable pub serialize_vertex : Vertex D → Text
  unfolding vertex_to_yaml
  serialize_vertex v = Y.emit (vertex_to_yaml v)

  -- `serialize_lane`, `serialize_wall`, `serialize_door` and `serialize_measurement`
  unfoldable pub serialize_edge : Edge D → Text
  unfolding edge_to_yaml
  serialize_edge e = Y.emit (edge_to_yaml e)

  unfoldable pub serialize_floor : Floor D Y.Node → Option Text
  unfolding floor_to_yaml
  serialize_floor f = do node ← floor_to_yaml f; some (Y.emit node)

  unfoldable pub serialize_layer : Layer D Y.Node → Option Text
  unfolding layer_to_yaml
  serialize_layer l = do node ← layer_to_yaml l; some (Y.emit node)

  unfoldable pub serialize_fiducial : Fiducial D → Text
  unfolding fiducial_to_yaml
  serialize_fiducial f = Y.emit (fiducial_to_yaml f)

  unfoldable pub serialize_building : Building D Y.Node → Option Text
  unfolding building_to_yaml
  serialize_building b = do root ← building_to_yaml b; some (Y.emit root ++ b'\n' ∷ [])
