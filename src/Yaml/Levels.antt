-- ===== src/Yaml/Levels.antt =====
-- Reading layers, levels and a whole map: `layer_from_yaml`, `level_from_yaml` and `parse_building`
-- of model/yaml_io.cpp.
use imrmf_map_editor.Base.{
  Bool, true, ◌&&◌, ◌||◌, Option, none, some, List, [], ◌∷◌, map, length, get_elem?, leb,
  if◌then◌else◌,
}
use imrmf_map_editor.Base.Text.{Text, codes, text_eq, mem_text}
use imrmf_map_editor.Building.{Layer, Level, Building, Edge}
use imrmf_map_editor.Building.Double.{Double}
use imrmf_map_editor.Building.Scale.{snapshot_level_mpps}
use imrmf_map_editor.Yaml.{Yaml, ◌>>=◌, for_each}
use imrmf_map_editor.Yaml.Read.{
  vertex_from_yaml, edge_from_yaml, floor_from_yaml, fiducial_from_yaml, other_entries, items_if,
  entries_if_map, double_or, text_or, bool_or,
}

module _ {D : Type 0} (Y : Yaml D) (F : Double D) where
  -- A default-constructed layer of a name.
  abbrev blank_layer : Text → Layer D Y.Node
  blank_layer name = record {
    name = name;
    filename = [];
    visible = true;
    color_r = F.one;
    color_g = F.one;
    color_b = F.one;
    color_a = F.half;
    scale = F.one;
    yaw = F.zero;
    translation_x = F.zero;
    translation_y = F.zero;
    passthrough = Y.null;
  }

  -- The members of the transform, where it is a map.
  transform_member : Option Y.Node → Text → Option (Option Y.Node)
  transform_member none key = some none
  transform_member (some t) key = if Y.is_map t then Y.member t key else some none

  abbrev four_items : Y.Node → Bool
  four_items node = Y.is_sequence node && leb 4 (length (Y.items node))

  layer_members : Text → Y.Node → Option (Layer D Y.Node)
  unfolding transform_member items_if other_entries
  layer_members name node = do
    filename ← Y.member node (codes "filename")
    visible ← Y.member node (codes "visible")
    color ← Y.member node (codes "color")
    transform ← Y.member node (codes "transform")
    scale ← transform_member transform (codes "scale")
    yaw ← transform_member transform (codes "yaw")
    translation_x ← transform_member transform (codes "translation_x")
    translation_y ← transform_member transform (codes "translation_y")
    rest ←
        other_entries Y F
          (λ k.
            text_eq k (codes "filename")
            || text_eq k (codes "visible")
            || text_eq k (codes "color")
            || text_eq k (codes "transform"))
          [] (Y.entries node)
    let channels = items_if Y F four_items color
    some (record {
      name = name;
      filename = text_or Y F [] filename;
      visible = bool_or Y F true visible;
      color_r = double_or Y F F.one (get_elem? channels 0);
      color_g = double_or Y F F.one (get_elem? channels 1);
      color_b = double_or Y F F.one (get_elem? channels 2);
      color_a = double_or Y F F.half (get_elem? channels 3);
      scale = double_or Y F F.one scale;
      yaw = double_or Y F F.zero yaw;
      translation_x = double_or Y F F.zero translation_x;
      translation_y = double_or Y F F.zero translation_y;
      passthrough = Y.mapping rest;
    })

  unfoldable pub layer_from_yaml : Text → Y.Node → Option (Layer D Y.Node)
  unfolding layer_members
  layer_from_yaml name node =
      if Y.is_map node then layer_members name node else some (blank_layer name)

  abbrev known_level_keys : List Text
  known_level_keys =
      codes "vertices"
      ∷ codes "lanes"
      ∷ codes "walls"
      ∷ codes "doors"
      ∷ codes "floors"
      ∷ codes "measurements"
      ∷ codes "fiducials"
      ∷ codes "elevation"
      ∷ codes "drawing"
      ∷ codes "layers"
      ∷ []

  unfoldable pub is_known_level_key : Text → Bool
  unfolding mem_text
  is_known_level_key k = mem_text k known_level_keys

  -- A loop over whatever the member is.
  edges_of : Y.Node → Text → Option (List (Edge D))
  unfolding for_each edge_from_yaml items_if
  edges_of node key = do
    edges ← Y.member node key
    for_each (edge_from_yaml Y F) (items_if Y F (λ _. true) edges)

  drawing_of : Option Y.Node → Option Text
  drawing_of none = some []
  drawing_of (some drawing) = do
    filename ← Y.member drawing (codes "filename")
    some (text_or Y F [] filename)

  named_layer : Y.Node × Y.Node → Option (Layer D Y.Node)
  unfolding layer_from_yaml
  named_layer (key, value) = do name ← Y.as_text key; layer_from_yaml name value

  unfoldable pub level_from_yaml : Text → Y.Node → Option (Level D Y.Node)
  unfolding for_each edges_of drawing_of named_layer vertex_from_yaml floor_from_yaml
      fiducial_from_yaml other_entries items_if entries_if_map is_known_level_key
  level_from_yaml name node = do
    elevation ← Y.member node (codes "elevation")
    drawing ← Y.member node (codes "drawing")
    drawing_filename ← drawing_of drawing
    vertex_nodes ← Y.member node (codes "vertices")
    vertices ← for_each (vertex_from_yaml Y F) (items_if Y F (λ _. true) vertex_nodes)
    lanes ← edges_of node (codes "lanes")
    walls ← edges_of node (codes "walls")
    doors ← edges_of node (codes "doors")
    measurements ← edges_of node (codes "measurements")
    floor_nodes ← Y.member node (codes "floors")
    floors ← for_each (floor_from_yaml Y F) (items_if Y F Y.is_sequence floor_nodes)
    fiducial_nodes ← Y.member node (codes "fiducials")
    layer_nodes ← Y.member node (codes "layers")
    layers ← for_each named_layer (entries_if_map Y F layer_nodes)
    rest ← other_entries Y F is_known_level_key [] (Y.entries node)
    some (record {
      name = name;
      elevation = double_or Y F F.zero elevation;
      drawing_filename = drawing_filename;
      vertices = vertices;
      lanes = lanes;
      walls = walls;
      doors = doors;
      measurements = measurements;
      floors = floors;
      fiducials = map (fiducial_from_yaml Y F) (items_if Y F Y.is_sequence fiducial_nodes);
      layers = layers;
      passthrough = Y.mapping rest;
      mpp_snapshot = F.zero;
    })

  abbrev known_building_keys : List Text
  known_building_keys =
      codes "name" ∷ codes "coordinate_system" ∷ codes "reference_level_name" ∷ codes "levels" ∷ []

  unfoldable pub is_known_building_key : Text → Bool
  unfolding mem_text
  is_known_building_key k = mem_text k known_building_keys

  named_level : Y.Node × Y.Node → Option (Level D Y.Node)
  unfolding level_from_yaml
  named_level (key, value) = do name ← Y.as_text key; level_from_yaml name value

  building_members : Y.Node → Option (Building D Y.Node)
  unfolding for_each named_level other_entries entries_if_map is_known_building_key
  building_members root = do
    name ← Y.member root (codes "name")
    coordinate_system ← Y.member root (codes "coordinate_system")
    reference_level_name ← Y.member root (codes "reference_level_name")
    level_nodes ← Y.member root (codes "levels")
    levels ← for_each named_level (entries_if_map Y F level_nodes)
    rest ← other_entries Y F is_known_building_key [] (Y.entries root)
    some (record {
      name = text_or Y F [] name;
      coordinate_system = text_or Y F [] coordinate_system;
      reference_level_name = text_or Y F [] reference_level_name;
      levels = levels;
      passthrough = Y.mapping rest;
    })

  unfoldable pub parse_building : Text → Option (Building D Y.Node)
  unfolding building_members snapshot_level_mpps
  parse_building yaml_text = do
    root ← Y.load yaml_text
    building ← if Y.is_map root then building_members root else none
    some (snapshot_level_mpps F building)
