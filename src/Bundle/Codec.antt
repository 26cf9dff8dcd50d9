-- ===== src/Bundle/Codec.antt =====
-- The reader and writer of model/yaml_io.cpp, as the bundles of model/map_bundle.cpp call them.
use imrmf_map_editor.Building.Double.{Double}
use imrmf_map_editor.Yaml.{Yaml}
use imrmf_map_editor.Yaml.Levels.{parse_building}
use imrmf_map_editor.Yaml.Write.{serialize_building}
use imrmf_map_editor.Bundle.Interface.{Codec}

abbrev pub yaml_codec : {D : Type 0} (Y : Yaml D) → Double D → Codec D Y.Node
yaml_codec Y F = record {
  parse_building = parse_building Y F;
  serialize_building = serialize_building Y;
}
