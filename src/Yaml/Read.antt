-- ===== src/Yaml/Read.antt =====
-- Reading a map: `param_from_yaml` to `parse_building` of model/yaml_io.cpp.
use imrmf_map_editor.Base.{
  ℕ, Bool, true, false, not, ◌&&◌, ◌||◌, Option, none, some, List, [], ◌∷◌, map, get_elem?,
  if◌then◌else◌,
}
use imrmf_map_editor.Base.Int.{ℤ, pos, eqb_ℤ}
use imrmf_map_editor.Base.Text.{Text, codes, text_eq}
use imrmf_map_editor.Building.{ParamType, ParamValue, Params, Vertex, Edge, Floor, Fiducial}
use imrmf_map_editor.Building.ParamType.{string, int, double, bool}
use imrmf_map_editor.Building.Double.{Double}
use imrmf_map_editor.Yaml.{Yaml, or_else, ◌>>=◌, assign, put}

module _ {D : Type 0} (Y : Yaml D) (F : Double D) where
  -- A default-constructed `ParamValue` but for its type.
  abbrev pub blank : ParamType → ParamValue D
  blank type = record { type = type; s = []; i = pos 0; d = F.zero; b = false }

  -- A value under its type code; an unknown code is read as a string.
  unfoldable pub coded_param : ℤ → Y.Node → ParamValue D
  coded_param code v =
      if eqb_ℤ code (pos 2)
      then record (blank int) { i = or_else (Y.as_int v) (pos 0) }
      else if eqb_ℤ code (pos 3)
      then record (blank double) { d = or_else (Y.as_double v) F.zero }
      else if eqb_ℤ code (pos 4)
      then record (blank bool) { b = or_else (Y.as_bool v) false }
      else record (blank string) { s = or_else (Y.as_text v) [] }

  -- The older form: a scalar, of which the type is tried out.
  plain_param : Y.Node → ParamValue D
  plain_param node = if not (Y.is_scalar node) then blank string else elim (Y.as_bool node) [
    | some b ↦ record (blank bool) { b = b }
    | none ↦ elim (Y.as_int node) [
      | some i ↦ record (blank int) { i = i }
      | none ↦ elim (Y.as_double node) [
        | some d ↦ record (blank double) { d = d }
        | none ↦ record (blank string) { s = Y.scalar node }
      ]
    ]
  ]

  -- `[code, value]`, for the items of a sequence.
  pair_param : List Y.Node → Option (Option (ParamValue D))
  unfolding coded_param
  pair_param (c ∷ v ∷ _) = do code ← Y.as_int c; some (some (coded_param code v))
  pair_param _ = some none

  unfoldable pub param_from_yaml : Y.Node → Option (ParamValue D)
  unfolding plain_param pair_param
  param_from_yaml node = do
    coded ← if Y.is_sequence node then pair_param (Y.items node) else some none
    some (or_else coded (plain_param node))

  -- The loop over the pairs of a map.
  unfoldable pub read_params : Params D → List (Y.Node × Y.Node) → Option (Params D)
  unfolding param_from_yaml assign
  read_params m [] = some m
  read_params m ((key, value) ∷ entries) = do
    p ← param_from_yaml value
    k ← Y.as_text key
    read_params (assign k p m) entries

  -- The parameters at the place of a sequence where a map may stand.
  unfoldable pub params_at : List Y.Node → ℕ → Option (Params D)
  unfolding read_params
  params_at items i = elim (get_elem? items i) [
    | none ↦ some []
    | some node ↦ if Y.is_map node then read_params [] (Y.entries node) else some []
  ]

  abbrev pub double_or : D → Option Y.Node → D
  double_or fallback none = fallback
  double_or fallback (some node) = or_else (Y.as_double node) fallback

  abbrev pub text_or : Text → Option Y.Node → Text
  text_or fallback none = fallback
  text_or fallback (some node) = or_else (Y.as_text node) fallback

  abbrev pub bool_or : Bool → Option Y.Node → Bool
  bool_or fallback none = fallback
  bool_or fallback (some node) = or_else (Y.as_bool node) fallback

  -- The items of a vertex: x, y, and then z, the name and the parameters, where they are there.
  vertex_items : List Y.Node → Option (Vertex D)
  unfolding params_at
  vertex_items (x_node ∷ y_node ∷ rest) = do
    x ← Y.as_double x_node
    y ← Y.as_double y_node
    params ← params_at rest 2
    some (record {
      x = x;
      y = y;
      z = double_or F.zero (get_elem? rest 0);
      name = text_or [] (get_elem? rest 1);
      params = params;
    })
  vertex_items _ = none

  unfoldable pub vertex_from_yaml : Y.Node → Option (Vertex D)
  unfolding vertex_items
  vertex_from_yaml node = if Y.is_sequence node then vertex_items (Y.items node) else none

  edge_items : List Y.Node → Option (Edge D)
  unfolding params_at
  edge_items (start_node ∷ end_node ∷ rest) = do
    start_idx ← Y.as_int start_node
    end_idx ← Y.as_int end_node
    params ← params_at rest 0
    some (record { start_idx = start_idx; end_idx = end_idx; params = params })
  edge_items _ = none

  unfoldable pub edge_from_yaml : Y.Node → Option (Edge D)
  unfolding edge_items
  edge_from_yaml node = if Y.is_sequence node then edge_items (Y.items node) else none

  fiducial_items : List Y.Node → Fiducial D
  fiducial_items (x_node ∷ y_node ∷ name_node ∷ _) = record {
    x = or_else (Y.as_double x_node) F.zero;
    y = or_else (Y.as_double y_node) F.zero;
    name = or_else (Y.as_text name_node) [];
  }
  fiducial_items _ = record { x = F.zero; y = F.zero; name = [] }

  unfoldable pub fiducial_from_yaml : Y.Node → Fiducial D
  unfolding fiducial_items
  fiducial_from_yaml node = fiducial_items (if Y.is_sequence node then Y.items node else [])

  all_items : (Y.Node → Bool) → List Y.Node → Bool
  all_items test [] = true
  all_items test (n ∷ ns) = test n && all_items test ns

  unfoldable pub holes_are_typed : Y.Node → Bool
  unfolding all_items
  holes_are_typed node =
      Y.is_sequence node
      && all_items (λ loop. Y.is_sequence loop && all_items Y.is_scalar (Y.items loop))
          (Y.items node)

  ints : Y.Node → List ℤ
  ints node = map (λ v. or_else (Y.as_int v) (pos 0)) (Y.items node)

  -- The loop over a node's pairs that keeps those of the keys that are not modelled.
  unfoldable pub other_entries :
      (Text → Bool) → List (Text × Y.Node) → List (Y.Node × Y.Node) → Option (List (Text × Y.Node))
  unfolding put
  other_entries known kept [] = some kept
  other_entries known kept ((key, value) ∷ entries) = do
    k ← Y.as_text key
    other_entries known (if known k then kept else put k value kept) entries

  -- The items of a member that passes a test.
  unfoldable pub items_if : (Y.Node → Bool) → Option Y.Node → List Y.Node
  items_if test none = []
  items_if test (some node) = if test node then Y.items node else []

  unfoldable pub entries_if_map : Option Y.Node → List (Y.Node × Y.Node)
  entries_if_map none = []
  entries_if_map (some node) = if Y.is_map node then Y.entries node else []

  abbrev pub passes : (Y.Node → Bool) → Option Y.Node → Bool
  passes test none = false
  passes test (some node) = test node

  floor_members : Y.Node → Option (Floor D Y.Node)
  unfolding ints read_params holes_are_typed other_entries items_if entries_if_map
  floor_members node = do
    vertices ← Y.member node (codes "vertices")
    parameters ← Y.member node (codes "parameters")
    holes ← Y.member node (codes "holes")
    params ← read_params [] (entries_if_map parameters)
    rest ←
        other_entries
          (λ k.
            text_eq k (codes "vertices")
            || text_eq k (codes "parameters")
            || (text_eq k (codes "holes") && passes holes_are_typed holes))
          [] (Y.entries node)
    some (record {
      vertices = map (λ v. or_else (Y.as_int v) (pos 0)) (items_if Y.is_sequence vertices);
      holes = map ints (items_if holes_are_typed holes);
      params = params;
      passthrough = Y.mapping rest;
    })

  unfoldable pub floor_from_yaml : Y.Node → Option (Floor D Y.Node)
  unfolding floor_members
  floor_from_yaml node =
      if Y.is_map node
      then floor_members node
      else some (record { vertices = []; holes = []; params = []; passthrough = Y.null })
