-- ===== src/Yaml.antt =====
-- building.yaml: model/yaml_io.hpp and model/yaml_io.cpp, over an interface of the library yaml-cpp.
-- An exception, `YamlParseError` or one of the library's, is `none`. Styles are not modelled.
pub mod Read
pub mod Levels
pub mod Write
pub mod Edges
use imrmf_map_editor.Base.{
  ℕ, ◌≡◌, ◌+◌, Bool, true, false, Option, none, some, List, [], ◌∷◌, map, if◌then◌else◌, ltb, ◌==◌,
  length, filter, All,
}
use imrmf_map_editor.Base.Int.{ℤ}
use imrmf_map_editor.Base.Text.{Text, text_eq, is_empty}
use imrmf_map_editor.Building.{ParamType, ParamValue, find}

-- A node as the library gives it. `member` is `node[key]`: none where it throws, else the value if the
-- key is there. `items` is what a loop over the node meets, `entries` the pairs of a map.
pub record Yaml (D : Type 0) : Type 1 where
  pub Node : Type 0
  pub load : Text → Option Node
  pub emit : Node → Text
  pub is_sequence : Node → Bool
  pub is_map : Node → Bool
  pub is_scalar : Node → Bool
  pub items : Node → List Node
  pub entries : Node → List (Node × Node)
  pub member : Node → Text → Option (Option Node)
  pub null : Node
  pub scalar : Node → Text
  pub as_text : Node → Option Text
  pub as_int : Node → Option ℤ
  pub as_double : Node → Option D
  pub as_bool : Node → Option Bool
  pub sequence : List Node → Node
  pub mapping : List (Text × Node) → Node
  pub of_text : Text → Node
  pub of_int : ℤ → Node
  pub of_double : D → Node
  pub of_bool : Bool → Node

-- What the round trips rely on: a node that was built is read back.
pub record IsFaithful {D : Type 0} (Y : Yaml D) : Type 0 where
  pub sequence-is_sequence : (ns : List Y.Node) → Y.is_sequence (Y.sequence ns) ≡ true
  pub items-sequence : (ns : List Y.Node) → Y.items (Y.sequence ns) ≡ ns
  pub mapping-is_map : (kvs : List (Text × Y.Node)) → Y.is_map (Y.mapping kvs) ≡ true
  pub entries-mapping :
      (kvs : List (Text × Y.Node))
      → Y.entries (Y.mapping kvs) ≡ map (λ kv. (Y.of_text kv.0, kv.1)) kvs
  pub as_text-of_text : (t : Text) → Y.as_text (Y.of_text t) ≡ some t
  pub as_int-of_int : (i : ℤ) → Y.as_int (Y.of_int i) ≡ some i
  pub as_double-of_double : (d : D) → Y.as_double (Y.of_double d) ≡ some d
  pub as_bool-of_bool : (b : Bool) → Y.as_bool (Y.of_bool b) ≡ some b

-- `node.as<T>(fallback)`
abbrev pub or_else {ℓ} : {A : Type ℓ} → Option A → A → A
or_else (some a) fallback = a
or_else none fallback = fallback

-- A chain of calls of which any may throw.
infixl 5 ◌>>=◌
abbrev pub ◌>>=◌ {ℓ κ} : {A : Type ℓ} {B : Type κ} → Option A → (A → Option B) → Option B
none >>= rest = none
some value >>= rest = rest value

unfoldable pub for_each {ℓ κ} :
    {A : Type ℓ} {B : Type κ} → (A → Option B) → List A → Option (List B)
for_each f [] = some []
for_each f (x ∷ xs) = do y ← f x; ys ← for_each f xs; some (y ∷ ys)

-- The order of `std::string`.
unfoldable pub text_ltb : Text → Text → Bool
text_ltb s [] = false
text_ltb [] (b ∷ t) = true
text_ltb (a ∷ s) (b ∷ t) =
    let rest = text_ltb s t in if ltb a b then true else if a == b then rest else false

-- `m[key] = value` for a `std::map`, whose entries are in the order of their keys.
unfoldable pub assign {ℓ} : {V : Type ℓ} → Text → V → List (Text × V) → List (Text × V)
unfolding text_ltb
assign k v [] = (k, v) ∷ []
assign k v ((j, w) ∷ m) =
    let rest = assign k v m in
    if text_eq j k then (j, v) ∷ m else if text_ltb k j then (k, v) ∷ (j, w) ∷ m else (j, w) ∷ rest

-- `node[key] = value` for a map node: the value of a key is replaced in its place, a new key is last.
unfoldable pub put {ℓ} : {V : Type ℓ} → Text → V → List (Text × V) → List (Text × V)
put k v [] = (k, v) ∷ []
put k v ((j, w) ∷ m) = let rest = put k v m in if text_eq j k then (j, v) ∷ m else (j, w) ∷ rest
