-- ===== src/Tests/Nodes.antt =====
-- A toy YAML library and toy arithmetic over numbers, and round trips through them.
use imrmf_map_editor.Base.{
  ℕ, ◌+◌, ◌-◌, ◌*◌, ◌/◌, ◌≡◌, refl, ap, Bool, true, false, Option, none, some, List, [], ◌∷◌, map,
  ltb, leb,
}
use imrmf_map_editor.Base.Int.{ℤ, pos, pos_part}
use imrmf_map_editor.Base.Text.{Text, codes}
use imrmf_map_editor.Building.{Params, Edge, Vertex, find}
use imrmf_map_editor.Building.ParamType.{string, int}
use imrmf_map_editor.Building.Double.{Double}
use imrmf_map_editor.Building.{Fiducial}
use imrmf_map_editor.Building.Frames.{compute_floor_transform, match_all, match_of, fit_pairs}
use imrmf_map_editor.Building.Frames.Matched.{has_match, compute_floor_transform-matched}
use imrmf_map_editor.Base.{length, filter}
use imrmf_map_editor.Base.Text.{text_eq}
use imrmf_map_editor.Yaml.{Yaml, IsFaithful, text_ltb}
use imrmf_map_editor.Yaml.Read.{edge_from_yaml, vertex_from_yaml}
use imrmf_map_editor.Yaml.Write.{edge_to_yaml, vertex_to_yaml}
use imrmf_map_editor.Yaml.Edges.{IsSortedAfter, kept, shown, edge-roundtrip, vertex-roundtrip}

pub data Tree : Type 0 where
  text : Text → Tree
  number : ℤ → Tree
  real : ℕ → Tree
  flag : Bool → Tree
  last : Tree
  item : Tree → Tree → Tree
  no_pair : Tree
  pair : Text → Tree → Tree → Tree

unfoldable pub sequence_of : List Tree → Tree
sequence_of [] = last
sequence_of (t ∷ ts) = item t (sequence_of ts)

unfoldable pub mapping_of : List (Text × Tree) → Tree
mapping_of [] = no_pair
mapping_of ((k, t) ∷ kvs) = pair k t (mapping_of kvs)

unfoldable pub items_of : Tree → List Tree
items_of (item t rest) = t ∷ items_of rest
items_of _ = []

unfoldable pub pairs_of : Tree → List (Text × Tree)
pairs_of (pair k t rest) = (k, t) ∷ pairs_of rest
pairs_of _ = []

unfoldable pub is_seq : Tree → Bool
is_seq last = true
is_seq (item _ _) = true
is_seq _ = false

unfoldable pub is_mapping : Tree → Bool
is_mapping no_pair = true
is_mapping (pair _ _ _) = true
is_mapping _ = false

unfoldable pub text_of : Tree → Option Text
text_of (text t) = some t
text_of _ = none

unfoldable pub int_of : Tree → Option ℤ
int_of (number i) = some i
int_of _ = none

unfoldable pub real_of : Tree → Option ℕ
real_of (real n) = some n
real_of _ = none

unfoldable pub flag_of : Tree → Option Bool
flag_of (flag b) = some b
flag_of _ = none

-- Every text is an empty map.
abbrev pub toy_yaml : Yaml ℕ
toy_yaml = record {
  Node = Tree;
  load = λ t. some no_pair;
  emit = λ n. [];
  is_sequence = is_seq;
  is_map = is_mapping;
  is_scalar = λ n. false;
  items = items_of;
  entries = λ n. map (λ kv. (text kv.0, kv.1)) (pairs_of n);
  member = λ n k. some (find k (pairs_of n));
  null = text [];
  scalar = λ n. [];
  as_text = text_of;
  as_int = int_of;
  as_double = real_of;
  as_bool = flag_of;
  sequence = sequence_of;
  mapping = mapping_of;
  of_text = text;
  of_int = number;
  of_double = real;
  of_bool = flag;
}

is_seq-sequence_of : (ns : List Tree) → is_seq (sequence_of ns) ≡ true
unfolding is_seq sequence_of
is_seq-sequence_of [] = refl
is_seq-sequence_of (n ∷ ns) = refl

items_of-sequence_of : (ns : List Tree) → items_of (sequence_of ns) ≡ ns
unfolding items_of sequence_of
items_of-sequence_of [] = refl
items_of-sequence_of (n ∷ ns) = ap (◌∷◌ n) (items_of-sequence_of ns)

is_mapping-mapping_of : (kvs : List (Text × Tree)) → is_mapping (mapping_of kvs) ≡ true
unfolding is_mapping mapping_of
is_mapping-mapping_of [] = refl
is_mapping-mapping_of ((k, t) ∷ kvs) = refl

pairs_of-mapping_of : (kvs : List (Text × Tree)) → pairs_of (mapping_of kvs) ≡ kvs
unfolding pairs_of mapping_of
pairs_of-mapping_of [] = refl
pairs_of-mapping_of ((k, t) ∷ kvs) = ap (◌∷◌ (k, t)) (pairs_of-mapping_of kvs)

-- The hypotheses about the YAML library can be met.
toy_yaml-IsFaithful : IsFaithful toy_yaml
unfolding text_of int_of real_of flag_of
toy_yaml-IsFaithful = record {
  sequence-is_sequence = is_seq-sequence_of;
  items-sequence = items_of-sequence_of;
  mapping-is_map = is_mapping-mapping_of;
  entries-mapping = λ kvs. ap (map (λ kv. (text kv.0, kv.1))) (pairs_of-mapping_of kvs);
  as_text-of_text = λ t. refl;
  as_int-of_int = λ i. refl;
  as_double-of_double = λ d. refl;
  as_bool-of_bool = λ b. refl;
}

abbrev pub toy_double : Double ℕ
toy_double = record {
  zero = 0;
  half = 0;
  one = 1;
  tiny = 0;
  add = λ a b. a + b;
  sub = λ a b. a - b;
  mul = λ a b. a * b;
  div = λ a b. a / b;
  neg = λ a. a;
  sqrt = λ a. a;
  cos = λ a. 1;
  sin = λ a. 0;
  atan2 = λ a b. 0;
  of_int = pos_part;
  lt = ltb;
  le = leb;
}

-- An empty string and a number.
abbrev params : Params ℕ
params =
    (codes "dock", record { type = string; s = []; i = pos 0; d = 0; b = false })
    ∷ (codes "speed", record { type = int; s = []; i = pos 3; d = 0; b = false })
    ∷ []

params-IsSortedAfter : IsSortedAfter [] params
unfolding IsSortedAfter text_ltb
params-IsSortedAfter = (tt, ((refl, tt), tt))

abbrev lane : Edge ℕ
lane = record { start_idx = pos 0; end_idx = pos 1; params = params }

edge-roundtrip_example :
    edge_from_yaml toy_yaml toy_double (edge_to_yaml toy_yaml lane)
    ≡ some (record lane { params = kept toy_yaml toy_double params })
edge-roundtrip_example =
    edge-roundtrip toy_yaml toy_double toy_yaml-IsFaithful lane params-IsSortedAfter

abbrev corner : Vertex ℕ
corner = record { x = 4; y = 5; z = 0; name = codes "gate"; params = params }

vertex-roundtrip_example :
    vertex_from_yaml toy_yaml toy_double (vertex_to_yaml toy_yaml corner)
    ≡ some (record corner { params = kept toy_yaml toy_double (shown toy_yaml toy_double params) })
vertex-roundtrip_example =
    vertex-roundtrip toy_yaml toy_double toy_yaml-IsFaithful corner params-IsSortedAfter

-- One of the two reference fiducials has a match.
abbrev here : List (Fiducial ℕ)
here =
    record { x = 1; y = 2; name = codes "lift" }
    ∷ record { x = 3; y = 4; name = codes "stairs" }
    ∷ []

abbrev there : List (Fiducial ℕ)
there = record { x = 5; y = 6; name = codes "lift" } ∷ record { x = 7; y = 8; name = [] } ∷ []

compute_floor_transform-matched_example :
    (compute_floor_transform toy_double here there 1).matched
    ≡ length (filter (has_match there) here)
compute_floor_transform-matched_example = compute_floor_transform-matched toy_double here there 1

one_matched : (compute_floor_transform toy_double here there 1).matched ≡ 1
unfolding compute_floor_transform match_all match_of fit_pairs text_eq
one_matched = refl
