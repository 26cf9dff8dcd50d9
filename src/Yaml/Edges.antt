-- ===== src/Yaml/Edges.antt =====
-- Round trips of parameters, edges and vertices through their nodes (model/yaml_io.cpp).
use mathlib.Core.List.{map-append}
use imrmf_map_editor.Base.{
  ◌≡◌, refl, ap, ◌∙◌, Bool, true, false, not, some, List, [], ◌∷◌, ◌++◌, map, append_assoc,
  append-nil, arith, All, filter, Bool-cases, inl, inr,
}
use imrmf_map_editor.Base.Int.{ℤ}
use imrmf_map_editor.Base.Text.{Text, text_eq}
use imrmf_map_editor.Building.{ParamType, ParamValue, Params, Edge, Vertex}
use imrmf_map_editor.Building.ParamType.{string, int, double, bool}
use imrmf_map_editor.Building.Double.{Double}
use imrmf_map_editor.Yaml.{Yaml, IsFaithful, assign, put, text_ltb}
use imrmf_map_editor.Yaml.Read.{
  coded_param, blank, param_from_yaml, read_params, params_at, edge_from_yaml, vertex_from_yaml,
}
use imrmf_map_editor.Yaml.Write.{
  is_blank, put_vertex_params, param_to_yaml, put_params, edge_to_yaml, vertex_to_yaml,
}

text_ltb-asym : (s t : Text) → text_ltb s t ≡ true → (text_eq s t ≡ false) × (text_ltb t s ≡ false)
unfolding text_ltb text_eq
text_ltb-asym s [] h = cc
text_ltb-asym [] (b ∷ t) h = (refl, refl)
text_ltb-asym (a ∷ s) (b ∷ t) h =
    (ground (arith, text_ltb-asym s t), ground (arith, text_ltb-asym s t))

-- Each key of a map is above the keys before it.
unfoldable pub IsSortedAfter {ℓ} : {V : Type ℓ} → List Text → List (Text × V) → Type 0
IsSortedAfter ks [] = Unit
IsSortedAfter ks ((k, v) ∷ m) = All (λ j. text_ltb j k ≡ true) ks × IsSortedAfter (ks ++ k ∷ []) m

abbrev keys {ℓ} : {V : Type ℓ} → List (Text × V) → List Text
keys m = map (λ e. e.0) m

assign-above {ℓ} :
    {V : Type ℓ} (k : Text) (v : V) (m : List (Text × V))
    → All (λ j. text_ltb j k ≡ true) (keys m)
    → assign k v m ≡ m ++ (k, v) ∷ []
unfolding assign
assign-above k v [] h = refl
assign-above k v ((j, w) ∷ m) h =
    rw ((text_ltb-asym j k (h.0)).0, (text_ltb-asym j k (h.0)).1)
      (ap (◌∷◌ (j, w)) (assign-above k v m (h.1)))

put-above {ℓ} :
    {V : Type ℓ} (k : Text) (v : V) (m : List (Text × V))
    → All (λ j. text_ltb j k ≡ true) (keys m)
    → put k v m ≡ m ++ (k, v) ∷ []
unfolding put
put-above k v [] h = refl
put-above k v ((j, w) ∷ m) h =
    rw (text_ltb-asym j k (h.0)).0 (ap (◌∷◌ (j, w)) (put-above k v m (h.1)))

module _ {D : Type 0} (Y : Yaml D) (F : Double D) where
  -- A parameter with the field of its type only.
  unfoldable pub only : ParamValue D → ParamValue D
  only p = elim p.type [
    | string ↦ record (blank Y F string) { s = p.s }
    | int ↦ record (blank Y F int) { i = p.i }
    | double ↦ record (blank Y F double) { d = p.d }
    | bool ↦ record (blank Y F bool) { b = p.b }
  ]

  -- The parameters as they are read back.
  abbrev pub kept : Params D → Params D
  kept m = map (λ e. (e.0, only e.1)) m

  -- The parameters of a vertex that are written.
  abbrev pub shown : Params D → Params D
  shown m = filter (λ e. not (is_blank Y e.1)) m

module _ {D : Type 0} (Y : Yaml D) (F : Double D) (law : IsFaithful Y) where
  param_from_yaml-pair :
      (code : ℤ) (v : Y.Node)
      → param_from_yaml Y F (Y.sequence (Y.of_int code ∷ v ∷ [])) ≡ some (coded_param Y F code v)
  unfolding param_from_yaml
  param_from_yaml-pair code v =
      rw
        (
          law.sequence-is_sequence (Y.of_int code ∷ v ∷ []),
          law.items-sequence (Y.of_int code ∷ v ∷ []),
          law.as_int-of_int code,
        )
        refl

  param-type-roundtrip :
      (type : ParamType) (s : Text) (i : ℤ) (d : D) (b : Bool)
      → (let p : ParamValue D = record { type = type; s = s; i = i; d = d; b = b } in
          param_from_yaml Y F (param_to_yaml Y p) ≡ some (only Y F p))
  unfolding param_to_yaml only coded_param
  param-type-roundtrip string s i d b = rw (param_from_yaml-pair _ _, law.as_text-of_text s) refl
  param-type-roundtrip int s i d b = rw (param_from_yaml-pair _ _, law.as_int-of_int i) refl
  param-type-roundtrip double s i d b =
      rw (param_from_yaml-pair _ _, law.as_double-of_double d) refl
  param-type-roundtrip bool s i d b = rw (param_from_yaml-pair _ _, law.as_bool-of_bool b) refl

  -- Every parameter, of whatever type, is read back with the field of its type.
  pub param-roundtrip :
      (p : ParamValue D) → param_from_yaml Y F (param_to_yaml Y p) ≡ some (only Y F p)
  param-roundtrip p = param-type-roundtrip p.type p.s p.i p.d p.b

  -- The entries of a map node, and what they are read as.
  abbrev written : Params D → List (Text × Y.Node)
  written m = map (λ e. (e.0, param_to_yaml Y e.1)) m

  put_params-sorted :
      (kvs : List (Text × Y.Node)) (m : Params D)
      → IsSortedAfter (keys kvs) m
      → put_params Y kvs m ≡ kvs ++ written m
  unfolding put_params IsSortedAfter
  put_params-sorted kvs [] h = rw (append-nil kvs) refl
  put_params-sorted kvs ((k, p) ∷ m) h = rw (put-above k (param_to_yaml Y p) kvs (h.0)) (
      put_params-sorted (kvs ++ (k, param_to_yaml Y p) ∷ []) m
        (rw (map-append (λ (e : Text × Y.Node). e.0) kvs ((k, param_to_yaml Y p) ∷ [])) (h.1))
      ∙ append_assoc kvs _ _)

  read_params-sorted :
      (acc m : Params D)
      → IsSortedAfter (keys acc) m
      → read_params Y F acc (map (λ kv. (Y.of_text kv.0, kv.1)) (written m))
        ≡ some (acc ++ kept Y F m)
  unfolding read_params IsSortedAfter
  read_params-sorted acc [] h = rw (append-nil acc) refl
  read_params-sorted acc ((k, p) ∷ m) h =
      rw (param-roundtrip p, law.as_text-of_text k, assign-above k (only Y F p) acc (h.0))
        (read_params-sorted (acc ++ (k, only Y F p) ∷ []) m
            (rw (map-append (λ (e : Text × ParamValue D). e.0) acc ((k, only Y F p) ∷ [])) (h.1))
          ∙ ap some (append_assoc acc _ _))

  params_at-written :
      (front : List Y.Node) (m : Params D)
      → IsSortedAfter [] m
      → params_at Y F (Y.mapping (put_params Y [] m) ∷ front) 0 ≡ some (kept Y F m)
  unfolding params_at
  params_at-written front m h =
      rw (put_params-sorted [] m h, law.mapping-is_map (written m), law.entries-mapping (written m))
        (read_params-sorted [] m h)

  -- With a faithful library, an edge whose parameters stand in the order of their keys is read back as it was written, each
  -- parameter with the field of its type.
  pub edge-roundtrip :
      (e : Edge D)
      → IsSortedAfter [] e.params
      → edge_from_yaml Y F (edge_to_yaml Y e) ≡ some (record e { params = kept Y F e.params })
  unfolding edge_from_yaml edge_to_yaml
  edge-roundtrip e h =
      let params = Y.mapping (put_params Y [] e.params) in
      let nodes : List Y.Node = Y.of_int e.start_idx ∷ Y.of_int e.end_idx ∷ params ∷ [] in
      rw
        (
          law.sequence-is_sequence nodes,
          law.items-sequence nodes,
          law.as_int-of_int e.start_idx,
          law.as_int-of_int e.end_idx,
          params_at-written [] e.params h,
        )
        refl

  put_vertex_params-shown :
      (kvs : List (Text × Y.Node)) (m : Params D)
      → put_vertex_params Y kvs m ≡ put_params Y kvs (shown Y F m)
  unfolding put_vertex_params put_params
  put_vertex_params-shown kvs [] = refl
  put_vertex_params-shown kvs ((k, p) ∷ m) = elim (Bool-cases (is_blank Y p)) [
    | inl e ↦ rw (e, put_vertex_params) (put_vertex_params-shown kvs m)
    | inr e ↦ rw (e, put_vertex_params) (put_vertex_params-shown (put k (param_to_yaml Y p) kvs) m)
  ]

  All-init : (P : Text → Type 0) (ks : List Text) (k : Text) → All P (ks ++ k ∷ []) → All P ks
  All-init P [] k h = tt
  All-init P (j ∷ ks) k h = (h.0, All-init P ks k (h.1))

  All-last : (P : Text → Type 0) (ks : List Text) (k : Text) → All P (ks ++ k ∷ []) → P k
  All-last P [] k h = h.0
  All-last P (j ∷ ks) k h = All-last P ks k (h.1)

  All-snoc : (P : Text → Type 0) (ks : List Text) (k : Text) → All P ks → P k → All P (ks ++ k ∷ [])
  All-snoc P [] k h p = (p, tt)
  All-snoc P (j ∷ ks) k h p = (h.0, All-snoc P ks k (h.1) p)

  -- What is left of a sorted map is sorted, after fewer keys too.
  shown-IsSortedAfter :
      (ks fewer : List Text) (m : Params D)
      → ((k : Text) → All (λ j. text_ltb j k ≡ true) ks → All (λ j. text_ltb j k ≡ true) fewer)
      → IsSortedAfter ks m
      → IsSortedAfter fewer (shown Y F m)
  unfolding IsSortedAfter
  shown-IsSortedAfter ks fewer [] sub h = tt
  shown-IsSortedAfter ks fewer ((k, p) ∷ m) sub h = elim (Bool-cases (is_blank Y p)) [
    | inl e ↦ rw e (
        shown-IsSortedAfter (ks ++ k ∷ []) fewer m
          (λ j a. sub j (All-init (λ i. text_ltb i j ≡ true) ks k a)) (h.1))
    | inr e ↦ rw e (
      sub k (h.0),
      shown-IsSortedAfter (ks ++ k ∷ []) (fewer ++ k ∷ []) m
          (λ j a.
            All-snoc (λ i. text_ltb i j ≡ true) fewer k
              (sub j (All-init (λ i. text_ltb i j ≡ true) ks k a))
              (All-last (λ i. text_ltb i j ≡ true) ks k a))
          (h.1),
    )
  ]

  vertex_params_at :
      (z name : Y.Node) (m : Params D)
      → IsSortedAfter [] m
      → params_at Y F (z ∷ name ∷ Y.mapping (put_params Y [] m) ∷ []) 2 ≡ some (kept Y F m)
  unfolding params_at
  vertex_params_at z name m h =
      rw (put_params-sorted [] m h, law.mapping-is_map (written m), law.entries-mapping (written m))
        (read_params-sorted [] m h)

  -- With a faithful library, a vertex whose parameters stand in the order of their keys is read back as it was written, less
  -- its empty string parameters, each other one with the field of its type.
  pub vertex-roundtrip :
      (v : Vertex D)
      → IsSortedAfter [] v.params
      → vertex_from_yaml Y F (vertex_to_yaml Y v)
        ≡ some (record v { params = kept Y F (shown Y F v.params) })
  unfolding vertex_from_yaml vertex_to_yaml
  vertex-roundtrip v h =
      let params = Y.mapping (put_vertex_params Y [] v.params) in
      let nodes : List Y.Node =
        Y.of_double v.x ∷ Y.of_double v.y ∷ Y.of_double v.z ∷ Y.of_text v.name ∷ params ∷ [] in
      rw
        (
          law.sequence-is_sequence nodes,
          law.items-sequence nodes,
          law.as_double-of_double v.x,
          law.as_double-of_double v.y,
          law.as_double-of_double v.z,
          law.as_text-of_text v.name,
          put_vertex_params-shown [] v.params,
          vertex_params_at (Y.of_double v.z) (Y.of_text v.name) (shown Y F v.params)
              (shown-IsSortedAfter [] [] v.params (λ k a. a) h),
        )
        refl
