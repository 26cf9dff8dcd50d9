-- ===== src/View/Mutex/Counts.antt =====
-- Each group is counted right (`gather_mutex_groups` of view/editor_view.cpp).
use imrmf_map_editor.Base.{
  ℕ, zero, suc, ◌+◌, ◌≡◌, ◌≢◌, refl, ◌∙◌, ap, false, Option, none, some, List, [], ◌∷◌, map, arith,
  Bool-cases, inl, inr, if◌then◌else◌,
}
use imrmf_map_editor.Base.Text.{text_eq_apart, Text, text_eq, text_eq_iff}
use imrmf_map_editor.Building.{Level, find}
use imrmf_map_editor.Yaml.{assign, text_ltb}
use imrmf_map_editor.View.Mutex.{
  MutexGroupInfo, new_group, Groups, or_new, tally, add_lane, add_vertex, lane_names, vertex_names,
  group_map, gather_mutex_groups,
}

find-assign {ℓ} :
    {V : Type ℓ} (k j : Text) (v : V) (m : List (Text × V))
    → find k (assign j v m) ≡ (if text_eq j k then some v else find k m)
unfolding find assign
find-assign k j v [] = elim (Bool-cases (text_eq j k)) [
  | inl same ↦ rw (assign, find, same) refl
  | inr other ↦ rw (assign, find, other) refl
]
find-assign k j v ((i, w) ∷ m) = elim (Bool-cases (text_eq i j)) [
  | inl here ↦ elim (Bool-cases (text_eq j k)) [
    | inl same ↦ rw (assign, here, same, find, (text_eq_iff i j).0 here, same) refl
    | inr other ↦ rw (assign, here, other, find, (text_eq_iff i j).0 here, other) refl
  ]
  | inr elsewhere ↦ elim (Bool-cases (text_ltb j i)) [
    | inl before ↦ elim (Bool-cases (text_eq j k)) [
      | inl same ↦ rw (assign, elsewhere, before, same, find) refl
      | inr other ↦ rw (assign, elsewhere, before, other, find) refl
    ]
    | inr after ↦ elim (Bool-cases (text_eq i k)) [
      | inl first ↦
          rw (assign, elsewhere, after, text_eq_apart i j k first elsewhere, find, first) refl
      | inr later ↦ rw (assign, elsewhere, after, find, later) (find-assign k j v m)
    ]
  ]
]

-- How often a name stands in a list.
abbrev pub count : Text → List Text → ℕ
count s [] = 0
count s (t ∷ names) = let rest = count s names in if text_eq t s then suc rest else rest

-- What `n` increments make of an entry.
bumped : (MutexGroupInfo → MutexGroupInfo) → ℕ → Option MutexGroupInfo → Option MutexGroupInfo
bumped bump zero o = o
bumped bump (suc n) o = bumped bump n (some (bump (or_new o)))

nil_differs : (s : Text) → s ≢ [] → text_eq [] s ≡ false
unfolding text_eq
nil_differs [] h = absurd (h refl)
nil_differs (c ∷ s) h = refl

find-tally :
    (bump : MutexGroupInfo → MutexGroupInfo) (s : Text) (names : List Text) (m : Groups)
    → s ≢ []
    → find s (tally bump names m) ≡ bumped bump (count s names) (find s m)
unfolding tally bumped
find-tally bump s [] m h = refl
find-tally bump s ([] ∷ names) m h = rw (nil_differs s h) (find-tally bump s names m h)
find-tally bump s ((c ∷ t) ∷ names) m h = elim (Bool-cases (text_eq (c ∷ t) s)) [
  | inl same ↦
      let v = bump (or_new (find (c ∷ t) m)) in
      rw (same) (
        find-tally bump s names (assign (c ∷ t) v m) h
        ∙ ap (bumped bump (count s names))
            (find-assign s (c ∷ t) v m ∙ rw (same, (text_eq_iff (c ∷ t) s).0 same) refl))
  | inr other ↦
      let v = bump (or_new (find (c ∷ t) m)) in
      rw (other) (
        find-tally bump s names (assign (c ∷ t) v m) h
        ∙ ap (bumped bump (count s names)) (find-assign s (c ∷ t) v m ∙ rw (other) refl))
]

-- What counting the lanes and then the vertices of a name makes of no entry.
bumped-lanes :
    (n m : ℕ) (i : MutexGroupInfo)
    → bumped add_lane n (some (record i { lanes = m })) ≡ some (record i { lanes = n + m })
unfolding bumped
bumped-lanes zero m i = ap (λ l. some (record i { lanes = l })) (omega arith)
bumped-lanes (suc n) m i =
    bumped-lanes n (suc m) i ∙ ap (λ l. some (record i { lanes = l })) (omega arith)

bumped-vertices :
    (n m : ℕ) (i : MutexGroupInfo)
    → bumped add_vertex n (some (record i { vertices = m })) ≡ some (record i { vertices = n + m })
unfolding bumped
bumped-vertices zero m i = ap (λ l. some (record i { vertices = l })) (omega arith)
bumped-vertices (suc n) m i =
    bumped-vertices n (suc m) i ∙ ap (λ l. some (record i { vertices = l })) (omega arith)

-- A group of so many lanes and vertices, where there are any.
abbrev pub counted : ℕ → ℕ → Option MutexGroupInfo
counted zero zero = none
counted lanes vertices = some (record { name = []; lanes = lanes; vertices = vertices })

lanes_only : (l : ℕ) → bumped add_lane (suc l) none ≡ some (record new_group { lanes = suc l })
unfolding bumped
lanes_only l =
    bumped-lanes l 1 new_group ∙ ap (λ m. some (record new_group { lanes = m })) (omega arith)

bumped-counted :
    (lanes vertices : ℕ)
    → bumped add_vertex vertices (bumped add_lane lanes none) ≡ counted lanes vertices
unfolding bumped
bumped-counted zero zero = refl
bumped-counted zero (suc n) =
    bumped-vertices n 1 new_group ∙ ap (λ l. some (record new_group { vertices = l })) (omega arith)
bumped-counted (suc l) zero = lanes_only l
bumped-counted (suc l) (suc n) =
    ap (λ o. bumped add_vertex n (some (add_vertex (or_new o)))) (lanes_only l)
    ∙ bumped-vertices n 1 (record new_group { lanes = suc l })
    ∙ ap (λ m. some (record new_group { lanes = suc l; vertices = m })) (omega arith)

-- The groups by their names.
abbrev pub by_name : List MutexGroupInfo → Groups
by_name groups = map (λ (i : MutexGroupInfo). (i.name, i)) groups

abbrev pub named : Text → Option MutexGroupInfo → Option MutexGroupInfo
named s none = none
named s (some info) = some (record info { name = s })

find-by_name :
    (s : Text) (m : Groups)
    → find s (by_name (map (λ (g : Text × MutexGroupInfo). record (g.1) { name = g.0 }) m))
      ≡ named s (find s m)
unfolding find
find-by_name s [] = refl
find-by_name s ((k, info) ∷ m) = elim (Bool-cases (text_eq k s)) [
  | inl here ↦ rw (find, here, (text_eq_iff k s).0 here) refl
  | inr elsewhere ↦ rw (find, elsewhere) (find-by_name s m)
]

-- For each name, the groups of a level have one under that name exactly when a lane or a vertex is marked
-- with it, and it counts the lanes and the vertices that are.
pub gather_mutex_groups-counted :
    {D N : Type 0} (level : Level D N) (s : Text)
    → s ≢ []
    → find s (by_name (gather_mutex_groups level))
      ≡ named s (counted (count s (lane_names level)) (count s (vertex_names level)))
unfolding gather_mutex_groups group_map find
gather_mutex_groups-counted level s h =
    find-by_name s (group_map level)
    ∙ ap (named s) (
        find-tally add_vertex s (vertex_names level) (tally add_lane (lane_names level) []) h
        ∙ ap (bumped add_vertex (count s (vertex_names level)))
            (find-tally add_lane s (lane_names level) [] h)
        ∙ bumped-counted (count s (lane_names level)) (count s (vertex_names level)))
