-- ===== src/Paths/Escape.antt =====
-- A portable path (model/asset_paths.cpp) never leaves the directory that it is resolved in.
use imrmf_map_editor.Base.{
  ℕ, ◌≡◌, ◌≢◌, ◌↔◌, refl, Bool, true, false, not, ◌&&◌, Option, none, some, List, [], ◌∷◌, ◌++◌,
  arith, length, filter, ◌==◌, if◌then◌else◌, Bool-cases, inl, inr, All, All-append,
}
use imrmf_map_editor.Base.Text.{Text, text_eq, is_empty, has_char}
use imrmf_map_editor.Paths.{
  slash, add_to_first, pieces, is_absolute, filename, parts, dot, dot_dot, stays_inside,
  asset_path_is_portable,
}

-- A directory is the list of its names, the innermost first. `..` at the top has no meaning.
abbrev parent : List Text → Option (List Text)
parent [] = none
parent (d ∷ dirs) = some dirs

-- The part of a path that is its root.
abbrev root : Text
root = b'/' ∷ []

-- Where a walk over the parts of a path ends; a root starts again at the top.
unfoldable pub walk : List Text → List Text → Option (List Text)
walk dirs [] = some dirs
walk dirs (s ∷ rest) = elim (text_eq s root) [
  | true ↦ walk [] rest
  | false ↦ elim (text_eq s dot_dot) [
    | true ↦ elim dirs [ [] ↦ none | d ∷ up ↦ walk up rest ]
    | false ↦ elim (not (text_eq s dot) && not (is_empty s)) [
      | true ↦ walk (s ∷ dirs) rest
      | false ↦ walk dirs rest
    ]
  ]
]

-- No part of the path is a root.
abbrev NoRoot : List Text → Type 0
NoRoot = All (λ s. text_eq s root ≡ false)

abbrev NoSlash : List Text → Type 0
NoSlash = All (λ s. has_char slash s ≡ false)

add_to_first-NoSlash :
    (c : ℕ) (ps : List Text) → (c == slash) ≡ false → NoSlash ps → NoSlash (add_to_first c ps)
unfolding add_to_first has_char
add_to_first-NoSlash c [] e h = (ground (arith, e), tt)
add_to_first-NoSlash c (s ∷ ps) e h = (ground (arith, e, h.0), h.1)

pieces-NoSlash : (p : Text) → NoSlash (pieces p)
unfolding pieces has_char
pieces-NoSlash [] = (refl, tt)
pieces-NoSlash (c ∷ p) = elim (Bool-cases (c == slash)) [
  | inl cut ↦ rw (cut, pieces) (refl, pieces-NoSlash p)
  | inr e ↦ rw (e, pieces) (add_to_first-NoSlash c (pieces p) e (pieces-NoSlash p))
]

not-root : (s : Text) → has_char slash s ≡ false → text_eq s root ≡ false
unfolding has_char text_eq
not-root [] h = refl
not-root (c ∷ s) h = ground (arith, h)

names-NoRoot : (ps : List Text) → NoSlash ps → NoRoot (filter (λ s. not (is_empty s)) ps)
names-NoRoot [] h = tt
names-NoRoot (s ∷ ps) h = elim (Bool-cases (not (is_empty s))) [
  | inl full ↦ rw full (not-root s h.0, names-NoRoot ps h.1)
  | inr empty ↦ rw empty (names-NoRoot ps h.1)
]

last-NoRoot : (b : Bool) → NoRoot (if b then [] ∷ [] else [])
unfolding text_eq
last-NoRoot true = (refl, tt)
last-NoRoot false = tt

parts-NoRoot : (path : Text) → is_absolute path ≡ false → NoRoot (parts path)
unfolding parts
parts-NoRoot path e =
    let names = filter (λ s. not (is_empty s)) (pieces path) in
    let last = not (is_empty names) && is_empty (filename path) in
    rw e (
      All-append (λ s. text_eq s root ≡ false) names (if last then [] ∷ [] else [])
        (names-NoRoot (pieces path) (pieces-NoSlash path)) (last-NoRoot last))

-- The walk stays below `base`.
pub record StaysBelow (base : List Text) (end : Option (List Text)) : Type 0 where
  pub below : List Text
  pub ends : end ≡ some (below ++ base)

walk-below :
    (base own : List Text) (ps : List Text)
    → NoRoot ps
    → stays_inside (length own) ps ≡ true
    → StaysBelow base (walk (own ++ base) ps)
unfolding walk stays_inside
walk-below base own [] n h = record { below = own; ends = refl }
walk-below base [] (s ∷ rest) n h = elim (Bool-cases (text_eq s dot_dot)) [
  | inl up ↦ absurd (ground arith)
  | inr e ↦ elim (Bool-cases (not (text_eq s dot) && not (is_empty s))) [
    | inl name ↦ rw (n.0, e, name, walk) (walk-below base (s ∷ []) rest n.1 (rw (e, name) at h))
    | inr skip ↦ rw (n.0, e, skip, walk) (walk-below base [] rest n.1 (rw (e, skip) at h))
  ]
]
walk-below base (d ∷ own) (s ∷ rest) n h = elim (Bool-cases (text_eq s dot_dot)) [
  | inl up ↦ rw (n.0, up, walk) (walk-below base own rest n.1 (rw up at h))
  | inr e ↦ elim (Bool-cases (not (text_eq s dot) && not (is_empty s))) [
    | inl name ↦
        rw (n.0, e, name, walk) (walk-below base (s ∷ d ∷ own) rest n.1 (rw (e, name) at h))
    | inr skip ↦ rw (n.0, e, skip, walk) (walk-below base (d ∷ own) rest n.1 (rw (e, skip) at h))
  ]
]

walk-out :
    (own ps : List Text) → NoRoot ps → stays_inside (length own) ps ≡ false → walk own ps ≡ none
unfolding walk stays_inside
walk-out own [] n h = cc
walk-out [] (s ∷ rest) n h = elim (Bool-cases (text_eq s dot_dot)) [
  | inl up ↦ rw (n.0, up, walk)
  | inr e ↦ elim (Bool-cases (not (text_eq s dot) && not (is_empty s))) [
    | inl name ↦ rw (n.0, e, name, walk) (walk-out (s ∷ []) rest n.1 (rw (e, name) at h))
    | inr skip ↦ rw (n.0, e, skip, walk) (walk-out [] rest n.1 (rw (e, skip) at h))
  ]
]
walk-out (d ∷ own) (s ∷ rest) n h = elim (Bool-cases (text_eq s dot_dot)) [
  | inl up ↦ rw (n.0, up, walk) (walk-out own rest n.1 (rw up at h))
  | inr e ↦ elim (Bool-cases (not (text_eq s dot) && not (is_empty s))) [
    | inl name ↦ rw (n.0, e, name, walk) (walk-out (s ∷ d ∷ own) rest n.1 (rw (e, name) at h))
    | inr skip ↦ rw (n.0, e, skip, walk) (walk-out (d ∷ own) rest n.1 (rw (e, skip) at h))
  ]
]

relative_inside :
    (c : ℕ) (path : Text)
    → asset_path_is_portable (c ∷ path) ≡ true
    → (is_absolute (c ∷ path) ≡ false) × (stays_inside 0 (parts (c ∷ path)) ≡ true)
unfolding asset_path_is_portable
relative_inside c path h = (ground arith, ground arith)

-- A portable path, resolved in any directory, ends in that directory or below it, and never passes
-- above the directory on the way nor starts again at the root.
pub portable-StaysBelow :
    (path : Text) (base : List Text)
    → asset_path_is_portable path ≡ true
    → StaysBelow base (walk base (parts path))
unfolding asset_path_is_portable walk parts is_absolute
portable-StaysBelow [] base h = record { below = []; ends = refl }
portable-StaysBelow (c ∷ path) base h =
    let (relative, inside) = relative_inside c path h in
    walk-below base [] (parts (c ∷ path)) (parts-NoRoot (c ∷ path) relative) inside

below-ne-none : {base : List Text} {end : Option (List Text)} → StaysBelow base end → end ≢ none
below-ne-none s e = cc (s.ends)

inside_iff : (ps : List Text) → NoRoot ps → (stays_inside 0 ps ≡ true) ↔ (walk [] ps ≢ none)
inside_iff ps n = (
  λ h. below-ne-none (walk-below [] [] ps n h),
  λ h. elim (Bool-cases (stays_inside 0 ps)) [
    | inl inside ↦ inside
    | inr out ↦ absurd (h (walk-out [] ps n out))
  ],
)

-- A path is portable exactly when it is relative and its walk from the top finds a place.
pub portable_iff :
    (path : Text)
    → (asset_path_is_portable path ≡ true)
      ↔ ((is_absolute path ≡ false) × (walk [] (parts path) ≢ none))
unfolding asset_path_is_portable
portable_iff [] = unfold walk parts is_absolute in (λ _. (refl, λ e. cc), λ _. refl)
portable_iff (c ∷ path) = elim (Bool-cases (is_absolute (c ∷ path))) [
  | inl top ↦ rw top (λ h. absurd (ground arith), λ h. absurd (ground arith))
  | inr e ↦
      let both = inside_iff (parts (c ∷ path)) (parts-NoRoot (c ∷ path) e) in
      rw e (λ h. (refl, both.0 h), λ h. both.1 h.1)
]
