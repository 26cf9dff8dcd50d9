-- ===== src/App/Session/Mirror.antt =====
-- Taking over the map of the shared document (`mirror_from_yjs` of app/main.cpp): the level in view
-- stays in view by its name.
use mathlib.Core.Path.{subst}
use imrmf_map_editor.Base.{
  ℕ, zero, suc, ◌+◌, ◌≡◌, ◌≢◌, refl, sym, ◌∙◌, ap, true, false, not, ◌&&◌, ◌||◌, none, some, List,
  [], ◌∷◌, map, arith, length, get_elem?, if_false, Bool-cases, inl, inr, ◌++◌, All, and_parts,
}
use imrmf_map_editor.Base.Int.{ℤ, pos}
use imrmf_map_editor.Base.Text.{nonempty-is_empty, Text, is_empty, mem_text, text_eq, text_eq_iff}
use imrmf_map_editor.Building.{Building, Level}
use imrmf_map_editor.Building.Double.{Double}
use imrmf_map_editor.Bundle.Interface.{Codec}
use imrmf_map_editor.App.Session.{
  EditorState, OpenMap, clamp_state_to_building, keep_mpp, find_level, level_name, take_over,
  commit_history, commit_pending_edits, mirror_from_yjs,
}
use imrmf_map_editor.App.Session.Clamp.{
  IsIn, IsClamped, IsUnclamped, clamp_state_to_building-level_idx,
  clamp_state_to_building-IsClamped,
}

get_elem?-below :
    {A : Type 0} (xs : List A) (i : ℕ) (x : A) → get_elem? xs i ≡ some x → IsIn (length xs) (pos i)
get_elem?-below [] i x h = cc
get_elem?-below (y ∷ xs) zero x h = ground arith
get_elem?-below (y ∷ xs) (suc i) x h = ground (arith, get_elem?-below xs i x h)

map-nonempty : {A B : Type 0} (f : A → B) (xs : List A) → xs ≢ [] → map f xs ≢ []
map-nonempty f [] h = absurd (h refl)
map-nonempty f (x ∷ xs) h = λ e. cc

module _ {D N : Type 0} where
  -- A level of that name is found where there is one.
  find_level-found :
      (name : Text) (i : ℕ) (levels : List (Level D N))
      → mem_text name (map (λ (l : Level D N). l.name) levels) ≡ true
      → (j : ℕ) × (level : Level D N) × (find_level name i levels ≡ some (i + j))
        × (get_elem? levels j ≡ some level)
        × (level.name ≡ name)
  unfolding find_level mem_text
  find_level-found name i [] h = cc
  find_level-found name i (l ∷ levels) h = elim (Bool-cases (text_eq l.name name)) [
    | inl same ↦ (
      0,
      l,
      rw (find_level, same) (ap some (omega arith)),
      refl,
      (text_eq_iff l.name name).0 same,
    )
    | inr other ↦
        let (j, level, e, at, named) =
          find_level-found name (suc i) levels (ground (arith, other, h)) in
        (suc j, level, rw (find_level, other) (e ∙ ap some (omega arith)), at, named)
  ]

  keep_mpp-name :
      (F : Double D) (olds : List (Level D N)) (lvl : Level D N)
      → (keep_mpp F olds lvl).name ≡ lvl.name
  unfolding keep_mpp
  keep_mpp-name F [] lvl = refl
  keep_mpp-name F (old ∷ olds) lvl =
      elim (Bool-cases (text_eq old.name lvl.name && F.lt F.zero old.mpp_snapshot)) [
        | inl lends ↦ rw (keep_mpp, lends) refl
        | inr other ↦ rw (keep_mpp, other) (keep_mpp-name F olds lvl)
      ]

  names-kept :
      (F : Double D) (olds levels : List (Level D N))
      → map (λ (l : Level D N). l.name) (map (keep_mpp F olds) levels)
        ≡ map (λ (l : Level D N). l.name) levels
  names-kept F olds [] = refl
  names-kept F olds (l ∷ levels) = rw (keep_mpp-name F olds l, names-kept F olds levels) refl

  -- The old level lends its scale: it has the name of the new one, and a scale that was taken.
  abbrev pub IsLender : Double D → Level D N → Level D N → Type 0
  IsLender F lvl old = (old.name ≡ lvl.name) × (F.lt F.zero old.mpp_snapshot ≡ true)

  -- The scale of a new level: that of the first old level that lends one, or its own where none does.
  pub data IsScaled (F : Double D) (olds : List (Level D N)) (lvl out : Level D N) : Type 0 where
    lent :
        (before : List (Level D N)) (old : Level D N) (after : List (Level D N))
        → olds ≡ before ++ old ∷ after
        → All (λ o. ¬ IsLender F lvl o) before
        → IsLender F lvl old
        → out ≡ record lvl { mpp_snapshot = old.mpp_snapshot }
        → IsScaled F olds lvl out
    own : All (λ o. ¬ IsLender F lvl o) olds → out ≡ lvl → IsScaled F olds lvl out

  not-IsLender :
      (F : Double D) (lvl old : Level D N)
      → (text_eq old.name lvl.name && F.lt F.zero old.mpp_snapshot) ≡ false
      → ¬ IsLender F lvl old
  not-IsLender F lvl old e lends =
      absurd (ground (arith, e, lends.1, (text_eq_iff old.name lvl.name).1 lends.0))

  scaled-cons :
      (F : Double D) (old : Level D N) (olds : List (Level D N)) (lvl out : Level D N)
      → ¬ IsLender F lvl old
      → IsScaled F olds lvl out
      → IsScaled F (old ∷ olds) lvl out
  scaled-cons F old olds lvl out not_it (lent before it after e none_yet lends same) =
      lent (old ∷ before) it after (ap (λ os. old ∷ os) e) (not_it, none_yet) lends same
  scaled-cons F old olds lvl out not_it (own none_of same) = own (not_it, none_of) same

  keep_mpp-IsScaled :
      (F : Double D) (olds : List (Level D N)) (lvl : Level D N)
      → IsScaled F olds lvl (keep_mpp F olds lvl)
  unfolding keep_mpp
  keep_mpp-IsScaled F [] lvl = own tt refl
  keep_mpp-IsScaled F (old ∷ olds) lvl =
      elim (Bool-cases (text_eq old.name lvl.name && F.lt F.zero old.mpp_snapshot)) [
        | inl lends ↦
            let (named, taken) =
              and_parts (text_eq old.name lvl.name) (F.lt F.zero old.mpp_snapshot) lends in
            lent [] old olds refl tt ((text_eq_iff old.name lvl.name).0 named, taken)
              (rw (keep_mpp, lends) refl)
        | inr other ↦
            rw (keep_mpp, other)
              (scaled-cons F old olds lvl (keep_mpp F olds lvl) (not-IsLender F lvl old other)
                (keep_mpp-IsScaled F olds lvl))
      ]

  -- The map `b` is taken over, each level with the scale that `olds` has for it.
  pub record IsTaken (F : Double D) (olds : List (Level D N)) (b c : Building D N) : Type 0 where
    pub rest : c ≡ record b { levels = c.levels }
    pub many : length c.levels ≡ length b.levels
    pub each :
        (i : ℕ) (lvl : Level D N)
        → get_elem? b.levels i ≡ some lvl
        → (out : Level D N) × (get_elem? c.levels i ≡ some out) × IsScaled F olds lvl out

  length-scaled :
      (F : Double D) (olds levels : List (Level D N))
      → length (map (keep_mpp F olds) levels) ≡ length levels
  length-scaled F olds [] = refl
  length-scaled F olds (l ∷ levels) = ap suc (length-scaled F olds levels)

  each-scaled :
      (F : Double D) (olds levels : List (Level D N)) (i : ℕ) (lvl : Level D N)
      → get_elem? levels i ≡ some lvl
      → (out : Level D N) × (get_elem? (map (keep_mpp F olds) levels) i ≡ some out)
        × IsScaled F olds lvl out
  each-scaled F olds [] i lvl h = cc
  each-scaled F olds (l ∷ levels) zero lvl h =
      let same : l ≡ lvl = cc h in (keep_mpp F olds lvl, rw same refl, keep_mpp-IsScaled F olds lvl)
  each-scaled F olds (l ∷ levels) (suc i) lvl h = each-scaled F olds levels i lvl h

  take_over-IsTaken :
      (F : Double D) (b : Building D N) (s : OpenMap D N)
      → IsTaken F s.building.levels b (take_over F b s).building
  unfolding take_over
  take_over-IsTaken F b s = record {
    rest = refl;
    many = length-scaled F s.building.levels b.levels;
    each = each-scaled F s.building.levels b.levels;
  }

  take_over-IsUnclamped :
      (F : Double D) (b : Building D N) (s : OpenMap D N)
      → b.levels ≢ []
      → IsUnclamped s.state (take_over F b s).state
  unfolding take_over
  take_over-IsUnclamped F b s h =
      let mine = map (keep_mpp F s.building.levels) b.levels in
      let level_idx : ℤ = elim (find_level (level_name s.building s.state) 0 mine) [
        | none ↦ s.state.level_idx
        | some found ↦ pos found
      ] in
      let u =
        (clamp_state_to_building-IsClamped (record b { levels = mine })
          (record (s.state) { level_idx = level_idx })
          (map-nonempty (keep_mpp F s.building.levels) b.levels h)).1 in
      record {
        polygon = u.polygon;
        vertex_delete = u.vertex_delete;
        target = u.target;
        sel_level = u.sel_level;
        sel_idx = u.sel_idx;
      }

  take_over-IsClamped :
      (F : Double D) (b : Building D N) (s : OpenMap D N)
      → b.levels ≢ []
      → IsClamped (take_over F b s).building (take_over F b s).state
  unfolding take_over
  take_over-IsClamped F b s h =
      (clamp_state_to_building-IsClamped _ _
        (map-nonempty (keep_mpp F s.building.levels) b.levels h)).0

  level_name-at :
      (c : Building D N) (r : EditorState) (j : ℕ) (level : Level D N)
      → r.level_idx ≡ pos j
      → get_elem? c.levels j ≡ some level
      → level_name c r ≡ level.name
  unfolding level_name
  level_name-at c r j level e at = rw (level_name, e, at) (if_false [] level.name (ground arith))

  take_over-level_name :
      (F : Double D) (b : Building D N) (s : OpenMap D N)
      → mem_text (level_name s.building s.state) (map (λ (l : Level D N). l.name) b.levels) ≡ true
      → level_name (take_over F b s).building (take_over F b s).state
        ≡ level_name s.building s.state
  unfolding take_over
  take_over-level_name F b s h =
      let mine = map (keep_mpp F s.building.levels) b.levels in
      let name = level_name s.building s.state in
      let (j, level, found, at, named) =
        find_level-found name 0 mine (rw (names-kept F s.building.levels b.levels) h) in
      let here : find_level name 0 mine ≡ some j = found ∙ ap some (omega arith) in
      let c : Building D N = record b { levels = mine } in
      let r : EditorState = record (s.state) { level_idx = pos j } in
      rw here (
        level_name-at c (clamp_state_to_building c r) j level
          (clamp_state_to_building-level_idx c r (get_elem?-below mine j level at)) at
        ∙ named)

-- What the mirror of the shared document comes to.
pub record IsMirrored {D N : Type 0} (F : Double D) (b : Building D N) (s u : OpenMap D N)
    : Type 0 where
  pub taken : IsTaken F s.building.levels b u.building
  pub clamped : IsClamped u.building u.state
  pub others : IsUnclamped s.state u.state
  pub settled : (u.dirty ≡ false) × (u.remote_dirty ≡ false)
  pub followed :
      mem_text (level_name s.building s.state) (map (λ (l : Level D N). l.name) b.levels) ≡ true
      → level_name u.building u.state ≡ level_name s.building s.state

module _ {D N : Type 0} (F : Double D) (footprint : Building D N → ℕ) (C : Codec D N) where
  commit_history-keeps :
      (s : OpenMap D N)
      → ((commit_history F footprint C s).building ≡ s.building)
        × ((commit_history F footprint C s).state ≡ s.state)
  unfolding commit_history
  commit_history-keeps s = elim (Bool-cases s.dirty) [
    | inl dirty ↦ rw (commit_history, dirty) (refl, refl)
    | inr clean ↦ rw (commit_history, clean) (refl, refl)
  ]

  -- Recording what is pending does not touch the map or the indices.
  commit_pending_edits-keeps :
      (s : OpenMap D N)
      → ((b : Building D N) → (yaml : Text) × (C.serialize_building b ≡ some yaml))
      → (t : OpenMap D N) × (commit_pending_edits F footprint C s ≡ some t)
        × (t.building ≡ s.building)
        × (t.state ≡ s.state)
  unfolding commit_pending_edits
  commit_pending_edits-keeps s emits = elim (Bool-cases (not s.dirty)) [
    | inl clean ↦ (s, rw (commit_pending_edits, clean) refl, refl, refl)
    | inr dirty ↦ elim (Bool-cases s.serverless) [
      | inl alone ↦
          let (same_map, same_state) = commit_history-keeps s in
          (
            commit_history F footprint C s,
            rw (commit_pending_edits, dirty, alone) refl,
            same_map,
            same_state,
          )
      | inr shared ↦
          let (yaml, e) = emits s.building in
          (
            record s { pushed = yaml ∷ s.pushed; dirty = false; dirty_since = F.zero },
            rw (commit_pending_edits, dirty) (if_false _ _ shared ∙ rw e refl),
            refl,
            refl,
          )
    ]
  ]

  -- Where the emission of a map does not throw, the mouse is up and no text is typed, and the document
  -- holds the text of a map that has levels: the mirror takes that map over. Each level gets the scale of
  -- the first old level that has its name and a scale that was taken, and keeps its own where there is
  -- none. The indices that `clamp_state_to_building` clamps are in range, the others are as they were,
  -- and nothing is pending. If a level has the name of the level in view, one of that name is in view
  -- afterwards.
  pub mirror_from_yjs-IsMirrored :
      (body : Text) (b : Building D N) (s : OpenMap D N)
      → ((c : Building D N) → (yaml : Text) × (C.serialize_building c ≡ some yaml))
      → s.remote_dirty ≡ true
      → is_empty body ≡ false
      → C.parse_building body ≡ some b
      → b.levels ≢ []
      → (u : OpenMap D N) × (mirror_from_yjs F footprint C false (some body) s ≡ some u)
        × IsMirrored F b s u
  unfolding mirror_from_yjs take_over
  mirror_from_yjs-IsMirrored body b s emits remote full parses levels =
      let (t, e, same_map, same_state) = commit_pending_edits-keeps s emits in
      (
        record (take_over F b t) { remote_dirty = false },
        if_false {b = not s.remote_dirty || false} _ _ (ground (arith, remote))
            ∙ rw (e, full, parses) (ap some (if_false _ _ (nonempty-is_empty b.levels levels))),
        record {
          taken =
              subst (λ (c : Building D N). IsTaken F c.levels b (take_over F b t).building) same_map
                (take_over-IsTaken F b t);
          clamped = take_over-IsClamped F b t levels;
          others =
              subst (λ r. IsUnclamped r (take_over F b t).state) same_state
                (take_over-IsUnclamped F b t levels);
          settled = (refl, refl);
          followed = λ there.
              take_over-level_name F b t (
                subst (λ n. mem_text n (map (λ (l : Level D N). l.name) b.levels) ≡ true)
                  (sym (same_name t same_map same_state)) there)
              ∙ same_name t same_map same_state;
        },
      )
    where
      same_name :
          (t : OpenMap D N)
          → t.building ≡ s.building
          → t.state ≡ s.state
          → level_name t.building t.state ≡ level_name s.building s.state
      same_name t p q = rw (p, q) refl
