-- ===== src/App/Session/Undo.antt =====
-- Undo and redo of a recorded edit, with the indices of the editor (app/main.cpp).
use imrmf_map_editor.Base.{ℕ, ◌≡◌, ◌≢◌, refl, true, Option, none, some, []}
use imrmf_map_editor.Building.{Building}
use imrmf_map_editor.Building.Double.{Double}
use imrmf_map_editor.History.{EditHistory, commit, undo, redo}
use imrmf_map_editor.History.Valid.{IsValid}
use imrmf_map_editor.History.Timeline.{undo-commit}
use imrmf_map_editor.Bundle.Interface.{Codec}
use imrmf_map_editor.App.Session.{
  OpenMap, clamp_state_to_building, commit_history, restore, history_undo, history_redo,
}
use imrmf_map_editor.App.Session.Clamp.{IsClamped, clamp_state_to_building-IsClamped}

module _ {D N : Type 0} (F : Double D) (footprint : Building D N → ℕ) (C : Codec D N) where
  restore-some :
      (step : EditHistory (Building D N) × Option (Building D N)) (b : Building D N)
      (s : OpenMap D N)
      → step.1 ≡ some b
      → restore F footprint C step s
        ≡ record s { history = step.0; building = b; state = clamp_state_to_building b s.state }
  unfolding restore
  restore-some (h, none) b s e = cc
  restore-some (h, some a) b s e = let same : a ≡ b = cc e in rw (same) refl

  commit_history-dirty :
      (s : OpenMap D N)
      → s.dirty ≡ true
      → (commit_history F footprint C s).history ≡ commit footprint s.history s.building
  unfolding commit_history
  commit_history-dirty s e = rw (commit_history, e) refl

  -- Once an edit is recorded in a valid history, and the maps before and after it have levels: undo shows
  -- the map before the edit, and redo after that the edited map. Each time the indices that
  -- `clamp_state_to_building` clamps are in range of the map shown.
  pub history_undo-commit_history :
      (s : OpenMap D N)
      → IsValid footprint s.history
      → s.dirty ≡ true
      → s.history.current.levels ≢ []
      → s.building.levels ≢ []
      → ((history_undo F footprint C (commit_history F footprint C s)).building ≡ s.history.current)
        × IsClamped s.history.current
            (history_undo F footprint C (commit_history F footprint C s)).state
        × ((history_redo F footprint C
              (history_undo F footprint C (commit_history F footprint C s))).building
            ≡ s.building)
        × IsClamped s.building
            (history_redo F footprint C
              (history_undo F footprint C (commit_history F footprint C s))).state
  unfolding history_undo history_redo
  history_undo-commit_history s v dirty before after =
      let c = commit_history F footprint C s in
      let (undone, redone) = undo-commit footprint s.history s.building v in
      let e = commit_history-dirty s dirty in
      let u = restore-some (undo footprint c.history) s.history.current c (rw e undone) in
      let h : EditHistory (Building D N) = (undo footprint c.history).0 in
      let shown : OpenMap D N = record c {
        history = h;
        building = s.history.current;
        state = clamp_state_to_building s.history.current c.state;
      } in
      let r = restore-some (redo footprint h) s.building shown (rw e redone) in
      rw (u, r)
        (
          refl,
          (clamp_state_to_building-IsClamped s.history.current c.state before).0,
          refl,
          (clamp_state_to_building-IsClamped s.building shown.state after).0,
        )
