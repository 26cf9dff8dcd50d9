-- ===== src/History/Undoable.antt =====
-- How far back a history reaches, and the bounds on what it holds (model/edit_history.cpp).
use imrmf_map_editor.Base.{ℕ, List, [], ◌∷◌}
use imrmf_map_editor.History.{EditHistory, reset, commit, undo, redo}
use imrmf_map_editor.History.Valid.{
  IsValid, reset-IsValid, commit-IsValid, undo-IsValid, redo-IsValid,
}

-- The calls that a session makes.
pub data Call (B : Type 0) : Type 0 where
  commit_call : B → Call B
  undo_call : Call B
  redo_call : Call B
  reset_call : B → Call B

module _ {B : Type 0} (footprint : B → ℕ) where
  unfoldable pub call : EditHistory B → Call B → EditHistory B
  call h (commit_call now) = commit footprint h now
  call h undo_call = (undo footprint h).0
  call h redo_call = (redo footprint h).0
  call h (reset_call b) = reset h b

  unfoldable pub run : List (Call B) → EditHistory B → EditHistory B
  unfolding call
  run [] h = h
  run (c ∷ calls) h = run calls (call h c)

  pub call-IsValid :
      (h : EditHistory B) (c : Call B) → IsValid footprint h → IsValid footprint (call h c)
  unfolding call
  call-IsValid h (commit_call now) v = commit-IsValid footprint h v now
  call-IsValid h undo_call v = undo-IsValid footprint h v
  call-IsValid h redo_call v = redo-IsValid footprint h v
  call-IsValid h (reset_call b) v = reset-IsValid footprint b v

  -- Every call keeps the invariant: the depths together within the limit, each byte counter the
  -- sum of its steps, each step with the footprint of its own map.
  pub run-IsValid :
      (calls : List (Call B)) (h : EditHistory B)
      → IsValid footprint h
      → IsValid footprint (run calls h)
  unfolding run
  run-IsValid [] h v = v
  run-IsValid (c ∷ calls) h v = run-IsValid calls (call h c) (call-IsValid h c v)
