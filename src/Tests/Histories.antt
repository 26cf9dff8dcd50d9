-- ===== src/Tests/Histories.antt =====
-- A session on maps that are numbers, each of which counts as its own size.
use imrmf_map_editor.Base.{ℕ, ◌%◌, ◌≡◌, refl, some, List, [], ◌∷◌, arith, length}
use imrmf_map_editor.History.{
  EditHistory, init, commit, undo, redo, undo_depth, bytes_held, unsnoc, trim, is_over, add_size,
  sub_size,
}
use imrmf_map_editor.History.Valid.{IsValid, init-IsValid}
use imrmf_map_editor.History.Timeline.{redo-undo}
use imrmf_map_editor.History.Undoable.{Call, commit_call, undo_call, redo_call, run, run-IsValid}
use imrmf_map_editor.History.Reach.{commit_all, undo_times, undo_times-commit_all}
use imrmf_map_editor.History.Footprint.{Sizes, approx_footprint}
use imrmf_map_editor.History.Footprint.Exact.{plain_footprint, approx_footprint-eq-sum}
use imrmf_map_editor.History.{size_mod}
use imrmf_map_editor.Tests.Maps.{building}

abbrev size : ℕ → ℕ
size b = b

abbrev start : EditHistory ℕ
unfolding init
start = init 1 3 1000

-- Two edits, an undo, and a redo.
abbrev calls : List (Call ℕ)
calls = commit_call 2 ∷ commit_call 3 ∷ undo_call ∷ redo_call ∷ undo_call ∷ []

walk_back :
    ((run size calls start).current ≡ 2)
    × (undo_depth (run size calls start) ≡ 1)
    × (bytes_held (run size calls start) ≡ 4)
unfolding init run commit undo redo trim is_over unsnoc add_size sub_size undo_depth bytes_held
walk_back = (refl, refl, refl)

-- Four commits at a limit of 3 leave three steps.
trimmed : undo_depth (commit_all size (2 ∷ 3 ∷ 4 ∷ 5 ∷ []) start) ≡ 3
unfolding init commit commit_all trim is_over unsnoc add_size sub_size undo_depth
trimmed = refl

start-IsValid : IsValid size start
unfolding init
start-IsValid = init-IsValid size 1 3 1000

run-IsValid_example : IsValid size (run size calls start)
run-IsValid_example = run-IsValid size calls start start-IsValid

undone_out : (undo size (run size calls start)).1 ≡ some 1
unfolding init run commit undo redo trim is_over unsnoc add_size sub_size
undone_out = refl

redo-undo_example :
    redo size (undo size (run size calls start)).0
    ≡ (run size calls start, some (run size calls start).current)
redo-undo_example = redo-undo size (run size calls start) run-IsValid_example undone_out

undo_times-commit_all_example :
    (undo_times size 2 (commit_all size (5 ∷ 6 ∷ []) start)).current ≡ start.current
unfolding init
undo_times-commit_all_example =
    undo_times-commit_all size (5 ∷ 6 ∷ []) start (omega arith) (omega arith)

abbrev sizes : Sizes
sizes = record {
  building_size = 152;
  level_size = 296;
  vertex_size = 104;
  lane_size = 56;
  wall_size = 56;
  door_size = 56;
  measurement_size = 56;
  floor_size = 112;
  fiducial_size = 48;
  layer_size = 152;
  int_size = 4;
  vector_size = 24;
  text_capacity = λ t. length t;
  capacity = λ v. length v;
}

approx_footprint-eq-sum_example :
    approx_footprint sizes building ≡ plain_footprint sizes building % size_mod
approx_footprint-eq-sum_example = approx_footprint-eq-sum sizes building
