-- ===== src/History/Timeline.antt =====
-- Undo and redo walk one timeline and lose nothing (model/edit_history.cpp).
use mathlib.Core.List.{reverse, reverse-append, map-append}
use imrmf_map_editor.Base.{
  ℕ, ◌%◌, ◌<◌, ◌≡◌, refl, inl, inr, ap, some, List, [], ◌∷◌, ◌++◌, map, append_assoc, ◌∙◌, arith,
}
use imrmf_map_editor.History.{
  Step, EditHistory, size_mod, add_size, sub_size, unsnoc, commit, undo, redo, undo_empty,
  undo_step, redo_empty, redo_step,
}
use imrmf_map_editor.History.Trim.{unsnoc-append, unsnoc-cases, trim-append}
use imrmf_map_editor.History.Valid.{IsValid, IsMeasured, All-init}

-- The maps of a history, the oldest first. A cursor on it stands at the current map.
abbrev pub timeline : {B : Type 0} → EditHistory B → List B
timeline h = map (λ s. s.map) h.past ++ h.current ∷ reverse (map (λ s. s.map) h.future)

module _ {B : Type 0} (footprint : B → ℕ) (h : EditHistory B) where
  timeline-undo : timeline (undo footprint h).0 ≡ timeline h
  timeline-undo = elim (unsnoc-cases h.past) [
    | inl e ↦ rw (undo_empty footprint h e)
    | inr (past, s, e, u) ↦
        rw (undo_step footprint h past s u) (simp (e, map-append, reverse-append, append_assoc))
  ]

  timeline-redo : timeline (redo footprint h).0 ≡ timeline h
  timeline-redo = elim (unsnoc-cases h.future) [
    | inl e ↦ rw (redo_empty footprint h e)
    | inr (future, s, e, u) ↦
        rw (redo_step footprint h future s u) (simp (e, map-append, reverse-append, append_assoc))
  ]

  -- Undo and redo leave the timeline of the history as it is, whether or not there is a step to undo or
  -- to redo.
  pub timeline_kept :
      (timeline (undo footprint h).0 ≡ timeline h) × (timeline (redo footprint h).0 ≡ timeline h)
  timeline_kept = (timeline-undo, timeline-redo)

-- The state that `undo` moves to, with `past` before `s`.
abbrev undone : {B : Type 0} → (B → ℕ) → EditHistory B → List (Step B) → Step B → EditHistory B
undone footprint h past s = record h {
  current = s.map;
  past = past;
  past_bytes = sub_size h.past_bytes s.bytes;
  future = h.future ++ record { map = h.current; bytes = footprint h.current } ∷ [];
  future_bytes = add_size h.future_bytes (footprint h.current);
}

mod_small : (n : ℕ) → n % size_mod < size_mod
mod_small n = omega arith

sub-add_size : (a b : ℕ) → a < size_mod → add_size (sub_size a b) b ≡ a
unfolding add_size sub_size
sub-add_size a b h = omega arith

add-sub_size : (a b : ℕ) → a < size_mod → sub_size (add_size a b) b ≡ a
unfolding add_size sub_size
add-sub_size a b h = omega arith

-- The cursor moves one step, and `out` gets the map that it moves to.
module _ {B : Type 0} (footprint : B → ℕ) where
  -- In a valid history, redo after an undo that moved restores the whole state, byte counters
  -- included, and returns the map that was current.
  pub redo-undo :
      (h : EditHistory B) {out : B}
      → IsValid footprint h
      → (undo footprint h).1 ≡ some out
      → redo footprint (undo footprint h).0 ≡ (h, some h.current)
  redo-undo h {out} v moved = elim (unsnoc-cases h.past) [
    | inl e ↦ ground (arith, undo_empty footprint h e)
    | inr (past, s, e, u) ↦
        let same : s.bytes ≡ footprint s.map =
          (All-init (IsMeasured footprint) past s (rw e at v.past_measured)).1 in
        rw (undo_step footprint h past s u) (
          redo_step footprint (undone footprint h past s) h.future
            (record { map = h.current; bytes = footprint h.current }) (unsnoc-append h.future _)
          ∙ cc (
            e,
            same,
            sub-add_size h.past_bytes s.bytes (rw v.past_held (mod_small _)),
            add-sub_size h.future_bytes (footprint h.current) (rw v.future_held (mod_small _)),
          ))
  ]

  -- In a valid history, undo after a commit returns the map before the edit, and redo after that
  -- returns the edit.
  pub undo-commit :
      (h : EditHistory B) (now : B)
      → IsValid footprint h
      → ((undo footprint (commit footprint h now)).1 ≡ some h.current)
        × ((redo footprint (undo footprint (commit footprint h now)).0).1 ≡ some now)
  unfolding commit unsnoc
  undo-commit h now v =
      let s : Step B = record { map = h.current; bytes = footprint h.current } in
      let (kept, e) =
        trim-append h.limit h.budget_bytes h.past (s ∷ []) (add_size h.past_bytes s.bytes)
          v.limit_pos (omega arith) in
      let u : unsnoc (commit footprint h now).past ≡ some (kept, s) = rw e (unsnoc-append kept s) in
      rw (undo_step footprint (commit footprint h now) kept s u) (
        refl,
        ap (λ r. r.1) (redo_step footprint _ [] (record { map = now; bytes = footprint now }) refl),
      )
