-- ===== src/History.antt =====
-- Undo and redo of a session without a server: model/edit_history.hpp and model/edit_history.cpp.
-- A deque is the list of its elements, the front (the oldest step) first. `size_t` has 64 bits.
pub mod Footprint
pub mod Trim
pub mod Valid
pub mod Timeline
pub mod Undoable
pub mod Reach
unfoldable pub use imrmf_map_editor.Base.Size.{size_mod, add_size, sub_size}
use imrmf_map_editor.Base.{
  ℕ, ◌≡◌, ◌+◌, ◌-◌, ◌%◌, ◌^◌, ◌*◌, Bool, true, false, not, ◌&&◌, ◌||◌, Option, none, some, List, [],
  ◌∷◌, ◌++◌, length, ltb, ◌==◌, if◌then◌else◌,
}
use imrmf_map_editor.Base.Text.{is_empty}

abbrev pub default_limit : ℕ
default_limit = 100

abbrev pub default_budget_bytes : ℕ
default_budget_bytes = 64 * 1024 * 1024

abbrev pub min_steps : ℕ
min_steps = 8

-- `back()` and `pop_back()`
unfoldable pub unsnoc {ℓ} : {A : Type ℓ} → List A → Option (List A × A)
unsnoc [] = none
unsnoc (x ∷ xs) = elim (unsnoc xs) [ none ↦ some ([], x) | some (ys, y) ↦ some (x ∷ ys, y) ]

-- `B` is the type of maps, and `footprint` the estimate of a map's size.
pub record Step (B : Type 0) : Type 0 where
  pub map : B
  pub bytes : ℕ

pub record EditHistory (B : Type 0) : Type 0 where
  pub current : B
  pub past : List (Step B)
  pub future : List (Step B)
  pub past_bytes : ℕ
  pub future_bytes : ℕ
  pub limit : ℕ
  pub budget_bytes : ℕ

module _ {B : Type 0} where
  -- The constructor: a limit of 0 is taken as 1.
  unfoldable pub init : B → ℕ → ℕ → EditHistory B
  init initial limit budget = record {
    current = initial;
    past = [];
    future = [];
    past_bytes = 0;
    future_bytes = 0;
    limit = if limit == 0 then 1 else limit;
    budget_bytes = budget;
  }

  unfoldable pub reset : EditHistory B → B → EditHistory B
  reset h initial = record h {
    current = initial;
    past = [];
    future = [];
    past_bytes = 0;
    future_bytes = 0;
  }

  -- The condition of the loop of `trim`.
  unfoldable pub is_over : ℕ → ℕ → List (Step B) → ℕ → Bool
  is_over limit budget past bytes =
      ltb limit (length past) || ltb min_steps (length past) && ltb budget bytes

  -- The loop of `trim`, over the steps and their bytes.
  unfoldable pub trim : ℕ → ℕ → List (Step B) → ℕ → List (Step B) × ℕ
  unfolding is_over sub_size
  trim limit budget [] bytes = ([], bytes)
  trim limit budget (s ∷ past) bytes =
      let rest = trim limit budget past (sub_size bytes s.bytes) in
      if is_over limit budget (s ∷ past) bytes then rest else (s ∷ past, bytes)

  unfoldable pub can_undo : EditHistory B → Bool
  can_undo h = not (is_empty h.past)

  unfoldable pub can_redo : EditHistory B → Bool
  can_redo h = not (is_empty h.future)

  unfoldable pub undo_depth : EditHistory B → ℕ
  undo_depth h = length h.past

  unfoldable pub redo_depth : EditHistory B → ℕ
  redo_depth h = length h.future

  unfoldable pub bytes_held : EditHistory B → ℕ
  unfolding add_size
  bytes_held h = add_size h.past_bytes h.future_bytes

module _ {B : Type 0} (footprint : B → ℕ) where
  unfoldable pub commit : EditHistory B → B → EditHistory B
  unfolding trim add_size
  commit h now =
      let bytes = footprint h.current in
      let (past, past_bytes) =
        trim h.limit h.budget_bytes (h.past ++ record { map = h.current; bytes = bytes } ∷ [])
          (add_size h.past_bytes bytes) in
      record h {
        current = now;
        past = past;
        past_bytes = past_bytes;
        future = [];
        future_bytes = 0;
      }

  -- The result is what is written to `out`; `none` is the return of false.
  unfoldable pub undo : EditHistory B → EditHistory B × Option B
  unfolding unsnoc add_size sub_size
  undo h = elim (unsnoc h.past) [
    | none ↦ (h, none)
    | some (past, step) ↦
        let bytes = footprint h.current in
        (
          record h {
            current = step.map;
            past = past;
            past_bytes = sub_size h.past_bytes step.bytes;
            future = h.future ++ record { map = h.current; bytes = bytes } ∷ [];
            future_bytes = add_size h.future_bytes bytes;
          },
          some step.map,
        )
  ]

  unfoldable pub redo : EditHistory B → EditHistory B × Option B
  unfolding unsnoc add_size sub_size
  redo h = elim (unsnoc h.future) [
    | none ↦ (h, none)
    | some (future, step) ↦
        let bytes = footprint h.current in
        (
          record h {
            current = step.map;
            past = h.past ++ record { map = h.current; bytes = bytes } ∷ [];
            past_bytes = add_size h.past_bytes bytes;
            future = future;
            future_bytes = sub_size h.future_bytes step.bytes;
          },
          some step.map,
        )
  ]

  -- What the two branches of `undo` and `redo` return.
  pub undo_empty : (h : EditHistory B) → unsnoc h.past ≡ none → undo h ≡ (h, none)
  unfolding undo
  undo_empty h e = rw (e, undo)

  pub undo_step :
      (h : EditHistory B) (past : List (Step B)) (step : Step B)
      → unsnoc h.past ≡ some (past, step)
      → undo h ≡ (
        record h {
          current = step.map;
          past = past;
          past_bytes = sub_size h.past_bytes step.bytes;
          future = h.future ++ record { map = h.current; bytes = footprint h.current } ∷ [];
          future_bytes = add_size h.future_bytes (footprint h.current);
        },
        some step.map,
      )
  unfolding undo
  undo_step h past step e = rw (e, undo)

  pub redo_empty : (h : EditHistory B) → unsnoc h.future ≡ none → redo h ≡ (h, none)
  unfolding redo
  redo_empty h e = rw (e, redo)

  pub redo_step :
      (h : EditHistory B) (future : List (Step B)) (step : Step B)
      → unsnoc h.future ≡ some (future, step)
      → redo h ≡ (
        record h {
          current = step.map;
          past = h.past ++ record { map = h.current; bytes = footprint h.current } ∷ [];
          past_bytes = add_size h.past_bytes (footprint h.current);
          future = future;
          future_bytes = sub_size h.future_bytes step.bytes;
        },
        some step.map,
      )
  unfolding redo
  redo_step h future step e = rw (e, redo)
