-- ===== src/History/Valid.antt =====
-- The invariant of `EditHistory` (model/edit_history.hpp), and that every operation keeps it.
use imrmf_map_editor.Base.{
  ℕ, ◌+◌, ◌≤◌, ◌≡◌, refl, inl, inr, ap, false, List, [], ◌∷◌, ◌++◌, arith, length, All, All-append,
  sum_by, sum_by-append, length-append,
}
use imrmf_map_editor.History.{
  Step, EditHistory, add_size, sub_size, is_over, init, reset, commit, undo, redo, undo_empty,
  undo_step, redo_empty, redo_step,
}
use imrmf_map_editor.History.Trim.{unsnoc-cases, held, trim-held, trim_fits, trim-All}

module _ {B : Type 0} (footprint : B → ℕ) where
  -- Each step holds the footprint of its own map.
  abbrev pub IsMeasured : Step B → Type 0
  IsMeasured s = s.bytes ≡ footprint s.map

  pub record IsValid (h : EditHistory B) : Type 0 where
    pub limit_pos : 1 ≤ h.limit
    pub depth : length h.past + length h.future ≤ h.limit
    pub past_held : h.past_bytes ≡ held h.past
    pub future_held : h.future_bytes ≡ held h.future
    pub past_measured : All IsMeasured h.past
    pub future_measured : All IsMeasured h.future

  -- A new history is valid, whatever the limit.
  pub init-IsValid : (b : B) (limit budget : ℕ) → IsValid (init b limit budget)
  unfolding init sum_by
  init-IsValid b limit budget = ground arith

  pub reset-IsValid : {h : EditHistory B} (b : B) → IsValid h → IsValid (reset h b)
  unfolding reset sum_by
  reset-IsValid b v = ground arith

held-append :
    {B : Type 0} (steps : List (Step B)) (s : Step B) (n : ℕ)
    → n ≡ held steps
    → add_size n s.bytes ≡ held (steps ++ s ∷ [])
unfolding add_size sum_by
held-append steps s n e = omega (arith, sum_by-append (λ (t : Step _). t.bytes) steps (s ∷ []))

held-unsnoc :
    {B : Type 0} (steps : List (Step B)) (s : Step B) (n : ℕ)
    → n ≡ held (steps ++ s ∷ [])
    → sub_size n s.bytes ≡ held steps
unfolding sub_size sum_by
held-unsnoc steps s n e = omega (arith, sum_by-append (λ (t : Step _). t.bytes) steps (s ∷ []))

pub All-init {ℓ κ} :
    {A : Type ℓ} (P : A → Type κ) (xs : List A) (x : A) → All P (xs ++ x ∷ []) → All P xs × P x
All-init P [] x a = (tt, a.0)
All-init P (y ∷ xs) x a = let (r, p) = All-init P xs x a.1 in ((a.0, r), p)

within_limit :
    {B : Type 0} (limit budget : ℕ) (past : List (Step B)) (bytes : ℕ)
    → is_over limit budget past bytes ≡ false
    → length past ≤ limit
unfolding is_over
within_limit limit budget past bytes h = ground arith

module _ {B : Type 0} (footprint : B → ℕ) (h : EditHistory B) (v : IsValid footprint h) where
  pub commit-IsValid : (now : B) → IsValid footprint (commit footprint h now)
  unfolding commit sum_by
  commit-IsValid now =
      let s : Step B = record { map = h.current; bytes = footprint h.current } in
      record {
        limit_pos = v.limit_pos;
        depth = omega (
          arith,
          within_limit h.limit h.budget_bytes _ _
              (trim_fits h.limit h.budget_bytes (h.past ++ s ∷ []) (add_size h.past_bytes s.bytes)),
        );
        past_held =
            trim-held h.limit h.budget_bytes (h.past ++ s ∷ []) (add_size h.past_bytes s.bytes)
              (held-append h.past s h.past_bytes v.past_held);
        future_held = refl;
        past_measured =
            trim-All h.limit h.budget_bytes (IsMeasured footprint) (h.past ++ s ∷ []) _
              (All-append (IsMeasured footprint) h.past (s ∷ []) v.past_measured (refl, tt));
        future_measured = tt;
      }

  pub undo-IsValid : IsValid footprint (undo footprint h).0
  undo-IsValid = elim (unsnoc-cases h.past) [
    | inl e ↦ rw (undo_empty footprint h e) v
    | inr (past, s, e, u) ↦
        let t : Step B = record { map = h.current; bytes = footprint h.current } in
        rw (undo_step footprint h past s u) (record {
          limit_pos = v.limit_pos;
          depth = omega (
            arith,
            ap length e,
            length-append past (s ∷ []),
            length-append h.future (t ∷ []),
            v.depth,
          );
          past_held = held-unsnoc past s h.past_bytes (rw e at v.past_held);
          future_held = held-append h.future t h.future_bytes v.future_held;
          past_measured = (All-init (IsMeasured footprint) past s (rw e at v.past_measured)).0;
          future_measured =
              All-append (IsMeasured footprint) h.future (t ∷ []) v.future_measured (refl, tt);
        })
  ]

  pub redo-IsValid : IsValid footprint (redo footprint h).0
  redo-IsValid = elim (unsnoc-cases h.future) [
    | inl e ↦ rw (redo_empty footprint h e) v
    | inr (future, s, e, u) ↦
        let t : Step B = record { map = h.current; bytes = footprint h.current } in
        rw (redo_step footprint h future s u) (record {
          limit_pos = v.limit_pos;
          depth = omega (
            arith,
            ap length e,
            length-append future (s ∷ []),
            length-append h.past (t ∷ []),
            v.depth,
          );
          future_held = held-unsnoc future s h.future_bytes (rw e at v.future_held);
          past_held = held-append h.past t h.past_bytes v.past_held;
          future_measured =
              (All-init (IsMeasured footprint) future s (rw e at v.future_measured)).0;
          past_measured =
              All-append (IsMeasured footprint) h.past (t ∷ []) v.past_measured (refl, tt);
        })
  ]
