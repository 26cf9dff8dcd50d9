-- ===== src/History/Reach.antt =====
-- A burst of edits can be undone whole (model/edit_history.cpp): the reach of `undo`.
use mathlib.Core.List.{map-append}
use imrmf_map_editor.Base.{
  ℕ, zero, suc, ◌+◌, ◌≤◌, ◌<◌, ◌≡◌, ◌≢◌, refl, sym, ◌∙◌, inl, inr, ap, Option, some, List, [], ◌∷◌,
  ◌++◌, map, append_assoc, arith, length, length-append, append-nil,
}
use imrmf_map_editor.History.{
  Step, EditHistory, add_size, min_steps, unsnoc, commit, undo, undo_step,
}
use imrmf_map_editor.History.Trim.{unsnoc-append, unsnoc-cases, unsnoc-eq-none, trim-append}

-- The newest maps of the past are `xs`.
record Retains {B : Type 0} (xs : List B) (h : EditHistory B) : Type 0 where
  old : List (Step B)
  new : List (Step B)
  split : h.past ≡ old ++ new
  maps : map (λ s. s.map) new ≡ xs

snoc-injective {ℓ} :
    {A : Type ℓ} (xs ys : List A) (x y : A) → xs ++ x ∷ [] ≡ ys ++ y ∷ [] → (xs ≡ ys) × (x ≡ y)
snoc-injective {A} xs ys x y e =
    let p : ◌≡◌ {A = Option (List A × A)} (some (xs, x)) (some (ys, y)) =
      sym (unsnoc-append xs x) ∙ ap unsnoc e ∙ unsnoc-append ys y in
    (cc, cc)

nil-ne-snoc {ℓ} : {A : Type ℓ} (xs : List A) (x : A) → [] ≢ xs ++ x ∷ []
nil-ne-snoc [] x e = cc
nil-ne-snoc (y ∷ xs) x e = cc

length-map-steps :
    {B : Type 0} (steps : List (Step B)) → length (map (λ s. s.map) steps) ≡ length steps
length-map-steps [] = refl
length-map-steps (s ∷ steps) = ap suc (length-map-steps steps)

module _ {B : Type 0} (footprint : B → ℕ) where
  unfoldable pub commit_all : List B → EditHistory B → EditHistory B
  commit_all [] h = h
  commit_all (b ∷ bs) h = commit_all bs (commit footprint h b)

  unfoldable pub undo_times : ℕ → EditHistory B → EditHistory B
  undo_times zero h = h
  undo_times (suc n) h = undo_times n (undo footprint h).0

  commit-Retains :
      (xs : List B) (h : EditHistory B) (b : B)
      → Retains xs h
      → length xs < h.limit
      → length xs < min_steps
      → Retains (xs ++ h.current ∷ []) (commit footprint h b)
  unfolding commit
  commit-Retains xs h b r small few =
      let s : Step B = record { map = h.current; bytes = footprint h.current } in
      let size : length (r.new ++ s ∷ []) ≡ length xs + 1 =
        omega (arith, length-append r.new (s ∷ []), length-map-steps r.new, ap length r.maps) in
      let (kept, e) =
        trim-append h.limit h.budget_bytes r.old (r.new ++ s ∷ []) (add_size h.past_bytes s.bytes)
          (omega arith) (omega arith) in
      record {
        old = kept;
        new = r.new ++ s ∷ [];
        split = rw (r.split, append_assoc) e;
        maps = rw map-append (ap (λ ys. ys ++ h.current ∷ []) r.maps);
      }

  undo-Retains :
      (xs : List B) (x : B) (h : EditHistory B)
      → Retains (xs ++ x ∷ []) h
      → Retains xs (undo footprint h).0 × ((undo footprint h).0.current ≡ x)
  undo-Retains xs x h r = elim (unsnoc-cases r.new) [
    | inl e ↦
        absurd (nil-ne-snoc xs x (sym (ap (map (λ s. s.map)) (unsnoc-eq-none r.new e)) ∙ r.maps))
    | inr (new, s, e, u) ↦
        let (ys, y) = snoc-injective (map (λ (t : Step B). t.map) new) xs s.map x (
          sym (map-append (λ (t : Step B). t.map) new (s ∷ []))
          ∙ sym (ap (map (λ (t : Step B). t.map)) e)
          ∙ r.maps) in
        let last : unsnoc h.past ≡ some (r.old ++ new, s) =
          rw (r.split, e, ← append_assoc) (unsnoc-append (r.old ++ new) s) in
        rw (undo_step footprint h (r.old ++ new) s last)
          (record { old = r.old; new = new; split = refl; maps = ys }, y)
  ]

  -- The maps that the commits leave behind, the oldest first.
  abbrev trail : B → List B → List B
  trail b [] = []
  trail b (c ∷ bs) = b ∷ trail c bs

  commit_all-Retains :
      (bs xs : List B) (h : EditHistory B)
      → Retains xs h
      → length xs + length bs ≤ h.limit
      → length xs + length bs ≤ min_steps
      → Retains (xs ++ trail h.current bs) (commit_all bs h)
  unfolding commit_all commit
  commit_all-Retains [] xs h r small few = rw append-nil r
  commit_all-Retains (b ∷ bs) xs h r small few =
      let next =
        commit_all-Retains bs (xs ++ h.current ∷ []) (commit footprint h b)
          (commit-Retains xs h b r (omega arith) (omega arith))
          (omega (arith, length-append xs (h.current ∷ [])))
          (omega (arith, length-append xs (h.current ∷ []))) in
      rw append_assoc at next

  undo_times-current :
      (n : ℕ) (xs : List B) (x : B) (ys : List B) (h : EditHistory B)
      → length ys ≡ n
      → Retains (xs ++ x ∷ ys) h
      → (undo_times (suc n) h).current ≡ x
  unfolding undo_times
  undo_times-current zero xs x [] h e r = (undo-Retains xs x h r).1
  undo_times-current zero xs x (y ∷ ys) h e r = absurd (omega arith)
  undo_times-current (suc n) xs x ys h e r = elim (unsnoc-cases ys) [
    | inl u ↦ absurd (omega (arith, ap length (unsnoc-eq-none ys u)))
    | inr (zs, z, f, u) ↦
        undo_times-current n xs x zs (undo footprint h).0
          (omega (arith, ap length f, length-append zs (z ∷ [])))
          (undo-Retains (xs ++ x ∷ zs) z h (rw (append_assoc xs (x ∷ zs) (z ∷ [])) (rw f at r))).0
  ]

  length-trail : (b : B) (bs : List B) → length (trail b bs) ≡ length bs
  length-trail b [] = refl
  length-trail b (c ∷ bs) = ap suc (length-trail c bs)

  -- A burst of edits, no more of them than the least depth and the limit, is undone whole by as
  -- many undos, whatever the byte budget: the session is back at the map from before the burst.
  pub undo_times-commit_all :
      (bs : List B) (h : EditHistory B)
      → length bs ≤ h.limit
      → length bs ≤ min_steps
      → (undo_times (length bs) (commit_all bs h)).current ≡ h.current
  unfolding undo_times commit_all
  undo_times-commit_all [] h small few = refl
  undo_times-commit_all (b ∷ bs) h small few =
      undo_times-current (length bs) [] h.current (trail b bs) (commit_all (b ∷ bs) h)
        (length-trail b bs)
        (commit_all-Retains (b ∷ bs) [] h
          (record { old = h.past; new = []; split = rw append-nil; maps = refl }) (omega arith)
          (omega arith))
