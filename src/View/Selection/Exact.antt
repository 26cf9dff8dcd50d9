-- ===== src/View/Selection/Exact.antt =====
-- What the deletion of the selected lanes (view/editor_view.cpp) leaves, whatever the order.
use mathlib.Core.Path.{subst}
use imrmf_map_editor.Base.{
  ℕ, zero, suc, ◌+◌, ◌<◌, ◌≡◌, refl, sym, ap, ◌∙◌, Bool, true, false, ◌||◌, List, [], ◌∷◌, arith,
  length, erase_idx, if◌then◌else◌, Bool-cases, ◌⊎◌, inl, inr, All, All-mono,
}
use imrmf_map_editor.Base.Int.{ℤ, pos, negsuc, ltb_ℤ, leb_ℤ, eqb_ℤ, eqb_ℤ_iff}
use imrmf_map_editor.Building.{Edge, Level}
use imrmf_map_editor.Building.Delete.{delete_lane, out_of_range}
use imrmf_map_editor.View.Selection.{
  is_selected, insert_greater, sort_greater, unique, delete_lanes, delete_lane_indices,
}

abbrev IsDesc : List ℤ → Type 0
IsDesc [] = Unit
IsDesc (i ∷ sel) = All (λ j. leb_ℤ j i ≡ true) sel × IsDesc sel

abbrev IsStrict : List ℤ → Type 0
IsStrict [] = Unit
IsStrict (i ∷ sel) = All (λ j. ltb_ℤ j i ≡ true) sel × IsStrict sel

All-insert :
    (P : ℤ → Type 0) (i : ℤ) (sel : List ℤ) → P i → All P sel → All P (insert_greater i sel)
unfolding insert_greater
All-insert P i [] p h = (p, tt)
All-insert P i (j ∷ sel) p h = elim (Bool-cases (ltb_ℤ j i)) [
  | inl lt ↦ rw lt (p, h)
  | inr ge ↦ rw ge (h.0, All-insert P i sel p (h.1))
]

insert-IsDesc : (i : ℤ) (sel : List ℤ) → IsDesc sel → IsDesc (insert_greater i sel)
unfolding insert_greater
insert-IsDesc i [] d = (tt, tt)
insert-IsDesc i (j ∷ sel) d = elim (Bool-cases (ltb_ℤ j i)) [
  | inl lt ↦ rw lt ((ground (arith, lt), All-mono (λ k le. ground (arith, lt, le)) sel (d.0)), d)
  | inr ge ↦ rw ge (
    All-insert (λ k. leb_ℤ k j ≡ true) i sel (ground (arith, ge)) (d.0),
    insert-IsDesc i sel (d.1),
  )
]

sort-IsDesc : (sel : List ℤ) → IsDesc (sort_greater sel)
unfolding sort_greater
sort-IsDesc [] = tt
sort-IsDesc (i ∷ sel) = insert-IsDesc i (sort_greater sel) (sort-IsDesc sel)

All-unique : (P : ℤ → Type 0) (sel : List ℤ) → All P sel → All P (unique sel)
unfolding unique
All-unique P [] h = tt
All-unique P (i ∷ []) h = h
All-unique P (i ∷ j ∷ sel) h = elim (Bool-cases (eqb_ℤ i j)) [
  | inl same ↦ rw same (All-unique P (j ∷ sel) (h.1))
  | inr other ↦ rw other (h.0, All-unique P (j ∷ sel) (h.1))
]

unique-IsStrict : (sel : List ℤ) → IsDesc sel → IsStrict (unique sel)
unfolding unique
unique-IsStrict [] d = tt
unique-IsStrict (i ∷ []) d = (tt, tt)
unique-IsStrict (i ∷ j ∷ sel) d = elim (Bool-cases (eqb_ℤ i j)) [
  | inl same ↦ rw same (unique-IsStrict (j ∷ sel) (d.1))
  | inr other ↦
      let below : ltb_ℤ j i ≡ true = ground (arith, other, d.0.0) in
      rw other (
        All-unique (λ k. ltb_ℤ k i ≡ true) (j ∷ sel)
            (below, All-mono (λ k le. ground (arith, below, le)) sel (d.1.0)),
        unique-IsStrict (j ∷ sel) (d.1),
      )
]

or_swap : (a b c : Bool) → (a || (b || c)) ≡ (b || (a || c))
or_swap a b c = ground arith

or_twice : (a b : Bool) → (a || b) ≡ (a || (a || b))
or_twice a b = ground arith

is_selected-insert :
    (i : ℤ) (sel : List ℤ) (k : ℤ)
    → is_selected (insert_greater i sel) k ≡ (eqb_ℤ i k || is_selected sel k)
unfolding insert_greater is_selected
is_selected-insert i [] k = refl
is_selected-insert i (j ∷ sel) k = elim (Bool-cases (ltb_ℤ j i)) [
  | inl lt ↦ rw lt refl
  | inr ge ↦
      rw (ge, is_selected-insert i sel k) (or_swap (eqb_ℤ j k) (eqb_ℤ i k) (is_selected sel k))
]

is_selected-sort : (sel : List ℤ) (k : ℤ) → is_selected (sort_greater sel) k ≡ is_selected sel k
unfolding sort_greater is_selected
is_selected-sort [] k = refl
is_selected-sort (i ∷ sel) k =
    is_selected-insert i (sort_greater sel) k ∙ ap (λ b. eqb_ℤ i k || b) (is_selected-sort sel k)

is_selected-unique : (sel : List ℤ) (k : ℤ) → is_selected (unique sel) k ≡ is_selected sel k
unfolding unique is_selected
is_selected-unique [] k = refl
is_selected-unique (i ∷ []) k = refl
is_selected-unique (i ∷ j ∷ sel) k = elim (Bool-cases (eqb_ℤ i j)) [
  | inl same ↦
      let e : eqb_ℤ j k ≡ eqb_ℤ i k = ap (λ l. eqb_ℤ l k) (sym ((eqb_ℤ_iff i j).0 same)) in
      rw (same, is_selected-unique (j ∷ sel) k, e) (or_twice (eqb_ℤ i k) (is_selected sel k))
  | inr other ↦ rw (other, is_selected-unique (j ∷ sel) k) refl
]

-- The lanes from index `k` on whose index is not selected.
unfoldable pub unselected : {D : Type 0} → List ℤ → ℕ → List (Edge D) → List (Edge D)
unfolding is_selected
unselected sel k [] = []
unselected sel k (lane ∷ lanes) =
    let rest = unselected sel (suc k) lanes in if is_selected sel (pos k) then rest else lane ∷ rest

not_selected :
    (sel : List ℤ) (k : ℕ) → All (λ j. ltb_ℤ j (pos k) ≡ true) sel → is_selected sel (pos k) ≡ false
unfolding is_selected
not_selected [] k h = refl
not_selected (i ∷ sel) k h = ground (arith, h.0, not_selected sel k (h.1))

unselected-below :
    {D : Type 0} (sel : List ℤ) (k : ℕ) (lanes : List (Edge D))
    → All (λ j. ltb_ℤ j (pos k) ≡ true) sel
    → unselected sel k lanes ≡ lanes
unfolding unselected
unselected-below sel k [] h = refl
unselected-below sel k (lane ∷ lanes) h = rw (not_selected sel k h) (
    ap (◌∷◌ lane)
      (unselected-below sel (suc k) lanes (All-mono (λ j lt. ground (arith, lt)) sel h)))

unselected-erase :
    {D : Type 0} (sel : List ℤ) (k d i : ℕ) (lanes : List (Edge D))
    → d ≡ k + i
    → All (λ j. ltb_ℤ j (pos d) ≡ true) sel
    → i < length lanes
    → unselected sel k (erase_idx lanes i) ≡ unselected (pos d ∷ sel) k lanes
unfolding unselected is_selected
unselected-erase sel k d i [] at h lt = absurd (omega (arith, lt))
unselected-erase sel k d zero (lane ∷ lanes) at h lt =
    let same : eqb_ℤ (pos d) (pos k) ≡ true = ground (arith, at) in
    let here : All (λ j. ltb_ℤ j (pos k) ≡ true) sel =
      All-mono (λ j below. ground (arith, at, below)) sel h in
    let past : All (λ j. ltb_ℤ j (pos (suc k)) ≡ true) sel =
      All-mono (λ j below. ground (arith, at, below)) sel h in
    rw same (
      unselected-below sel k lanes here
      ∙ sym (unselected-below (pos d ∷ sel) (suc k) lanes (ground (arith, at), past)))
unselected-erase sel k d (suc i) (lane ∷ lanes) at h lt =
    let other : eqb_ℤ (pos d) (pos k) ≡ false = ground (arith, at) in
    rw (other, unselected-erase sel (suc k) d i lanes (omega (arith, at)) h (omega (arith, lt)))
      refl

unselected-out :
    {D : Type 0} (sel : List ℤ) (k size : ℕ) (d : ℤ) (lanes : List (Edge D))
    → size ≡ k + length lanes
    → leb_ℤ (pos k) d ≡ false ⊎ leb_ℤ (pos size) d ≡ true
    → unselected (d ∷ sel) k lanes ≡ unselected sel k lanes
unfolding unselected is_selected
unselected-out sel k size d [] whole out = refl
unselected-out sel k size d (lane ∷ lanes) whole out =
    let other : eqb_ℤ d (pos k) ≡ false = ground (arith, out, whole) in
    let rest : unselected (d ∷ sel) (suc k) lanes ≡ unselected sel (suc k) lanes =
      unselected-out sel (suc k) size d lanes (omega (arith, whole))
        (elim out [ inl low ↦ inl (ground (arith, low)) | inr high ↦ inr high ]) in
    rw (other, rest) refl

out_cases :
    (d : ℤ) (size : ℕ)
    → ((out_of_range d size ≡ true) × (leb_ℤ (pos 0) d ≡ false ⊎ leb_ℤ (pos size) d ≡ true))
      ⊎ ((out_of_range d size ≡ false) × (i : ℕ) × (d ≡ pos i) × (i < size))
unfolding out_of_range
out_cases (negsuc n) size = inl (ground arith, inl (ground arith))
out_cases (pos n) size = elim (Bool-cases (leb_ℤ (pos size) (pos n))) [
  | inl high ↦ inl (ground (arith, high), inr high)
  | inr low ↦ inr (ground (arith, low), n, refl, ground (arith, low))
]

delete_lanes-strict :
    {D N : Type 0} (sel : List ℤ) (level : Level D N)
    → IsStrict sel
    → delete_lanes sel level ≡ record level { lanes = unselected sel 0 level.lanes }
unfolding delete_lanes delete_lane
delete_lanes-strict [] level h =
    ap (λ ls. record level { lanes = ls }) (sym (unselected-below [] 0 level.lanes tt))
delete_lanes-strict (d ∷ sel) level h = elim (out_cases d (length level.lanes)) [
  | inl (out, far) ↦ rw out (
      delete_lanes-strict sel level (h.1)
      ∙ ap (λ ls. record level { lanes = ls })
          (sym (unselected-out sel 0 (length level.lanes) d level.lanes (omega arith) far)))
  | inr (inside, i, at, lt) ↦
      let below : All (λ j. ltb_ℤ j (pos i) ≡ true) sel =
        subst (λ e. All (λ j. ltb_ℤ j e ≡ true) sel) at (h.0) in
      rw (inside, at)
        (delete_lanes-strict sel (record level { lanes = erase_idx level.lanes i }) (h.1)
          ∙ ap (λ ls. record level { lanes = ls })
              (unselected-erase sel 0 i i level.lanes (omega arith) below lt))
]

unselected-same :
    {D : Type 0} (sel tel : List ℤ) (k : ℕ) (lanes : List (Edge D))
    → ((i : ℤ) → is_selected sel i ≡ is_selected tel i)
    → unselected sel k lanes ≡ unselected tel k lanes
unfolding unselected
unselected-same sel tel k [] same = refl
unselected-same sel tel k (lane ∷ lanes) same =
    rw (same (pos k), unselected-same sel tel (suc k) lanes same) refl

-- The deletion of selected lanes leaves exactly the lanes whose index is not selected, in their order,
-- and everything else of the level as it is, whatever the order of the selection and however often an
-- index stands in it.
pub delete_lane_indices-exact :
    {D N : Type 0} (sel : List ℤ) (level : Level D N)
    → delete_lane_indices sel level ≡ record level { lanes = unselected sel 0 level.lanes }
unfolding delete_lane_indices
delete_lane_indices-exact sel level =
    delete_lanes-strict (unique (sort_greater sel)) level
      (unique-IsStrict (sort_greater sel) (sort-IsDesc sel))
    ∙ ap (λ ls. record level { lanes = ls })
        (unselected-same (unique (sort_greater sel)) sel 0 level.lanes
          (λ i. is_selected-unique (sort_greater sel) i ∙ is_selected-sort sel i))
