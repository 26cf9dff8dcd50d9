-- ===== src/View/Split/Pieces.antt =====
-- Sorted splits, the halves of a lane, and lanes in the middle of others (view/editor_view.cpp).
use imrmf_map_editor.Base.{
  ℕ, suc, ◌+◌, ◌<◌, ◌≡◌, refl, ap, ◌∙◌, false, some, List, [], ◌∷◌, ◌++◌, append_assoc, arith,
  length, length-append, get_elem?, erase_idx, All, if_false,
}
use imrmf_map_editor.Base.Int.{pos}
use imrmf_map_editor.Building.{Edge, Level}
use imrmf_map_editor.Building.Delete.{out_of_range, delete_lane}
use imrmf_map_editor.View.Split.{Split, insert_desc, sort_desc}

pub insert_desc-last :
    {D : Type 0} (s : Split D) (splits : List (Split D))
    → All (λ t. s.lane < t.lane) splits
    → insert_desc s splits ≡ splits ++ s ∷ []
unfolding insert_desc
insert_desc-last s [] h = refl
insert_desc-last s (t ∷ splits) h = ground (arith, insert_desc-last s splits (h.1), h.0)

pub All-insert_desc :
    {D : Type 0} (P : Split D → Type 0) (s : Split D) (splits : List (Split D))
    → P s
    → All P splits
    → All P (insert_desc s splits)
unfolding insert_desc
All-insert_desc P s [] p h = (p, tt)
All-insert_desc P s (t ∷ splits) p h =
    ground (arith, p, h.0, h.1, All-insert_desc P s splits p (h.1))

pub All-sort_desc :
    {D : Type 0} (P : Split D → Type 0) (splits : List (Split D))
    → All P splits
    → All P (sort_desc splits)
unfolding sort_desc
All-sort_desc P [] h = tt
All-sort_desc P (s ∷ splits) h =
    All-insert_desc P s (sort_desc splits) (h.0) (All-sort_desc P splits (h.1))

pub get_elem?-middle :
    {A : Type 0} (xs : List A) (y : A) (zs : List A) → get_elem? (xs ++ y ∷ zs) (length xs) ≡ some y
get_elem?-middle [] y zs = refl
get_elem?-middle (x ∷ xs) y zs = get_elem?-middle xs y zs

pub erase_idx-middle :
    {A : Type 0} (xs : List A) (y : A) (zs : List A)
    → erase_idx (xs ++ y ∷ zs) (length xs) ≡ xs ++ zs
erase_idx-middle [] y zs = refl
erase_idx-middle (x ∷ xs) y zs = ap (◌∷◌ x) (erase_idx-middle xs y zs)

-- The two halves of a lane that is split at the vertex `v`.
abbrev pub halves : {D : Type 0} → ℕ → Edge D → List (Edge D)
halves v lane = record lane { end_idx = pos v } ∷ record lane { start_idx = pos v } ∷ []

-- The halves of such lanes, where the new vertices are counted from `v` on.
abbrev pub all_halves : {D : Type 0} → ℕ → List (Edge D × (D × D)) → List (Edge D)
all_halves v [] = []
all_halves v ((lane, point) ∷ cut) = halves v lane ++ all_halves (suc v) cut

abbrev pub points : {D : Type 0} → List (Edge D × (D × D)) → List (D × D)
points [] = []
points ((lane, point) ∷ cut) = point ∷ points cut

pub all_halves-append :
    {D : Type 0} (v : ℕ) (cut : List (Edge D × (D × D))) (lane : Edge D) (point : D × D)
    → all_halves v (cut ++ (lane, point) ∷ []) ≡ all_halves v cut ++ halves (v + length cut) lane
all_halves-append v [] lane point = ap (λ n. halves n lane) (omega arith)
all_halves-append v ((l, p) ∷ cut) lane point =
    ap (λ ls. halves v l ++ ls)
      (all_halves-append (suc v) cut lane point
        ∙ ap (λ n. all_halves (suc v) cut ++ halves n lane) (omega arith))

pub points-append :
    {D : Type 0} (cut : List (Edge D × (D × D))) (lane : Edge D) (point : D × D)
    → points (cut ++ (lane, point) ∷ []) ≡ points cut ++ point ∷ []
points-append [] lane point = refl
points-append ((l, p) ∷ cut) lane point = ap (◌∷◌ p) (points-append cut lane point)

pub length-points : {D : Type 0} (cut : List (Edge D × (D × D))) → length (points cut) ≡ length cut
length-points [] = refl
length-points ((l, p) ∷ cut) = omega (arith, length-points cut)

pub delete_lane-middle :
    {D N : Type 0} (level : Level D N) (before after : List (Edge D)) (lane : Edge D)
    → level.lanes ≡ before ++ lane ∷ after
    → delete_lane level (pos (length before)) ≡ record level { lanes = before ++ after }
unfolding delete_lane out_of_range
delete_lane-middle level before after lane at =
    let inside : length before < length level.lanes =
      omega (arith, ap length at, length-append before (lane ∷ after)) in
    let kept : erase_idx level.lanes (length before) ≡ before ++ after =
      ap (λ ls. erase_idx ls (length before)) at ∙ erase_idx-middle before lane after in
    let test : out_of_range (pos (length before)) (length level.lanes) ≡ false =
      ground (arith, inside) in
    if_false level (record level { lanes = erase_idx level.lanes (length before) }) test
    ∙ ap (λ ls. record level { lanes = ls }) kept

pub two_more :
    {A : Type 0} (before after : List A) (x y : A)
    → ((before ++ after) ++ x ∷ []) ++ y ∷ [] ≡ before ++ (after ++ x ∷ y ∷ [])
two_more before after x y =
    append_assoc (before ++ after) (x ∷ []) (y ∷ []) ∙ append_assoc before after (x ∷ y ∷ [])
