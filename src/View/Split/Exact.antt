-- ===== src/View/Split/Exact.antt =====
-- What a drag across lanes comes to (`draw_canvas` of view/editor_view.cpp), without indices.
use imrmf_map_editor.Base.{
  ℕ, suc, ◌+◌, ◌<◌, ◌≡◌, refl, sym, ap, ◌∙◌, none, some, List, [], ◌∷◌, ◌++◌, map, append-nil,
  append_assoc, arith, length, length-append, get_elem?, All, Option-cases, inl, inr,
}
use imrmf_map_editor.Building.{Vertex, Edge, Level}
use imrmf_map_editor.Building.Double.{Double}
use imrmf_map_editor.View.Split.{
  Literals, Split, sort_desc, new_vertex, crossing, splits_from, split_lane, split_all, dissect,
}
use imrmf_map_editor.View.Split.Pieces.{
  insert_desc-last, All-sort_desc, get_elem?-middle, halves, all_halves, points, all_halves-append,
  points-append, length-points, delete_lane-middle, two_more,
}

module _ {D : Type 0} (F : Double D) (C : Literals D) where
  split_all-append :
      {N : Type 0} (splits more : List (Split D)) (level : Level D N)
      → split_all F C (splits ++ more) level ≡ split_all F C more (split_all F C splits level)
  unfolding split_all
  split_all-append [] more level = refl
  split_all-append (s ∷ splits) more level = split_all-append splits more _

  -- The level with more vertices and with these lanes.
  abbrev pub redrawn : {N : Type 0} → Level D N → List (D × D) → List (Edge D) → Level D N
  redrawn level points lanes = record level {
    vertices = level.vertices ++ map (new_vertex F C) points;
    lanes = lanes;
  }

  split_lane-middle :
      {N : Type 0} (level : Level D N) (before after : List (Edge D)) (lane : Edge D)
      (point : D × D)
      → level.lanes ≡ before ++ lane ∷ after
      → split_lane F C (length before) point level
        ≡ redrawn level (point ∷ []) (before ++ (after ++ halves (length level.vertices) lane))
  unfolding split_lane new_vertex
  split_lane-middle level before after lane point at =
      let grown = record level { vertices = level.vertices ++ new_vertex F C point ∷ [] } in
      let found : get_elem? level.lanes (length before) ≡ some lane =
        ap (λ ls. get_elem? ls (length before)) at ∙ get_elem?-middle before lane after in
      rw (split_lane, found, delete_lane-middle grown before after lane at)
        (ap (λ ls. redrawn level (point ∷ []) ls) (two_more before after _ _))

  -- The lanes that the drag does not cross, in their order.
  unfoldable pub uncrossed : D × D → D × D → List (Vertex D) → List (Edge D) → List (Edge D)
  uncrossed down up vertices [] = []
  uncrossed down up vertices (lane ∷ lanes) =
      let rest = uncrossed down up vertices lanes in
      elim (crossing F C down up vertices lane) [ none ↦ lane ∷ rest | some point ↦ rest ]

  -- Those that it crosses, from the last to the first, each with the point.
  unfoldable pub crossed : D × D → D × D → List (Vertex D) → List (Edge D) → List (Edge D × (D × D))
  crossed down up vertices [] = []
  crossed down up vertices (lane ∷ lanes) =
      let rest = crossed down up vertices lanes in
      elim (crossing F C down up vertices lane) [
        | none ↦ rest
        | some point ↦ rest ++ (lane, point) ∷ []
      ]

  length-map-new_vertex : (ps : List (D × D)) → length (map (new_vertex F C) ps) ≡ length ps
  length-map-new_vertex [] = refl
  length-map-new_vertex (p ∷ ps) = omega (arith, length-map-new_vertex ps)

  splits_from-above :
      (down up : D × D) (vertices : List (Vertex D)) (i k : ℕ) (lanes : List (Edge D))
      → i < k
      → All (λ t. i < t.lane) (splits_from F C down up vertices k lanes)
  unfolding splits_from
  splits_from-above down up vertices i k [] h = tt
  splits_from-above down up vertices i k (lane ∷ lanes) h =
      ground (arith, h, splits_from-above down up vertices i (suc k) lanes (omega (arith, h)))

  module _ (down up : D × D) (vertices : List (Vertex D)) where
    abbrev splits : ℕ → List (Edge D) → List (Split D)
    splits = splits_from F C down up vertices

    -- What the loop and the two descriptions do with a lane that is missed, and with one that is hit.
    missed_lem :
        (k : ℕ) (lane : Edge D) (lanes : List (Edge D))
        → crossing F C down up vertices lane ≡ none
        → (splits k (lane ∷ lanes) ≡ splits (suc k) lanes)
          × (uncrossed down up vertices (lane ∷ lanes) ≡ lane ∷ uncrossed down up vertices lanes)
          × (crossed down up vertices (lane ∷ lanes) ≡ crossed down up vertices lanes)
    unfolding splits_from uncrossed crossed
    missed_lem k lane lanes e =
        (rw (splits_from, e) refl, rw (uncrossed, e) refl, rw (crossed, e) refl)

    hit_lem :
        (k : ℕ) (lane : Edge D) (lanes : List (Edge D)) (point : D × D)
        → crossing F C down up vertices lane ≡ some point
        → (splits k (lane ∷ lanes)
            ≡ record { lane = k; at_x = point.0; at_y = point.1 } ∷ splits (suc k) lanes)
          × (uncrossed down up vertices (lane ∷ lanes) ≡ uncrossed down up vertices lanes)
          × (crossed down up vertices (lane ∷ lanes)
              ≡ crossed down up vertices lanes ++ (lane, point) ∷ [])
    unfolding splits_from uncrossed crossed
    hit_lem k lane lanes point e =
        (rw (splits_from, e) refl, rw (uncrossed, e) refl, rw (crossed, e) refl)

    sorted_last :
        (k : ℕ) (point : D × D) (lanes : List (Edge D))
        → (let s : Split D = record { lane = k; at_x = point.0; at_y = point.1 } in
            sort_desc (s ∷ splits (suc k) lanes) ≡ sort_desc (splits (suc k) lanes) ++ s ∷ [])
    unfolding sort_desc
    sorted_last k point lanes = insert_desc-last _ (sort_desc (splits (suc k) lanes)) (
        All-sort_desc (λ t. k < t.lane) (splits (suc k) lanes)
          (splits_from-above down up vertices k (suc k) lanes (omega arith)))

    same_level :
        {N : Type 0} (level : Level D N) {vs ws : List (Vertex D)} {ls ms : List (Edge D)}
        → vs ≡ ws
        → ls ≡ ms
        → Path
            (Level D N)
            (record level { vertices = vs; lanes = ls })
            (record level { vertices = ws; lanes = ms })
    same_level level {vs} {ws} {ls} {ms} e f =
        ap (λ us. record level { vertices = us; lanes = ls }) e
        ∙ ap (λ us. record level { vertices = ws; lanes = us }) f

    -- The lanes after `before`, once their splits are carried out.
    abbrev remade : ℕ → List (Edge D) → List (Edge D) → List (Edge D)
    remade v lanes after =
        uncrossed down up vertices lanes ++ (after ++ all_halves v (crossed down up vertices lanes))

    map-append-one :
        (ps : List (D × D)) (p : D × D)
        → map (new_vertex F C) (ps ++ p ∷ []) ≡ map (new_vertex F C) ps ++ new_vertex F C p ∷ []
    map-append-one [] p = refl
    map-append-one (q ∷ ps) p = ap (◌∷◌ (new_vertex F C q)) (map-append-one ps p)

    more_vertices :
        (vs : List (Vertex D)) (cut : List (Edge D × (D × D))) (lane : Edge D) (point : D × D)
        → (vs ++ map (new_vertex F C) (points cut)) ++ new_vertex F C point ∷ []
          ≡ vs ++ map (new_vertex F C) (points (cut ++ (lane, point) ∷ []))
    more_vertices vs cut lane point =
        append_assoc vs _ _
        ∙ ap (λ us. vs ++ us)
            (sym (map-append-one (points cut) point)
              ∙ ap (map (new_vertex F C)) (sym (points-append cut lane point)))

    more_lanes :
        (vs : List (Vertex D)) (before kept after : List (Edge D)) (cut : List (Edge D × (D × D)))
        (lane : Edge D) (point : D × D)
        → before
            ++ ((kept ++ (after ++ all_halves (length vs) cut))
                ++ halves (length (vs ++ map (new_vertex F C) (points cut))) lane)
          ≡ before ++ (kept ++ (after ++ all_halves (length vs) (cut ++ (lane, point) ∷ [])))
    more_lanes vs before kept after cut lane point =
        let size : length (vs ++ map (new_vertex F C) (points cut)) ≡ length vs + length cut =
          omega (
            arith,
            length-append vs (map (new_vertex F C) (points cut)),
            length-map-new_vertex (points cut),
            length-points cut,
          ) in
        let last =
          ap (λ n. all_halves (length vs) cut ++ halves n lane) size
          ∙ sym (all_halves-append (length vs) cut lane point) in
        ap (λ ls. before ++ ls)
          (append_assoc kept _ _
            ∙ ap (λ ls. kept ++ ls) (append_assoc after _ _ ∙ ap (λ ls. after ++ ls) last))

    split_all-sorted :
        {N : Type 0} (level : Level D N) (before lanes after : List (Edge D))
        → level.lanes ≡ before ++ (lanes ++ after)
        → split_all F C (sort_desc (splits (length before) lanes)) level
          ≡ redrawn level
              (points (crossed down up vertices lanes))
              (before ++ remade (length level.vertices) lanes after)
    unfolding splits_from sort_desc split_all uncrossed crossed
    split_all-sorted level before [] after at =
        same_level level (sym (append-nil level.vertices))
          (at ∙ ap (λ ls. before ++ ls) (sym (append-nil after)))
    split_all-sorted level before (lane ∷ lanes) after at =
        let k = length before in
        let v = length level.vertices in
        let cut = crossed down up vertices lanes in
        let at' : level.lanes ≡ (before ++ lane ∷ []) ++ (lanes ++ after) =
          at ∙ sym (append_assoc before (lane ∷ []) (lanes ++ after)) in
        let size : suc k ≡ length (before ++ lane ∷ []) =
          omega (arith, length-append before (lane ∷ [])) in
        let ih =
          ap (λ n. split_all F C (sort_desc (splits n lanes)) level) size
          ∙ split_all-sorted level (before ++ lane ∷ []) lanes after at' in
        let joined = append_assoc before (lane ∷ []) (remade v lanes after) in
        elim (Option-cases (crossing F C down up vertices lane)) [
          | inl missed ↦
              let (s, kept, same) = missed_lem k lane lanes missed in
              rw (s, kept, same) (ih ∙ same_level level refl joined)
          | inr (point, hit) ↦
              let (s, kept, more) = hit_lem k lane lanes point hit in
              let rest = sort_desc (splits (suc k) lanes) in
              let drawn = redrawn level (points cut) (before ++ lane ∷ remade v lanes after) in
              rw (s, kept, more, sorted_last k point lanes)
                (split_all-append rest _ level
                  ∙ (ap (split_lane F C k point) (ih ∙ same_level level refl joined)
                      ∙ (split_lane-middle drawn before (remade v lanes after) lane point refl
                          ∙ same_level level (more_vertices level.vertices cut lane point) (
                              more_lanes level.vertices before (uncrossed down up vertices lanes)
                                after cut lane point))))
        ]

  -- A drag leaves each lane that it does not cross, in their order, and replaces each that it crosses
  -- by two lanes that meet at a new vertex at the crossing, with the lane's outer ends and parameters;
  -- the new lanes stand last and the new vertices after the others, both from the last lane that is
  -- crossed to the first, and nothing else changes.
  pub dissect-exact :
      {N : Type 0} (down up : D × D) (level : Level D N)
      → (let cut = crossed down up level.vertices level.lanes in
          dissect F C down up level
          ≡ redrawn level (points cut) (
              uncrossed down up level.vertices level.lanes
              ++ all_halves (length level.vertices) cut))
  unfolding dissect
  dissect-exact down up level =
      split_all-sorted down up level.vertices level [] level.lanes [] (sym (append-nil level.lanes))
