-- ===== src/View/Split/Bounds.antt =====
-- The lane tool (view/editor_view.cpp) keeps every index within the vertices.
use imrmf_map_editor.Base.{
  ◌+◌, ◌≤◌, ◌<◌, ◌≡◌, sym, ap, ◌∙◌, Bool, true, false, ◌&&◌, some, [], ◌∷◌, ◌++◌, arith, length,
  length-append, get_elem?, if_true, if_false, All, All-append, All-mono, Option-cases, Bool-cases,
  inl, inr,
}
use imrmf_map_editor.Base.Int.{ℤ, pos, pos_part, ltb_ℤ, leb_ℤ, eqb_ℤ}
use imrmf_map_editor.Building.{Edge, Level}
use imrmf_map_editor.Building.Delete.{out_of_range}
use imrmf_map_editor.Building.Delete.Bounds.{InRange, EdgeFits, IsWellIndexed}
use imrmf_map_editor.Building.Double.{Double}
use imrmf_map_editor.View.Split.{Literals, new_vertex, split_lane, dissect, sort_desc, splits_from}
use imrmf_map_editor.View.Split.Tool.{
  LaneTool, lane_split_at, click_split, snap_to_anchor, extend_chain, click, drag,
  init_default_lane_params,
}
use imrmf_map_editor.View.Split.Fits.{
  with_vertex-IsWellIndexed, split_lane-IsWellIndexed, split_lane-vertices, split_all-IsWellIndexed,
  grown-IsWellIndexed, InRange-mono,
}

module _ {D : Type 0} (F : Double D) (C : Literals D) where
  -- The level is well indexed, and so is where the chain goes on and what is selected.
  pub record IsReady {N : Type 0} (tool : LaneTool D N) : Type 0 where
    pub level : IsWellIndexed tool.level
    pub start :
        ltb_ℤ tool.pending_lane_start (pos 0) ≡ false
        → InRange (length tool.level.vertices) tool.pending_lane_start
    pub selected : All (InRange (length tool.level.vertices)) tool.selected_vertices

  drag-IsReady :
      {N : Type 0} (down up : D × D) (tool : LaneTool D N)
      → IsReady tool
      → IsReady (drag F C down up tool)
  unfolding drag dissect
  drag-IsReady down up tool r = record {
    level =
        split_all-IsWellIndexed F C
          (sort_desc (splits_from F C down up tool.level.vertices 0 tool.level.lanes)) tool.level
          r.level;
    start = λ e. absurd (ground arith);
    selected = tt;
  }

  extend_chain-IsReady :
      {N : Type 0} (vi : ℤ) (tool : LaneTool D N)
      → InRange (length tool.level.vertices) vi
      → IsReady tool
      → IsReady (extend_chain F C vi tool)
  unfolding extend_chain
  extend_chain-IsReady vi tool h r =
      let lane : Edge D = record {
        start_idx = tool.pending_lane_start;
        end_idx = vi;
        params = init_default_lane_params F C [];
      } in
      elim (Bool-cases (ltb_ℤ tool.pending_lane_start (pos 0))) [
        | inl first ↦
            rw (extend_chain, first)
              (record { level = r.level; start = λ e. h; selected = (h, tt) })
        | inr going ↦ elim (Bool-cases (eqb_ℤ tool.pending_lane_start vi)) [
          | inl same ↦ rw (extend_chain, going, same) r
          | inr other ↦
              rw (extend_chain, going, other)
                (record {
                  level =
                      grown-IsWellIndexed tool.level tool.level.vertices _ (omega arith)
                        (All-append (EdgeFits (length tool.level.vertices)) tool.level.lanes
                          (lane ∷ []) r.level.lanes (record { start = r.start going; end = h }, tt))
                        r.level;
                  start = λ e. h;
                  selected = (h, tt);
                })
        ]
      ]

  lane_split_at-lane :
      {N : Type 0} (level : Level D N) (lidx anchor : ℤ) (cursor point : D × D) (shift : Bool)
      → lane_split_at F C level lidx anchor cursor shift ≡ some point
      → (ln : Edge D) × (get_elem? level.lanes (pos_part lidx) ≡ some ln)
  unfolding lane_split_at
  lane_split_at-lane level lidx anchor cursor point shift e =
      elim (Option-cases (get_elem? level.lanes (pos_part lidx))) [
        | inr found ↦ found
        | inl missing ↦ elim (Bool-cases (out_of_range lidx (length level.lanes))) [
          | inl out ↦ absurd (cc (simp (out) at e))
          | inr inside ↦ absurd (cc (simp (inside, missing) at e))
        ]
      ]

  click_split-lane :
      {N : Type 0} (vidx lidx : ℤ) (cursor point : D × D) (shift : Bool) (tool : LaneTool D N)
      → click_split F C vidx lidx cursor shift tool ≡ some point
      → (ln : Edge D) × (get_elem? tool.level.lanes (pos_part lidx) ≡ some ln)
  unfolding click_split
  click_split-lane vidx lidx cursor point shift tool e =
      elim (Bool-cases
        (leb_ℤ (pos 0) lidx && leb_ℤ (pos 0) tool.pending_lane_start && ltb_ℤ vidx (pos 0))) [
          | inl tried ↦
              lane_split_at-lane tool.level lidx tool.pending_lane_start cursor point shift
                (sym (if_true _ _ tried) ∙ e)
          | inr skipped ↦ absurd (cc (sym (if_false _ _ skipped) ∙ e))
        ]

  -- A tool whose level has grown by a vertex.
  grown-IsReady :
      {N : Type 0} (tool : LaneTool D N) (level : Level D N)
      → length level.vertices ≡ length tool.level.vertices + 1
      → IsWellIndexed level
      → IsReady tool
      → IsReady (record tool { level = level })
  grown-IsReady tool level size w r =
      let h : length tool.level.vertices ≤ length level.vertices = omega (arith, size) in
      record {
        level = w;
        start = λ e. InRange-mono _ _ h tool.pending_lane_start (r.start e);
        selected = All-mono (InRange-mono _ _ h) tool.selected_vertices r.selected;
      }

  click-IsReady :
      {N : Type 0} (vidx lidx : ℤ) (cursor : D × D) (shift : Bool) (tool : LaneTool D N)
      → (leb_ℤ (pos 0) vidx ≡ true → InRange (length tool.level.vertices) vidx)
      → IsReady tool
      → IsReady (click F C vidx lidx cursor shift tool)
  unfolding click
  click-IsReady vidx lidx cursor shift tool hit r =
      let n = length tool.level.vertices in
      elim (Bool-cases (leb_ℤ (pos 0) vidx)) [
        | inl over ↦ rw (click, over) (extend_chain-IsReady vidx tool (hit over) r)
        | inr beside ↦ elim (Option-cases (click_split F C vidx lidx cursor shift tool)) [
          | inr (point, split) ↦
              let (orig, found) = click_split-lane vidx lidx cursor point shift tool split in
              let level = split_lane F C (pos_part lidx) point tool.level in
              let size : length level.vertices ≡ n + 1 =
                ap length (split_lane-vertices F C (pos_part lidx) point tool.level orig found)
                ∙ length-append tool.level.vertices (new_vertex F C point ∷ []) in
              let last : n < length level.vertices = omega (arith, size) in
              rw (click, beside, split)
                (extend_chain-IsReady (pos n) (record tool { level = level }) last
                  (grown-IsReady tool level size
                    (split_lane-IsWellIndexed F C (pos_part lidx) point tool.level r.level) r))
          | inl whole ↦
              elim (Bool-cases (leb_ℤ (pos 0) lidx && ltb_ℤ tool.pending_lane_start (pos 0))) [
                | inl chosen ↦
                    rw (click, beside, whole, chosen)
                      (record { level = r.level; start = r.start; selected = tt })
                | inr free ↦
                    let point =
                      snap_to_anchor F C tool.level.vertices tool.pending_lane_start cursor shift in
                    let level = record tool.level {
                      vertices = tool.level.vertices ++ new_vertex F C point ∷ [];
                    } in
                    let size = length-append tool.level.vertices (new_vertex F C point ∷ []) in
                    let last : n < length level.vertices = omega (arith, size) in
                    rw (click, beside, whole, free)
                      (extend_chain-IsReady (pos n) (record tool { level = level }) last
                        (grown-IsReady tool level size
                          (with_vertex-IsWellIndexed F C point tool.level r.level) r))
              ]
        ]
      ]

  -- What a user does with the tool, where what `hit_vertex` finds is a vertex or none.
  pub data Uses {N : Type 0} (tool : LaneTool D N) : LaneTool D N → Type 0 where
    begins : Uses tool tool
    drags :
        {now : LaneTool D N} (down up : D × D) → Uses tool now → Uses tool (drag F C down up now)
    clicks :
        {now : LaneTool D N} (vidx lidx : ℤ) (cursor : D × D) (shift : Bool)
        → (leb_ℤ (pos 0) vidx ≡ true → InRange (length now.level.vertices) vidx)
        → Uses tool now
        → Uses tool (click F C vidx lidx cursor shift now)

  -- Whatever drags and clicks with the lane tool follow one another, from a level in which every index
  -- names a vertex: so it stays, and the end of the chain and the selected vertices name vertices too.
  pub Uses-IsReady :
      {N : Type 0} {tool now : LaneTool D N} → Uses tool now → IsReady tool → IsReady now
  Uses-IsReady begins r = r
  Uses-IsReady (drags {now} down up uses) r = drag-IsReady down up now (Uses-IsReady uses r)
  Uses-IsReady (clicks {now} vidx lidx cursor shift hit uses) r =
      click-IsReady vidx lidx cursor shift now hit (Uses-IsReady uses r)
