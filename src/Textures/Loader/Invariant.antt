-- ===== src/Textures/Loader/Invariant.antt =====
-- No job of the loader (canvas/texture_loader.cpp) is lost or done twice, in any order of steps.
use mathlib.Core.Path.{subst}
use imrmf_map_editor.Base.{
  ℕ, ◌+◌, ◌-◌, ◌≤◌, ◌≡◌, refl, sym, ap, ◌∙◌, inl, inr, false, some, List, [], ◌∷◌, ◌++◌, arith,
  length, length-append, sum_by, sum_by-append, Bool-cases, All, All-append,
}
use imrmf_map_editor.Base.Text.{is_empty}
use imrmf_map_editor.Bundle.{Bytes}
use imrmf_map_editor.Textures.Loader.{
  Job, Done, Shared, Worker, waiting, busy, returned, max_workers, wanted_workers, starting,
  ensure_workers, Loader, new_loader, submit, wake, complete, finish, drain, destroy, WorkerStep,
  wakes, finishes, LoaderStep, works, submits, drains, destroys, Reach, start, later,
}
use imrmf_map_editor.Textures.Loader.Parts.{
  held, result_weight, has_returned, wake_cases, held_middle, All-middle, finish_stopped,
  finish_going, ensured, starting-on_duty, submit_stopped, submit_going,
}

module _ {D Pixels : Type 0} (hw : ℕ) (decode : Bytes → D → D → D → Pixels) (failed : Pixels) where
  -- What the loader still has, and has handed on, under a weight of results.
  abbrev pub in_flight : (Done Pixels → ℕ) → Loader D Pixels → ℕ
  in_flight w l =
      sum_by (result_weight hw decode failed w) l.shared.queue
      + sum_by (held hw decode failed w) l.workers
      + sum_by w l.shared.done
      + sum_by w l.applied

  pub record IsSound (l : Loader D Pixels) : Type 0 where
    pub once :
        (w : Done Pixels → ℕ)
        → in_flight w l ≤ sum_by (result_weight hw decode failed w) l.submitted
    pub kept :
        l.shared.stop ≡ false
        → (w : Done Pixels → ℕ)
        → in_flight w l ≡ sum_by (result_weight hw decode failed w) l.submitted
    pub on_duty :
        l.shared.stop ≡ false → All (λ k. has_returned hw decode failed k ≡ false) l.workers
    pub few : length l.workers ≤ max_workers
    pub staffed : is_empty l.shared.queue ≡ false → 1 ≤ length l.workers

  -- The weight of the shared lists and of one worker.
  abbrev here : (Done Pixels → ℕ) → Shared D Pixels → Worker D → ℕ
  here w shared worker =
      sum_by (result_weight hw decode failed w) shared.queue
      + held hw decode failed w worker
      + sum_by w shared.done

  -- A worker's step is sound that makes no result, loses none but after the stop, and ends no worker
  -- before it.
  replace-IsSound :
      (s : Loader D Pixels) (before after : List (Worker D)) (old new : Worker D)
      (next : Shared D Pixels)
      → s.workers ≡ before ++ old ∷ after
      → next.stop ≡ s.shared.stop
      → ((w : Done Pixels → ℕ) → here w next new ≤ here w s.shared old)
      → (s.shared.stop ≡ false → (w : Done Pixels → ℕ) → here w next new ≡ here w s.shared old)
      → (s.shared.stop ≡ false → has_returned hw decode failed new ≡ false)
      → (is_empty next.queue ≡ false → is_empty s.shared.queue ≡ false)
      → IsSound s
      → IsSound (record s { shared = next; workers = before ++ new ∷ after })
  replace-IsSound s before after old new next at same le eq stays fewer inv = record {
    once = λ w. omega (
      arith,
      inv.once w,
      le w,
      ap (sum_by (held hw decode failed w)) at,
      held_middle hw decode failed w before after old,
      held_middle hw decode failed w before after new,
    );
    kept = λ going w.
        let still = sym same ∙ going in
        omega (
          arith,
          inv.kept still w,
          eq still w,
          ap (sum_by (held hw decode failed w)) at,
          held_middle hw decode failed w before after old,
          held_middle hw decode failed w before after new,
        );
    on_duty = λ going.
        let still = sym same ∙ going in
        All-middle hw decode failed (λ k. has_returned hw decode failed k ≡ false) before after old
          new (stays still)
          (subst (All (λ k. has_returned hw decode failed k ≡ false)) at (inv.on_duty still));
    few = omega (
      arith,
      inv.few,
      ap length at,
      length-append before (old ∷ after),
      length-append before (new ∷ after),
    );
    staffed = λ left. omega (
      arith,
      inv.staffed (fewer left),
      ap length at,
      length-append before (old ∷ after),
      length-append before (new ∷ after),
    );
  }

  wakes-IsSound :
      (s : Loader D Pixels) (before after : List (Worker D)) (next : Shared D Pixels)
      (worker : Worker D)
      → s.workers ≡ before ++ waiting ∷ after
      → wake hw decode failed s.shared ≡ some (next, worker)
      → IsSound s
      → IsSound (record s { shared = next; workers = before ++ worker ∷ after })
  unfolding sum_by
  wakes-IsSound s before after next worker at e inv =
      elim (wake_cases hw decode failed s.shared next worker e) [
        | inl (stopped, same, gone) ↦
            rw (same, gone)
              (replace-IsSound s before after waiting returned s.shared at refl (λ w. omega arith)
                (λ going w. omega arith) (λ going. absurd (ground arith)) (λ left. left) inv)
        | inr (job, rest, going, front, less, took) ↦
            rw (less, took)
              (replace-IsSound s before after waiting (busy job) (record s.shared { queue = rest })
                at refl (λ w. omega (arith, ap (sum_by (result_weight hw decode failed w)) front))
                (λ _ w. omega (arith, ap (sum_by (result_weight hw decode failed w)) front))
                (λ _. refl) (λ left. ap is_empty front) inv)
      ]

  finishes-IsSound :
      (s : Loader D Pixels) (before after : List (Worker D)) (job : Job D)
      → s.workers ≡ before ++ busy job ∷ after
      → IsSound s
      → IsSound (record s {
        shared = (finish hw decode failed job s.shared).0;
        workers = before ++ (finish hw decode failed job s.shared).1 ∷ after;
      })
  unfolding sum_by
  finishes-IsSound s before after job at inv = elim (Bool-cases s.shared.stop) [
    | inl stopped ↦ rw (finish_stopped hw decode failed job s.shared stopped) (
        replace-IsSound s before after (busy job) returned s.shared at refl (λ w. omega arith)
          (λ going. absurd (ground arith)) (λ going. absurd (ground arith)) (λ left. left) inv)
    | inr going ↦
        let done = complete hw decode failed job in
        rw (finish_going hw decode failed job s.shared going) (
          replace-IsSound s before after (busy job) waiting
            (record s.shared { done = s.shared.done ++ done ∷ [] }) at refl
            (λ w. omega (arith, sum_by-append w s.shared.done (done ∷ [])))
            (λ _ w. omega (arith, sum_by-append w s.shared.done (done ∷ []))) (λ _. refl)
            (λ left. left) inv)
  ]

  submit-IsSound :
      (job : Job D) (s : Loader D Pixels) → IsSound s → IsSound (submit hw decode failed job s)
  unfolding sum_by
  submit-IsSound job s inv = elim (Bool-cases s.shared.stop) [
    | inl stopped ↦ subst IsSound (sym (submit_stopped hw decode failed job s stopped)) inv
    | inr going ↦ subst IsSound (sym (submit_going hw decode failed job s going)) (record {
      once = λ w. omega (
        arith,
        inv.once w,
        (ensured hw decode failed s.workers w).0,
        sum_by-append (result_weight hw decode failed w) s.shared.queue (job ∷ []),
        sum_by-append (result_weight hw decode failed w) s.submitted (job ∷ []),
      );
      kept = λ _ w. omega (
        arith,
        inv.kept going w,
        (ensured hw decode failed s.workers w).0,
        sum_by-append (result_weight hw decode failed w) s.shared.queue (job ∷ []),
        sum_by-append (result_weight hw decode failed w) s.submitted (job ∷ []),
      );
      on_duty = λ _.
          unfold ensure_workers in
          All-append (λ k. has_returned hw decode failed k ≡ false) s.workers
            (starting (wanted_workers hw - length s.workers)) (inv.on_duty going)
            (starting-on_duty hw decode failed _);
      few = (ensured hw decode failed s.workers (λ _. 0)).2 inv.few;
      staffed = λ _. (ensured hw decode failed s.workers (λ _. 0)).1;
    })
  ]

  drain-IsSound : (s : Loader D Pixels) → IsSound s → IsSound (drain hw decode failed s)
  unfolding drain sum_by
  drain-IsSound s inv = record {
    once = λ w. omega (arith, inv.once w, sum_by-append w s.applied s.shared.done);
    kept = λ going w. omega (arith, inv.kept going w, sum_by-append w s.applied s.shared.done);
    on_duty = inv.on_duty;
    few = inv.few;
    staffed = inv.staffed;
  }

  destroy-IsSound : (s : Loader D Pixels) → IsSound s → IsSound (destroy hw decode failed s)
  unfolding destroy sum_by
  destroy-IsSound s inv = record {
    once = λ w. omega (arith, inv.once w);
    kept = λ going. absurd (ground arith);
    on_duty = λ going. absurd (ground arith);
    few = inv.few;
    staffed = λ left. absurd (ground arith);
  }

  WorkerStep-IsSound :
      (s t : Loader D Pixels) → WorkerStep hw decode failed s t → IsSound s → IsSound t
  WorkerStep-IsSound s t (wakes before after next worker at e same) inv =
      subst IsSound (sym same) (wakes-IsSound s before after next worker at e inv)
  WorkerStep-IsSound s t (finishes before after job at same) inv =
      subst IsSound (sym same) (finishes-IsSound s before after job at inv)

  LoaderStep-IsSound :
      (s t : Loader D Pixels) → LoaderStep hw decode failed s t → IsSound s → IsSound t
  LoaderStep-IsSound s t (works step) inv = WorkerStep-IsSound s t step inv
  LoaderStep-IsSound s t (submits job same) inv =
      subst IsSound (sym same) (submit-IsSound job s inv)
  LoaderStep-IsSound s t (drains same) inv = subst IsSound (sym same) (drain-IsSound s inv)
  LoaderStep-IsSound s t (destroys same) inv = subst IsSound (sym same) (destroy-IsSound s inv)

  -- In whatever order the workers and the render thread take their steps, every job that was taken on
  -- is in the queue, with a worker, done or applied, once and nowhere else, until the loader is
  -- destroyed, and after that at most once; no worker returns before that, at most three are started,
  -- and one is there while a job waits.
  pub Reach-IsSound : {l : Loader D Pixels} → Reach hw decode failed l → IsSound l
  unfolding new_loader sum_by
  Reach-IsSound start = record {
    once = λ w. omega arith;
    kept = λ _ w. refl;
    on_duty = λ _. tt;
    few = omega arith;
    staffed = λ left. absurd (ground arith);
  }
  Reach-IsSound (later {s} {t} r step) = LoaderStep-IsSound s t step (Reach-IsSound r)
