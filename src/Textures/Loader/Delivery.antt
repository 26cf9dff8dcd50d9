-- ===== src/Textures/Loader/Delivery.antt =====
-- The workers of the loader (canvas/texture_loader.cpp) come to rest, and then nothing is left to do.
use mathlib.Core.Path.{subst}
use imrmf_map_editor.Base.{
  ℕ, suc, ◌+◌, ◌*◌, ◌≤◌, ◌<◌, ◌≡◌, refl, sym, ap, ◌∙◌, ◌⊎◌, inl, inr, Bool, true, false, some, List,
  [], ◌∷◌, ◌++◌, arith, length, sum_by, sum_by-append, Bool-cases, All,
}
use imrmf_map_editor.Base.Text.{is_empty}
use imrmf_map_editor.Bundle.{Bytes}
use imrmf_map_editor.Textures.Loader.{
  Job, Done, Shared, Worker, waiting, busy, returned, max_workers, Loader, wake, drain, WorkerStep,
  wakes, finishes, works, Reach, later,
}
use imrmf_map_editor.Textures.Loader.Parts.{
  held, result_weight, has_returned, wake_cases, finish_stopped, finish_going,
}
use imrmf_map_editor.Textures.Loader.Invariant.{IsSound, Reach-IsSound}

-- What is left to do for a worker, and for all.
abbrev pub load : {D : Type 0} → Worker D → ℕ
load waiting = 1
load (busy job) = 2
load returned = 0

abbrev pub work : {D Pixels : Type 0} → Loader D Pixels → ℕ
work l = 2 * length l.shared.queue + sum_by load l.workers

load_middle :
    {D : Type 0} (before after : List (Worker D)) (worker : Worker D)
    → sum_by load (before ++ worker ∷ after) ≡ sum_by load before + load worker + sum_by load after
unfolding sum_by
load_middle before after worker = omega (arith, sum_by-append load before (worker ∷ after))

sum_load_le : {D : Type 0} (workers : List (Worker D)) → sum_by load workers ≤ 2 * length workers
unfolding sum_by
sum_load_le [] = omega arith
sum_load_le (waiting ∷ workers) = omega (arith, sum_load_le workers)
sum_load_le (busy job ∷ workers) = omega (arith, sum_load_le workers)
sum_load_le (returned ∷ workers) = omega (arith, sum_load_le workers)

module _ {D Pixels : Type 0} (hw : ℕ) (decode : Bytes → D → D → D → Pixels) (failed : Pixels) where
  -- A run of the workers alone, and its number of steps.
  pub data Run (s : Loader D Pixels) : ℕ → Loader D Pixels → Type 0 where
    rest : Run s 0 s
    next :
        {n : ℕ} {t u : Loader D Pixels}
        → Run s n t
        → WorkerStep hw decode failed t u
        → Run s (suc n) u

  WorkerStep-shrinks : (s t : Loader D Pixels) → WorkerStep hw decode failed s t → work t < work s
  WorkerStep-shrinks s t (wakes before after shared worker at e same) =
      subst (λ u. work u < work s) (sym same)
        (elim (wake_cases hw decode failed s.shared shared worker e) [
          | inl (stopped, kept, gone) ↦ omega (
            arith,
            ap (λ p. length p.queue) kept,
            ap load gone,
            ap (sum_by load) at,
            load_middle before after waiting,
            load_middle before after worker,
          )
          | inr (job, queue, going, front, less, took) ↦ omega (
            arith,
            ap (λ p. length p.queue) less,
            ap length front,
            ap load took,
            ap (sum_by load) at,
            load_middle before after waiting,
            load_middle before after worker,
          )
        ])
  WorkerStep-shrinks s t (finishes before after job at same) =
      subst (λ u. work u < work s) (sym same)
        (elim (Bool-cases s.shared.stop) [
          | inl stopped ↦ rw (finish_stopped hw decode failed job s.shared stopped) (
              omega (
                arith,
                ap (sum_by load) at,
                load_middle before after (busy job),
                load_middle before after returned,
              ))
          | inr going ↦ rw (finish_going hw decode failed job s.shared going) (
              omega (
                arith,
                ap (sum_by load) at,
                load_middle before after (busy job),
                load_middle before after waiting,
              ))
        ])

  Run-work : {s t : Loader D Pixels} {n : ℕ} → Run s n t → n + work t ≤ work s
  Run-work rest = omega arith
  Run-work (next {n} {t} {u} run step) = omega (arith, Run-work run, WorkerStep-shrinks t u step)

  -- The workers by themselves take at most two steps for each job in the queue, and two for each of the
  -- three workers, from any state that the loader reaches.
  pub Run-length :
      {s t : Loader D Pixels} {n : ℕ}
      → Reach hw decode failed s
      → Run s n t
      → n ≤ 2 * length s.shared.queue + 2 * max_workers
  Run-length {s} {t} {n} r run =
      omega (arith, Run-work run, sum_load_le s.workers, (Reach-IsSound hw decode failed r).few)

  Run-Reach :
      {s t : Loader D Pixels} {n : ℕ}
      → Reach hw decode failed s
      → Run s n t
      → Reach hw decode failed t
  Run-Reach r rest = r
  Run-Reach r (next run step) = later (Run-Reach r run) (works step)

  abbrev pub Kept : Loader D Pixels → Loader D Pixels → Type 0
  Kept s t = (t.shared.stop ≡ s.shared.stop) × (t.submitted ≡ s.submitted) × (t.applied ≡ s.applied)

  -- The workers change neither the flag nor the record of the calls.
  pub WorkerStep-keeps : (s t : Loader D Pixels) → WorkerStep hw decode failed s t → Kept s t
  WorkerStep-keeps s t (wakes before after shared worker at e same) =
      subst (Kept s) (sym same) (elim (wake_cases hw decode failed s.shared shared worker e) [
        | inl (stopped, kept, gone) ↦ (ap (λ p. p.stop) kept, refl, refl)
        | inr (job, queue, going, front, less, took) ↦ (ap (λ p. p.stop) less, refl, refl)
      ])
  WorkerStep-keeps s t (finishes before after job at same) =
      subst (Kept s) (sym same) (elim (Bool-cases s.shared.stop) [
        | inl stopped ↦
            (ap (λ p. p.0.stop) (finish_stopped hw decode failed job s.shared stopped), refl, refl)
        | inr going ↦
            (ap (λ p. p.0.stop) (finish_going hw decode failed job s.shared going), refl, refl)
      ])

  Run-keeps : {s t : Loader D Pixels} {n : ℕ} → Run s n t → Kept s t
  Run-keeps rest = (refl, refl, refl)
  Run-keeps (next {n} {t} {u} run step) =
      let (stop, submitted, applied) = Run-keeps run in
      let (stop', submitted', applied') = WorkerStep-keeps t u step in
      (stop' ∙ stop, submitted' ∙ submitted, applied' ∙ applied)

  -- Among workers of which none has returned, one is busy, or all hold nothing and the first waits.
  find_busy :
      (workers : List (Worker D))
      → All (λ k. has_returned hw decode failed k ≡ false) workers
      → ((before : List (Worker D)) × (job : Job D) × (after : List (Worker D)) × (workers
            ≡ before ++ busy job ∷ after))
        ⊎ (((w : Done Pixels → ℕ) → sum_by (held hw decode failed w) workers ≡ 0)
            × (1 ≤ length workers → (after : List (Worker D)) × (workers ≡ waiting ∷ after)))
  unfolding sum_by
  find_busy [] on_duty = inr (λ w. refl, λ some_one. absurd (omega (arith, some_one)))
  find_busy (busy job ∷ workers) on_duty = inl ([], job, workers, refl)
  find_busy (returned ∷ workers) on_duty = absurd (cc (on_duty.0))
  find_busy (waiting ∷ workers) on_duty = elim (find_busy workers (on_duty.1)) [
    | inl (before, job, after, at) ↦ inl (waiting ∷ before, job, after, ap (λ l. waiting ∷ l) at)
    | inr (idle, first) ↦ inr (λ w. omega (arith, idle w), λ _. (workers, refl))
  ]

  wake_fields_going :
      (done : List (Done Pixels)) (stop : Bool) (fetched queue : List (Job D)) (job : Job D)
      → stop ≡ false
      → fetched ≡ job ∷ queue
      → wake hw decode failed (record { queue = fetched; done = done; stop = stop })
        ≡ some (record { queue = queue; done = done; stop = stop }, busy job)
  unfolding wake
  wake_fields_going done true fetched queue job going front = absurd (cc going)
  wake_fields_going done false [] queue job going front = absurd (cc front)
  wake_fields_going done false (job' ∷ queue') queue job going front = cc front

  wake_going :
      (shared : Shared D Pixels) (job : Job D) (queue : List (Job D))
      → shared.stop ≡ false
      → shared.queue ≡ job ∷ queue
      → wake hw decode failed shared ≡ some (record shared { queue = queue }, busy job)
  wake_going shared job queue going front =
      wake_fields_going shared.done shared.stop shared.queue queue job going front

  List-cases : {A : Type 0} (l : List A) → (l ≡ []) ⊎ ((x : A) × (rest : List A) × (l ≡ x ∷ rest))
  List-cases [] = inl refl
  List-cases (x ∷ l) = inr (x, l, refl)

  -- A worker can take a step, or the queue is empty and no worker holds a job.
  progress :
      (s : Loader D Pixels)
      → IsSound hw decode failed s
      → s.shared.stop ≡ false
      → ((t : Loader D Pixels) × WorkerStep hw decode failed s t)
        ⊎ ((s.shared.queue ≡ [])
            × ((w : Done Pixels → ℕ) → sum_by (held hw decode failed w) s.workers ≡ 0))
  progress s inv going = elim (find_busy s.workers (inv.on_duty going)) [
    | inl (before, job, after, at) ↦ inl (_, finishes before after job at refl)
    | inr (idle, first) ↦ elim (List-cases s.shared.queue) [
      | inl empty ↦ inr (empty, idle)
      | inr (job, queue, front) ↦
          let (after, at) = first (inv.staffed (ap is_empty front)) in
          inl (_, wakes [] after _ _ at (wake_going s.shared job queue going front) refl)
    ]
  ]

  -- Before the loader is destroyed, wherever the workers can take no further step, `drain` completes
  -- the delivery: under every weight of results, what has been applied then weighs what the jobs that
  -- were taken on give, so that each job's result has been applied exactly once.
  pub Reach-delivers :
      {s t : Loader D Pixels} {n : ℕ}
      → Reach hw decode failed s
      → s.shared.stop ≡ false
      → Run s n t
      → ((u : Loader D Pixels) → ¬ WorkerStep hw decode failed t u)
      → (w : Done Pixels → ℕ)
      → sum_by w (drain hw decode failed t).applied
        ≡ sum_by (result_weight hw decode failed w) s.submitted
  unfolding drain sum_by
  Reach-delivers {s} {t} {n} r going run stuck w =
      let inv = Reach-IsSound hw decode failed (Run-Reach r run) in
      let (stop, submitted, applied) = Run-keeps run in
      elim (progress t inv (stop ∙ going)) [
        | inl (u, step) ↦ absurd (stuck u step)
        | inr (empty, idle) ↦ omega (
          arith,
          inv.kept (stop ∙ going) w,
          idle w,
          ap (sum_by (result_weight hw decode failed w)) empty,
          ap (sum_by (result_weight hw decode failed w)) submitted,
          sum_by-append w t.applied t.shared.done,
        )
      ]
