-- ===== src/Textures/Loader/Parts.antt =====
-- What a step of the loader does to each part of it (canvas/texture_loader.cpp).
use imrmf_map_editor.Base.{
  ℕ, zero, suc, ◌+◌, ◌-◌, ◌≤◌, ◌≡◌, refl, ◌⊎◌, inl, inr, Bool, true, false, some, List, [], ◌∷◌,
  ◌++◌, arith, length, length-append, sum_by, sum_by-append, if_true, if_false, All,
}
use imrmf_map_editor.Bundle.{Bytes}
use imrmf_map_editor.Textures.Loader.{
  Job, Done, Shared, Worker, waiting, busy, returned, max_workers, wanted_workers, starting,
  ensure_workers, Loader, submit, wake, complete, finish,
}

module _ {D Pixels : Type 0} (hw : ℕ) (decode : Bytes → D → D → D → Pixels) (failed : Pixels) where
  -- The weight of what a worker holds, for a weight of results.
  abbrev pub held : (Done Pixels → ℕ) → Worker D → ℕ
  held w waiting = 0
  held w (busy job) = w (complete hw decode failed job)
  held w returned = 0

  abbrev pub result_weight : (Done Pixels → ℕ) → Job D → ℕ
  result_weight w job = w (complete hw decode failed job)

  abbrev pub has_returned : Worker D → Bool
  has_returned waiting = false
  has_returned (busy job) = false
  has_returned returned = true

  abbrev Wakes : Shared D Pixels → Shared D Pixels → Worker D → Type 0
  Wakes shared next worker =
      ((shared.stop ≡ true) × (next ≡ shared) × (worker ≡ returned))
      ⊎ ((job : Job D) × (rest : List (Job D)) × (shared.stop ≡ false)
          × (shared.queue ≡ job ∷ rest)
          × (next ≡ record shared { queue = rest })
          × (worker ≡ busy job))

  wake-fields :
      (stop : Bool) (queue : List (Job D)) (done : List (Done Pixels)) (next : Shared D Pixels)
      (worker : Worker D)
      → (let shared : Shared D Pixels = record { queue = queue; done = done; stop = stop } in
          wake hw decode failed shared ≡ some (next, worker) → Wakes shared next worker)
  unfolding wake
  wake-fields true queue done next worker e = inl (refl, cc e, cc e)
  wake-fields false [] done next worker e = cc
  wake-fields false (job ∷ rest) done next worker e = inr (job, rest, refl, refl, cc e, cc e)

  pub wake_cases :
      (shared next : Shared D Pixels) (worker : Worker D)
      → wake hw decode failed shared ≡ some (next, worker)
      → Wakes shared next worker
  wake_cases shared next worker e = wake-fields shared.stop shared.queue shared.done next worker e

  pub starting_few :
      (n : ℕ) (w : Done Pixels → ℕ)
      → (length (starting {D = D} n) ≡ n) × (sum_by (held w) (starting n) ≡ 0)
  unfolding starting sum_by
  starting_few zero w = (refl, refl)
  starting_few (suc n) w =
      (omega (arith, (starting_few n w).0), omega (arith, (starting_few n w).1))

  pub wanted_bounds : (1 ≤ wanted_workers hw) × (wanted_workers hw ≤ max_workers)
  unfolding wanted_workers
  wanted_bounds = ground arith

  -- The worker in the middle.
  pub held_middle :
      (w : Done Pixels → ℕ) (before after : List (Worker D)) (worker : Worker D)
      → sum_by (held w) (before ++ worker ∷ after)
        ≡ sum_by (held w) before + held w worker + sum_by (held w) after
  unfolding sum_by
  held_middle w before after worker = omega (arith, sum_by-append (held w) before (worker ∷ after))

  pub All-middle :
      (P : Worker D → Type 0) (before after : List (Worker D)) (old new : Worker D)
      → P new
      → All P (before ++ old ∷ after)
      → All P (before ++ new ∷ after)
  All-middle P [] after old new p h = (p, h.1)
  All-middle P (k ∷ before) after old new p h = (h.0, All-middle P before after old new p (h.1))

  pub finish_stopped :
      (job : Job D) (shared : Shared D Pixels)
      → shared.stop ≡ true
      → finish hw decode failed job shared ≡ (shared, returned)
  unfolding finish
  finish_stopped job shared e = rw e refl

  pub finish_going :
      (job : Job D) (shared : Shared D Pixels)
      → shared.stop ≡ false
      → finish hw decode failed job shared
        ≡ (record shared { done = shared.done ++ complete hw decode failed job ∷ [] }, waiting)
  unfolding finish
  finish_going job shared e = rw e refl

  pub ensured :
      (workers : List (Worker D)) (w : Done Pixels → ℕ)
      → (sum_by (held w) (ensure_workers hw workers) ≡ sum_by (held w) workers)
        × (1 ≤ length (ensure_workers hw workers))
        × (length workers ≤ max_workers → length (ensure_workers hw workers) ≤ max_workers)
  unfolding ensure_workers
  ensured workers w =
      let n = wanted_workers hw - length workers in
      let size = length-append workers (starting n) in
      let (count, none_held) = starting_few n w in
      (
        omega (arith, sum_by-append (held w) workers (starting n), none_held),
        omega (arith, size, count, wanted_bounds.0),
        λ small. omega (arith, size, count, wanted_bounds.1),
      )

  pub starting-on_duty : (n : ℕ) → All (λ (k : Worker D). has_returned k ≡ false) (starting n)
  unfolding starting
  starting-on_duty zero = tt
  starting-on_duty (suc n) = (refl, starting-on_duty n)

  abbrev pub added : Job D → Loader D Pixels → Loader D Pixels
  added job s = record s {
    shared = record s.shared { queue = s.shared.queue ++ job ∷ [] };
    workers = ensure_workers hw s.workers;
    submitted = s.submitted ++ job ∷ [];
  }

  pub submit_stopped :
      (job : Job D) (s : Loader D Pixels) → s.shared.stop ≡ true → submit hw decode failed job s ≡ s
  unfolding submit
  submit_stopped job s e = if_true s (added job s) e

  pub submit_going :
      (job : Job D) (s : Loader D Pixels)
      → s.shared.stop ≡ false
      → submit hw decode failed job s ≡ added job s
  unfolding submit
  submit_going job s e = if_false s (added job s) e
