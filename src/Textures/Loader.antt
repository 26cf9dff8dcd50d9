-- ===== src/Textures/Loader.antt =====
-- The loader with its worker threads: canvas/texture_loader.hpp and canvas/texture_loader.cpp. What a
-- thread does under the mutex is one step, and what it does between two such is its own. `fetch` is
-- what the job's function gives: `none` where there is none or where it returns false.
pub mod Parts
pub mod Invariant
pub mod Delivery
use imrmf_map_editor.Base.{
  ℕ, zero, suc, ◌+◌, ◌-◌, ◌≡◌, Bool, true, false, Option, none, some, List, [], ◌∷◌, ◌++◌, length,
  ltb, if◌then◌else◌,
}
use imrmf_map_editor.Base.Text.{Text, is_empty}
use imrmf_map_editor.Bundle.{Bytes}

pub record Job (D : Type 0) : Type 0 where
  pub cache_key : Text
  pub fetch : Option Bytes
  pub tr : D
  pub tg : D
  pub tb : D

-- `Pixels` is `DecodedPixels`.
pub record Done (Pixels : Type 0) : Type 0 where
  pub cache_key : Text
  pub pixels : Pixels

-- What the threads share.
pub record Shared (D Pixels : Type 0) : Type 0 where
  pub queue : List (Job D)
  pub done : List (Done Pixels)
  pub stop : Bool

-- A worker waits on the condition, works on a job, or has returned.
pub data Worker (D : Type 0) : Type 0 where
  waiting : Worker D
  busy : Job D → Worker D
  returned : Worker D

abbrev pub max_workers : ℕ
max_workers = 3

-- `min(kMaxWorkers, max(1, hardware_concurrency))`
unfoldable pub wanted_workers : ℕ → ℕ
wanted_workers hw =
    let cores = if ltb hw 1 then 1 else hw in if ltb cores max_workers then cores else max_workers

-- So many workers that start.
unfoldable pub starting : {D : Type 0} → ℕ → List (Worker D)
starting zero = []
starting (suc n) = waiting ∷ starting n

module _ {D : Type 0} where
  unfoldable pub ensure_workers : ℕ → List (Worker D) → List (Worker D)
  unfolding wanted_workers starting
  ensure_workers hw workers = workers ++ starting (wanted_workers hw - length workers)

-- The loader with its workers. `submitted` and `applied` record the calls: the jobs that were taken on,
-- and what was handed to `apply`.
pub record Loader (D Pixels : Type 0) : Type 0 where
  pub shared : Shared D Pixels
  pub workers : List (Worker D)
  pub submitted : List (Job D)
  pub applied : List (Done Pixels)

-- `hw` is the hardware concurrency, `decode` is `decode_pixels`, `failed` a `DecodedPixels` that is not
-- ok.
module _ {D Pixels : Type 0} (hw : ℕ) (decode : Bytes → D → D → D → Pixels) (failed : Pixels) where
  unfoldable pub new_loader : Loader D Pixels
  new_loader = record {
    shared = record { queue = []; done = []; stop = false };
    workers = [];
    submitted = [];
    applied = [];
  }

  unfoldable pub submit : Job D → Loader D Pixels → Loader D Pixels
  submit job l = if l.shared.stop then l else record l {
    shared = record l.shared { queue = l.shared.queue ++ job ∷ [] };
    workers = ensure_workers hw l.workers;
    submitted = l.submitted ++ job ∷ [];
  }

  -- What a waiting worker does once it has the lock: nothing where it has to wait.
  unfoldable pub wake : Shared D Pixels → Option (Shared D Pixels × Worker D)
  wake shared = elim shared.stop [
    | true ↦ some (shared, returned)
    | false ↦ elim shared.queue [
      | [] ↦ none
      | job ∷ rest ↦ some (record shared { queue = rest }, busy job)
    ]
  ]

  -- The fetch and the decoding.
  unfoldable pub complete : Job D → Done Pixels
  complete job = record {
    cache_key = job.cache_key;
    pixels = elim job.fetch [
      | none ↦ failed
      | some bytes ↦ if is_empty bytes then failed else decode bytes job.tr job.tg job.tb
    ];
  }

  -- What a worker does with the lock after its work.
  unfoldable pub finish : Job D → Shared D Pixels → Shared D Pixels × Worker D
  unfolding complete
  finish job shared =
      if shared.stop
      then (shared, returned)
      else (record shared { done = shared.done ++ complete job ∷ [] }, waiting)

  unfoldable pub drain : Loader D Pixels → Loader D Pixels
  drain l = record l {
    shared = record l.shared { done = [] };
    applied = l.applied ++ l.shared.done;
  }

  -- The destructor.
  unfoldable pub destroy : Loader D Pixels → Loader D Pixels
  destroy l = record l { shared = record l.shared { queue = []; stop = true } }

  -- A step of one of the workers, which stands between `before` and `after`.
  pub data WorkerStep (s t : Loader D Pixels) : Type 0 where
    wakes :
        (before after : List (Worker D)) (next : Shared D Pixels) (worker : Worker D)
        → s.workers ≡ before ++ waiting ∷ after
        → wake s.shared ≡ some (next, worker)
        → t ≡ record s { shared = next; workers = before ++ worker ∷ after }
        → WorkerStep s t
    finishes :
        (before after : List (Worker D)) (job : Job D)
        → s.workers ≡ before ++ busy job ∷ after
        → t ≡ record s {
          shared = (finish job s.shared).0;
          workers = before ++ (finish job s.shared).1 ∷ after;
        }
        → WorkerStep s t

  -- A step of the system: of a worker, or a call by the render thread.
  pub data LoaderStep (s t : Loader D Pixels) : Type 0 where
    works : WorkerStep s t → LoaderStep s t
    submits : (job : Job D) → t ≡ submit job s → LoaderStep s t
    drains : t ≡ drain s → LoaderStep s t
    destroys : t ≡ destroy s → LoaderStep s t

  pub data Reach : Loader D Pixels → Type 0 where
    start : Reach new_loader
    later : {s t : Loader D Pixels} → Reach s → LoaderStep s t → Reach t
