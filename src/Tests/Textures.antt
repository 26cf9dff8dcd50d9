-- ===== src/Tests/Textures.antt =====
-- Textures (canvas/): a grey image, its decoding, and runs of a loader and of a provider.
use imrmf_map_editor.Base.{ℕ, ◌≤◌, ◌*◌, ◌+◌, ◌≡◌, refl, false, some, [], ◌∷◌, length, sum_by}
use imrmf_map_editor.Base.Text.{codes}
use imrmf_map_editor.Bundle.{Bytes}
use imrmf_map_editor.Textures.Loader.{
  Job, Done, waiting, busy, max_workers, wanted_workers, starting, ensure_workers, Loader,
  new_loader, submit, wake, complete, finish, drain, WorkerStep, wakes, finishes, submits, Reach,
  start, later,
}
use imrmf_map_editor.Textures.Loader.Parts.{result_weight}
use imrmf_map_editor.Textures.Loader.Invariant.{IsSound, Reach-IsSound}
use imrmf_map_editor.Textures.Loader.Delivery.{Run, rest, next, Run-length, Reach-delivers}

abbrev plain_decode : Bytes → ℕ → ℕ → ℕ → Bytes
plain_decode bytes tr tg tb = bytes

abbrev job : Job ℕ
job = record { cache_key = codes "fp:L1"; fetch = some (7 ∷ []); tr = 1; tg = 1; tb = 1 }

abbrev result : Done Bytes
result = record { cache_key = codes "fp:L1"; pixels = 7 ∷ [] }

abbrev queued : Loader ℕ Bytes
queued = submit 0 plain_decode [] job (new_loader 0 plain_decode [])

abbrev working : Loader ℕ Bytes
working = record {
  shared = record { queue = []; done = []; stop = false };
  workers = busy job ∷ [];
  submitted = job ∷ [];
  applied = [];
}

abbrev finished : Loader ℕ Bytes
finished = record {
  shared = record { queue = []; done = result ∷ []; stop = false };
  workers = waiting ∷ [];
  submitted = job ∷ [];
  applied = [];
}

queued-Reach : Reach 0 plain_decode [] queued
queued-Reach = later start (submits job refl)

working-step : WorkerStep 0 plain_decode [] queued working
unfolding submit new_loader ensure_workers wanted_workers starting wake
working-step =
    wakes [] [] (record { queue = []; done = []; stop = false }) (busy job) refl refl refl

finished-step : WorkerStep 0 plain_decode [] working finished
unfolding finish complete
finished-step = finishes [] [] job refl refl

queued-going : queued.shared.stop ≡ false
unfolding submit new_loader
queued-going = refl

queued-Run : Run 0 plain_decode [] queued 2 finished
queued-Run = next (next rest working-step) finished-step

-- A lone worker that waits for a job takes no step.
pub lone_stuck :
    {Pixels : Type 0} (decode : Bytes → ℕ → ℕ → ℕ → Pixels) (failed : Pixels) (s : Loader ℕ Pixels)
    → s.workers ≡ waiting ∷ []
    → s.shared.queue ≡ []
    → s.shared.stop ≡ false
    → (u : Loader ℕ Pixels) → ¬ WorkerStep 0 decode failed s u
unfolding wake
lone_stuck decode failed s lone empty going u (wakes before after shared worker at e same) =
    absurd (cc (e, empty, going))
lone_stuck decode failed s lone empty going u (finishes [] after job at same) =
    absurd (cc (at, lone))
lone_stuck decode failed s lone empty going u (finishes (w ∷ []) after job at same) =
    absurd (cc (at, lone))
lone_stuck decode failed s lone empty going u (finishes (w ∷ v ∷ before) after job at same) =
    absurd (cc (at, lone))

Reach-IsSound_example : IsSound 0 plain_decode [] queued
Reach-IsSound_example = Reach-IsSound 0 plain_decode [] queued-Reach

Run-length_example : 2 ≤ 2 * length queued.shared.queue + 2 * max_workers
Run-length_example = Run-length 0 plain_decode [] queued-Reach queued-Run

Reach-delivers_example :
    sum_by (λ d. length d.pixels) (drain 0 plain_decode [] finished).applied
    ≡ sum_by (result_weight 0 plain_decode [] (λ d. length d.pixels)) queued.submitted
Reach-delivers_example =
    Reach-delivers 0 plain_decode [] queued-Reach queued-going queued-Run
      (lone_stuck plain_decode [] finished refl refl refl) (λ d. length d.pixels)
