-- ===== src/Tests/Providers.antt =====
-- A provider that loads one image (canvas/stb_texture_provider.cpp).
use imrmf_map_editor.Base.{ℕ, suc, ◌≢◌, refl, false, Option, none, some, List, [], ◌∷◌, ◌++◌}
use imrmf_map_editor.Base.Text.{Text, codes}
use imrmf_map_editor.Bundle.{Bytes}
use imrmf_map_editor.Tests.Nodes.{toy_double}
use imrmf_map_editor.Tests.Textures.{lone_stuck}
use imrmf_map_editor.Tests.Images.{to_byte, toy_stb, file, grey}
use imrmf_map_editor.Textures.Loader.{
  Job, Done, Worker, waiting, busy, wanted_workers, starting, ensure_workers, Loader, new_loader,
  submit, wake, complete, finish, WorkerStep, wakes, finishes,
}
use imrmf_map_editor.Textures.Decode.{loading, DecodedPixels, no_pixels, decode_pixels}
use imrmf_map_editor.Textures.Provider.{
  read_from, Provider, texture_at, status_of, trigger_load, acquire, pump, new_provider, Session,
  opened, acquired, worked,
}
use imrmf_map_editor.Textures.Provider.Settled.{pump-settles}

abbrev toy_disk : Text → Option Bytes
toy_disk path = some file

abbrev toy_join : Text → Text → Text
toy_join root path = root ++ (codes "/" ++ path)

abbrev key : Text
key = codes "fp:L1"

abbrev requested : Provider ℕ
requested =
    acquire toy_double to_byte toy_stb suc 0 toy_disk toy_join key (codes "a.png") 1 0 0
      (new_provider toy_double to_byte toy_stb suc 0 toy_disk toy_join (codes "/maps") none)

abbrev decode : Bytes → ℕ → ℕ → ℕ → DecodedPixels
decode = decode_pixels toy_double to_byte toy_stb

abbrev job : Job ℕ
job = record { cache_key = key; fetch = some file; tr = 1; tg = 0; tb = 0 }

abbrev after : List (Worker ℕ) → List (Done DecodedPixels) → Loader ℕ DecodedPixels
after workers done = record {
  shared = record { queue = []; done = done; stop = false };
  workers = workers;
  submitted = job ∷ [];
  applied = [];
}

takes : WorkerStep 0 decode no_pixels requested.loader (after (busy job ∷ []) [])
unfolding acquire new_provider submit new_loader ensure_workers wanted_workers starting wake
    read_from texture_at trigger_load
takes = wakes [] [] (record { queue = []; done = []; stop = false }) (busy job) refl refl refl

ends :
    WorkerStep 0 decode no_pixels
      (after (busy job ∷ []) [])
      (after (waiting ∷ []) (record { cache_key = key; pixels = grey } ∷ []))
unfolding finish complete
ends = finishes [] [] job refl refl

abbrev loaded : Provider ℕ
loaded = record requested {
  loader = after (waiting ∷ []) (record { cache_key = key; pixels = grey } ∷ []);
}

loaded-Session : Session toy_double to_byte toy_stb suc 0 toy_disk toy_join loaded
loaded-Session =
    worked _ ends
      (worked _ takes (acquired key (codes "a.png") 1 0 0 (opened (codes "/maps") none)))

pump-settles_example :
    status_of key (pump toy_double to_byte toy_stb suc 0 toy_disk toy_join loaded).textures
    ≢ loading
pump-settles_example =
    pump-settles toy_double to_byte toy_stb suc 0 toy_disk toy_join loaded-Session
      (lone_stuck decode no_pixels loaded.loader refl refl refl) key

abbrev packed : List (Text × Bytes)
packed = (codes "a.png", file) ∷ []
