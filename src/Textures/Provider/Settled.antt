-- ===== src/Textures/Provider/Settled.antt =====
-- No texture is left loading: the provider (canvas/stb_texture_provider.cpp, canvas/canvas.cpp) and the
-- loader under it.
use mathlib.Core.Path.{subst}
use imrmf_map_editor.Base.{
  ℕ, ◌<◌, ◌≡◌, ◌≢◌, refl, sym, ap, ◌∙◌, inl, inr, false, Option, List, [], ◌∷◌, arith,
  if◌then◌else◌, Bool-cases, if_true, if_false, sum_by, sum_by-append,
}
use imrmf_map_editor.Base.Text.{Text, text_eq, text_eq_iff}
use imrmf_map_editor.Building.Double.{Double}
use imrmf_map_editor.Bundle.{Bytes}
use imrmf_map_editor.Textures.Loader.{
  Job, Loader, new_loader, submit, complete, drain, WorkerStep, Reach, start, later, works, submits,
  drains,
}
use imrmf_map_editor.Textures.Loader.Parts.{result_weight, submit_going}
use imrmf_map_editor.Textures.Loader.Invariant.{Reach-IsSound}
use imrmf_map_editor.Textures.Loader.Delivery.{rest, WorkerStep-keeps, Reach-delivers}
use imrmf_map_editor.Textures.Decode.{loading, DecodedPixels, no_pixels, LoadedImage, decode_pixels}
use imrmf_map_editor.Textures.Provider.{
  read_from, Provider, texture_at, status_of, trigger_load, acquire, pump, clear_cache,
  new_provider, Session, opened, acquired, pumped, cleared, worked,
}
use imrmf_map_editor.Textures.Provider.Deliveries.{
  keyed, status-set, not_started_not_loading, deliver-loading,
}
use imrmf_map_editor.Textures.Provider.Acquire.{texture_at-status, seen, asked, acquire_cases}

module _ {D : Type 0} (F : Double D) (round_byte : D → ℕ) (stb : Bytes → Option LoadedImage)
    (names : ℕ → ℕ) (hw : ℕ) (disk : Text → Option Bytes) (join : Text → Text → Text) where
  abbrev decode : Bytes → D → D → D → DecodedPixels
  decode = decode_pixels F round_byte stb

  -- How many of the jobs that were taken on have the key.
  abbrev requested : Text → Loader D DecodedPixels → ℕ
  requested key l = sum_by (result_weight hw decode no_pixels (keyed key)) l.submitted

  -- The loader runs, and for each texture that is loading a result is still to come.
  record IsServed (p : Provider D) : Type 0 where
    reach : Reach hw decode no_pixels p.loader
    going : p.loader.shared.stop ≡ false
    pending :
        (key : Text)
        → status_of key p.textures ≡ loading
        → sum_by (keyed key) p.loader.applied < requested key p.loader

  new_provider-IsServed :
      (root : Text) (blobs : Option (List (Text × Bytes)))
      → IsServed (new_provider F round_byte stb names hw disk join root blobs)
  unfolding new_provider new_loader
  new_provider-IsServed root blobs = record {
    reach = start;
    going = refl;
    pending = λ key e. absurd (not_started_not_loading (unfold status_of in e));
  }

  pump-IsServed :
      (p : Provider D) → IsServed p → IsServed (pump F round_byte stb names hw disk join p)
  unfolding pump drain
  pump-IsServed p inv = record {
    reach = later inv.reach (drains refl);
    going = inv.going;
    pending = λ key e.
        let (before, not_for) = deliver-loading names key p.loader.shared.done p.textures p.gl e in
        omega (
          arith,
          inv.pending key before,
          not_for,
          sum_by-append (keyed key) p.loader.applied p.loader.shared.done,
        );
  }

  clear_cache-IsServed : (p : Provider D) → IsServed p → IsServed (clear_cache p)
  unfolding clear_cache
  clear_cache-IsServed p inv = record {
    reach = inv.reach;
    going = inv.going;
    pending = λ key e. absurd (not_started_not_loading (unfold status_of in e));
  }

  worked-IsServed :
      (p : Provider D) (after : Loader D DecodedPixels)
      → WorkerStep hw decode no_pixels p.loader after
      → IsServed p
      → IsServed (record p { loader = after })
  worked-IsServed p after step inv =
      let (stop, submitted, applied) = WorkerStep-keeps hw decode no_pixels p.loader after step in
      record {
        reach = later inv.reach (works step);
        going = stop ∙ inv.going;
        pending = λ key e. omega (
          arith,
          inv.pending key e,
          ap (sum_by (keyed key)) applied,
          ap (sum_by (result_weight hw decode no_pixels (keyed key))) submitted,
        );
      }

  seen-IsServed :
      (key : Text) (p : Provider D)
      → IsServed p
      → IsServed (seen F round_byte stb names hw disk join key p)
  seen-IsServed key p inv = record {
    reach = inv.reach;
    going = inv.going;
    pending = λ other e.
        let tex = texture_at F round_byte stb names hw disk join key p.textures in
        let now : (if text_eq key other then tex.status else status_of other p.textures) ≡ loading =
          sym (status-set key other tex p.textures) ∙ e in
        inv.pending other (elim (Bool-cases (text_eq key other)) [
          | inl here ↦
              ap (λ k. status_of k p.textures) (sym ((text_eq_iff key other).0 here))
              ∙ sym (texture_at-status F round_byte stb names hw disk join key p.textures)
              ∙ sym (if_true _ _ here)
              ∙ now
          | inr away ↦ sym (if_false _ _ away) ∙ now
        ]);
  }

  abbrev request : Text → Text → D → D → D → Provider D → Job D
  request key path red green blue p = record {
    cache_key = key;
    fetch = read_from disk join p.blobs p.root path;
    tr = red;
    tg = green;
    tb = blue;
  }

  single :
      (key : Text) (job : Job D)
      → sum_by (result_weight hw decode no_pixels (keyed key)) (job ∷ [])
        ≡ (if text_eq job.cache_key key then 1 else 0)
  unfolding complete sum_by
  single key job = omega arith

  trigger_load-IsServed :
      (key path : Text) (red green blue : D) (p : Provider D)
      → IsServed p
      → IsServed (
          trigger_load F round_byte stb names hw disk join key path red green blue
            (asked F round_byte stb names hw disk join key p))
  unfolding trigger_load
  trigger_load-IsServed key path red green blue p inv =
      let job = request key path red green blue p in
      let loader = submit hw decode no_pixels job p.loader in
      let same = submit_going hw decode no_pixels job p.loader inv.going in
      record {
        reach = later inv.reach (submits job refl);
        going = ap (λ l. l.shared.stop) same ∙ inv.going;
        pending = λ other e.
            let w = result_weight hw decode no_pixels (keyed other) in
            let more = sum_by-append w p.loader.submitted (job ∷ []) in
            let taken = ap (λ l. requested other l) same in
            let kept = ap (λ l. sum_by (keyed other) l.applied) same in
            let at_most = (Reach-IsSound hw decode no_pixels inv.reach).once (keyed other) in
            elim (Bool-cases (text_eq key other)) [
              | inl here ↦
                  omega
                    (arith, more, taken, kept, at_most, single other job, if_true {A = ℕ} 1 0 here)
              | inr away ↦
                  let before =
                    sym (if_false _ _ away) ∙ sym (status-set key other _ p.textures) ∙ e in
                  omega (
                    arith,
                    more,
                    taken,
                    kept,
                    inv.pending other before,
                    single other job,
                    if_false {A = ℕ} 1 0 away,
                  )
            ];
      }

  acquire-IsServed :
      (key path : Text) (tr tg tb : D) (p : Provider D)
      → IsServed p
      → IsServed (acquire F round_byte stb names hw disk join key path tr tg tb p)
  acquire-IsServed key path tr tg tb p inv =
      elim (acquire_cases F round_byte stb names hw disk join key path tr tg tb p) [
        | inl same ↦ subst IsServed (sym same) (seen-IsServed key p inv)
        | inr same ↦ subst IsServed (sym same) (trigger_load-IsServed key path tr tg tb p inv)
      ]

  Session-IsServed : {p : Provider D} → Session F round_byte stb names hw disk join p → IsServed p
  Session-IsServed (opened root blobs) = new_provider-IsServed root blobs
  Session-IsServed (acquired {p} key path red green blue session) =
      acquire-IsServed key path red green blue p (Session-IsServed session)
  Session-IsServed (pumped {p} session) = pump-IsServed p (Session-IsServed session)
  Session-IsServed (cleared {p} session) = clear_cache-IsServed p (Session-IsServed session)
  Session-IsServed (worked {p} after step session) =
      worked-IsServed p after step (Session-IsServed session)

  -- Whatever the render thread has acquired, pumped and cleared, and however the workers' steps fell
  -- between: once the workers can take no further step, the next `pump` leaves no texture loading.
  pub pump-settles :
      {p : Provider D}
      → Session F round_byte stb names hw disk join p
      → ((after : Loader D DecodedPixels) → ¬ WorkerStep hw decode no_pixels p.loader after)
      → (key : Text) → status_of key (pump F round_byte stb names hw disk join p).textures ≢ loading
  unfolding pump drain
  pump-settles {p} session stuck key e =
      let inv = Session-IsServed session in
      let pumped_inv = pump-IsServed p inv in
      let all = Reach-delivers hw decode no_pixels inv.reach inv.going rest stuck (keyed key) in
      omega (arith, pumped_inv.pending key e, all)
