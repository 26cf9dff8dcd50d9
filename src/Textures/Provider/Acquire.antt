-- ===== src/Textures/Provider/Acquire.antt =====
-- What `acquire` (canvas/canvas.cpp) comes to: the texture is there, or it is asked for.
use imrmf_map_editor.Base.{ℕ, ◌≡◌, refl, ◌⊎◌, inl, inr, Option, List, Option-cases}
use imrmf_map_editor.Base.Text.{Text}
use imrmf_map_editor.Building.Double.{Double}
use imrmf_map_editor.Bundle.{Bytes}
use imrmf_map_editor.Textures.Decode.{
  LoadStatus, not_started, loading, ok, failed, LayerTexture, LoadedImage,
}
use imrmf_map_editor.Textures.Provider.{
  find_entry, set_entry, Provider, new_texture, texture_at, status_of, trigger_load, acquire,
}

module _ {D : Type 0} (F : Double D) (round_byte : D → ℕ) (stb : Bytes → Option LoadedImage)
    (names : ℕ → ℕ) (hw : ℕ) (disk : Text → Option Bytes) (join : Text → Text → Text) where
  pub texture_at-status :
      (key : Text) (textures : List (Text × LayerTexture D))
      → (texture_at F round_byte stb names hw disk join key textures).status
        ≡ status_of key textures
  unfolding texture_at new_texture status_of
  texture_at-status key textures = elim (Option-cases (find_entry key textures)) [
    | inl missing ↦ rw (texture_at, status_of, missing) refl
    | inr (tex, found) ↦ rw (texture_at, status_of, found) refl
  ]

  pub LoadStatus-cases :
      (s : LoadStatus) → (s ≡ not_started) ⊎ ((s ≡ loading) ⊎ ((s ≡ ok) ⊎ (s ≡ failed)))
  LoadStatus-cases not_started = inl refl
  LoadStatus-cases loading = inr (inl refl)
  LoadStatus-cases ok = inr (inr (inl refl))
  LoadStatus-cases failed = inr (inr (inr refl))

  abbrev pub seen : Text → Provider D → Provider D
  seen key p = record p {
    textures =
        set_entry key (texture_at F round_byte stb names hw disk join key p.textures) p.textures;
  }

  abbrev pub asked : Text → Provider D → Provider D
  asked key p = record p {
    textures =
        set_entry key
          (record (texture_at F round_byte stb names hw disk join key p.textures) {
            status = loading;
          })
          p.textures;
  }

  pub acquire_cases :
      (key path : Text) (tr tg tb : D) (p : Provider D)
      → (acquire F round_byte stb names hw disk join key path tr tg tb p ≡ seen key p)
        ⊎ (acquire F round_byte stb names hw disk join key path tr tg tb p
            ≡ trigger_load F round_byte stb names hw disk join key path tr tg tb (asked key p))
  unfolding acquire trigger_load
  acquire_cases key path tr tg tb p =
      elim (LoadStatus-cases
        (texture_at F round_byte stb names hw disk join key p.textures).status) [
          | inl e ↦ inr (rw (acquire, e) refl)
          | inr (inl e) ↦ inl (rw (acquire, e) refl)
          | inr (inr (inl e)) ↦ inl (rw (acquire, e) refl)
          | inr (inr (inr e)) ↦ inl (rw (acquire, e) refl)
        ]
