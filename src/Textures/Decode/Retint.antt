-- ===== src/Textures/Decode/Retint.antt =====
-- A new tint for a texture (`regenerate_colorize` of canvas/texture_decode.cpp), and the sampling that
-- decides whether there can be one (`detect_color`).
use mathlib.Core.Path.{subst}
use imrmf_map_editor.Base.{
  ℕ, zero, suc, ◌+◌, ◌*◌, ◌≤◌, ◌<◌, ◌≡◌, refl, sym, ap, ◌∙◌, ◌↔◌, ◌⊎◌, inl, inr, true, false, ◌||◌,
  Option, [], ◌∷◌, arith, Bool-cases,
}
use imrmf_map_editor.Base.Int.{ℤ, pos, pos_part, leb_ℤ}
use imrmf_map_editor.Base.Text.{is_empty}
use imrmf_map_editor.Building.Double.{Double}
use imrmf_map_editor.Bundle.{Bytes}
use imrmf_map_editor.Textures.Decode.{
  LayerTexture, DecodedPixels, LoadedImage, area, Gl, delete_texture, differs, detect_from,
  sample_step, detect_color, grayscale_of, decode_loaded, decode_pixels, upload_decoded,
  regenerate_colorize,
}
use imrmf_map_editor.Textures.Decode.Pixels.{decode_cases, no_pixels-not_ok}

-- A pixel that the loop samples from `i` on, and whose channels differ.
abbrev pub Sampled : ℕ → ℕ → ℕ → Bytes → Type 0
Sampled n step i rgba = (k p : ℕ) × (p ≡ i + k * step) × (p < n) × (differs rgba p ≡ true)

Sampled-later :
    (n step i : ℕ) (rgba : Bytes) → Sampled n step (i + step) rgba → Sampled n step i rgba
Sampled-later n step i rgba (k, p, at, lt, d) = (suc k, p, omega (arith, at), lt, d)

Sampled-split :
    (n step i : ℕ) (rgba : Bytes)
    → Sampled n step i rgba
    → (i < n) × ((differs rgba i ≡ true) ⊎ Sampled n step (i + step) rgba)
Sampled-split n step i rgba (zero, p, at, lt, d) =
    (omega (arith, at, lt), inl (subst (λ q. differs rgba q ≡ true) (omega (arith, at)) d))
Sampled-split n step i rgba (suc k, p, at, lt, d) =
    (omega (arith, at, lt), inr (k, p, omega (arith, at), lt, d))

detect_from_iff :
    (fuel n step i : ℕ) (rgba : Bytes)
    → 1 ≤ step
    → n ≤ i + fuel
    → (detect_from fuel n step i rgba ≡ true) ↔ Sampled n step i rgba
unfolding detect_from
detect_from_iff zero n step i rgba h enough = (
  λ e. absurd (cc e),
  λ found. absurd (omega (arith, (Sampled-split n step i rgba found).0, enough)),
)
detect_from_iff (suc fuel) n step i rgba h enough =
    let (there, back) = detect_from_iff fuel n step (i + step) rgba h (omega (arith, h, enough)) in
    (
      λ e. elim (Bool-cases (differs rgba i)) [
        | inl d ↦ (0, i, omega arith, ground arith, d)
        | inr same ↦ Sampled-later n step i rgba (there (ground arith))
      ],
      λ found.
          let (lt, which) = Sampled-split n step i rgba found in
          elim which [ inl d ↦ ground arith | inr rest ↦ ground (arith, back rest) ],
    )

-- An image counts as one in colour exactly when one of the sampled pixels has channels that differ: the
-- first pixel, and those that follow it by a multiple of the step.
pub detect_color_iff :
    (rgba : Bytes) (w h : ℤ)
    → (detect_color rgba w h ≡ true) ↔ Sampled (area w h) (sample_step (area w h)) 0 rgba
unfolding detect_color
detect_color_iff rgba w h =
    detect_from_iff (area w h) (area w h) (sample_step (area w h)) 0 rgba (ground arith)
      (omega arith)

area_positive : (m n : ℕ) → 1 ≤ m → 1 ≤ n → 1 ≤ m * n
area_positive zero n h k = elim h [ ]
area_positive (suc m) zero h k = elim k [ ]
area_positive (suc m) (suc n) h k = ground arith

module _ {D : Type 0} (F : Double D) (round_byte : D → ℕ) (names : ℕ → ℕ) where
  grayscale_of-is_empty : (n : ℕ) (bytes : Bytes) → 1 ≤ n → is_empty (grayscale_of n bytes) ≡ false
  unfolding grayscale_of
  grayscale_of-is_empty zero bytes h = absurd (omega (arith, h))
  grayscale_of-is_empty (suc n) [] h = refl
  grayscale_of-is_empty (suc n) (r ∷ []) h = refl
  grayscale_of-is_empty (suc n) (r ∷ g ∷ []) h = refl
  grayscale_of-is_empty (suc n) (r ∷ g ∷ b ∷ []) h = refl
  grayscale_of-is_empty (suc n) (r ∷ g ∷ b ∷ a ∷ rest) h = refl

  -- The texture and the calls of GL where the two textures are deleted and a decoding is uploaded.
  abbrev pub reuploaded : LayerTexture D → DecodedPixels → D → D → D → Gl → LayerTexture D × Gl
  reuploaded tex px cr cg cb gl =
      let (fresh, after) =
        upload_decoded names tex px (delete_texture tex.id_inv (delete_texture tex.id gl)) in
      (record fresh { last_color_r = cr; last_color_g = cg; last_color_b = cb }, after)

  retint_loaded :
      (image : LoadedImage) (out : LayerTexture D) (tr tg tb cr cg cb : D) (gl later : Gl)
      → 1 ≤ pos_part image.width
      → 1 ≤ pos_part image.height
      → detect_color image.rgba image.width image.height ≡ false
      → (let tex = (upload_decoded names out (decode_loaded F round_byte image tr tg tb) gl).0 in
          regenerate_colorize F round_byte names tex cr cg cb later
          ≡ reuploaded tex (decode_loaded F round_byte image cr cg cb) cr cg cb later)
  unfolding upload_decoded decode_loaded regenerate_colorize
  retint_loaded image out tr tg tb cr cg cb gl later wide high plain =
      let sized : (leb_ℤ image.width (pos 0) || leb_ℤ image.height (pos 0)) ≡ false =
        ground arith in
      let gray =
        grayscale_of-is_empty (area image.width image.height) image.rgba
          (area_positive _ _ wide high) in
      simp (plain, sized, gray)

  -- For a texture that comes from a grey image, a new tint does what decoding the image again with that
  -- tint and uploading it would: the same calls of GL, after the two textures are deleted, and the same
  -- texture, with the tint noted.
  pub regenerate-decode :
      (stb : Bytes → Option LoadedImage) (bytes : Bytes) (out : LayerTexture D)
      (tr tg tb cr cg cb : D) (gl later : Gl)
      → (decode_pixels F round_byte stb bytes tr tg tb).ok ≡ true
      → (decode_pixels F round_byte stb bytes tr tg tb).is_color ≡ false
      → (let tex =
            (upload_decoded names out (decode_pixels F round_byte stb bytes tr tg tb) gl).0 in
          regenerate_colorize F round_byte names tex cr cg cb later
          ≡ reuploaded tex (decode_pixels F round_byte stb bytes cr cg cb) cr cg cb later)
  unfolding decode_loaded
  regenerate-decode stb bytes out tr tg tb cr cg cb gl later is_ok plain =
      elim (decode_cases F round_byte stb bytes) [
        | inl refused ↦ absurd (no_pixels-not_ok F round_byte _ (refused tr tg tb) is_ok)
        | inr (image, given, wide, high, same) ↦
            let grey = ap (λ px. px.is_color) (sym (same tr tg tb)) ∙ plain in
            rw (same tr tg tb, same cr cg cb)
              (retint_loaded image out tr tg tb cr cg cb gl later wide high grey)
      ]
