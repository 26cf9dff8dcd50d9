-- ===== src/Textures/Decode/Pixels.antt =====
-- The buffers that a decoding makes (canvas/texture_decode.cpp).
use mathlib.Core.Path.{subst}
use imrmf_map_editor.Base.{
  ℕ, zero, suc, ◌*◌, ◌≤◌, ◌≡◌, refl, sym, ◌∙◌, ◌⊎◌, inl, inr, Bool, true, false, ◌||◌, Option, some,
  [], ◌∷◌, ◌++◌, if◌then◌else◌, arith, length, length-append, take, All, All-append, Bool-cases,
  Option-cases,
}
use imrmf_map_editor.Base.Int.{pos, pos_part, leb_ℤ}
use imrmf_map_editor.Building.Double.{Double}
use imrmf_map_editor.Bundle.{Bytes}
use imrmf_map_editor.Textures.Decode.{
  DecodedPixels, no_pixels, LoadedImage, area, invert_rgb, shade, shade_all, detect_color,
  grayscale_of, tint_byte, colorize_rgba, decode_loaded, decode_pixels,
}

abbrev pub IsBytes : Bytes → Type 0
IsBytes bytes = All (λ b. b ≤ 255) bytes

pub invert_twice :
    (n : ℕ) (bytes : Bytes) → IsBytes bytes → invert_rgb n (invert_rgb n bytes) ≡ bytes
unfolding invert_rgb
invert_twice zero bytes h = refl
invert_twice (suc n) [] h = refl
invert_twice (suc n) (r ∷ []) h = refl
invert_twice (suc n) (r ∷ g ∷ []) h = refl
invert_twice (suc n) (r ∷ g ∷ b ∷ []) h = refl
invert_twice (suc n) (r ∷ g ∷ b ∷ a ∷ rest) (hr, (hg, (hb, (ha, h)))) =
    grind (arith, invert_twice n rest h)

pub length-invert_rgb : (n : ℕ) (bytes : Bytes) → length (invert_rgb n bytes) ≡ length bytes
unfolding invert_rgb
length-invert_rgb zero bytes = refl
length-invert_rgb (suc n) [] = refl
length-invert_rgb (suc n) (r ∷ []) = refl
length-invert_rgb (suc n) (r ∷ g ∷ []) = refl
length-invert_rgb (suc n) (r ∷ g ∷ b ∷ []) = refl
length-invert_rgb (suc n) (r ∷ g ∷ b ∷ a ∷ rest) = omega (arith, length-invert_rgb n rest)

invert_rgb-IsBytes : (n : ℕ) (bytes : Bytes) → IsBytes bytes → IsBytes (invert_rgb n bytes)
unfolding invert_rgb
invert_rgb-IsBytes zero bytes h = h
invert_rgb-IsBytes (suc n) [] h = h
invert_rgb-IsBytes (suc n) (r ∷ []) h = h
invert_rgb-IsBytes (suc n) (r ∷ g ∷ []) h = h
invert_rgb-IsBytes (suc n) (r ∷ g ∷ b ∷ []) h = h
invert_rgb-IsBytes (suc n) (r ∷ g ∷ b ∷ a ∷ rest) (hr, (hg, (hb, (ha, h)))) =
    (omega arith, (omega arith, (omega arith, (ha, invert_rgb-IsBytes n rest h))))

shade_lem :
    (r g b v : ℕ)
    → r ≤ 255
    → g ≤ 255
    → b ≤ 255
    → (length (shade r g b v) ≡ 4) × (IsBytes (shade r g b v))
unfolding shade
shade_lem r g b v hr hg hb = ground arith

shade_more :
    (r g b v : ℕ) (more : Bytes) (n : ℕ)
    → r ≤ 255
    → g ≤ 255
    → b ≤ 255
    → (length more ≡ n * 4) × IsBytes more
    → (length (shade r g b v ++ more) ≡ suc n * 4) × (IsBytes (shade r g b v ++ more))
shade_more r g b v more n hr hg hb (size, bytes) =
    let (four, here) = shade_lem r g b v hr hg hb in
    (
      omega (arith, size, four, length-append (shade r g b v) more),
      All-append (λ b. b ≤ 255) (shade r g b v) more here bytes,
    )

shade_all_lem :
    (n r g b : ℕ) (gray : Bytes)
    → r ≤ 255
    → g ≤ 255
    → b ≤ 255
    → (length (shade_all n r g b gray) ≡ n * 4) × (IsBytes (shade_all n r g b gray))
unfolding shade_all
shade_all_lem zero r g b gray hr hg hb = (refl, tt)
shade_all_lem (suc n) r g b [] hr hg hb =
    shade_more r g b 0 (shade_all n r g b []) n hr hg hb (shade_all_lem n r g b [] hr hg hb)
shade_all_lem (suc n) r g b (v ∷ gray) hr hg hb =
    shade_more r g b v (shade_all n r g b gray) n hr hg hb (shade_all_lem n r g b gray hr hg hb)

length-grayscale_of : (n : ℕ) (bytes : Bytes) → length (grayscale_of n bytes) ≡ n
unfolding grayscale_of
length-grayscale_of zero bytes = refl
length-grayscale_of (suc n) [] = omega (arith, length-grayscale_of n [])
length-grayscale_of (suc n) (r ∷ []) = omega (arith, length-grayscale_of n [])
length-grayscale_of (suc n) (r ∷ g ∷ []) = omega (arith, length-grayscale_of n [])
length-grayscale_of (suc n) (r ∷ g ∷ b ∷ []) = omega (arith, length-grayscale_of n [])
length-grayscale_of (suc n) (r ∷ g ∷ b ∷ a ∷ rest) = omega (arith, length-grayscale_of n rest)

grayscale_of-IsBytes : (n : ℕ) (bytes : Bytes) → IsBytes bytes → IsBytes (grayscale_of n bytes)
unfolding grayscale_of
grayscale_of-IsBytes zero bytes h = tt
grayscale_of-IsBytes (suc n) [] h = (omega arith, grayscale_of-IsBytes n [] tt)
grayscale_of-IsBytes (suc n) (r ∷ []) h = (omega arith, grayscale_of-IsBytes n [] tt)
grayscale_of-IsBytes (suc n) (r ∷ g ∷ []) h = (omega arith, grayscale_of-IsBytes n [] tt)
grayscale_of-IsBytes (suc n) (r ∷ g ∷ b ∷ []) h = (omega arith, grayscale_of-IsBytes n [] tt)
grayscale_of-IsBytes (suc n) (r ∷ g ∷ b ∷ a ∷ rest) (hr, (hg, (hb, (ha, h)))) =
    (omega arith, grayscale_of-IsBytes n rest h)

take-IsBytes : (n : ℕ) (bytes : Bytes) → IsBytes bytes → IsBytes (take n bytes)
take-IsBytes zero bytes h = tt
take-IsBytes (suc n) [] h = tt
take-IsBytes (suc n) (b ∷ bytes) h = (h.0, take-IsBytes n bytes (h.1))

length-take : (n : ℕ) (bytes : Bytes) → n ≤ length bytes → length (take n bytes) ≡ n
length-take zero bytes h = refl
length-take (suc n) [] h = absurd (omega (arith, h))
length-take (suc n) (b ∷ bytes) h = omega (arith, length-take n bytes (omega (arith, h)))

-- What `stb_image` documents of an image that it gives: four bytes for each pixel.
abbrev pub Documented : (Bytes → Option LoadedImage) → Type 0
Documented stb =
    (bytes : Bytes) (image : LoadedImage)
    → stb bytes ≡ some image
    → (length image.rgba ≡ area image.width image.height * 4) × IsBytes image.rgba

-- An image with a size, its buffers as large as that, and one the inverse of the other.
pub record IsImage (px : DecodedPixels) : Type 0 where
  pub sized : (1 ≤ pos_part px.width) × (1 ≤ pos_part px.height)
  pub normal : (length px.rgba ≡ area px.width px.height * 4) × IsBytes px.rgba
  pub inverse : (length px.rgba_inv ≡ area px.width px.height * 4) × IsBytes px.rgba_inv
  pub inverted : invert_rgb (area px.width px.height) px.rgba_inv ≡ px.rgba
  pub gray : length px.grayscale ≡ (if px.is_color then 0 else area px.width px.height)

module _ {D : Type 0} (F : Double D) (round_byte : D → ℕ) where
  abbrev pub IsRounding : Type 0
  IsRounding = (c : D) → round_byte c ≤ 255

  tint_byte_le : IsRounding → (c : D) → tint_byte F round_byte c ≤ 255
  unfolding tint_byte
  tint_byte_le small c = small _

  buffer_lem :
      (small : IsRounding) (image : LoadedImage) (is_color : Bool) (tr tg tb : D)
      → (length image.rgba ≡ area image.width image.height * 4) × IsBytes image.rgba
      → (let n = area image.width image.height in
          let gray = if is_color then [] else grayscale_of n image.rgba in
          let rgba =
            if is_color
            then take (n * 4) image.rgba
            else colorize_rgba F round_byte gray image.width image.height tr tg tb in
          ((length rgba ≡ n * 4) × IsBytes rgba) × (length gray ≡ (if is_color then 0 else n)))
  unfolding colorize_rgba
  buffer_lem small image true tr tg tb (size, bytes) =
      let n = area image.width image.height in
      (
        (
          length-take (n * 4) image.rgba (omega (arith, size)),
          take-IsBytes (n * 4) image.rgba bytes,
        ),
        refl,
      )
  buffer_lem small image false tr tg tb (size, bytes) =
      let n = area image.width image.height in
      (
        shade_all_lem n _ _ _ _ (tint_byte_le small tr) (tint_byte_le small tg)
            (tint_byte_le small tb),
        length-grayscale_of n image.rgba,
      )

  decode_loaded-IsImage :
      (small : IsRounding) (image : LoadedImage) (tr tg tb : D)
      → (1 ≤ pos_part image.width) × (1 ≤ pos_part image.height)
      → (length image.rgba ≡ area image.width image.height * 4) × IsBytes image.rgba
      → IsImage (decode_loaded F round_byte image tr tg tb)
  unfolding decode_loaded
  decode_loaded-IsImage small image tr tg tb sized whole =
      let n = area image.width image.height in
      let ((size, bytes), gray) =
        buffer_lem small image (detect_color image.rgba image.width image.height) tr tg tb whole in
      record {
        sized = sized;
        normal = (size, bytes);
        inverse = (length-invert_rgb n _ ∙ size, invert_rgb-IsBytes n _ bytes);
        inverted = invert_twice n _ bytes;
        gray = gray;
      }

  pub decode_cases :
      (stb : Bytes → Option LoadedImage) (bytes : Bytes)
      → ((tr tg tb : D) → decode_pixels F round_byte stb bytes tr tg tb ≡ no_pixels)
        ⊎ ((image : LoadedImage) × (stb bytes ≡ some image)
            × (1 ≤ pos_part image.width)
            × (1 ≤ pos_part image.height)
            × ((tr tg tb : D)
                → decode_pixels F round_byte stb bytes tr tg tb
                  ≡ decode_loaded F round_byte image tr tg tb))
  unfolding decode_pixels
  decode_cases stb [] = inl (λ tr tg tb. refl)
  decode_cases stb (b ∷ bytes) = elim (Option-cases (stb (b ∷ bytes))) [
    | inl none_given ↦ inl (λ tr tg tb. simp none_given)
    | inr (image, given) ↦
        elim (Bool-cases (leb_ℤ image.width (pos 0) || leb_ℤ image.height (pos 0))) [
          | inl flat ↦ inl (λ tr tg tb. simp (given, flat))
          | inr sized ↦
              inr (image, given, ground arith, ground arith, λ tr tg tb. simp (given, sized))
        ]
  ]

  pub no_pixels-not_ok : (px : DecodedPixels) → px ≡ no_pixels → ¬ (px.ok ≡ true)
  no_pixels-not_ok px e h = cc

  -- Where `stb_image` gives what it documents and no byte is rounded past 255, a decoding that is ok is
  -- of an image with a size, both its buffers have four bytes for each pixel, inverting the one gives
  -- the other, and the grayscale copy has a byte for each pixel, or none for a colour image.
  pub decode_pixels-IsImage :
      (small : IsRounding) (stb : Bytes → Option LoadedImage) (documented : Documented stb)
      (bytes : Bytes) (tr tg tb : D)
      → (decode_pixels F round_byte stb bytes tr tg tb).ok ≡ true
      → IsImage (decode_pixels F round_byte stb bytes tr tg tb)
  decode_pixels-IsImage small stb documented bytes tr tg tb is_ok = elim (decode_cases stb bytes) [
    | inl refused ↦ absurd (no_pixels-not_ok _ (refused tr tg tb) is_ok)
    | inr (image, given, wide, high, same) ↦
        subst IsImage (sym (same tr tg tb))
          (decode_loaded-IsImage small image tr tg tb (wide, high) (documented bytes image given))
  ]
