-- ===== src/Tests/Images.antt =====
-- A grey image of one pixel (canvas/texture_decode.cpp), and a provider that loads it.
use mathlib.Core.Path.{subst}
use imrmf_map_editor.Base.{
  ℕ, suc, ◌*◌, ◌≡◌, refl, true, false, Option, none, some, [], ◌∷◌, length, arith, ltb,
  if◌then◌else◌,
}
use imrmf_map_editor.Base.Int.{pos}
use imrmf_map_editor.Bundle.{Bytes}
use imrmf_map_editor.Tests.Nodes.{toy_double}
use imrmf_map_editor.Textures.Decode.{
  loading, LayerTexture, DecodedPixels, LoadedImage, Gl, area, differs, detect_color, decode_pixels,
  upload_decoded, regenerate_colorize,
}
use imrmf_map_editor.Textures.Decode.Pixels.{
  IsRounding, Documented, IsImage, IsBytes, decode_pixels-IsImage,
}
use imrmf_map_editor.Textures.Decode.Retint.{reuploaded, regenerate-decode}

abbrev pub to_byte : ℕ → ℕ
to_byte c = if ltb 255 c then 255 else c

to_byte-IsRounding : IsRounding toy_double to_byte
to_byte-IsRounding c = ground arith

-- One dark grey pixel.
abbrev image : LoadedImage
image = record { width = pos 1; height = pos 1; rgba = 30 ∷ 30 ∷ 30 ∷ 255 ∷ [] }

abbrev pub toy_stb : Bytes → Option LoadedImage
toy_stb [] = none
toy_stb (b ∷ bytes) = some image

toy_stb-Documented : Documented toy_stb
toy_stb-Documented [] given e = cc
toy_stb-Documented (b ∷ bytes) given e =
    let same : image ≡ given = cc e in
    subst (λ (i : LoadedImage). (length i.rgba ≡ area i.width i.height * 4) × IsBytes i.rgba) same
      (refl, (omega arith, (omega arith, (omega arith, (omega arith, tt)))))

abbrev pub file : Bytes
file = 1 ∷ []

abbrev pub grey : DecodedPixels
grey = decode_pixels toy_double to_byte toy_stb file 1 0 0

grey-ok : grey.ok ≡ true
unfolding decode_pixels
grey-ok = refl

grey-plain : grey.is_color ≡ false
unfolding decode_pixels detect_color differs
grey-plain = refl

decode_pixels-IsImage_example : IsImage grey
decode_pixels-IsImage_example =
    decode_pixels-IsImage toy_double to_byte to_byte-IsRounding toy_stb toy_stb-Documented file 1 0
      0 grey-ok

abbrev no_texture : LayerTexture ℕ
no_texture = record {
  status = loading;
  id = 0;
  id_inv = 0;
  width = pos 0;
  height = pos 0;
  orig_width = pos 0;
  orig_height = pos 0;
  is_color = false;
  grayscale = [];
  last_color_r = 0;
  last_color_g = 0;
  last_color_b = 0;
}

abbrev no_calls : Gl
no_calls = record { generated = 0; calls = [] }

-- The texture of the grey image.
abbrev tinted : LayerTexture ℕ × Gl
tinted = upload_decoded suc no_texture grey no_calls

regenerate-decode_example :
    regenerate_colorize toy_double to_byte suc tinted.0 0 1 0 tinted.1
    ≡ reuploaded toy_double to_byte suc tinted.0
        (decode_pixels toy_double to_byte toy_stb file 0 1 0)
        0
        1
        0
        tinted.1
regenerate-decode_example =
    regenerate-decode toy_double to_byte suc toy_stb file no_texture 1 0 0 0 1 0 no_calls tinted.1
      grey-ok grey-plain
