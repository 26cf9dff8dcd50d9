-- ===== src/Textures/Decode.antt =====
-- From the bytes of an image to what the graphics card is given: canvas/texture_decode.cpp. `stb_image`
-- is a parameter, as is what rounds a `double` to a byte. Pixels are four bytes each, in one list, and
-- the loops over the pixels walk down that list; a position past its end reads as 0 here, where C++
-- leaves it undefined. The products of a width and a height are taken to fit an `int`.
pub mod Pixels
pub mod Retint
use imrmf_map_editor.Base.{
  ℕ, zero, suc, ◌+◌, ◌-◌, ◌*◌, ◌/◌, Bool, true, false, not, ◌&&◌, ◌||◌, Option, none, some, List,
  [], ◌∷◌, ◌++◌, ltb, ◌==◌, if◌then◌else◌, get_elem?, take,
}
use imrmf_map_editor.Base.Int.{ℤ, pos, pos_part, leb_ℤ}
use imrmf_map_editor.Base.Text.{is_empty}
use imrmf_map_editor.Building.Double.{Double}
use imrmf_map_editor.Bundle.{Bytes}

pub data LoadStatus : Type 0 where
  not_started loading ok failed : LoadStatus

-- The names of GL textures are numbers, 0 for none.
pub record LayerTexture (D : Type 0) : Type 0 where
  pub status : LoadStatus
  pub id : ℕ
  pub id_inv : ℕ
  pub width : ℤ
  pub height : ℤ
  pub orig_width : ℤ
  pub orig_height : ℤ
  pub is_color : Bool
  pub grayscale : Bytes
  pub last_color_r : D
  pub last_color_g : D
  pub last_color_b : D

pub record DecodedPixels : Type 0 where
  pub ok : Bool
  pub width : ℤ
  pub height : ℤ
  pub is_color : Bool
  pub rgba : Bytes
  pub rgba_inv : Bytes
  pub grayscale : Bytes

-- `DecodedPixels px;`
abbrev pub no_pixels : DecodedPixels
no_pixels = record {
  ok = false;
  width = pos 0;
  height = pos 0;
  is_color = false;
  rgba = [];
  rgba_inv = [];
  grayscale = [];
}

-- What `stbi_load_from_memory` gives, where it gives an image.
pub record LoadedImage : Type 0 where
  pub width : ℤ
  pub height : ℤ
  pub rgba : Bytes

-- `w * h`
abbrev pub area : ℤ → ℤ → ℕ
area w h = pos_part w * pos_part h

abbrev pub byte_at : Bytes → ℕ → ℕ
byte_at bytes i = elim (get_elem? bytes i) [ none ↦ 0 | some b ↦ b ]

-- The loop over `n` pixels.
unfoldable pub invert_rgb : ℕ → Bytes → Bytes
invert_rgb (suc n) (r ∷ g ∷ b ∷ a ∷ rest) =
    (255 - r) ∷ (255 - g) ∷ (255 - b) ∷ a ∷ invert_rgb n rest
invert_rgb n bytes = bytes

-- One pixel of `colorize_rgba`, for the tint's three bytes.
unfoldable pub shade : ℕ → ℕ → ℕ → ℕ → Bytes
shade r g b v =
    if ltb v 100
    then r ∷ g ∷ b ∷ 127 ∷ []
    else if ltb 200 v
    then 0 ∷ 0 ∷ 0 ∷ 0 ∷ []
    else v ∷ v ∷ v ∷ 50 ∷ []

unfoldable pub shade_all : ℕ → ℕ → ℕ → ℕ → Bytes → Bytes
unfolding shade
shade_all zero r g b gray = []
shade_all (suc n) r g b [] = shade r g b 0 ++ shade_all n r g b []
shade_all (suc n) r g b (v ∷ gray) = shade r g b v ++ shade_all n r g b gray

unfoldable pub differs : Bytes → ℕ → Bool
differs rgba i =
    not (byte_at rgba (i * 4) == byte_at rgba (i * 4 + 1))
    || not (byte_at rgba (i * 4 + 1) == byte_at rgba (i * 4 + 2))

-- The loop from pixel `i` on, on fuel.
unfoldable pub detect_from : ℕ → ℕ → ℕ → ℕ → Bytes → Bool
detect_from zero n step i rgba = false
detect_from (suc fuel) n step i rgba =
    let later = detect_from fuel n step (i + step) rgba in
    if ltb i n then (if differs rgba i then true else later) else false

abbrev pub sample_step : ℕ → ℕ
sample_step n = let step = n / 200 in if ltb step 1 then 1 else step

unfoldable pub detect_color : Bytes → ℤ → ℤ → Bool
unfolding detect_from
detect_color rgba w h = let n = area w h in detect_from n n (sample_step n) 0 rgba

-- The loop that fills the grayscale copy.
unfoldable pub grayscale_of : ℕ → Bytes → Bytes
grayscale_of (suc n) (r ∷ g ∷ b ∷ a ∷ rest) = ((r + g + b) / 3) ∷ grayscale_of n rest
grayscale_of (suc n) _ = 0 ∷ grayscale_of n []
grayscale_of zero _ = []

-- The calls of GL, in their order. `glGenTextures` gives the names of `names`, in turn.
pub data GlCall : Type 0 where
  upload : ℕ → ℤ → ℤ → Bytes → GlCall
  delete : ℕ → GlCall

pub record Gl : Type 0 where
  pub generated : ℕ
  pub calls : List GlCall

-- `if (id) glDeleteTextures(1, &id);`
unfoldable pub delete_texture : ℕ → Gl → Gl
delete_texture id gl = if id == 0 then gl else record gl { calls = gl.calls ++ delete id ∷ [] }

unfoldable pub upload_rgba : (ℕ → ℕ) → Bytes → ℤ → ℤ → Gl → ℕ × Gl
upload_rgba names bytes w h gl =
    let id = names gl.generated in
    (id, record { generated = suc gl.generated; calls = gl.calls ++ upload id w h bytes ∷ [] })

unfoldable pub upload_decoded :
    {D : Type 0} → (ℕ → ℕ) → LayerTexture D → DecodedPixels → Gl → LayerTexture D × Gl
unfolding upload_rgba
upload_decoded names out px gl =
    if px.ok
    then (let (id, gl1) = upload_rgba names px.rgba px.width px.height gl in
        let (id_inv, gl2) = upload_rgba names px.rgba_inv px.width px.height gl1 in
        (
          record out {
            width = px.width;
            height = px.height;
            orig_width = px.width;
            orig_height = px.height;
            is_color = px.is_color;
            grayscale = px.grayscale;
            id = id;
            id_inv = id_inv;
            status = ok;
          },
          gl2,
        ))
    else (record out { status = failed }, gl)

module _ {D : Type 0} (F : Double D) (round_byte : D → ℕ) where
  -- `(unsigned char)std::round(std::clamp(c, 0.0, 1.0) * 255.0)`
  unfoldable pub tint_byte : D → ℕ
  tint_byte c = round_byte (
      F.mul (if F.lt c F.zero then F.zero else if F.lt F.one c then F.one else c)
        (F.of_int (pos 255)))

  unfoldable pub colorize_rgba : Bytes → ℤ → ℤ → D → D → D → Bytes
  unfolding shade_all tint_byte
  colorize_rgba gray w h cr cg cb =
      shade_all (area w h) (tint_byte cr) (tint_byte cg) (tint_byte cb) gray

  -- What follows once `stb_image` has given an image with a size.
  unfoldable pub decode_loaded : LoadedImage → D → D → D → DecodedPixels
  unfolding detect_color grayscale_of colorize_rgba invert_rgb
  decode_loaded image tr tg tb =
      let w = image.width in
      let h = image.height in
      let is_color = detect_color image.rgba w h in
      let grayscale = if is_color then [] else grayscale_of (area w h) image.rgba in
      let rgba =
        if is_color then take (area w h * 4) image.rgba else colorize_rgba grayscale w h tr tg tb in
      record {
        ok = true;
        width = w;
        height = h;
        is_color = is_color;
        rgba = rgba;
        rgba_inv = invert_rgb (area w h) rgba;
        grayscale = grayscale;
      }

  unfoldable pub decode_pixels : (Bytes → Option LoadedImage) → Bytes → D → D → D → DecodedPixels
  unfolding decode_loaded
  decode_pixels stb bytes tr tg tb = elim (if is_empty bytes then none else stb bytes) [
    | none ↦ no_pixels
    | some image ↦
        if leb_ℤ image.width (pos 0) || leb_ℤ image.height (pos 0)
        then no_pixels
        else decode_loaded image tr tg tb
  ]

  unfoldable pub decode_into_texture :
      (Bytes → Option LoadedImage)
      → (ℕ → ℕ)
      → LayerTexture D
      → Bytes
      → D
      → D
      → D
      → Gl
      → LayerTexture D × Gl
  unfolding decode_pixels upload_decoded
  decode_into_texture stb names out bytes tr tg tb gl =
      let px = decode_pixels stb bytes tr tg tb in
      let (tex, after) = upload_decoded names out px gl in
      (
        if px.ok && not px.is_color
            then record tex { last_color_r = tr; last_color_g = tg; last_color_b = tb }
            else tex,
        after,
      )

  unfoldable pub regenerate_colorize :
      (ℕ → ℕ) → LayerTexture D → D → D → D → Gl → LayerTexture D × Gl
  unfolding colorize_rgba upload_rgba invert_rgb delete_texture
  regenerate_colorize names tex cr cg cb gl =
      if leb_ℤ tex.width (pos 0) || leb_ℤ tex.height (pos 0) || is_empty tex.grayscale
      then (tex, gl)
      else (let rgba = colorize_rgba tex.grayscale tex.width tex.height cr cg cb in
          let cleared = delete_texture tex.id_inv (delete_texture tex.id gl) in
          let (id, gl1) = upload_rgba names rgba tex.width tex.height cleared in
          let inv = invert_rgb (area tex.width tex.height) rgba in
          let (id_inv, gl2) = upload_rgba names inv tex.width tex.height gl1 in
          (
            record tex {
              id = id;
              id_inv = id_inv;
              last_color_r = cr;
              last_color_g = cg;
              last_color_b = cb;
            },
            gl2,
          ))
