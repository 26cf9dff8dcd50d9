-- ===== src/Textures/Provider.antt =====
-- The desktop's provider of textures with its loader: `TextureProvider` of canvas/canvas.hpp and
-- canvas/canvas.cpp, canvas/stb_texture_provider.cpp. The files are a parameter, `disk`, as is the
-- `operator/` of paths. The maps are association lists.
pub mod Deliveries
pub mod Acquire
pub mod Sources
pub mod Settled
use imrmf_map_editor.Base.{
  ℕ, zero, suc, ◌≡◌, Bool, true, false, Option, none, some, List, [], ◌∷◌, ◌++◌, if◌then◌else◌,
}
use imrmf_map_editor.Base.Int.{ℤ, pos}
use imrmf_map_editor.Base.Text.{Text, codes, text_eq, is_empty}
use imrmf_map_editor.Building.Double.{Double}
use imrmf_map_editor.Bundle.{Bytes}
use imrmf_map_editor.Paths.{is_absolute}
use imrmf_map_editor.Textures.Loader.{Job, Done, Loader, new_loader, submit, drain, WorkerStep}
use imrmf_map_editor.Textures.Decode.{
  LoadStatus, not_started, loading, LayerTexture, DecodedPixels, no_pixels, LoadedImage, Gl,
  decode_pixels, upload_decoded, delete_texture,
}

module _ {A : Type 0} where
  -- `find`
  unfoldable pub find_entry : Text → List (Text × A) → Option A
  find_entry key [] = none
  find_entry key ((k, a) ∷ entries) = if text_eq k key then some a else find_entry key entries

  -- `operator[]`, assigned to.
  unfoldable pub set_entry : Text → A → List (Text × A) → List (Text × A)
  set_entry key a [] = (key, a) ∷ []
  set_entry key a ((k, b) ∷ entries) =
      let rest = set_entry key a entries in
      if text_eq k key then (k, a) ∷ entries else (k, b) ∷ rest

-- `floorplan_cache_key`
unfoldable pub floorplan_cache_key : Text → Text
floorplan_cache_key level_name = codes "fp:" ++ level_name

unfoldable pub layer_cache_key : Text → Text → Text
layer_cache_key level_name layer_name = codes "lay:" ++ (level_name ++ (codes ":" ++ layer_name))

-- `read_from`, with what it writes to `out` as its result.
unfoldable pub read_from :
    (Text → Option Bytes)
    → (Text → Text → Text)
    → Option (List (Text × Bytes))
    → Text
    → Text
    → Option Bytes
unfolding is_absolute find_entry
read_from disk join blobs root asset_path =
    let packed : Option Bytes = elim blobs [
      | none ↦ none
      | some entries ↦ find_entry asset_path entries
    ] in
    let read : Option Bytes =
      elim (disk (if is_absolute asset_path then asset_path else join root asset_path)) [
        | none ↦ none
        | some bytes ↦ if is_empty bytes then none else some bytes
      ] in
    if is_empty asset_path
    then none
    else elim packed [ some bytes ↦ some bytes | none ↦ if is_empty root then none else read ]

pub record Provider (D : Type 0) : Type 0 where
  pub textures : List (Text × LayerTexture D)
  pub root : Text
  pub blobs : Option (List (Text × Bytes))
  pub loader : Loader D DecodedPixels
  pub gl : Gl

unfoldable pub status_of : {D : Type 0} → Text → List (Text × LayerTexture D) → LoadStatus
unfolding find_entry
status_of key textures = elim (find_entry key textures) [
  | none ↦ not_started
  | some tex ↦ tex.status
]

-- What `pump` hands to `drain`, for one result.
unfoldable pub deliver_one :
    {D : Type 0}
    → (ℕ → ℕ)
    → Done DecodedPixels
    → List (Text × LayerTexture D) × Gl
    → List (Text × LayerTexture D) × Gl
unfolding find_entry set_entry upload_decoded
deliver_one names result (textures, gl) = elim (find_entry result.cache_key textures) [
  | none ↦ (textures, gl)
  | some tex ↦
      let (loaded, after) = upload_decoded names tex result.pixels gl in
      (set_entry result.cache_key loaded textures, after)
]

unfoldable pub deliver :
    {D : Type 0}
    → (ℕ → ℕ)
    → List (Done DecodedPixels)
    → List (Text × LayerTexture D) × Gl
    → List (Text × LayerTexture D) × Gl
unfolding deliver_one
deliver names [] s = s
deliver names (result ∷ results) s = deliver names results (deliver_one names result s)

unfoldable pub clear_cache : {D : Type 0} → Provider D → Provider D
clear_cache p = record p { textures = [] }

module _ {D : Type 0} (F : Double D) (round_byte : D → ℕ) (stb : Bytes → Option LoadedImage)
    (names : ℕ → ℕ) (hw : ℕ) (disk : Text → Option Bytes) (join : Text → Text → Text) where
  -- `LayerTexture{}`
  unfoldable pub new_texture : LayerTexture D
  new_texture = record {
    status = not_started;
    id = 0;
    id_inv = 0;
    width = pos 0;
    height = pos 0;
    orig_width = pos 0;
    orig_height = pos 0;
    is_color = false;
    grayscale = [];
    last_color_r = F.neg F.one;
    last_color_g = F.neg F.one;
    last_color_b = F.neg F.one;
  }

  -- `textures_[cache_key]`
  unfoldable pub texture_at : Text → List (Text × LayerTexture D) → LayerTexture D
  unfolding find_entry new_texture
  texture_at key textures = elim (find_entry key textures) [ none ↦ new_texture | some tex ↦ tex ]

  -- `trigger_load`, away from the browser.
  unfoldable pub trigger_load : Text → Text → D → D → D → Provider D → Provider D
  unfolding read_from submit
  trigger_load key path tr tg tb p =
      let job : Job D = record {
        cache_key = key;
        fetch = read_from disk join p.blobs p.root path;
        tr = tr;
        tg = tg;
        tb = tb;
      } in
      record p { loader = submit hw (decode_pixels F round_byte stb) no_pixels job p.loader }

  unfoldable pub acquire : Text → Text → D → D → D → Provider D → Provider D
  unfolding texture_at set_entry trigger_load
  acquire key path tr tg tb p =
      let tex = texture_at key p.textures in
      elim tex.status [
        | not_started ↦
            trigger_load key path tr tg tb
              (record p { textures = set_entry key (record tex { status = loading }) p.textures })
        | _ ↦ record p { textures = set_entry key tex p.textures }
      ]

  unfoldable pub pump : Provider D → Provider D
  unfolding deliver drain
  pump p =
      let (textures, gl) = deliver names p.loader.shared.done (p.textures, p.gl) in
      record p {
        textures = textures;
        gl = gl;
        loader = drain hw (decode_pixels F round_byte stb) no_pixels p.loader;
      }

  -- `StbTextureProvider(root)`, then `set_blobs`.
  unfoldable pub new_provider : Text → Option (List (Text × Bytes)) → Provider D
  new_provider root blobs = record {
    textures = [];
    root = root;
    blobs = blobs;
    loader = new_loader hw (decode_pixels F round_byte stb) no_pixels;
    gl = record { generated = 0; calls = [] };
  }

  -- What the render thread and the workers do with a provider, in any order.
  pub data Session : Provider D → Type 0 where
    opened :
        (root : Text) (blobs : Option (List (Text × Bytes))) → Session (new_provider root blobs)
    acquired :
        {p : Provider D} (key path : Text) (tr tg tb : D)
        → Session p
        → Session (acquire key path tr tg tb p)
    pumped : {p : Provider D} → Session p → Session (pump p)
    cleared : {p : Provider D} → Session p → Session (clear_cache p)
    worked :
        {p : Provider D} (after : Loader D DecodedPixels)
        → WorkerStep hw (decode_pixels F round_byte stb) no_pixels p.loader after
        → Session p
        → Session (record p { loader = after })
