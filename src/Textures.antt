-- ===== src/Textures.antt =====
-- Textures of floor plans and layers: canvas/texture_loader.hpp, canvas/texture_loader.cpp,
-- canvas/texture_decode.cpp, canvas/stb_texture_provider.cpp and the provider of canvas/canvas.cpp.
pub mod Url
pub mod Loader
pub mod Decode
pub mod Provider
