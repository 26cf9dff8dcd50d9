-- ===== src/Canvas.antt =====
-- What the canvas draws: canvas/canvas.cpp.
pub mod Fill
pub mod Marks
