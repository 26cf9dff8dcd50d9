-- ===== src/Tests.antt =====
-- Concrete runs of the model, and an instance of each theorem that has hypotheses.
mod Chunks
mod Libraries
mod Maps
mod Nodes
mod Requests
mod Histories
mod Bundles
mod Ui
mod Textures
mod Images
mod Providers
mod Lanes
mod Canvas
mod App
mod Editing
