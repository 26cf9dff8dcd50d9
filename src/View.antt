-- ===== src/View.antt =====
-- The editor's canvas tools: view/editor_view.cpp. What ImGui tells (the mouse, the keys) and what is
-- hit under the mouse are arguments, and the calls that tell other editors of an edit are left out.
pub mod Split
pub mod Selection
pub mod Params
pub mod Align
pub mod Mutex
