-- ===== src/App.antt =====
-- The application around the editor: app/main.cpp. Its globals are the fields of records that the
-- functions take and return; what the browser or the window system tells is an argument.
pub mod Ids
pub mod Source
pub mod Json
pub mod Session
pub mod Saved
pub mod Listing
