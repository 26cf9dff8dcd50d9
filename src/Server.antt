-- ===== src/Server.antt =====
-- The buildings API: server/buildings_api.hpp and server/buildings_api.cpp. The directory of the maps
-- is a store from building ids to the texts of their files; the write to a temporary file and its
-- renaming are one step of it, which is what they are for. The connection is a list of the chunks
-- that `read` gives.
pub mod Protocol
pub mod Handlers
pub mod Store
pub mod Dispatch
