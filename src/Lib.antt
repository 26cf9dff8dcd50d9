-- ===== src/Lib.antt =====
-- The map editor: its model of a map and its YAML, its edit history, its asset paths, its bundles,
-- the server's API of maps, the loading of its textures, the session of the application, and parts of its
-- user interface.
--
-- The editor holds a map (`Building`, model/building.hpp) and edits it. `EditHistory`
-- (model/edit_history.cpp) keeps the states before and after for a session without a server. A map
-- names images by path (model/asset_paths.cpp), and `collect_bundle`, `write_bundle` and
-- `read_bundle` (model/map_bundle.cpp) put a map and its images into one archive and take them out.
-- model/yaml_io.cpp reads and writes the YAML of a map, and server/buildings_api.cpp serves it. The
-- canvas draws the images of a map as textures: a provider (canvas/stb_texture_provider.cpp) keeps
-- them by key and has the loader (canvas/texture_loader.cpp) fetch and decode them on threads.
-- The application (app/main.cpp) holds the open map with its history, records edits, takes over what other
-- editors do to the shared document, and talks to the server.
--
-- Files:
-- - Base and below: numbers, lists, texts, integers and words that the other modules share.
-- - Building: the types of model/building.hpp. The four edge types are one record, `Edge`. The number
--   type (`double`) and the type of YAML nodes are parameters.
-- - Building/Delete: `delete_vertex`, `delete_lane`, `lanes_referencing_vertex` of
--   model/building.cpp. `int` is ℤ: an index is within a vector, so no operation overflows. Below it,
--   Joins says what a deletion keeps and Bounds that indices stay in range.
-- - Building/Double: an interface of `double` and <cmath>, of which nothing is assumed. Building/Scale
--   and Building/Frames: the other functions of model/building.cpp over it, the scale of a level and
--   the transforms between levels; Building/Scale/Snapshot and Building/Frames/Matched
--   have the theorems.
-- - Yaml: model/yaml_io.cpp over `Yaml`, an interface of yaml-cpp, with `IsFaithful` for what round
--   trips rely on. Read and Levels are the functions up to `parse_building`, Write those up to
--   `serialize_building`; an exception is `none`. Edges has the round trips.
-- - Server: server/buildings_api.cpp. Protocol has the texts, Handlers the handlers and the dispatch
--   over a store from ids to files. Store says what a post does to the store, Dispatch how a request
--   reaches its handler; the modules below Protocol and Handlers have the lemmas of Dispatch. The parser's
--   message is a parameter.
-- - History: the class of model/edit_history.cpp. A deque is a list; `size_t` is a number below
--   2 ^ 64, and sums and differences wrap. The footprint of a map is a parameter of the class, and
--   History/Footprint models the function that fills it, with the object sizes as a parameter. Trim,
--   Valid, Timeline, Undoable and Reach hold the lemmas and theorems.
-- - Paths: model/asset_paths.cpp. A path is a list of character codes, and `parts` is the iteration
--   of a POSIX `std::filesystem::path`. Paths/Escape has the reference, a walk through directories.
-- - Bundle: model/map_bundle.cpp. A `BundleError` is an `Error`, a function that throws returns a
--   `Result`. Interface has the parameters: `Zip` (miniz), `Json` (nlohmann::json) and `Codec` (the
--   YAML reader and writer). Names, Collect, Write and Read follow the file; the modules below them
--   have the theorems.
-- - Bundle/Codec: the functions of Yaml as the `Codec` of the bundles.
-- - Textures/Loader: canvas/texture_loader.cpp. What a thread does under the mutex is one step, and a
--   step relation interleaves the workers with the calls of the render thread. The loader records what
--   was submitted and applied. Parts, Invariant and Delivery have the lemmas and theorems.
-- - Textures/Decode: canvas/texture_decode.cpp, with `stb_image` and the rounding as parameters and the
--   calls of GL as a list. Pixels and Retint have the theorems.
-- - Textures/Provider: the class of canvas/canvas.cpp and the provider of
--   canvas/stb_texture_provider.cpp over the two. Acquire, Deliveries, Settled and Sources have the
--   lemmas and theorems.
-- - Textures/Url: the addresses that canvas/http_texture_provider.cpp builds.
-- - Canvas/Fill: the ear clipping of canvas/canvas.cpp, with Triangles and Enough below it. A `float` is a
--   value of a parameter type, and a read past the end of a vector is `none`. Canvas/Marks: the colors and
--   badges of vertices and lanes in the same file.
-- - App: app/main.cpp. Source is `read_map_source`, Json the fields of JSON texts and the request to mount
--   a store, Saved the session that the browser keeps, Listing the list of maps and the addresses, Ids the ids, and Session the open map: commits,
--   undo, the mirror of the shared document and the clamping of indices. Below them, Pushable, Fields,
--   ReadBack, Restored, Buildings, Clamp, Mirror and Undo have the lemmas and theorems. The globals of the file are
--   the fields of a record.
-- - Ui/Notifications: ui/notifications.hpp, and Ui/Windows: ui/window_manager.hpp. What ImGui tells (the
--   time, the mouse) is an argument.
-- - View/Split: the lane tool of view/editor_view.cpp. A drag splits the lanes that it crosses; below,
--   Tool has the clicks, Exact a description of a drag without indices (Pieces has its lemmas), and
--   Bounds the invariant (Fits has its lemmas).
-- - View/Selection: the deletion of selected lanes in the same file, with its theorem in Exact.
-- - View/Params: the parameters that the editor knows and the defaults that it gives, View/Align: the
--   alignment of vertices, View/Mutex: the mutex groups, all of view/editor_view.cpp; Kept, Exact and Counts
--   have the theorems.
-- - Tests: runs on sample data, with toy libraries that meet the hypotheses.
--
-- Every loop is structural: over a list, or over the count of the entries of the archive.
-- `to_string` divides by ten on fuel, the number itself plus one, which exceeds its count of digits.
--
-- `detect_color` loops on fuel, the count of the pixels, which its steps of at least one use up.
-- The ear clipping has a bound of 20000 rounds in the source; each round takes a point out, so it is enough
-- for 20003 points.
--
-- Not modelled: drawing (the rest of canvas/ and ui/), libcurl's requests, the dialogs, the connection
-- phases and the start of the application (app/), the editor's other tools and its panels (view/), the
-- Rust server, the styles of YAML nodes, the sharing of nodes between a map and its YAML, and
-- `relativize_asset_path`.
pub mod Base
pub mod Building
pub mod History
pub mod Paths
pub mod Yaml
pub mod Bundle
pub mod Server
pub mod Ui
pub mod Textures
pub mod View
pub mod Canvas
pub mod App
mod Tests
