-- ===== src/Server/Handlers.antt =====
-- The handlers of server/buildings_api.cpp and their dispatch.
pub mod Request
use imrmf_map_editor.Base.{
  ℕ, Bool, true, false, not, ◌&&◌, ◌||◌, Option, none, some, List, [], ◌∷◌, ◌++◌, length, take, ltb,
  if◌then◌else◌,
}
use imrmf_map_editor.Base.Text.{until, Text, codes, text_eq, is_empty, starts_with}
use imrmf_map_editor.Building.{find}
use imrmf_map_editor.Building.Double.{Double}
use imrmf_map_editor.Yaml.{Yaml, put}
use imrmf_map_editor.Yaml.Levels.{parse_building}
use imrmf_map_editor.Server.Protocol.{
  etag_of, url_decode, building_id_safe, http_response, header_value, split_on, stoul, crlf,
}

-- The files of the maps by the ids of the buildings.
abbrev pub Store : Type 0
Store = List (Text × Text)

-- The chunks that `read` gives, of which an empty one is an end or an error.
unfoldable pub read_until : List Text → Text → ℕ → Option Text
read_until [] accum target = if ltb (length accum) target then none else some accum
read_until (chunk ∷ chunks) accum target =
    let more = read_until chunks (accum ++ chunk) target in
    if not (ltb (length accum) target) then some accum else if is_empty chunk then none else more

unfoldable pub handle_building_get : Store → Text → Text
unfolding building_id_safe http_response etag_of
handle_building_get store id = elim (building_id_safe id) [
  | false ↦ http_response 400 (codes "Bad Request") [] (codes "invalid building id")
  | true ↦ elim (find id store) [
    | none ↦ http_response 404 (codes "Not Found") [] (codes "no such building")
    | some body ↦
        http_response 200 (codes "OK")
          ((codes "Content-Type", codes "text/yaml") ∷ (codes "ETag", etag_of body) ∷ []) body
  ]
]

-- `what` is the message of the exception that a text meets in the parser.
module _ {D : Type 0} (Y : Yaml D) (F : Double D) (what : Text → Text) where
  unfoldable pub handle_building_post : Store → Text → Text → Text → Store × Text
  handle_building_post store id if_match body = elim (building_id_safe id) [
    | false ↦ (store, http_response 400 (codes "Bad Request") [] (codes "invalid building id"))
    | true ↦ elim (find id store) [
      | none ↦ (store, http_response 404 (codes "Not Found") [] (codes "no such building"))
      | some current ↦ elim (not (is_empty if_match) && not (text_eq if_match (etag_of current))) [
        | true ↦ (
          store,
          http_response 409 (codes "Conflict") ((codes "ETag", etag_of current) ∷ [])
              (codes "stale etag"),
        )
        | false ↦ elim (parse_building Y F body) [
          | none ↦ (
            store,
            http_response 400 (codes "Bad Request") [] (codes "yaml parse failed: " ++ what body),
          )
          | some map ↦ (
            put id body store,
            http_response 200 (codes "OK") ((codes "ETag", etag_of body) ∷ []) [],
          )
        ]
      ]
    ]
  ]

  abbrev pub options_prefix : Text
  options_prefix = codes "OPTIONS /buildings/"

  abbrev pub get_prefix : Text
  get_prefix = codes "GET /buildings/"

  abbrev pub post_prefix : Text
  post_prefix = codes "POST /buildings/"

  unfoldable pub is_buildings_request : Text → Bool
  unfolding starts_with
  is_buildings_request request =
      starts_with options_prefix request
      || starts_with get_prefix request
      || starts_with post_prefix request

  -- What stands after "/buildings/" in the path, up to a query.
  id_in_path : Text → Text
  unfolding starts_with until url_decode split_on
  id_in_path path_with_query =
      if starts_with (codes "/buildings/") path_with_query
      then elim (split_on (codes "/buildings/") path_with_query) [
        | none ↦ []
        | some p ↦ url_decode (until b'?' p.1).0
      ]
      else []

  -- The id between the first two blanks of the request.
  unfoldable pub requested_id : Text → Text
  unfolding until id_in_path
  requested_id request = elim (until b' ' request).1 [
    | none ↦ []
    | some rest ↦ elim (until b' ' rest).1 [ none ↦ [] | some _ ↦ id_in_path (until b' ' rest).0 ]
  ]

  -- The headers of a request and what has come of its body.
  abbrev pub parts_of : Text → Text × Text
  parts_of request = elim (split_on (crlf ++ crlf) request) [ none ↦ (request, []) | some p ↦ p ]

  unfoldable pub content_length_of : Text → Option ℕ
  unfolding header_value stoul
  content_length_of headers =
      let value = header_value headers (codes "Content-Length") in
      if is_empty value then some 0 else stoul value

  unfoldable pub dispatch_post : List Text → Text → Store → Option (Store × Text)
  unfolding split_on header_value content_length_of read_until handle_building_post requested_id
  dispatch_post chunks request store = elim (content_length_of (parts_of request).0) [
    | none ↦ none
    | some content_length ↦ elim (read_until chunks (parts_of request).1 content_length) [
      | none ↦ some (store, http_response 400 (codes "Bad Request") [] (codes "short body"))
      | some body ↦ some (
          handle_building_post store (requested_id request)
            (header_value (parts_of request).0 (codes "If-Match")) (take content_length body))
    ]
  ]

  -- `none` where `std::stoul` throws; an empty response to what is no request of this API.
  unfoldable pub dispatch_buildings_request : List Text → Text → Store → Option (Store × Text)
  unfolding starts_with requested_id handle_building_get dispatch_post is_buildings_request
  dispatch_buildings_request chunks request store =
      if not (is_buildings_request request)
      then some (store, [])
      else if starts_with options_prefix request
      then some (store, http_response 204 (codes "No Content") [] [])
      else if starts_with get_prefix request
      then some (store, handle_building_get store (requested_id request))
      else dispatch_post chunks request store
