-- ===== src/Server/Dispatch.antt =====
-- From the bytes of a request to server/buildings_api.cpp to its handler.
use imrmf_map_editor.Base.{◌++◌}
use imrmf_map_editor.Base.Text.{Text, codes}
use imrmf_map_editor.Building.Double.{Double}
use imrmf_map_editor.Yaml.{Yaml}

-- A post as a client sends it, as far as it comes with the first bytes: to the map `id`, with the tag
-- `mid` in quotes, and a body of the length `digits`, of which `first` is the beginning.
unfoldable pub post_request : Text → Text → Text → Text → Text
post_request id mid digits first =
    codes "POST /buildings/"
    ++ (id
        ++ (codes " HTTP/1.1\r\nIf-Match: \""
            ++ (mid
                ++ (codes "\"\r\nContent-Length: " ++ (digits ++ (codes "\r\n\r\n" ++ first))))))
