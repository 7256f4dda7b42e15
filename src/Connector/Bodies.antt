-- ===== src/Connector/Bodies.antt =====
-- The goroutine of `streamResponse` in internal/connector/proxy.go that copies the body of a backend
-- response into a session: the frames that it sends while the session lives.
use airpc.Prelude.{Bool, true, false, List, [], ◌∷◌, Text, text, is_empty, if◌then◌else◌}
use airpc.Tunnel.{Frame, data_binary}
use airpc.Session.{data_of, eof_of, close_of, error_of}

-- The chunks are what the reads yield; `clean` tells whether the last error is `io.EOF`.
unfoldable pub copy_body : Text → List Text → Bool → List Frame
copy_body id [] true = eof_of id ∷ close_of id ∷ []
copy_body id [] false = error_of id (text "backend body read failed") ∷ []
copy_body id (chunk ∷ chunks) clean =
    let rest = copy_body id chunks clean in
    if is_empty chunk then rest else data_of id data_binary chunk ∷ rest
