-- ===== src/Connector/Tests.antt =====
-- The connector's answers at concrete inputs.
use airpc.Prelude.{◌≡◌, refl, true, false, List, [], ◌∷◌, ◌++◌, none, some, Text, text, lookup, pos}
use airpc.Url.{Url, UrlParser}
use airpc.Config.Shape
use airpc.Config.Tokens.{mode_tcp, valid_mode}
use airpc.Tunnel.{OpenRequest, version, kind_tcp, kind_websocket, err_tunnel_not_connected}
use airpc.Tunnel.Sample.{tunnel}
use airpc.Connector.{StreamRoute, target_url, trim_slashes}
use airpc.Tunnel.{Frame, frame_open, new_frame}
use airpc.Tunnel.Sample.{frame_codec}
use airpc.Link.{new_link, handle_message}
use airpc.Connector.Streams.{handle_open, on_open}
use airpc.Connector.Opening.{Opened, Refused, handle_message-opens}
use airpc.Prelude.{◌⊎◌, text_eq, ℕ, zero, suc, get_elem?, modify, arith}
use airpc.Connector.Backoff.{context_ended, dial_failed, dialled, dropped, waiting, stopped, run}
use airpc.Connector.Inflight.{
  Inflight, no_calls, track, finish, cancel, Started, InFlight, Reachable, started, finished, fresh,
  after,
}
use airpc.Connector.Kept.{running-cancellable}
use airpc.Connector.Opens.{refusal, acceptance, open_answer, handle_open_message}

abbrev db : Shape.Route
db = record {
  name = text "db";
  mode = mode_tcp;
  public_host = [];
  public_prefix = [];
  public_path = [];
  listen = text ":5432";
  target = text "db:5432";
  max_inline_request_bytes = pos 0;
  max_inline_response_bytes = pos 0;
  max_request_body_bytes = pos 0;
  max_response_body_bytes = pos 0;
  timeout = pos 0;
  idle_timeout = pos 0;
  forwarded_headers = [];
  tls = false;
}

abbrev routes : List (Text × StreamRoute)
routes = (text "db", record { cfg = db; target = none }) ∷ []

abbrev asking : OpenRequest
asking = record {
  version = version;
  request_id = text "r1";
  session_id = text "r1";
  route = text "db";
  kind = kind_tcp;
  path = [];
  deadline_unix_ms = pos 9;
}

abbrev asking_bytes : Text
asking_bytes =
    1
    ∷ 0
    ∷ 2
    ∷ (text "r1" ++ 2 ∷ (text "r1" ++ 2 ∷ (text "db" ++ 3 ∷ (text "tcp" ++ 0 ∷ 9 ∷ 0 ∷ []))))

unfoldable connector : Unit {0}
unfolding tunnel open_answer handle_open_message lookup target_url trim_slashes
connector = tt

abbrev backend : Url
backend = record {
  scheme = text "http";
  host = text "api";
  has_user = false;
  path = text "/v1/";
  raw_query = [];
}

-- A parser that takes the whole text as the path.
abbrev parser : UrlParser
parser s = some (record { scheme = []; host = []; has_user = false; path = s; raw_query = [] })

answers_test :
    (open_answer (text "c1") routes true asking ≡ acceptance (text "r1") (text "c1"))
    × (open_answer (text "c1") routes false asking ≡ refusal (text "r1") err_tunnel_not_connected)
    × (open_answer (text "c1") routes true (record asking { kind = kind_websocket })
        ≡ refusal (text "r1") (text "route is not configured on connector"))
    × (target_url parser backend (text "/users")
        ≡ some (record backend { path = text "/v1/users" }))
unfolding connector
answers_test = (refl, refl, refl, refl)

abbrev open_frame : Frame
open_frame = record (new_frame frame_open (text "s1")) { route = text "db"; kind = kind_tcp }

abbrev open_bytes : Text
open_bytes =
    1
    ∷ 0
    ∷ 4
    ∷ (text "open"
        ++ 2 ∷ (text "s1" ++ 2 ∷ (text "db" ++ 3 ∷ (text "tcp" ++ 0 ∷ 0 ∷ 0 ∷ 0 ∷ 0 ∷ 0 ∷ 0 ∷ []))))

handle_message-opens_example :
    Opened routes open_frame new_link
      (handle_message frame_codec true (on_open frame_codec routes) (true, open_bytes) new_link)
      (handle_open frame_codec routes open_frame new_link).1
    ⊎ Refused frame_codec routes open_frame new_link
        (handle_message frame_codec true (on_open frame_codec routes) (true, open_bytes) new_link)
        (handle_open frame_codec routes open_frame new_link).1
unfolding connector valid_mode text_eq
handle_message-opens_example =
    handle_message-opens frame_codec routes true open_bytes open_frame new_link refl refl (refl, tt)

backoff_test :
    (run (waiting 0) (dial_failed ∷ dial_failed ∷ dial_failed ∷ []) ≡ waiting 1000000000)
    × (run (waiting 0) (dial_failed ∷ dialled ∷ dropped 30000000001 ∷ []) ≡ waiting 0)
    × (run (waiting 0) (dialled ∷ context_ended ∷ dial_failed ∷ []) ≡ stopped)
unfolding run
backoff_test = (refl, refl, refl)

abbrev one_call : Inflight
one_call = (track (text "r1") no_calls).1

abbrev two_calls : Inflight
two_calls = (track (text "r2") one_call).1

-- The first call ends while the second runs.
abbrev second_left : Inflight
second_left = finish (text "r1") 0 two_calls

abbrev first_in_flight : Started
first_in_flight = some (text "r1") ∷ []

second_is_free : (p : ℕ) → InFlight first_in_flight p (text "r2") → ⊥
second_is_free zero h = absurd (ground arith)
second_is_free (suc p) h = absurd (ground arith)

history : Reachable second_left (none ∷ some (text "r2") ∷ [])
unfolding track finish modify
history =
    after {c = two_calls} {calls = some (text "r1") ∷ some (text "r2") ∷ []}
      (after {c = one_call} {calls = first_in_flight}
        (after fresh (started (text "r1") (λ p h. absurd (ground (arith, h)))))
        (started (text "r2") second_is_free))
      (finished (text "r1") 0 refl)

running-cancellable_example :
    (id : Text) × InFlight (none ∷ some (text "r2") ∷ []) 1 id
    × (get_elem? (cancel id second_left).contexts 1 ≡ some true)
unfolding track finish modify
running-cancellable_example =
    running-cancellable second_left (none ∷ some (text "r2") ∷ []) 1 history refl
