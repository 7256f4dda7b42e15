-- ===== src/Observer.antt =====
-- internal/grpcobs/observer.go: what the observer of a relayed gRPC connection records. The bytes reach
-- its two parsers through feeds (Feed). The HTTP/2 framer is a library, so a parser is given the results
-- of `ReadFrame`, one after the other; the results of both parsers are one list of events.
use airpc.Prelude.{
  ℕ, Bool, true, false, ◌&&◌, ◌||◌, not, Option, none, some, List, [], ◌∷◌, ◌++◌, ◌-◌, Text, text,
  text_eq, length, all, leb, ◌==◌, is_empty, elem, if◌then◌else◌, split_first, ℤ, pos, ltb_ℤ, leb_ℤ,
  parse_int,
}
pub mod Feed
pub mod Refines
pub mod Prefaces
pub mod Labels
pub mod Histories
pub mod Rpcs
pub mod Delivery
mod Tests

-- `http2.Frame`, as the type switches of the parsers tell them apart: of the headers the stream, the
-- pseudo header "path" and the fields.
pub data H2Frame : Type 0 where
  meta_headers : ℕ → Text → List (Text × Text) → H2Frame
  rst_stream : ℕ → H2Frame
  other_frame : H2Frame

pub record RpcStart : Type 0 where
  pub method : Text
  pub start : ℕ

-- One observation of the metrics: the labels `method` and `code`, and the duration.
pub record Rpc : Type 0 where
  pub method : Text
  pub code : Text
  pub duration : ℕ

-- The map of RPCs in flight, the parsers that still run, and what is recorded, in order.
pub record Observer : Type 0 where
  pub client_runs : Bool
  pub backend_runs : Bool
  pub started : List (ℕ × RpcStart)
  pub recorded : List Rpc

unfoldable pub is_service_char : ℕ → Bool
is_service_char c =
    leb b'A' c && leb c b'Z'
    || leb b'a' c && leb c b'z'
    || leb b'0' c && leb c b'9'
    || c == b'_'
    || c == b'.'

unfoldable pub is_method_char : ℕ → Bool
is_method_char c =
    leb b'A' c && leb c b'Z' || leb b'a' c && leb c b'z' || leb b'0' c && leb c b'9' || c == b'_'

-- `^/[A-Za-z0-9_.]{1,200}/[A-Za-z0-9_]{1,100}$`: the second slash is the first behind the service, since
-- the class of its characters has no slash.
unfoldable pub method_pattern : Text → Bool
unfolding is_service_char is_method_char
method_pattern [] = false
method_pattern (c ∷ s) = c == b'/' && elim (split_first b'/' s) [
  | some (service, method) ↦
      not (is_empty service)
      && leb (length service) 200
      && all is_service_char service
      && not (is_empty method)
      && leb (length method) 100
      && all is_method_char method
  | none ↦ false
]

unfoldable pub method_label : Text → Text
unfolding method_pattern
method_label path = if method_pattern path then path else text "other"

-- `strconv.Atoi` succeeds with a number from 0 to 16.
unfoldable pub status_code : Text → Text
status_code value = elim (parse_int value) [
  | some n ↦ if leb_ℤ (pos 0) n && leb_ℤ n (pos 16) then value else text "invalid"
  | none ↦ text "invalid"
]

-- `started[id]`
unfoldable pub lookup_rpc : ℕ → List (ℕ × RpcStart) → Option RpcStart
lookup_rpc k [] = none
lookup_rpc k ((j, v) ∷ m) = if j == k then some v else lookup_rpc k m

-- `delete(started, id)`
unfoldable pub delete_rpc : ℕ → List (ℕ × RpcStart) → List (ℕ × RpcStart)
delete_rpc k [] = []
delete_rpc k ((j, v) ∷ m) = if j == k then delete_rpc k m else (j, v) ∷ delete_rpc k m

-- `started[id] = v`
unfoldable pub start_rpc : ℕ → RpcStart → List (ℕ × RpcStart) → List (ℕ × RpcStart)
unfolding delete_rpc
start_rpc k v m = (k, v) ∷ delete_rpc k m

unfoldable pub finish : ℕ → ℕ → Text → Observer → Observer
unfolding lookup_rpc delete_rpc
finish now id code o =
    let o' = record o { started = delete_rpc id o.started } in
    elim (lookup_rpc id o.started) [
      | some rpc ↦
          let r : Rpc = record { method = rpc.method; code = code; duration = now - rpc.start } in
          record o' { recorded = o.recorded ++ r ∷ [] }
      | none ↦ o'
    ]

-- One round of the loop of `parseClient`.
unfoldable pub client_frame : ℕ → Option H2Frame → Observer → Observer
unfolding method_label start_rpc
client_frame now none o = record o { client_runs = false }
client_frame now (some (meta_headers id path fields)) o =
    let s : RpcStart = record { method = method_label path; start = now } in
    record o { started = start_rpc id s o.started }
client_frame now (some (rst_stream id)) o = o
client_frame now (some other_frame) o = o

-- The field that ends the RPC: the first named grpc-status.
unfoldable pub grpc_status : List (Text × Text) → Option Text
grpc_status [] = none
grpc_status ((name, value) ∷ fs) =
    if text_eq name (text "grpc-status") then some value else grpc_status fs

-- One round of the loop of `parseBackend`.
unfoldable pub backend_frame : ℕ → Option H2Frame → Observer → Observer
unfolding finish grpc_status status_code
backend_frame now none o = record o { backend_runs = false }
backend_frame now (some (meta_headers id path fields)) o = elim (grpc_status fields) [
  | some value ↦ finish now id (status_code value) o
  | none ↦ o
]
backend_frame now (some (rst_stream id)) o = finish now id (text "canceled") o
backend_frame now (some other_frame) o = o

-- A result of `ReadFrame` in one of the parsers, at a time.
pub data Event : Type 0 where
  client_read : ℕ → Option H2Frame → Event
  backend_read : ℕ → Option H2Frame → Event

-- A parser that has returned reads nothing.
unfoldable pub step : Observer → Event → Observer
unfolding client_frame backend_frame
step o (client_read now f) = if o.client_runs then client_frame now f o else o
step o (backend_read now f) = if o.backend_runs then backend_frame now f o else o

unfoldable pub observe : Observer → List Event → Observer
unfolding step
observe o [] = o
observe o (e ∷ es) = observe (step o e) es

-- `New`, with what the check of the client's preface has given.
abbrev pub new_observer : Bool → Observer
new_observer preface_read = record {
  client_runs = preface_read;
  backend_runs = true;
  started = [];
  recorded = [];
}
