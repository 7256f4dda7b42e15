-- ===== src/Edge/StartTests.antt =====
-- The start of the edge on a concrete configuration.
use airpc.Prelude.{
  ◌≡◌, refl, true, false, none, some, [], ◌∷◌, text, text_eq, length, All, ok, err, if◌then◌else◌,
}
use airpc.Config.Shape.{Config}
use airpc.Config.Checks.{config_validate}
use airpc.Config.Sample.{parser, db, accepted, checks}
use airpc.Config.Tls.{Files, server_tls, data_tls}
use airpc.Connector.Starting
use airpc.Edge.Admission.{admit, admitted}
use airpc.Edge.Dialling.{reaching, dial_request-admit}
use airpc.Edge.{tcp_routes}
use airpc.Edge.Server.{Outside, Server, start, close, route_failed}
use airpc.Edge.Startup.{IsClean, start-IsClean, with_metrics}
use airpc.Edge.Encrypted.{HasTls, start-HasTls}

-- Every file has its path as contents, and every address but one can be listened on.
abbrev files : Files
files = record {
  load_key_pair = λ cert key. ok cert;
  read_file = λ path. ok path;
  has_certificates = λ pem. true;
}

abbrev world : Outside
world = record {
  connect = λ url creds. ok tt;
  listen = λ held address. if text_eq address (text ":9") then err (text "in use") else ok address;
  files = files;
}

abbrev tls_config : Config
tls_config = record accepted {
  edge = record {
    http_addr = text ":80";
    data_addr = text ":81";
    metrics_addr = [];
    tls = some (record {
      cert_file = text "c.pem";
      key_file = text "k.pem";
      client_ca_file = text "ca.pem";
    });
  };
  routes = record db { tls = true } ∷ [];
}

unfoldable starting : Unit {0}
unfolding start tcp_routes close text_eq server_tls data_tls
starting = tt

-- The server of the configuration.
running : Server
unfolding starting
running = elim (start world tls_config).0 [ ok s ↦ s | err e ↦ none_such ]
  where
    none_such : Server
    none_such = record {
      public = record { address = []; tls = none };
      tunnels = record { address = []; tls = none };
      tcp_listen = [];
      metrics_addr = [];
      token = [];
      http_table = [];
      ws_table = [];
    }

runs : (start world tls_config).0 ≡ ok running
unfolding starting running
runs = refl

taken_test :
    start world (record accepted { routes = db ∷ record db { listen = text ":9" } ∷ [] })
    ≡ (err (route_failed (text "db") (text "in use")), [])
unfolding starting
taken_test = refl

start-IsClean_example :
    IsClean
      (length (tcp_routes tls_config.routes))
      (with_metrics world tls_config)
      (start world tls_config)
start-IsClean_example = start-IsClean world tls_config

valid : config_validate parser tls_config ≡ ok tt
unfolding checks
valid = refl

start-HasTls_example : All (HasTls files tls_config.edge.tls) running.tcp_listen
start-HasTls_example = start-HasTls parser world tls_config running valid runs

abbrev outside : Starting.Outside
outside = record {
  parse = parser;
  connect = λ url name creds. ok tt;
  listen = λ address. ok tt;
  files = files;
  subscribe = λ subs s. ok tt;
}

-- A parser that knows the path of tunnels.
abbrev tunnel_outside : Starting.Outside
tunnel_outside = record outside {
  parse = λ s. some (record {
    scheme = text "wss";
    host = text "edge";
    has_user = false;
    path = text "/_airpc/data";
    raw_query = [];
  });
}

abbrev client : Starting.TunnelClient
client = record {
  id = text "c1";
  target = record {
    scheme = text "wss";
    host = text "edge";
    has_user = false;
    path = text "/_airpc/data";
    raw_query = [];
  };
  token = [];
  tls = none;
}

dial_request-admit_example :
    admit [] (reaching (Starting.dial_request (λ k. []) client)) ≡ admitted (text "c1")
unfolding checks Starting.start_tunnel_client
dial_request-admit_example =
    dial_request-admit tunnel_outside accepted (text "c1") client (λ k. []) refl refl refl
