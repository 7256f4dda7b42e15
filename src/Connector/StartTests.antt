-- ===== src/Connector/StartTests.antt =====
-- The start of a connector on a concrete configuration.
use airpc.Prelude.{
  ◌≡◌, ◌⊎◌, refl, true, [], ◌∷◌, text, text_eq, ok, err, lookup, insert, erase, if◌then◌else◌,
}
use airpc.Config.Sample.{parser, db, accepted}
use airpc.Config.Tls.{Files}
use airpc.Config.Tokens.{open_subject, queue_group}
use airpc.Connector.{http_routes, stream_routes}
use airpc.Connector.Starting.{Outside, StartError, start_connector, subscribe_failed}
use airpc.Connector.Served.{IsReleased}
use airpc.Connector.Settings.{IsStarted, start_connector-IsStarted}

abbrev files : Files
files = record {
  load_key_pair = λ cert key. ok cert;
  read_file = λ path. ok path;
  has_certificates = λ pem. true;
}

-- NATS refuses one subject.
abbrev world : Outside
world = record {
  parse = parser;
  connect = λ url name creds. ok tt;
  listen = λ address. ok tt;
  files = files;
  subscribe =
      λ subs s. if text_eq s.subject (open_subject (text "no")) then err (text "denied") else ok tt;
}

unfoldable starting : Unit {0}
unfolding start_connector http_routes stream_routes text_eq lookup insert erase open_subject
    queue_group
starting = tt

denied_test :
    ((start_connector world
        (record accepted { routes = db ∷ record db { name = text "no" } ∷ [] })
        (text "c1")).0
      ≡ err (subscribe_failed (text "denied")))
    × ((start_connector world
          (record accepted { routes = db ∷ record db { name = text "no" } ∷ [] })
          (text "c1")).1.subscriptions
        ≡ [])
unfolding starting
denied_test = (refl, refl)

start_connector-IsStarted_example :
    ((e : StartError) × ((start_connector world accepted (text "c1")).0 ≡ err e)
      × IsReleased (start_connector world accepted (text "c1")).1)
    ⊎ (((start_connector world accepted (text "c1")).0 ≡ ok tt)
        × IsStarted world accepted (text "c1") (start_connector world accepted (text "c1")).1)
start_connector-IsStarted_example = start_connector-IsStarted world accepted (text "c1")
