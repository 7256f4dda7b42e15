-- ===== src/Edge/Dialling.antt =====
-- The dial of a connector (internal/connector/data.go) at the tunnel handler of the edge
-- (internal/edge/data.go).
use airpc.Prelude.{
  ◌≡◌, inl, inr, refl, false, [], ◌∷◌, Text, text, text_eq, is_empty, ok, arith, Option-cases,
  Result-cases,
}
use airpc.Config.Shape.{Config}
use airpc.Config.Tokens.{validate_subject_token}
use airpc.Config.Subjects.{IsSubjectToken, validate_subject_token_iff}
use airpc.Connector.Starting.{
  Outside, TunnelClient, Dialled, dial_request, start_tunnel_client, tunnel_tls,
}
use airpc.Edge.Admission.{TunnelRequest, admitted, admit, connector_id_of, MayConnect, admit_iff}

-- The request that reaches the edge.
abbrev pub reaching : Dialled → TunnelRequest
reaching d = record { path = d.path; query = d.query; authorization = d.authorization }

-- A client has the id that it is started with, and the token of the configuration.
client_settings :
    (w : Outside) (c : Config) (id : Text) (t : TunnelClient)
    → start_tunnel_client w c id ≡ ok t
    → (t.id ≡ id) × (t.token ≡ c.connector.tunnel_token)
unfolding start_tunnel_client
client_settings w c id t h = elim (Option-cases (w.parse c.connector.edge_data_url)) [
  | inl bad ↦ absurd (ground (arith, bad, h))
  | inr (u, good) ↦ elim (Result-cases (tunnel_tls w c.connector.tls)) [
    | inr (x, f) ↦ absurd (ground (arith, good, f, h))
    | inl (tls, f) ↦ (ground (arith, good, f, h), ground (arith, good, f, h))
  ]
]

token_shown :
    (token : Text) (query : Text → Text) (t : TunnelClient)
    → t.token ≡ token
    → MayConnect token (reaching (dial_request query t))
unfolding dial_request
token_shown [] query t e = inl refl
token_shown (c ∷ s) query t e = inr (inr (ground arith))

not_empty : (id : Text) → IsSubjectToken id → is_empty id ≡ false
not_empty [] h = absurd (h.0 refl)
not_empty (c ∷ id) h = refl

-- The edge admits the dial of a connector that has its token, under the id that the connector was started
-- with, if that is a token and the URL of the configuration has the path of tunnels, whatever else the
-- query of the URL says.
pub dial_request-admit :
    (w : Outside) (c : Config) (id : Text) (t : TunnelClient) (query : Text → Text)
    → start_tunnel_client w c id ≡ ok t
    → t.target.path ≡ text "/_airpc/data"
    → validate_subject_token (text "connector id") id ≡ ok tt
    → admit c.connector.tunnel_token (reaching (dial_request query t)) ≡ admitted id
unfolding dial_request connector_id_of text_eq
dial_request-admit w c id t query made path valid =
    let (own_id, token) = client_settings w c id t made in
    let is_token = (validate_subject_token_iff (text "connector id") id).0 valid in
    let some_id = not_empty id is_token in
    (admit_iff c.connector.tunnel_token (reaching (dial_request query t)) id).1 (
      path,
      ground (arith, own_id, some_id),
      is_token,
      token_shown c.connector.tunnel_token query t token,
    )
