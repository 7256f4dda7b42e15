-- ===== src/Edge/Admission.antt =====
-- `dataHandler.ServeHTTP` of internal/edge/data.go up to the upgrade: which connectors may register a
-- data tunnel. And `acceptStreamOpen` and `claimStreamSession`: the streams that a connector opens
-- for the body of a reply.
use airpc.Prelude.{
  ℕ, ◌≡◌, ◌↔◌, ◌⊎◌, inl, inr, refl, sym, Bool, false, ◌&&◌, not, List, [], ◌∷◌, ◌++◌, Option, none,
  some, Text, text, text_eq, text_eq_iff, is_empty, ok, err, Result-cases, Bool-cases, arith,
  if◌then◌else◌, get_elem?,
}
use airpc.Codec.{Codec}
use airpc.Config.Tokens.{validate_subject_token}
use airpc.Config.Subjects.{IsSubjectToken, validate_subject_token_iff}
use airpc.Tunnel.{Frame, kind_http_stream}
use airpc.Link.{Link, accept, find, claim, close_with_error}

-- What the handler reads of a request: the path, `req.URL.Query().Get` and the header.
pub record TunnelRequest : Type 0 where
  pub path : Text
  pub query : Text → Text
  pub authorization : Text

pub data Admission : Type 0 where
  no_such_path invalid_id unauthorized : Admission
  admitted : Text → Admission

unfoldable pub connector_id_of : TunnelRequest → Text
connector_id_of q =
    if is_empty (q.query (text "connector_id"))
    then q.query (text "id")
    else q.query (text "connector_id")

unfoldable pub is_unauthorized : Text → TunnelRequest → Bool
is_unauthorized token q =
    not (is_empty token)
    && not (text_eq (q.query (text "token")) token)
    && not (text_eq q.authorization (text "Bearer " ++ token))

unfoldable pub admit : Text → TunnelRequest → Admission
unfolding connector_id_of is_unauthorized
admit token q =
    if not (text_eq q.path (text "/_airpc/data"))
    then no_such_path
    else elim (validate_subject_token (text "connector_id") (connector_id_of q)) [
      | err e ↦ invalid_id
      | ok u ↦ if is_unauthorized token q then unauthorized else admitted (connector_id_of q)
    ]

-- The token of the configuration, in one of the two places; without one, all may connect.
abbrev pub MayConnect : Text → TunnelRequest → Type 0
MayConnect token q =
    (token ≡ []) ⊎ (q.query (text "token") ≡ token) ⊎ (q.authorization ≡ text "Bearer " ++ token)

authorized_iff :
    (token : Text) (q : TunnelRequest) → (is_unauthorized token q ≡ false) ↔ MayConnect token q
unfolding is_unauthorized
authorized_iff [] q = (λ h. inl refl, λ h. refl)
authorized_iff (c ∷ token) q =
    let a = text_eq_iff (q.query (text "token")) (c ∷ token) in
    let b = text_eq_iff q.authorization (text "Bearer " ++ c ∷ token) in
    (λ h. ground (arith, h, a, b), λ h. ground (arith, h, a, b))

-- A tunnel is admitted exactly on the path of tunnels, for a connector id that is a token, and with
-- the token of the configuration if there is one.
pub admit_iff :
    (token : Text) (q : TunnelRequest) (id : Text)
    → (admit token q ≡ admitted id) ↔ (
        (q.path ≡ text "/_airpc/data")
        × (id ≡ connector_id_of q)
        × IsSubjectToken id
        × MayConnect token q)
unfolding admit
admit_iff token q id =
    let p = text_eq_iff q.path (text "/_airpc/data") in
    let a = authorized_iff token q in
    let v = validate_subject_token_iff (text "connector_id") (connector_id_of q) in
    (
      λ h. elim (Bool-cases (text_eq q.path (text "/_airpc/data"))) [
        | inr e ↦ absurd (ground (arith, e, h))
        | inl e ↦
            elim (Result-cases (validate_subject_token (text "connector_id") (connector_id_of q))) [
              | inr (x, f) ↦ absurd (ground (arith, e, f, h))
              | inl (tt, f) ↦ elim (Bool-cases (is_unauthorized token q)) [
                | inl g ↦ absurd (ground (arith, e, f, g, h))
                | inr g ↦
                    let i : id ≡ connector_id_of q = ground (arith, e, f, g, h) in
                    (p.0 e, i, rw i (v.0 f), a.0 g)
              ]
            ]
      ],
      λ h.
          let f = v.1 (rw (sym h.1) h.2) in
          let g = a.1 h.3 in let e = p.1 h.0 in rw h.1 (ground (arith, e, f, g)),
    )

-- The handler that the edge gives to a link: only response streams are accepted. The timer that
-- closes a stream which nobody claims is a call of `CloseWithError` by another goroutine.
unfoldable pub accept_stream_open : Frame → Link → Link
accept_stream_open f l =
    if not (text_eq f.kind kind_http_stream)
    then l
    else elim (accept f.session_id l) [ ok (p, l') ↦ l' | err e ↦ l ]

-- `claimStreamSession` over the states in which the polls before the deadline find the link: the
-- session that it has claimed, and the link after that.
unfoldable pub claim_stream_session : Text → List Link → Option (ℕ × Link)
claim_stream_session id [] = none
claim_stream_session id (l ∷ more) =
    let rest = claim_stream_session id more in
    elim (find id l) [
      | none ↦ rest
      | some p ↦ if (claim p l).0 then some (p, (claim p l).1) else none
    ]

-- That call, when the timer of a stream fires.
unfoldable pub unclaimed_timer : Codec Frame → ℕ → Link → Link
unclaimed_timer c p l = elim (get_elem? l.store p) [
  | none ↦ l
  | some s ↦
      if s.claimed then l else close_with_error c (text "response stream was not claimed") p l
]
