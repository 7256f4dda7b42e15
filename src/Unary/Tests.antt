-- ===== src/Unary/Tests.antt =====
-- The envelopes of a call at concrete inputs.
use airpc.Prelude.{◌≡◌, refl, [], ◌∷◌, ◌++◌, none, Text, text, pos, ok, err}
use airpc.Unary.{
  Request, Response, bad_scheme, bad_status, no_deadline, two_bodies, relative_path, version,
  validate_request, validate_response,
}
use airpc.Unary.Sample.{unary}

abbrev asking : Request
asking = record {
  version = version;
  request_id = text "r1";
  route = text "api";
  deadline_unix_ms = pos 1700000000000;
  method = text "GET";
  scheme = text "https";
  authority = text "edge";
  path = text "/v1?q=1";
  headers = (text "Accept", text "*/*" ∷ []) ∷ [];
  body = [];
}

abbrev streaming : Response
streaming = record {
  version = version;
  request_id = text "r1";
  status = pos 200;
  headers = (text "Content-Type", text "text/plain" ∷ []) ∷ [];
  body = [];
  stream_session_id = text "s1";
  connector_id = text "c1";
  error = none;
}

envelopes_test :
    (validate_request asking ≡ ok tt)
    × (validate_request (record asking { scheme = text "ftp" }) ≡ err (bad_scheme (text "ftp")))
    × (validate_request (record asking { deadline_unix_ms = pos 0 }) ≡ err no_deadline)
    × (validate_request (record asking { path = text "v1" }) ≡ err relative_path)
    × (validate_response streaming ≡ ok tt)
    × (validate_response (record streaming { body = text "x" }) ≡ err two_bodies)
    × (validate_response (record streaming { status = pos 1000 }) ≡ err (bad_status (pos 1000)))
unfolding unary
envelopes_test = (refl, refl, refl, refl, refl, refl, refl)

-- The bytes that the sample codecs write.
abbrev asking_bytes : Text
asking_bytes =
    1
    ∷ 0
    ∷ 2
    ∷ (text "r1"
        ++ 3
          ∷ (text "api"
              ++ 1700000000000
                ∷ 0
                ∷ 3
                ∷ (text "GET"
                    ++ 5
                      ∷ (text "https"
                          ++ 4
                            ∷ (text "edge"
                                ++ 7
                                  ∷ (text "/v1?q=1"
                                      ++ 1
                                        ∷ 6
                                        ∷ (text "Accept" ++ 1 ∷ 3 ∷ (text "*/*" ++ 0 ∷ []))))))))
