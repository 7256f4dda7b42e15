-- ===== src/Tunnel/Tests.antt =====
-- The tunnel envelopes at concrete inputs.
use airpc.Prelude.{◌≡◌, ◌↔◌, refl, true, [], ◌∷◌, ◌++◌, Text, text, pos, ok, err}
use airpc.Tunnel.{
  bad_frame_session_id, bad_close_code, bad_window, bad_frame_type, Frame, OpenRequest,
  OpenResponse, version, frame_open, frame_data, frame_window, frame_close, kind_tcp, new_frame,
  validate_frame, validate_open_request, validate_open_response, encode_frame, decode_frame,
}
use airpc.Tunnel.Frames.{WellFormed, validate_frame_iff}
use airpc.Tunnel.Coding.{decode_frame-encode_frame}
use airpc.Tunnel.Sample.{tunnel, frame_codec, frame_codec-RoundTrips}

abbrev opening : Frame
opening = record (new_frame frame_open (text "a1-b2")) {
  route = text "db";
  kind = kind_tcp;
  payload = text "/";
}

abbrev refused_code : Frame
refused_code = record (new_frame frame_close (text "a1")) { close_code = pos 999 }

abbrev asking : OpenRequest
asking = record {
  version = version;
  request_id = text "r1";
  session_id = text "r1";
  route = text "db";
  kind = kind_tcp;
  path = text "/";
  deadline_unix_ms = pos 1700000000000;
}

abbrev agreeing : OpenResponse
agreeing = record {
  version = version;
  request_id = text "r1";
  accepted = true;
  connector_id = text "c1";
  error = [];
}

frames_test :
    (validate_frame opening ≡ ok tt)
    × (validate_frame refused_code ≡ err (bad_close_code (pos 999)))
    × (validate_frame (new_frame frame_data (text "a.b")) ≡ err (bad_frame_session_id (text "a.b")))
    × (validate_frame (new_frame frame_window (text "a")) ≡ err (bad_window (pos 0)))
    × (validate_frame (new_frame (text "ping") (text "a")) ≡ err (bad_frame_type (text "ping")))
unfolding tunnel
frames_test = (refl, refl, refl, refl, refl)

opens_test : (validate_open_request asking ≡ ok tt) × (validate_open_response agreeing ≡ ok tt)
unfolding tunnel
opens_test = (refl, refl)

-- The bytes that the sample codecs write.
abbrev opening_bytes : Text
opening_bytes =
    1
    ∷ 0
    ∷ 4
    ∷ (text "open"
        ++ 5
          ∷ (text "a1-b2"
              ++ 2 ∷ (text "db" ++ 3 ∷ (text "tcp" ++ 0 ∷ 1 ∷ b'/' ∷ 0 ∷ 0 ∷ 0 ∷ 0 ∷ 0 ∷ []))))

validate_frame_iff_example : (validate_frame opening ≡ ok tt) ↔ WellFormed opening
validate_frame_iff_example = validate_frame_iff opening

decode_frame-encode_frame_example :
    ((encode_frame frame_codec opening ≡ ok opening_bytes) ↔ WellFormed opening)
    × ((decode_frame frame_codec opening_bytes ≡ ok opening) ↔ WellFormed opening)
    × ((decode_frame frame_codec opening_bytes ≡ ok opening)
        ↔ ((frame_codec.unmarshal opening_bytes ≡ ok opening) × WellFormed opening))
unfolding tunnel
decode_frame-encode_frame_example =
    decode_frame-encode_frame frame_codec opening opening opening_bytes opening_bytes
      frame_codec-RoundTrips refl

abbrev asking_bytes : Text
asking_bytes =
    1
    ∷ 0
    ∷ 2
    ∷ (text "r1"
        ++ 2
          ∷ (text "r1" ++ 2 ∷ (text "db" ++ 3 ∷ (text "tcp" ++ 1 ∷ b'/' ∷ 1700000000000 ∷ 0 ∷ []))))
