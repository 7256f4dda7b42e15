-- ===== src/Tunnel/Coding.antt =====
-- Encoding and decoding the envelopes of internal/protocol/tunnel/envelope.go: both sides validate.
use airpc.Prelude.{◌≡◌, ◌↔◌, Text, Result, ok, arith}
use airpc.Codec.{Codec, RoundTrips}
use airpc.Tunnel.{
  Error, Frame, OpenRequest, OpenResponse, validate_frame, validate_open_request,
  validate_open_response, encode, decode, encode_frame, decode_frame, encode_open_request,
  decode_open_request, encode_open_response, decode_open_response, not_a_frame, not_an_open_request,
  not_an_open_response,
}
use airpc.Tunnel.Frames.{WellFormed, validate_frame_iff}
use airpc.Tunnel.Opens.{
  WellFormedRequest, WellFormedResponse, validate_open_request_iff, validate_open_response_iff,
}

-- Any envelope type at once.
module _ {A : Type 0} (validate : A → Result Error (Unit {0})) (c : Codec A) where
  encode_valid : (a : A) (b : Text) → encode validate c a ≡ ok b → validate a ≡ ok tt
  encode_valid a b h = ground arith

  encode_bytes : (a : A) (b : Text) → encode validate c a ≡ ok b → c.marshal a ≡ ok b
  encode_bytes a b h = ground arith

  decode-encode :
      (wrap : Text → Error) (a : A) (b : Text)
      → RoundTrips c
      → encode validate c a ≡ ok b
      → decode validate c wrap b ≡ ok a
  decode-encode wrap a b rt h = ground (arith, rt a b (encode_bytes a b h), encode_valid a b h)

  decode_valid :
      (wrap : Text → Error) (a : A) (b : Text)
      → decode validate c wrap b ≡ ok a
      → validate a ≡ ok tt
  decode_valid wrap a b h = ground arith

  decode_bytes :
      (wrap : Text → Error) (a : A) (b : Text)
      → decode validate c wrap b ≡ ok a
      → c.unmarshal b ≡ ok a
  decode_bytes wrap a b h = ground arith

-- Whatever bytes arrive, a frame that decoding lets through is well formed.
pub decode_frame-WellFormed :
    (c : Codec Frame) (b : Text) (f : Frame) → decode_frame c b ≡ ok f → WellFormed f
unfolding decode_frame
decode_frame-WellFormed c b f h =
    (validate_frame_iff f).0 (decode_valid validate_frame c not_a_frame f b h)

-- With a MessagePack that reads back what it has written: a frame is written, as its bytes, exactly if it
-- is well formed, and from these bytes it is read back as it was, exactly if it is well formed; and of
-- any bytes, a frame is read exactly if MessagePack reads it and it is well formed.
pub decode_frame-encode_frame :
    (c : Codec Frame) (f g : Frame) (b d : Text)
    → RoundTrips c
    → c.marshal f ≡ ok b
    → ((encode_frame c f ≡ ok b) ↔ WellFormed f)
      × ((decode_frame c b ≡ ok f) ↔ WellFormed f)
      × ((decode_frame c d ≡ ok g) ↔ ((c.unmarshal d ≡ ok g) × WellFormed g))
unfolding encode_frame decode_frame
decode_frame-encode_frame c f g b d rt m =
    let vf = validate_frame_iff f in
    let vg = validate_frame_iff g in
    let back = rt f b m in
    (
      (
        λ h. vf.0 (encode_valid validate_frame c f b h),
        λ w. let v = vf.1 w in ground (arith, m, v),
      ),
      (
        λ h. vf.0 (decode_valid validate_frame c not_a_frame f b h),
        λ w. let v = vf.1 w in ground (arith, back, v),
      ),
      (
        λ h. (
          decode_bytes validate_frame c not_a_frame g d h,
          vg.0 (decode_valid validate_frame c not_a_frame g d h),
        ),
        λ w. let v = vg.1 w.1 in ground (arith, w.0, v),
      ),
    )

-- The open envelopes are read back as they were written, and are well formed on both sides.
pub decode_open-encode_open :
    (c : Codec OpenRequest) (d : Codec OpenResponse) (q : OpenRequest) (r : OpenResponse)
    (b e : Text)
    → RoundTrips c
    → RoundTrips d
    → encode_open_request c q ≡ ok b
    → encode_open_response d r ≡ ok e
    → (decode_open_request c b ≡ ok q)
      × WellFormedRequest q
      × (decode_open_response d e ≡ ok r)
      × WellFormedResponse r
unfolding encode_open_request decode_open_request encode_open_response decode_open_response
decode_open-encode_open c d q r b e rt rt' h k = (
  decode-encode validate_open_request c not_an_open_request q b rt h,
  (validate_open_request_iff q).0 (encode_valid validate_open_request c q b h),
  decode-encode validate_open_response d not_an_open_response r e rt' k,
  (validate_open_response_iff r).0 (encode_valid validate_open_response d r e k),
)
