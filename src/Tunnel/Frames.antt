-- ===== src/Tunnel/Frames.antt =====
-- The frames that `Frame.Validate` of internal/protocol/tunnel/envelope.go accepts, described
-- apart from the code.
use airpc.Prelude.{
  ℕ, zero, suc, leb_ℤ, ltb_ℤ, eqb_ℤ, not, ◌&&◌, text_eq, ◌≤◌, ◌≡◌, ◌≢◌, ◌↔◌, ◌⊎◌, inl, inr, refl,
  true, false, [], ◌∷◌, ◌||◌, Text, text_eq_iff, contains_any, elem, IsWord, all-is_word-runes_iff,
  All, ℤ, pos, negsuc, ok, arith, Bool-cases,
}
use airpc.Tunnel.{
  Frame, frame_open, frame_data, frame_eof, frame_window, frame_close, frame_error, kind_tcp,
  kind_websocket, kind_grpc, kind_http_stream, data_binary, data_text, line_breaks, valid_token,
  known_kind, validate_route_and_kind, error_text_refused, validate_type, validate_frame,
}

abbrev pub IsToken : Text → Type 0
IsToken s = (s ≢ []) × All IsWord s

pub valid_token_iff : (s : Text) → (valid_token s ≡ true) ↔ IsToken s
unfolding valid_token
valid_token_iff [] = ground arith
valid_token_iff (c ∷ s) =
    let e = all-is_word-runes_iff (c ∷ s) in (λ h. (λ q. cc, e.0 h), λ h. e.1 h.1)

abbrev pub IsKind : Text → Type 0
IsKind k = (k ≡ kind_tcp) ⊎ (k ≡ kind_websocket) ⊎ (k ≡ kind_grpc) ⊎ (k ≡ kind_http_stream)

pub known_kind_iff : (k : Text) → (known_kind k ≡ true) ↔ IsKind k
unfolding known_kind
known_kind_iff k = (
  λ h. ground (
    arith,
    text_eq_iff k kind_tcp,
    text_eq_iff k kind_websocket,
    text_eq_iff k kind_grpc,
    text_eq_iff k kind_http_stream,
  ),
  λ h. ground (
    arith,
    text_eq_iff k kind_tcp,
    text_eq_iff k kind_websocket,
    text_eq_iff k kind_grpc,
    text_eq_iff k kind_http_stream,
  ),
)

abbrev pub Avoids : Text → Text → Type 0
Avoids chars s = All (λ c. elem c chars ≡ false) s

pub contains_any_iff : (s chars : Text) → (contains_any s chars ≡ false) ↔ Avoids chars s
unfolding contains_any
contains_any_iff [] chars = (λ h. tt, λ h. refl)
contains_any_iff (c ∷ s) chars = (
  λ h. (ground arith, (contains_any_iff s chars).0 (ground arith)),
  λ h. ground (arith, h.0, (contains_any_iff s chars).1 h.1),
)

-- A text on one line.
abbrev pub IsMessage : Text → Type 0
IsMessage e = (e ≢ []) × Avoids line_breaks e

pub error_text_refused_iff : (e : Text) → (error_text_refused e ≡ false) ↔ IsMessage e
unfolding error_text_refused
error_text_refused_iff [] = ground arith
error_text_refused_iff (c ∷ e) =
    let i = contains_any_iff (c ∷ e) line_breaks in (λ h. (λ q. cc, i.0 h), λ h. i.1 h.1)

-- What each frame type asks of the other fields.
pub data Body (f : Frame) : Type 0 where
  opens : f.frame_type ≡ frame_open → IsToken f.route → IsKind f.kind → Body f
  carries :
      f.frame_type ≡ frame_data
      → (f.data_kind ≡ []) ⊎ (f.data_kind ≡ data_binary) ⊎ (f.data_kind ≡ data_text)
      → Body f
  ends : f.frame_type ≡ frame_eof → Body f
  credits : f.frame_type ≡ frame_window → (n : ℕ) → f.window ≡ pos (suc n) → Body f
  closes_plain : f.frame_type ≡ frame_close → f.close_code ≡ pos 0 → Body f
  closes :
      f.frame_type ≡ frame_close → (n : ℕ) → f.close_code ≡ pos n → 1000 ≤ n → n ≤ 4999 → Body f
  fails : f.frame_type ≡ frame_error → IsMessage f.error → Body f

pub record WellFormed (f : Frame) : Type 0 where
  pub version_one : f.version ≡ pos 1
  pub token : IsToken f.session_id
  pub body : Body f

pub validate_route_and_kind_iff :
    (r k : Text) → (validate_route_and_kind r k ≡ ok tt) ↔ (IsToken r × IsKind k)
unfolding validate_route_and_kind
validate_route_and_kind_iff r k = (
  λ h. ((valid_token_iff r).0 (ground arith), (known_kind_iff k).0 (ground arith)),
  λ h. ground (arith, (valid_token_iff r).1 h.0, (known_kind_iff k).1 h.1),
)

-- The window is a positive number, the close code none or one of WebSocket's.
window_iff : (w : ℤ) → (leb_ℤ w (pos 0) ≡ false) → (n : ℕ) × (w ≡ pos (suc n))
window_iff (pos zero) h = absurd (ground arith)
window_iff (pos (suc n)) h = (n, refl)
window_iff (negsuc n) h = absurd (ground arith)

close_code_split :
    (c : ℤ)
    → (not (eqb_ℤ c (pos 0)) && (ltb_ℤ c (pos 1000) || ltb_ℤ (pos 4999) c)) ≡ false
    → (c ≡ pos 0) ⊎ ((n : ℕ) × (c ≡ pos n) × (1000 ≤ n) × (n ≤ 4999))
close_code_split (pos zero) h = inl refl
close_code_split (pos (suc n)) h = inr (suc n, refl, ground arith, ground arith)
close_code_split (negsuc n) h = absurd (ground arith)

module _ (f : Frame) where
  closes_of :
      f.frame_type ≡ frame_close
      → (not (eqb_ℤ f.close_code (pos 0))
          && (ltb_ℤ f.close_code (pos 1000) || ltb_ℤ (pos 4999) f.close_code))
        ≡ false
      → Body f
  closes_of e h = elim (close_code_split f.close_code h) [
    | inl z ↦ closes_plain e z
    | inr (n, q, lo, hi) ↦ closes e n q lo hi
  ]

  credits_of : f.frame_type ≡ frame_window → leb_ℤ f.window (pos 0) ≡ false → Body f
  credits_of e h = let (n, q) = window_iff f.window h in credits e n q

  validate_type_sound : validate_type f ≡ ok tt → Body f
  unfolding validate_type
  validate_type_sound h = elim (Bool-cases (text_eq f.frame_type frame_open)) [
    | inl e ↦
        let p = (validate_route_and_kind_iff f.route f.kind).0 (ground arith) in
        opens ((text_eq_iff f.frame_type frame_open).0 e) p.0 p.1
    | inr a ↦ elim (Bool-cases (text_eq f.frame_type frame_data)) [
      | inl e ↦
          carries ((text_eq_iff f.frame_type frame_data).0 e)
            (ground (arith, text_eq_iff f.data_kind data_binary, text_eq_iff f.data_kind data_text))
      | inr b ↦ elim (Bool-cases (text_eq f.frame_type frame_eof)) [
        | inl e ↦ ends ((text_eq_iff f.frame_type frame_eof).0 e)
        | inr c ↦ elim (Bool-cases (text_eq f.frame_type frame_window)) [
          | inl e ↦ credits_of ((text_eq_iff f.frame_type frame_window).0 e) (ground arith)
          | inr d ↦ elim (Bool-cases (text_eq f.frame_type frame_close)) [
            | inl e ↦ closes_of ((text_eq_iff f.frame_type frame_close).0 e) (ground arith)
            | inr g ↦
                fails ((text_eq_iff f.frame_type frame_error).0 (ground arith))
                  ((error_text_refused_iff f.error).0 (ground arith))
          ]
        ]
      ]
    ]
  ]

  validate_type_complete : Body f → validate_type f ≡ ok tt
  unfolding validate_type text_eq
  validate_type_complete (opens e r k) =
      rw (e, validate_type) ((validate_route_and_kind_iff f.route f.kind).1 (r, k))
  validate_type_complete (carries e (inl d)) = rw (e, d, validate_type) refl
  validate_type_complete (carries e (inr (inl d))) = rw (e, d, validate_type) refl
  validate_type_complete (carries e (inr (inr d))) = rw (e, d, validate_type) refl
  validate_type_complete (ends e) = rw (e, validate_type) refl
  validate_type_complete (credits e n q) = rw (e, q, validate_type) (ground arith)
  validate_type_complete (closes_plain e q) = rw (e, q, validate_type) refl
  validate_type_complete (closes e n q lo hi) = rw (e, q, validate_type) (ground arith)
  validate_type_complete (fails e m) =
      rw (e, (error_text_refused_iff f.error).1 m, validate_type) refl

-- `Frame.Validate` accepts exactly the well-formed frames.
pub validate_frame_iff : (f : Frame) → (validate_frame f ≡ ok tt) ↔ WellFormed f
unfolding validate_frame
validate_frame_iff f = (
  λ h. record {
    version_one = ground arith;
    token = (valid_token_iff f.session_id).0 (ground arith);
    body = validate_type_sound f (ground arith);
  },
  λ w. ground (
    arith,
    w.version_one,
    (valid_token_iff f.session_id).1 w.token,
    validate_type_complete f w.body,
  ),
)
