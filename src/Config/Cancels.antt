-- ===== src/Config/Cancels.antt =====
-- The cancel subjects of internal/config/config.go: which subjects name a request.
use airpc.Prelude.{
  ℕ, inl, inr, subst, ◌≡◌, ◌≢◌, ◌↔◌, refl, sym, ◌∙◌, ap, true, false, ◌∷◌, ◌++◌, none, some, Text,
  text, text_eq_refl, text_eq_ne, has_prefix, has_prefix_split, trim_prefix-append,
  trim_prefix_none, length, length-append, drop, Result, ok, err, arith, Bool-cases, if◌then◌else◌,
}
use airpc.Config.Errors.{Invalid}
use airpc.Config.Tokens.{
  validate_subject_token, cancel_subject, cancel_subject_prefix, is_ok,
  request_id_from_cancel_subject,
}
use airpc.Config.Subjects.{IsSubjectToken, validate_subject_token_iff}

is_ok_iff : (r : Result Invalid (Unit {0})) → (is_ok r ≡ true) ↔ (r ≡ ok tt)
is_ok_iff (ok u) = (λ h. refl, λ h. refl)
is_ok_iff (err e) = (λ h. cc, λ h. cc)

not_longer : (p id : Text) (c : ℕ) → id ≢ (c ∷ p) ++ id
not_longer p id c q =
    let e = ap length q in let f = length-append (c ∷ p) id in absurd (omega arith)

-- What the function returns on the subject of `id`.
on_subject :
    (id : Text)
    → request_id_from_cancel_subject (cancel_subject id)
      ≡ (if is_ok (validate_subject_token (text "request_id") id) then some id else none)
unfolding request_id_from_cancel_subject cancel_subject
on_subject id =
    let t = trim_prefix-append cancel_subject_prefix id in
    let d =
      text_eq_ne id (cancel_subject_prefix ++ id) (not_longer (text "irpc.v1.cancel.") id b'a') in
    rw t (rw d (ground arith))

foreign_subject :
    (s : Text)
    → has_prefix s cancel_subject_prefix ≡ false
    → request_id_from_cancel_subject s ≡ none
unfolding request_id_from_cancel_subject
foreign_subject s h =
    let t = trim_prefix_none s cancel_subject_prefix h in rw t (rw (text_eq_refl s) refl)

is_subject :
    (s : Text)
    → has_prefix s cancel_subject_prefix ≡ true
    → s ≡ cancel_subject (drop (length cancel_subject_prefix) s)
unfolding cancel_subject
is_subject s h = has_prefix_split s cancel_subject_prefix h

-- `RequestIDFromCancelSubject` finds the id of a request in the cancel subject of that request, if
-- the id is a token, and in no other subject.
pub request_id_from_cancel_subject_iff :
    (s id : Text)
    → (request_id_from_cancel_subject s ≡ some id) ↔ ((s ≡ cancel_subject id) × IsSubjectToken id)
request_id_from_cancel_subject_iff s id = (
  λ h. elim (Bool-cases (has_prefix s cancel_subject_prefix)) [
    | inl e ↦
        let rest = drop (length cancel_subject_prefix) s in
        let q = is_subject s e in
        let r = on_subject rest in
        let k : (if is_ok (validate_subject_token (text "request_id") rest)
              then some rest
              else none)
            ≡ some id =
          sym r ∙ ap request_id_from_cancel_subject (sym q) ∙ h in
        let i : rest ≡ id = ground arith in
        let v : is_ok (validate_subject_token (text "request_id") rest) ≡ true = ground arith in
        let t = (validate_subject_token_iff (text "request_id") rest).0 ((is_ok_iff _).0 v) in
        (q ∙ ap cancel_subject i, subst IsSubjectToken i t)
    | inr e ↦ let f = foreign_subject s e in absurd (ground arith)
  ],
  λ h.
      let v = (is_ok_iff _).1 ((validate_subject_token_iff (text "request_id") id).1 h.1) in
      rw h.0 (rw (on_subject id) (rw v refl)),
)
