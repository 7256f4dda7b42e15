-- ===== src/Command/Starts.antt =====
-- What cmd/airpc/main.go starts has been checked.
use airpc.Prelude.{
  ◌≡◌, inl, inr, subst, List, [], ◌∷◌, Text, text, text_eq, ok, arith, Bool-cases, Result-cases,
}
use airpc.Config.Shape.{Config}
use airpc.Config.Tokens.{validate_subject_token}
use airpc.Config.Subjects.{IsSubjectToken, validate_subject_token_iff}
use airpc.Config.Loading.{Loader, load_file, IsLoaded, load_file-IsLoaded}
use airpc.Command.{parse_flags, flag_value, Running, edge, connector, run_edge, run_connector, run}

-- What is started has a configuration that was loaded and accepted, and a connector an id that is a token.
pub data IsChecked (l : Loader) : Running → Type 0 where
  checked_edge : (path : Text) (c : Config) → IsLoaded l path c → IsChecked l (edge c)
  checked_connector :
      (path id : Text) (c : Config)
      → IsLoaded l path c
      → IsSubjectToken id
      → IsChecked l (connector c id)

module _ (l : Loader) where
  edge-IsChecked : (args : List Text) (r : Running) → run_edge l args ≡ ok r → IsChecked l r
  unfolding run_edge
  edge-IsChecked [] r h = absurd (ground arith)
  edge-IsChecked (a ∷ args) r h = elim (Bool-cases (text_eq a (text "start"))) [
    | inr e ↦ absurd (ground (arith, e, h))
    | inl e ↦ elim (Result-cases (parse_flags (text "config" ∷ []) [] args)) [
      | inr (x, f) ↦ absurd (ground (arith, e, f, h))
      | inl (p, f) ↦ elim (Result-cases (load_file l (flag_value (text "config") p.0))) [
        | inr (x, g) ↦ absurd (ground (arith, e, f, g, h))
        | inl (c, g) ↦
            let same : edge c ≡ r = ground (arith, e, f, g, h) in
            subst (λ x. IsChecked l x) same
              (checked_edge (flag_value (text "config") p.0) c (load_file-IsLoaded l _ c g))
      ]
    ]
  ]

  connector-IsChecked :
      (args : List Text) (r : Running) → run_connector l args ≡ ok r → IsChecked l r
  unfolding run_connector
  connector-IsChecked [] r h = absurd (ground arith)
  connector-IsChecked (a ∷ args) r h = elim (Bool-cases (text_eq a (text "start"))) [
    | inr e ↦ absurd (ground (arith, e, h))
    | inl e ↦ elim (Result-cases (parse_flags (text "config" ∷ text "id" ∷ []) [] args)) [
      | inr (x, f) ↦ absurd (ground (arith, e, f, h))
      | inl (p, f) ↦
          let id = flag_value (text "id") p.0 in
          let path = flag_value (text "config") p.0 in
          elim (Result-cases (validate_subject_token (text "connector id") id)) [
            | inr (x, k) ↦ absurd (ground (arith, e, f, k, h))
            | inl (tt, k) ↦ elim (Result-cases (load_file l path)) [
              | inr (x, g) ↦ absurd (ground (arith, e, f, k, g, h))
              | inl (c, g) ↦
                  let same : connector c id ≡ r = ground (arith, e, f, k, g, h) in
                  subst (λ x. IsChecked l x) same
                    (checked_connector path id c (load_file-IsLoaded l path c g)
                      ((validate_subject_token_iff (text "connector id") id).0 k))
            ]
          ]
    ]
  ]

  -- Whatever the command line, an edge or a connector is only ever run with a configuration that was read
  -- from a file, decoded and accepted by the validation, and a connector only with an id that is a token.
  pub run-IsChecked : (args : List Text) (r : Running) → run l args ≡ ok r → IsChecked l r
  unfolding run
  run-IsChecked [] r h = absurd (ground arith)
  run-IsChecked (a ∷ args) r h = elim (Bool-cases (text_eq a (text "edge"))) [
    | inl e ↦ edge-IsChecked args r (ground (arith, e, h))
    | inr e ↦ elim (Bool-cases (text_eq a (text "connector"))) [
      | inl f ↦ connector-IsChecked args r (ground (arith, e, f, h))
      | inr f ↦ absurd (ground (arith, e, f, h))
    ]
  ]
