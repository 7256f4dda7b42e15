-- ===== src/Config/Tests.antt =====
-- The configuration at concrete inputs.
use airpc.Prelude.{◌≡◌, ◌↔◌, refl, none, some, text, ok, err, arith}
use airpc.Config.Errors.{separator}
use airpc.Config.Tokens.{validate_subject_token, cancel_subject, request_id_from_cancel_subject}
use airpc.Config.Subjects.{IsSubjectToken}
use airpc.Config.Cancels.{request_id_from_cancel_subject_iff}
use airpc.Prelude.{false, [], ◌∷◌, ◌≤◌, ◌≢◌, All, ℤ, pos, negsuc}
use airpc.Config.Errors.{duplicate_name, not_host_port, bad_port}
use airpc.Config.Addresses.{validate_host_port}
use airpc.Config.Checks.{config_validate}
use airpc.Config.Sizes.{max_int64, wrap64, parse_bytes}
use airpc.Config.Overflow.{parse_bytes-exact_iff}
use airpc.Config.Names.{Distinct, IsUsable}
use airpc.Config.Routes.{IsReachable}
use airpc.Config.Accepted.{HaveOwnSubjects, config_validate-IsReachable}
use airpc.Config.Sample.{config, checks, parser, db, accepted}

subjects_test :
    (validate_subject_token (text "name") (text "db.main") ≡ err (separator (text "name")))
    × (request_id_from_cancel_subject (text "airpc.v1.cancel.r-1") ≡ some (text "r-1"))
    × (request_id_from_cancel_subject (text "airpc.v1.cancel.") ≡ none)
    × (request_id_from_cancel_subject (text "other.r-1") ≡ none)
unfolding config
subjects_test = (refl, refl, refl, refl)

request_id_from_cancel_subject_iff_example :
    (request_id_from_cancel_subject (text "airpc.v1.cancel.r-1") ≡ some (text "r-1"))
    ↔ ((text "airpc.v1.cancel.r-1" ≡ cancel_subject (text "r-1")) × IsSubjectToken (text "r-1"))
request_id_from_cancel_subject_iff_example =
    request_id_from_cancel_subject_iff (text "airpc.v1.cancel.r-1") (text "r-1")

validation_test :
    (config_validate parser accepted ≡ ok tt)
    × (config_validate parser (record accepted { routes = db ∷ db ∷ [] }) ≡ err (duplicate_name 1))
    × (validate_host_port (text "a") (text "[::1]:80") ≡ ok tt)
    × (validate_host_port (text "a") (text "::1:80") ≡ err (not_host_port (text "a")))
    × (validate_host_port (text "a") (text "h:65536") ≡ err (bad_port (text "a")))
unfolding checks
validation_test = (refl, refl, refl, refl, refl)

-- 17179869184 GiB are 2^64 bytes, and are read as none.
sizes_test :
    (parse_bytes (text " 2MiB ") ≡ ok (pos 2097152))
    × (parse_bytes (text "17179869184gib") ≡ ok (pos 0))
    × (parse_bytes (text "8589934592gib") ≡ ok (negsuc 9223372036854775807))
unfolding checks
sizes_test = (refl, refl, refl)

parse_bytes-exact_iff_example :
    ((z : ℤ) × (parse_bytes (text "3kb") ≡ ok z) × (z ≡ wrap64 3000))
    × ((parse_bytes (text "3kb") ≡ ok (pos 3000)) ↔ (3000 ≤ max_int64))
unfolding checks
parse_bytes-exact_iff_example =
    parse_bytes-exact_iff (text "3kb") (text "3") (text "b") b'k' 1000 refl refl refl refl
      (omega arith) refl

config_validate-IsReachable_example :
    (accepted.routes ≢ [])
    × All (λ r. IsUsable false r) accepted.routes
    × All (λ r. IsReachable parser r) accepted.routes
    × Distinct accepted.routes
    × HaveOwnSubjects accepted.routes
unfolding checks
config_validate-IsReachable_example = config_validate-IsReachable parser accepted refl
