-- ===== src/Config/Loading.antt =====
-- `LoadFile`, `Load` and the `UnmarshalYAML` methods of internal/config/config.go. The decoder of package
-- yaml is an argument, and so is `os.ReadFile`.
use airpc.Prelude.{
  ◌≡◌, subst, inl, inr, Bool, Text, is_empty, ℤ, Result, ok, ◌>>=◌, ◌>>◌, guard, map_err,
  if◌then◌else◌, arith, Result-cases,
}
use airpc.Url.{UrlParser}
use airpc.Config.Errors.{Invalid}
use airpc.Config.Shape.{Config}
use airpc.Config.Checks.{config_validate}
use airpc.Config.Sizes.{parse_bytes}

pub data LoadError : Type 0 where
  read_failed : Text → Text → LoadError
  decode_failed : Text → LoadError
  invalid : Invalid → LoadError

-- `os.ReadFile`, `Decode` with `KnownFields`, and the parsers of URLs.
pub record Loader : Type 0 where
  pub read_file : Text → Result Text Text
  pub decode : Text → Result Text Config
  pub parse : UrlParser

unfoldable pub load : Loader → Text → Result LoadError Config
load l bytes = do
  c ← map_err decode_failed (l.decode bytes)
  map_err invalid (config_validate l.parse c)
  ok c

unfoldable pub load_file : Loader → Text → Result LoadError Config
unfolding load
load_file l path = do bytes ← map_err (read_failed path) (l.read_file path); load l bytes

-- `yaml.Node`, as the methods read it.
pub record Node : Type 0 where
  pub is_scalar : Bool
  pub value : Text

pub data NodeError : Type 0 where
  not_a_scalar : NodeError
  bad_duration : Text → NodeError
  bad_bytes : Invalid → NodeError

-- `Bytes.UnmarshalYAML`, for the value before.
unfoldable pub unmarshal_bytes : Node → ℤ → Result NodeError ℤ
unmarshal_bytes n old = do
  guard n.is_scalar not_a_scalar
  if is_empty n.value then ok old else map_err bad_bytes (parse_bytes n.value)

-- `Duration.UnmarshalYAML`, over `time.ParseDuration`.
unfoldable pub unmarshal_duration : (Text → Result Text ℤ) → Node → ℤ → Result NodeError ℤ
unmarshal_duration parse_duration n old = do
  guard n.is_scalar not_a_scalar
  if is_empty n.value then ok old else map_err bad_duration (parse_duration n.value)

-- A configuration that is loaded has been decoded from the file, and has passed the validation.
pub record IsLoaded (l : Loader) (path : Text) (c : Config) : Type 0 where
  pub bytes : Text
  pub was_read : l.read_file path ≡ ok bytes
  pub was_decoded : l.decode bytes ≡ ok c
  pub is_valid : config_validate l.parse c ≡ ok tt

pub load_file-IsLoaded :
    (l : Loader) (path : Text) (c : Config) → load_file l path ≡ ok c → IsLoaded l path c
unfolding load_file load
load_file-IsLoaded l path c h = elim (Result-cases (l.read_file path)) [
  | inr (e, f) ↦ absurd (ground (arith, f, h))
  | inl (bytes, f) ↦ elim (Result-cases (l.decode bytes)) [
    | inr (e, g) ↦ absurd (ground (arith, f, g, h))
    | inl (d, g) ↦ elim (Result-cases (config_validate l.parse d)) [
      | inr (e, k) ↦ absurd (ground (arith, f, g, k, h))
      | inl (u, k) ↦
          let same : d ≡ c = ground (arith, f, g, k, h) in
          subst (λ x. IsLoaded l path x) same
            (record { bytes = bytes; was_read = f; was_decoded = g; is_valid = k })
    ]
  ]
]
