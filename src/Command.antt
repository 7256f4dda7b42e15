-- ===== src/Command.antt =====
-- cmd/airpc/main.go: the command line. The flags are parsed as package flag does, for flags that take a
-- text; what is started, and with what, is the result.
pub mod Starts
pub mod Spellings
mod Tests
use airpc.Prelude.{
  ℕ, Bool, true, false, ◌||◌, not, Option, none, some, List, [], ◌∷◌, Text, text, text_eq, is_empty,
  ◌==◌, split_first, lookup, insert, Result, ok, err, ◌>>=◌, ◌>>◌, reject, guard, map_err,
  if◌then◌else◌,
}
use airpc.Config.Errors.{Invalid}
use airpc.Config.Shape.{Config}
use airpc.Config.Tokens.{validate_subject_token}
use airpc.Config.Loading.{Loader, LoadError, load_file}

pub data FlagError : Type 0 where
  bad_syntax undefined_flag needs_argument : Text → FlagError
  help_wanted : FlagError

-- What one argument is to `FlagSet.parseOne`: the first positional one, `--`, an error, a flag with its
-- value, or a flag whose value is the next argument.
pub data Argument : Type 0 where
  positional terminator : Argument
  fails : FlagError → Argument
  sets : Text → Text → Argument
  wants : Text → Argument

unfoldable pub has_flag : Text → List Text → Bool
has_flag name [] = false
has_flag name (n ∷ ns) = text_eq n name || has_flag name ns

unfoldable pub known : List Text → Text → Argument → Argument
unfolding has_flag
known names name argument =
    if has_flag name names
    then argument
    else if text_eq name (text "help") || text_eq name (text "h")
    then fails help_wanted
    else fails (undefined_flag name)

-- An argument behind its dashes.
unfoldable pub named : List Text → Text → Argument
unfolding known
named names [] = fails (bad_syntax [])
named names (c ∷ s) =
    if c == b'-' || c == b'=' then fails (bad_syntax (c ∷ s)) else elim (split_first b'=' (c ∷ s)) [
      | some (name, value) ↦ known names name (sets name value)
      | none ↦ known names (c ∷ s) (wants (c ∷ s))
    ]

unfoldable pub parse_one : List Text → Text → Argument
unfolding named
parse_one names [] = positional
parse_one names (c ∷ []) = positional
parse_one names (c ∷ d ∷ s) =
    if not (c == b'-')
    then positional
    else if d == b'-'
    then if is_empty s then terminator else named names s
    else named names (d ∷ s)

-- The values of the flags, and the positional arguments.
abbrev pub Parsed : Type 0
Parsed = List (Text × Text) × List Text

unfoldable pub parse_flags : List Text → List (Text × Text) → List Text → Result FlagError Parsed
unfolding parse_one
parse_flags names values [] = ok (values, [])
parse_flags names values (s ∷ []) = elim (parse_one names s) [
  | positional ↦ ok (values, s ∷ [])
  | terminator ↦ ok (values, [])
  | fails e ↦ err e
  | sets name value ↦ ok (insert name value values, [])
  | wants name ↦ err (needs_argument name)
]
parse_flags names values (s ∷ x ∷ rest) = elim (parse_one names s) [
  | positional ↦ ok (values, s ∷ x ∷ rest)
  | terminator ↦ ok (values, x ∷ rest)
  | fails e ↦ err e
  | sets name value ↦ parse_flags names (insert name value values) (x ∷ rest)
  | wants name ↦ parse_flags names (insert name x values) rest
]

-- The value of a flag: empty, if it is not given.
unfoldable pub flag_value : Text → List (Text × Text) → Text
flag_value name values = elim (lookup name values) [ some v ↦ v | none ↦ [] ]

pub data CommandError : Type 0 where
  missing_command missing_edge_command missing_connector_command : CommandError
  unknown_command unknown_edge_command unknown_connector_command : Text → CommandError
  bad_flags : FlagError → CommandError
  positional_arguments config_required id_required : CommandError
  bad_id : Invalid → CommandError
  not_loaded : LoadError → CommandError

-- What is run: `edge.Run` or `connector.Run`.
pub data Running : Type 0 where
  edge : Config → Running
  connector : Config → Text → Running

abbrev pub is_nil : List Text → Bool
is_nil [] = true
is_nil (a ∷ as_) = false

module _ (l : Loader) where
  unfoldable pub run_edge : List Text → Result CommandError Running
  unfolding parse_flags flag_value
  run_edge [] = err missing_edge_command
  run_edge (a ∷ args) = do
    guard (text_eq a (text "start")) (unknown_edge_command a)
    p ← map_err bad_flags (parse_flags (text "config" ∷ []) [] args)
    guard (is_nil p.1) positional_arguments
    reject (is_empty (flag_value (text "config") p.0)) config_required
    c ← map_err not_loaded (load_file l (flag_value (text "config") p.0))
    ok (edge c)

  unfoldable pub run_connector : List Text → Result CommandError Running
  unfolding parse_flags flag_value
  run_connector [] = err missing_connector_command
  run_connector (a ∷ args) = do
    guard (text_eq a (text "start")) (unknown_connector_command a)
    p ← map_err bad_flags (parse_flags (text "config" ∷ text "id" ∷ []) [] args)
    guard (is_nil p.1) positional_arguments
    reject (is_empty (flag_value (text "config") p.0)) config_required
    reject (is_empty (flag_value (text "id") p.0)) id_required
    map_err bad_id (validate_subject_token (text "connector id") (flag_value (text "id") p.0))
    c ← map_err not_loaded (load_file l (flag_value (text "config") p.0))
    ok (connector c (flag_value (text "id") p.0))

  unfoldable pub run : List Text → Result CommandError Running
  unfolding run_edge run_connector
  run [] = err missing_command
  run (a ∷ args) =
      if text_eq a (text "edge")
      then run_edge args
      else if text_eq a (text "connector")
      then run_connector args
      else err (unknown_command a)
