-- ===== src/Command/Tests.antt =====
-- Command lines of cmd/airpc/main.go.
use airpc.Prelude.{
  ◌≡◌, refl, List, [], ◌∷◌, Text, text, text_eq, elem, split_first, lookup, insert, erase, ok, err,
  if◌then◌else◌,
}
use airpc.Config.Sample.{parser, accepted, checks}
use airpc.Config.Loading.{Loader, load_file}
use airpc.Command.{
  connector, parse_flags, run, undefined_flag, bad_flags, config_required, positional_arguments,
}
use airpc.Command.Starts.{IsChecked, run-IsChecked}

-- One file, with one configuration.
abbrev loader : Loader
loader = record {
  read_file =
      λ path. if text_eq path (text "a.yaml") then ok (text "yaml") else err (text "absent");
  decode = λ bytes. ok accepted;
  parse = parser;
}

abbrev command : List Text
command = text "connector" ∷ text "start" ∷ text "-config" ∷ text "a.yaml" ∷ text "--id=c1" ∷ []

unfoldable running : Unit {0}
unfolding run load_file parse_flags checks text_eq elem split_first lookup insert erase
running = tt

runs : run loader command ≡ ok (connector accepted (text "c1"))
unfolding running
runs = refl

refused_test :
    (run loader (text "edge" ∷ text "start" ∷ text "--id" ∷ text "c1" ∷ [])
      ≡ err (bad_flags (undefined_flag (text "id"))))
    × (run loader (text "edge" ∷ text "start" ∷ []) ≡ err config_required)
    × (run loader (text "edge" ∷ text "start" ∷ text "--" ∷ text "x" ∷ [])
        ≡ err positional_arguments)
unfolding running
refused_test = (refl, refl, refl)

run-IsChecked_example : IsChecked loader (connector accepted (text "c1"))
run-IsChecked_example = run-IsChecked loader command (connector accepted (text "c1")) runs
