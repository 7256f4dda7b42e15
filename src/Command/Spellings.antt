-- ===== src/Command/Spellings.antt =====
-- The spellings of a flag on the command line of cmd/airpc/main.go.
use airpc.Prelude.{
  ◌≡◌, refl, ◌∙◌, subst, append-nil, Bool, true, false, List, [], ◌∷◌, ◌++◌, none, some, Text,
  is_empty, elem, split_first, insert, arith,
}
use airpc.Command.{sets, wants, has_flag, known, named, parse_one, parse_flags}

split_named :
    (name value : Text)
    → elem b'=' name ≡ false
    → split_first b'=' (name ++ b'=' ∷ value) ≡ some (name, value)
unfolding split_first elem
split_named [] value h = ground arith
split_named (c ∷ name) value h = ground (arith, split_named name value (ground arith))

split_plain : (name : Text) → elem b'=' name ≡ false → split_first b'=' name ≡ none
unfolding split_first elem
split_plain [] h = refl
split_plain (c ∷ name) h = ground (arith, split_plain name (ground arith))

-- A name of a flag: not empty, with no `=`, and with no dash in front.
abbrev pub IsFlagName : Text → Type 0
IsFlagName name = (is_empty name ≡ false) × (elem b'=' name ≡ false) × (elem b'-' name ≡ false)

-- A flag behind one dash, and behind two.
abbrev pub dashed : Bool → Text → Text
dashed true name = b'-' ∷ name
dashed false name = b'-' ∷ b'-' ∷ name

module _ (names : List Text) where
  named_with_value :
      (name value : Text)
      → IsFlagName name
      → has_flag name names ≡ true
      → named names (name ++ b'=' ∷ value) ≡ sets name value
  unfolding named known elem
  named_with_value [] value n listed = absurd (ground (arith, n))
  named_with_value (c ∷ name) value n listed =
      ground (arith, n, listed, split_named (c ∷ name) value n.1)

  named_alone :
      (name : Text) → IsFlagName name → has_flag name names ≡ true → named names name ≡ wants name
  unfolding named known elem
  named_alone [] n listed = absurd (ground (arith, n))
  named_alone (c ∷ name) n listed = ground (arith, n, listed, split_plain (c ∷ name) n.1)

  -- What the dashes leave.
  parse_one-dashed :
      (one : Bool) (name rest : Text)
      → IsFlagName name
      → parse_one names (dashed one (name ++ rest)) ≡ named names (name ++ rest)
  unfolding parse_one elem
  parse_one-dashed one [] rest n = absurd (ground (arith, n))
  parse_one-dashed true (c ∷ name) rest n = ground (arith, n)
  parse_one-dashed false (c ∷ name) rest n = ground arith

  -- A flag takes its value behind `=` or from the next argument, and one dash is as good as two: the four
  -- spellings set the same value, whatever the value is, and the parsing goes on behind them.
  pub parse_flags-spellings :
      (one : Bool) (name value : Text) (values : List (Text × Text)) (rest : List Text)
      → IsFlagName name
      → has_flag name names ≡ true
      → (parse_flags names values (dashed one name ∷ value ∷ rest)
          ≡ parse_flags names (insert name value values) rest)
        × (parse_flags names values (dashed one (name ++ b'=' ∷ value) ∷ rest)
            ≡ parse_flags names (insert name value values) rest)
  unfolding parse_flags
  parse_flags-spellings one name value values rest n listed =
      let alone : parse_one names (dashed one name) ≡ wants name =
        subst (λ x. parse_one names (dashed one x) ≡ named names x) (append-nil name)
          (parse_one-dashed one name [] n)
        ∙ named_alone name n listed in
      let joined =
        parse_one-dashed one name (b'=' ∷ value) n ∙ named_with_value name value n listed in
      (rw (alone, parse_flags) refl, joined_rest rest joined)
    where
      joined_rest :
          (rest : List Text)
          → parse_one names (dashed one (name ++ b'=' ∷ value)) ≡ sets name value
          → parse_flags names values (dashed one (name ++ b'=' ∷ value) ∷ rest)
            ≡ parse_flags names (insert name value values) rest
      joined_rest [] e = rw (e, parse_flags) refl
      joined_rest (x ∷ rest) e = rw (e, parse_flags) refl
