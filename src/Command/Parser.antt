-- ===== src/Command/Parser.antt =====
-- command/command.go: the parser of commands. `os.ExpandEnv` and `strings.Fields` are arguments;
-- a command is a value of a type `C`.
use conver_go.Base.{
  List, Map, Result, Text, [], eq_refl, err, if◌then◌else◌, insert, lookup, lookup-insert, none, ok,
  refl, some, suc, text_Eq, zero, ℕ, ◌==◌, ◌∷◌, ◌≡◌,
}

pub data ParseError : Type 0 where
  empty_command : ParseError
  command_not_found : Text → ParseError

pub record ParsedCommand (C : Type 0) : Type 0 where
  pub command : C
  pub args : List Text

-- The commands of a `CommandParser`, by name.
abbrev pub CommandParser : Type 0 → Type 0
CommandParser C = Map Text C

unfoldable pub new_command_parser : {C : Type 0} → CommandParser C
new_command_parser = []

unfoldable pub register : {C : Type 0} → CommandParser C → Text → C → CommandParser C
register p name command = insert name command p

-- `expandEnv` with the passes that are left.
unfoldable pub expand_env : (Text → Text) → Text → ℕ → Text
expand_env expand input zero = input
expand_env expand input (suc max_passes) =
    let further = expand_env expand (expand input) max_passes in
    if expand input == input then input else further

unfoldable pub find_command :
    {C : Type 0} → CommandParser C → List Text → Result ParseError (ParsedCommand C)
find_command p [] = err empty_command
find_command p (name ∷ args) = elim (lookup name p) [
  | none ↦ err (command_not_found name)
  | some command ↦ ok (record { command = command; args = args })
]

unfoldable pub parse :
    {C : Type 0}
    → (Text → Text)
    → (Text → List Text)
    → CommandParser C
    → Text
    → Result ParseError (ParsedCommand C)
parse expand fields p input = find_command p (fields (expand_env expand input 3))

-- A registered command is found under its name, with the fields behind the name as arguments, by
-- an input without variables.
pub parse-register :
    {C : Type 0} (expand : Text → Text) (fields : Text → List Text) (p : CommandParser C)
    (name input : Text) (command : C) (args : List Text)
    → expand input ≡ input
    → fields input ≡ name ∷ args
    → parse expand fields (register p name command) input
      ≡ ok (record { command = command; args = args })
unfolding parse register find_command expand_env
parse-register expand fields p name input command args same split =
    rw
      (
        same,
        eq_refl input,
        split,
        find_command,
        register,
        lookup-insert name name command p,
        eq_refl name,
      )
      refl
