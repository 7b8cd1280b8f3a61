-- ===== src/Command/Loop.antt =====
-- command/loop.go: the loop over lines, as far as its input and its context last. A line that the log
-- gets is an entry; the parser and the commands are those of the other modules.
use conver_go.Base.{
  Bool, List, Option, Result, Text, [], codes, err, false, if◌then◌else◌, length, none, ok, some,
  text_Eq, true, ◌++◌, ◌==◌, ◌∷◌, ◌≡◌,
}
use conver_go.Cluster.Nodes.{close}
use conver_go.Command.Results.{ResultMessage, is_error}
use conver_go.Command.Parser.{ParseError, ParsedCommand}
use conver_go.Command.Registry.{App, ClientOps, Command, execute}

abbrev pub termination_command : Text
termination_command = codes "shutdown_app"

pub data Entry : Type 0 where
  termination_received : Entry
  command_error : ParseError → Entry
  command_result : Text → Entry

-- What is logged of a result; the text of a payload is the payload, under a line feed.
unfoldable pub entry_of : ResultMessage Text → Entry
entry_of result = command_result (
    (if is_error result.status then codes "Command Failure: " else codes "Command Success: ")
    ++ (result.message ++ (elim result.payload [ none ↦ [] | some payload ↦ 10 ∷ payload ])))

-- The first reply is the one that the loop takes; without one it waits until its context ends, which
-- `none` stands for.
unfoldable pub entry_of_replies : List (ResultMessage Text) → Option Entry
entry_of_replies [] = none
entry_of_replies (result ∷ replies) = some (entry_of result)

-- `startLoop` over the lines that are left: what is logged, the application at the end, and whether
-- the loop is still waiting for a command.
unfoldable pub loop_lines :
    {S : Type 0}
    → ClientOps S
    → (parse_line : Text → Result ParseError (ParsedCommand Command)) → List Text
    → App S
    → List Entry × App S × Bool
loop_lines ops parse_line [] app = ([], app, false)
loop_lines ops parse_line (line ∷ lines) app =
    if line == termination_command
    then (termination_received ∷ [], app, false)
    else elim (parse_line line) [
      | err e ↦
          let (entries, last, is_waiting) = loop_lines ops parse_line lines app in
          (command_error e ∷ entries, last, is_waiting)
      | ok parsed ↦
          let (app', replies) = execute ops parsed.command app parsed.args in
          elim (entry_of_replies replies) [
            | none ↦ ([], app', true)
            | some entry ↦
                let (entries, last, is_waiting) = loop_lines ops parse_line lines app' in
                (entry ∷ entries, last, is_waiting)
          ]
    ]

-- With the deferred `Close` of the application.
unfoldable pub start_loop :
    {S : Type 0}
    → ClientOps S
    → (parse_line : Text → Result ParseError (ParsedCommand Command)) → List Text
    → App S
    → List Entry × App S × Bool
start_loop ops parse_line lines app =
    let (entries, app', is_waiting) = loop_lines ops parse_line lines app in
    (
      entries,
      (if is_waiting then app' else record app' { store = (close app'.store).0 }),
      is_waiting,
    )

-- The lines that the loop reads: up to the termination command, and with it.
unfoldable pub lines_read : List Text → List Text
lines_read [] = []
lines_read (line ∷ lines) =
    if line == termination_command then line ∷ [] else line ∷ lines_read lines

-- The log has an entry for each of some lines, and no command is waited for.
unfoldable pub Logged : {S : Type 0} → List Entry × App S × Bool → List Text → Type 0
Logged (entries, app, is_waiting) lines = (length entries ≡ length lines) × (is_waiting ≡ false)
