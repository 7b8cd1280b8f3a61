-- ===== src/Command/Tests.antt =====
-- Runs of command/commandsA.go and command/loop.go.
use conver_go.Base.{List, Result, Text, [], codes, false, none, ok, pos, some, text_Eq, ℕ, ◌+◌, ◌∷◌}
use conver_go.Cluster.Nodes.{new_cluster_node_store}
use conver_go.Command.Results.{}
use conver_go.Command.Parser.{ParseError, ParsedCommand}
use conver_go.Command.Registry.{App, ClientOps, Command, edit_command, execute, push_command}
use conver_go.Command.Registry.Replies.{RepliesOnce, execute-RepliesOnce}

abbrev operations : ClientOps ℕ
operations = record {
  new_client = λ server client. 0;
  create_new_local_operation = λ s filepath op_type content position. (s + 1, false, none);
  diffuse_data = λ s. (s, some (codes "no peers"));
  display_data = λ s mode filepath depth. ok (codes "text");
  connect_to_cluster = λ s address. (s, none);
  atoi = λ text. some (pos 3);
  text_of = λ e. codes "missing";
}

abbrev empty_app : App ℕ
empty_app = record { store = new_cluster_node_store; client = 0 }

abbrev edit_args : List Text
edit_args = codes "insert" ∷ codes "a.txt" ∷ codes "3" ∷ codes "x" ∷ []

execute-RepliesOnce_example :
    RepliesOnce empty_app (execute operations edit_command empty_app edit_args)
execute-RepliesOnce_example = execute-RepliesOnce operations edit_command empty_app edit_args

abbrev parses : Text → Result ParseError (ParsedCommand Command)
parses line = ok (record { command = push_command; args = [] })

abbrev typed : List Text
typed = codes "push" ∷ codes "shutdown_app" ∷ codes "push" ∷ []
