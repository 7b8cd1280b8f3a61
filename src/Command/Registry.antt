-- ===== src/Command/Registry.antt =====
-- command/commandsA.go: the commands over the node store. What the default client does, the parser of
-- integers and the texts of errors are an interface; a command gives the application and its replies.
pub mod Replies
use conver_go.Base.{
  Bool, List, Option, Result, Text, [], codes, err, if◌then◌else◌, ltb_ℤ, none, ok, pos, some,
  text_Eq, ℤ, ◌++◌, ◌==◌, ◌∷◌,
}
use conver_go.P2p.Message.{
  PeerHostInfo, parse_host_info_from_str, format_info, cluster_client_id, cluster_server_id,
}
use conver_go.Cluster.Nodes.{
  ClusterNodeStore, StoreError, Call, create_new_client, create_new_server, get_client, get_server,
  remove_node, get_id,
}
use conver_go.Cluster.Client.{
  OpVisualizationMode, content_visual, linear_visual, dag_visual, diffuse_data, display_data,
  connect_to_cluster,
}
use conver_go.Command.Results.{ResultMessage, concat_result_messages, from_error, from_success}

-- The operations of a client with a state `S`, and what else the commands use; an error is its text.
pub record ClientOps (S : Type 0) : Type 0 where
  pub new_client : PeerHostInfo → PeerHostInfo → S
  pub create_new_local_operation : S → Text → Text → Text → ℤ → S × Bool × Option Text
  pub diffuse_data : S → S × Option Text
  pub display_data : S → OpVisualizationMode → Text → ℤ → Result Text Text
  pub connect_to_cluster : S → Text → S × Option Text
  pub atoi : Text → Option ℤ
  pub text_of : StoreError → Text

-- The node store, and the state of its default client.
pub record App (S : Type 0) : Type 0 where
  pub store : ClusterNodeStore
  pub client : S

abbrev pub Executed : Type 0 → Type 0
Executed S = App S × List (ResultMessage Text)

unfoldable pub failing : {S : Type 0} → App S → Text → Executed S
failing app text = (app, from_error text ∷ [])

unfoldable pub succeeding : {S : Type 0} → App S → Text → Option Text → Executed S
succeeding app text payload = (app, from_success text payload ∷ [])

-- What follows `GetClient`.
unfoldable pub with_client : {S : Type 0} → ClientOps S → App S → (S → Executed S) → Executed S
with_client ops app run = elim (get_client app.store) [
  | err e ↦ failing app (codes "No working client was set: " ++ ops.text_of e)
  | ok _ ↦ run app.client
]

unfoldable pub edited : {S : Type 0} → App S → Text → Text → S × Bool × Option Text → Executed S
edited app op_type filepath (s, was_file_created, none) =
    succeeding (record app { client = s })
      (codes "Edit operation for " ++ (filepath ++ codes " file context was a success")) none
edited app op_type filepath (s, was_file_created, some e) = (
  record app { client = s },
  concat_result_messages (
        from_error
          (codes "Fail to edit operation " ++ (op_type ++ (codes " for file " ++ filepath)))
        ∷ from_error (
            (if was_file_created
              then codes "An error occured when trying to create file "
              else codes "An error occured when trying to update file ")
            ++ (filepath ++ (codes ": " ++ e)))
        ∷ [])
      ∷ [],
)

unfoldable pub edit_at :
    {S : Type 0} → ClientOps S → App S → Text → Text → List Text → ℤ → Executed S
edit_at ops app op_type filepath rest position =
    if op_type == codes "insert"
    then elim rest [
      | [] ↦
          failing app (codes "Command edit should also provide 'content' parameter with insertion")
      | content ∷ _ ↦ with_client ops app (λ s.
          edited app op_type filepath
            (ops.create_new_local_operation s filepath op_type content position))
    ]
    else with_client ops app (λ s.
      edited app op_type filepath (ops.create_new_local_operation s filepath op_type [] position))

unfoldable pub edit : {S : Type 0} → ClientOps S → App S → List Text → Executed S
edit ops app (op_type ∷ filepath ∷ pos_text ∷ rest) = elim (ops.atoi pos_text) [
  | none ↦ failing app (codes "Position should be an integer")
  | some position ↦ edit_at ops app op_type filepath rest position
]
edit ops app args = failing app (codes "Command should have at least 3 arguments")

unfoldable pub pushed : {S : Type 0} → App S → S × Option Text → Executed S
pushed app (s, none) =
    succeeding (record app { client = s }) (codes "Push broadcasting successfull!") none
pushed app (s, some e) =
    failing (record app { client = s }) (codes "Push broadcasting failure: " ++ e)

unfoldable pub push : {S : Type 0} → ClientOps S → App S → List Text → Executed S
push ops app args = with_client ops app (λ s. pushed app (ops.diffuse_data s))

unfoldable pub displayed : {S : Type 0} → App S → Text → Text → Result Text Text → Executed S
displayed app failure message (err e) = failing app (failure ++ (codes ": " ++ e))
displayed app failure message (ok content) = succeeding app message (some content)

unfoldable pub read : {S : Type 0} → ClientOps S → App S → List Text → Executed S
read ops app [] = failing app (codes "File context <filepath> argument should be supplied")
read ops app (filepath ∷ rest) = with_client ops app (λ s.
    displayed app (codes "error when trying to display visual content for " ++ filepath)
      (codes "File " ++ (filepath ++ codes " was read with success"))
      (ops.display_data s content_visual filepath (pos 0)))

unfoldable pub show_history :
    {S : Type 0} → ClientOps S → App S → Text → OpVisualizationMode → ℤ → Executed S
show_history ops app filepath mode deep = with_client ops app (λ s.
    displayed app
      (codes "History for file " ++ (filepath ++ codes " could not be correctly visualized"))
      (codes "Visualizing " ++ (filepath ++ codes " history:"))
      (ops.display_data s mode filepath deep))

unfoldable pub history : {S : Type 0} → ClientOps S → App S → List Text → Executed S
history ops app [] = failing app (codes "Should specify file context <pathfile>")
history ops app (filepath ∷ []) = show_history ops app filepath linear_visual (pos 0)
history ops app (filepath ∷ deep_text ∷ rest) = elim (ops.atoi deep_text) [
  | none ↦ failing app (codes "Argument <deep> should be specified as an integer")
  | some deep ↦ show_history ops app filepath dag_visual deep
]

-- The error of `ParseHostInfoFromStr`.
abbrev pub bad_host_info : Text
bad_host_info = codes "peerhostinfo should be in form <id>_<name>_<address>"

unfoldable pub make_client :
    {S : Type 0} → ClientOps S → App S → PeerHostInfo → PeerHostInfo → Executed S
make_client ops app server_info client_info =
    elim (create_new_client app.store server_info client_info) [
      | err e ↦ failing app (codes "Cannot create a new Client: " ++ ops.text_of e)
      | ok (store, calls) ↦
          succeeding (record { store = store; client = ops.new_client server_info client_info })
            (codes "Cluster Client " ++ (format_info client_info ++ codes " was created")) none
    ]

unfoldable pub create_cluster_client : {S : Type 0} → ClientOps S → App S → List Text → Executed S
create_cluster_client ops app [] =
    failing app (codes "First argument should specify client info <name>_<address>")
create_cluster_client ops app (client_text ∷ rest) =
    elim (parse_host_info_from_str client_text cluster_client_id) [
      | none ↦ failing app bad_host_info
      | some client_info ↦ elim rest [
        | [] ↦ failing app (codes "Second argument should specify server info <domain>_<address>")
        | server_text ∷ _ ↦ elim (parse_host_info_from_str server_text cluster_server_id) [
          | none ↦ failing app bad_host_info
          | some server_info ↦ make_client ops app server_info client_info
        ]
      ]
    ]

unfoldable pub create_cluster_server : {S : Type 0} → ClientOps S → App S → List Text → Executed S
create_cluster_server ops app [] =
    failing app (codes "Argument needs to be provided as <domain>_<address>")
create_cluster_server ops app (server_text ∷ rest) =
    elim (parse_host_info_from_str server_text cluster_server_id) [
      | none ↦ failing app bad_host_info
      | some server_info ↦ elim (create_new_server app.store server_info) [
        | err e ↦ failing app (codes "Cannot create a new Server: " ++ ops.text_of e)
        | ok (store, calls) ↦
            succeeding (record app { store = store })
              (codes "Cluster Server " ++ (format_info server_info ++ codes " was created")) none
      ]
    ]

unfoldable pub connected : {S : Type 0} → App S → S × Option Text → Executed S
connected app (s, none) =
    succeeding (record app { client = s }) (codes "Connection to cluster server successfull") none
connected app (s, some e) =
    failing (record app { client = s })
      (codes "Cluster client fail to connect to cluster server: " ++ e)

-- The command `connect_to_cluster`.
unfoldable pub connect : {S : Type 0} → ClientOps S → App S → List Text → Executed S
connect ops app [] =
    failing app (codes "A new peer address should be provided to connect to cluster")
connect ops app (peer_address ∷ rest) =
    with_client ops app (λ s. connected app (ops.connect_to_cluster s peer_address))

-- The texts of the integer that was read and of the error are arguments of the message; both are left
-- as the argument itself. The time that the command sleeps is no part of its result.
unfoldable pub wait : {S : Type 0} → ClientOps S → App S → List Text → Executed S
wait ops app [] = failing app (codes "A time to wait should be supplied in ms")
wait ops app (time_text ∷ rest) = elim (ops.atoi time_text) [
  | none ↦ failing app (codes "Time supplied should be an integer: " ++ time_text)
  | some time_to_wait ↦
      if ltb_ℤ time_to_wait (pos 0)
      then failing app (codes "Time supplied should be greater than 0")
      else succeeding app (codes "Successfully waited " ++ (time_text ++ codes " ms")) none
]

-- `App.Remove`, whose error is dropped.
unfoldable pub without : {S : Type 0} → App S → PeerHostInfo → App S
without app id = elim (remove_node app.store id) [
  | err e ↦ app
  | ok (store, calls) ↦ record app { store = store }
]

unfoldable pub shutdown_client : {S : Type 0} → ClientOps S → App S → Executed S
shutdown_client ops app = elim (get_client app.store) [
  | err e ↦ failing app (codes "No default client was set: " ++ ops.text_of e)
  | ok node ↦
      succeeding (without app (get_id node))
        (codes "Client " ++ (format_info (get_id node) ++ codes " was shut down")) none
]

unfoldable pub shutdown_server : {S : Type 0} → ClientOps S → App S → Executed S
shutdown_server ops app = elim (get_server app.store) [
  | err e ↦ failing app (codes "No default server was set: " ++ ops.text_of e)
  | ok node ↦
      succeeding (without app (get_id node))
        (codes "Server " ++ (format_info (get_id node) ++ codes " was shut down")) none
]

unfoldable pub shutdown : {S : Type 0} → ClientOps S → App S → List Text → Executed S
shutdown ops app [] = failing app (codes "First argument should specify <client> or <server>")
shutdown ops app (node_type ∷ rest) =
    if node_type == codes "client"
    then shutdown_client ops app
    else if node_type == codes "server"
    then shutdown_server ops app
    else failing app (codes "First argument should specify <client> or <server>")

-- The commands that `CommandRegistry` registers.
pub data Command : Type 0 where
  edit_command push_command read_command history_command create_client_command : Command
  create_server_command connect_command wait_command shutdown_command : Command

unfoldable pub execute : {S : Type 0} → ClientOps S → Command → App S → List Text → Executed S
execute ops edit_command app args = edit ops app args
execute ops push_command app args = push ops app args
execute ops read_command app args = read ops app args
execute ops history_command app args = history ops app args
execute ops create_client_command app args = create_cluster_client ops app args
execute ops create_server_command app args = create_cluster_server ops app args
execute ops connect_command app args = connect ops app args
execute ops wait_command app args = wait ops app args
execute ops shutdown_command app args = shutdown ops app args
