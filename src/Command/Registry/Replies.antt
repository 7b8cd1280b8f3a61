-- ===== src/Command/Registry/Replies.antt =====
-- Every command of command/commandsA.go replies once.
use conver_go.Base.{
  Bool, List, Option, Result, Text, [], codes, err, false, if◌then◌else◌, ltb_ℤ, none, ok, pos,
  refl, some, text_Eq, true, ℤ, ◌==◌, ◌∷◌, ◌≡◌,
}
use conver_go.Cluster.Nodes.{get_client, create_new_client, create_new_server, get_server}
use conver_go.Command.Results.{ResultMessage, from_error, from_success, is_error}
use conver_go.P2p.Message.{
  PeerHostInfo, parse_host_info_from_str, cluster_client_id, cluster_server_id,
}
use conver_go.Command.Registry.{
  App, ClientOps, Executed, failing, succeeding, with_client, edit, edit_at, edited, Command,
  connect, connect_command, connected, create_client_command, create_cluster_client,
  create_cluster_server, create_server_command, displayed, edit_command, execute, history,
  history_command, make_client, push, push_command, pushed, read, read_command, show_history,
  shutdown, shutdown_client, shutdown_command, shutdown_server, wait, wait_command,
}

-- One reply, and a store that has not changed when the reply is an error.
unfoldable pub RepliesOnce : {S : Type 0} → App S → Executed S → Type 0
RepliesOnce app (app', replies) =
    (reply : ResultMessage Text) × (replies ≡ reply ∷ [])
    × (is_error reply.status ≡ true → app'.store ≡ app.store)

failing-RepliesOnce : {S : Type 0} (app : App S) (text : Text) → RepliesOnce app (failing app text)
unfolding failing RepliesOnce
failing-RepliesOnce app text = (from_error text, refl, λ h. refl)

succeeding-RepliesOnce :
    {S : Type 0} (app app' : App S) (text : Text) (payload : Option Text)
    → RepliesOnce app (succeeding app' text payload)
unfolding succeeding RepliesOnce from_success is_error
succeeding-RepliesOnce app app' text payload = (from_success text payload, refl, λ h. cc)

module _ {S : Type 0} (app : App S) where
  by_result :
      {A E : Type 0} (r : Result E A) (f : E → Executed S) (g : A → Executed S)
      → ((e : E) → RepliesOnce app (f e))
      → ((a : A) → RepliesOnce app (g a))
      → RepliesOnce app (elim r [ err e ↦ f e | ok a ↦ g a ])
  by_result (err e) f g h k = h e
  by_result (ok a) f g h k = k a

  by_option :
      {A : Type 0} (r : Option A) (f : Executed S) (g : A → Executed S)
      → RepliesOnce app f
      → ((a : A) → RepliesOnce app (g a))
      → RepliesOnce app (elim r [ none ↦ f | some a ↦ g a ])
  by_option none f g h k = h
  by_option (some a) f g h k = k a

  by_test :
      (c : Bool) (f g : Executed S)
      → RepliesOnce app f
      → RepliesOnce app g
      → RepliesOnce app (if c then f else g)
  by_test true f g h k = h
  by_test false f g h k = k

  with_client-RepliesOnce :
      (ops : ClientOps S) (run : S → Executed S)
      → ((s : S) → RepliesOnce app (run s))
      → RepliesOnce app (with_client ops app run)
  unfolding with_client
  with_client-RepliesOnce ops run once =
      by_result (get_client app.store) _ _ (λ e. failing-RepliesOnce app _)
        (λ node. once app.client)

  edited-RepliesOnce :
      (op_type filepath : Text) (r : S × Bool × Option Text)
      → RepliesOnce app (edited app op_type filepath r)
  unfolding edited RepliesOnce
  edited-RepliesOnce op_type filepath (s, created, none) = succeeding-RepliesOnce app _ _ _
  edited-RepliesOnce op_type filepath (s, created, some e) = (_, refl, λ h. refl)

  edit_at-RepliesOnce :
      (ops : ClientOps S) (op_type filepath : Text) (rest : List Text) (position : ℤ)
      → RepliesOnce app (edit_at ops app op_type filepath rest position)
  unfolding edit_at
  edit_at-RepliesOnce ops op_type filepath [] position =
      by_test (op_type == codes "insert") _ _ (failing-RepliesOnce app _)
        (with_client-RepliesOnce ops _ (λ s. edited-RepliesOnce op_type filepath _))
  edit_at-RepliesOnce ops op_type filepath (content ∷ rest) position =
      by_test (op_type == codes "insert") _ _
        (with_client-RepliesOnce ops _ (λ s. edited-RepliesOnce op_type filepath _))
        (with_client-RepliesOnce ops _ (λ s. edited-RepliesOnce op_type filepath _))

  edit-RepliesOnce : (ops : ClientOps S) (args : List Text) → RepliesOnce app (edit ops app args)
  unfolding edit
  edit-RepliesOnce ops [] = failing-RepliesOnce app _
  edit-RepliesOnce ops (a ∷ []) = failing-RepliesOnce app _
  edit-RepliesOnce ops (a ∷ b ∷ []) = failing-RepliesOnce app _
  edit-RepliesOnce ops (a ∷ b ∷ c ∷ rest) =
      by_option (ops.atoi c) _ _ (failing-RepliesOnce app _)
        (λ position. edit_at-RepliesOnce ops a b rest position)

  pushed-RepliesOnce : (r : S × Option Text) → RepliesOnce app (pushed app r)
  unfolding pushed failing RepliesOnce
  pushed-RepliesOnce (s, none) = succeeding-RepliesOnce app _ _ _
  pushed-RepliesOnce (s, some e) = (_, refl, λ h. refl)

  displayed-RepliesOnce :
      (failure message : Text) (r : Result Text Text)
      → RepliesOnce app (displayed app failure message r)
  unfolding displayed
  displayed-RepliesOnce failure message (err e) = failing-RepliesOnce app _
  displayed-RepliesOnce failure message (ok content) = succeeding-RepliesOnce app _ _ _

  history-RepliesOnce :
      (ops : ClientOps S) (args : List Text) → RepliesOnce app (history ops app args)
  unfolding history show_history
  history-RepliesOnce ops [] = failing-RepliesOnce app _
  history-RepliesOnce ops (filepath ∷ []) =
      with_client-RepliesOnce ops _ (λ s. displayed-RepliesOnce _ _ _)
  history-RepliesOnce ops (filepath ∷ deep ∷ rest) =
      by_option (ops.atoi deep) _ _ (failing-RepliesOnce app _)
        (λ depth. with_client-RepliesOnce ops _ (λ s. displayed-RepliesOnce _ _ _))

  make_client-RepliesOnce :
      (ops : ClientOps S) (server_info client_info : PeerHostInfo)
      → RepliesOnce app (make_client ops app server_info client_info)
  unfolding make_client
  make_client-RepliesOnce ops server_info client_info =
      by_result (create_new_client app.store server_info client_info) _ _
        (λ e. failing-RepliesOnce app _) (λ made. succeeding-RepliesOnce app _ _ _)

  create_cluster_client-RepliesOnce :
      (ops : ClientOps S) (args : List Text) → RepliesOnce app (create_cluster_client ops app args)
  unfolding create_cluster_client
  create_cluster_client-RepliesOnce ops [] = failing-RepliesOnce app _
  create_cluster_client-RepliesOnce ops (text ∷ []) =
      by_option (parse_host_info_from_str text cluster_client_id) _ _ (failing-RepliesOnce app _)
        (λ info. failing-RepliesOnce app _)
  create_cluster_client-RepliesOnce ops (text ∷ server ∷ rest) =
      by_option (parse_host_info_from_str text cluster_client_id) _ _ (failing-RepliesOnce app _)
        (λ info.
          by_option (parse_host_info_from_str server cluster_server_id) _ _
            (failing-RepliesOnce app _)
            (λ server_info. make_client-RepliesOnce ops server_info info))

  create_cluster_server-RepliesOnce :
      (ops : ClientOps S) (args : List Text) → RepliesOnce app (create_cluster_server ops app args)
  unfolding create_cluster_server
  create_cluster_server-RepliesOnce ops [] = failing-RepliesOnce app _
  create_cluster_server-RepliesOnce ops (text ∷ rest) =
      by_option (parse_host_info_from_str text cluster_server_id) _ _ (failing-RepliesOnce app _)
        (λ info.
          by_result (create_new_server app.store info) _ _ (λ e. failing-RepliesOnce app _)
            (λ made. succeeding-RepliesOnce app _ _ _))

  connected-RepliesOnce : (r : S × Option Text) → RepliesOnce app (connected app r)
  unfolding connected failing RepliesOnce
  connected-RepliesOnce (s, none) = succeeding-RepliesOnce app _ _ _
  connected-RepliesOnce (s, some e) = (_, refl, λ h. refl)

  wait-RepliesOnce : (ops : ClientOps S) (args : List Text) → RepliesOnce app (wait ops app args)
  unfolding wait
  wait-RepliesOnce ops [] = failing-RepliesOnce app _
  wait-RepliesOnce ops (text ∷ rest) =
      by_option (ops.atoi text) _ _ (failing-RepliesOnce app _) (λ time.
        by_test (ltb_ℤ time (pos 0)) _ _ (failing-RepliesOnce app _)
          (succeeding-RepliesOnce app _ _ _))

  shutdown-RepliesOnce :
      (ops : ClientOps S) (args : List Text) → RepliesOnce app (shutdown ops app args)
  unfolding shutdown shutdown_client shutdown_server
  shutdown-RepliesOnce ops [] = failing-RepliesOnce app _
  shutdown-RepliesOnce ops (text ∷ rest) =
      by_test (text == codes "client") _ _
        (by_result (get_client app.store) _ _ (λ e. failing-RepliesOnce app _)
          (λ node. succeeding-RepliesOnce app _ _ _))
        (by_test (text == codes "server") _ _
          (by_result (get_server app.store) _ _ (λ e. failing-RepliesOnce app _)
            (λ node. succeeding-RepliesOnce app _ _ _))
          (failing-RepliesOnce app _))

-- Every command replies exactly once, on every branch, and where the reply is an error the node store
-- is as it was.
pub execute-RepliesOnce :
    {S : Type 0} (ops : ClientOps S) (command : Command) (app : App S) (args : List Text)
    → RepliesOnce app (execute ops command app args)
unfolding execute push read connect
execute-RepliesOnce ops edit_command app args = edit-RepliesOnce app ops args
execute-RepliesOnce ops push_command app args =
    with_client-RepliesOnce app ops _ (λ s. pushed-RepliesOnce app _)
execute-RepliesOnce ops read_command app [] = failing-RepliesOnce app _
execute-RepliesOnce ops read_command app (filepath ∷ rest) =
    with_client-RepliesOnce app ops _ (λ s. displayed-RepliesOnce app _ _ _)
execute-RepliesOnce ops history_command app args = history-RepliesOnce app ops args
execute-RepliesOnce ops create_client_command app args =
    create_cluster_client-RepliesOnce app ops args
execute-RepliesOnce ops create_server_command app args =
    create_cluster_server-RepliesOnce app ops args
execute-RepliesOnce ops connect_command app [] = failing-RepliesOnce app _
execute-RepliesOnce ops connect_command app (address ∷ rest) =
    with_client-RepliesOnce app ops _ (λ s. connected-RepliesOnce app _)
execute-RepliesOnce ops wait_command app args = wait-RepliesOnce app ops args
execute-RepliesOnce ops shutdown_command app args = shutdown-RepliesOnce app ops args
