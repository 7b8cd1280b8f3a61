-- ===== src/Cluster/Nodes.antt =====
-- cluster/clusters.go: the store of the nodes of a process. A node is its id and its dynamic
-- type; what a store asks of a node, `Init` in a goroutine and `ShutDown`, is the list of calls
-- of a step.
pub mod Consistency
use conver_go.Base.{
  List, Map, Result, Text, [], codes, err, has, if◌then◌else◌, insert, keys, lookup, none, ok,
  remove, some, text_Eq, ◌++◌, ◌==◌, ◌∷◌,
}
use conver_go.P2p.Message.{PeerHostInfo, info_Eq}

-- `NodeKind`, a string, and its two values.
abbrev pub node_kind_client : Text
node_kind_client = codes "client"

abbrev pub node_kind_server : Text
node_kind_server = codes "server"

-- The dynamic types of a `Node`.
pub data Node : Type 0 where
  cluster_client cluster_server : PeerHostInfo → Node

-- `GetId`
unfoldable pub get_id : Node → PeerHostInfo
get_id (cluster_client id) = id
get_id (cluster_server id) = id

pub data Call : Type 0 where
  init_node shut_down : PeerHostInfo → Call

pub data StoreError : Type 0 where
  id_exists kind_exists no_id no_default wrong_type : StoreError

pub record ClusterNodeStore : Type 0 where
  pub nodes : Map PeerHostInfo Node
  pub defaults : Map Text PeerHostInfo

unfoldable pub new_cluster_node_store : ClusterNodeStore
new_cluster_node_store = record { nodes = []; defaults = [] }

-- `GetNodeAs` at the two types of node.
unfoldable pub get_node_as_client : Node → Result StoreError Node
get_node_as_client (cluster_client id) = ok (cluster_client id)
get_node_as_client (cluster_server id) = err wrong_type

unfoldable pub get_node_as_server : Node → Result StoreError Node
get_node_as_server (cluster_client id) = err wrong_type
get_node_as_server (cluster_server id) = ok (cluster_server id)

unfoldable pub init :
    ClusterNodeStore → Node → Text → Result StoreError (ClusterNodeStore × List Call)
init s node kind =
    if has (get_id node) s.nodes
    then err id_exists
    else if has kind s.defaults
    then err kind_exists
    else ok (
      record {
        nodes = insert (get_id node) node s.nodes;
        defaults = insert kind (get_id node) s.defaults;
      },
      init_node (get_id node) ∷ [],
    )

unfoldable pub get_node : ClusterNodeStore → PeerHostInfo → Result StoreError Node
get_node s id = elim (lookup id s.nodes) [ none ↦ err no_id | some node ↦ ok node ]

unfoldable pub get_kind_node : ClusterNodeStore → Text → Result StoreError Node
get_kind_node s kind = elim (lookup kind s.defaults) [
  | none ↦ err no_default
  | some id ↦ get_node s id
]

-- `CreateNewClient` and `CreateNewServer`: the node that is made has the id that is given.
unfoldable pub create_new_client :
    ClusterNodeStore
    → PeerHostInfo
    → PeerHostInfo
    → Result StoreError (ClusterNodeStore × List Call)
create_new_client s cluster_info id = init s (cluster_client id) node_kind_client

unfoldable pub create_new_server :
    ClusterNodeStore → PeerHostInfo → Result StoreError (ClusterNodeStore × List Call)
create_new_server s id = init s (cluster_server id) node_kind_server

unfoldable pub get_client : ClusterNodeStore → Result StoreError Node
get_client s = elim (get_kind_node s node_kind_client) [
  | err e ↦ err e
  | ok node ↦ get_node_as_client node
]

unfoldable pub get_server : ClusterNodeStore → Result StoreError Node
get_server s = elim (get_kind_node s node_kind_server) [
  | err e ↦ err e
  | ok node ↦ get_node_as_server node
]

-- The loop of `Remove` over the defaults.
unfoldable pub remove_defaults : PeerHostInfo → Map Text PeerHostInfo → Map Text PeerHostInfo
remove_defaults id [] = []
remove_defaults id ((kind, def_id) ∷ defaults) =
    if def_id == id
    then remove_defaults id defaults
    else (kind, def_id) ∷ remove_defaults id defaults

unfoldable pub remove_node :
    ClusterNodeStore → PeerHostInfo → Result StoreError (ClusterNodeStore × List Call)
remove_node s id = elim (get_node s id) [
  | err e ↦ err e
  | ok node ↦ ok (
    record { nodes = remove id s.nodes; defaults = remove_defaults id s.defaults },
    shut_down (get_id node) ∷ [],
  )
]

-- The loop of `Close` over the ids: the store, the calls, and the errors that are joined.
unfoldable pub remove_nodes :
    ClusterNodeStore → List PeerHostInfo → ClusterNodeStore × List Call × List StoreError
remove_nodes s [] = (s, [], [])
remove_nodes s (id ∷ ids) = elim (remove_node s id) [
  | err e ↦ let (s', calls, errors) = remove_nodes s ids in (s', calls, e ∷ errors)
  | ok (s', first) ↦ let (s'', calls, errors) = remove_nodes s' ids in (s'', first ++ calls, errors)
]

unfoldable pub close : ClusterNodeStore → ClusterNodeStore × List Call × List StoreError
close s = remove_nodes s (keys s.nodes)
