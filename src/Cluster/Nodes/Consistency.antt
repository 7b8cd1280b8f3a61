-- ===== src/Cluster/Nodes/Consistency.antt =====
-- The defaults of the node store of cluster/clusters.go: creating, finding, removing and closing.
use conver_go.Base.{
  Bool-cases, Map, Option, Text, [], arith, eq_refl, err, false, has, if-false, if◌then◌else◌, inl,
  inr, insert, lookup, lookup-insert, lookup-remove, none, ok, refl, remove, some, text_Eq,
  text_eq_iff, ◌==◌, ◌∙◌, ◌∷◌, ◌≡◌, ◌≢◌,
}
use conver_go.P2p.Message.{PeerHostInfo, info_Eq, info_eq_iff}
use conver_go.Cluster.Nodes.{
  new_cluster_node_store, Node, cluster_client, cluster_server, get_id, init_node, shut_down, no_id,
  ClusterNodeStore, node_kind_client, node_kind_server, get_node_as_client, init, get_node,
  get_kind_node, create_new_client, get_client, remove_defaults, remove_node,
}

-- The kind under which a node is a default.
unfoldable pub kind_of : Node → Text
kind_of (cluster_client id) = node_kind_client
kind_of (cluster_server id) = node_kind_server

-- No key of a map has two entries.
IsDistinct : Map Text PeerHostInfo → Type 0
IsDistinct [] = Unit
IsDistinct ((k, v) ∷ m) = (lookup k m ≡ none) × IsDistinct m

-- Every node is stored under its own id and is the default of its kind, and every default is a
-- stored node of the kind.
pub IsConsistent : ClusterNodeStore → Type 0
IsConsistent s =
    ((id : PeerHostInfo) (node : Node)
      → lookup id s.nodes ≡ some node
      → (get_id node ≡ id) × (lookup (kind_of node) s.defaults ≡ some id))
    × ((kind : Text) (id : PeerHostInfo)
        → lookup kind s.defaults ≡ some id
        → (node : Node) × (lookup id s.nodes ≡ some node) × (kind_of node ≡ kind))
    × IsDistinct s.defaults

insert-IsDistinct :
    (k : Text) (v : PeerHostInfo) (m : Map Text PeerHostInfo)
    → IsDistinct m
    → IsDistinct (insert k v m)
unfolding IsDistinct insert lookup
insert-IsDistinct k v [] d = (refl, d)
insert-IsDistinct k v ((j, w) ∷ m) d = elim (Bool-cases (j == k)) [
  | inl e ↦ rw e d
  | inr ne ↦ rw ne (
    ground (arith, lookup-insert k j v m, d, ne, text_eq_iff j k, text_eq_iff k j),
    insert-IsDistinct k v m d.1,
  )
]

pub init-IsConsistent :
    (s : ClusterNodeStore) (node : Node)
    → IsConsistent s
    → has (get_id node) s.nodes ≡ false
    → has (kind_of node) s.defaults ≡ false
    → IsConsistent (record {
      nodes = insert (get_id node) node s.nodes;
      defaults = insert (kind_of node) (get_id node) s.defaults;
    })
unfolding IsConsistent has
init-IsConsistent s node wf h k = (
  λ id other found. ground (
    arith,
    wf.0 id other,
    found,
    h,
    k,
    lookup-insert (get_id node) id node s.nodes,
    lookup-insert (kind_of node) (kind_of other) (get_id node) s.defaults,
    info_eq_iff (get_id node) id,
    text_eq_iff (kind_of node) (kind_of other),
  ),
  λ kind id found.
      let at = lookup-insert (kind_of node) kind (get_id node) s.defaults in
      let put = lookup-insert (get_id node) id node s.nodes in
      elim (Bool-cases (kind_of node == kind)) [
        | inl e ↦ (
          node,
          ground (arith, found, at, e, put, info_eq_iff (get_id node) id),
          (text_eq_iff (kind_of node) kind).0 e,
        )
        | inr ne ↦
            let (other, there, same) = wf.1 kind id (ground (arith, found, at, ne)) in
            (other, ground (arith, there, h, put, info_eq_iff (get_id node) id), same)
      ],
  insert-IsDistinct (kind_of node) (get_id node) s.defaults wf.2,
)

-- An id that is not the one given.
other_than : PeerHostInfo → Option PeerHostInfo → Option PeerHostInfo
other_than id none = none
other_than id (some v) = if v == id then none else some v

lookup-remove_defaults :
    (id : PeerHostInfo) (kind : Text) (m : Map Text PeerHostInfo)
    → IsDistinct m
    → lookup kind (remove_defaults id m) ≡ other_than id (lookup kind m)
unfolding remove_defaults lookup IsDistinct other_than
lookup-remove_defaults id kind [] d = refl
lookup-remove_defaults id kind ((j, v) ∷ m) d =
    ground (arith, lookup-remove_defaults id kind m d.1, d.0, text_eq_iff j kind)

remove_defaults-IsDistinct :
    (id : PeerHostInfo) (m : Map Text PeerHostInfo)
    → IsDistinct m
    → IsDistinct (remove_defaults id m)
unfolding remove_defaults IsDistinct other_than
remove_defaults-IsDistinct id [] d = d
remove_defaults-IsDistinct id ((j, v) ∷ m) d = elim (Bool-cases (v == id)) [
  | inl e ↦ rw (remove_defaults, e) (remove_defaults-IsDistinct id m d.1)
  | inr ne ↦
      rw (remove_defaults, ne)
        (
          ground (arith, lookup-remove_defaults id j m d.1, d.0),
          remove_defaults-IsDistinct id m d.1,
        )
]

remove-IsConsistent :
    (s : ClusterNodeStore) (id : PeerHostInfo)
    → IsConsistent s
    → IsConsistent (record { nodes = remove id s.nodes; defaults = remove_defaults id s.defaults })
unfolding IsConsistent other_than
remove-IsConsistent s id wf = (
  λ j other found. ground (
    arith,
    wf.0 j other,
    found,
    lookup-remove id j s.nodes,
    info_eq_iff id j,
    info_eq_iff j id,
    lookup-remove_defaults id (kind_of other) s.defaults wf.2,
  ),
  λ kind j found.
      let kept : (lookup kind s.defaults ≡ some j) × ((j == id) ≡ false) =
        ground (arith, found, lookup-remove_defaults id kind s.defaults wf.2) in
      let (node, there, same) = wf.1 kind j kept.0 in
      (
        node,
        ground
            (arith, there, kept.1, lookup-remove id j s.nodes, info_eq_iff id j, info_eq_iff j id),
        same,
      ),
  remove_defaults-IsDistinct id s.defaults wf.2,
)

abbrev pub with_node : ClusterNodeStore → Node → ClusterNodeStore
with_node s node = record {
  nodes = insert (get_id node) node s.nodes;
  defaults = insert (kind_of node) (get_id node) s.defaults;
}

get_kind_node-with_node :
    (s : ClusterNodeStore) (node : Node) → get_kind_node (with_node s node) (kind_of node) ≡ ok node
unfolding get_kind_node get_node
get_kind_node-with_node s node =
    rw
      (
        get_kind_node,
        lookup-insert (kind_of node) (kind_of node) (get_id node) s.defaults,
        eq_refl (kind_of node),
        get_node,
        lookup-insert (get_id node) (get_id node) node s.nodes,
        eq_refl (get_id node),
      )
      refl

-- In a consistent store, a client whose id is new and that is the first of its kind is stored,
-- started and found as the client, and the store stays consistent.
pub create_new_client_lem :
    (s : ClusterNodeStore) (cluster_info id : PeerHostInfo)
    → IsConsistent s
    → has id s.nodes ≡ false
    → has node_kind_client s.defaults ≡ false
    → (s' : ClusterNodeStore) × (create_new_client s cluster_info id ≡ ok (s', init_node id ∷ []))
      × IsConsistent s'
      × (get_client s' ≡ ok (cluster_client id))
unfolding create_new_client init get_id get_client get_node_as_client kind_of
create_new_client_lem s cluster_info id wf h k = (
  with_node s (cluster_client id),
  if-false _ _ h ∙ if-false _ _ k,
  init-IsConsistent s (cluster_client id) wf h k,
  rw (get_client, get_kind_node-with_node s (cluster_client id)) refl,
)

-- Removing a stored node from a consistent store shuts it down. It is neither found nor a default
-- afterwards, and the store stays consistent.
pub remove_node_lem :
    (s : ClusterNodeStore) (id : PeerHostInfo) (node : Node)
    → IsConsistent s
    → lookup id s.nodes ≡ some node
    → (s' : ClusterNodeStore) × (remove_node s id ≡ ok (s', shut_down id ∷ []))
      × IsConsistent s'
      × (get_node s' id ≡ err no_id)
      × ((kind : Text) → lookup kind s'.defaults ≢ some id)
unfolding remove_node get_node other_than IsConsistent
remove_node_lem s id node wf h = (
  record { nodes = remove id s.nodes; defaults = remove_defaults id s.defaults },
  rw (remove_node, get_node, h, (wf.0 id node h).0) refl,
  remove-IsConsistent s id wf,
  rw (get_node, lookup-remove id id s.nodes, eq_refl id) refl,
  λ kind k. ground (arith, k, lookup-remove_defaults id kind s.defaults wf.2, eq_refl id),
)

pub new_cluster_node_store-IsConsistent : IsConsistent new_cluster_node_store
unfolding IsConsistent IsDistinct new_cluster_node_store lookup
new_cluster_node_store-IsConsistent = (λ id node h. ground arith, λ kind id h. ground arith, tt)
