-- ===== src/History/Dag/Edges.antt =====
-- `BuildDAG` of history/dag.go: it looks up only nodes that are there.
use conver_go.Base.{
  All, All-In, Bool-cases, In, List, Map, Text, [], ap, arith, eq_refl, if-false, if-true, inl, inr,
  insert, lookup, lookup-insert, not, refl, ret, some, subst, sym, text_Eq, text_eq_iff, ◌&&◌, ◌++◌,
  ◌==◌, ◌∙◌, ◌∷◌, ◌≡◌,
}
use conver_go.Cvrdt.Operation.{LogicalId, CrdtOperation, op_id, happened_before}
use conver_go.History.Dag.{
  DagNode, OperationDag, key_of, init_nodes, add_edge, add_parent, add_child, is_direct, link,
  link_all, add_root, init_edges_from, build_dag, is_member, edges_of, no_parents,
}

-- The node of a text is there.
Present : Map Text DagNode → Text → Type 0
Present nodes id = (n : DagNode) × (lookup id nodes ≡ some n)

-- Every node of the first map is in the second, with the same operation.
Kept : Map Text DagNode → Map Text DagNode → Type 0
Kept m m' =
    (id : Text) (n : DagNode)
    → lookup id m ≡ some n
    → (n' : DagNode) × (lookup id m' ≡ some n') × (n'.operation ≡ n.operation)

Kept-refl : (m : Map Text DagNode) → Kept m m
unfolding Kept
Kept-refl m id n h = (n, h, refl)

Kept-trans : (a b c : Map Text DagNode) → Kept a b → Kept b c → Kept a c
unfolding Kept
Kept-trans a b c f g id n h =
    let (n', h', e) = f id n h in let (n'', h'', e') = g id n' h' in (n'', h'', e' ∙ e)

Present-Kept : (m m' : Map Text DagNode) (id : Text) → Kept m m' → Present m id → Present m' id
unfolding Kept Present
Present-Kept m m' id f (n, h) = let (n', h', e) = f id n h in (n', h')

insert-Kept :
    (m : Map Text DagNode) (id : Text) (n n' : DagNode)
    → lookup id m ≡ some n
    → n'.operation ≡ n.operation
    → Kept m (insert id n' m)
unfolding Kept
insert-Kept m id n n' h e j k at = elim (Bool-cases (id == j)) [
  | inl same ↦ (
    n',
    ground (arith, lookup-insert id j n' m, same),
    e ∙ ap (λ x. x.operation) (one ((text_eq_iff id j).0 same)),
  )
  | inr other ↦ (k, ground (arith, lookup-insert id j n' m, other, at), refl)
]
  where
    one : id ≡ j → n ≡ k
    one s = ground (arith, h, at, s)

add_parent_returns :
    (m : Map Text DagNode) (id : Text) (p : LogicalId)
    → Present m id
    → (m' : Map Text DagNode) × (add_parent m id p ≡ ret m') × Kept m m'
unfolding Present add_parent
add_parent_returns m id p (n, h) = (
  insert id (record n { parents = n.parents ++ (p ∷ []) }) m,
  rw (add_parent, h) refl,
  insert-Kept m id n _ h refl,
)

add_child_returns :
    (m : Map Text DagNode) (id : Text) (c : LogicalId)
    → Present m id
    → (m' : Map Text DagNode) × (add_child m id c ≡ ret m') × Kept m m'
unfolding Present add_child
add_child_returns m id c (n, h) = (
  insert id (record n { children = n.children ++ (c ∷ []) }) m,
  rw (add_child, h) refl,
  insert-Kept m id n _ h refl,
)

add_edge_nodes : (dag : OperationDag) (from to : Text) → (add_edge dag from to).nodes ≡ dag.nodes
unfolding add_edge
add_edge_nodes dag from to = elim (Bool-cases (is_member to (edges_of dag.edges from))) [
  | inl e ↦ ap (λ (d : OperationDag). d.nodes) (if-true _ _ e)
  | inr e ↦ ap (λ (d : OperationDag). d.nodes) (if-false _ _ e)
]

-- One step of the loop over `opA` returns and loses no node.
link_returns :
    (ops : List CrdtOperation) (b : CrdtOperation) (dag : OperationDag) (a : CrdtOperation)
    → Present dag.nodes (key_of a)
    → Present dag.nodes (key_of b)
    → (dag' : OperationDag) × (link ops b dag a ≡ ret dag') × Kept dag.nodes dag'.nodes
unfolding link
link_returns ops b dag a pa pb = elim (Bool-cases (key_of a == key_of b)) [
  | inl same ↦ (dag, if-true _ _ same, Kept-refl dag.nodes)
  | inr other ↦ elim (Bool-cases (happened_before (op_id a) (op_id b) && is_direct a b ops)) [
    | inl direct ↦
        let grown = add_edge dag (key_of a) (key_of b) in
        let same = sym (add_edge_nodes dag (key_of a) (key_of b)) in
        let (m, first, k) =
          add_parent_returns grown.nodes (key_of b) (op_id a)
            (subst (λ x. Present x (key_of b)) same pb) in
        let (m', second, k') =
          add_child_returns m (key_of a) (op_id b)
            (Present-Kept grown.nodes m (key_of a) k (subst (λ x. Present x (key_of a)) same pa)) in
        (
          record grown { nodes = m' },
          if-false _ _ other ∙ (if-true _ _ direct ∙ rw (first, second) refl),
          subst (λ x. Kept x m') (sym same) (Kept-trans grown.nodes m m' k k'),
        )
    | inr apart ↦ (dag, if-false _ _ other ∙ if-false _ _ apart, Kept-refl dag.nodes)
  ]
]

AllPresent : Map Text DagNode → List CrdtOperation → Type 0
AllPresent m ops = All (λ op. Present m (key_of op)) ops

AllPresent-Kept :
    (m m' : Map Text DagNode) (ops : List CrdtOperation)
    → Kept m m'
    → AllPresent m ops
    → AllPresent m' ops
unfolding AllPresent
AllPresent-Kept m m' [] f h = h
AllPresent-Kept m m' (op ∷ ops) f h =
    (Present-Kept m m' (key_of op) f h.0, AllPresent-Kept m m' ops f h.1)

link_all_returns :
    (ops : List CrdtOperation) (b : CrdtOperation) (dag : OperationDag) (rest : List CrdtOperation)
    → AllPresent dag.nodes rest
    → Present dag.nodes (key_of b)
    → (dag' : OperationDag) × (link_all ops b dag rest ≡ ret dag') × Kept dag.nodes dag'.nodes
unfolding link_all AllPresent
link_all_returns ops b dag [] all pb = (dag, refl, Kept-refl dag.nodes)
link_all_returns ops b dag (a ∷ rest) all pb =
    let (mid, one, k) = link_returns ops b dag a all.0 pb in
    let (end, more, k') =
      link_all_returns ops b mid rest (AllPresent-Kept dag.nodes mid.nodes rest k all.1)
        (Present-Kept dag.nodes mid.nodes (key_of b) k pb) in
    (end, rw (link_all, one) more, Kept-trans dag.nodes mid.nodes end.nodes k k')

add_root_returns :
    (dag : OperationDag) (id : Text)
    → Present dag.nodes id
    → (dag' : OperationDag) × (add_root dag id ≡ ret dag') × (dag'.nodes ≡ dag.nodes)
unfolding add_root Present
add_root_returns dag id (n, h) = elim (Bool-cases (no_parents n && not (is_member id dag.roots))) [
  | inl e ↦ (record dag { roots = dag.roots ++ (id ∷ []) }, rw (add_root, h, e) refl, refl)
  | inr e ↦ (dag, rw (add_root, h, e) refl, refl)
]

init_edges_from_returns :
    (ops : List CrdtOperation) (dag : OperationDag) (rest : List CrdtOperation)
    → AllPresent dag.nodes ops
    → AllPresent dag.nodes rest
    → (dag' : OperationDag) × (init_edges_from ops dag rest ≡ ret dag') × Kept dag.nodes dag'.nodes
unfolding init_edges_from AllPresent
init_edges_from_returns ops dag [] all some_of = (dag, refl, Kept-refl dag.nodes)
init_edges_from_returns ops dag (b ∷ rest) all some_of =
    let (mid, one, k) = link_all_returns ops b dag ops all some_of.0 in
    let (rooted, two, e) =
      add_root_returns mid (key_of b) (Present-Kept dag.nodes mid.nodes (key_of b) k some_of.0) in
    let k₁ = subst (λ x. Kept dag.nodes x) (sym e) k in
    let (end, more, k₂) =
      init_edges_from_returns ops rooted rest (AllPresent-Kept dag.nodes rooted.nodes ops k₁ all)
        (AllPresent-Kept dag.nodes rooted.nodes rest k₁ some_of.1) in
    (end, rw (init_edges_from, one, two) more, Kept-trans dag.nodes rooted.nodes end.nodes k₁ k₂)

init_nodes_keeps :
    (m : Map Text DagNode) (ops : List CrdtOperation) (id : Text)
    → Present m id
    → Present (init_nodes m ops) id
unfolding init_nodes Present
init_nodes_keeps m [] id h = h
init_nodes_keeps m (op ∷ ops) id (n, h) =
    init_nodes_keeps (insert (key_of op) (record { operation = op; parents = []; children = [] }) m)
      ops id
      (elim (Bool-cases (key_of op == id)) [
        | inl e ↦ (
          record { operation = op; parents = []; children = [] },
          ground (
            arith,
            lookup-insert (key_of op) id (record { operation = op; parents = []; children = [] }) m,
            e,
          ),
        )
        | inr e ↦ (
          n,
          ground (
            arith,
            lookup-insert (key_of op) id (record { operation = op; parents = []; children = [] }) m,
            e,
            h,
          ),
        )
      ])

init_nodes-AllPresent :
    (m : Map Text DagNode) (ops : List CrdtOperation) → AllPresent (init_nodes m ops) ops
unfolding init_nodes AllPresent Present
init_nodes-AllPresent m [] = tt
init_nodes-AllPresent m (op ∷ ops) =
    let node : DagNode = record { operation = op; parents = []; children = [] } in
    (
      init_nodes_keeps (insert (key_of op) node m) ops (key_of op)
          (node, rw (lookup-insert (key_of op) (key_of op) node m, eq_refl (key_of op)) refl),
      init_nodes-AllPresent (insert (key_of op) node m) ops,
    )

-- The graph of any state is built without a panic, and has a node for every operation of the
-- state, under the text of the operation's id.
pub build_dag_lem :
    (state : List CrdtOperation)
    → (dag : OperationDag) × (build_dag state ≡ ret dag)
      × ((op : CrdtOperation)
          → In op state
          → (n : DagNode) × (lookup (key_of op) dag.nodes ≡ some n))
unfolding build_dag Present AllPresent
build_dag_lem state =
    let nodes = init_nodes [] state in
    let all = init_nodes-AllPresent [] state in
    let (dag, e, k) =
      init_edges_from_returns state (record { roots = []; nodes = nodes; edges = [] }) state all
        all in
    (
      dag,
      e,
      λ op m.
          All-In (λ o. Present dag.nodes (key_of o)) state op
            (open_all dag.nodes state (AllPresent-Kept nodes dag.nodes state k all)) m,
    )
  where
    open_all :
        (m : Map Text DagNode) (ops : List CrdtOperation)
        → AllPresent m ops
        → All (λ o. Present m (key_of o)) ops
    open_all m ops h = h
