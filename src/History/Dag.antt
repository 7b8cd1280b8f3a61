-- ===== src/History/Dag.antt =====
-- history/dag.go: the graph of operations, by the text of their ids. A node is reached through a
-- pointer: changing it in place is changing the entry of the map, and a missing one is a panic.
pub mod Edges
pub mod Concurrency
use conver_go.Base.{
  Bool, List, Map, Outcome, Text, [], decimal, eqb, eqb_ℤ, false, has, if◌then◌else◌, insert,
  length, lookup, negsuc, none, not, out_of_fuel, panic, pos, ret, some, suc, text_Eq, text_lt,
  true, zero, ℕ, ℤ, ◌&&◌, ◌++◌, ◌+◌, ◌==◌, ◌>>=◌, ◌||◌, ◌∷◌,
}
use conver_go.Cvrdt.Operation.{LogicalId, CrdtOperation, op_id, happened_before, get_logical_clock}

unfoldable pub signed_decimal : ℤ → Text
signed_decimal (pos n) = decimal n
signed_decimal (negsuc n) = 45 ∷ decimal (suc n)

-- `String` of a logical identifier (cvrdt/operations.go)
unfoldable pub lid_string : LogicalId → Text
lid_string lid = lid.site_id ++ (95 ∷ signed_decimal (get_logical_clock lid))

-- The text of an operation's id.
unfoldable pub key_of : CrdtOperation → Text
key_of op = lid_string (op_id op)

pub record DagNode : Type 0 where
  pub operation : CrdtOperation
  pub parents : List LogicalId
  pub children : List LogicalId

-- `Roots` is a set: the list of its keys.
pub record OperationDag : Type 0 where
  pub roots : List Text
  pub nodes : Map Text DagNode
  pub edges : Map Text (List Text)

unfoldable pub init_nodes : Map Text DagNode → List CrdtOperation → Map Text DagNode
init_nodes nodes [] = nodes
init_nodes nodes (op ∷ ops) =
    init_nodes (insert (key_of op) (record { operation = op; parents = []; children = [] }) nodes)
      ops

unfoldable pub is_member : Text → List Text → Bool
is_member t [] = false
is_member t (s ∷ ss) = if s == t then true else is_member t ss

-- `Edges[from]`, where a missing entry reads as no edge.
unfoldable pub edges_of : Map Text (List Text) → Text → List Text
edges_of edges from = elim (lookup from edges) [ none ↦ [] | some tos ↦ tos ]

unfoldable pub add_edge : OperationDag → Text → Text → OperationDag
add_edge dag from to =
    if is_member to (edges_of dag.edges from)
    then dag
    else record dag { edges = insert from (edges_of dag.edges from ++ (to ∷ [])) dag.edges }

unfoldable pub add_parent : Map Text DagNode → Text → LogicalId → Outcome (Map Text DagNode)
add_parent nodes id parent = elim (lookup id nodes) [
  | none ↦ panic
  | some n ↦ ret (insert id (record n { parents = n.parents ++ (parent ∷ []) }) nodes)
]

unfoldable pub add_child : Map Text DagNode → Text → LogicalId → Outcome (Map Text DagNode)
add_child nodes id child = elim (lookup id nodes) [
  | none ↦ panic
  | some n ↦ ret (insert id (record n { children = n.children ++ (child ∷ []) }) nodes)
]

-- The loop over `opC`: does no other operation stand between the two?
unfoldable pub is_direct : CrdtOperation → CrdtOperation → List CrdtOperation → Bool
is_direct a b [] = true
is_direct a b (c ∷ ops) =
    let rest = is_direct a b ops in
    if (key_of c == key_of a) || (key_of c == key_of b)
    then rest
    else if happened_before (op_id a) (op_id c) && happened_before (op_id c) (op_id b)
    then false
    else rest

-- What the loop over `opA` does for one operation.
unfoldable pub link :
    List CrdtOperation → CrdtOperation → OperationDag → CrdtOperation → Outcome OperationDag
link ops b dag a =
    if key_of a == key_of b
    then ret dag
    else if happened_before (op_id a) (op_id b) && is_direct a b ops
    then (let dag' = add_edge dag (key_of a) (key_of b) in
        add_parent dag'.nodes (key_of b) (op_id a) >>= λ nodes.
        add_child nodes (key_of a) (op_id b) >>= λ nodes'. ret (record dag' { nodes = nodes' }))
    else ret dag

unfoldable pub link_all :
    List CrdtOperation → CrdtOperation → OperationDag → List CrdtOperation → Outcome OperationDag
link_all ops b dag [] = ret dag
link_all ops b dag (a ∷ rest) = link ops b dag a >>= λ dag'. link_all ops b dag' rest

-- `len(node.Parents) == 0`
unfoldable pub no_parents : DagNode → Bool
no_parents n = elim n.parents [ [] ↦ true | _ ∷ _ ↦ false ]

-- The end of the outer loop: an operation without parents is a root.
unfoldable pub add_root : OperationDag → Text → Outcome OperationDag
add_root dag id = elim (lookup id dag.nodes) [
  | none ↦ panic
  | some n ↦
      if no_parents n && not (is_member id dag.roots)
      then ret (record dag { roots = dag.roots ++ (id ∷ []) })
      else ret dag
]

unfoldable pub init_edges_from :
    List CrdtOperation → OperationDag → List CrdtOperation → Outcome OperationDag
init_edges_from ops dag [] = ret dag
init_edges_from ops dag (b ∷ rest) = link_all ops b dag ops >>= λ dag'.
    add_root dag' (key_of b) >>= λ dag''. init_edges_from ops dag'' rest

unfoldable pub build_dag : List CrdtOperation → Outcome OperationDag
build_dag state =
    init_edges_from state (record { roots = []; nodes = init_nodes [] state; edges = [] }) state

-- `HasPath` looks both nodes up without a test.
unfoldable pub has_path : OperationDag → Text → Text → Outcome Bool
has_path dag id₁ id₂ = elim (lookup id₁ dag.nodes) [
  | none ↦ panic
  | some n₁ ↦ elim (lookup id₂ dag.nodes) [
    | none ↦ panic
    | some n₂ ↦ ret (happened_before (op_id n₁.operation) (op_id n₂.operation))
  ]
]

unfoldable pub is_concurrent : OperationDag → Text → Text → Outcome Bool
is_concurrent dag id₁ id₂ =
    if id₁ == id₂
    then ret false
    else (has_path dag id₁ id₂ >>= λ forth.
        if forth then ret false else (has_path dag id₂ id₁ >>= λ back. ret (not back)))

-- `slices.Sort` on strings.
unfoldable pub insert_sorted : Text → List Text → List Text
insert_sorted t [] = t ∷ []
insert_sorted t (s ∷ ss) = if text_lt s t then s ∷ insert_sorted t ss else t ∷ s ∷ ss

unfoldable pub sort : List Text → List Text
sort [] = []
sort (t ∷ ts) = insert_sorted t (sort ts)

unfoldable pub indegree_of : Map Text ℤ → Text → ℤ
indegree_of indegree id = elim (lookup id indegree) [ none ↦ pos 0 | some n ↦ n ]

unfoldable pub init_indegree : Map Text DagNode → Map Text ℤ
init_indegree [] = []
init_indegree ((id, n) ∷ nodes) = insert id (pos (length n.parents)) (init_indegree nodes)

unfoldable pub pred_ℤ : ℤ → ℤ
pred_ℤ (pos zero) = negsuc 0
pred_ℤ (pos (suc n)) = pos n
pred_ℤ (negsuc n) = negsuc (suc n)

-- The loop over the children of a processed node.
unfoldable pub unlock : Map Text ℤ → List Text → List Text → Map Text ℤ × List Text
unlock indegree next [] = (indegree, next)
unlock indegree next (child ∷ children) =
    let n = pred_ℤ (indegree_of indegree child) in
    unlock (insert child n indegree) (if eqb_ℤ n (pos 0) then next ++ (child ∷ []) else next)
      children

-- The loop over one layer: the layer's ids, and the next layer.
unfoldable pub process_layer :
    OperationDag
    → Map Text ℤ
    → List LogicalId
    → List Text
    → List Text
    → Outcome (Map Text ℤ × List LogicalId × List Text)
process_layer dag indegree layer next [] = ret (indegree, layer, next)
process_layer dag indegree layer next (id ∷ current) = elim (lookup id dag.nodes) [
  | none ↦ panic
  | some n ↦
      let (indegree', next') = unlock indegree next (sort (edges_of dag.edges id)) in
      process_layer dag indegree' (layer ++ (op_id n.operation ∷ [])) next' current
]

-- The loop over the layers, with the number of processed nodes.
unfoldable pub process_layers :
    ℕ
    → OperationDag
    → Map Text ℤ
    → List (List LogicalId)
    → ℕ
    → List Text
    → Outcome (List (List LogicalId) × ℕ)
process_layers fuel dag indegree layers processed [] = ret (layers, processed)
process_layers zero dag indegree layers processed (id ∷ current) = out_of_fuel
process_layers (suc fuel) dag indegree layers processed (id ∷ current) =
    process_layer dag indegree [] [] (id ∷ current) >>= λ (indegree', layer, next).
    process_layers fuel dag indegree' (layers ++ (layer ∷ [])) (processed + length (id ∷ current))
      (sort next)

unfoldable pub get_topological_layers : ℕ → OperationDag → Outcome (List (List LogicalId))
get_topological_layers fuel dag = elim dag.nodes [
  | [] ↦ ret []
  | _ ∷ _ ↦
      process_layers fuel dag (init_indegree dag.nodes) [] 0 (sort dag.roots)
      >>= λ (layers, processed). if eqb processed (length dag.nodes) then ret layers else panic
]

unfoldable pub texts_eq : List Text → List Text → Bool
texts_eq [] [] = true
texts_eq (s ∷ ss) (t ∷ ts) = (s == t) && texts_eq ss ts
texts_eq _ _ = false

unfoldable pub has_nodes : Map Text DagNode → Map Text DagNode → Bool
has_nodes other [] = true
has_nodes other ((id, n) ∷ nodes) = has id other && has_nodes other nodes

unfoldable pub has_edges : Map Text (List Text) → Map Text (List Text) → Bool
has_edges other [] = true
has_edges other ((from, tos) ∷ edges) = elim (lookup from other) [
  | none ↦ false
  | some other_tos ↦ texts_eq (sort tos) (sort other_tos) && has_edges other edges
]

-- `Equals`
unfoldable pub dag_equals : OperationDag → OperationDag → Bool
dag_equals dag other =
    eqb (length dag.nodes) (length other.nodes)
    && has_nodes other.nodes dag.nodes
    && has_edges other.edges dag.edges

unfoldable pub count_edges : Map Text (List Text) → ℕ
count_edges [] = 0
count_edges ((from, tos) ∷ edges) = length tos + count_edges edges
