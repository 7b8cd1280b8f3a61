-- ===== src/History/Tests.antt =====
-- Runs of history/dag.go.
use conver_go.Base.{In, Text, [], codes, lookup, pos, ret, some, text_Eq, text_eq, ◌∷◌, ◌≡◌}
use conver_go.Cvrdt.Clock.{clock_at}
use conver_go.Cvrdt.Operation.{CrdtOperation, woot, op_id}
use conver_go.Cvrdt.Site.{zero_operation}
use conver_go.History.Dag.{DagNode, OperationDag, key_of, build_dag}
use conver_go.History.Dag.Edges.{build_dag_lem}

program : Unit {0}
unfolding lookup text_eq op_id clock_at
program = tt

abbrev write : Text → CrdtOperation
write site =
    woot (record zero_operation { id = record { site_id = site; clock = (site, pos 1) ∷ [] } })

build_dag_lem_example :
    (dag : OperationDag) × (build_dag (write (codes "a") ∷ write (codes "b") ∷ []) ≡ ret dag)
    × ((op : CrdtOperation)
        → In op (write (codes "a") ∷ write (codes "b") ∷ [])
        → (n : DagNode) × (lookup (key_of op) dag.nodes ≡ some n))
build_dag_lem_example = build_dag_lem (write (codes "a") ∷ write (codes "b") ∷ [])

abbrev node : Text → DagNode
node site = record { operation = write site; parents = []; children = [] }
