-- ===== src/Cvrdt/Tests/Orders.antt =====
-- Runs of cvrdt/clock.go, cvrdt/operations.go and the ordered state of cvrdt/state.go.
use conver_go.Base.{
  Bool, In, Map, Text, [], ap, arith, codes, eqb, has, if◌then◌else◌, insert, lookup, ltb, ltb_ℤ,
  pos, refl, ret, suc_ℤ, sym, text_Eq, text_eq, text_lt, true, ℕ, ℤ, ◌>>=◌, ◌↔◌, ◌∙◌, ◌∷◌, ◌≡◌, ◌≢◌,
  ◌≤ℤ◌, ◌⊎◌,
}
use conver_go.Cvrdt.Clock.{
  VectorClock, clock_at, value, increment, update_entry, update_entries, update, get, max_value,
}
use conver_go.Cvrdt.Clock.Merge.{update_converges, increment_lem}
use conver_go.Cvrdt.Operation.{
  LogicalId, CrdtOperation, woot, op_id, below, same, above, get_logical_clock, entries_below,
  entries_new, happened_before_entries, happened_before, lid_less, lid_equals, compare_id,
  compare_operation,
}
use conver_go.Cvrdt.Operation.Causality.{IsClock, Dominated, happened_before_iff}
use conver_go.Cvrdt.Operation.Compare.{compare_id_cycle, compare_id_refl}
use conver_go.Cvrdt.Site.{zero_operation}
use conver_go.Cvrdt.State.{
  CvrdtState, WootCvrdt, new_woot_cvrdt_with_view, search_loop, binary_search, contains_op, merge,
}
use conver_go.Cvrdt.State.Search.{Found, binary_search_lem}
use conver_go.Cvrdt.State.Order.{IsOrder, IsSorted}
use conver_go.Cvrdt.State.Merge.{merge_comm, merge_converges}
use conver_go.Cvrdt.Operation.{
  CrdtOperation, LogicalId, above, below, compare_id, compare_operation, entries_below, entries_new,
  get_logical_clock, happened_before, happened_before_entries, lid_equals, lid_less, op_id, same,
  woot,
}
use conver_go.Cvrdt.Site.{zero_operation}
use conver_go.Cvrdt.State.{
  CvrdtState, WootCvrdt, binary_search, contains_op, merge, new_woot_cvrdt_with_view, search_loop,
}

program : Unit {0}
unfolding lookup insert has text_eq text_lt clock_at value increment update_entry update_entries
    update get get_logical_clock entries_below entries_new happened_before_entries happened_before
    lid_less lid_equals compare_id compare_operation op_id search_loop binary_search contains_op
program = tt

abbrev site_a : Text
site_a = codes "a"

-- A chain of operations of one site.
abbrev lid : ℕ → LogicalId
lid n = record { site_id = site_a; clock = (site_a, pos n) ∷ [] }

abbrev op : ℕ → CrdtOperation
op n = woot (record zero_operation { id = lid n })

IsChained : CrdtOperation → Type 0
IsChained o = (n : ℕ) × (o ≡ op n)

compare_chain :
    (n m : ℕ)
    → compare_operation (op n) (op m) ≡ (if eqb n m then same else if ltb n m then below else above)
unfolding program
compare_chain n m = ground arith

chain-IsOrder : IsOrder IsChained
unfolding IsChained compare_operation
chain-IsOrder = record {
  compare_self = λ a. compare_id_refl (op_id a);
  eq_of_same = λ a b (n, e) (m, f) h.
      let k : compare_operation (op n) (op m) ≡ same = rw (e, f) at h in
      let one : n ≡ m = ground (arith, k, compare_chain n m) in e ∙ (ap op one ∙ sym f);
  above_of_below = λ a b (n, e) (m, f) h.
      let k : compare_operation (op n) (op m) ≡ below = rw (e, f) at h in
      rw (e, f) (ground (arith, k, compare_chain n m, compare_chain m n));
  below_of_above = λ a b (n, e) (m, f) h.
      let k : compare_operation (op n) (op m) ≡ above = rw (e, f) at h in
      rw (e, f) (ground (arith, k, compare_chain n m, compare_chain m n));
  below_trans = λ a b c (n, e) (m, f) (l, g) h h'.
      let k : compare_operation (op n) (op m) ≡ below = rw (e, f) at h in
      let k' : compare_operation (op m) (op l) ≡ below = rw (f, g) at h' in
      rw (e, g) (ground (arith, k, k', compare_chain n m, compare_chain m l, compare_chain n l));
}

lid-IsClock : (n : ℕ) → IsClock (lid n).clock
unfolding program
lid-IsClock n = record { distinct = (refl, tt); positive = λ site. ground arith }

happened_before_iff_example :
    (happened_before (lid 1) (lid 2) ≡ true)
    ↔ (((lid 1).clock ≢ []) × Dominated (lid 1).clock (lid 2).clock)
happened_before_iff_example = happened_before_iff (lid 1) (lid 2) (lid-IsClock 1) (lid-IsClock 2)

-- Site c writes once; b writes; then a writes after c's.
abbrev from_c : LogicalId
from_c = record { site_id = codes "c"; clock = (codes "c", pos 1) ∷ [] }

abbrev from_a : LogicalId
from_a = record { site_id = site_a; clock = (codes "c", pos 1) ∷ (site_a, pos 1) ∷ [] }

abbrev from_b : LogicalId
from_b = record { site_id = codes "b"; clock = (codes "b", pos 1) ∷ [] }

compare_id_cycle_example :
    (compare_id from_c from_a ≡ below)
    × (compare_id from_a from_b ≡ below)
    × (compare_id from_b from_c ≡ below)
unfolding program
compare_id_cycle_example = compare_id_cycle from_c from_a from_b refl refl refl refl refl refl refl

abbrev three : CvrdtState
three = op 1 ∷ op 4 ∷ op 7 ∷ []

binary_search_lem_example :
    (i : ℕ) × (hit : Bool) × (binary_search three (op 4) ≡ ret (i, hit))
    × Found three (op 4) 3 i hit
binary_search_lem_example = binary_search_lem three (op 4)

merge_comm_example :
    (u : CvrdtState) × (merge (op 1 ∷ op 4 ∷ []) (op 2 ∷ []) ≡ ret u)
    × (merge (op 2 ∷ []) (op 1 ∷ op 4 ∷ []) ≡ ret u)
    × IsSorted u
    × ((o : CrdtOperation) → In o u ↔ (In o (op 1 ∷ op 4 ∷ []) ⊎ In o (op 2 ∷ [])))
unfolding IsChained
merge_comm_example =
    merge_comm IsChained chain-IsOrder (op 1 ∷ op 4 ∷ []) (op 2 ∷ []) ((1, refl), ((4, refl), tt))
      ((2, refl), tt) ((compare_chain 1 4, tt), (tt, tt)) (tt, tt)

merge_converges_example :
    (u : CvrdtState) × ((merge (op 1 ∷ []) (op 2 ∷ []) >>= λ v. merge v (op 3 ∷ [])) ≡ ret u)
    × ((merge (op 1 ∷ []) (op 3 ∷ []) >>= λ v. merge v (op 2 ∷ [])) ≡ ret u)
    × (merge u (op 2 ∷ []) ≡ ret u)
unfolding IsChained
merge_converges_example =
    merge_converges IsChained chain-IsOrder (op 1 ∷ []) (op 2 ∷ []) (op 3 ∷ []) ((1, refl), tt)
      ((2, refl), tt) ((3, refl), tt) (tt, tt)

abbrev clock_a : VectorClock
clock_a = record { local_id = site_a; clocks = (site_a, pos 2) ∷ [] }

abbrev clock_b : Map Text ℤ
clock_b = (codes "b", pos 3) ∷ (site_a, pos 1) ∷ []

update_converges_example :
    (lookup site_a (update (update clock_a clock_b) (lid 5).clock).clocks
      ≡ lookup site_a (update (update clock_a (lid 5).clock) clock_b).clocks)
    × (lookup site_a (update (update clock_a clock_b) clock_b).clocks
        ≡ lookup site_a (update clock_a clock_b).clocks)
unfolding program
update_converges_example =
    update_converges clock_a clock_b (lid 5).clock site_a (refl, (refl, tt)) (refl, tt)

increment_lem_example :
    (value (increment clock_a).0
      ≡ (if ltb_ℤ (value clock_a) max_value then suc_ℤ (value clock_a) else value clock_a))
    × ((increment clock_a).1 ≡ value (increment clock_a).0)
    × (value (increment clock_a).0 ≤ℤ max_value)
    × ((k : Text) → k ≢ site_a → get (increment clock_a).0 k ≡ get clock_a k)
unfolding program
increment_lem_example = increment_lem clock_a (omega arith)

abbrev document : WootCvrdt
document = record (new_woot_cvrdt_with_view site_a) { state = three }
