-- ===== src/Cvrdt/State.antt =====
-- cvrdt/state.go: the state that peers exchange, a slice of operations kept sorted, and the
-- replicated document, a site with its state. `append` and `copy` on the slice make a new list:
-- the old slice is not used again where they are called.
pub mod Search
pub mod Order
pub mod Merge
pub mod Document
use conver_go.Base.{
  Bool, List, Option, Outcome, Text, [], false, get_elem?, if◌then◌else◌, insert_at, length, ltb,
  none, not, out_of_fuel, panic, ret, some, suc, true, zero, ℕ, ◌+◌, ◌-◌, ◌/◌, ◌>>=◌, ◌∷◌,
}
use conver_go.Cvrdt.Sequence.{
  SiteError, pending_state, index_out_of_bound, occurrence_out_of_range, no_elements,
}
use conver_go.Cvrdt.Operation.{
  WootOperation, CrdtOperation, woot, below, same, above, compare_operation,
}
use conver_go.Cvrdt.Site.{Site, new_site, compute_op, get_current_data}

abbrev pub CvrdtState : Type 0
CvrdtState = List CrdtOperation

-- The loop of `binarySearch`; reading out of range is a panic.
unfoldable pub search_loop : ℕ → CvrdtState → CrdtOperation → ℕ → ℕ → Outcome (ℕ × Bool)
search_loop zero w op left right = if ltb left right then out_of_fuel else ret (left, false)
search_loop (suc fuel) w op left right = elim (ltb left right) [
  | false ↦ ret (left, false)
  | true ↦
      let mid = left + (right - left) / 2 in
      elim (get_elem? w mid) [
        | none ↦ panic
        | some o ↦ elim (compare_operation o op) [
          | same ↦ ret (mid, true)
          | below ↦ search_loop fuel w op (mid + 1) right
          | above ↦ search_loop fuel w op left mid
        ]
      ]
]

unfoldable pub binary_search : CvrdtState → CrdtOperation → Outcome (ℕ × Bool)
binary_search w op = search_loop (length w) w op 0 (length w)

-- `insert`
unfoldable pub insert_op : CvrdtState → CrdtOperation → Outcome CvrdtState
insert_op w op =
    binary_search w op >>= λ (idx, exists). if exists then ret w else ret (insert_at idx op w)

-- `contains`
unfoldable pub contains_op : CvrdtState → CrdtOperation → Outcome Bool
contains_op w op = binary_search w op >>= λ (idx, exists). ret exists

-- The loop of `GetNewStateFromOp`.
unfoldable pub insert_all : CvrdtState → List CrdtOperation → Outcome CvrdtState
insert_all w [] = ret w
insert_all w (op ∷ ops) = insert_op w op >>= λ w'. insert_all w' ops

unfoldable pub get_new_state_from_op : List CrdtOperation → Outcome CvrdtState
get_new_state_from_op ops = insert_all [] ops

unfoldable pub merge : CvrdtState → CvrdtState → Outcome CvrdtState
merge w [] = ret w
merge w (op ∷ state) =
    (contains_op w op >>= λ known. if known then ret w else insert_op w op) >>= λ w'. merge w' state

-- `Clone` copies the slice.
unfoldable pub clone : CvrdtState → CvrdtState
clone [] = []
clone (op ∷ w) = op ∷ clone w

pub record WootCvrdt : Type 0 where
  pub site : Site
  pub state : CvrdtState
  pub is_state_up_to_date : Bool

unfoldable pub new_woot_cvrdt_with_view : Text → WootCvrdt
new_woot_cvrdt_with_view site_id = record {
  site = new_site site_id;
  state = [];
  is_state_up_to_date = false;
}

-- Is the error an `ErrPendingState`?
unfoldable pub is_pending : SiteError → Bool
is_pending pending_state = true
is_pending index_out_of_bound = false
is_pending occurrence_out_of_range = false
is_pending no_elements = false

-- Does an error end the loop of `UpdateState`?
unfoldable pub is_fatal : Option SiteError → Bool
is_fatal none = false
is_fatal (some e) = not (is_pending e)

-- The loop of `UpdateState`: the site, and the new operations or the error.
unfoldable pub compute_all :
    ℕ → CvrdtState → Site → CvrdtState → CvrdtState → Outcome (Site × Option SiteError × CvrdtState)
compute_all fuel known site new_state [] = ret (site, none, new_state)
compute_all fuel known site new_state (op ∷ ops) = contains_op known op >>= λ seen. elim seen [
  | true ↦ compute_all fuel known site new_state ops
  | false ↦ compute_op fuel site op >>= λ (site', res_op, e). elim (is_fatal e) [
    | true ↦ ret (site', e, new_state)
    | false ↦ insert_op new_state (woot res_op) >>= λ new_state'.
        compute_all fuel known site' new_state' ops
  ]
]

-- `len(newState) > 0`
unfoldable pub is_nonempty : CvrdtState → Bool
is_nonempty [] = false
is_nonempty (op ∷ ops) = true

unfoldable pub update_state : ℕ → WootCvrdt → CvrdtState → Outcome (WootCvrdt × Option SiteError)
update_state fuel w state = compute_all fuel w.state w.site [] state >>= λ (site', e, new_state).
    elim e [
      | some failed ↦ ret (record w { site = site' }, some failed)
      | none ↦ merge w.state new_state >>= λ merged. ret (
        record {
          site = site';
          state = merged;
          is_state_up_to_date = if is_nonempty new_state then false else w.is_state_up_to_date;
        },
        none,
      )
    ]

-- `GetState`
unfoldable pub get_state : WootCvrdt → CvrdtState
get_state w = w.state

-- `Snapshot`: the text, and whether the state had been up to date.
unfoldable pub snapshot : WootCvrdt → WootCvrdt × Text × Bool
snapshot w =
    (record w { is_state_up_to_date = true }, get_current_data w.site, w.is_state_up_to_date)
