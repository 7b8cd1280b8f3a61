-- ===== src/Cvrdt/Site/Pending.antt =====
-- `tryComputePendings` and `ComputeOp` of cvrdt/site.go: the queue of operations that wait for
-- their neighbours.
use conver_go.Base.{
  All, List, List-cases, [], ap, arith, false, get_elem?, get_elem?-some, inl, inr, insert_at,
  length, length-append, none, out_of_fuel, refl, ret, some, suc, zero, ℕ, ◌++◌, ◌<◌, ◌∙◌, ◌∷◌, ◌≡◌,
  ◌≢◌, ◌≤◌,
}
use conver_go.Cvrdt.Clock.{update}
use conver_go.Cvrdt.Character.{import_data}
use conver_go.Cvrdt.Sequence.{pending_state, get_pos}
use conver_go.Cvrdt.Operation.{WootOperation, woot, is_deletion}
use conver_go.Cvrdt.Site.{Site, is_executable, try_compute_from, try_compute_pendings, compute_op}
use conver_go.Cvrdt.Site.External.{compute_ext_op-pending, compute_ext_op-insertion}
use conver_go.Cvrdt.Site.Integrate.{IsWoot}

-- No operation of a list is executable at a site.
abbrev pub AllBlocked : Site → List WootOperation → Type 0
AllBlocked s ops = All (λ op. is_executable s op ≡ false) ops

-- The test reads nothing but the characters.
is_executable-queue :
    (s : Site) (q : List WootOperation) (op : WootOperation)
    → is_executable (record s { pending_ops = q }) op ≡ is_executable s op
unfolding is_executable
is_executable-queue s q op = refl

AllBlocked-queue :
    (s : Site) (q ops : List WootOperation)
    → AllBlocked s ops
    → AllBlocked (record s { pending_ops = q }) ops
AllBlocked-queue s q [] h = tt
AllBlocked-queue s q (op ∷ ops) h = (is_executable-queue s q op ∙ h.0, AllBlocked-queue s q ops h.1)

AllBlocked-append :
    (s : Site) (ops : List WootOperation) (op : WootOperation)
    → AllBlocked s ops
    → is_executable s op ≡ false
    → AllBlocked s (ops ++ op ∷ [])
AllBlocked-append s [] op h k = (k, tt)
AllBlocked-append s (o ∷ ops) op h k = (h.0, AllBlocked-append s ops op h.1 k)

AllBlocked-get_elem? :
    (s : Site) (ops : List WootOperation) (i : ℕ) (op : WootOperation)
    → AllBlocked s ops
    → get_elem? ops i ≡ some op
    → is_executable s op ≡ false
AllBlocked-get_elem? s [] i op h e = cc
AllBlocked-get_elem? s (o ∷ ops) zero op h e = ground arith
AllBlocked-get_elem? s (o ∷ ops) (suc i) op h e = AllBlocked-get_elem? s ops i op h.1 e

blocked_loop :
    (fuel : ℕ) (s : Site) (i : ℕ)
    → AllBlocked s s.pending_ops
    → i < length s.pending_ops
    → try_compute_from fuel s i ≡ out_of_fuel
unfolding try_compute_from
blocked_loop zero s i h lt = refl
blocked_loop (suc fuel) s i h lt =
    let (op, e) = get_elem?-some s.pending_ops i lt in
    let blocked = AllBlocked-get_elem? s s.pending_ops i op h e in
    let longer = s.pending_ops ++ op ∷ [] in
    let again =
      blocked_loop fuel (record s { pending_ops = longer }) (suc i)
        (AllBlocked-queue s longer longer (AllBlocked-append s s.pending_ops op h blocked))
        (omega (arith, length-append s.pending_ops (op ∷ []))) in
    rw (e, try_compute_from) (rw (compute_ext_op-pending fuel s op blocked) again)

-- When operations wait and none of them is executable, `tryComputePendings` never ends: each
-- attempt puts its operation at the end of the queue again, so the loop never reaches the end.
pub try_compute_pendings_diverges :
    (fuel : ℕ) (s : Site)
    → s.pending_ops ≢ []
    → AllBlocked s s.pending_ops
    → try_compute_pendings fuel s ≡ out_of_fuel
unfolding try_compute_pendings
try_compute_pendings_diverges fuel s ne h = elim (List-cases s.pending_ops) [
  | inl empty ↦ absurd (ne empty)
  | inr (op, ops, e) ↦ blocked_loop fuel s 0 h (omega (arith, ap length e))
]

-- With nothing waiting it ends at once.
pub try_compute_pendings-empty :
    (fuel : ℕ) (s : Site) → s.pending_ops ≡ [] → try_compute_pendings (suc fuel) s ≡ ret s
unfolding try_compute_pendings try_compute_from
try_compute_pendings-empty fuel s e = rw e

-- `ComputeOp` of an operation that cannot be executed yet returns the operation with the pending
-- error; it is queued, and the text stays as it is.
pub compute_op-pending :
    (fuel : ℕ) (s : Site) (op : WootOperation)
    → is_executable s op ≡ false
    → compute_op fuel s (woot op)
      ≡ ret (record s { pending_ops = s.pending_ops ++ op ∷ [] }, op, some pending_state)
unfolding compute_op
compute_op-pending fuel s op h = rw (compute_ext_op-pending fuel s op h)

-- `ComputeOp` of a peer's operation that is no deletion, with a new character whose neighbours
-- stand in order, at a site with the invariant where nothing waits: with fuel for the length of
-- the sequence and one more it returns the operation without an error, having inserted its
-- character once between its neighbours.
pub compute_op-insertion :
    (fuel : ℕ) (s : Site) (op : WootOperation) (a b : ℕ)
    → IsWoot s.characters
    → length s.characters ≤ suc fuel
    → s.pending_ops ≡ []
    → is_deletion op.op_type ≡ false
    → get_pos s.characters op.character.id ≡ none
    → get_pos s.characters op.character.previous_id ≡ some a
    → get_pos s.characters op.character.next_id ≡ some b
    → a < b
    → (k : ℕ) × (s' : Site) × (compute_op (suc fuel) s (woot op) ≡ ret (s', op, none))
      × (s'.characters ≡ insert_at k (import_data op.character) s.characters)
      × (a < k)
      × (k ≤ b)
      × IsWoot s'.characters
      × (s'.pending_ops ≡ [])
unfolding compute_op
compute_op-insertion fuel s op a b i enough idle ins fresh hp hn lt =
    let (k, result, above, below, kept) =
      compute_ext_op-insertion (suc fuel) s op a b i enough ins fresh hp hn lt in
    let s' : Site = record s {
      clock = update s.clock op.id.clock;
      characters = insert_at k (import_data op.character) s.characters;
    } in
    (
      k,
      s',
      rw (result, compute_op) (rw (try_compute_pendings-empty fuel s' idle) refl),
      refl,
      above,
      below,
      kept,
      idle,
    )
