-- ===== src/Cvrdt/Site/External.antt =====
-- `IsExecutable` and `computeExtOp` of cvrdt/site.go: every branch of an operation that a peer
-- sent.
use conver_go.Base.{
  Option-cases, [], arith, false, get_elem?, inl, inr, insert_at, length, none, panic, refl, ret,
  some, true, ℕ, ◌&&◌, ◌++◌, ◌<◌, ◌>>=◌, ◌||◌, ◌∙◌, ◌∷◌, ◌≡◌, ◌≤◌,
}
use conver_go.Cvrdt.Clock.{update}
use conver_go.Cvrdt.Character.{WCharacter, WCharacterId, import_data, is_special_wchar}
use conver_go.Cvrdt.Sequence.{WString, pending_state, get_pos, get_by_id, contains_char}
use conver_go.Cvrdt.Sequence.Positions.{get_pos-found, get_by_id-get_pos, contains_char-get_pos}
use conver_go.Cvrdt.Operation.{WootOperation, is_deletion}
use conver_go.Cvrdt.Site.{
  Site, hide_at, integrate_del, integrate_ins, ref_char, is_executable, apply_op, compute_ext_op,
}
use conver_go.Cvrdt.Site.Integrate.{IsWoot}
use conver_go.Cvrdt.Site.Woot.{IsWoot-hide_at, integrate_ins-IsWoot}

by_id-none : (w : WString) (id : WCharacterId) → get_pos w id ≡ none → get_by_id w id ≡ none
unfolding get_pos get_by_id
by_id-none [] id h = refl
by_id-none (c ∷ w) id h = ground (arith, by_id-none w id)

contains_or_special :
    (w : WString) (id : WCharacterId)
    → (contains_char w id || is_special_wchar (ref_char (get_by_id w id))) ≡ contains_char w id
unfolding is_special_wchar ref_char
contains_or_special w id = elim (Option-cases (get_pos w id)) [
  | inl gone ↦ ground (arith, contains_char-get_pos w id, by_id-none w id gone)
  | inr (p, e) ↦ ground (arith, contains_char-get_pos w id)
]

-- An operation is executable exactly if it is a deletion whose character is there, or if the two
-- neighbours that it names are there, also when it is a deletion.
pub is_executable_lem :
    (s : Site) (op : WootOperation)
    → is_executable s op ≡ (
        is_deletion op.op_type && contains_char s.characters op.character.id
        || contains_char s.characters op.character.previous_id
          && contains_char s.characters op.character.next_id)
unfolding is_executable import_data
is_executable_lem s op =
    rw
      (
        contains_or_special s.characters op.character.previous_id,
        contains_or_special s.characters op.character.next_id,
      )
      refl

found-contains :
    (w : WString) (id : WCharacterId) (p : ℕ) → get_pos w id ≡ some p → contains_char w id ≡ true
found-contains w id p h = ground (arith, contains_char-get_pos w id)

-- An operation that is not executable changes nothing but the queue, at whose end it is put.
pub compute_ext_op-pending :
    (fuel : ℕ) (s : Site) (op : WootOperation)
    → is_executable s op ≡ false
    → compute_ext_op fuel s op
      ≡ ret (record s { pending_ops = s.pending_ops ++ op ∷ [] }, some pending_state)
unfolding compute_ext_op
compute_ext_op-pending fuel s op h = rw h

-- A deletion whose character is not there, while both its neighbours are, reads through a nil
-- pointer.
pub compute_ext_op_panics :
    (fuel : ℕ) (s : Site) (op : WootOperation)
    → is_deletion op.op_type ≡ true
    → contains_char s.characters op.character.id ≡ false
    → contains_char s.characters op.character.previous_id ≡ true
    → contains_char s.characters op.character.next_id ≡ true
    → compute_ext_op fuel s op ≡ panic
unfolding compute_ext_op apply_op import_data
compute_ext_op_panics fuel s op del missing prev next = ground (
  arith,
  is_executable_lem s op,
  contains_char-get_pos s.characters op.character.id,
  by_id-none s.characters op.character.id,
)

-- In a sequence with the invariant, a deletion of a character that stands at `p` hides that
-- character alone, merges the clocks and keeps the invariant.
pub compute_ext_op-deletion :
    (fuel : ℕ) (s : Site) (op : WootOperation) (p : ℕ)
    → is_deletion op.op_type ≡ true
    → get_pos s.characters op.character.id ≡ some p
    → IsWoot s.characters
    → (compute_ext_op fuel s op
        ≡ ret (
          record s { clock = update s.clock op.id.clock; characters = hide_at p s.characters },
          none,
        ))
      × IsWoot (hide_at p s.characters)
unfolding compute_ext_op apply_op import_data integrate_del
compute_ext_op-deletion fuel s op p del at woot_chars =
    let (_, (c, stands, _)) = get_pos-found s.characters op.character.id p at in
    (
      ground (
        arith,
        is_executable_lem s op,
        found-contains s.characters op.character.id p at,
        get_by_id-get_pos s.characters op.character.id p c at stands,
      ),
      IsWoot-hide_at p s.characters woot_chars,
    )

-- What an insertion comes to, once its two neighbours are found.
pub compute_ext_op-integrate :
    (fuel : ℕ) (s : Site) (op : WootOperation) (a b : ℕ) (p n : WCharacter)
    → is_deletion op.op_type ≡ false
    → get_pos s.characters op.character.previous_id ≡ some a
    → get_elem? s.characters a ≡ some p
    → get_pos s.characters op.character.next_id ≡ some b
    → get_elem? s.characters b ≡ some n
    → compute_ext_op fuel s op ≡ (
        integrate_ins fuel s.characters (import_data op.character) p n >>= λ chars.
        ret (record s { clock = update s.clock op.id.clock; characters = chars }, none))
unfolding compute_ext_op apply_op import_data
compute_ext_op-integrate fuel s op a b p n ins hp sp hn sn = ground (
  arith,
  is_executable_lem s op,
  found-contains s.characters op.character.previous_id a hp,
  found-contains s.characters op.character.next_id b hn,
  get_by_id-get_pos s.characters op.character.previous_id a p hp sp,
  get_by_id-get_pos s.characters op.character.next_id b n hn sn,
)

-- At a site whose sequence has the invariant, an operation that is no deletion, with a new
-- character whose two neighbours stand in order, returns, with fuel for the length of the
-- sequence: the character is inserted once, between its neighbours, the others keep
-- their order, the clocks are merged, nothing is queued, and the invariant holds again.
pub compute_ext_op-insertion :
    (fuel : ℕ) (s : Site) (op : WootOperation) (a b : ℕ)
    → IsWoot s.characters
    → length s.characters ≤ fuel
    → is_deletion op.op_type ≡ false
    → get_pos s.characters op.character.id ≡ none
    → get_pos s.characters op.character.previous_id ≡ some a
    → get_pos s.characters op.character.next_id ≡ some b
    → a < b
    → (k : ℕ) × (compute_ext_op fuel s op
        ≡ ret (
          record s {
            clock = update s.clock op.id.clock;
            characters = insert_at k (import_data op.character) s.characters;
          },
          none,
        ))
      × (a < k)
      × (k ≤ b)
      × IsWoot (insert_at k (import_data op.character) s.characters)
unfolding import_data
compute_ext_op-insertion fuel s op a b i enough ins fresh hp hn lt =
    let (_, (p, sp, _)) = get_pos-found s.characters op.character.previous_id a hp in
    let (_, (n, sn, _)) = get_pos-found s.characters op.character.next_id b hn in
    let (k, result, above, below, kept) =
      integrate_ins-IsWoot fuel s.characters (import_data op.character) p n a b i enough fresh
        (i.unique a p sp) (i.unique b n sn) hp hn lt in
    (
      k,
      compute_ext_op-integrate fuel s op a b p n ins hp sp hn sn ∙ rw result refl,
      above,
      below,
      kept,
    )
