-- ===== src/Cvrdt/Site.antt =====
-- cvrdt/site.go: a site integrates its own operations and those of its peers (WOOT).
-- `IntegrateIns` and `tryComputePendings` call themselves and may go on for ever, so they take
-- fuel; reading through a nil pointer is a panic.
pub mod Integrate
pub mod Woot
pub mod External
pub mod Divergence
pub mod Pending
pub mod Edit
use conver_go.Base.{
  Bool, List, Option, Outcome, Text, [], add_one_int, err, false, get_elem?, if◌then◌else◌, leb,
  none, ok, out_of_fuel, panic, pos, remove_at, ret, some, suc, true, zero, ℕ, ℤ, ◌&&◌, ◌++◌, ◌>>=◌,
  ◌||◌, ◌∷◌,
}
use conver_go.Cvrdt.Clock.{VectorClock, new_vector_clock, value, increment, update, copy}
use conver_go.Cvrdt.Character.{
  WCharacterId, WCharacter, WCharacterData, wcharacter_less, is_special_wchar, export_data,
  import_data,
}
use conver_go.Cvrdt.Sequence.{
  WString, Ref, SiteError, pending_state, new_wstring, get_pos, get_by_id, insert_char, sub_seq,
  contains_char, get_ith_visible_value, get_visible_content,
}
use conver_go.Cvrdt.Operation.{
  WootOperation, LocalOperation, CrdtOperation, woot, local, OpType, insertion, deletion,
  is_deletion, is_insertion,
}

pub record Site : Type 0 where
  pub site_id : Text
  pub clock : VectorClock
  pub characters : WString
  pub pending_ops : List WootOperation

unfoldable pub new_site : Text → Site
new_site site_id = record {
  site_id = site_id;
  clock = new_vector_clock site_id;
  characters = new_wstring site_id;
  pending_ops = [];
}

-- `<=` on positions, where -1 is `none`.
unfoldable pub pos_le : Option ℕ → Option ℕ → Bool
pos_le none q = true
pos_le (some p) none = false
pos_le (some p) (some q) = leb p q

unfoldable pub is_found : Option ℕ → Bool
is_found none = false
is_found (some p) = true

-- The test in the loop of `IntegrateIns`: `di` was inserted between characters that enclose the
-- range.
unfoldable pub encloses : WString → WCharacter → WCharacter → WCharacter → Bool
encloses w wprev wnext di =
    is_found (get_pos w di.previous_id)
    && is_found (get_pos w di.next_id)
    && pos_le (get_pos w di.previous_id) (get_pos w wprev.id)
    && pos_le (get_pos w wnext.id) (get_pos w di.next_id)

-- The loop that fills `L`, without its two ends.
unfoldable pub candidates : WString → WCharacter → WCharacter → List WCharacter → List WCharacter
candidates w wprev wnext [] = []
candidates w wprev wnext (di ∷ sub_str) =
    let rest = candidates w wprev wnext sub_str in
    if encloses w wprev wnext di then di ∷ rest else rest

-- The loop over `L`: the neighbours `L[i-1]` and `L[i]` at which it stops.
unfoldable pub narrow :
    WCharacter → WCharacter → List WCharacter → WCharacter → WCharacter × WCharacter
narrow wchar last [] wnext = (last, wnext)
narrow wchar last (di ∷ rest) wnext =
    let further = narrow wchar di rest wnext in
    if wcharacter_less di wchar then further else (last, di)

-- `Insert` before the position of a character, whose error `IntegrateIns` drops.
unfoldable pub insert_before : WString → WCharacter → WCharacter → WString
insert_before w wchar wnext = elim (insert_char w wchar (get_pos w wnext.id)) [
  | ok w' ↦ w'
  | err e ↦ w
]

-- `IntegrateIns`
unfoldable pub integrate_ins : ℕ → WString → WCharacter → WCharacter → WCharacter → Outcome WString
integrate_ins zero w wchar wprev wnext = out_of_fuel
integrate_ins (suc fuel) w wchar wprev wnext = elim (sub_seq w wprev wnext) [
  | [] ↦ ret (insert_before w wchar wnext)
  | d ∷ ds ↦
      let ends = narrow wchar wprev (candidates w wprev wnext (d ∷ ds)) wnext in
      integrate_ins fuel w wchar ends.0 ends.1
]

unfoldable pub hide : WCharacter → WCharacter
hide c = record c { visible = false }

unfoldable pub hide_at : ℕ → WString → WString
hide_at i [] = []
hide_at zero (c ∷ w) = hide c ∷ w
hide_at (suc i) (c ∷ w) = c ∷ hide_at i w

-- `IntegrateDel` through a pointer into the sequence.
unfoldable pub integrate_del : WString → Ref → WString
integrate_del w wchar = hide_at wchar.position w

unfoldable pub ref_char : Option Ref → Option WCharacter
ref_char none = none
ref_char (some r) = some r.char

unfoldable pub is_executable : Site → WootOperation → Bool
is_executable s op =
    let target = import_data op.character in
    is_deletion op.op_type && contains_char s.characters target.id
    || (contains_char s.characters target.previous_id
        || is_special_wchar (ref_char (get_by_id s.characters target.previous_id)))
      && (contains_char s.characters target.next_id
          || is_special_wchar (ref_char (get_by_id s.characters target.next_id)))

-- The effect of an executable operation on the characters.
unfoldable pub apply_op : ℕ → WString → OpType → WCharacter → Outcome WString
apply_op fuel w op_type char =
    if is_deletion op_type
    then elim (get_by_id w char.id) [ none ↦ panic | some r ↦ ret (integrate_del w r) ]
    else elim (get_by_id w char.previous_id) [
      | none ↦ panic
      | some prev ↦ elim (get_by_id w char.next_id) [
        | none ↦ panic
        | some next ↦ integrate_ins fuel w char prev.char next.char
      ]
    ]

-- `computeExtOp`: the site and the error, if any.
unfoldable pub compute_ext_op : ℕ → Site → WootOperation → Outcome (Site × Option SiteError)
compute_ext_op fuel s op =
    if is_executable s op
    then (do
      chars ← apply_op fuel s.characters op.op_type (import_data op.character)
      ret (record s { clock = update s.clock op.id.clock; characters = chars }, none))
    else ret (record s { pending_ops = s.pending_ops ++ op ∷ [] }, some pending_state)

-- `tryComputePendings`: its loop at index `i`; after a success it starts again from 0.
unfoldable pub try_compute_from : ℕ → Site → ℕ → Outcome Site
try_compute_from zero s i = out_of_fuel
try_compute_from (suc fuel) s i = elim (get_elem? s.pending_ops i) [
  | none ↦ ret s
  | some old_op ↦ compute_ext_op fuel s old_op >>= λ (s', e). elim e [
    | none ↦ try_compute_from fuel (record s' { pending_ops = remove_at i s'.pending_ops }) 0
    | some failed ↦ try_compute_from fuel s' (suc i)
  ]
]

unfoldable pub try_compute_pendings : ℕ → Site → Outcome Site
try_compute_pendings fuel s = try_compute_from fuel s 0

-- `WootOperation{}`
abbrev pub zero_operation : WootOperation
zero_operation =
    let zero_id : WCharacterId = record { site_id = []; clock = pos 0 } in
    record {
      id = record { site_id = []; clock = [] };
      op_type = insertion;
      character = record {
        id = zero_id;
        alpha_value = [];
        visible = false;
        previous_id = zero_id;
        next_id = zero_id;
      };
    }

-- What `GenerateIns` builds, of the characters between which it inserts.
unfoldable pub new_wchar : Site → Text → WCharacter → WCharacter → WCharacter
new_wchar s str prev_char next_char = record {
  id = record { site_id = s.site_id; clock = value (increment s.clock).0 };
  alpha_value = str;
  visible = true;
  previous_id = prev_char.id;
  next_id = next_char.id;
}

-- `GenerateIns`: the site, the operation (`WootOperation{}` with an error) and the error.
unfoldable pub generate_ins :
    ℕ → Site → ℤ → Text → Outcome (Site × WootOperation × Option SiteError)
generate_ins fuel s p str =
    let ticked = record s { clock = (increment s.clock).0 } in
    elim (get_ith_visible_value s.characters p false) [
      | err e ↦ ret (ticked, zero_operation, some e)
      | ok prev ↦ elim (get_ith_visible_value s.characters (add_one_int p) false) [
        | err e ↦ ret (ticked, zero_operation, some e)
        | ok next ↦
            let wchar = new_wchar s str prev.char next.char in
            integrate_ins fuel s.characters wchar prev.char next.char >>= λ chars. ret (
              record ticked { characters = chars },
              record {
                id = record { site_id = s.site_id; clock = copy (increment s.clock).0 };
                op_type = insertion;
                character = export_data wchar;
              },
              none,
            )
      ]
    ]

-- `GenerateDel`
unfoldable pub generate_del : Site → ℤ → Site × WootOperation × Option SiteError
generate_del s p = elim (get_ith_visible_value s.characters p true) [
  | err e ↦ (s, zero_operation, some e)
  | ok wchar ↦ (
    record s { clock = (increment s.clock).0; characters = integrate_del s.characters wchar },
    record {
      id = record { site_id = s.site_id; clock = copy (increment s.clock).0 };
      op_type = deletion;
      character = export_data (hide wchar.char);
    },
    none,
  )
]

-- `ComputeOp`
unfoldable pub compute_op :
    ℕ → Site → CrdtOperation → Outcome (Site × WootOperation × Option SiteError)
compute_op fuel s (woot op) = compute_ext_op fuel s op >>= λ (s', e). elim e [
  | none ↦ try_compute_pendings fuel s' >>= λ s''. ret (s'', op, none)
  | some failed ↦ ret (s', op, some failed)
]
compute_op fuel s (local op) =
    if is_insertion op.op_type
    then generate_ins fuel s op.position op.content
    else ret (generate_del s op.position)

-- `GetCurrentData`
unfoldable pub get_current_data : Site → Text
get_current_data s = get_visible_content s.characters
