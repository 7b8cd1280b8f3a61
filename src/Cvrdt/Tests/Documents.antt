-- ===== src/Cvrdt/Tests/Documents.antt =====
-- Runs of cvrdt/site.go and cvrdt/state.go on small texts.
use conver_go.Base.{
  Text, [], arith, codes, false, get_elem?, has, insert, insert_at, lookup, none, out_of_fuel,
  panic, pos, refl, ret, some, subst, text_Eq, text_eq, text_lt, true, ℕ, ◌<◌, ◌>>=◌, ◌∷◌, ◌≡◌, ◌≤◌,
}
use conver_go.Cvrdt.Clock.{
  max_value, clock_at, new_vector_clock, value, increment, update_entry, update_entries, update,
}
use conver_go.Cvrdt.Character.{
  WCharacter, WCharacterData, wcharacter_id_equals, get_new_special_start_wchar,
  get_new_special_end_wchar, import_data, export_data, is_special_wchar,
}
use conver_go.Cvrdt.Sequence.{
  WString, new_wstring, get_pos, sub_seq, contains_char, visible_from, get_by_id,
}
use conver_go.Cvrdt.Sequence.Visible.{shown}
use conver_go.Cvrdt.Operation.{insertion, deletion, WootOperation, is_deletion}
use conver_go.Cvrdt.Site.{
  ref_char, Site, new_site, integrate_ins, hide_at, hide, is_executable, compute_ext_op,
  try_compute_pendings, generate_ins, generate_del,
}
use conver_go.Cvrdt.Site.Integrate.{IsWoot, integrate_ins_returns}
use conver_go.Cvrdt.Site.Woot.{IsWoot-new_wstring, integrate_ins-IsWoot}
use conver_go.Cvrdt.Site.External.{
  compute_ext_op_panics, compute_ext_op-deletion, compute_ext_op-insertion,
}
use conver_go.Cvrdt.Site.Divergence.{past_end_order, past_end_insert_diverges}
use conver_go.Cvrdt.Site.Pending.{try_compute_pendings_diverges}
use conver_go.Cvrdt.Site.Edit.{generate_del_lem, generate_ins_lem}

program : Unit {0}
unfolding lookup insert has text_eq text_lt clock_at new_vector_clock value increment update_entry
    update_entries update wcharacter_id_equals get_new_special_start_wchar get_new_special_end_wchar
    import_data is_special_wchar new_wstring get_pos get_by_id contains_char visible_from
    is_deletion new_site is_executable hide_at hide sub_seq shown ref_char
program = tt

abbrev site_a : Text
site_a = codes "a"

abbrev site_b : Text
site_b = codes "b"

-- The character "x" that site b puts between the limiters of an empty file.
abbrev x_data : WCharacterData
x_data = record {
  id = record { site_id = site_b; clock = pos 1 };
  alpha_value = codes "x";
  visible = true;
  previous_id = record { site_id = site_b; clock = pos 0 };
  next_id = record { site_id = site_b; clock = max_value };
}

abbrev insert_x : WootOperation
insert_x = record {
  id = record { site_id = site_b; clock = (site_b, pos 1) ∷ [] };
  op_type = insertion;
  character = x_data;
}

abbrev delete_x : WootOperation
delete_x = record {
  id = record { site_id = site_b; clock = (site_b, pos 2) ∷ [] };
  op_type = deletion;
  character = x_data;
}

-- An empty file at site a, and the same after the insertion.
abbrev at_a : Site
at_a = new_site site_a

abbrev with_x : Site
with_x = record at_a { characters = insert_at 1 (import_data x_data) (new_wstring site_a) }

with_x-IsWoot : IsWoot with_x.characters
unfolding program
with_x-IsWoot =
    let (k, _, above, below, wf) =
      integrate_ins-IsWoot 2 (new_wstring site_a) (import_data x_data)
        (get_new_special_start_wchar site_a) (get_new_special_end_wchar site_a) 0 1
        (IsWoot-new_wstring site_a) (omega arith) refl refl refl refl refl (omega arith) in
    let one : k ≡ 1 = omega (arith, above, below) in
    subst (λ j. IsWoot (insert_at j (import_data x_data) (new_wstring site_a))) one wf

compute_ext_op-insertion_example :
    (k : ℕ) × (compute_ext_op 2 at_a insert_x
      ≡ ret (
        record at_a {
          clock = update at_a.clock insert_x.id.clock;
          characters = insert_at k (import_data x_data) at_a.characters;
        },
        none,
      ))
    × (0 < k)
    × (k ≤ 1)
    × IsWoot (insert_at k (import_data x_data) at_a.characters)
unfolding program
compute_ext_op-insertion_example =
    compute_ext_op-insertion 2 at_a insert_x 0 1 (IsWoot-new_wstring site_a) (omega arith) refl refl
      refl refl (omega arith)

integrate_ins_returns_example :
    (k : ℕ) × (integrate_ins 2
        (new_wstring site_a)
        (import_data x_data)
        (get_new_special_start_wchar site_a)
        (get_new_special_end_wchar site_a)
      ≡ ret (insert_at k (import_data x_data) (new_wstring site_a)))
    × (0 < k)
    × (k ≤ 1)
unfolding program
integrate_ins_returns_example =
    integrate_ins_returns 2 (new_wstring site_a) (import_data x_data)
      (get_new_special_start_wchar site_a) (get_new_special_end_wchar site_a) 0 1
      (IsWoot-new_wstring site_a) refl refl (omega arith) (omega arith)

compute_ext_op-deletion_example :
    (compute_ext_op 3 with_x delete_x
      ≡ ret (
        record with_x {
          clock = update with_x.clock delete_x.id.clock;
          characters = hide_at 1 with_x.characters;
        },
        none,
      ))
    × IsWoot (hide_at 1 with_x.characters)
unfolding program
compute_ext_op-deletion_example =
    compute_ext_op-deletion 3 with_x delete_x 1 refl refl with_x-IsWoot

generate_ins_lem_example :
    (s : Site) × (op : WootOperation) × (x : WCharacter) × (generate_ins 2 at_a (pos 0) (codes "y")
      ≡ ret (s, op, none))
    × (shown false s.characters ≡ insert_at 1 x (shown false at_a.characters))
    × (x.alpha_value ≡ codes "y")
    × (x.visible ≡ true)
    × IsWoot s.characters
    × (s.clock ≡ (increment at_a.clock).0)
    × (s.pending_ops ≡ at_a.pending_ops)
    × (op.character ≡ export_data x)
unfolding program
generate_ins_lem_example =
    generate_ins_lem 2 at_a 0 (codes "y") (IsWoot-new_wstring site_a) (omega arith) (omega arith)
      (omega arith) refl

generate_del_lem_example :
    (s : Site) × (op : WootOperation) × (generate_del with_x (pos 4) ≡ (s, op, none))
    × (shown true s.characters ≡ [])
    × IsWoot s.characters
    × (s.clock ≡ (increment with_x.clock).0)
    × (s.pending_ops ≡ with_x.pending_ops)
    × (op.op_type ≡ deletion)
    × (op.id.site_id ≡ with_x.site_id)
unfolding program
generate_del_lem_example = generate_del_lem with_x 4 with_x-IsWoot (omega arith)

-- A deletion of a character that never arrived.
compute_ext_op_panics_example : compute_ext_op 3 at_a delete_x ≡ panic
unfolding program
compute_ext_op_panics_example = compute_ext_op_panics 3 at_a delete_x refl refl refl refl

-- An insertion behind a character that never arrived, in the queue of site a.
abbrev insert_lost : WootOperation
insert_lost = record insert_x {
  character = record x_data {
    id = record { site_id = site_b; clock = pos 6 };
    previous_id = record { site_id = site_b; clock = pos 5 };
  };
}

abbrev waiting : Site
waiting = record at_a { pending_ops = insert_lost ∷ [] }

try_compute_pendings_diverges_example : try_compute_pendings 50 waiting ≡ out_of_fuel
unfolding program
try_compute_pendings_diverges_example =
    try_compute_pendings_diverges 50 waiting (λ e. ground (arith, e)) (refl, tt)

past_end_insert_diverges_example :
    (s : Site) × (o : WootOperation) × (generate_ins 1 (new_site site_a) (pos 1) (codes "z")
      ≡ ret (s, o, none))
    × ((fuel : ℕ) → compute_ext_op fuel s insert_x ≡ out_of_fuel)
past_end_insert_diverges_example =
    past_end_insert_diverges site_a (codes "z") 0 insert_x (omega arith) refl refl refl

past_end_order_example :
    (u v : WString) × ((integrate_ins 3
          (new_wstring site_a)
          (import_data x_data)
          (get_new_special_end_wchar site_a)
          (get_new_special_end_wchar site_a)
        >>= λ w.
            integrate_ins 3 w
              (import_data insert_lost.character)
              (get_new_special_end_wchar site_a)
              (get_new_special_end_wchar site_a))
      ≡ ret u)
    × ((integrate_ins 3
            (new_wstring site_a)
            (import_data insert_lost.character)
            (get_new_special_end_wchar site_a)
            (get_new_special_end_wchar site_a)
          >>= λ w.
              integrate_ins 3 w
                (import_data x_data)
                (get_new_special_end_wchar site_a)
                (get_new_special_end_wchar site_a))
        ≡ ret v)
    × (get_elem? u 1 ≡ some (import_data x_data))
    × (get_elem? v 1 ≡ some (import_data insert_lost.character))
unfolding program
past_end_order_example =
    past_end_order 2 (new_wstring site_a) (import_data x_data) (import_data insert_lost.character)
      (get_new_special_end_wchar site_a) 1 refl refl refl
