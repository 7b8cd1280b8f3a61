-- ===== src/File/Tests.antt =====
-- Runs of file/registry.go and file/polling.go.
use conver_go.Base.{
  List, [], codes, has, insert, insert_at, lookup, ok, pos, refl, ret, some, text_Eq, text_eq,
  text_lt, true, ◌∷◌, ◌≡◌,
}
use conver_go.Cvrdt.Character.{
  get_new_special_end_wchar, get_new_special_start_wchar, import_data, is_special_wchar,
  wcharacter_id_equals,
}
use conver_go.Cvrdt.Site.{
  get_current_data, apply_op, compute_ext_op, compute_op, insert_before, integrate_ins,
  is_executable, new_site, try_compute_from, try_compute_pendings,
}
use conver_go.File.Poller.Synchrony.{happen_all-tick}
use conver_go.Cvrdt.Clock.{
  max_value, clock_at, new_vector_clock, update, update_entries, update_entry, value,
}
use conver_go.Cvrdt.Sequence.{
  new_wstring, contains_char, get_by_id, get_pos, get_visible_content, sub_seq, visible_from,
  get_len, insert_char, slice_from, sub_seq_between,
}
use conver_go.Cvrdt.Operation.{
  WootOperation, insertion, woot, compare_id, is_deletion, is_insertion,
}
use conver_go.File.Poller.{Polled, Happening, updating, ticking, happen_all, tick, happen, reported}
use conver_go.Cvrdt.State.{
  new_woot_cvrdt_with_view, snapshot, binary_search, compute_all, contains_op, insert_op, is_fatal,
  is_nonempty, merge, search_loop, update_state,
}
use conver_go.File.Registry.{FileContext, FileRegistry, get_file_content}
use conver_go.File.Registry.Updates.{get_file_content_lem}

program : Unit {0}
unfolding lookup text_eq text_lt insert has happen_all happen reported tick snapshot update_state
    compute_all contains_op binary_search search_loop is_fatal is_nonempty merge insert_op
    compare_id new_woot_cvrdt_with_view compute_op compute_ext_op try_compute_pendings
    try_compute_from is_executable apply_op is_insertion is_deletion contains_char new_site
    new_wstring new_vector_clock wcharacter_id_equals get_new_special_start_wchar
    get_new_special_end_wchar import_data integrate_ins get_by_id get_pos sub_seq sub_seq_between
    slice_from insert_char get_len insert_before update update_entries update_entry value clock_at
    get_current_data get_visible_content visible_from is_special_wchar
program = tt

abbrev note : FileContext
note = record {
  local_path = codes "note";
  meta_state = new_woot_cvrdt_with_view (codes "a");
  is_state_tracked = true;
}

abbrev registry : FileRegistry
registry = record {
  local_domain_prefix = codes "files/";
  site_id = codes "a";
  file_contexts = (codes "note", note) ∷ [];
}

get_file_content_lem_example :
    ((get_file_content {E = Unit {0}} registry (codes "note")).1 ≡ ok (snapshot note.meta_state).1)
    × ((ctx : FileContext) × (lookup
            (codes "note")
            (get_file_content {E = Unit {0}} registry (codes "note")).0.file_contexts
          ≡ some ctx)
        × (ctx.meta_state.site ≡ note.meta_state.site)
        × (ctx.meta_state.state ≡ note.meta_state.state)
        × ((snapshot ctx.meta_state).2 ≡ true))
unfolding program
get_file_content_lem_example = get_file_content_lem registry (codes "note") note refl

-- The insertion of "x" that site b makes between the limiters of an empty document.
abbrev insert_x : WootOperation
insert_x = record {
  id = record { site_id = codes "b"; clock = (codes "b", pos 1) ∷ [] };
  op_type = insertion;
  character = record {
    id = record { site_id = codes "b"; clock = pos 1 };
    alpha_value = codes "x";
    visible = true;
    previous_id = record { site_id = codes "b"; clock = pos 0 };
    next_id = record { site_id = codes "b"; clock = max_value };
  };
}

abbrev steps : List Happening
steps = updating 4 (woot insert_x ∷ []) ∷ ticking ∷ []

abbrev written : Polled
written = record {
  document = record {
    site = record {
      site_id = codes "a";
      clock = record {
        local_id = codes "a";
        clocks = (codes "a", pos 0) ∷ (codes "b", pos 1) ∷ [];
      };
      characters = insert_at 1 (import_data insert_x.character) (new_wstring (codes "a"));
      pending_ops = [];
    };
    state = woot insert_x ∷ [];
    is_state_up_to_date = true;
  };
  file = codes "x";
}

steps-written :
    happen_all steps
      (record { document = new_woot_cvrdt_with_view (codes "a"); file = codes "old" })
    ≡ ret (written, [])
unfolding program
steps-written = refl

happen_all-tick_example : (tick written).file ≡ get_current_data (tick written).document.site
happen_all-tick_example = happen_all-tick (codes "a") (codes "old") steps written steps-written
