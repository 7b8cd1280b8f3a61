-- ===== src/Cvrdt/Site/Divergence.antt =====
-- Where `IntegrateIns` of cvrdt/site.go does not end, and where its result depends on the order
-- of arrival: characters inserted past the end of the visible text, whose two neighbours are both
-- the end character.
use conver_go.Base.{
  List, Text, [], add_one_int, ap, arith, false, get_elem?, insert, insert_at, length,
  length-insert_at, lookup, none, ok, out_of_fuel, pos, refl, ret, some, suc, text_Eq, text_eq_iff,
  zero, ℕ, ◌<◌, ◌>>=◌, ◌∙◌, ◌∷◌, ◌≡◌,
}
use conver_go.Cvrdt.Clock.{max_value, clock_at, new_vector_clock, value, increment, update, copy}
use conver_go.Cvrdt.Character.{
  WCharacterId, WCharacter, wcharacter_id_equals, equals, import_data, export_data,
  get_new_special_start_wchar, get_new_special_end_wchar,
}
use conver_go.Cvrdt.Sequence.{
  WString, new_wstring, get_pos, sub_seq, sub_seq_between, slice_from, get_ith_visible_value,
  visible_from, capped,
}
use conver_go.Cvrdt.Sequence.Positions.{get_pos-found, get_pos-insert_at_ne, get_elem?-insert_at}
use conver_go.Cvrdt.Operation.{WootOperation, insertion, is_deletion}
use conver_go.Cvrdt.Site.{
  Site, new_site, pos_le, is_found, encloses, candidates, narrow, integrate_ins, compute_ext_op,
  new_wchar, generate_ins,
}
use conver_go.Cvrdt.Site.External.{compute_ext_op-integrate}
use conver_go.Cvrdt.Site.Integrate.{sub_seq-eq, integrate_ins-empty, insert_before-insert_at}

-- If there are characters between the two neighbours and none of them encloses the range, then
-- `IntegrateIns` calls itself on the same range for ever: no fuel is enough.
pub integrate_ins_diverges :
    (fuel : ℕ) (w : WString) (x p n d : WCharacter) (ds : List WCharacter)
    → sub_seq w p n ≡ d ∷ ds
    → candidates w p n (d ∷ ds) ≡ []
    → integrate_ins fuel w x p n ≡ out_of_fuel
unfolding integrate_ins narrow
integrate_ins_diverges zero w x p n d ds e none_encloses = refl
integrate_ins_diverges (suc fuel) w x p n d ds e none_encloses =
    let again = integrate_ins_diverges fuel w x p n d ds e none_encloses in
    rw (e, integrate_ins) (rw (none_encloses, narrow) again)

sub_seq_self : (w : WString) (n : WCharacter) (b : ℕ) → get_pos w n.id ≡ some b → sub_seq w n n ≡ []
unfolding sub_seq sub_seq_between
sub_seq_self w n b h = ground arith

-- A character whose two neighbours are one and the same is put right before it.
integrate_ins_self :
    (fuel : ℕ) (w : WString) (x n : WCharacter) (b : ℕ)
    → get_pos w n.id ≡ some b
    → integrate_ins (suc fuel) w x n n ≡ ret (insert_at b x w)
integrate_ins_self fuel w x n b h =
    integrate_ins-empty fuel w x n n (sub_seq_self w n b h)
    ∙ ap ret (insert_before-insert_at w x n b h)

-- Two characters that name the same other character as both their neighbours, as those inserted
-- past the end do, stand in the order in which they arrive: two sites that receive them in
-- different orders hold `x` and `y` at one position.
pub past_end_order :
    (fuel : ℕ) (w : WString) (x y n : WCharacter) (b : ℕ)
    → get_pos w n.id ≡ some b
    → wcharacter_id_equals x.id n.id ≡ false
    → wcharacter_id_equals y.id n.id ≡ false
    → (u v : WString) × ((integrate_ins (suc fuel) w x n n >>= λ w'.
          integrate_ins (suc fuel) w' y n n)
        ≡ ret u)
      × ((integrate_ins (suc fuel) w y n n >>= λ w'. integrate_ins (suc fuel) w' x n n) ≡ ret v)
      × (get_elem? u b ≡ some x)
      × (get_elem? v b ≡ some y)
past_end_order fuel w x y n b h nx ny = (
  insert_at (suc b) y (insert_at b x w),
  insert_at (suc b) x (insert_at b y w),
  both x y nx,
  both y x ny,
  stays x y,
  stays y x,
)
  where
    within : b < length w
    within = (get_pos-found w n.id b h).0

    moved :
        (c : WCharacter)
        → wcharacter_id_equals c.id n.id ≡ false
        → get_pos (insert_at b c w) n.id ≡ some (suc b)
    moved c ne = ground (arith, get_pos-insert_at_ne b c w n.id, within)

    both :
        (c d : WCharacter)
        → wcharacter_id_equals c.id n.id ≡ false
        → (integrate_ins (suc fuel) w c n n >>= λ w'. integrate_ins (suc fuel) w' d n n)
          ≡ ret (insert_at (suc b) d (insert_at b c w))
    both c d ne =
        rw (integrate_ins_self fuel w c n b h)
          (integrate_ins_self fuel (insert_at b c w) d n (suc b) (moved c ne))

    stays : (c d : WCharacter) → get_elem? (insert_at (suc b) d (insert_at b c w)) b ≡ some c
    stays c d = ground (
      arith,
      get_elem?-insert_at (suc b) d (insert_at b c w) b,
      get_elem?-insert_at b c w b,
      length-insert_at b c w,
      within,
    )

-- The sequence of a new site after an insertion past the end.
abbrev past_end : Text → WCharacter → WString
past_end a x = get_new_special_start_wchar a ∷ x ∷ get_new_special_end_wchar a ∷ []

past_end-start :
    (a : Text) (x : WCharacter) (id : WCharacterId)
    → id.clock ≡ pos 0
    → get_pos (past_end a x) id ≡ some 0
unfolding get_pos wcharacter_id_equals get_new_special_start_wchar
past_end-start a x id e = ground arith

past_end-end :
    (a : Text) (x : WCharacter) (id : WCharacterId)
    → x.id.clock ≡ pos 1
    → id.clock ≡ max_value
    → get_pos (past_end a x) id ≡ some 2
unfolding get_pos wcharacter_id_equals equals get_new_special_start_wchar get_new_special_end_wchar
past_end-end a x id c e = ground arith

-- A character between the start and the end cannot be integrated there any more.
past_end_diverges :
    (fuel : ℕ) (a : Text) (x y p n : WCharacter)
    → x.id.clock ≡ pos 1
    → x.previous_id.clock ≡ max_value
    → p.id.clock ≡ pos 0
    → n.id.clock ≡ max_value
    → integrate_ins fuel (past_end a x) y p n ≡ out_of_fuel
unfolding slice_from candidates encloses is_found pos_le
past_end_diverges fuel a x y p n c e hp hn =
    let at_start = past_end-start a x p.id hp in
    let at_end = past_end-end a x n.id c hn in
    let prev = past_end-end a x x.previous_id c e in
    integrate_ins_diverges fuel (past_end a x) y p n x []
      (sub_seq-eq (past_end a x) p n 0 2 at_start at_end (omega arith)) (ground arith)

-- The site after an insertion past the end of its empty file, and the operation that it sends.
abbrev appended : Text → Text → WCharacter
appended a str =
    new_wchar (new_site a) str (get_new_special_end_wchar a) (get_new_special_end_wchar a)

abbrev past_end_site : Text → Text → Site
past_end_site a str = record {
  site_id = a;
  clock = (increment (new_vector_clock a)).0;
  characters = past_end a (appended a str);
  pending_ops = [];
}

abbrev past_end_op : Text → Text → WootOperation
past_end_op a str = record {
  id = record { site_id = a; clock = copy (increment (new_vector_clock a)).0 };
  op_type = insertion;
  character = export_data (appended a str);
}

first_clock : (a : Text) → value (increment (new_vector_clock a)).0 ≡ pos 1
unfolding value increment new_vector_clock clock_at lookup insert
first_clock a = ground (arith, text_eq_iff a a)

ith_past_end :
    (a : Text) (k : ℕ)
    → get_ith_visible_value (new_wstring a) (pos (suc k)) false
      ≡ ok (record { position = 1; char = get_new_special_end_wchar a })
unfolding new_wstring get_ith_visible_value visible_from capped get_new_special_start_wchar
    get_new_special_end_wchar
ith_past_end a k = refl

add_one : (n : ℕ) → n < 9223372036854775806 → add_one_int (pos (suc n)) ≡ pos (suc (suc n))
unfolding add_one_int
add_one n h = ground arith

end_at : (a : Text) → get_pos (new_wstring a) (get_new_special_end_wchar a).id ≡ some 1
unfolding new_wstring get_pos wcharacter_id_equals get_new_special_start_wchar
    get_new_special_end_wchar equals
end_at a = ground arith

past_end_integrated :
    (a str : Text)
    → integrate_ins 1
        (new_wstring a)
        (appended a str)
        (get_new_special_end_wchar a)
        (get_new_special_end_wchar a)
      ≡ ret (past_end a (appended a str))
unfolding new_wstring
past_end_integrated a str =
    integrate_ins_self 0 (new_wstring a) (appended a str) (get_new_special_end_wchar a) 1 (end_at a)

past_end_generated :
    (a str : Text) (n : ℕ)
    → n < 9223372036854775806
    → generate_ins 1 (new_site a) (pos (suc n)) str
      ≡ ret (past_end_site a str, past_end_op a str, none)
unfolding generate_ins new_site
past_end_generated a str n within =
    rw (ith_past_end a n, generate_ins)
      (rw (add_one n within, generate_ins)
        (rw (ith_past_end a (suc n), generate_ins) (rw (past_end_integrated a str) refl)))

-- A site inserts text past the end of its empty file, which succeeds. Then an insertion at the
-- start of the same file, made by a peer between the start and the end, never ends at that site,
-- whatever the fuel.
pub past_end_insert_diverges :
    (a str : Text) (n : ℕ) (op : WootOperation)
    → n < 9223372036854775806
    → op.op_type ≡ insertion
    → op.character.previous_id.clock ≡ pos 0
    → op.character.next_id.clock ≡ max_value
    → (s : Site) × (o : WootOperation) × (generate_ins 1 (new_site a) (pos (suc n)) str
        ≡ ret (s, o, none))
      × ((fuel : ℕ) → compute_ext_op fuel s op ≡ out_of_fuel)
unfolding is_deletion new_wchar new_site get_new_special_end_wchar get_new_special_start_wchar
past_end_insert_diverges a str n op within is_ins hp hn = (
  past_end_site a str,
  past_end_op a str,
  past_end_generated a str n within,
  λ fuel.
      compute_ext_op-integrate fuel (past_end_site a str) op 0 2 (get_new_special_start_wchar a)
        (get_new_special_end_wchar a) (rw is_ins refl)
        (past_end-start a (appended a str) op.character.previous_id hp) refl
        (past_end-end a (appended a str) op.character.next_id (first_clock a) hn) refl
      ∙ ap
          (λ r. r >>= λ chars. ret (
            record (past_end_site a str) {
              clock = update (past_end_site a str).clock op.id.clock;
              characters = chars;
            },
            none,
          ))
          (past_end_diverges fuel a (appended a str) (import_data op.character)
            (get_new_special_start_wchar a) (get_new_special_end_wchar a) (first_clock a) refl refl
            refl),
)
