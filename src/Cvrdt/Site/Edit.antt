-- ===== src/Cvrdt/Site/Edit.antt =====
-- `GenerateIns` and `GenerateDel` of cvrdt/site.go edit the text that a reader sees as a plain
-- list is edited.
use Prim.Native.Nat.{min}
use conver_go.Base.{
  Bool, Bool-cases, Text, [], add_one_int, arith, false, get_elem?, inl, inr, insert_at, length,
  negsuc, none, ok, pos, refl, remove_at, ret, some, suc, text_Eq, true, zero, ℕ, ◌-◌, ◌<◌, ◌>>=◌,
  ◌∙◌, ◌∷◌, ◌≡◌, ◌≤◌,
}
use conver_go.Cvrdt.Clock.{value, increment, copy}
use conver_go.Cvrdt.Character.{WCharacter, export_data}
use conver_go.Cvrdt.Sequence.{
  WString, Ref, occurrence_out_of_range, no_elements, get_pos, visible_from, get_ith_visible_value,
}
use conver_go.Cvrdt.Sequence.Visible.{
  counts, shown, visible_from-stands, visible_from-zero, visible_from-lt, get_ith_visible_value_lem,
  get_ith_visible_value-nil, shown-insert_at,
}
use conver_go.Cvrdt.Operation.{WootOperation, insertion, deletion}
use conver_go.Cvrdt.Site.{
  Site, hide, hide_at, integrate_ins, integrate_del, zero_operation, new_wchar, generate_ins,
  generate_del,
}
use conver_go.Cvrdt.Site.Integrate.{IsWoot}
use conver_go.Cvrdt.Site.Woot.{IsWoot-hide_at, integrate_ins-IsWoot}

hide_step :
    (s : ℕ) (exclude : Bool) (w : WString) (c : WCharacter) (i : ℕ) (r : Ref)
    → get_elem? (visible_from (suc s) exclude w) i ≡ some r
    → hide_at (r.position - s) (c ∷ w) ≡ c ∷ hide_at (r.position - suc s) w
unfolding hide_at
hide_step s exclude w c i r h =
    let e : r.position - s ≡ suc (r.position - suc s) =
      omega (arith, (visible_from-stands (suc s) exclude w i r h).0) in
    rw e refl

-- Hiding the character of the i-th collected pointer takes the i-th counted character away.
shown-hide_at :
    (s : ℕ) (exclude : Bool) (w : WString) (i : ℕ) (r : Ref)
    → get_elem? (visible_from s exclude w) i ≡ some r
    → shown exclude (hide_at (r.position - s) w) ≡ remove_at i (shown exclude w)
unfolding visible_from shown
shown-hide_at s exclude [] i r h = cc
shown-hide_at s exclude (c ∷ w) zero r h = elim (Bool-cases (counts exclude c)) [
  | inl seen ↦
      let at_s : r.position ≡ s = ground arith in
      let none_left : r.position - s ≡ 0 = omega arith in rw none_left (hidden_head seen)
  | inr hidden ↦
      let rest : get_elem? (visible_from (suc s) exclude w) 0 ≡ some r = ground arith in
      rw (hide_step s exclude w c 0 r rest)
        (ground (arith, shown-hide_at (suc s) exclude w 0 r rest))
]
  where
    hidden_head :
        counts exclude c ≡ true
        → shown exclude (hide_at 0 (c ∷ w)) ≡ remove_at 0 (shown exclude (c ∷ w))
    hidden_head seen = unfold hide_at hide in (ground arith)
shown-hide_at s exclude (c ∷ w) (suc i) r h = elim (Bool-cases (counts exclude c)) [
  | inl seen ↦
      let rest : get_elem? (visible_from (suc s) exclude w) i ≡ some r = ground arith in
      rw (hide_step s exclude w c i r rest)
        (ground (arith, shown-hide_at (suc s) exclude w i r rest))
  | inr hidden ↦
      let rest : get_elem? (visible_from (suc s) exclude w) (suc i) ≡ some r = ground arith in
      rw (hide_step s exclude w c (suc i) r rest)
        (ground (arith, shown-hide_at (suc s) exclude w (suc i) r rest))
]

-- `GenerateDel` in a sequence with the invariant, at a non-negative position of a text that is
-- not empty: the visible character at the position, or the last one, disappears from the text,
-- the clock ticks, and the invariant and the queue stay. The operation says which site made it
-- and is a deletion.
pub generate_del_lem :
    (s : Site) (i : ℕ)
    → IsWoot s.characters
    → 0 < length (shown true s.characters)
    → (s' : Site) × (op : WootOperation) × (generate_del s (pos i) ≡ (s', op, none))
      × (shown true s'.characters
          ≡ remove_at (min (length (shown true s.characters) - 1) i) (shown true s.characters))
      × IsWoot s'.characters
      × (s'.clock ≡ (increment s.clock).0)
      × (s'.pending_ops ≡ s.pending_ops)
      × (op.op_type ≡ deletion)
      × (op.id.site_id ≡ s.site_id)
unfolding generate_del integrate_del
generate_del_lem s i woot_chars some_text =
    let (r, found, at) = get_ith_visible_value_lem s.characters i true some_text in
    let whole : r.position - 0 ≡ r.position = omega arith in
    (
      record s { clock = (increment s.clock).0; characters = hide_at r.position s.characters },
      record {
        id = record { site_id = s.site_id; clock = copy (increment s.clock).0 };
        op_type = deletion;
        character = export_data (hide r.char);
      },
      rw (found, generate_del) refl,
      rw whole at (shown-hide_at 0 true s.characters _ r at),
      IsWoot-hide_at r.position s.characters woot_chars,
      refl,
      refl,
      refl,
      refl,
    )

-- Of a text with nothing to delete, and at a negative position, `GenerateDel` is an error that
-- leaves the site as it was, its clock included.
pub generate_del_fails :
    (s : Site) (n : ℕ)
    → (generate_del s (negsuc n) ≡ (s, zero_operation, some occurrence_out_of_range))
      × (shown true s.characters ≡ []
          → generate_del s (pos n) ≡ (s, zero_operation, some no_elements))
unfolding generate_del
generate_del_fails s n =
    (negative, λ empty. rw (get_ith_visible_value-nil s.characters n true empty, generate_del) refl)
  where
    negative : generate_del s (negsuc n) ≡ (s, zero_operation, some occurrence_out_of_range)
    negative = unfold get_ith_visible_value in refl

-- At a negative position `GenerateIns` is an error too, but its clock has ticked.
pub generate_ins_fails :
    (fuel : ℕ) (s : Site) (n : ℕ) (str : Text)
    → generate_ins fuel s (negsuc n) str
      ≡ ret
          (record s { clock = (increment s.clock).0 }, zero_operation, some occurrence_out_of_range)
unfolding generate_ins get_ith_visible_value
generate_ins_fails fuel s n str = refl

add_one_int_lem : (i : ℕ) → i < 9223372036854775807 → add_one_int (pos i) ≡ pos (suc i)
unfolding add_one_int
add_one_int_lem i h = ground arith

-- The operation that `GenerateIns` returns.
abbrev ins_op : Site → WCharacter → WootOperation
ins_op s x = record {
  id = record { site_id = s.site_id; clock = copy (increment s.clock).0 };
  op_type = insertion;
  character = export_data x;
}

generate_ins-found :
    (fuel : ℕ) (s : Site) (i : ℕ) (str : Text) (p n : Ref)
    → i < 9223372036854775807
    → get_ith_visible_value s.characters (pos i) false ≡ ok p
    → get_ith_visible_value s.characters (pos (suc i)) false ≡ ok n
    → generate_ins fuel s (pos i) str ≡ (
        integrate_ins fuel s.characters (new_wchar s str p.char n.char) p.char n.char >>= λ chars.
        ret (
          record s { clock = (increment s.clock).0; characters = chars },
          ins_op s (new_wchar s str p.char n.char),
          none,
        ))
unfolding generate_ins
generate_ins-found fuel s i str p n within hp hn =
    rw (hp, generate_ins) (rw (add_one_int_lem i within, generate_ins) (rw (hn, generate_ins) refl))

-- `GenerateIns` in a sequence with the invariant, at a position with a visible character behind
-- it and with an id that is not in use: with fuel for the length of the
-- sequence it returns, a visible character with the given text stands right behind the i-th
-- visible one (the start counts as number 0), all others stay in order, the clock ticks, and the
-- invariant and the queue stay. The operation carries the new character.
pub generate_ins_lem :
    (fuel : ℕ) (s : Site) (i : ℕ) (str : Text)
    → IsWoot s.characters
    → length s.characters ≤ fuel
    → i < 9223372036854775807
    → suc i < length (shown false s.characters)
    → get_pos s.characters (record { site_id = s.site_id; clock = value (increment s.clock).0 })
      ≡ none
    → (s' : Site) × (op : WootOperation) × (x : WCharacter) × (generate_ins fuel s (pos i) str
        ≡ ret (s', op, none))
      × (shown false s'.characters ≡ insert_at (suc i) x (shown false s.characters))
      × (x.alpha_value ≡ str)
      × (x.visible ≡ true)
      × IsWoot s'.characters
      × (s'.clock ≡ (increment s.clock).0)
      × (s'.pending_ops ≡ s.pending_ops)
      × (op.character ≡ export_data x)
unfolding new_wchar
generate_ins_lem fuel s i str woot_chars enough within room fresh =
    let w : WString = s.characters in
    let (p, found_p, at_p) = get_ith_visible_value_lem w i false (omega arith) in
    let (n, found_n, at_n) = get_ith_visible_value_lem w (suc i) false (omega arith) in
    let at_i : min (length (shown false w) - 1) i ≡ i = omega arith in
    let at_suc : min (length (shown false w) - 1) (suc i) ≡ suc i = omega arith in
    let here_p : get_elem? (visible_from 0 false w) i ≡ some p = rw at_i at at_p in
    let here_n : get_elem? (visible_from 0 false w) (suc i) ≡ some n = rw at_suc at at_n in
    let x : WCharacter = new_wchar s str p.char n.char in
    let pos_p = woot_chars.unique p.position p.char (visible_from-zero false w i p here_p) in
    let pos_n = woot_chars.unique n.position n.char (visible_from-zero false w (suc i) n here_n) in
    let (k, result, above, below, kept) =
      integrate_ins-IsWoot fuel w x p.char n.char p.position n.position woot_chars enough fresh
        pos_p pos_n pos_p pos_n (visible_from-lt 0 false w i p n here_p here_n) in
    (
      record s { clock = (increment s.clock).0; characters = insert_at k x w },
      ins_op s x,
      x,
      generate_ins-found fuel s i str p n within found_p found_n ∙ rw result refl,
      shown-insert_at w 0 i k x p n refl here_p here_n (omega arith) (omega arith),
      refl,
      refl,
      kept,
      refl,
      refl,
      refl,
    )
