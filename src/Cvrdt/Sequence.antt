-- ===== src/Cvrdt/Sequence.antt =====
-- cvrdt/string.go: the sequence of characters of a site. `sequence []*WCharacter` is a list, in
-- which every pointer is to a character of its own; a pointer that a search returns is the
-- position of the character with what stands there. The position -1 of `GetPos` is `none`.
pub mod Positions
pub mod Visible
use conver_go.Base.{
  Bool, List, Option, Result, Text, [], err, false, get_elem?, if◌then◌else◌, insert_at, leb,
  length, ltb, negsuc, none, not, ok, pos, some, suc, zero, ℕ, ℤ, ◌&&◌, ◌++◌, ◌-◌, ◌||◌, ◌∷◌,
}
use conver_go.Cvrdt.Character.{
  WCharacterId, WCharacter, wcharacter_id_equals, get_new_special_start_wchar,
  get_new_special_end_wchar, is_special_wchar,
}

abbrev pub WString : Type 0
WString = List WCharacter

-- A `*WCharacter` into the sequence.
pub record Ref : Type 0 where
  pub position : ℕ
  pub char : WCharacter

-- The errors of cvrdt/string.go and cvrdt/site.go, one for each place where one is made.
pub data SiteError : Type 0 where
  index_out_of_bound occurrence_out_of_range no_elements : SiteError
  pending_state : SiteError

unfoldable pub new_wstring : Text → WString
new_wstring site_id = get_new_special_start_wchar site_id ∷ get_new_special_end_wchar site_id ∷ []

-- The loop of `GetPos`: the first position whose identifier matches.
unfoldable pub get_pos : WString → WCharacterId → Option ℕ
get_pos [] char_id = none
get_pos (el ∷ rest) char_id =
    if wcharacter_id_equals el.id char_id
    then some 0
    else elim (get_pos rest char_id) [ none ↦ none | some p ↦ some (suc p) ]

-- The loop of `GetById`; nil is `none`.
unfoldable pub get_by_id : WString → WCharacterId → Option Ref
get_by_id [] char_id = none
get_by_id (el ∷ rest) char_id =
    if wcharacter_id_equals el.id char_id
    then some (record { position = 0; char = el })
    else elim (get_by_id rest char_id) [
      | none ↦ none
      | some r ↦ some (record r { position = suc r.position })
    ]

unfoldable pub get_len : WString → ℕ
get_len w = length w

-- `Insert`; the position -1 and one past the length are refused.
unfoldable pub insert_char : WString → WCharacter → Option ℕ → Result SiteError WString
insert_char w char none = err index_out_of_bound
insert_char w char (some position) =
    if ltb (get_len w) position then err index_out_of_bound else ok (insert_at position char w)

-- The loop of `SubSeq`, from index `i` for `rounds` rounds.
unfoldable pub slice_from : WString → ℕ → ℕ → WString
slice_from w i zero = []
slice_from w i (suc rounds) =
    let rest = slice_from w (suc i) rounds in elim (get_elem? w i) [ none ↦ [] | some c ↦ c ∷ rest ]

unfoldable pub sub_seq_between : WString → Option ℕ → Option ℕ → WString
sub_seq_between w (some start_pos) (some end_pos) =
    if leb end_pos start_pos then [] else slice_from w (suc start_pos) (end_pos - suc start_pos)
sub_seq_between w _ _ = []

unfoldable pub sub_seq : WString → WCharacter → WCharacter → WString
sub_seq w start_char end_char = sub_seq_between w (get_pos w start_char.id) (get_pos w end_char.id)

unfoldable pub contains_char : WString → WCharacterId → Bool
contains_char [] element = false
contains_char (char ∷ rest) element =
    wcharacter_id_equals char.id element || contains_char rest element

-- The loop of `GetIthVisibleValue` that collects the visible characters; `i` is its index.
unfoldable pub visible_from : ℕ → Bool → WString → List Ref
visible_from i exclude_limiters [] = []
visible_from i exclude_limiters (c ∷ rest) =
    let found = visible_from (suc i) exclude_limiters rest in
    if c.visible && not (exclude_limiters && is_special_wchar (some c))
    then record { position = i; char = c } ∷ found
    else found

-- The entry of a list at `min(len - 1, occ)`.
unfoldable pub capped : Ref → List Ref → ℕ → Ref
capped r [] occ = r
capped r (next ∷ rest) zero = r
capped r (next ∷ rest) (suc occ) = capped next rest occ

unfoldable pub get_ith_visible_value : WString → ℤ → Bool → Result SiteError Ref
get_ith_visible_value w (negsuc n) exclude_limiters = err occurrence_out_of_range
get_ith_visible_value w (pos occ) exclude_limiters = elim (visible_from 0 exclude_limiters w) [
  | [] ↦ err no_elements
  | r ∷ rest ↦ ok (capped r rest occ)
]

unfoldable pub get_visible_content : WString → Text
get_visible_content [] = []
get_visible_content (char ∷ rest) =
    let content = get_visible_content rest in
    if char.visible && not (is_special_wchar (some char))
    then char.alpha_value ++ content
    else content
