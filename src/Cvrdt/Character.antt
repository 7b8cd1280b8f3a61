-- ===== src/Cvrdt/Character.antt =====
-- cvrdt/character.go: character identifiers, their order and the special boundary characters.
pub mod Order
use conver_go.Base.{
  Bool, Option, Text, codes, eqb_ℤ, false, if◌then◌else◌, ltb_ℤ, negsuc, none, pos, some, text_Eq,
  text_lt, true, ℤ, ◌&&◌, ◌==◌, ◌||◌,
}
use conver_go.Cvrdt.Clock.{max_value}

pub record WCharacterId : Type 0 where
  pub site_id : Text
  pub clock : ℤ

-- `Less` of an identifier
unfoldable pub less : WCharacterId → WCharacterId → Bool
less wid other =
    if ltb_ℤ wid.clock other.clock
    then true
    else if ltb_ℤ other.clock wid.clock
    then false
    else text_lt wid.site_id other.site_id

-- `Equals`
unfoldable pub equals : WCharacterId → WCharacterId → Bool
equals wid other = (wid.site_id == other.site_id) && eqb_ℤ wid.clock other.clock

abbrev pub special_start_char : Text
special_start_char = codes "<START>"

abbrev pub special_end_char : Text
special_end_char = codes "<END>"

abbrev pub special_start_char_clock : ℤ
special_start_char_clock = pos 0

abbrev pub special_end_char_clock : ℤ
special_end_char_clock = max_value

-- -1
abbrev pub special_missing_char_clock : ℤ
special_missing_char_clock = negsuc 0

unfoldable pub wcharacter_id_equals : WCharacterId → WCharacterId → Bool
unfolding equals
wcharacter_id_equals id1 id2 =
    if (eqb_ℤ id1.clock special_start_char_clock && eqb_ℤ id2.clock special_start_char_clock)
      || (eqb_ℤ id1.clock special_end_char_clock && eqb_ℤ id2.clock special_end_char_clock)
    then true
    else equals id1 id2

pub record WCharacter : Type 0 where
  pub id : WCharacterId
  pub alpha_value : Text
  pub visible : Bool
  pub previous_id : WCharacterId
  pub next_id : WCharacterId

unfoldable pub get_new_special_start_wchar : Text → WCharacter
get_new_special_start_wchar site = record {
  id = record { site_id = site; clock = special_start_char_clock };
  alpha_value = special_start_char;
  visible = true;
  previous_id = record { site_id = site; clock = special_missing_char_clock };
  next_id = record { site_id = site; clock = special_end_char_clock };
}

unfoldable pub get_new_special_end_wchar : Text → WCharacter
get_new_special_end_wchar site = record {
  id = record { site_id = site; clock = special_end_char_clock };
  alpha_value = special_end_char;
  visible = true;
  previous_id = record { site_id = site; clock = special_start_char_clock };
  next_id = record { site_id = site; clock = special_missing_char_clock };
}

-- `Less` of a character
unfoldable pub wcharacter_less : WCharacter → WCharacter → Bool
unfolding less
wcharacter_less w other = less w.id other.id

-- `IsSpecialWChar`, whose receiver may be nil.
unfoldable pub is_special_wchar : Option WCharacter → Bool
is_special_wchar none = false
is_special_wchar (some w) =
    (w.alpha_value == special_start_char) || (w.alpha_value == special_end_char)

-- `WCharacterData`, with the exported names of the same fields.
pub record WCharacterData : Type 0 where
  pub id : WCharacterId
  pub alpha_value : Text
  pub visible : Bool
  pub previous_id : WCharacterId
  pub next_id : WCharacterId

unfoldable pub export_data : WCharacter → WCharacterData
export_data w = record {
  id = w.id;
  alpha_value = w.alpha_value;
  visible = w.visible;
  previous_id = w.previous_id;
  next_id = w.next_id;
}

unfoldable pub import_data : WCharacterData → WCharacter
import_data w = record {
  id = w.id;
  alpha_value = w.alpha_value;
  visible = w.visible;
  previous_id = w.previous_id;
  next_id = w.next_id;
}
