-- ===== src/Cvrdt/Clock.antt =====
-- cvrdt/clock.go: vector clocks. The map from sites to values is an association list.
pub mod Merge
use conver_go.Base.{
  Map, Text, [], if◌then◌else◌, insert, lookup, ltb_ℤ, none, pos, some, suc_ℤ, text_Eq, ℤ, ◌∷◌,
}

-- `MaxValue` and `MinValue`
abbrev pub max_value : ℤ
max_value = pos 2147483647

abbrev pub min_value : ℤ
min_value = pos 0

pub record VectorClock : Type 0 where
  pub local_id : Text
  pub clocks : Map Text ℤ

-- `m[site]`: the zero value where the site is missing.
unfoldable pub clock_at : Map Text ℤ → Text → ℤ
clock_at m site = elim (lookup site m) [ none ↦ pos 0 | some c ↦ c ]

unfoldable pub new_vector_clock : Text → VectorClock
new_vector_clock site_id = record { local_id = site_id; clocks = (site_id, min_value) ∷ [] }

unfoldable pub value : VectorClock → ℤ
unfolding clock_at
value v = clock_at v.clocks v.local_id

unfoldable pub increment : VectorClock → VectorClock × ℤ
unfolding value
increment v =
    let v' : VectorClock =
      if ltb_ℤ (clock_at v.clocks v.local_id) max_value
      then record v { clocks = insert v.local_id (suc_ℤ (clock_at v.clocks v.local_id)) v.clocks }
      else v in
    (v', value v')

-- The body of the loop in `Update`.
unfoldable pub update_entry : Map Text ℤ → Text → ℤ → Map Text ℤ
update_entry clocks site clock = elim (lookup site clocks) [
  | none ↦ insert site clock clocks
  | some current ↦ if ltb_ℤ current clock then insert site clock clocks else clocks
]

unfoldable pub update_entries : Map Text ℤ → Map Text ℤ → Map Text ℤ
unfolding update_entry
update_entries clocks [] = clocks
update_entries clocks ((site, clock) ∷ received) =
    update_entries (update_entry clocks site clock) received

unfoldable pub update : VectorClock → Map Text ℤ → VectorClock
unfolding update_entries
update v received = record v { clocks = update_entries v.clocks received }

-- `Copy` builds a fresh map of the same entries.
unfoldable pub copy_entries : Map Text ℤ → Map Text ℤ → Map Text ℤ
copy_entries made [] = made
copy_entries made ((site, clock) ∷ rest) = copy_entries (insert site clock made) rest

unfoldable pub copy : VectorClock → Map Text ℤ
unfolding copy_entries
copy v = copy_entries [] v.clocks

-- `Get`
unfoldable pub get : VectorClock → Text → ℤ
unfolding clock_at
get v site_id = clock_at v.clocks site_id
