-- ===== src/Cvrdt/Clock/Merge.antt =====
-- `Increment`, `Update` and `Copy` of cvrdt/clock.go, read through the entries of the clock.
use conver_go.Base.{
  Map, Option, Text, [], arith, eq_of_parts, if◌then◌else◌, insert, lookup, lookup-insert, ltb_ℤ,
  max_ℤ, none, refl, some, suc_ℤ, text_Eq, text_eq_iff, ℤ, ◌==◌, ◌∷◌, ◌≡◌, ◌≢◌, ◌≤ℤ◌,
}
use conver_go.Cvrdt.Clock.{
  VectorClock, max_value, clock_at, value, increment, update_entry, update_entries, update,
  copy_entries, copy, get,
}

-- The keys of a map are distinct.
abbrev pub Distinct : Map Text ℤ → Type 0
Distinct [] = Unit
Distinct ((k, v) ∷ m) = (lookup k m ≡ none) × Distinct m

-- What two maps hold at a site, joined: the larger of two values.
abbrev pub join : Option ℤ → Option ℤ → Option ℤ
join none y = y
join (some a) none = some a
join (some a) (some b) = some (max_ℤ a b)

lookup-update_entry :
    (m : Map Text ℤ) (site : Text) (c : ℤ) (k : Text)
    → lookup k (update_entry m site c)
      ≡ (if site == k then join (lookup k m) (some c) else lookup k m)
unfolding update_entry
lookup-update_entry m site c k = ground (arith, lookup-insert site k c m, text_eq_iff site k)

pub lookup-update_entries :
    (m r : Map Text ℤ) (k : Text)
    → Distinct r
    → lookup k (update_entries m r) ≡ join (lookup k m) (lookup k r)
unfolding update_entries lookup
lookup-update_entries m [] k d = ground arith
lookup-update_entries m ((site, c) ∷ r) k d = ground (
  arith,
  lookup-update_entries (update_entry m site c) r k,
  lookup-update_entry m site c k,
  text_eq_iff site k,
)

-- After `Update` by a clock without repeated sites, a site's entry is the larger of the two
-- entries, a missing entry counting as none; the owner of the clock stays.
pub lookup-update :
    (v : VectorClock) (r : Map Text ℤ) (k : Text)
    → Distinct r
    → (lookup k (update v r).clocks ≡ join (lookup k v.clocks) (lookup k r))
      × ((update v r).local_id ≡ v.local_id)
unfolding update
lookup-update v r k d = (lookup-update_entries v.clocks r k d, refl)

join_comm : (a b : Option ℤ) → join a b ≡ join b a
join_comm none none = refl
join_comm none (some b) = refl
join_comm (some a) none = refl
join_comm (some a) (some b) = ground (arith, eq_of_parts a b)

join_swap : (a b c : Option ℤ) → join (join a b) c ≡ join (join a c) b
join_swap none b c = join_comm b c
join_swap (some a) none none = refl
join_swap (some a) none (some c) = refl
join_swap (some a) (some b) none = refl
join_swap (some a) (some b) (some c) = ground (arith, eq_of_parts b c)

join_again : (a b : Option ℤ) → join (join a b) b ≡ join a b
join_again none none = refl
join_again none (some b) = ground arith
join_again (some a) none = refl
join_again (some a) (some b) = ground arith

-- Two received clocks without repeated sites can be merged in either order, and merging one a
-- second time changes no entry.
pub update_converges :
    (v : VectorClock) (r s : Map Text ℤ) (k : Text)
    → Distinct r
    → Distinct s
    → (lookup k (update (update v r) s).clocks ≡ lookup k (update (update v s) r).clocks)
      × (lookup k (update (update v r) r).clocks ≡ lookup k (update v r).clocks)
unfolding update
update_converges v r s k d e = ground (
  arith,
  lookup-update_entries v.clocks r k,
  lookup-update_entries v.clocks s k,
  lookup-update_entries (update_entries v.clocks r) s k,
  lookup-update_entries (update_entries v.clocks s) r k,
  lookup-update_entries (update_entries v.clocks r) r k,
  join_swap (lookup k v.clocks) (lookup k r) (lookup k s),
  join_again (lookup k v.clocks) (lookup k r),
)

-- `Increment` on a clock within the bound: below the bound the own entry grows by exactly one, at
-- the bound it stays, so it never passes the bound; the value returned is the new entry, and no
-- other site's entry changes.
pub increment_lem :
    (v : VectorClock)
    → value v ≤ℤ max_value
    → (value (increment v).0 ≡ (if ltb_ℤ (value v) max_value then suc_ℤ (value v) else value v))
      × ((increment v).1 ≡ value (increment v).0)
      × (value (increment v).0 ≤ℤ max_value)
      × ((k : Text) → k ≢ v.local_id → get (increment v).0 k ≡ get v k)
unfolding increment get
increment_lem v h = (
  ground (arith, at_self, text_eq_iff v.local_id v.local_id),
  refl,
  ground (arith, at_self, text_eq_iff v.local_id v.local_id),
  λ k ne. ground (
    arith,
    lookup-insert v.local_id k (suc_ℤ (clock_at v.clocks v.local_id)) v.clocks,
    text_eq_iff v.local_id k,
  ),
)
  where
    at_self :
        lookup v.local_id (insert v.local_id (suc_ℤ (clock_at v.clocks v.local_id)) v.clocks) ≡ (
          if v.local_id == v.local_id
          then some (suc_ℤ (clock_at v.clocks v.local_id))
          else lookup v.local_id v.clocks)
    at_self = lookup-insert v.local_id v.local_id (suc_ℤ (clock_at v.clocks v.local_id)) v.clocks

lookup-copy_entries :
    (made m : Map Text ℤ) (k : Text)
    → Distinct m
    → lookup k (copy_entries made m)
      ≡ (elim (lookup k m) [ none ↦ lookup k made | some c ↦ some c ])
unfolding copy_entries lookup
lookup-copy_entries made [] k d = refl
lookup-copy_entries made ((site, c) ∷ m) k d = ground (
  arith,
  lookup-copy_entries (insert site c made) m k,
  lookup-insert site k c made,
  text_eq_iff site k,
)

-- The snapshot of a clock holds the same entries.
pub lookup-copy :
    (v : VectorClock) (k : Text) → Distinct v.clocks → lookup k (copy v) ≡ lookup k v.clocks
unfolding copy lookup
lookup-copy v k d = ground (arith, lookup-copy_entries [] v.clocks k d)
