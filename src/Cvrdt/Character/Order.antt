-- ===== src/Cvrdt/Character/Order.antt =====
-- The order of character identifiers, and the equality that the sequence is searched by.
use conver_go.Base.{
  arith, eq_of_parts, false, text_eq_iff, text_lt_irrefl, text_lt_total, text_lt_trans, true, ◌↔◌,
  ◌≡◌,
}
use conver_go.Cvrdt.Character.{WCharacterId, less, equals, wcharacter_id_equals}

pub less_irrefl : (a : WCharacterId) → less a a ≡ false
unfolding less
less_irrefl a = ground (arith, text_lt_irrefl a.site_id)

pub less_trans : (a b c : WCharacterId) → less a b ≡ true → less b c ≡ true → less a c ≡ true
unfolding less
less_trans a b c h k = ground (arith, text_lt_trans a.site_id b.site_id c.site_id)

pub equals_iff : (a b : WCharacterId) → (equals a b ≡ true) ↔ (a ≡ b)
unfolding equals
equals_iff a b = (
  λ h. ground (arith, text_eq_iff a.site_id b.site_id, eq_of_parts a.clock b.clock),
  λ e. ground (arith, text_eq_iff a.site_id b.site_id),
)

less_total : (a b : WCharacterId) → less a b ≡ false → less b a ≡ false → a ≡ b
unfolding less
less_total a b h k = ground (arith, text_lt_total a.site_id b.site_id, eq_of_parts a.clock b.clock)

-- `Less` is a strict total order of the identifiers: irreflexive, transitive, and of two
-- identifiers that neither is less than the other they are the same.
pub less_strict_total_order :
    ((a : WCharacterId) → less a a ≡ false)
    × ((a b c : WCharacterId) → less a b ≡ true → less b c ≡ true → less a c ≡ true)
    × ((a b : WCharacterId) → less a b ≡ false → less b a ≡ false → a ≡ b)
less_strict_total_order = (less_irrefl, less_trans, less_total)

pub wcharacter_id_equals_refl : (a : WCharacterId) → wcharacter_id_equals a a ≡ true
unfolding wcharacter_id_equals
wcharacter_id_equals_refl a = ground (arith, text_eq_iff a.site_id a.site_id)

pub wcharacter_id_equals_symm :
    (a b : WCharacterId) → wcharacter_id_equals a b ≡ true → wcharacter_id_equals b a ≡ true
unfolding wcharacter_id_equals
wcharacter_id_equals_symm a b h =
    ground (arith, text_eq_iff a.site_id b.site_id, text_eq_iff b.site_id a.site_id)

pub wcharacter_id_equals_trans :
    (a b c : WCharacterId)
    → wcharacter_id_equals a b ≡ true
    → wcharacter_id_equals b c ≡ true
    → wcharacter_id_equals a c ≡ true
unfolding wcharacter_id_equals
wcharacter_id_equals_trans a b c h k = ground (
  arith,
  text_eq_iff a.site_id b.site_id,
  text_eq_iff b.site_id c.site_id,
  text_eq_iff a.site_id c.site_id,
)
