-- ===== src/Cvrdt/Operation/Compare.antt =====
-- `Compare` of logical identifiers: it agrees with causality, and is no transitive order.
use conver_go.Base.{
  Text, arith, false, inl, inr, text_eq_iff, text_lt, text_lt_asymm, text_lt_irrefl, text_lt_total,
  text_lt_trans, true, ◌↔◌, ◌≡◌, ◌≢◌, ◌⊎◌,
}
use conver_go.Cvrdt.Operation.{
  LogicalId, happened_before, lid_less, lid_equals, below, same, above, compare_id,
}
use conver_go.Cvrdt.Operation.Causality.{IsClock, happened_before_strict_order}

pub compare_id_refl : (a : LogicalId) → compare_id a a ≡ same
unfolding compare_id lid_equals
compare_id_refl a = ground (arith, text_eq_iff a.site_id a.site_id)

lid_equals_symm : (a b : LogicalId) → lid_equals a b ≡ lid_equals b a
unfolding lid_equals
lid_equals_symm a b =
    ground (arith, text_eq_iff a.site_id b.site_id, text_eq_iff b.site_id a.site_id)

lid_equals-false : (a b : LogicalId) → a.site_id ≢ b.site_id → lid_equals a b ≡ false
unfolding lid_equals
lid_equals-false a b ne = ground (arith, text_eq_iff a.site_id b.site_id)

-- Of two different operations the one that causally precedes the other compares below it, in
-- whichever order they are compared.
pub compare_id-happened_before :
    (a b : LogicalId)
    → IsClock a.clock
    → IsClock b.clock
    → lid_equals a b ≡ false
    → happened_before a b ≡ true
    → (compare_id a b ≡ below) × (compare_id b a ≡ above)
unfolding compare_id lid_less
compare_id-happened_before a b p q ne h =
    ground (arith, lid_equals_symm a b, (happened_before_strict_order a b a p q p).1)

-- Operations of different sites compare below and above in opposite ways.
pub compare_id_antisymm :
    (a b : LogicalId)
    → IsClock a.clock
    → IsClock b.clock
    → a.site_id ≢ b.site_id
    → (compare_id a b ≡ below) ↔ (compare_id b a ≡ above)
unfolding compare_id lid_less
compare_id_antisymm a b p q ne = ground (
  arith,
  lid_equals-false a b ne,
  lid_equals_symm a b,
  (happened_before_strict_order a b a p q p).1,
  (happened_before_strict_order b a b q p q).1,
  text_lt_asymm a.site_id b.site_id,
  text_lt_asymm b.site_id a.site_id,
  text_lt_total a.site_id b.site_id,
)

-- Three operations compare in a circle whenever the first causally precedes the second, the third
-- is concurrent with both, and the third's site lies between the second's and the first's.
pub compare_id_cycle :
    (x y z : LogicalId)
    → happened_before x y ≡ true
    → happened_before y z ≡ false
    → happened_before z y ≡ false
    → happened_before x z ≡ false
    → happened_before z x ≡ false
    → text_lt y.site_id z.site_id ≡ true
    → text_lt z.site_id x.site_id ≡ true
    → (compare_id x y ≡ below) × (compare_id y z ≡ below) × (compare_id z x ≡ below)
unfolding compare_id lid_less
compare_id_cycle x y z hxy hyz hzy hxz hzx lyz lzx = ground (
  arith,
  lid_equals-false x y (ne x.site_id y.site_id (inr (text_lt_trans _ _ _ lyz lzx))),
  lid_equals-false y z (ne y.site_id z.site_id (inl lyz)),
  lid_equals-false z x (ne z.site_id x.site_id (inl lzx)),
)
  where
    ne : (s t : Text) → (text_lt s t ≡ true) ⊎ (text_lt t s ≡ true) → s ≢ t
    ne s t (inl h) = λ e. cc ((rw e at h), text_lt_irrefl t)
    ne s t (inr h) = λ e. cc ((rw e at h), text_lt_irrefl t)
