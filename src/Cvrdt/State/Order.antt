-- ===== src/Cvrdt/State/Order.antt =====
-- Operations on which `CompareOperation` is a total order, states sorted by it, and the ordered
-- insertion that `insert` of cvrdt/state.go implements by a binary search.
use conver_go.Base.{
  All, In, [], arith, get_elem?, if◌then◌else◌, inl, inr, insert_at, refl, ret, some, subst, suc,
  sym, true, zero, ℕ, ◌<◌, ◌↔◌, ◌∙◌, ◌∷◌, ◌≡◌, ◌⊎◌,
}
use conver_go.Cvrdt.Operation.{CrdtOperation, Cmp, below, same, above, compare_operation}
use conver_go.Cvrdt.State.{CvrdtState, insert_op, contains_op}
use conver_go.Cvrdt.State.Search.{IsSplit, same_at, Cmp-cases, binary_search-IsSplit}

-- On the operations of `P` the comparison is a total order that tells different ones apart.
pub record IsOrder (P : CrdtOperation → Type 0) : Type 0 where
  pub compare_self : (a : CrdtOperation) → compare_operation a a ≡ same
  pub eq_of_same : (a b : CrdtOperation) → P a → P b → compare_operation a b ≡ same → a ≡ b
  pub above_of_below :
      (a b : CrdtOperation)
      → P a
      → P b
      → compare_operation a b ≡ below
      → compare_operation b a ≡ above
  pub below_of_above :
      (a b : CrdtOperation)
      → P a
      → P b
      → compare_operation a b ≡ above
      → compare_operation b a ≡ below
  pub below_trans :
      (a b c : CrdtOperation)
      → P a
      → P b
      → P c
      → compare_operation a b ≡ below
      → compare_operation b c ≡ below
      → compare_operation a c ≡ below

abbrev pub IsSorted : CvrdtState → Type 0
IsSorted [] = Unit
IsSorted (a ∷ w) = All (λ b. compare_operation a b ≡ below) w × IsSorted w

-- The reference: insertion into a sorted list by a linear scan.
pub put_by : Cmp → CrdtOperation → CrdtOperation → CvrdtState → CvrdtState → CvrdtState
put_by below op o w rest = o ∷ rest
put_by same op o w rest = o ∷ w
put_by above op o w rest = op ∷ o ∷ w

pub put : CrdtOperation → CvrdtState → CvrdtState
unfolding put_by
put op [] = op ∷ []
put op (o ∷ w) = put_by (compare_operation o op) op o w (put op w)

-- How many operations of a sorted state are below.
place_by : Cmp → ℕ → ℕ
place_by below n = suc n
place_by same n = 0
place_by above n = 0

pub place : CrdtOperation → CvrdtState → ℕ
unfolding place_by
place op [] = 0
place op (o ∷ w) = place_by (compare_operation o op) (place op w)

All-get_elem? :
    (Q : CrdtOperation → Type 0) (w : CvrdtState) (i : ℕ) (o : CrdtOperation)
    → All Q w
    → get_elem? w i ≡ some o
    → Q o
All-get_elem? Q [] i o h e = absurd (cc)
All-get_elem? Q (a ∷ w) zero o h e = let eq : a ≡ o = ground arith in subst Q eq h.0
All-get_elem? Q (a ∷ w) (suc i) o h e = All-get_elem? Q w i o h.1 e

module _ (P : CrdtOperation → Type 0) (r : IsOrder P) where
  IsSplit-cons :
      (a op : CrdtOperation) (w : CvrdtState) (k : ℕ)
      → compare_operation a op ≡ below
      → IsSplit w op k
      → IsSplit (a ∷ w) op (suc k)
  IsSplit-cons a op w k c s = record {
    split_le = omega (arith, s.split_le);
    before = λ i o at lt. before_case i o at lt;
    here = s.here;
    after = λ i o at lt. after_case i o at lt;
  }
    where
      before_case :
          (i : ℕ) (o : CrdtOperation)
          → get_elem? (a ∷ w) i ≡ some o
          → i < suc k
          → compare_operation o op ≡ below
      before_case zero o at lt = let eq : a ≡ o = ground arith in rw (← eq) c
      before_case (suc i) o at lt = s.before i o at (omega arith)

      after_case :
          (i : ℕ) (o : CrdtOperation)
          → get_elem? (a ∷ w) i ≡ some o
          → suc k < i
          → compare_operation o op ≡ above
      after_case zero o at lt = absurd (omega arith)
      after_case (suc i) o at lt = s.after i o at (omega arith)

  -- Past an operation that is not below, all are above.
  IsSplit-zero :
      (a op : CrdtOperation) (w : CvrdtState)
      → P op
      → P a
      → All P w
      → All (λ b. compare_operation a b ≡ below) w
      → (compare_operation a op ≡ same) ⊎ (compare_operation a op ≡ above)
      → IsSplit (a ∷ w) op 0
  IsSplit-zero a op w p pa pw later c = record {
    split_le = omega arith;
    before = λ i o at lt. absurd (omega arith);
    here = λ o at is_below. head_case o at is_below c;
    after = λ i o at lt. after_case i o at lt c;
  }
    where
      head_case :
          (o : CrdtOperation)
          → get_elem? (a ∷ w) 0 ≡ some o
          → compare_operation o op ≡ below
          → (compare_operation a op ≡ same) ⊎ (compare_operation a op ≡ above)
          → ⊥
      head_case o at is_below (inl e) =
          let eq : a ≡ o = ground arith in cc ((rw (← eq) at is_below))
      head_case o at is_below (inr e) =
          let eq : a ≡ o = ground arith in cc ((rw (← eq) at is_below))

      after_case :
          (i : ℕ) (o : CrdtOperation)
          → get_elem? (a ∷ w) i ≡ some o
          → 0 < i
          → (compare_operation a op ≡ same) ⊎ (compare_operation a op ≡ above)
          → compare_operation o op ≡ above
      after_case zero o at lt e = absurd (omega arith)
      after_case (suc i) o at lt (inl e) =
          let past = All-get_elem? (λ b. compare_operation a b ≡ below) w i o later at in
          r.above_of_below op o p (All-get_elem? P w i o pw at)
            (rw (← r.eq_of_same a op pa p e) past)
      after_case (suc i) o at lt (inr e) =
          let past = All-get_elem? (λ b. compare_operation a b ≡ below) w i o later at in
          let po = All-get_elem? P w i o pw at in
          r.above_of_below op o p po
            (r.below_trans op a o p pa po (r.below_of_above a op pa p e) past)

  place-IsSplit :
      (op : CrdtOperation) (w : CvrdtState)
      → P op
      → All P w
      → IsSorted w
      → IsSplit w op (place op w)
  unfolding place place_by
  place-IsSplit op [] p pw s = record {
    split_le = omega arith;
    before = λ i o at lt. absurd (omega arith);
    here = λ o at is_below. cc;
    after = λ i o at lt. cc;
  }
  place-IsSplit op (a ∷ w) p pw s = elim (Cmp-cases (compare_operation a op)) [
    | inl c ↦ rw (c, place) (IsSplit-cons a op w (place op w) c (place-IsSplit op w p pw.1 s.1))
    | inr (inl c) ↦ rw (c, place) (IsSplit-zero a op w p pw.0 pw.1 s.0 (inl c))
    | inr (inr c) ↦ rw (c, place) (IsSplit-zero a op w p pw.0 pw.1 s.0 (inr c))
  ]

  put-place :
      (op : CrdtOperation) (w : CvrdtState)
      → (if same_at w op (place op w) then w else insert_at (place op w) op w) ≡ put op w
  unfolding place place_by put put_by
  put-place op [] = refl
  put-place op (a ∷ w) = ground (arith, put-place op w)

  -- `insert` by binary search is ordered insertion.
  pub insert_op-put :
      (w : CvrdtState) (op : CrdtOperation)
      → P op
      → All P w
      → IsSorted w
      → insert_op w op ≡ ret (put op w)
  unfolding insert_op
  insert_op-put w op p pw s =
      rw (binary_search-IsSplit w op (place op w) (place-IsSplit op w p pw s))
        (ground (arith, put-place op w))

  -- What `contains` answers.
  pub contains_op-place :
      (w : CvrdtState) (op : CrdtOperation)
      → P op
      → All P w
      → IsSorted w
      → contains_op w op ≡ ret (same_at w op (place op w))
  unfolding contains_op
  contains_op-place w op p pw s =
      rw (binary_search-IsSplit w op (place op w) (place-IsSplit op w p pw s)) refl

  pub put_known :
      (w : CvrdtState) (op : CrdtOperation) → same_at w op (place op w) ≡ true → put op w ≡ w
  put_known w op h = sym (put-place op w) ∙ rw h refl

  pub All-put :
      (Q : CrdtOperation → Type 0) (op : CrdtOperation) (w : CvrdtState)
      → Q op
      → All Q w
      → All Q (put op w)
  unfolding put put_by
  All-put Q op [] q h = (q, tt)
  All-put Q op (a ∷ w) q h = elim (Cmp-cases (compare_operation a op)) [
    | inl c ↦ rw (c, put) (h.0, All-put Q op w q h.1)
    | inr (inl c) ↦ rw (c, put) h
    | inr (inr c) ↦ rw (c, put) (q, h)
  ]

  -- An operation below the head of a sorted list is below all of it.
  below-All :
      (op a : CrdtOperation) (w : CvrdtState)
      → P op
      → P a
      → All P w
      → compare_operation op a ≡ below
      → All (λ b. compare_operation a b ≡ below) w
      → All (λ b. compare_operation op b ≡ below) w
  below-All op a [] p pa pw c h = tt
  below-All op a (b ∷ w) p pa pw c h =
      (r.below_trans op a b p pa pw.0 c h.0, below-All op a w p pa pw.1 c h.1)

  pub IsSorted-put :
      (op : CrdtOperation) (w : CvrdtState) → P op → All P w → IsSorted w → IsSorted (put op w)
  unfolding put put_by
  IsSorted-put op [] p pw s = (tt, tt)
  IsSorted-put op (a ∷ w) p pw s = elim (Cmp-cases (compare_operation a op)) [
    | inl c ↦
        rw (c, put)
          (All-put (λ b. compare_operation a b ≡ below) op w c s.0, IsSorted-put op w p pw.1 s.1)
    | inr (inl c) ↦ rw (c, put) s
    | inr (inr c) ↦
        let first = r.below_of_above a op pw.0 p c in
        rw (c, put) ((first, below-All op a w p pw.0 pw.1 first s.0), s)
  ]

  pub In-put :
      (o op : CrdtOperation) (w : CvrdtState)
      → P op
      → All P w
      → In o (put op w) ↔ ((o ≡ op) ⊎ In o w)
  unfolding put put_by
  In-put o op [] p pw = (λ h. h, λ h. h)
  In-put o op (a ∷ w) p pw = elim (Cmp-cases (compare_operation a op)) [
    | inl c ↦ rw (c, put) (ground (arith, In-put o op w p pw.1))
    | inr (inl c) ↦ rw (c, put) (ground (arith, r.eq_of_same a op pw.0 p c))
    | inr (inr c) ↦ rw (c, put) (ground arith)
  ]
