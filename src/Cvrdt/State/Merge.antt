-- ===== src/Cvrdt/State/Merge.antt =====
-- `Merge` of cvrdt/state.go: what it keeps on every state, and that peers converge where the
-- comparison of operations is a total order.
use conver_go.Base.{
  All, All-In, Bool-cases, In, [], ap, arith, if◌then◌else◌, inl, inr, insert_at, refl, ret, suc,
  sym, text_Eq, zero, ℕ, ◌>>=◌, ◌↔◌, ◌∙◌, ◌∷◌, ◌≡◌, ◌⊎◌,
}
use conver_go.Cvrdt.Operation.{CrdtOperation, below, compare_operation}
use conver_go.Cvrdt.State.{CvrdtState, insert_op, contains_op, merge}
use conver_go.Cvrdt.State.Search.{binary_search_lem, same_at}
use conver_go.Cvrdt.State.Order.{
  IsOrder, IsSorted, put, place, All-put, IsSorted-put, In-put, insert_op-put, contains_op-place,
  put_known,
}

In-insert_at :
    (o op : CrdtOperation) (i : ℕ) (w : CvrdtState) → In o (insert_at i op w) ↔ ((o ≡ op) ⊎ In o w)
In-insert_at o op zero w = (λ h. h, λ h. h)
In-insert_at o op (suc i) [] = (λ h. h, λ h. h)
In-insert_at o op (suc i) (a ∷ w) = ground (arith, In-insert_at o op i w)

-- `insert` returns on every state: the state as it was, or with the operation added.
pub insert_op_lem :
    (w : CvrdtState) (op : CrdtOperation)
    → (u : CvrdtState) × (insert_op w op ≡ ret u)
      × ((o : CrdtOperation) → In o w → In o u)
      × ((o : CrdtOperation) → In o u → (o ≡ op) ⊎ In o w)
unfolding insert_op
insert_op_lem w op =
    let (i, hit, e, _) = binary_search_lem w op in
    elim (Bool-cases hit) [
      | inl found ↦ (w, rw e (rw found refl), λ o m. m, λ o m. inr m)
      | inr missed ↦ (
        insert_at i op w,
        rw e (rw missed refl),
        λ o m. (In-insert_at o op i w).1 (inr m),
        λ o m. (In-insert_at o op i w).0 m,
      )
    ]

step_returns :
    (w : CvrdtState) (op : CrdtOperation)
    → (u : CvrdtState) × ((contains_op w op >>= λ known. if known then ret w else insert_op w op)
        ≡ ret u)
      × ((o : CrdtOperation) → In o w → In o u)
      × ((o : CrdtOperation) → In o u → (o ≡ op) ⊎ In o w)
unfolding contains_op
step_returns w op =
    let (i, hit, e, _) = binary_search_lem w op in
    elim (Bool-cases hit) [
      | inl found ↦ (w, rw e (rw found refl), λ o m. m, λ o m. inr m)
      | inr missed ↦
          let (u, done, kept, only) = insert_op_lem w op in (u, rw e (rw missed done), kept, only)
    ]

from_both : {V A W S : Type 0} → V ⊎ S → (V → A ⊎ W) → W ⊎ (A ⊎ S)
from_both (inl v) k = elim (k v) [ inl a ↦ inr (inl a) | inr w ↦ inl w ]
from_both (inr s) k = inr (inr s)

-- On every two states `Merge` returns; the result holds every operation of the receiver, and none
-- that is in neither of the two.
pub merge_lem :
    (w s : CvrdtState)
    → (u : CvrdtState) × (merge w s ≡ ret u)
      × ((o : CrdtOperation) → In o w → In o u)
      × ((o : CrdtOperation) → In o u → In o w ⊎ In o s)
unfolding merge
merge_lem w [] = (w, refl, λ o m. m, λ o m. inl m)
merge_lem w (op ∷ s) =
    let (v, one, kept_v, only_v) = step_returns w op in
    let (u, rest, kept_u, only_u) = merge_lem v s in
    (
      u,
      rw (one, merge) rest,
      λ o m. kept_u o (kept_v o m),
      λ o m. from_both (only_u o m) (only_v o),
    )

-- The reference: the operations put in one after the other.
pub put_all : CvrdtState → CvrdtState → CvrdtState
put_all w [] = w
put_all w (op ∷ s) = put_all (put op w) s

module _ (P : CrdtOperation → Type 0) (r : IsOrder P) where
  step_put :
      (w : CvrdtState) (op : CrdtOperation)
      → P op
      → All P w
      → IsSorted w
      → (contains_op w op >>= λ known. if known then ret w else insert_op w op) ≡ ret (put op w)
  step_put w op p pw s =
      rw (contains_op-place P r w op p pw s) (elim (Bool-cases (same_at w op (place op w))) [
        | inl known ↦ rw (known, put_known P r w op known) refl
        | inr fresh ↦ rw fresh (insert_op-put P r w op p pw s)
      ])

  merge-put_all :
      (w s : CvrdtState) → All P w → All P s → IsSorted w → merge w s ≡ ret (put_all w s)
  unfolding merge put_all
  merge-put_all w [] pw ps h = refl
  merge-put_all w (op ∷ s) pw ps h =
      rw (step_put w op ps.0 pw h, merge)
        (merge-put_all (put op w) s (All-put P r P op w ps.0 pw) ps.1
          (IsSorted-put P r op w ps.0 pw h))

  put_all-good :
      (w s : CvrdtState)
      → All P w
      → All P s
      → IsSorted w
      → All P (put_all w s) × IsSorted (put_all w s)
  unfolding put_all
  put_all-good w [] pw ps h = (pw, h)
  put_all-good w (op ∷ s) pw ps h =
      put_all-good (put op w) s (All-put P r P op w ps.0 pw) ps.1 (IsSorted-put P r op w ps.0 pw h)

  In-put_all :
      (o : CrdtOperation) (w s : CvrdtState)
      → All P w
      → All P s
      → In o (put_all w s) ↔ (In o w ⊎ In o s)
  unfolding put_all
  In-put_all o w [] pw ps = (inl, λ h. left h)
    where
      left : In o w ⊎ ⊥ → In o w
      left (inl m) = m
      left (inr f) = absurd f
  In-put_all o w (op ∷ s) pw ps = ground (
    arith,
    In-put_all o (put op w) s (All-put P r P op w ps.0 pw) ps.1,
    In-put P r o op w ps.0 pw,
  )

  -- A sorted state is determined by its operations.
  sorted_ext :
      (u v : CvrdtState)
      → All P u
      → All P v
      → IsSorted u
      → IsSorted v
      → ((o : CrdtOperation) → In o u → In o v)
      → ((o : CrdtOperation) → In o v → In o u)
      → u ≡ v
  sorted_ext [] [] pu pv su sv f g = refl
  sorted_ext [] (b ∷ v) pu pv su sv f g = absurd (g b (inl refl))
  sorted_ext (a ∷ u) [] pu pv su sv f g = absurd (f a (inl refl))
  sorted_ext (a ∷ u) (b ∷ v) pu pv su sv f g =
      let heads = same_head (f a (inl refl)) (g b (inl refl)) in
      rw heads (
        ap (◌∷◌ b) (
          sorted_ext u v pu.1 pv.1 su.1 sv.1
            (λ o m. tail_of o v (All-In _ u o su.0 m) heads (f o (inr m)))
            (λ o m. tail_of' o u (All-In _ v o sv.0 m) heads (g o (inr m)))))
    where
      not_both : compare_operation a b ≡ below → compare_operation b a ≡ below → ⊥
      not_both h k = cc (r.above_of_below a b pu.0 pv.0 h, k)

      same_head : (a ≡ b) ⊎ In a v → (b ≡ a) ⊎ In b u → a ≡ b
      same_head (inl e) m = e
      same_head (inr m) (inl e) = sym e
      same_head (inr m) (inr m') = absurd (not_both (All-In _ u b su.0 m') (All-In _ v a sv.0 m))

      tail_of :
          (o : CrdtOperation) (w : CvrdtState)
          → compare_operation a o ≡ below
          → a ≡ b
          → (o ≡ b) ⊎ In o w
          → In o w
      tail_of o w h e (inl eq) = absurd (cc (h, r.compare_self a, e, eq))
      tail_of o w h e (inr m) = m

      tail_of' :
          (o : CrdtOperation) (w : CvrdtState)
          → compare_operation b o ≡ below
          → a ≡ b
          → (o ≡ a) ⊎ In o w
          → In o w
      tail_of' o w h e (inl eq) = absurd (cc (h, r.compare_self b, e, eq))
      tail_of' o w h e (inr m) = m

  -- On operations that `CompareOperation` orders totally and tells apart, two peers with sorted
  -- states that merge each other's states hold the same state, which is sorted and has exactly
  -- the operations of the two.
  pub merge_comm :
      (w s : CvrdtState)
      → All P w
      → All P s
      → IsSorted w
      → IsSorted s
      → (u : CvrdtState) × (merge w s ≡ ret u)
        × (merge s w ≡ ret u)
        × IsSorted u
        × ((o : CrdtOperation) → In o u ↔ (In o w ⊎ In o s))
  merge_comm w s pw ps sw ss =
      let (pu, su) = put_all-good w s pw ps sw in
      let (pv, sv) = put_all-good s w ps pw ss in
      let one =
        sorted_ext (put_all s w) (put_all w s) pv pu sv su
          (λ o m. (In-put_all o w s pw ps).1 (swap ((In-put_all o s w ps pw).0 m)))
          (λ o m. (In-put_all o s w ps pw).1 (swap ((In-put_all o w s pw ps).0 m))) in
      (
        put_all w s,
        merge-put_all w s pw ps sw,
        merge-put_all s w ps pw ss ∙ ap ret one,
        su,
        λ o. In-put_all o w s pw ps,
      )
    where
      swap : {A B : Type 0} → A ⊎ B → B ⊎ A
      swap (inl a) = inr a
      swap (inr b) = inl b

  -- On operations that `CompareOperation` orders totally and tells apart, the order in which the
  -- states of two peers are merged into a sorted state does not matter, and a state that is
  -- merged a second time changes nothing.
  pub merge_converges :
      (w s t : CvrdtState)
      → All P w
      → All P s
      → All P t
      → IsSorted w
      → (u : CvrdtState) × ((merge w s >>= λ v. merge v t) ≡ ret u)
        × ((merge w t >>= λ v. merge v s) ≡ ret u)
        × (merge u s ≡ ret u)
  merge_converges w s t pw ps pt sw =
      let (pa, sa) = put_all-good w s pw ps sw in
      let (pb, sb) = put_all-good w t pw pt sw in
      let (pu, su) = put_all-good (put_all w s) t pa pt sa in
      let (pv, sv) = put_all-good (put_all w t) s pb ps sb in
      let (px, sx) = put_all-good (put_all (put_all w s) t) s pu ps su in
      let order =
        sorted_ext (put_all (put_all w t) s) (put_all (put_all w s) t) pv pu sv su
          (λ o m. ground (
            arith,
            In-put_all o (put_all w t) s pb ps,
            In-put_all o w t pw pt,
            In-put_all o (put_all w s) t pa pt,
            In-put_all o w s pw ps,
          ))
          (λ o m. ground (
            arith,
            In-put_all o (put_all w t) s pb ps,
            In-put_all o w t pw pt,
            In-put_all o (put_all w s) t pa pt,
            In-put_all o w s pw ps,
          )) in
      let again =
        sorted_ext (put_all (put_all (put_all w s) t) s) (put_all (put_all w s) t) px pu sx su
          (λ o m. ground (
            arith,
            In-put_all o (put_all (put_all w s) t) s pu ps,
            In-put_all o (put_all w s) t pa pt,
            In-put_all o w s pw ps,
          ))
          (λ o m. (In-put_all o (put_all (put_all w s) t) s pu ps).1 (inl m)) in
      (
        put_all (put_all w s) t,
        rw (merge-put_all w s pw ps sw) (merge-put_all (put_all w s) t pa pt sa),
        rw (merge-put_all w t pw pt sw) (merge-put_all (put_all w t) s pb ps sb ∙ ap ret order),
        merge-put_all (put_all (put_all w s) t) s pu ps su ∙ ap ret again,
      )
