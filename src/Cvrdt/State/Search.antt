-- ===== src/Cvrdt/State/Search.antt =====
-- `binarySearch` of cvrdt/state.go returns on every state, and finds what is there on a state
-- that is ordered around the operation.
use conver_go.Base.{
  Bool, Bool-cases, Option-cases, arith, false, get_elem?, get_elem?-some, inl, inr, length,
  lt-length, ltb, ltb→lt, none, refl, ret, some, suc, text_Eq, true, zero, ℕ, ◌+◌, ◌-◌, ◌/◌, ◌<◌,
  ◌∙◌, ◌≡◌, ◌≢◌, ◌≤◌, ◌⊎◌,
}
use conver_go.Cvrdt.Operation.{CrdtOperation, Cmp, below, same, above, compare_operation}
use conver_go.Cvrdt.State.{CvrdtState, search_loop, binary_search}

-- What a search is worth: a position in the range, and where it is a hit, an operation that
-- compares as the same.
pub record Found (w : CvrdtState) (op : CrdtOperation) (right i : ℕ) (hit : Bool) : Type 0 where
  pub in_range : i ≤ right
  pub is_same :
      hit ≡ true → (o : CrdtOperation) × (get_elem? w i ≡ some o) × (compare_operation o op ≡ same)

pub Cmp-cases : (c : Cmp) → (c ≡ below) ⊎ ((c ≡ same) ⊎ (c ≡ above))
Cmp-cases below = inl refl
Cmp-cases same = inr (inl refl)
Cmp-cases above = inr (inr refl)

-- The middle of a range.
abbrev middle : ℕ → ℕ → ℕ
middle left right = left + (right - left) / 2

module _ (fuel : ℕ) (w : CvrdtState) (op : CrdtOperation) (left right : ℕ) where
  search_loop-done :
      ltb left right ≡ false → search_loop (suc fuel) w op left right ≡ ret (left, false)
  unfolding search_loop
  search_loop-done h = rw (h, search_loop) refl

  module _ (o : CrdtOperation) (more : ltb left right ≡ true)
      (at : get_elem? w (middle left right) ≡ some o) where
    search_loop-below :
        compare_operation o op ≡ below
        → search_loop (suc fuel) w op left right
          ≡ search_loop fuel w op (middle left right + 1) right
    unfolding search_loop
    search_loop-below c = rw (more, search_loop) (rw (at, search_loop) (rw (c, search_loop) refl))

    search_loop-same :
        compare_operation o op ≡ same
        → search_loop (suc fuel) w op left right ≡ ret (middle left right, true)
    unfolding search_loop
    search_loop-same c = rw (more, search_loop) (rw (at, search_loop) (rw (c, search_loop) refl))

    search_loop-above :
        compare_operation o op ≡ above
        → search_loop (suc fuel) w op left right ≡ search_loop fuel w op left (middle left right)
    unfolding search_loop
    search_loop-above c = rw (more, search_loop) (rw (at, search_loop) (rw (c, search_loop) refl))

search_loop_lem :
    (fuel : ℕ) (w : CvrdtState) (op : CrdtOperation) (left right : ℕ)
    → left ≤ right
    → right ≤ length w
    → right ≤ left + fuel
    → (i : ℕ) × (hit : Bool) × (search_loop fuel w op left right ≡ ret (i, hit))
      × Found w op right i hit
search_loop_lem zero w op left right le within enough =
    (left, false, unfold search_loop in (ground arith), record { in_range = le; is_same = λ h. cc })
search_loop_lem (suc fuel) w op left right le within enough = elim (Bool-cases (ltb left right)) [
  | inr done ↦ (
    left,
    false,
    search_loop-done fuel w op left right done,
    record { in_range = le; is_same = λ h. cc },
  )
  | inl more ↦
      let lt = ltb→lt left right more in
      let mid = middle left right in
      let (o, at) = get_elem?-some w mid (omega arith) in
      elim (Cmp-cases (compare_operation o op)) [
        | inl c ↦
            let (i, hit, e, f) =
              search_loop_lem fuel w op (mid + 1) right (omega arith) within (omega arith) in
            (i, hit, search_loop-below fuel w op left right o more at c ∙ e, f)
        | inr (inl c) ↦ (
          mid,
          true,
          search_loop-same fuel w op left right o more at c,
          record { in_range = omega arith; is_same = λ h. (o, at, c) },
        )
        | inr (inr c) ↦
            let (i, hit, e, f) =
              search_loop_lem fuel w op left mid (omega arith) (omega arith) (omega arith) in
            (
              i,
              hit,
              search_loop-above fuel w op left right o more at c ∙ e,
              record { in_range = omega (arith, f.in_range); is_same = f.is_same },
            )
      ]
]

-- On every state `binarySearch` returns within the length of the state, without reading out of
-- range; the position is at most the length, and a hit is at an operation that compares as the
-- same.
pub binary_search_lem :
    (w : CvrdtState) (op : CrdtOperation)
    → (i : ℕ) × (hit : Bool) × (binary_search w op ≡ ret (i, hit)) × Found w op (length w) i hit
unfolding binary_search
binary_search_lem w op =
    search_loop_lem (length w) w op 0 (length w) (omega arith) (omega arith) (omega arith)

-- The state is ordered around the operation at `k`: below before, and above after.
pub record IsSplit (w : CvrdtState) (op : CrdtOperation) (k : ℕ) : Type 0 where
  pub split_le : k ≤ length w
  pub before :
      (i : ℕ) (o : CrdtOperation) → get_elem? w i ≡ some o → i < k → compare_operation o op ≡ below
  pub here : (o : CrdtOperation) → get_elem? w k ≡ some o → compare_operation o op ≢ below
  pub after :
      (i : ℕ) (o : CrdtOperation) → get_elem? w i ≡ some o → k < i → compare_operation o op ≡ above

-- Does the operation at a position compare as the same?
abbrev pub same_at : CvrdtState → CrdtOperation → ℕ → Bool
same_at w op k = elim (get_elem? w k) [
  | none ↦ false
  | some o ↦ elim (compare_operation o op) [ same ↦ true | below ↦ false | above ↦ false ]
]

same_at-same :
    (w : CvrdtState) (op o : CrdtOperation) (k : ℕ)
    → get_elem? w k ≡ some o
    → compare_operation o op ≡ same
    → same_at w op k ≡ true
same_at-same w op o k at c = ground arith

same_at-above :
    (w : CvrdtState) (op o : CrdtOperation) (k : ℕ)
    → get_elem? w k ≡ some o
    → compare_operation o op ≡ above
    → same_at w op k ≡ false
same_at-above w op o k at c = ground arith

same_at-none :
    (w : CvrdtState) (op : CrdtOperation) (k : ℕ) → get_elem? w k ≡ none → same_at w op k ≡ false
same_at-none w op k at = ground arith

split_loop :
    (fuel : ℕ) (w : CvrdtState) (op : CrdtOperation) (k left right : ℕ)
    → IsSplit w op k
    → left ≤ k
    → k ≤ right
    → right ≤ length w
    → right ≤ left + fuel
    → (right ≡ k → same_at w op k ≡ false)
    → search_loop fuel w op left right ≡ ret (k, same_at w op k)
split_loop zero w op k left right s lk kr within enough last =
    let at_k : left ≡ k = omega arith in
    let at_end : right ≡ k = omega arith in
    rw (last at_end) (rw (at_k, at_end) (unfold search_loop in (ground arith)))
split_loop (suc fuel) w op k left right s lk kr within enough last =
    elim (Bool-cases (ltb left right)) [
      | inr done ↦
          let at_k : left ≡ k = ground arith in
          let at_end : right ≡ k = ground arith in
          search_loop-done fuel w op left right done ∙ rw (last at_end) (rw at_k refl)
      | inl more ↦
          let lt = ltb→lt left right more in
          let mid = middle left right in
          let (o, at) = get_elem?-some w mid (omega arith) in
          elim (Bool-cases (ltb mid k)) [
            | inl left_half ↦
                search_loop-below fuel w op left right o more at
                  (s.before mid o at (ltb→lt mid k left_half))
                ∙ split_loop fuel w op k (mid + 1) right s (ground arith) kr within (omega arith)
                    last
            | inr not_left ↦ elim (Bool-cases (ltb k mid)) [
              | inl right_half ↦
                  search_loop-above fuel w op left right o more at
                    (s.after mid o at (ltb→lt k mid right_half))
                  ∙ split_loop fuel w op k left mid s lk (ground arith) (omega arith) (omega arith)
                      (λ e. absurd (ground arith))
              | inr not_right ↦
                  let at_k : mid ≡ k = ground arith in
                  let stands : get_elem? w k ≡ some o = rw at_k at at in
                  elim (Cmp-cases (compare_operation o op)) [
                    | inl c ↦ absurd (s.here o stands c)
                    | inr (inl c) ↦
                        search_loop-same fuel w op left right o more at c
                        ∙ rw (at_k, same_at-same w op o k stands c) refl
                    | inr (inr c) ↦
                        search_loop-above fuel w op left right o more at c
                        ∙ split_loop fuel w op k left mid s lk (omega arith) (omega arith)
                            (omega arith) (λ e. same_at-above w op o k stands c)
                  ]
            ]
          ]
    ]

-- On a state that is ordered around an operation `binarySearch` returns the place of the
-- operation, and says whether the state has it there.
pub binary_search-IsSplit :
    (w : CvrdtState) (op : CrdtOperation) (k : ℕ)
    → IsSplit w op k
    → binary_search w op ≡ ret (k, same_at w op k)
unfolding binary_search
binary_search-IsSplit w op k s =
    split_loop (length w) w op k 0 (length w) s (omega arith) s.split_le (omega arith) (omega arith)
      (λ e. end_same w k (omega arith))
  where
    end_same : (v : CvrdtState) (j : ℕ) → length v ≤ j → same_at v op j ≡ false
    end_same v j le = elim (Option-cases (get_elem? v j)) [
      | inl gone ↦ same_at-none v op j gone
      | inr (o, e) ↦ absurd (omega (arith, lt-length v j e))
    ]
