-- ===== src/History/Dag/Concurrency.antt =====
-- `HasPath` and `IsConcurrent` of history/dag.go.
use conver_go.Base.{
  Bool-cases, Text, arith, false, inl, inr, lookup, ret, some, text_Eq, text_eq_iff, true, ◌≡◌, ◌≢◌,
  ◌⊎◌,
}
use conver_go.Cvrdt.Operation.{op_id, happened_before}
use conver_go.Cvrdt.Operation.Causality.{IsClock, happened_before_strict_order}
use conver_go.History.Dag.{DagNode, OperationDag, has_path, is_concurrent}

-- For two different nodes of a graph whose clocks are well formed, exactly one of three holds:
-- the first has a path to the second, the second to the first, or the two are concurrent. No
-- question panics.
pub is_concurrent_lem :
    (dag : OperationDag) (id₁ id₂ : Text) (n₁ n₂ : DagNode)
    → lookup id₁ dag.nodes ≡ some n₁
    → lookup id₂ dag.nodes ≡ some n₂
    → id₁ ≢ id₂
    → IsClock (op_id n₁.operation).clock
    → IsClock (op_id n₂.operation).clock
    → ((has_path dag id₁ id₂ ≡ ret true)
        × (has_path dag id₂ id₁ ≡ ret false)
        × (is_concurrent dag id₁ id₂ ≡ ret false))
      ⊎ (((has_path dag id₁ id₂ ≡ ret false)
            × (has_path dag id₂ id₁ ≡ ret true)
            × (is_concurrent dag id₁ id₂ ≡ ret false))
          ⊎ ((has_path dag id₁ id₂ ≡ ret false)
              × (has_path dag id₂ id₁ ≡ ret false)
              × (is_concurrent dag id₁ id₂ ≡ ret true)))
unfolding is_concurrent has_path
is_concurrent_lem dag id₁ id₂ n₁ n₂ h k ne p q =
    let a = op_id n₁.operation in
    let b = op_id n₂.operation in
    elim (Bool-cases (happened_before a b)) [
      | inl ab ↦
          let ba = (happened_before_strict_order a b a p q p).1 ab in
          inl (ground (arith, h, k, ab, ba, ne, text_eq_iff id₁ id₂))
      | inr nab ↦ elim (Bool-cases (happened_before b a)) [
        | inl ba ↦ inr (inl (ground (arith, h, k, nab, ba, ne, text_eq_iff id₁ id₂)))
        | inr nba ↦ inr (inr (ground (arith, h, k, nab, nba, ne, text_eq_iff id₁ id₂)))
      ]
    ]
