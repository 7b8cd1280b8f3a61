-- ===== src/Base/Maps.antt =====
-- Go's maps as association lists. The order of the list stands for the order in which `range`
-- meets the entries, which Go leaves open.
use mathlib.Core.Bool.{Bool, true, false, not, ◌&&◌, ◌||◌}
use mathlib.Core.List.{List, [], ◌∷◌, map}
use mathlib.Core.Option.{Option, none, some}
use mathlib.Core.Logic.{◌⊎◌, inl, inr}
use mathlib.Core.Path.{◌≡◌, refl, sym, ◌∙◌}
use native.Mathlib.Omega.{arith}
use conver_go.Base.Tests.{if◌then◌else◌, Eq, ◌==◌, Bool-cases, if-true, if-false}

abbrev pub Map {ℓ κ} : Type ℓ → Type κ → Type (ℓ ⊔ κ)
Map K V = List (K × V)

module _ {ℓ κ} {K : Type ℓ} {V : Type κ} ⦃e : Eq K⦄ where
  unfoldable pub lookup : K → Map K V → Option V
  lookup k [] = none
  lookup k ((key, v) ∷ entries) = if key == k then some v else lookup k entries

  -- `m[k] = v`
  unfoldable pub insert : K → V → Map K V → Map K V
  insert k v [] = (k, v) ∷ []
  insert k v ((key, old) ∷ entries) =
      if key == k then (key, v) ∷ entries else (key, old) ∷ insert k v entries

  -- `delete(m, k)`
  unfoldable pub remove : K → Map K V → Map K V
  remove k [] = []
  remove k ((key, old) ∷ entries) =
      if key == k then remove k entries else (key, old) ∷ remove k entries

  -- `_, ok := m[k]`
  unfoldable pub has : K → Map K V → Bool
  has k entries = elim (lookup k entries) [ none ↦ false | some _ ↦ true ]

  pub lookup-insert :
      (k key : K) (v : V) (entries : Map K V)
      → lookup key (insert k v entries) ≡ (if k == key then some v else lookup key entries)
  unfolding lookup insert
  lookup-insert k key v [] = refl
  lookup-insert k key v ((i, old) ∷ entries) =
      ground (
        arith,
        e.equal_iff k key,
        e.equal_iff i k,
        e.equal_iff i key,
        lookup-insert k key v entries,
      )

  pub lookup-remove :
      (k key : K) (entries : Map K V)
      → lookup key (remove k entries) ≡ (if k == key then none else lookup key entries)
  unfolding lookup remove
  lookup-remove k key [] = ground arith
  lookup-remove k key ((i, old) ∷ entries) =
      ground
        (arith, e.equal_iff k key, e.equal_iff i k, e.equal_iff i key, lookup-remove k key entries)

  pub lookup-remove-some :
      (k key : K) (entries : Map K V) (v : V)
      → lookup key (remove k entries) ≡ some v
      → lookup key entries ≡ some v
  lookup-remove-some k key entries v found = elim (Bool-cases (k == key)) [
    | inl e ↦ absurd (
        let w : none ≡ some v =
          sym (lookup-remove k key entries ∙ if-true none (lookup key entries) e) ∙ found in
        cc)
    | inr e ↦ sym (lookup-remove k key entries ∙ if-false none (lookup key entries) e) ∙ found
  ]

  pub lookup-insert-some :
      (k key : K) (v w : V) (entries : Map K V)
      → lookup key (insert k v entries) ≡ some w
      → ((k ≡ key) × (some v ≡ some w)) ⊎ (lookup key entries ≡ some w)
  lookup-insert-some k key v w entries found = elim (Bool-cases (k == key)) [
    | inl h ↦ inl (
      (e.equal_iff k key).0 h,
      sym (lookup-insert k key v entries ∙ if-true (some v) (lookup key entries) h) ∙ found,
    )
    | inr h ↦
        inr (sym (lookup-insert k key v entries ∙ if-false (some v) (lookup key entries) h) ∙ found)
  ]

  pub has-insert :
      (k key : K) (v : V) (entries : Map K V)
      → has key (insert k v entries) ≡ ((k == key) || has key entries)
  unfolding has
  has-insert k key v entries = elim (Bool-cases (k == key)) [
    | inl h ↦ ground (arith, lookup-insert k key v entries, h)
    | inr h ↦ ground (arith, lookup-insert k key v entries, h)
  ]

  pub has-remove :
      (k key : K) (entries : Map K V)
      → has key (remove k entries) ≡ (not (k == key) && has key entries)
  unfolding has
  has-remove k key entries = elim (Bool-cases (k == key)) [
    | inl h ↦ ground (arith, lookup-remove k key entries, h)
    | inr h ↦ ground (arith, lookup-remove k key entries, h)
  ]

abbrev pub keys {ℓ κ} : {K : Type ℓ} {V : Type κ} → Map K V → List K
keys m = map (λ p. p.0) m

abbrev pub values {ℓ κ} : {K : Type ℓ} {V : Type κ} → Map K V → List V
values m = map (λ p. p.1) m
