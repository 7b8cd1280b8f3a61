-- ===== src/Cvrdt/Sequence/Positions.antt =====
-- Positions in the sequence of cvrdt/string.go: what `GetPos` finds, and how an insertion moves
-- it.
use conver_go.Base.{
  Bool-cases, In, Option-cases, [], arith, eqb, eqb_iff, false, get_elem?, get_elem?-some,
  if◌then◌else◌, inl, inr, insert_at, leb, length, lt-length, none, ok, refl, some, suc, true, zero,
  ℕ, ◌+◌, ◌-◌, ◌<◌, ◌∷◌, ◌≡◌, ◌≤◌,
}
use conver_go.Cvrdt.Character.{WCharacterId, WCharacter, wcharacter_id_equals}
use conver_go.Cvrdt.Character.Order.{wcharacter_id_equals_symm, wcharacter_id_equals_trans}
use conver_go.Cvrdt.Sequence.{
  WString, get_pos, get_by_id, contains_char, slice_from, get_len, insert_char,
}

-- Every character is found where it stands.
abbrev pub IsUnique : WString → Type 0
IsUnique w = (i : ℕ) (c : WCharacter) → get_elem? w i ≡ some c → get_pos w c.id ≡ some i

pub get_pos-found :
    (w : WString) (id : WCharacterId) (p : ℕ)
    → get_pos w id ≡ some p
    → (p < length w)
      × ((c : WCharacter) × (get_elem? w p ≡ some c) × (wcharacter_id_equals c.id id ≡ true))
unfolding get_pos
get_pos-found [] id p h = cc
get_pos-found (c ∷ w) id p h = elim (Bool-cases (wcharacter_id_equals c.id id)) [
  | inl here ↦ found_here p (ground arith) here
  | inr away ↦ elim (Option-cases (get_pos w id)) [
    | inl gone ↦ absurd (ground arith)
    | inr (q, e) ↦
        let (lt, (d, at, eq)) = get_pos-found w id q e in found_later p q (ground arith) lt d at eq
  ]
]
  where
    found_here :
        (r : ℕ)
        → r ≡ 0
        → wcharacter_id_equals c.id id ≡ true
        → (r < suc (length w))
          × ((d : WCharacter) × (get_elem? (c ∷ w) r ≡ some d)
              × (wcharacter_id_equals d.id id ≡ true))
    found_here r e h = rw e (omega arith, (c, refl, h))

    found_later :
        (r q : ℕ)
        → r ≡ suc q
        → q < length w
        → (d : WCharacter) → get_elem? w q ≡ some d
        → wcharacter_id_equals d.id id ≡ true
        → (r < suc (length w))
          × ((d : WCharacter) × (get_elem? (c ∷ w) r ≡ some d)
              × (wcharacter_id_equals d.id id ≡ true))
    found_later r q e lt d at eq = rw e (omega arith, (d, at, eq))

-- `GetPos`, `GetById` and `Contains` search alike.
pub get_by_id-get_pos :
    (w : WString) (id : WCharacterId) (p : ℕ) (c : WCharacter)
    → get_pos w id ≡ some p
    → get_elem? w p ≡ some c
    → get_by_id w id ≡ some (record { position = p; char = c })
unfolding get_pos get_by_id
get_by_id-get_pos [] id p c h k = cc
get_by_id-get_pos (d ∷ w) id zero c h k = ground arith
get_by_id-get_pos (d ∷ w) id (suc p) c h k = ground (arith, get_by_id-get_pos w id p c)

pub contains_char-get_pos :
    (w : WString) (id : WCharacterId)
    → contains_char w id ≡ (elim (get_pos w id) [ none ↦ false | some p ↦ true ])
unfolding get_pos contains_char
contains_char-get_pos [] id = refl
contains_char-get_pos (d ∷ w) id = ground (arith, contains_char-get_pos w id)

-- The position of a character once one is inserted at `k`, and back.
abbrev pub shift : ℕ → ℕ → ℕ
shift k p = if leb k p then suc p else p

abbrev pub unshift : ℕ → ℕ → ℕ
unshift k j = if leb k j then j - 1 else j

pub get_elem?-insert_at :
    (k : ℕ) (x : WCharacter) (w : WString) (j : ℕ)
    → k ≤ length w
    → get_elem? (insert_at k x w) j ≡ (if eqb j k then some x else get_elem? w (unshift k j))
get_elem?-insert_at zero x w zero h = ground arith
get_elem?-insert_at zero x w (suc j) h = ground arith
get_elem?-insert_at (suc k) x [] j h = absurd (omega arith)
get_elem?-insert_at (suc k) x (c ∷ w) zero h = ground arith
get_elem?-insert_at (suc k) x (c ∷ w) (suc zero) h = ground (arith, get_elem?-insert_at k x w zero)
get_elem?-insert_at (suc k) x (c ∷ w) (suc (suc j)) h =
    ground (arith, get_elem?-insert_at k x w (suc j))

-- A character with another identifier is found at its moved position.
pub get_pos-insert_at_ne :
    (k : ℕ) (x : WCharacter) (w : WString) (id : WCharacterId)
    → k ≤ length w
    → wcharacter_id_equals x.id id ≡ false
    → get_pos (insert_at k x w) id
      ≡ (elim (get_pos w id) [ none ↦ none | some p ↦ some (shift k p) ])
unfolding get_pos
get_pos-insert_at_ne zero x w id h ne = ground arith
get_pos-insert_at_ne (suc k) x [] id h ne = absurd (omega arith)
get_pos-insert_at_ne (suc k) x (c ∷ w) id h ne = ground (arith, get_pos-insert_at_ne k x w id)

-- A fresh character is found where it is inserted.
pub get_pos-insert_at_self :
    (k : ℕ) (x : WCharacter) (w : WString) (id : WCharacterId)
    → k ≤ length w
    → wcharacter_id_equals x.id id ≡ true
    → get_pos w id ≡ none
    → get_pos (insert_at k x w) id ≡ some k
unfolding get_pos
get_pos-insert_at_self zero x w id h eq fresh = ground arith
get_pos-insert_at_self (suc k) x [] id h eq fresh = absurd (omega arith)
get_pos-insert_at_self (suc k) x (c ∷ w) id h eq fresh =
    ground (arith, get_pos-insert_at_self k x w id)

-- Equal identifiers are found at one position.
pub get_pos-equals :
    (w : WString) (i j : WCharacterId) → wcharacter_id_equals i j ≡ true → get_pos w i ≡ get_pos w j
unfolding get_pos
get_pos-equals [] i j h = refl
get_pos-equals (c ∷ w) i j h = ground (
  arith,
  get_pos-equals w i j,
  wcharacter_id_equals_trans c.id i j,
  wcharacter_id_equals_trans c.id j i,
  wcharacter_id_equals_symm i j,
)

-- What the loop of `SubSeq` collects.
pub slice_from-In :
    (w : WString) (j k i : ℕ) (d : WCharacter)
    → get_elem? w i ≡ some d
    → j ≤ i
    → i < j + k
    → In d (slice_from w j k)
unfolding slice_from
slice_from-In w j zero i d e h l = absurd (omega arith)
slice_from-In w j (suc k) i d e h l = elim (Bool-cases (eqb j i)) [
  | inl here ↦ rw ((eqb_iff j i).0 here) (rw (e, slice_from) (inl refl))
  | inr later ↦
      let (c, at) = get_elem?-some w j (omega (arith, lt-length w i e)) in
      rw (at, slice_from) (inr (slice_from-In w (suc j) k i d e (ground arith) (omega arith)))
]

pub insert_char-ok :
    (w : WString) (x : WCharacter) (p : ℕ)
    → p ≤ length w
    → insert_char w x (some p) ≡ ok (insert_at p x w)
unfolding insert_char get_len
insert_char-ok w x p h = ground arith
