-- ===== src/Cvrdt/Sequence/Visible.antt =====
-- `GetIthVisibleValue` and `GetVisibleContent` of cvrdt/string.go against the list of characters
-- that a reader sees.
use Prim.Native.Nat.{min}
use conver_go.Base.{
  Bool, Bool-cases, List, List-cases, Text, [], ap, arith, err, false, get_elem?, if◌then◌else◌,
  inl, inr, insert_at, length, map, not, ok, pos, refl, some, suc, true, zero, ℕ, ◌&&◌, ◌++◌, ◌+◌,
  ◌-◌, ◌<◌, ◌∷◌, ◌≡◌, ◌≤◌,
}
use conver_go.Cvrdt.Character.{WCharacter, is_special_wchar}
use conver_go.Cvrdt.Sequence.{
  WString, Ref, no_elements, visible_from, capped, get_ith_visible_value, get_visible_content,
}

-- Is the character one of those that a call with `excludeLimiters` counts?
abbrev pub counts : Bool → WCharacter → Bool
counts exclude c = c.visible && not (exclude && is_special_wchar (some c))

-- The characters that are counted, in order.
unfoldable pub shown : Bool → WString → List WCharacter
shown exclude [] = []
shown exclude (c ∷ w) = if counts exclude c then c ∷ shown exclude w else shown exclude w

-- The texts of characters, one behind the other.
pub contents : List WCharacter → Text
contents [] = []
contents (c ∷ cs) = c.alpha_value ++ contents cs

-- `GetVisibleContent` is the text of the visible characters that are no limiters.
pub get_visible_content_lem : (w : WString) → get_visible_content w ≡ contents (shown true w)
unfolding get_visible_content contents shown
get_visible_content_lem [] = refl
get_visible_content_lem (c ∷ w) = ground (arith, get_visible_content_lem w)

map-visible_from :
    (i : ℕ) (exclude : Bool) (w : WString)
    → map (λ (r : Ref). r.char) (visible_from i exclude w) ≡ shown exclude w
unfolding visible_from shown
map-visible_from i exclude [] = refl
map-visible_from i exclude (c ∷ w) = ground (arith, map-visible_from (suc i) exclude w)

pub length-visible_from :
    (i : ℕ) (exclude : Bool) (w : WString)
    → length (visible_from i exclude w) ≡ length (shown exclude w)
unfolding visible_from shown
length-visible_from i exclude [] = refl
length-visible_from i exclude (c ∷ w) = ground (arith, length-visible_from (suc i) exclude w)

-- A collected pointer is to the character at its position.
pub visible_from-stands :
    (s : ℕ) (exclude : Bool) (w : WString) (i : ℕ) (r : Ref)
    → get_elem? (visible_from s exclude w) i ≡ some r
    → (s ≤ r.position) × (get_elem? w (r.position - s) ≡ some r.char)
unfolding visible_from
visible_from-stands s exclude [] i r h = cc
visible_from-stands s exclude (c ∷ w) i r h = elim (Bool-cases (counts exclude c)) [
  | inl seen ↦ seen_case (λ j. visible_from-stands (suc s) exclude w j r) i (ground arith)
  | inr hidden ↦ later (visible_from-stands (suc s) exclude w i r (ground arith))
]
  where
    later :
        (suc s ≤ r.position) × (get_elem? w (r.position - suc s) ≡ some r.char)
        → (s ≤ r.position) × (get_elem? (c ∷ w) (r.position - s) ≡ some r.char)
    later (le, at) =
        let e : r.position - s ≡ suc (r.position - suc s) = omega arith in (omega arith, rw e at)

    seen_case :
        ((j : ℕ)
          → get_elem? (visible_from (suc s) exclude w) j ≡ some r
          → (suc s ≤ r.position) × (get_elem? w (r.position - suc s) ≡ some r.char))
        → (j : ℕ)
        → get_elem? (record { position = s; char = c } ∷ visible_from (suc s) exclude w) j ≡ some r
        → (s ≤ r.position) × (get_elem? (c ∷ w) (r.position - s) ≡ some r.char)
    seen_case ih zero e =
        let at_s : r.position ≡ s = ground arith in
        let none_left : r.position - s ≡ 0 = omega arith in
        (omega arith, rw none_left (ground arith))
    seen_case ih (suc j) e = later (ih j e)

pub visible_from-zero :
    (exclude : Bool) (w : WString) (i : ℕ) (r : Ref)
    → get_elem? (visible_from 0 exclude w) i ≡ some r
    → get_elem? w r.position ≡ some r.char
visible_from-zero exclude w i r h =
    let whole : r.position - 0 ≡ r.position = omega arith in
    rw whole at (visible_from-stands 0 exclude w i r h).1

-- Collected pointers ascend.
pub visible_from-lt :
    (s : ℕ) (exclude : Bool) (w : WString) (i : ℕ) (p n : Ref)
    → get_elem? (visible_from s exclude w) i ≡ some p
    → get_elem? (visible_from s exclude w) (suc i) ≡ some n
    → p.position < n.position
unfolding visible_from
visible_from-lt s exclude [] i p n hp hn = cc
visible_from-lt s exclude (c ∷ w) zero p n hp hn = elim (Bool-cases (counts exclude c)) [
  | inl seen ↦
      let rest : get_elem? (visible_from (suc s) exclude w) 0 ≡ some n = ground arith in
      let at_s : p.position ≡ s = ground arith in
      omega (arith, (visible_from-stands (suc s) exclude w 0 n rest).0)
  | inr hidden ↦ visible_from-lt (suc s) exclude w 0 p n (ground arith) (ground arith)
]
visible_from-lt s exclude (c ∷ w) (suc i) p n hp hn = elim (Bool-cases (counts exclude c)) [
  | inl seen ↦ visible_from-lt (suc s) exclude w i p n (ground arith) (ground arith)
  | inr hidden ↦ visible_from-lt (suc s) exclude w (suc i) p n (ground arith) (ground arith)
]

-- The occurrence that `GetIthVisibleValue` returns, capped at the last.
capped-get_elem? :
    (r : Ref) (rest : List Ref) (i : ℕ)
    → get_elem? (r ∷ rest) (min (length rest) i) ≡ some (capped r rest i)
unfolding capped
capped-get_elem? r [] i = get_first i
  where
    get_first : (i : ℕ) → get_elem? (r ∷ []) (min 0 i) ≡ some r
    get_first i = let e : min 0 i ≡ 0 = omega arith in rw e refl
capped-get_elem? r (n ∷ rest) zero =
    let e : min (suc (length rest)) 0 ≡ 0 = omega arith in rw e refl
capped-get_elem? r (n ∷ rest) (suc i) =
    let e : min (suc (length rest)) (suc i) ≡ suc (min (length rest) i) = omega arith in
    rw e (capped-get_elem? n rest i)

-- For a non-negative occurrence and at least one counted character, `GetIthVisibleValue` returns
-- the counted character with that number, or the last one.
pub get_ith_visible_value_lem :
    (w : WString) (i : ℕ) (exclude : Bool)
    → 0 < length (shown exclude w)
    → (r : Ref) × (get_ith_visible_value w (pos i) exclude ≡ ok r)
      × (get_elem? (visible_from 0 exclude w) (min (length (shown exclude w) - 1) i) ≡ some r)
unfolding get_ith_visible_value
get_ith_visible_value_lem w i exclude some_shown = elim (List-cases (visible_from 0 exclude w)) [
  | inl empty ↦ absurd (omega (arith, ap length empty, length-visible_from 0 exclude w))
  | inr (r, rest, e) ↦
      let size : length (shown exclude w) - 1 ≡ length rest =
        omega (arith, ap length e, length-visible_from 0 exclude w) in
      (
        capped r rest i,
        rw (e, get_ith_visible_value) refl,
        rw (e, size) (capped-get_elem? r rest i),
      )
]

-- With nothing to count it is an error.
pub get_ith_visible_value-nil :
    (w : WString) (i : ℕ) (exclude : Bool)
    → shown exclude w ≡ []
    → get_ith_visible_value w (pos i) exclude ≡ err no_elements
unfolding get_ith_visible_value
get_ith_visible_value-nil w i exclude h = elim (List-cases (visible_from 0 exclude w)) [
  | inl empty ↦ rw (empty, get_ith_visible_value) refl
  | inr (r, rest, e) ↦
      absurd (omega (arith, ap length e, ap length h, length-visible_from 0 exclude w))
]

-- Before the first counted character an insertion comes first.
first_shown :
    (w : WString) (s k : ℕ) (x : WCharacter) (n : Ref)
    → x.visible ≡ true
    → get_elem? (visible_from s false w) 0 ≡ some n
    → k + s ≤ n.position
    → shown false (insert_at k x w) ≡ x ∷ shown false w
unfolding visible_from shown
first_shown [] s k x n v h le = cc
first_shown (c ∷ w) s zero x n v h le = ground arith
first_shown (c ∷ w) s (suc k) x n v h le = ground (arith, first_shown w (suc s) k x n v)

-- An insertion between two neighbouring counted characters comes between them.
pub shown-insert_at :
    (w : WString) (s i k : ℕ) (x : WCharacter) (p n : Ref)
    → x.visible ≡ true
    → get_elem? (visible_from s false w) i ≡ some p
    → get_elem? (visible_from s false w) (suc i) ≡ some n
    → p.position < k + s
    → k + s ≤ n.position
    → shown false (insert_at k x w) ≡ insert_at (suc i) x (shown false w)
unfolding shown visible_from
shown-insert_at [] s i k x p n v hp hn lt le = cc
shown-insert_at (c ∷ w) s i zero x p n v hp hn lt le =
    absurd (omega (arith, (visible_from-stands s false (c ∷ w) i p hp).0))
shown-insert_at (c ∷ w) s zero (suc k) x p n v hp hn lt le =
    ground (arith, first_shown w (suc s) k x n, shown-insert_at w (suc s) zero k x p n)
shown-insert_at (c ∷ w) s (suc i) (suc k) x p n v hp hn lt le = elim (Bool-cases (counts false c)) [
  | inl seen ↦
      rw (seen, shown)
        (ap (◌∷◌ c) (
          shown-insert_at w (suc s) i k x p n v (ground arith) (ground arith) (omega arith)
            (omega arith)))
  | inr hidden ↦
      rw (hidden, shown)
        (shown-insert_at w (suc s) (suc i) k x p n v (ground arith) (ground arith) (omega arith)
          (omega arith))
]
