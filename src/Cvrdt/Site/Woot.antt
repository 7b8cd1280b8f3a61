-- ===== src/Cvrdt/Site/Woot.antt =====
-- The invariant of the character sequence of cvrdt/site.go: it holds of a new site, and
-- insertions between two neighbours and deletions keep it.
use conver_go.Base.{
  Bool-cases, Option-cases, Text, [], ap, arith, eqb, eqb_iff, false, get_elem?, if◌then◌else◌, inl,
  inr, insert_at, leb, length, length-insert_at, none, refl, ret, some, suc, text_Eq, true, zero, ℕ,
  ◌-◌, ◌<◌, ◌∙◌, ◌∷◌, ◌≡◌, ◌≤◌, ◌⊎◌,
}
use conver_go.Cvrdt.Character.{
  WCharacterId, WCharacter, wcharacter_id_equals, equals, get_new_special_start_wchar,
  get_new_special_end_wchar,
}
use conver_go.Cvrdt.Character.Order.{wcharacter_id_equals_refl}
use conver_go.Cvrdt.Sequence.{WString, new_wstring, get_pos}
use conver_go.Cvrdt.Sequence.Positions.{
  IsUnique, get_pos-found, get_elem?-insert_at, get_pos-insert_at_ne, get_pos-insert_at_self,
  get_pos-equals, shift, unshift,
}
use conver_go.Cvrdt.Site.{hide, hide_at, integrate_ins}
use conver_go.Cvrdt.Site.Integrate.{Cover, IsWoot, integrate_ins_returns}

-- A new character stands in no relation but its own two neighbours.
pub record IsFresh (w : WString) (x : WCharacter) (k : ℕ) : Type 0 where
  pub fresh : get_pos w x.id ≡ none
  pub previous : ℕ
  pub next : ℕ
  pub previous_at : get_pos w x.previous_id ≡ some previous
  pub next_at : get_pos w x.next_id ≡ some next
  pub previous_lt : previous < k
  pub next_ge : k ≤ next

fresh_ne :
    (w : WString) (x : WCharacter) (id : WCharacterId) (p : ℕ)
    → get_pos w x.id ≡ none
    → get_pos w id ≡ some p
    → wcharacter_id_equals x.id id ≡ false
fresh_ne w x id p fresh at = ground (arith, get_pos-equals w x.id id)

module _ (w : WString) (x : WCharacter) (k : ℕ) (f : IsFresh w x k) where
  k-le-length : k ≤ length w
  k-le-length = omega (arith, (get_pos-found w x.next_id f.next f.next_at).0, f.next_ge)

  k-lt-length : k < length w
  k-lt-length = omega (arith, (get_pos-found w x.next_id f.next f.next_at).0, f.next_ge)

  get_pos-moved :
      (id : WCharacterId) (p : ℕ)
      → get_pos w id ≡ some p
      → get_pos (insert_at k x w) id ≡ some (shift k p)
  get_pos-moved id p at =
      ground (arith, get_pos-insert_at_ne k x w id k-le-length (fresh_ne w x id p f.fresh at))

  get_elem?-moved :
      (p : ℕ) (c : WCharacter)
      → get_elem? w p ≡ some c
      → get_elem? (insert_at k x w) (shift k p) ≡ some c
  get_elem?-moved p c at =
      get_elem?-insert_at k x w (shift k p) k-le-length ∙ moved (Bool-cases (leb k p))
    where
      moved :
          (leb k p ≡ true) ⊎ (leb k p ≡ false)
          → (if eqb (shift k p) k then some x else get_elem? w (unshift k (shift k p))) ≡ some c
      moved (inl h) =
          let back : unshift k (shift k p) ≡ p = ground arith in
          let away : eqb (shift k p) k ≡ false = ground arith in rw (away, back) at
      moved (inr h) =
          let back : unshift k (shift k p) ≡ p = ground arith in
          let away : eqb (shift k p) k ≡ false = ground arith in rw (away, back) at

  IsUnique-insert_at : IsUnique w → IsUnique (insert_at k x w)
  IsUnique-insert_at u j c at = elim (Bool-cases (eqb j k)) [
    | inl here ↦
        let is_x : some x ≡ some c = ground (arith, get_elem?-insert_at k x w j k-le-length) in
        let at_k : j ≡ k = (eqb_iff j k).0 here in
        let eq : x ≡ c = cc in
        rw (at_k, ← eq)
          (get_pos-insert_at_self k x w x.id k-le-length (wcharacter_id_equals_refl x.id) f.fresh)
    | inr away ↦
        let old : get_elem? w (unshift k j) ≡ some c =
          ground (arith, get_elem?-insert_at k x w j k-le-length) in
        let back : shift k (unshift k j) ≡ j = ground arith in
        get_pos-moved c.id (unshift k j) (u (unshift k j) c old) ∙ ap some back
  ]

  Cover-moved :
      (a b a' b' : ℕ) (c : Cover w a b)
      → a' < shift k c.at
      → shift k c.at < b'
      → shift k c.previous ≤ a'
      → b' ≤ shift k c.next
      → Cover (insert_at k x w) a' b'
  Cover-moved a b a' b' c h1 h2 h3 h4 = record {
    at = shift k c.at;
    char = c.char;
    previous = shift k c.previous;
    next = shift k c.next;
    stands = get_elem?-moved c.at c.char c.stands;
    after = h1;
    before = h2;
    previous_at = get_pos-moved c.char.previous_id c.previous c.previous_at;
    next_at = get_pos-moved c.char.next_id c.next c.next_at;
    previous_le = h3;
    next_ge = h4;
  }

  Cover-new : (a b : ℕ) → k ≡ suc a → b ≡ suc k → Cover (insert_at k x w) a b
  Cover-new a b e e' = record {
    at = k;
    char = x;
    previous = shift k f.previous;
    next = shift k f.next;
    stands = ground (arith, get_elem?-insert_at k x w k k-le-length);
    after = omega arith;
    before = omega arith;
    previous_at = get_pos-moved x.previous_id f.previous f.previous_at;
    next_at = get_pos-moved x.next_id f.next f.next_at;
    previous_le = ground (arith, f.previous_lt);
    next_ge = ground (arith, f.next_ge);
  }

  covered_insert :
      IsWoot w → (a b : ℕ) → suc a < b → b < suc (length w) → Cover (insert_at k x w) a b
  covered_insert i a b wide within = elim (Bool-cases (leb k a)) [
    | inl left ↦
        let c = i.covered (a - 1) (b - 1) (ground (arith, f.previous_lt)) (omega arith) in
        Cover-moved (a - 1) (b - 1) a b c (ground (arith, c.after, f.previous_lt))
          (ground (arith, c.before)) (ground (arith, c.previous_le, f.previous_lt))
          (ground (arith, c.next_ge))
    | inr not_left ↦ elim (Bool-cases (leb b k)) [
      | inl right ↦
          let c = i.covered a b wide (ground (arith, k-lt-length)) in
          Cover-moved a b a b c (ground (arith, c.after)) (ground (arith, c.before))
            (ground (arith, c.previous_le)) (ground (arith, c.next_ge))
      | inr inside ↦ elim (Bool-cases (eqb b (suc (suc a)))) [
        | inl alone ↦ Cover-new a b (ground arith) (ground arith)
        | inr others ↦
            let c = i.covered a (b - 1) (ground arith) (omega arith) in
            Cover-moved a (b - 1) a b c (ground (arith, c.after)) (ground (arith, c.before))
              (ground (arith, c.previous_le)) (ground (arith, c.next_ge))
      ]
    ]
  ]

  -- A character that is inserted behind its previous and not behind its next neighbour keeps the
  -- invariant.
  pub IsWoot-insert_at : IsWoot w → IsWoot (insert_at k x w)
  IsWoot-insert_at i = record {
    unique = IsUnique-insert_at i.unique;
    covered = λ a b wide within. covered_insert i a b wide (rw (length-insert_at k x w) at within);
  }

IsUnique-new_wstring : (site : Text) → IsUnique (new_wstring site)
unfolding new_wstring get_pos get_new_special_start_wchar get_new_special_end_wchar
    wcharacter_id_equals equals
IsUnique-new_wstring site zero c h = ground arith
IsUnique-new_wstring site (suc zero) c h = ground arith
IsUnique-new_wstring site (suc (suc i)) c h = cc

-- The sequence of a new site has the invariant.
pub IsWoot-new_wstring : (site : Text) → IsWoot (new_wstring site)
unfolding new_wstring
IsWoot-new_wstring site = record {
  unique = IsUnique-new_wstring site;
  covered = λ a b wide within. absurd (omega arith);
}

get_pos-hide_at :
    (i : ℕ) (w : WString) (id : WCharacterId) → get_pos (hide_at i w) id ≡ get_pos w id
unfolding get_pos hide_at hide
get_pos-hide_at i [] id = refl
get_pos-hide_at zero (c ∷ w) id = refl
get_pos-hide_at (suc i) (c ∷ w) id = ground (arith, get_pos-hide_at i w id)

length-hide_at : (i : ℕ) (w : WString) → length (hide_at i w) ≡ length w
unfolding hide_at
length-hide_at i [] = refl
length-hide_at zero (c ∷ w) = refl
length-hide_at (suc i) (c ∷ w) = ap suc (length-hide_at i w)

get_elem?-hide_at :
    (i : ℕ) (w : WString) (j : ℕ)
    → get_elem? (hide_at i w) j
      ≡ (elim (get_elem? w j) [ none ↦ none | some c ↦ some (if eqb i j then hide c else c) ])
unfolding hide_at
get_elem?-hide_at i [] j = refl
get_elem?-hide_at zero (c ∷ w) zero = ground arith
get_elem?-hide_at zero (c ∷ w) (suc j) = ground arith
get_elem?-hide_at (suc i) (c ∷ w) zero = ground arith
get_elem?-hide_at (suc i) (c ∷ w) (suc j) = ground (arith, get_elem?-hide_at i w j)

Cover-hide_at : (i : ℕ) (w : WString) (a b : ℕ) → Cover w a b → Cover (hide_at i w) a b
unfolding hide
Cover-hide_at i w a b c = record {
  at = c.at;
  char = if eqb i c.at then hide c.char else c.char;
  previous = c.previous;
  next = c.next;
  stands = ground (arith, get_elem?-hide_at i w c.at, c.stands);
  after = c.after;
  before = c.before;
  previous_at = ground (arith, get_pos-hide_at i w c.char.previous_id, c.previous_at);
  next_at = ground (arith, get_pos-hide_at i w c.char.next_id, c.next_at);
  previous_le = c.previous_le;
  next_ge = c.next_ge;
}

-- A deletion keeps the invariant.
pub IsWoot-hide_at : (i : ℕ) (w : WString) → IsWoot w → IsWoot (hide_at i w)
unfolding hide
IsWoot-hide_at i w h = record {
  unique = λ j c at. elim (Option-cases (get_elem? w j)) [
    | inl gone ↦ absurd (ground (arith, get_elem?-hide_at i w j))
    | inr (d, e) ↦ ground (arith, get_elem?-hide_at i w j, h.unique j d e, get_pos-hide_at i w c.id)
  ];
  covered = λ a b wide within.
      Cover-hide_at i w a b (h.covered a b wide (rw (length-hide_at i w) at within));
}

-- `IntegrateIns` of a fresh character between its two neighbours returns a sequence that has the
-- invariant again, in which the character stands between them and all others keep their order.
-- Fuel for the length of the sequence is enough.
pub integrate_ins-IsWoot :
    (fuel : ℕ) (w : WString) (x p n : WCharacter) (a b : ℕ)
    → IsWoot w
    → length w ≤ fuel
    → get_pos w x.id ≡ none
    → get_pos w p.id ≡ some a
    → get_pos w n.id ≡ some b
    → get_pos w x.previous_id ≡ some a
    → get_pos w x.next_id ≡ some b
    → a < b
    → (k : ℕ) × (integrate_ins fuel w x p n ≡ ret (insert_at k x w))
      × (a < k)
      × (k ≤ b)
      × IsWoot (insert_at k x w)
integrate_ins-IsWoot fuel w x p n a b i enough fresh hp hn e e' lt =
    let (k, result, above, below) =
      integrate_ins_returns fuel w x p n a b i hp hn lt
        (omega (arith, (get_pos-found w n.id b hn).0)) in
    (
      k,
      result,
      above,
      below,
      IsWoot-insert_at w x k
          (record {
            fresh = fresh;
            previous = a;
            next = b;
            previous_at = e;
            next_at = e';
            previous_lt = above;
            next_ge = below;
          })
          i,
    )
