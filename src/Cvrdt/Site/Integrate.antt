-- ===== src/Cvrdt/Site/Integrate.antt =====
-- `IntegrateIns` of cvrdt/site.go comes to an end on a sequence whose characters were inserted
-- between characters that stand before and after them.
use conver_go.Base.{
  Bool-cases, In, List, List-cases, [], ap, arith, get_elem?, get_elem?-some, inl, inr, insert_at,
  length, ltb, ltb→lt, refl, ret, some, suc, true, zero, ℕ, ◌+◌, ◌-◌, ◌<◌, ◌∙◌, ◌∷◌, ◌≡◌, ◌≢◌, ◌≤◌,
}
use conver_go.Cvrdt.Character.{WCharacter, wcharacter_less}
use conver_go.Cvrdt.Sequence.{WString, get_pos, slice_from, sub_seq, sub_seq_between}
use conver_go.Cvrdt.Sequence.Positions.{IsUnique, get_pos-found, slice_from-In, insert_char-ok}
use conver_go.Cvrdt.Site.{
  pos_le, is_found, encloses, candidates, narrow, insert_before, integrate_ins,
}

-- Between two positions a character stands whose own neighbours at insertion enclose them.
pub record Cover (w : WString) (a b : ℕ) : Type 0 where
  pub at : ℕ
  pub char : WCharacter
  pub previous : ℕ
  pub next : ℕ
  pub stands : get_elem? w at ≡ some char
  pub after : a < at
  pub before : at < b
  pub previous_at : get_pos w char.previous_id ≡ some previous
  pub next_at : get_pos w char.next_id ≡ some next
  pub previous_le : previous ≤ a
  pub next_ge : b ≤ next

-- The sequences that WOOT works on: each character is found where it stands, and every range with
-- characters inside holds one that was inserted into an enclosing range.
pub record IsWoot (w : WString) : Type 0 where
  pub unique : IsUnique w
  pub covered : (a b : ℕ) → suc a < b → b < length w → Cover w a b

-- The characters stand at ascending positions between `a` and `b`.
abbrev Ascends : WString → ℕ → List WCharacter → ℕ → Type 0
Ascends w a [] b = a < b
Ascends w a (d ∷ ds) b = (i : ℕ) × (get_pos w d.id ≡ some i) × (a < i) × Ascends w i ds b

Ascends-lt : (w : WString) (a : ℕ) (ds : List WCharacter) (b : ℕ) → Ascends w a ds b → a < b
Ascends-lt w a [] b h = h
Ascends-lt w a (d ∷ ds) b (i, at, lt, h) = omega (arith, Ascends-lt w i ds b h)

Ascends-weaken :
    (w : WString) (a i : ℕ) (ds : List WCharacter) (b : ℕ)
    → a < i
    → Ascends w i ds b
    → Ascends w a ds b
Ascends-weaken w a i [] b lt h = omega arith
Ascends-weaken w a i (d ∷ ds) b lt (j, at, lt', h) = (j, at, omega arith, h)

slice_from-Ascends :
    (w : WString) (a j k b : ℕ)
    → IsUnique w
    → j + k ≡ b
    → b ≤ length w
    → a < j
    → Ascends w a (slice_from w j k) b
unfolding slice_from
slice_from-Ascends w a j zero b u e le lt = omega arith
slice_from-Ascends w a j (suc k) b u e le lt =
    let (c, at) = get_elem?-some w j (omega arith) in
    rw (at, slice_from)
      (j, u j c at, lt, slice_from-Ascends w j (suc j) k b u (omega arith) le (omega arith))

candidates-Ascends :
    (w : WString) (p n : WCharacter) (a : ℕ) (ds : List WCharacter) (b : ℕ)
    → Ascends w a ds b
    → Ascends w a (candidates w p n ds) b
unfolding candidates
candidates-Ascends w p n a [] b h = h
candidates-Ascends w p n a (d ∷ ds) b (i, at, lt, h) = elim (Bool-cases (encloses w p n d)) [
  | inl yes_d ↦ rw yes_d (i, at, lt, candidates-Ascends w p n i ds b h)
  | inr no_d ↦ rw no_d (candidates-Ascends w p n a ds b (Ascends-weaken w a i ds b lt h))
]

candidates-In :
    (w : WString) (p n d : WCharacter) (ds : List WCharacter)
    → In d ds
    → encloses w p n d ≡ true
    → candidates w p n ds ≢ []
unfolding candidates
candidates-In w p n d [] m e = absurd m
candidates-In w p n d (c ∷ ds) (inl eq) e = ground arith
candidates-In w p n d (c ∷ ds) (inr m) e = ground (arith, candidates-In w p n d ds m e)

-- The range that the loop over `L` leaves.
record Narrowed (w : WString) (a b : ℕ) (ends : WCharacter × WCharacter) : Type 0 where
  low : ℕ
  high : ℕ
  low_at : get_pos w ends.0.id ≡ some low
  high_at : get_pos w ends.1.id ≡ some high
  low_ge : a ≤ low
  ordered : low < high
  high_le : high ≤ b

narrow-Narrowed :
    (w : WString) (x p n : WCharacter) (a : ℕ) (ds : List WCharacter) (b : ℕ)
    → get_pos w p.id ≡ some a
    → get_pos w n.id ≡ some b
    → Ascends w a ds b
    → Narrowed w a b (narrow x p ds n)
unfolding narrow
narrow-Narrowed w x p n a [] b hp hn h = record {
  low = a;
  high = b;
  low_at = hp;
  high_at = hn;
  low_ge = omega arith;
  ordered = h;
  high_le = omega arith;
}
narrow-Narrowed w x p n a (d ∷ ds) b hp hn (i, at, lt, h) =
    elim (Bool-cases (wcharacter_less d x)) [
      | inl more ↦
          let r = narrow-Narrowed w x d n i ds b at hn h in
          rw more (record {
            low = r.low;
            high = r.high;
            low_at = r.low_at;
            high_at = r.high_at;
            low_ge = omega arith;
            ordered = r.ordered;
            high_le = r.high_le;
          })
      | inr stop ↦ rw stop (record {
        low = a;
        high = i;
        low_at = hp;
        high_at = at;
        low_ge = omega arith;
        ordered = lt;
        high_le = omega (arith, Ascends-lt w i ds b h);
      })
    ]

-- With a character in between the range gets smaller.
narrow-smaller :
    (w : WString) (x p n : WCharacter) (a : ℕ) (ds : List WCharacter) (b : ℕ)
    → get_pos w p.id ≡ some a
    → get_pos w n.id ≡ some b
    → Ascends w a ds b
    → ds ≢ []
    → (r : Narrowed w a b (narrow x p ds n)) × (r.high + a < b + r.low)
unfolding narrow
narrow-smaller w x p n a [] b hp hn h ne = absurd (ne refl)
narrow-smaller w x p n a (d ∷ ds) b hp hn (i, at, lt, h) ne =
    elim (Bool-cases (wcharacter_less d x)) [
      | inl more ↦
          let r = narrow-Narrowed w x d n i ds b at hn h in
          rw more (
            record {
              low = r.low;
              high = r.high;
              low_at = r.low_at;
              high_at = r.high_at;
              low_ge = omega arith;
              ordered = r.ordered;
              high_le = r.high_le;
            },
            omega arith,
          )
      | inr stop ↦
          let below = Ascends-lt w i ds b h in
          rw stop (
            record {
              low = a;
              high = i;
              low_at = hp;
              high_at = at;
              low_ge = omega arith;
              ordered = lt;
              high_le = omega arith;
            },
            omega arith,
          )
    ]

Cover-encloses :
    (w : WString) (p n : WCharacter) (a b : ℕ) (c : Cover w a b)
    → get_pos w p.id ≡ some a
    → get_pos w n.id ≡ some b
    → encloses w p n c.char ≡ true
unfolding encloses is_found pos_le
Cover-encloses w p n a b c hp hn = ground arith

pub sub_seq-eq :
    (w : WString) (p n : WCharacter) (a b : ℕ)
    → get_pos w p.id ≡ some a
    → get_pos w n.id ≡ some b
    → a < b
    → sub_seq w p n ≡ slice_from w (suc a) (b - suc a)
unfolding sub_seq sub_seq_between
sub_seq-eq w p n a b hp hn lt = ground arith

pub integrate_ins-empty :
    (fuel : ℕ) (w : WString) (x p n : WCharacter)
    → sub_seq w p n ≡ []
    → integrate_ins (suc fuel) w x p n ≡ ret (insert_before w x n)
unfolding integrate_ins
integrate_ins-empty fuel w x p n e = rw (e, integrate_ins)

-- The neighbours for the next call.
abbrev pub narrowed : WString → WCharacter → WCharacter → WCharacter → WCharacter × WCharacter
narrowed w x p n = narrow x p (candidates w p n (sub_seq w p n)) n

pub integrate_ins-cons :
    (fuel : ℕ) (w : WString) (x p n d : WCharacter) (ds : List WCharacter)
    → sub_seq w p n ≡ d ∷ ds
    → integrate_ins (suc fuel) w x p n
      ≡ integrate_ins fuel w x (narrowed w x p n).0 (narrowed w x p n).1
unfolding integrate_ins
integrate_ins-cons fuel w x p n d ds e = rw (e, integrate_ins)

pub insert_before-insert_at :
    (w : WString) (x n : WCharacter) (b : ℕ)
    → get_pos w n.id ≡ some b
    → insert_before w x n ≡ insert_at b x w
unfolding insert_before
insert_before-insert_at w x n b hn = ground (arith, insert_char-ok w x b, get_pos-found w n.id b hn)

sub_seq-wide :
    (w : WString) (p n d : WCharacter) (ds : List WCharacter) (a b : ℕ)
    → get_pos w p.id ≡ some a
    → get_pos w n.id ≡ some b
    → a < b
    → sub_seq w p n ≡ d ∷ ds
    → suc a < b
unfolding slice_from
sub_seq-wide w p n d ds a b hp hn lt e = elim (Bool-cases (ltb (suc a) b)) [
  | inl wide ↦ ltb→lt _ _ wide
  | inr tight ↦
      let no_rounds : b - suc a ≡ 0 = ground arith in
      cc (e, sub_seq-eq w p n a b hp hn lt, ap (slice_from w (suc a)) no_rounds)
]

candidates-ne-nil :
    (w : WString) (p n : WCharacter) (a b : ℕ)
    → IsWoot w
    → get_pos w p.id ≡ some a
    → get_pos w n.id ≡ some b
    → suc a < b
    → candidates w p n (sub_seq w p n) ≢ []
candidates-ne-nil w p n a b i hp hn lt =
    let c = i.covered a b lt (get_pos-found w n.id b hn).0 in
    candidates-In w p n c.char (sub_seq w p n)
      (rw (sub_seq-eq w p n a b hp hn (omega arith)) (
        slice_from-In w (suc a) (b - suc a) c.at c.char c.stands (omega (arith, c.after))
          (omega (arith, c.before))))
      (Cover-encloses w p n a b c hp hn)

-- In a sequence with the invariant, `IntegrateIns` between two neighbours that stand in order
-- returns, with fuel for their distance, and puts the character into the sequence once, behind
-- the one neighbour and not behind the other.
pub integrate_ins_returns :
    (fuel : ℕ) (w : WString) (x p n : WCharacter) (a b : ℕ)
    → IsWoot w
    → get_pos w p.id ≡ some a
    → get_pos w n.id ≡ some b
    → a < b
    → b ≤ a + fuel
    → (k : ℕ) × (integrate_ins fuel w x p n ≡ ret (insert_at k x w)) × (a < k) × (k ≤ b)
integrate_ins_returns zero w x p n a b i hp hn lt le = absurd (omega arith)
integrate_ins_returns (suc fuel) w x p n a b i hp hn lt le = elim (List-cases (sub_seq w p n)) [
  | inl empty ↦ (
    b,
    integrate_ins-empty fuel w x p n empty ∙ ap ret (insert_before-insert_at w x n b hn),
    lt,
    omega arith,
  )
  | inr (d, ds, e) ↦
      let wide = sub_seq-wide w p n d ds a b hp hn lt e in
      let ends_below = (get_pos-found w n.id b hn).0 in
      let ascending : Ascends w a (sub_seq w p n) b = rw (sub_seq-eq w p n a b hp hn lt) (
        slice_from-Ascends w a (suc a) (b - suc a) b i.unique (omega arith) (omega arith)
          (omega arith)) in
      let (r, smaller) =
        narrow-smaller w x p n a (candidates w p n (sub_seq w p n)) b hp hn
          (candidates-Ascends w p n a (sub_seq w p n) b ascending)
          (candidates-ne-nil w p n a b i hp hn wide) in
      let (k, result, above_low, below_high) =
        integrate_ins_returns fuel w x (narrowed w x p n).0 (narrowed w x p n).1 r.low r.high i
          r.low_at r.high_at r.ordered (omega (arith, r.ordered, r.low_ge, r.high_le)) in
      (
        k,
        integrate_ins-cons fuel w x p n d ds e ∙ result,
        omega (arith, r.low_ge),
        omega (arith, r.high_le),
      )
]
