-- ===== src/Cvrdt/Operation/Causality.antt =====
-- `HappenedBefore` decides strict domination of vector clocks, and is a strict partial order.
use conver_go.Base.{
  Bool, Bool-cases, Map, Option-cases, Text, [], arith, false, has, inl, inr, lookup, ltb_ℤ, none,
  not, pos, refl, some, sym, text_Eq, text_eq, text_eq_iff, true, ℤ, ◌&&◌, ◌<ℤ◌, ◌||◌, ◌↔◌, ◌∷◌,
  ◌≡◌, ◌≢◌, ◌≤ℤ◌, ◌⊎◌,
}
use conver_go.Cvrdt.Clock.{clock_at}
use conver_go.Cvrdt.Clock.Merge.{Distinct}
use conver_go.Cvrdt.Operation.{
  LogicalId, entries_below, entries_new, happened_before_entries, happened_before,
}

-- A clock as the program makes it: its keys are distinct and no entry is negative.
pub record IsClock (m : Map Text ℤ) : Type 0 where
  pub distinct : Distinct m
  pub positive : (site : Text) → pos 0 ≤ℤ clock_at m site

-- Every entry of `a` is at most that of `b`, and some entry is less.
abbrev pub Dominated : Map Text ℤ → Map Text ℤ → Type 0
Dominated a b =
    ((site : Text) → clock_at a site ≤ℤ clock_at b site)
    × ((site : Text) × (clock_at a site <ℤ clock_at b site))

-- The entry of a site in a map.
abbrev Entry : Text → ℤ → Map Text ℤ → Type 0
Entry site c m = lookup site m ≡ some c

Entry-cons :
    (k site : Text) (v c : ℤ) (m : Map Text ℤ)
    → lookup k m ≡ none
    → Entry site c m
    → Entry site c ((k, v) ∷ m)
unfolding lookup
Entry-cons k site v c m fresh e = ground (arith, text_eq_iff k site)

Entry-head : (k : Text) (v : ℤ) (m : Map Text ℤ) → Entry k v ((k, v) ∷ m)
unfolding lookup
Entry-head k v m = ground (arith, text_eq_iff k k)

-- Some entry of a map is below what the other clock holds at its site.
abbrev Strict : Map Text ℤ → Map Text ℤ → Type 0
Strict m other = (site : Text) × (c : ℤ) × Entry site c m × (c <ℤ clock_at other site)

Strict-cons :
    (k : Text) (v : ℤ) (m other : Map Text ℤ)
    → lookup k m ≡ none
    → Strict m other
    → Strict ((k, v) ∷ m) other
Strict-cons k v m other fresh (site, c, e, lt) = (site, c, Entry-cons k site v c m fresh e, lt)

Strict-step :
    (k : Text) (v : ℤ) (m other : Map Text ℤ) (s : Bool)
    → lookup k m ≡ none
    → ((s || ltb_ℤ v (clock_at other k)) ≡ true) ⊎ Strict m other
    → (s ≡ true) ⊎ Strict ((k, v) ∷ m) other
Strict-step k v m other true fresh h = inl refl
Strict-step k v m other false fresh (inl h) = inr (k, v, Entry-head k v m, ground arith)
Strict-step k v m other false fresh (inr h) = inr (Strict-cons k v m other fresh h)

-- Where the first loop goes through, every entry is at most the other clock's, and the flag tells
-- of an entry that is less.
below_sound :
    (other m : Map Text ℤ) (s r : Bool)
    → entries_below other m s ≡ some r
    → Distinct m
    → ((site : Text) (c : ℤ) → Entry site c m → c ≤ℤ clock_at other site)
      × (r ≡ true → (s ≡ true) ⊎ Strict m other)
unfolding entries_below lookup
below_sound other [] s r h d = (λ site c e. cc, λ t. inl (ground arith))
below_sound other ((k, v) ∷ m) s r h d = elim (Bool-cases (ltb_ℤ (clock_at other k) v)) [
  | inl over ↦ absurd (ground arith)
  | inr under ↦
      let ih = below_sound other m (s || ltb_ℤ v (clock_at other k)) r (ground arith) d.1 in
      (
        λ site c e. ground (arith, ih.0 site c, text_eq_iff k site),
        λ t. Strict-step k v m other s d.0 (ih.1 t),
      )
]

Entry-uncons :
    (k site : Text) (v c : ℤ) (m : Map Text ℤ)
    → Entry site c ((k, v) ∷ m)
    → ((site ≡ k) × (c ≡ v)) ⊎ Entry site c m
unfolding lookup
Entry-uncons k site v c m e = elim (Bool-cases (text_eq k site)) [
  | inl here ↦ inl (sym ((text_eq_iff k site).0 here), ground arith)
  | inr there ↦ inr (ground arith)
]

Strict-unstep :
    (k : Text) (v : ℤ) (m other : Map Text ℤ) (s : Bool)
    → (s ≡ true) ⊎ Strict ((k, v) ∷ m) other
    → ((s || ltb_ℤ v (clock_at other k)) ≡ true) ⊎ Strict m other
Strict-unstep k v m other s (inl h) = inl (ground arith)
Strict-unstep k v m other s (inr (site, c, e, lt)) = elim (Entry-uncons k site v c m e) [
  | inl (at_k, is_v) ↦ inl (strict_flag s (rw (← at_k) (rw (← is_v) lt)))
  | inr later ↦ inr (site, c, later, lt)
]
  where
    strict_flag : (b : Bool) → v <ℤ clock_at other k → (b || ltb_ℤ v (clock_at other k)) ≡ true
    strict_flag b h = ground arith

-- It goes through if every entry is at most the other clock's, and an entry that is less sets the
-- flag.
below_complete :
    (other m : Map Text ℤ) (s : Bool)
    → Distinct m
    → ((site : Text) (c : ℤ) → Entry site c m → c ≤ℤ clock_at other site)
    → (r : Bool) × (entries_below other m s ≡ some r) × ((s ≡ true) ⊎ Strict m other → r ≡ true)
unfolding entries_below lookup
below_complete other [] s d h = (s, refl, λ w. not_strict w)
  where
    not_strict : (s ≡ true) ⊎ Strict [] other → s ≡ true
    not_strict (inl t) = t
    not_strict (inr (site, c, e, lt)) = cc
below_complete other ((k, v) ∷ m) s d h =
    let (r, e, flag) =
      below_complete other m (s || ltb_ℤ v (clock_at other k)) d.1
        (λ site c en. h site c (Entry-cons k site v c m d.0 en)) in
    (r, ground (arith, e, h k v (Entry-head k v m)), λ w. flag (Strict-unstep k v m other s w))

-- A site that only the other clock has, with an entry above zero.
abbrev New : Map Text ℤ → Map Text ℤ → Type 0
New lid other =
    (site : Text) × (c : ℤ) × Entry site c other × (lookup site lid ≡ none) × (pos 0 <ℤ c)

New-sound :
    (lid o : Map Text ℤ) (s : Bool)
    → Distinct o
    → entries_new lid o s ≡ true
    → (s ≡ true) ⊎ New lid o
unfolding entries_new has
New-sound lid [] s d h = inl h
New-sound lid ((k, v) ∷ o) s d h =
    elim (New-sound lid o (s || (not (has k lid) && ltb_ℤ (pos 0) v)) d.1 h) [
      | inl t ↦ elim (Bool-cases s) [
        | inl was ↦ inl was
        | inr fresh ↦ inr (k, v, Entry-head k v o, ground arith, ground arith)
      ]
      | inr (site, c, e, gone, up) ↦ inr (site, c, Entry-cons k site v c o d.0 e, gone, up)
    ]

New-complete : (lid o : Map Text ℤ) (s : Bool) → (s ≡ true) ⊎ New lid o → entries_new lid o s ≡ true
unfolding entries_new has lookup
New-complete lid [] s (inl h) = h
New-complete lid [] s (inr (site, c, e, gone, up)) = cc
New-complete lid ((k, v) ∷ o) s (inl h) = New-complete lid o _ (inl (ground arith))
New-complete lid ((k, v) ∷ o) s (inr (site, c, e, gone, up)) = elim (Entry-uncons k site v c o e) [
  | inl (at_k, is_v) ↦
      New-complete lid o (s || (not (has k lid) && ltb_ℤ (pos 0) v))
        (inl (flag (rw (← at_k) gone) (rw (← is_v) up)))
  | inr later ↦
      New-complete lid o (s || (not (has k lid) && ltb_ℤ (pos 0) v))
        (inr (site, c, later, gone, up))
]
  where
    flag : lookup k lid ≡ none → pos 0 <ℤ v → (s || (not (has k lid) && ltb_ℤ (pos 0) v)) ≡ true
    flag h u = ground arith

Entry-clock_at : (m : Map Text ℤ) (site : Text) (c : ℤ) → Entry site c m → clock_at m site ≡ c
unfolding clock_at
Entry-clock_at m site c e = ground arith

-- A site without an entry reads zero, any other its entry.
clock_at-cases :
    (m : Map Text ℤ) (site : Text)
    → ((lookup site m ≡ none) × (clock_at m site ≡ pos 0)) ⊎ Entry site (clock_at m site) m
unfolding clock_at
clock_at-cases m site = elim (Option-cases (lookup site m)) [
  | inl gone ↦ inl (gone, ground arith)
  | inr (c, e) ↦ inr (ground arith)
]

module _ (a b : Map Text ℤ) (p : IsClock a) (q : IsClock b) where
  all_below :
      ((site : Text) (c : ℤ) → Entry site c a → c ≤ℤ clock_at b site)
      → (site : Text) → clock_at a site ≤ℤ clock_at b site
  all_below h site = elim (clock_at-cases a site) [
    | inl (gone, zero_there) ↦ rw zero_there (q.positive site)
    | inr e ↦ h site (clock_at a site) e
  ]

  some_below : Strict a b ⊎ New a b → (site : Text) × (clock_at a site <ℤ clock_at b site)
  some_below (inl (site, c, e, lt)) = (site, rw (Entry-clock_at a site c e) lt)
  some_below (inr (site, c, e, gone, up)) = (site, lt)
    where
      at_a : clock_at a site ≡ pos 0
      at_a = elim (clock_at-cases a site) [
        | inl (_, zero_there) ↦ zero_there
        | inr there ↦ absurd (cc (gone, there))
      ]

      lt : clock_at a site <ℤ clock_at b site
      lt = rw (at_a, Entry-clock_at b site c e) up

  from_below : (site : Text) → clock_at a site <ℤ clock_at b site → Strict a b ⊎ New a b
  from_below site lt = elim (clock_at-cases a site) [
    | inr e ↦ inl (site, clock_at a site, e, lt)
    | inl (gone, at_a) ↦ elim (clock_at-cases b site) [
      | inr e ↦ inr (site, clock_at b site, e, gone, (rw at_a at lt))
      | inl (_, at_b) ↦ absurd (ground arith)
    ]
  ]

happened_before_entries_iff :
    (a b : Map Text ℤ)
    → IsClock a
    → IsClock b
    → (happened_before_entries a b ≡ true) ↔ ((a ≢ []) × Dominated a b)
unfolding happened_before_entries
happened_before_entries_iff [] b p q = (λ h. cc, λ h. absurd (h.0 refl))
happened_before_entries_iff (e ∷ a) b p q = (sound, complete)
  where
    split :
        (s : Bool)
        → (s ≡ true → (false ≡ true) ⊎ Strict (e ∷ a) b)
        → (s ≡ true) ⊎ New (e ∷ a) b
        → Strict (e ∷ a) b ⊎ New (e ∷ a) b
    split s k (inl t) = elim (k t) [ inl f ↦ cc | inr w ↦ inl w ]
    split s k (inr n) = inr n

    sound : happened_before_entries (e ∷ a) b ≡ true → ((e ∷ a) ≢ []) × Dominated (e ∷ a) b
    sound h = elim (Option-cases (entries_below b (e ∷ a) false)) [
      | inl stopped ↦ absurd (ground arith)
      | inr (s, eq) ↦
          let below = below_sound b (e ∷ a) false s eq p.distinct in
          let fresh = New-sound (e ∷ a) b s q.distinct (ground arith) in
          (
            λ z. cc,
            (all_below (e ∷ a) b p q below.0, some_below (e ∷ a) b p q (split s below.1 fresh)),
          )
    ]

    either :
        (r : Bool)
        → ((false ≡ true) ⊎ Strict (e ∷ a) b → r ≡ true)
        → Strict (e ∷ a) b ⊎ New (e ∷ a) b
        → (r ≡ true) ⊎ New (e ∷ a) b
    either r flag (inl w) = inl (flag (inr w))
    either r flag (inr n) = inr n

    complete : ((e ∷ a) ≢ []) × Dominated (e ∷ a) b → happened_before_entries (e ∷ a) b ≡ true
    complete h =
        let (r, eq, flag) =
          below_complete b (e ∷ a) false p.distinct
            (λ site c en. rw (Entry-clock_at (e ∷ a) site c en) at (h.1.0 site)) in
        let (site, lt) = h.1.1 in
        let full = New-complete (e ∷ a) b r (either r flag (from_below (e ∷ a) b p q site lt)) in
        ground (arith, eq, full)

-- For clocks as the program makes them, `HappenedBefore` holds exactly of a clock that has an
-- entry and is dominated: no entry is above the other clock's, and some entry is below it.
pub happened_before_iff :
    (a b : LogicalId)
    → IsClock a.clock
    → IsClock b.clock
    → (happened_before a b ≡ true) ↔ ((a.clock ≢ []) × Dominated a.clock b.clock)
unfolding happened_before
happened_before_iff a b p q = happened_before_entries_iff a.clock b.clock p q

-- `HappenedBefore` is a strict partial order of such clocks: no operation precedes itself, no two
-- precede each other, and precedence composes.
pub happened_before_strict_order :
    (a b c : LogicalId)
    → IsClock a.clock
    → IsClock b.clock
    → IsClock c.clock
    → (happened_before a a ≡ false)
      × (happened_before a b ≡ true → happened_before b a ≡ false)
      × (happened_before a b ≡ true → happened_before b c ≡ true → happened_before a c ≡ true)
happened_before_strict_order a b c p q r = (
  elim (Bool-cases (happened_before a a)) [
    | inl h ↦ let (site, lt) = ((happened_before_iff a a p p).0 h).1.1 in absurd (omega arith)
    | inr h ↦ h
  ],
  λ h. elim (Bool-cases (happened_before b a)) [
    | inl k ↦
        let (all, (site, lt)) = ((happened_before_iff a b p q).0 h).1 in
        let back = ((happened_before_iff b a q p).0 k).1.0 site in absurd (omega arith)
    | inr k ↦ k
  ],
  λ h k.
      let (ne, (all, (site, lt))) = (happened_before_iff a b p q).0 h in
      let (ne', (all', _)) = (happened_before_iff b c q r).0 k in
      (happened_before_iff a c p r).1 (
        ne,
        (
          λ s. le_ℤ_trans _ (clock_at b.clock s) _ (all s) (all' s),
          (site, lt_le_ℤ_trans _ (clock_at b.clock site) _ lt (all' site)),
        ),
      ),
)
  where
    le_ℤ_trans : (x y z : ℤ) → x ≤ℤ y → y ≤ℤ z → x ≤ℤ z
    le_ℤ_trans x y z h k = omega arith

    lt_le_ℤ_trans : (x y z : ℤ) → x <ℤ y → y ≤ℤ z → x <ℤ z
    lt_le_ℤ_trans x y z h k = omega arith
