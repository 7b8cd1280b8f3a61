-- ===== src/Cvrdt/State/Document.antt =====
-- `WootCvrdt` of cvrdt/state.go: `UpdateState`.
use conver_go.Base.{
  All, Bool, Bool-cases, Option, Outcome-cases, [], ap, arith, false, if◌then◌else◌, inl, inr,
  insert_at, none, out_of_fuel, panic, refl, ret, some, subst, sym, text_Eq, true, ℕ, ◌∙◌, ◌∷◌, ◌≡◌,
  ◌⊎◌,
}
use conver_go.Cvrdt.Operation.{CrdtOperation, WootOperation, woot}
use conver_go.Cvrdt.Sequence.{SiteError}
use conver_go.Cvrdt.Site.{compute_op, Site}
use conver_go.Cvrdt.State.Search.{binary_search_lem}
use conver_go.Cvrdt.State.{
  insert_op, is_pending, is_fatal, CvrdtState, WootCvrdt, contains_op, merge, compute_all,
  is_nonempty, update_state,
}

compute_all_known :
    (fuel : ℕ) (known : CvrdtState) (site : Site) (new_state ops : CvrdtState)
    → All (λ op. contains_op known op ≡ ret true) ops
    → compute_all fuel known site new_state ops ≡ ret (site, none, new_state)
unfolding compute_all
compute_all_known fuel known site new_state [] h = refl
compute_all_known fuel known site new_state (op ∷ ops) h =
    rw (h.0, compute_all) (compute_all_known fuel known site new_state ops h.1)

-- Operations that the state has already are no update: the document stays the same, and so does
-- whether it is up to date.
pub update_state_known :
    (fuel : ℕ) (w : WootCvrdt) (state : CvrdtState)
    → All (λ op. contains_op w.state op ≡ ret true) state
    → update_state fuel w state ≡ ret (w, none)
unfolding update_state merge is_nonempty
update_state_known fuel w state h =
    rw (compute_all_known fuel w.state w.site [] state h, update_state) refl

known_step :
    (fuel : ℕ) (known : CvrdtState) (site : Site) (new_state ops : CvrdtState) (op : CrdtOperation)
    → contains_op known op ≡ ret true
    → compute_all fuel known site new_state (op ∷ ops) ≡ compute_all fuel known site new_state ops
unfolding compute_all
known_step fuel known site new_state ops op h = rw (h, compute_all) refl

fatal_step :
    (fuel : ℕ) (known : CvrdtState) (site site' : Site) (new_state ops : CvrdtState)
    (op : CrdtOperation) (res : WootOperation) (e : Option SiteError)
    → contains_op known op ≡ ret false
    → compute_op fuel site op ≡ ret (site', res, e)
    → is_fatal e ≡ true
    → compute_all fuel known site new_state (op ∷ ops) ≡ ret (site', e, new_state)
unfolding compute_all
fatal_step fuel known site site' new_state ops op res e h k f =
    rw (h, compute_all, k) (ground (arith, f))

fresh_step :
    (fuel : ℕ) (known : CvrdtState) (site site' : Site) (new_state new_state' ops : CvrdtState)
    (op : CrdtOperation) (res : WootOperation) (e : Option SiteError)
    → contains_op known op ≡ ret false
    → compute_op fuel site op ≡ ret (site', res, e)
    → is_fatal e ≡ false
    → insert_op new_state (woot res) ≡ ret new_state'
    → compute_all fuel known site new_state (op ∷ ops) ≡ compute_all fuel known site' new_state' ops
unfolding compute_all
fresh_step fuel known site site' new_state new_state' ops op res e h k f i =
    rw (h, compute_all, k) (ground (arith, f, i))

stuck_step :
    (fuel : ℕ) (known : CvrdtState) (site : Site) (new_state ops : CvrdtState) (op : CrdtOperation)
    → contains_op known op ≡ ret false
    → (compute_op fuel site op ≡ panic) ⊎ (compute_op fuel site op ≡ out_of_fuel)
    → (compute_all fuel known site new_state (op ∷ ops) ≡ panic)
      ⊎ (compute_all fuel known site new_state (op ∷ ops) ≡ out_of_fuel)
unfolding compute_all
stuck_step fuel known site new_state ops op h (inl k) = inl (rw (h, compute_all, k) refl)
stuck_step fuel known site new_state ops op h (inr k) = inr (rw (h, compute_all, k) refl)

contains_op_returns :
    (w : CvrdtState) (op : CrdtOperation) → (b : Bool) × (contains_op w op ≡ ret b)
unfolding contains_op
contains_op_returns w op = let (i, hit, e, _) = binary_search_lem w op in (hit, rw e refl)

insert_op_returns :
    (w : CvrdtState) (op : CrdtOperation) → (v : CvrdtState) × (insert_op w op ≡ ret v)
unfolding insert_op
insert_op_returns w op =
    let (i, hit, e, _) = binary_search_lem w op in
    (if hit then w else insert_at i op w, rw (insert_op, e) (either (insert_at i op w) hit))
  where
    either : (v : CvrdtState) (b : Bool) → (if b then ret w else ret v) ≡ ret (if b then w else v)
    either v true = refl
    either v false = refl

ended :
    (e : SiteError) (e₁ : Option SiteError)
    → is_fatal e₁ ≡ true
    → e₁ ≡ some e
    → is_pending e ≡ false
unfolding is_fatal
ended e e₁ f same = let k : is_fatal (some e) ≡ true = rw same at f in ground (arith, k)

-- The loop ends early only with an error that is no pending one.
compute_all-fatal :
    (fuel : ℕ) (known : CvrdtState) (site site' : Site) (new_state left ops : CvrdtState)
    (e : SiteError)
    → compute_all fuel known site new_state ops ≡ ret (site', some e, left)
    → is_pending e ≡ false
unfolding compute_all
compute_all-fatal fuel known site site' new_state left [] e h = ground (arith, h)
compute_all-fatal fuel known site site' new_state left (op ∷ ops) e h =
    let (seen, looked) = contains_op_returns known op in
    elim (Bool-cases seen) [
      | inl old ↦
          compute_all-fatal fuel known site site' new_state left ops e
            (sym (known_step fuel known site new_state ops op (looked ∙ ap ret old)) ∙ h)
      | inr fresh ↦
          let new = looked ∙ ap ret fresh in
          elim (Outcome-cases (compute_op fuel site op)) [
            | inl ((site₁, res, e₁), k) ↦ elim (Bool-cases (is_fatal e₁)) [
              | inl f ↦
                  let at_end =
                    sym (fatal_step fuel known site site₁ new_state ops op res e₁ new k f) ∙ h in
                  ended e e₁ f (ground (arith, at_end))
              | inr f ↦
                  let (new_state₁, i) = insert_op_returns new_state (woot res) in
                  compute_all-fatal fuel known site₁ site' new_state₁ left ops e (
                    sym (
                      fresh_step fuel known site site₁ new_state new_state₁ ops op res e₁ new k f i)
                    ∙ h)
            ]
            | inr stuck ↦ elim (stuck_step fuel known site new_state ops op new stuck) [
              | inl p ↦ absurd (ground (arith, p, h))
              | inr p ↦ absurd (ground (arith, p, h))
            ]
          ]
    ]

failed_update :
    (fuel : ℕ) (w : WootCvrdt) (site : Site) (state new_state : CvrdtState) (e : SiteError)
    → compute_all fuel w.state w.site [] state ≡ ret (site, some e, new_state)
    → update_state fuel w state ≡ ret (record w { site = site }, some e)
unfolding update_state
failed_update fuel w site state new_state e h = rw (h, update_state) refl

good_update :
    (fuel : ℕ) (w : WootCvrdt) (site : Site) (state new_state : CvrdtState)
    → compute_all fuel w.state w.site [] state ≡ ret (site, none, new_state)
    → (update_state fuel w state ≡ panic)
      ⊎ ((update_state fuel w state ≡ out_of_fuel)
          ⊎ ((w' : WootCvrdt) × (update_state fuel w state ≡ ret (w', none))))
unfolding update_state
good_update fuel w site state new_state h = elim (Outcome-cases (merge w.state new_state)) [
  | inl (merged, m) ↦ inr (
      inr (
        record {
          site = site;
          state = merged;
          is_state_up_to_date = if is_nonempty new_state then false else w.is_state_up_to_date;
        },
        rw (h, update_state, m) refl,
      ))
  | inr (inl m) ↦ inl (rw (h, update_state, m) refl)
  | inr (inr m) ↦ inr (inl (rw (h, update_state, m) refl))
]

lost_update :
    (fuel : ℕ) (w : WootCvrdt) (state : CvrdtState)
    → (compute_all fuel w.state w.site [] state ≡ panic)
      ⊎ (compute_all fuel w.state w.site [] state ≡ out_of_fuel)
    → (update_state fuel w state ≡ panic) ⊎ (update_state fuel w state ≡ out_of_fuel)
unfolding update_state
lost_update fuel w state (inl h) = inl (rw (h, update_state) refl)
lost_update fuel w state (inr h) = inr (rw (h, update_state) refl)

-- An update that ends with an error is about an operation that could not be made, never about
-- one that has to wait; the state that is exchanged and the mark that it is up to date stay as
-- they were, and the site alone may have changed.
pub update_state_fails :
    (fuel : ℕ) (w w' : WootCvrdt) (state : CvrdtState) (e : SiteError)
    → update_state fuel w state ≡ ret (w', some e)
    → (is_pending e ≡ false)
      × (w'.state ≡ w.state)
      × (w'.is_state_up_to_date ≡ w.is_state_up_to_date)
update_state_fails fuel w w' state e h =
    elim (Outcome-cases (compute_all fuel w.state w.site [] state)) [
      | inl ((site, none, new_state), k) ↦ elim (good_update fuel w site state new_state k) [
        | inl p ↦ absurd (ground (arith, p, h))
        | inr (inl p) ↦ absurd (ground (arith, p, h))
        | inr (inr (w₁, p)) ↦ absurd (ground (arith, p, h))
      ]
      | inl ((site, some failed, new_state), k) ↦
          let same = sym (failed_update fuel w site state new_state failed k) ∙ h in
          let one : failed ≡ e = ground (arith, same) in
          let there : record w { site = site } ≡ w' = ground (arith, same) in
          (
            subst (λ x. is_pending x ≡ false) one
                (compute_all-fatal fuel w.state w.site site [] new_state state failed k),
            ap (λ d. d.state) (sym there),
            ap (λ d. d.is_state_up_to_date) (sym there),
          )
      | inr lost ↦ elim (lost_update fuel w state lost) [
        | inl p ↦ absurd (ground (arith, p, h))
        | inr p ↦ absurd (ground (arith, p, h))
      ]
    ]
