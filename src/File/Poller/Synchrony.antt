-- ===== src/File/Poller/Synchrony.antt =====
-- What the poller of file/polling.go keeps between a document and its file.
use conver_go.Base.{
  List, Text, Bool, Bool-cases, Option, Outcome, [], ap, false, if-false, if-true, if◌then◌else◌,
  inl, inr, insert_at, none, not, out_of_fuel, panic, refl, ret, ret_inj, some, subst, suc, sym,
  text_Eq, true, zero, ℕ, ◌>>=◌, ◌∙◌, ◌∷◌, ◌≡◌,
}
use conver_go.Cvrdt.Operation.{CrdtOperation, WootOperation, woot}
use conver_go.Cvrdt.Sequence.{SiteError}
use conver_go.Cvrdt.Site.{Site, compute_op, get_current_data}
use conver_go.Cvrdt.State.{
  CvrdtState, WootCvrdt, merge, new_woot_cvrdt_with_view, snapshot, update_state, compute_all,
  insert_op, contains_op, binary_search, is_nonempty, is_fatal, is_pending, search_loop,
}
use conver_go.File.Poller.{Polled, Happening, happen, happen_all, reported, tick, updating, ticking}

-- A document that counts as up to date has its text in the file.
unfoldable InSync : Polled → Type 0
InSync d = d.document.is_state_up_to_date ≡ true → d.file ≡ get_current_data d.document.site

tick-InSync : (d : Polled) → InSync d → (tick d).file ≡ get_current_data (tick d).document.site
unfolding tick snapshot InSync
tick-InSync d h = elim (Bool-cases d.document.is_state_up_to_date) [
  | inl e ↦ if-true d.file (get_current_data d.document.site) e ∙ h e
  | inr e ↦ if-false d.file (get_current_data d.document.site) e
]

insert_at-nonempty :
    (n : ℕ) (a : CrdtOperation) (w : CvrdtState) → is_nonempty (insert_at n a w) ≡ true
unfolding is_nonempty
insert_at-nonempty zero a w = refl
insert_at-nonempty (suc n) a [] = refl
insert_at-nonempty (suc n) a (x ∷ w) = refl

insert_op-nonempty :
    (w w' : CvrdtState) (op : CrdtOperation) → insert_op w op ≡ ret w' → is_nonempty w' ≡ true
unfolding insert_op is_nonempty binary_search search_loop
insert_op-nonempty [] w' op h = subst (λ v. is_nonempty v ≡ true) (ret_inj h) refl
insert_op-nonempty (x ∷ ws) w' op h = kept (binary_search (x ∷ ws) op) h
  where
    kept :
        (o : Outcome (ℕ × Bool))
        → (o >>= λ (found : ℕ × Bool).
            if found.1 then ret (x ∷ ws) else ret (insert_at found.0 op (x ∷ ws)))
          ≡ ret w'
        → is_nonempty w' ≡ true
    kept (ret (idx, true)) k = subst (λ v. is_nonempty v ≡ true) (ret_inj k) refl
    kept (ret (idx, false)) k =
        subst (λ v. is_nonempty v ≡ true) (ret_inj k) (insert_at-nonempty idx op (x ∷ ws))
    kept panic k = cc
    kept out_of_fuel k = cc

-- New operations are only added, and without one the site is as it was.
Added : CvrdtState → Site → Site × Option SiteError × CvrdtState → Type 0
Added acc site r =
    (is_nonempty acc ≡ true → is_nonempty r.2 ≡ true) × (is_nonempty r.2 ≡ false → r.0 ≡ site)

computes :
    {A : Type 0} {B : Type 0} (o : Outcome A) (f : A → Outcome B) (b : B)
    → (o >>= f) ≡ ret b
    → (a : A) × (o ≡ ret a) × (f a ≡ ret b)
computes (ret a) f b h = (a, refl, h)
computes panic f b h = cc
computes out_of_fuel f b h = cc

compute_all-Added :
    (fuel : ℕ) (known : CvrdtState) (site : Site) (acc ops : CvrdtState) (site' : Site)
    (new_state : CvrdtState)
    → compute_all fuel known site acc ops ≡ ret (site', none, new_state)
    → Added acc site (site', none, new_state)
unfolding compute_all Added is_fatal
compute_all-Added fuel known site acc [] site' new_state h =
    let same : ◌≡◌ {A = Site × Option SiteError × CvrdtState} (site, none, acc)
        (site', none, new_state) =
      ret_inj h in
    (
      λ full. subst (λ r. is_nonempty r.2 ≡ true) same full,
      λ empty. sym (ap (λ (r : Site × Option SiteError × CvrdtState). r.0) same),
    )
compute_all-Added fuel known site acc (op ∷ ops) site' new_state h =
    let (seen, e, next) = computes (contains_op known op) _ (site', none, new_state) h in
    by_seen seen next (λ site1 acc1. compute_all-Added fuel known site1 acc1 ops site' new_state)
  where
    Done : Type 0
    Done =
        (is_nonempty acc ≡ true → is_nonempty new_state ≡ true)
        × (is_nonempty new_state ≡ false → site' ≡ site)

    passed :
        (site1 : Site) (res : WootOperation)
        → (insert_op acc (woot res) >>= λ new_state'. compute_all fuel known site1 new_state' ops)
          ≡ ret (site', none, new_state)
        → ((site1 : Site) (acc1 : CvrdtState)
            → compute_all fuel known site1 acc1 ops ≡ ret (site', none, new_state)
            → (is_nonempty acc1 ≡ true → is_nonempty new_state ≡ true)
              × (is_nonempty new_state ≡ false → site' ≡ site1))
        → Done
    passed site1 res k ih =
        let (acc1, put, rest) = computes (insert_op acc (woot res)) _ (site', none, new_state) k in
        let full : is_nonempty new_state ≡ true =
          (ih site1 acc1 rest).0 (insert_op-nonempty acc acc1 (woot res) put) in
        (λ _. full, λ empty. absurd (let w : true ≡ false = sym full ∙ empty in cc))

    refused :
        (pending : Bool) (site1 : Site) (res : WootOperation) (f : SiteError)
        → (elim (not pending) [
          | true ↦ ret (site1, some f, acc)
          | false ↦
              insert_op acc (woot res) >>= λ new_state'. compute_all fuel known site1 new_state' ops
        ])
          ≡ ret (site', none, new_state)
        → ((site1 : Site) (acc1 : CvrdtState)
            → compute_all fuel known site1 acc1 ops ≡ ret (site', none, new_state)
            → (is_nonempty acc1 ≡ true → is_nonempty new_state ≡ true)
              × (is_nonempty new_state ≡ false → site' ≡ site1))
        → Done
    refused true site1 res f k ih = passed site1 res k ih
    refused false site1 res f k ih = absurd (
        let w : some f ≡ none =
          ap (λ (r : Site × Option SiteError × CvrdtState). r.1) (ret_inj k) in
        cc)

    inserted :
        (r : Site × WootOperation × Option SiteError)
        → (elim (is_fatal r.2) [
          | true ↦ ret (r.0, r.2, acc)
          | false ↦
              insert_op acc (woot r.1) >>= λ new_state'. compute_all fuel known r.0 new_state' ops
        ])
          ≡ ret (site', none, new_state)
        → ((site1 : Site) (acc1 : CvrdtState)
            → compute_all fuel known site1 acc1 ops ≡ ret (site', none, new_state)
            → (is_nonempty acc1 ≡ true → is_nonempty new_state ≡ true)
              × (is_nonempty new_state ≡ false → site' ≡ site1))
        → Done
    inserted (site1, res, none) k ih = passed site1 res k ih
    inserted (site1, res, some f) k ih = refused (is_pending f) site1 res f k ih

    by_seen :
        (seen : Bool)
        → (elim seen [
          | true ↦ compute_all fuel known site acc ops
          | false ↦ compute_op fuel site op >>= λ (s, res_op, e). elim (is_fatal e) [
            | true ↦ ret (s, e, acc)
            | false ↦ insert_op acc (woot res_op) >>= λ new_state'.
                compute_all fuel known s new_state' ops
          ]
        ])
          ≡ ret (site', none, new_state)
        → ((site1 : Site) (acc1 : CvrdtState)
            → compute_all fuel known site1 acc1 ops ≡ ret (site', none, new_state)
            → (is_nonempty acc1 ≡ true → is_nonempty new_state ≡ true)
              × (is_nonempty new_state ≡ false → site' ≡ site1))
        → Done
    by_seen true k ih = ih site acc k
    by_seen false k ih =
        let (r, computed, rest) = computes (compute_op fuel site op) _ (site', none, new_state) k in
        inserted r rest ih

update_state-InSync :
    (fuel : ℕ) (d : Polled) (state : CvrdtState) (w : WootCvrdt)
    → update_state fuel d.document state ≡ ret (w, none)
    → InSync d
    → InSync (record d { document = w })
unfolding update_state InSync Added
update_state-InSync fuel d state w h sync =
    let (r, computed, rest) =
      computes (compute_all fuel d.document.state d.document.site [] state) _ (w, none) h in
    by_error r computed rest
  where
    by_flag :
        (full : Bool) (site' : Site)
        → (full ≡ false → site' ≡ d.document.site)
        → (if full then false else d.document.is_state_up_to_date) ≡ true
        → d.file ≡ get_current_data site'
    by_flag true site' same k = cc
    by_flag false site' same k = sync k ∙ ap get_current_data (sym (same refl))

    by_error :
        (r : Site × Option SiteError × CvrdtState)
        → compute_all fuel d.document.state d.document.site [] state ≡ ret r
        → ◌≡◌ {A = Outcome (WootCvrdt × Option SiteError)}
            (elim r.1 [
              | some failed ↦ ret (record d.document { site = r.0 }, some failed)
              | none ↦ merge d.document.state r.2 >>= λ merged. ret (
                record {
                  site = r.0;
                  state = merged;
                  is_state_up_to_date =
                      if is_nonempty r.2 then false else d.document.is_state_up_to_date;
                },
                none,
              )
            ])
            (ret (w, none))
        → w.is_state_up_to_date ≡ true
        → d.file ≡ get_current_data w.site
    by_error (site', some f, new_state) computed k =
        absurd
          (let e : some f ≡ none = ap (λ (r : WootCvrdt × Option SiteError). r.1) (ret_inj k) in cc)
    by_error (site', none, new_state) computed k =
        let (merged, put, made) = computes (merge d.document.state new_state) _ (w, none) k in
        let unchanged : is_nonempty new_state ≡ false → site' ≡ d.document.site =
          (compute_all-Added fuel d.document.state d.document.site [] state site' new_state
            computed).1 in
        subst (λ (v : WootCvrdt). v.is_state_up_to_date ≡ true → d.file ≡ get_current_data v.site)
          (ap (λ (r : WootCvrdt × Option SiteError). r.0) (ret_inj made))
          (by_flag (is_nonempty new_state) site' unchanged)

happen-InSync : (h : Happening) (d d' : Polled) → happen h d ≡ ret (d', none) → InSync d → InSync d'
unfolding happen InSync
happen-InSync (updating fuel state) d d' e sync =
    let ((w, f), updated, made) = computes (update_state fuel d.document state) _ (d', none) e in
    subst InSync (ap (λ (r : Polled × Option SiteError). r.0) (ret_inj made)) (
      update_state-InSync fuel d state w
        (updated
          ∙ ap (λ (g : Option SiteError). ret (w, g))
              (ap (λ (r : Polled × Option SiteError). r.1) (ret_inj made)))
        sync)
happen-InSync ticking d d' e sync =
    subst InSync (ap (λ (r : Polled × Option SiteError). r.0) (ret_inj e)) (λ _. tick-InSync d sync)

happen_all-InSync :
    (hs : List Happening) (d d' : Polled) → happen_all hs d ≡ ret (d', []) → InSync d → InSync d'
unfolding happen_all reported
happen_all-InSync [] d d' e sync =
    subst InSync (ap (λ (r : Polled × List SiteError). r.0) (ret_inj e)) sync
happen_all-InSync (h ∷ hs) d d' e sync =
    let ((d1, f), happened, next) = computes (happen h d) _ (d', []) e in
    let ((d2, failures), others, made) = computes (happen_all hs d1) _ (d', []) next in
    by_failures f failures d1 d2 happened others (ret_inj made)
      (λ d1 rest. happen_all-InSync hs d1 d' rest)
  where
    by_failures :
        (f : Option SiteError) (failures : List SiteError) (d1 d2 : Polled)
        → happen h d ≡ ret (d1, f)
        → happen_all hs d1 ≡ ret (d2, failures)
        → ◌≡◌ {A = Polled × List SiteError} (d2, reported f failures) (d', [])
        → ((d1 : Polled) → happen_all hs d1 ≡ ret (d', []) → InSync d1 → InSync d')
        → InSync d'
    by_failures (some f) failures d1 d2 happened others made ih =
        absurd (let w : f ∷ failures ≡ [] = ap (λ (r : Polled × List SiteError). r.1) made in cc)
    by_failures none (x ∷ failures) d1 d2 happened others made ih =
        absurd (let w : x ∷ failures ≡ [] = ap (λ (r : Polled × List SiteError). r.1) made in cc)
    by_failures none [] d1 d2 happened others made ih =
        ih d1 (others ∙ ap ret made) (happen-InSync h d d1 happened sync)

-- Whatever updates that succeed and ticks a new document goes through, and nothing else, and whatever
-- its file held before, at the next tick the file holds the document's text.
pub happen_all-tick :
    (site_id held : Text) (hs : List Happening) (d' : Polled)
    → happen_all hs (record { document = new_woot_cvrdt_with_view site_id; file = held })
      ≡ ret (d', [])
    → (tick d').file ≡ get_current_data (tick d').document.site
unfolding new_woot_cvrdt_with_view InSync
happen_all-tick site_id held hs d' h = tick-InSync d' (
    happen_all-InSync hs (record { document = new_woot_cvrdt_with_view site_id; file = held }) d' h
      (λ (e : false ≡ true). cc))
