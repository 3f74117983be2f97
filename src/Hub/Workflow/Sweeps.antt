-- ===== src/Hub/Workflow/Sweeps.antt =====
-- Approving all pending applications and deleting the approved ones
-- (components/idthw_hub/features/workflow/api/workflowApplications.ts).
use id_jag_the_hard_way.Base.{
  ℕ, ◌≡◌, refl, sym, ap, ◌∙◌, subst, true, false, some, List, [], ◌∷◌, ◌++◌, inl, inr, ◌↔◌, Member,
  map, length, All, Bool-cases, ◌==◌, Result, ok, err, ◌>>◌, ok-injective, err-eq-ok, Result-cases,
  All-map, arith,
}
use id_jag_the_hard_way.Base.Text.{Text, text_eq, lit, text_beq, text_beq_iff}
use id_jag_the_hard_way.Hub.Cluster.{Cluster, Laws}
use id_jag_the_hard_way.Hub.Input.{Runtime}
use id_jag_the_hard_way.Hub.Workflow.{
  WorkflowApplication, WorkflowApplicationStatus, pending, approved,
}
use id_jag_the_hard_way.Hub.Workflow.Store.{
  map_name, application_from_config_map, is_wanted, with_status, list_workflow_applications,
  mark_workflow_application_approved, approve_each, approve_all_pending_workflow_applications,
}
use id_jag_the_hard_way.Hub.Workflow.Maps.{application_from_config_map-eq-ok}
use id_jag_the_hard_way.Hub.Workflow.Listing.{IsStored, list-IsWanted}
use id_jag_the_hard_way.Hub.Workflow.Lifecycle.{
  IsConsistent, IsNamed, Approves, mark_workflow_application_approved-Approves,
}

pub wanted_iff :
    (s : WorkflowApplicationStatus) (a : WorkflowApplication)
    → (is_wanted (with_status s) a ≡ true) ↔ (a.status ≡ s)
unfolding is_wanted
wanted_iff s a = ground arith

prefix_injective : (p s t : Text) → p ++ s ≡ p ++ t → s ≡ t
prefix_injective [] s t h = h
prefix_injective (x ∷ p) s t h = prefix_injective p s t (cc)

pub map_name_injective : (s t : Text) → map_name s ≡ map_name t → s ≡ t
map_name_injective s t h = prefix_injective (lit "workflow-application-") s t h

pub approved_or_pending : {s : WorkflowApplicationStatus} → s ≡ approved → ¬ (s ≡ pending)
approved_or_pending e f = cc

pub apart : {s t : Text} → text_beq s t ≡ false → ¬ (s ≡ t)
apart {s} {t} h e = let same = (text_beq_iff s t).1 e in cc

module _ (c : Cluster) (r : Runtime) where
  -- Every stored application that is pending is named by one of the list.
  abbrev pub PendingAmong : List WorkflowApplication → c.State → Type 0
  PendingAmong as_ s =
      (d : WorkflowApplication)
      → IsStored c r s d
      → d.status ≡ pending
      → Member d.id (map (λ a. a.id) as_)

  Approves-PendingAmong :
      (by now : Text) (s t : c.State) (a d : WorkflowApplication) (as_ : List WorkflowApplication)
      → Approves c r by now s t a d
      → PendingAmong (a ∷ as_) s
      → PendingAmong as_ t
  Approves-PendingAmong by now s t a d as_ h before e stored status =
      elim (Bool-cases (map_name a.id == map_name e.id)) [
        | inl same ↦
            let named : map_name a.id ≡ map_name e.id =
              (text_beq_iff (map_name a.id) (map_name e.id)).0 same in
            let old : d.id ≡ a.id = ap (λ (d : WorkflowApplication). d.id) h.is_approval in
            let found : c.stored t (map_name e.id) ≡ some h.is_stored.map =
              subst (λ n. c.stored t n ≡ some h.is_stored.map) (ap map_name old ∙ named)
                h.is_stored.found in
            let maps : some h.is_stored.map ≡ some stored.map = sym found ∙ stored.found in
            let maps : h.is_stored.map ≡ stored.map = ground (arith, maps) in
            let de : d ≡ e = ok-injective (
              sym h.is_stored.reads
              ∙ subst (λ m. application_from_config_map r m ≡ ok e) (sym maps) stored.reads) in
            let done : d.status ≡ approved =
              ap (λ (d : WorkflowApplication). d.status) h.is_approval in
            let still : d.status ≡ pending =
              subst (λ (x : WorkflowApplication). x.status ≡ pending) (sym de) status in
            absurd (approved_or_pending done still)
        | inr other ↦
            let stored' : IsStored c r s e = record {
              map = stored.map;
              found = sym (h.others (map_name e.id) other) ∙ stored.found;
              selected = stored.selected;
              reads = stored.reads;
            } in
            elim (before e stored' status) [
              | inl same ↦ absurd (apart other (ap map_name same))
              | inr later ↦ later
            ]
      ]

  Approves-IsNamed :
      Laws c
      → (by now : Text) (s t : c.State) (a d b : WorkflowApplication) → Approves c r by now s t a d
      → IsNamed c r s b
      → IsNamed c r t b
  Approves-IsNamed laws by now s t a d b h named =
      elim (Bool-cases (map_name a.id == map_name b.id)) [
        | inl same ↦
            let e : map_name a.id ≡ map_name b.id =
              (text_beq_iff (map_name a.id) (map_name b.id)).0 same in
            let old : d.id ≡ a.id = ap (λ (d : WorkflowApplication). d.id) h.is_approval in
            record {
              map = h.is_stored.map;
              found =
                  subst (λ n. c.stored t n ≡ some h.is_stored.map) (ap map_name old ∙ e)
                    h.is_stored.found;
              selected = h.is_stored.selected;
              valid = named.valid;
            }
        | inr other ↦ record {
          map = named.map;
          found = h.others (map_name b.id) other ∙ named.found;
          selected = named.selected;
          valid = named.valid;
        }
      ]

  abbrev pub IsReady : c.State → List WorkflowApplication → Type 0
  IsReady s = All (λ a. IsNamed c r s a × (a.status ≡ pending))

  pub Approves-IsReady :
      Laws c
      → (by now : Text) (s t : c.State) (a d : WorkflowApplication) (as_ : List WorkflowApplication)
      → Approves c r by now s t a d
      → IsReady s as_
      → IsReady t as_
  Approves-IsReady laws by now s t a d as_ h =
      All-map (λ b ready. (Approves-IsNamed laws by now s t a d b h ready.0, ready.1)) as_

  pub approve_each-ok :
      (a : WorkflowApplication) (as_ : List WorkflowApplication) (by : Text) (now : ℕ → Text)
      (s : c.State) (next : c.State × WorkflowApplication)
      → mark_workflow_application_approved c r a by (now (length as_)) s ≡ ok next
      → approve_each c r (a ∷ as_) by now s ≡ approve_each c r as_ by now next.0
  unfolding approve_each
  approve_each-ok a as_ by now s next e = rw (e, approve_each) refl

  pub approve_each-err :
      (a : WorkflowApplication) (as_ : List WorkflowApplication) (by : Text) (now : ℕ → Text)
      (s : c.State) (x : Text)
      → mark_workflow_application_approved c r a by (now (length as_)) s ≡ err x
      → approve_each c r (a ∷ as_) by now s ≡ (s, err x)
  unfolding approve_each
  approve_each-err a as_ by now s x e = rw (e, approve_each) refl

  abbrev Swept : (c.State × Result Text (Unit {0})) → Type 0
  Swept (t, outcome) = IsConsistent c r t × (outcome ≡ ok tt → PendingAmong [] t)

  -- Whether or not a round fails, the store stays consistent; where none does, every listed
  -- application has been approved.
  approve_each_lem :
      Laws c
      → (as_ : List WorkflowApplication) (by : Text) (now : ℕ → Text) (s : c.State)
      → IsConsistent c r s
      → IsReady s as_
      → PendingAmong as_ s
      → Swept (approve_each c r as_ by now s)
  unfolding approve_each
  approve_each_lem laws [] by now s before ready among = (before, λ _. among)
  approve_each_lem laws (a ∷ as_) by now s before ready among =
      elim (Result-cases (mark_workflow_application_approved c r a by (now (length as_)) s)) [
        | inl (next, e) ↦
            let h =
              mark_workflow_application_approved-Approves c r laws a by (now (length as_)) s before
                ready.0.0 ready.0.1 e in
            subst Swept (sym (approve_each-ok a as_ by now s next e)) (
              approve_each_lem laws as_ by now next.0 h.consistent
                (Approves-IsReady laws by (now (length as_)) s next.0 a next.1 as_ h ready.1)
                (Approves-PendingAmong by (now (length as_)) s next.0 a next.1 as_ h among))
        | inr (x, e) ↦
            subst Swept (sym (approve_each-err a as_ by now s x e))
              (before, λ h. absurd (err-eq-ok h))
      ]

  pub IsStored-IsNamed :
      (s : c.State) (a : WorkflowApplication) → IsStored c r s a → IsNamed c r s a
  IsStored-IsNamed s a h = record {
    map = h.map;
    found = h.found;
    selected = h.selected;
    valid = (application_from_config_map-eq-ok r h.map h.reads).1;
  }

  pub All-Member :
      {P : WorkflowApplication → Type 0} (xs : List WorkflowApplication)
      → ((a : WorkflowApplication) → Member a xs → P a)
      → All P xs
  All-Member [] h = tt
  All-Member (x ∷ xs) h = (h x (inl refl), All-Member xs (λ a w. h a (inr w)))

  Member-map :
      (xs : List WorkflowApplication) (a : WorkflowApplication)
      → Member a xs
      → Member a.id (map (λ a. a.id) xs)
  Member-map [] a h = absurd h
  Member-map (x ∷ xs) a (inl e) = inl (ap (λ (a : WorkflowApplication). a.id) e)
  Member-map (x ∷ xs) a (inr h) = inr (Member-map xs a h)

  pub listed-IsReady :
      Laws c
      → (s : c.State) (as_ : List WorkflowApplication)
      → list_workflow_applications c r (with_status pending) s ≡ ok as_
      → IsReady s as_
  listed-IsReady laws s as_ e =
      let listed = list-IsWanted c r laws (with_status pending) s e in
      All-Member {P = λ a. IsNamed c r s a × (a.status ≡ pending)} as_
        (λ a w. let h = (listed a).0 w in (IsStored-IsNamed s a h.0, (wanted_iff pending a).0 h.1))

  all_lem :
      Laws c
      → (by : Text) (now : ℕ → Text) (s : c.State) (as_ : List WorkflowApplication)
      → IsConsistent c r s
      → list_workflow_applications c r (with_status pending) s ≡ ok as_
      → Swept (approve_each c r as_ by now s)
  all_lem laws by now s as_ before e =
      let listed = list-IsWanted c r laws (with_status pending) s e in
      approve_each_lem laws as_ by now s before (listed-IsReady laws s as_ e) (λ d stored status.
        Member-map as_ d ((listed d).1 (stored, (wanted_iff pending d).1 status)))

  outcome_lem :
      {A : Type 0} (o : Result Text (Unit {0})) (n : A) {m : A} → (do o; ok n) ≡ ok m → o ≡ ok tt
  outcome_lem (ok u) n h = refl
  outcome_lem (err e) n h = cc

  pub approve_all-ok :
      (by : Text) (now : ℕ → Text) (s : c.State) (as_ : List WorkflowApplication)
      → list_workflow_applications c r (with_status pending) s ≡ ok as_
      → approve_all_pending_workflow_applications c r by now s ≡ (
        (approve_each c r as_ by now s).0,
        (do (approve_each c r as_ by now s).1; ok (length as_)),
      )
  unfolding approve_all_pending_workflow_applications
  approve_all-ok by now s as_ e = rw (e, approve_all_pending_workflow_applications) refl

  pub approve_all-err :
      (by : Text) (now : ℕ → Text) (s : c.State) (x : Text)
      → list_workflow_applications c r (with_status pending) s ≡ err x
      → approve_all_pending_workflow_applications c r by now s ≡ (s, err x)
  unfolding approve_all_pending_workflow_applications
  approve_all-err by now s x e = rw (e, approve_all_pending_workflow_applications) refl

  -- after a sweep
  pub record SweptAll (result : c.State × Result Text ℕ) : Type 0 where
    pub consistent : IsConsistent c r result.0
    pub all_approved :
        (n : ℕ)
        → result.1 ≡ ok n
        → (d : WorkflowApplication) → IsStored c r result.0 d
        → d.status ≡ approved

  not_pending : (s : WorkflowApplicationStatus) → ¬ (s ≡ pending) → s ≡ approved
  not_pending approved h = refl
  not_pending pending h = absurd (h refl)

  -- Approving all pending applications keeps a consistent store consistent, also where it
  -- breaks off; where it returns, no stored application is pending any more.
  pub approve_all-SweptAll :
      Laws c
      → (by : Text) (now : ℕ → Text) (s : c.State) → IsConsistent c r s
      → SweptAll (approve_all_pending_workflow_applications c r by now s)
  approve_all-SweptAll laws by now s before =
      elim (Result-cases (list_workflow_applications c r (with_status pending) s)) [
        | inl (as_, e) ↦
            let (consistent, swept) = all_lem laws by now s as_ before e in
            subst SweptAll (sym (approve_all-ok by now s as_ e)) (record {
              consistent = consistent;
              all_approved = λ n h d stored. not_pending d.status (λ still.
                  swept (outcome_lem (approve_each c r as_ by now s).1 (length as_) h) d stored
                    still);
            })
        | inr (x, e) ↦
            subst SweptAll (sym (approve_all-err by now s x e))
              (record { consistent = before; all_approved = λ n h. absurd (err-eq-ok h) })
      ]
