-- ===== src/Hub/Workflow/Immutable.antt =====
-- What becomes of an application that is approved
-- (components/idthw_hub/features/workflow/api/workflowApplications.ts).
use id_jag_the_hard_way.Base.{
  ℕ, ◌≡◌, refl, sym, ap, ◌∙◌, subst, false, none, some, List, [], ◌∷◌, inl, inr, ◌⊎◌, Bool-cases,
  All, ◌==◌, length, if◌then◌else◌, Result, ok-injective, Result-cases,
}
use id_jag_the_hard_way.Base.Text.{Text, trim, text_eq, text_beq_iff}
use id_jag_the_hard_way.Hub.Cluster.{Cluster, Laws}
use id_jag_the_hard_way.Hub.Input.{Runtime}
use id_jag_the_hard_way.Hub.Workflow.{WorkflowApplication, pending, approved}
use id_jag_the_hard_way.Hub.Workflow.Store.{
  map_name, config_map_of, with_status, list_workflow_applications,
  mark_workflow_application_approved, approve_each, approve_all_pending_workflow_applications,
}
use id_jag_the_hard_way.Hub.Workflow.Listing.{IsStored, list-IsWanted}
use id_jag_the_hard_way.Hub.Workflow.Lifecycle.{
  IsConsistent, Approves, create_workflow_application-Created, mark_approved,
  mark_workflow_application_approved-Approves,
}
use id_jag_the_hard_way.Hub.Workflow.Sweeps.{
  IsReady, map_name_injective, Approves-IsReady, approve_each-ok, approve_each-err, approve_all-ok,
  approve_all-err, listed-IsReady, wanted_iff, approved_or_pending, All-Member,
}
use id_jag_the_hard_way.Hub.Workflow.Deletion.{
  names_of, delete_applications-Drops, Drops-stored, same_map, delete_approved-Deleted,
}
use id_jag_the_hard_way.Hub.Workflow.Reach.{
  IsRead, accept-Approves, Step, submit, accept, accept_all, delete_listed, clean_up, Status-cases,
}

module _ (c : Cluster) (r : Runtime) where
  -- none of the list has the name `n`
  abbrev Spared : Text → List WorkflowApplication → Type 0
  Spared n = All (λ a. (map_name a.id == n) ≡ false)

  approve_each-Spared :
      Laws c
      → (as_ : List WorkflowApplication) (by : Text) (now : ℕ → Text) (s : c.State) (n : Text)
      → IsConsistent c r s
      → IsReady c r s as_
      → Spared n as_
      → c.stored (approve_each c r as_ by now s).0 n ≡ c.stored s n
  approve_each-Spared laws [] by now s n before ready spared = unfold approve_each in refl
  approve_each-Spared laws (a ∷ as_) by now s n before ready spared =
      elim (Result-cases (mark_workflow_application_approved c r a by (now (length as_)) s)) [
        | inl (next, e) ↦
            let h =
              mark_workflow_application_approved-Approves c r laws a by (now (length as_)) s before
                ready.0.0 ready.0.1 e in
            subst (λ (p : c.State × Result Text (Unit {0})). c.stored p.0 n ≡ c.stored s n)
              (sym (approve_each-ok c r a as_ by now s next e))
              (approve_each-Spared laws as_ by now next.0 n h.consistent
                  (Approves-IsReady c r laws by (now (length as_)) s next.0 a next.1 as_ h ready.1)
                  spared.1
                ∙ h.others n spared.0)
        | inr (x, e) ↦
            subst (λ (p : c.State × Result Text (Unit {0})). c.stored p.0 n ≡ c.stored s n)
              (sym (approve_each-err c r a as_ by now s x e)) refl
      ]

  moved :
      (s t : c.State) (a : WorkflowApplication)
      → c.stored t (map_name a.id) ≡ c.stored s (map_name a.id)
      → IsStored c r s a
      → IsStored c r t a
  moved s t a e h = record {
    map = h.map;
    found = e ∙ h.found;
    selected = h.selected;
    reads = h.reads;
  }

  -- two applications that share a name, where one is approved and one pending, are not both stored
  spared_by_status :
      (s : c.State) (a b : WorkflowApplication)
      → IsStored c r s a
      → IsStored c r s b
      → a.status ≡ approved
      → b.status ≡ pending
      → (map_name b.id == map_name a.id) ≡ false
  spared_by_status s a b ha hb done still = elim (Bool-cases (map_name b.id == map_name a.id)) [
    | inl e ↦
        let same : b ≡ a =
          same_map c r s b a hb ha ((text_beq_iff (map_name b.id) (map_name a.id)).0 e) in
        absurd (
          approved_or_pending done
            (subst (λ (x : WorkflowApplication). x.status ≡ pending) same still))
    | inr e ↦ e
  ]

  abbrev Survives : WorkflowApplication → (c.State × Result Text ℕ) → Type 0
  Survives a p = IsStored c r p.0 a

  accept_all-keeps :
      Laws c
      → (by : Text) (now : ℕ → Text) (s : c.State) (a : WorkflowApplication) → IsConsistent c r s
      → IsStored c r s a
      → a.status ≡ approved
      → Survives a (approve_all_pending_workflow_applications c r by now s)
  accept_all-keeps laws by now s a before stored done =
      elim (Result-cases (list_workflow_applications c r (with_status pending) s)) [
        | inl (as_, e) ↦
            let listed = list-IsWanted c r laws (with_status pending) s e in
            let spared : Spared (map_name a.id) as_ =
              All-Member c r {P = λ b. (map_name b.id == map_name a.id) ≡ false} as_ (λ b w.
                let h = (listed b).0 w in
                spared_by_status s a b stored h.0 done ((wanted_iff pending b).0 h.1)) in
            subst (Survives a) (sym (approve_all-ok c r by now s as_ e)) (
              moved s (approve_each c r as_ by now s).0 a
                (approve_each-Spared laws as_ by now s (map_name a.id) before
                  (listed-IsReady c r laws s as_ e) spared)
                stored)
        | inr (x, e) ↦ subst (Survives a) (sym (approve_all-err c r by now s x e)) stored
      ]

  -- `b` is what an approval has made of an application that was read, with the identifier of `a`,
  -- while it was pending.
  pub record IsOverwritten (a b : WorkflowApplication) : Type 0 where
    pub read : WorkflowApplication
    pub was_read : IsRead c r read
    pub was_pending : read.status ≡ pending
    pub same_id : read.id ≡ a.id
    pub by : Text
    pub now : Text
    pub overwrites : b ≡ record read {
      approved_at = some (trim now);
      approved_by = some (trim by);
      status = approved;
    }

  accept-keeps :
      Laws c
      → (s t : c.State) (a b x : WorkflowApplication) (by now : Text) → IsConsistent c r s
      → IsStored c r s a
      → IsStored c r t b
      → b.id ≡ a.id
      → IsRead c r x
      → x.status ≡ pending
      → (d : WorkflowApplication) → Approves c r by now s t x d
      → (b ≡ a) ⊎ IsOverwritten a b
  accept-keeps laws s t a b x by now before stored later same read status d h =
      elim (Bool-cases (map_name x.id == map_name a.id)) [
        | inl e ↦
            let named = (text_beq_iff (map_name x.id) (map_name a.id)).0 e in
            let done : d.id ≡ x.id = ap (λ (d : WorkflowApplication). d.id) h.is_approval in
            let there : map_name b.id ≡ map_name d.id =
              ap map_name same ∙ sym named ∙ sym (ap map_name done) in
            inr (record {
              read = x;
              was_read = read;
              was_pending = status;
              same_id = map_name_injective x.id a.id named;
              by = by;
              now = now;
              overwrites = same_map c r t b d later h.is_stored there ∙ h.is_approval;
            })
        | inr other ↦ inl (
            same_map c r t b a later (moved s t a (h.others (map_name a.id) other) stored)
              (ap map_name same))
      ]

  step_keeps :
      Laws c
      → (s t : c.State) (a b : WorkflowApplication) → IsConsistent c r s
      → Step c r s t
      → IsStored c r s a
      → a.status ≡ approved
      → IsStored c r t b
      → b.id ≡ a.id
      → (b ≡ a) ⊎ IsOverwritten a b
  step_keeps laws s t a b before (submit template payload by now uuid {a = new} h) stored done later
        same =
      let made =
        create_workflow_application-Created c r laws template payload by now uuid s before h in
      inl (
        same_map c r t b a later (moved s t a (kept made.only_this made.is_new) stored)
          (ap map_name same))
    where
      kept :
          ((n : Text)
            → c.stored t n
              ≡ (if map_name new.id == n then some (config_map_of new) else c.stored s n))
          → c.stored s (map_name new.id) ≡ none
          → c.stored t (map_name a.id) ≡ c.stored s (map_name a.id)
      kept put fresh = elim (Bool-cases (map_name new.id == map_name a.id)) [
        | inl e ↦
            let n = (text_beq_iff (map_name new.id) (map_name a.id)).0 e in
            let none_there : none ≡ some stored.map =
              sym (subst (λ n. c.stored s n ≡ none) n fresh) ∙ stored.found in
            cc
        | inr e ↦ rw e at (put (map_name a.id))
      ]
  step_keeps laws s t a b before (accept by now {a = x} {d} read h) stored done later same =
      elim (Status-cases c r x.status) [
        | inl p ↦
            accept-keeps laws s t a b x by now before stored later same read p d
              (accept-Approves c r laws x by now s before read p h)
        | inr p ↦
            let e = ok-injective (sym (mark_approved c r x by now s p) ∙ h) in
            inl (
              same_map c r t b a later
                (subst (λ (q : c.State × WorkflowApplication). IsStored c r q.0 a) e stored)
                (ap map_name same))
      ]
  step_keeps laws s t a b before (delete_listed earlier some_of e among h) stored done later same =
      let drop = delete_applications-Drops c r laws some_of s h in
      let old =
        (Drops-stored c r (names_of some_of) s t (map_name b.id) later.map drop later.found).0 in
      inl (
        same_map c r s b a
          (record { map = later.map; found = old; selected = later.selected; reads = later.reads })
          stored (ap map_name same))
  step_keeps laws s t a b before (accept_all by now h) stored done later same = inl (
      same_map c r t b a later
        (subst (Survives a) h (accept_all-keeps laws by now s a before stored done))
        (ap map_name same))
  step_keeps laws s t a b before (clean_up h) stored done later same = inl (
      same_map c r s b a ((delete_approved-Deleted c r laws s before h).remaining b later).0 stored
        (ap map_name same))

  -- In a consistent store, an approved application is changed only by an approval that has
  -- read it while it was pending: whatever application is stored under its identifier after
  -- any step, also one of a request that read at another time, is that application, with the
  -- same approver and time, or is what such an approval makes of the one that it read. It is
  -- approved in either case.
  pub Step-keeps_approved :
      Laws c
      → (s t : c.State) (a b : WorkflowApplication) → IsConsistent c r s
      → Step c r s t
      → IsStored c r s a
      → a.status ≡ approved
      → IsStored c r t b
      → b.id ≡ a.id
      → ((b ≡ a) ⊎ IsOverwritten a b) × (b.status ≡ approved)
  Step-keeps_approved laws s t a b before step stored done later same =
      let kept = step_keeps laws s t a b before step stored done later same in (kept, still kept)
    where
      still : (b ≡ a) ⊎ IsOverwritten a b → b.status ≡ approved
      still (inl e) = ap (λ (a : WorkflowApplication). a.status) e ∙ done
      still (inr o) = ap (λ (a : WorkflowApplication). a.status) o.overwrites
