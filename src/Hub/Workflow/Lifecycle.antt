-- ===== src/Hub/Workflow/Lifecycle.antt =====
-- The applications of the cluster along the operations on them
-- (components/idthw_hub/features/workflow/api/workflowApplications.ts).
use id_jag_the_hard_way.Base.{
  ◌≡◌, refl, sym, ap, ◌∙◌, subst, true, false, none, some, inl, inr, ◌⊎◌, Bool-cases, if◌then◌else◌,
  ◌==◌, Result, ok, err, >>=-eq-ok, ok-injective, arith,
}
use id_jag_the_hard_way.Base.Text.{Text, text_eq, starts_with, text_beq, trim}
use id_jag_the_hard_way.Base.Dict.{get, text_beq_refl}
use id_jag_the_hard_way.Base.Json.{Value}
use id_jag_the_hard_way.Hub.Cluster.{ConfigMap, merge, Cluster, Laws}
use id_jag_the_hard_way.Hub.Input.{Runtime}
use id_jag_the_hard_way.Hub.Workflow.{
  WorkflowApplication, pending, approved, approved_workflow_application, new_workflow_application,
}
use id_jag_the_hard_way.Hub.Workflow.Answers.{
  WorkflowFormTemplate, application_answers_from_payload, failing,
}
use id_jag_the_hard_way.Hub.Workflow.Store.{
  application_prefix, map_name, config_map_of, approval_patch,
  build_workflow_application_config_map, application_id, create_workflow_application, approve,
  mark_workflow_application_approved,
}
use id_jag_the_hard_way.Hub.Workflow.Valid.{IsApplication, parse_workflow_application-IsApplication}
use id_jag_the_hard_way.Hub.Workflow.RoundTrip.{approved_workflow_application-eq-ok}
use id_jag_the_hard_way.Hub.Workflow.Origin.{
  new_workflow_application-eq-ok, new_workflow_application-IsApplication,
}
use id_jag_the_hard_way.Hub.Workflow.Maps.{
  Holds, IsApplicationMap, config_map_of-Holds, merge-Holds, merge-IsApplicationMap, build-eq-ok,
}
use id_jag_the_hard_way.Hub.Workflow.Listing.{IsStored}

pub failing-eq-ok : {A : Type 0} (m : Result Text A) {a : A} → failing m ≡ ok a → m ≡ ok a
failing-eq-ok (ok b) h = rw (ok-injective h) refl
failing-eq-ok (err e) h = cc

module _ (c : Cluster) (r : Runtime) where
  -- Every map that is selected as an application holds one, with the label of its status; a map with
  -- the name of an application is selected.
  pub record IsConsistent (s : c.State) : Type 0 where
    pub held :
        (n : Text) (m : ConfigMap)
        → c.stored s n ≡ some m
        → IsApplicationMap m
        → (a : WorkflowApplication) × Holds r m a
    pub labelled :
        (n : Text) (m : ConfigMap)
        → c.stored s n ≡ some m
        → starts_with n application_prefix ≡ true
        → IsApplicationMap m

  -- Only the map of that name differs, and it is `m` now.
  abbrev pub Puts : Text → ConfigMap → (before after : c.State) → Type 0
  Puts name m s t = (n : Text) → c.stored t n ≡ (if name == n then some m else c.stored s n)

  Puts-IsConsistent :
      (name : Text) (m : ConfigMap) (s t : c.State) (a : WorkflowApplication)
      → Puts name m s t
      → Holds r m a
      → IsApplicationMap m
      → IsConsistent s
      → IsConsistent t
  Puts-IsConsistent name m s t a put holds selected before = record {
    held = λ n k found labelled. elim (old_or_new n k found) [
      | inl e ↦ (a, subst (λ m. Holds r m a) e holds)
      | inr old ↦ before.held n k old labelled
    ];
    labelled = λ n k found named. elim (old_or_new n k found) [
      | inl e ↦ subst IsApplicationMap e selected
      | inr old ↦ before.labelled n k old named
    ];
  }
    where
      old_or_new :
          (n : Text) (k : ConfigMap) → c.stored t n ≡ some k → (m ≡ k) ⊎ (c.stored s n ≡ some k)
      old_or_new n k found = elim (Bool-cases (name == n)) [
        | inl same ↦
            let e : some m ≡ some k = sym (rw same at (put n)) ∙ found in inl (ground (arith, e))
        | inr other ↦ inr (sym (rw other at (put n)) ∙ found)
      ]

  pub Puts-there :
      (name : Text) (m : ConfigMap) (s t : c.State) → Puts name m s t → c.stored t name ≡ some m
  Puts-there name m s t put = let e = put name in rw (text_beq_refl name) at e

  -- `a` is new, pending and stored, and nothing else has changed.
  pub record Created (by : Text) (s t : c.State) (a : WorkflowApplication) : Type 0 where
    pub consistent : IsConsistent t
    pub is_stored : IsStored c r t a
    pub is_new : c.stored s (map_name a.id) ≡ none
    pub is_pending : a.status ≡ pending
    pub creator : a.created_by ≡ trim by
    pub only_this : Puts (map_name a.id) (config_map_of a) s t

  create_lem :
      Laws c
      → (by : Text) (s t : c.State) (a : WorkflowApplication) (m : ConfigMap) → IsConsistent s
      → IsApplication r a
      → a.status ≡ pending
      → a.created_by ≡ trim by
      → m ≡ config_map_of a
      → c.create s m ≡ ok t
      → Created by s t a
  create_lem laws by s t a m before valid status creator e h =
      let h : c.create s (config_map_of a) ≡ ok t = subst (λ m. c.create s m ≡ ok t) e h in
      let holds = config_map_of-Holds r a valid in
      let put : Puts (map_name a.id) (config_map_of a) s t =
        laws.create_lem s (config_map_of a) h in
      record {
        consistent =
            Puts-IsConsistent (map_name a.id) (config_map_of a) s t a put holds
              (unfold get text_beq in refl) before;
        is_stored = record {
          map = config_map_of a;
          found = Puts-there (map_name a.id) (config_map_of a) s t put;
          selected = unfold get text_beq in refl;
          reads = holds.reads;
        };
        is_new = laws.create_new s (config_map_of a) h;
        is_pending = status;
        creator = creator;
        only_this = put;
      }

  -- A submission to a consistent store that succeeds stores a pending application of its
  -- creator under a name that was free, changes nothing else, and leaves the store consistent.
  pub create_workflow_application-Created :
      Laws c
      → (template : WorkflowFormTemplate) (payload : Value) (by now uuid : Text) (s : c.State)
        {t : c.State} {a : WorkflowApplication}
      → IsConsistent s
      → create_workflow_application c r template payload by now uuid s ≡ ok (t, a)
      → Created by s t a
  unfolding create_workflow_application
  create_workflow_application-Created laws template payload by now uuid s {t} {a} before h =
      let (answers, _, h) = >>=-eq-ok (application_answers_from_payload template payload) _ h in
      let (b, e, h) =
        >>=-eq-ok
          (failing (
            new_workflow_application r answers now by (application_id now uuid)
              template.operator_procedure_url template.subject template.id template.version))
          _ h in
      let (m, f, h) = >>=-eq-ok (failing (build_workflow_application_config_map r b)) _ h in
      let (_, _, h) = >>=-eq-ok (failing (c.review_create s m)) _ h in
      let (after, g, h) = >>=-eq-ok (failing (c.create s m)) _ h in
      let e = failing-eq-ok _ e in
      let valid = new_workflow_application-IsApplication r answers now by _ _ _ _ _ e in
      let (status, creator, _, _) = new_workflow_application-eq-ok r answers now by _ _ _ _ _ e in
      subst (λ (p : c.State × WorkflowApplication). Created by s p.0 p.1) (ok-injective h)
        (create_lem laws by s after b m before valid status creator
          (build-eq-ok r b valid (failing-eq-ok _ f)) (failing-eq-ok _ g))

  -- The application is one of a stored map, whatever that holds by now.
  pub record IsNamed (s : c.State) (a : WorkflowApplication) : Type 0 where
    pub map : ConfigMap
    pub found : c.stored s (map_name a.id) ≡ some map
    pub selected : IsApplicationMap map
    pub valid : IsApplication r a

  -- `d` is the approval of `a` by `by` and is stored, and nothing else has changed.
  pub record Approves (by now : Text) (s t : c.State) (a d : WorkflowApplication) : Type 0 where
    pub consistent : IsConsistent t
    pub is_stored : IsStored c r t d
    pub is_approval : d ≡ record a {
      approved_at = some (trim now);
      approved_by = some (trim by);
      status = approved;
    }
    pub others : (n : Text) → (map_name a.id == n) ≡ false → c.stored t n ≡ c.stored s n

  approve_lem :
      Laws c
      → (by now : Text) (s t : c.State) (a d : WorkflowApplication) → IsConsistent s
      → (named : IsNamed s a)
      → d ≡ record a {
        approved_at = some (trim now);
        approved_by = some (trim by);
        status = approved;
      }
      → IsApplication r d
      → c.patch s (map_name a.id) (approval_patch d) ≡ ok t
      → Approves by now s t a d
  approve_lem laws by now s t a d before named e valid h =
      let m = named.map in
      let done : d.status ≡ approved = ap (λ (d : WorkflowApplication). d.status) e in
      let same : d.id ≡ a.id = ap (λ (d : WorkflowApplication). d.id) e in
      let name : m.name ≡ map_name d.id =
        laws.stored_name s (map_name a.id) named.found ∙ ap map_name (sym same) in
      let holds = merge-Holds r m d valid done name in
      let put : Puts (map_name a.id) (merge m (approval_patch d)) s t =
        laws.patch_lem s (map_name a.id) (approval_patch d) h named.found in
      let there = Puts-there (map_name a.id) (merge m (approval_patch d)) s t put in
      record {
        consistent =
            Puts-IsConsistent (map_name a.id) (merge m (approval_patch d)) s t d put holds
              (merge-IsApplicationMap m d named.selected) before;
        is_stored = record {
          map = merge m (approval_patch d);
          found =
              subst (λ n. c.stored t (map_name n) ≡ some (merge m (approval_patch d))) (sym same)
                there;
          selected = merge-IsApplicationMap m d named.selected;
          reads = holds.reads;
        };
        is_approval = e;
        others = λ n other. rw other at (put n);
      }

  pub mark_pending :
      (a : WorkflowApplication) (by now : Text) (s : c.State)
      → a.status ≡ pending
      → mark_workflow_application_approved c r a by now s ≡ approve c r a by now s
  unfolding mark_workflow_application_approved
  mark_pending a by now s e = rw e refl

  pub mark_approved :
      (a : WorkflowApplication) (by now : Text) (s : c.State)
      → a.status ≡ approved
      → mark_workflow_application_approved c r a by now s ≡ ok (s, a)
  unfolding mark_workflow_application_approved
  mark_approved a by now s e = rw e refl

  -- Approving a valid pending application whose map a consistent store holds, where it
  -- succeeds, stores that application with the approver and the time, trimmed, as its only
  -- changes, and changes no other map.
  pub mark_workflow_application_approved-Approves :
      Laws c
      → (a : WorkflowApplication) (by now : Text) (s : c.State) {t : c.State}
        {d : WorkflowApplication}
      → IsConsistent s
      → IsNamed s a
      → a.status ≡ pending
      → mark_workflow_application_approved c r a by now s ≡ ok (t, d)
      → Approves by now s t a d
  unfolding mark_workflow_application_approved approve approved_workflow_application
  mark_workflow_application_approved-Approves laws a by now s {t} {d} before named status h =
      let h : approve c r a by now s ≡ ok (t, d) = sym (mark_pending a by now s status) ∙ h in
      let (b, e, h) = >>=-eq-ok (approved_workflow_application r a now by) _ h in
      let (_, _, h) = >>=-eq-ok (c.review_patch s (map_name a.id) (approval_patch b)) _ h in
      let (after, g, h) = >>=-eq-ok (c.patch s (map_name a.id) (approval_patch b)) _ h in
      subst (λ (p : c.State × WorkflowApplication). Approves by now s p.0 a p.1) (ok-injective h)
        (approve_lem laws by now s after a b before named
          (approved_workflow_application-eq-ok r a now by named.valid.form e)
          (parse_workflow_application-IsApplication r _ e) g)
