-- ===== src/Hub/Workflow/Reach.antt =====
-- The cluster along any sequence of the hub's requests on workflow applications
-- (components/idthw_hub/app/api/permission-requests, workflow-demo and workflow-templates).
use id_jag_the_hard_way.Base.{
  ℕ, ◌≡◌, refl, sym, ap, ◌∙◌, subst, not, Option, none, some, List, Member, inl, inr, ◌⊎◌, Result,
  ok, throw_if, >>=-eq-ok, ok-injective,
}
use id_jag_the_hard_way.Base.Text.{Text, text_eq, lit}
use id_jag_the_hard_way.Base.Text.Search.{starts_with-append}
use id_jag_the_hard_way.Base.Json.{Value}
use id_jag_the_hard_way.Hub.Cluster.{ConfigMap, Cluster, Laws}
use id_jag_the_hard_way.Hub.Input.{Runtime, is_application_id}
use id_jag_the_hard_way.Hub.Workflow.{
  WorkflowApplication, WorkflowApplicationStatus, pending, approved, approved_workflow_application,
}
use id_jag_the_hard_way.Hub.Workflow.Valid.{IsApplication}
use id_jag_the_hard_way.Hub.Workflow.Answers.{WorkflowFormTemplate, not_found, failing}
use id_jag_the_hard_way.Hub.Workflow.Store.{
  application_prefix, map_name, application_from_config_map, or_missing, get_workflow_application,
  create_workflow_application, mark_workflow_application_approved,
  approve_all_pending_workflow_applications, delete_approved_workflow_applications,
  list_workflow_applications, with_status, delete_applications, approve, approval_patch,
}
use id_jag_the_hard_way.Hub.Workflow.Maps.{application_from_config_map-eq-ok}
use id_jag_the_hard_way.Hub.Workflow.Listing.{IsStored, list-IsWanted}
use id_jag_the_hard_way.Hub.Workflow.Lifecycle.{
  IsConsistent, IsNamed, Approves, mark_pending, failing-eq-ok, create_workflow_application-Created,
  mark_workflow_application_approved-Approves, mark_approved,
}
use id_jag_the_hard_way.Hub.Workflow.Sweeps.{approve_all-SweptAll, map_name_injective}
use id_jag_the_hard_way.Hub.Workflow.Deletion.{
  names_of, delete_applications-Drops, Drops-stored, delete_approved-Deleted,
}

or_missing-eq-ok : {A : Type 0} (o : Option A) {a : A} → or_missing o ≡ ok a → o ≡ some a
or_missing-eq-ok none h = cc
or_missing-eq-ok (some b) h = ap some (ok-injective h)

module _ (c : Cluster) (r : Runtime) where
  pub get_workflow_application-IsStored :
      Laws c
      → (id : Text) (s : c.State) {a : WorkflowApplication} → IsConsistent c r s
      → get_workflow_application c r id s ≡ ok a
      → IsStored c r s a × (a.id ≡ id)
  unfolding get_workflow_application
  get_workflow_application-IsStored laws id s {a} before h =
      let (_, _, h) =
        >>=-eq-ok
          (throw_if (not (is_application_id id)) (not_found (lit "Workflow application not found")))
          _ h in
      let (found, e, h) = >>=-eq-ok (failing (c.fetch s (map_name id))) _ h in
      let (m, f, h) = >>=-eq-ok (or_missing found) _ h in
      let there : c.stored s (map_name id) ≡ some m =
        sym (laws.fetch_lem s (map_name id) (failing-eq-ok _ e)) ∙ or_missing-eq-ok found f in
      read m there (failing-eq-ok _ h)
    where
      read :
          (m : ConfigMap)
          → c.stored s (map_name id) ≡ some m
          → application_from_config_map r m ≡ ok a
          → IsStored c r s a × (a.id ≡ id)
      read m there reads =
          let name : map_name a.id ≡ map_name id =
            sym (application_from_config_map-eq-ok r m reads).0
            ∙ laws.stored_name s (map_name id) there in
          (
            record {
              map = m;
              found = subst (λ n. c.stored s n ≡ some m) (sym name) there;
              selected =
                  before.labelled (map_name id) m there (starts_with-append application_prefix id);
              reads = reads;
            },
            map_name_injective a.id id name,
          )

  -- An application that a request has read, at any time: by its identifier, or as one of those that
  -- were pending.
  pub data IsRead (a : WorkflowApplication) : Type 0 where
    fetched : (s : c.State) (id : Text) → get_workflow_application c r id s ≡ ok a → IsRead a
    listed :
        (s : c.State) {as_ : List WorkflowApplication}
        → list_workflow_applications c r (with_status pending) s ≡ ok as_
        → Member a as_
        → IsRead a

  -- What requests of signed-in users do to the cluster. A request that approves or deletes has read
  -- before, and other steps may have happened since: `accept` is one approval, also a round of an
  -- approval of all, and `delete_listed` deletes any of the applications that a clean-up has
  -- listed. `accept_all` and `clean_up` are those requests with nothing in between. A command is
  -- taken together with its review.
  pub data Step : c.State → c.State → Type 0 where
    submit :
        {s t : c.State} (template : WorkflowFormTemplate) (payload : Value) (by now uuid : Text)
        {a : WorkflowApplication}
        → create_workflow_application c r template payload by now uuid s ≡ ok (t, a)
        → Step s t
    accept :
        {s t : c.State} (by now : Text) {a d : WorkflowApplication}
        → IsRead a
        → mark_workflow_application_approved c r a by now s ≡ ok (t, d)
        → Step s t
    accept_all :
        {s t : c.State} (by : Text) (now : ℕ → Text) {outcome : Result Text ℕ}
        → approve_all_pending_workflow_applications c r by now s ≡ (t, outcome)
        → Step s t
    delete_listed :
        {s t : c.State} {n : ℕ} (before : c.State) {as_ : List WorkflowApplication}
        (some_of : List WorkflowApplication)
        → list_workflow_applications c r (with_status approved) before ≡ ok as_
        → ((a : WorkflowApplication) → Member a some_of → Member a as_)
        → delete_applications c r some_of s ≡ ok (t, n)
        → Step s t
    clean_up :
        {s t : c.State} {n : ℕ} → delete_approved_workflow_applications c r s ≡ ok (t, n) → Step s t

  pub data Reach : c.State → c.State → Type 0 where
    start : {s : c.State} → Reach s s
    next : {s t u : c.State} → Reach s t → Step t u → Reach s u

  pub Status-cases : (s : WorkflowApplicationStatus) → (s ≡ pending) ⊎ (s ≡ approved)
  Status-cases pending = inl refl
  Status-cases approved = inr refl

  pub IsRead-IsApplication : Laws c → (a : WorkflowApplication) → IsRead a → IsApplication r a
  unfolding get_workflow_application
  IsRead-IsApplication laws a (fetched s id h) =
      let (_, _, h) =
        >>=-eq-ok
          (throw_if (not (is_application_id id)) (not_found (lit "Workflow application not found")))
          _ h in
      let (found, _, h) = >>=-eq-ok (failing (c.fetch s (map_name id))) _ h in
      let (m, _, h) = >>=-eq-ok (or_missing found) _ h in
      (application_from_config_map-eq-ok r m (failing-eq-ok _ h)).1
  IsRead-IsApplication laws a (listed s h w) =
      let stored = ((list-IsWanted c r laws (with_status pending) s h a).0 w).0 in
      (application_from_config_map-eq-ok r stored.map stored.reads).1

  -- A patch that succeeds finds a map, whatever has happened since the application was read.
  mark-IsNamed :
      Laws c
      → (a : WorkflowApplication) (by now : Text) (s : c.State) {t : c.State}
        {d : WorkflowApplication}
      → IsConsistent c r s
      → IsApplication r a
      → a.status ≡ pending
      → mark_workflow_application_approved c r a by now s ≡ ok (t, d)
      → IsNamed c r s a
  unfolding approve
  mark-IsNamed laws a by now s {t} {d} before valid status h =
      let h : approve c r a by now s ≡ ok (t, d) = sym (mark_pending c r a by now s status) ∙ h in
      let (b, _, h) = >>=-eq-ok (approved_workflow_application r a now by) _ h in
      let (_, _, h) = >>=-eq-ok (c.review_patch s (map_name a.id) (approval_patch b)) _ h in
      let (after, g, _) = >>=-eq-ok (c.patch s (map_name a.id) (approval_patch b)) _ h in
      let (m, found) = laws.patch_old s (map_name a.id) (approval_patch b) g in
      record {
        map = m;
        found = found;
        selected =
            before.labelled (map_name a.id) m found (starts_with-append application_prefix a.id);
        valid = valid;
      }

  -- An approval of an application that was read while it was pending
  pub accept-Approves :
      Laws c
      → (a : WorkflowApplication) (by now : Text) (s : c.State) {t : c.State}
        {d : WorkflowApplication}
      → IsConsistent c r s
      → IsRead a
      → a.status ≡ pending
      → mark_workflow_application_approved c r a by now s ≡ ok (t, d)
      → Approves c r by now s t a d
  accept-Approves laws a by now s before read status h =
      mark_workflow_application_approved-Approves c r laws a by now s before
        (mark-IsNamed laws a by now s before (IsRead-IsApplication laws a read) status h) status h

  mark-IsConsistent :
      Laws c
      → (a : WorkflowApplication) (by now : Text) (s : c.State) {t : c.State}
        {d : WorkflowApplication}
      → IsConsistent c r s
      → IsRead a
      → mark_workflow_application_approved c r a by now s ≡ ok (t, d)
      → IsConsistent c r t
  mark-IsConsistent laws a by now s {t} {d} before read h = elim (Status-cases a.status) [
    | inl e ↦ (accept-Approves laws a by now s before read e h).consistent
    | inr e ↦
        let same = ok-injective (sym (mark_approved c r a by now s e) ∙ h) in
        subst (λ (p : c.State × WorkflowApplication). IsConsistent c r p.0) same before
  ]

  pub delete-IsConsistent :
      Laws c
      → (as_ : List WorkflowApplication) (s : c.State) {t : c.State} {n : ℕ} → IsConsistent c r s
      → delete_applications c r as_ s ≡ ok (t, n)
      → IsConsistent c r t
  delete-IsConsistent laws as_ s {t} before h =
      let drop = delete_applications-Drops c r laws as_ s h in
      record {
        held = λ n m found. before.held n m (Drops-stored c r (names_of as_) s t n m drop found).0;
        labelled =
            λ n m found. before.labelled n m (Drops-stored c r (names_of as_) s t n m drop found).0;
      }

  pub Step-IsConsistent :
      Laws c → (s t : c.State) → IsConsistent c r s → Step s t → IsConsistent c r t
  Step-IsConsistent laws s t before (submit template payload by now uuid h) =
      (create_workflow_application-Created c r laws template payload by now uuid s before
        h).consistent
  Step-IsConsistent laws s t before (accept by now {a} read h) =
      mark-IsConsistent laws a by now s before read h
  Step-IsConsistent laws s t before (delete_listed earlier some_of e among h) =
      delete-IsConsistent laws some_of s before h
  Step-IsConsistent laws s t before (accept_all by now h) =
      subst (λ (p : c.State × Result Text ℕ). IsConsistent c r p.0) h
        (approve_all-SweptAll c r laws by now s before).consistent
  Step-IsConsistent laws s t before (clean_up h) =
      (delete_approved-Deleted c r laws s before h).consistent

  -- Along any sequence of submissions, approvals and deletions from a consistent store, which
  -- may act on applications that were read at another time, every map that is labelled as an
  -- application holds one that can be read, under its name and with the label of its status,
  -- and every map with the name of an application is labelled as one.
  pub Reach-IsConsistent :
      Laws c → (s t : c.State) → IsConsistent c r s → Reach s t → IsConsistent c r t
  Reach-IsConsistent laws s t before start = before
  Reach-IsConsistent laws s t before (next {t = m} h step) =
      Step-IsConsistent laws m t (Reach-IsConsistent laws s m before h) step
