-- ===== src/Hub/Workflow/Deletion.antt =====
-- Deleting the approved applications
-- (components/idthw_hub/features/workflow/api/workflowApplications.ts).
use id_jag_the_hard_way.Base.{
  ℕ, ◌≡◌, refl, sym, ap, ◌∙◌, subst, true, false, none, some, List, [], ◌∷◌, inl, inr, ◌↔◌, Member,
  map, includes, includes_iff, Bool-cases, if◌then◌else◌, ok, >>=-eq-ok, ok-injective, arith,
}
use id_jag_the_hard_way.Base.Text.{Text, text_eq}
use id_jag_the_hard_way.Hub.Cluster.{ConfigMap, Cluster, Laws}
use id_jag_the_hard_way.Hub.Input.{Runtime}
use id_jag_the_hard_way.Hub.Workflow.{
  WorkflowApplication, WorkflowApplicationStatus, pending, approved,
}
use id_jag_the_hard_way.Hub.Workflow.Store.{
  map_name, application_from_config_map, is_wanted, with_status, list_workflow_applications,
  delete_applications, delete_approved_workflow_applications,
}
use id_jag_the_hard_way.Hub.Workflow.Listing.{IsStored, list-IsWanted}
use id_jag_the_hard_way.Hub.Workflow.Lifecycle.{IsConsistent}
use id_jag_the_hard_way.Hub.Workflow.Sweeps.{wanted_iff, approved_or_pending}

abbrev pub names_of : List WorkflowApplication → List Text
names_of = map (λ a. map_name a.id)

Member-names_of :
    (as_ : List WorkflowApplication) (n : Text)
    → Member n (names_of as_)
    → (a : WorkflowApplication) × Member a as_ × (map_name a.id ≡ n)
Member-names_of [] n h = absurd h
Member-names_of (a ∷ as_) n (inl e) = (a, inl refl, e)
Member-names_of (a ∷ as_) n (inr h) = let (b, w, e) = Member-names_of as_ n h in (b, inr w, e)

names_of-Member :
    (as_ : List WorkflowApplication) (a : WorkflowApplication)
    → Member a as_
    → Member (map_name a.id) (names_of as_)
names_of-Member [] a h = absurd h
names_of-Member (b ∷ as_) a (inl e) = inl (ap (λ (a : WorkflowApplication). map_name a.id) e)
names_of-Member (b ∷ as_) a (inr h) = inr (names_of-Member as_ a h)

pending_of : (s : WorkflowApplicationStatus) → ¬ (s ≡ approved) → s ≡ pending
pending_of pending h = refl
pending_of approved h = absurd (h refl)

module _ (c : Cluster) (r : Runtime) where
  -- a store without the maps of those names
  abbrev pub Drops : List Text → (before after : c.State) → Type 0
  Drops names s t = (n : Text) → c.stored t n ≡ (if includes names n then none else c.stored s n)

  pub delete_applications-Drops :
      Laws c
      → (as_ : List WorkflowApplication) (s : c.State) {t : c.State} {n : ℕ}
      → delete_applications c r as_ s ≡ ok (t, n)
      → Drops (names_of as_) s t
  unfolding delete_applications
  delete_applications-Drops laws [] s {t} h n =
      ap (λ (p : c.State × ℕ). c.stored p.0 n) (sym (ok-injective h))
  delete_applications-Drops laws (a ∷ as_) s {t} h n =
      let (_, _, h) = >>=-eq-ok (c.review_delete s (names_of (a ∷ as_))) _ h in
      let (u, e, h) = >>=-eq-ok (c.delete s (names_of (a ∷ as_))) _ h in
      subst
        (λ (p : c.State × ℕ).
          c.stored p.0 n ≡ (if includes (names_of (a ∷ as_)) n then none else c.stored s n))
        (ok-injective h) (laws.delete_lem s (names_of (a ∷ as_)) e n)

  pub Drops-stored :
      (names : List Text) (s t : c.State) (n : Text) (m : ConfigMap)
      → Drops names s t
      → c.stored t n ≡ some m
      → (c.stored s n ≡ some m) × (includes names n ≡ false)
  Drops-stored names s t n m drop h = elim (Bool-cases (includes names n)) [
    | inl e ↦ let gone : none ≡ some m = sym (rw e at (drop n)) ∙ h in cc
    | inr e ↦ (sym (rw e at (drop n)) ∙ h, e)
  ]

  Drops-IsStored :
      (names : List Text) (s t : c.State) (a : WorkflowApplication)
      → Drops names s t
      → IsStored c r s a
      → includes names (map_name a.id) ≡ false
      → IsStored c r t a
  Drops-IsStored names s t a drop h e = record {
    map = h.map;
    found = (rw e at (drop (map_name a.id))) ∙ h.found;
    selected = h.selected;
    reads = h.reads;
  }

  -- After a deletion
  pub record Deleted (s t : c.State) : Type 0 where
    pub consistent : IsConsistent c r t
    pub kept : (a : WorkflowApplication) → IsStored c r s a → a.status ≡ pending → IsStored c r t a
    pub remaining :
        (a : WorkflowApplication) → IsStored c r t a → IsStored c r s a × (a.status ≡ pending)

  pub same_map :
      (s : c.State) (a b : WorkflowApplication)
      → IsStored c r s a
      → IsStored c r s b
      → map_name a.id ≡ map_name b.id
      → a ≡ b
  same_map s a b ha hb e =
      let maps : some ha.map ≡ some hb.map =
        sym (subst (λ n. c.stored s n ≡ some ha.map) e ha.found) ∙ hb.found in
      let maps : ha.map ≡ hb.map = ground (arith, maps) in
      ok-injective
        (sym ha.reads ∙ subst (λ m. application_from_config_map r m ≡ ok b) (sym maps) hb.reads)

  -- A clean-up of a consistent store that succeeds keeps every pending application, leaves no
  -- approved one, and leaves the store consistent.
  pub delete_approved-Deleted :
      Laws c
      → (s : c.State) {t : c.State} {n : ℕ} → IsConsistent c r s
      → delete_approved_workflow_applications c r s ≡ ok (t, n)
      → Deleted s t
  unfolding delete_approved_workflow_applications
  delete_approved-Deleted laws s {t} {n} before h =
      let (as_, e, h) = >>=-eq-ok (list_workflow_applications c r (with_status approved) s) _ h in
      let listed = list-IsWanted c r laws (with_status approved) s e in
      let drop : Drops (names_of as_) s t = delete_applications-Drops laws as_ s h in
      record {
        consistent = record {
          held = λ n m found. before.held n m (Drops-stored (names_of as_) s t n m drop found).0;
          labelled =
              λ n m found. before.labelled n m (Drops-stored (names_of as_) s t n m drop found).0;
        };
        kept = λ a stored status.
            Drops-IsStored (names_of as_) s t a drop stored (keeps as_ a stored status listed);
        remaining = λ a stored.
            let (found, e) =
              Drops-stored (names_of as_) s t (map_name a.id) stored.map drop stored.found in
            let old : IsStored c r s a = record {
              map = stored.map;
              found = found;
              selected = stored.selected;
              reads = stored.reads;
            } in
            (
              old,
              pending_of a.status (λ done.
                  let w =
                    (includes_iff (names_of as_) (map_name a.id)).1 (
                      names_of-Member as_ a ((listed a).1 (old, (wanted_iff approved a).1 done))) in
                  cc (sym e ∙ w)),
            );
      }
    where
      keeps :
          (as_ : List WorkflowApplication) (a : WorkflowApplication)
          → IsStored c r s a
          → a.status ≡ pending
          → ((b : WorkflowApplication)
              → Member b as_ ↔ (IsStored c r s b × (is_wanted (with_status approved) b ≡ true)))
          → includes (names_of as_) (map_name a.id) ≡ false
      keeps as_ a stored status listed =
          elim (Bool-cases (includes (names_of as_) (map_name a.id))) [
            | inl e ↦
                let (b, w, named) =
                  Member-names_of as_ (map_name a.id)
                    ((includes_iff (names_of as_) (map_name a.id)).0 e) in
                let (sb, wanted) = (listed b).0 w in
                let same : b ≡ a = same_map s b a sb stored named in
                let done : b.status ≡ approved = (wanted_iff approved b).0 wanted in
                absurd (
                  approved_or_pending done
                    (subst (λ (x : WorkflowApplication). x.status ≡ pending) (sym same) status))
            | inr e ↦ e
          ]
