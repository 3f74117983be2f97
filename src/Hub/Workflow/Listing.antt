-- ===== src/Hub/Workflow/Listing.antt =====
-- Which applications `listWorkflowApplications` gives
-- (components/idthw_hub/features/workflow/api/workflowApplications.ts).
use id_jag_the_hard_way.Base.{
  Option, none, [], ◌≢◌, ◌≡◌, refl, sym, ◌∙◌, subst, Bool, true, some, List, [], ◌∷◌, inl, inr, ◌↔◌,
  Member, keep_if, Bool-cases, ok, >>=-eq-ok, ok-injective, arith,
}
use id_jag_the_hard_way.Hub.Cluster.{ConfigMap, Cluster, Laws}
use id_jag_the_hard_way.Hub.Input.{Runtime}
use id_jag_the_hard_way.Base.Text.{Text, text_eq, text_beq_iff}
use id_jag_the_hard_way.Hub.Workflow.{
  WorkflowApplication, WorkflowApplicationStatus, pending, approved,
}
use id_jag_the_hard_way.Hub.Workflow.Store.{
  resource_label, application_resource, map_name, application_from_config_map, Filters, same_text,
  same_status, status_eq, is_wanted, applications_from, place, sort_applications,
  list_workflow_applications,
}
use id_jag_the_hard_way.Hub.Workflow.Maps.{IsApplicationMap, application_from_config_map-eq-ok}

Member-keep_if :
    {A : Type 0} (p : A → Bool) (xs : List A) (a : A)
    → Member a (keep_if p xs) ↔ (Member a xs × (p a ≡ true))
Member-keep_if p [] a = ground arith
Member-keep_if p (x ∷ xs) a = elim (Bool-cases (p x)) [
  | inl e ↦ rw e (ground (arith, Member-keep_if p xs a, e))
  | inr e ↦ rw e (ground (arith, Member-keep_if p xs a, e))
]

Member-place :
    (r : Runtime) (b : WorkflowApplication) (bs : List WorkflowApplication)
    (a : WorkflowApplication)
    → Member a (place r b bs) ↔ Member a (b ∷ bs)
unfolding place
Member-place r b [] a = ground arith
Member-place r b (x ∷ bs) a = ground (arith, Member-place r b bs a)

Member-sort :
    (r : Runtime) (bs : List WorkflowApplication) (a : WorkflowApplication)
    → Member a (sort_applications r bs) ↔ Member a bs
unfolding sort_applications
Member-sort r [] a = ground arith
Member-sort r (b ∷ bs) a =
    ground (arith, Member-place r b (sort_applications r bs) a, Member-sort r bs a)

applications_from_sound :
    (r : Runtime) (ms : List ConfigMap) {as_ : List WorkflowApplication} (a : WorkflowApplication)
    → applications_from r ms ≡ ok as_
    → Member a as_
    → (m : ConfigMap) × Member m ms × (application_from_config_map r m ≡ ok a)
unfolding applications_from
applications_from_sound r [] a h w = absurd (subst (Member a) (sym (ok-injective h)) w)
applications_from_sound r (m ∷ ms) a h w =
    let (b, e, h) = >>=-eq-ok (application_from_config_map r m) _ h in
    let (bs, f, h) = >>=-eq-ok (applications_from r ms) _ h in
    let w : Member a (b ∷ bs) = subst (Member a) (sym (ok-injective h)) w in
    elim w [
      | inl same ↦ (m, inl refl, subst (λ a. application_from_config_map r m ≡ ok a) same e)
      | inr later ↦ let (n, k, g) = applications_from_sound r ms a f later in (n, inr k, g)
    ]

applications_from_complete :
    (r : Runtime) (ms : List ConfigMap) {as_ : List WorkflowApplication} (m : ConfigMap)
    → applications_from r ms ≡ ok as_
    → Member m ms
    → (a : WorkflowApplication) × Member a as_ × (application_from_config_map r m ≡ ok a)
unfolding applications_from
applications_from_complete r [] m h w = absurd w
applications_from_complete r (n ∷ ms) {as_} m h w =
    let (b, e, h) = >>=-eq-ok (application_from_config_map r n) _ h in
    let (bs, f, h) = >>=-eq-ok (applications_from r ms) _ h in
    subst
      (λ as_. (a : WorkflowApplication) × Member a as_ × (application_from_config_map r m ≡ ok a))
      (ok-injective h)
      (elim w [
        | inl same ↦ (b, inl refl, subst (λ n. application_from_config_map r n ≡ ok b) same e)
        | inr later ↦ let (a, k, g) = applications_from_complete r ms m f later in (a, inr k, g)
      ])

listed_iff :
    (r : Runtime) (f : Filters) (ms : List ConfigMap) {bs as_ : List WorkflowApplication}
    → applications_from r ms ≡ ok bs
    → sort_applications r (keep_if (is_wanted f) bs) ≡ as_
    → (a : WorkflowApplication) → Member a as_ ↔ (Member a bs × (is_wanted f a ≡ true))
listed_iff r f ms {bs} read e a =
    subst (λ as_. Member a as_ ↔ (Member a bs × (is_wanted f a ≡ true))) e
      (ground
        (arith, Member-sort r (keep_if (is_wanted f) bs) a, Member-keep_if (is_wanted f) bs a))

-- The filters that are given are met: an empty text is no filter.
pub record Fits (f : Filters) (a : WorkflowApplication) : Type 0 where
  pub creator_fits : (t : Text) → f.created_by ≡ some t → t ≢ [] → a.created_by ≡ t
  pub status_fits : (t : WorkflowApplicationStatus) → f.status ≡ some t → a.status ≡ t
  pub template_fits : (t : Text) → f.template_id ≡ some t → t ≢ [] → a.template_id ≡ t

same_text_iff :
    (o : Option Text) (u : Text)
    → (same_text o u ≡ true) ↔ ((t : Text) → o ≡ some t → t ≢ [] → u ≡ t)
same_text_iff none u = (λ h t e n. absurd (cc e), λ h. refl)
same_text_iff (some []) u = (λ h t e n. absurd (n (ground (arith, e))), λ h. refl)
same_text_iff (some (c ∷ s)) u = (
  λ h t e n. let e : c ∷ s ≡ t = ground (arith, e) in (text_beq_iff u (c ∷ s)).0 h ∙ e,
  λ h. (text_beq_iff u (c ∷ s)).1 (h (c ∷ s) refl (λ e. cc e)),
)

same_status_iff :
    (o : Option WorkflowApplicationStatus) (u : WorkflowApplicationStatus)
    → (same_status o u ≡ true) ↔ ((t : WorkflowApplicationStatus) → o ≡ some t → u ≡ t)
same_status_iff none u = (λ h t e. absurd (cc e), λ h. refl)
same_status_iff (some s) u = (
  λ h t e. let e : s ≡ t = ground (arith, e) in same_status_eq u s h ∙ e,
  λ h. subst (λ t. status_eq t s ≡ true) (sym (h s refl)) (status_eq_refl s),
)
  where
    same_status_eq : (s t : WorkflowApplicationStatus) → status_eq s t ≡ true → s ≡ t
    same_status_eq pending pending h = refl
    same_status_eq approved approved h = refl
    same_status_eq pending approved h = absurd (cc h)
    same_status_eq approved pending h = absurd (cc h)

    status_eq_refl : (s : WorkflowApplicationStatus) → status_eq s s ≡ true
    status_eq_refl pending = refl
    status_eq_refl approved = refl

is_wanted_iff : (f : Filters) (a : WorkflowApplication) → (is_wanted f a ≡ true) ↔ Fits f a
unfolding is_wanted
is_wanted_iff f a =
    let (c, c') = same_text_iff f.created_by a.created_by in
    let (s, s') = same_status_iff f.status a.status in
    let (t, t') = same_text_iff f.template_id a.template_id in
    (
      λ h. record {
        creator_fits = c (ground (arith, h));
        status_fits = s (ground (arith, h));
        template_fits = t (ground (arith, h));
      },
      λ h.
          let x = c' h.creator_fits in
          let y = s' h.status_fits in let z = t' h.template_fits in rw (x, y, z) refl,
    )

module _ (c : Cluster) (r : Runtime) where
  -- The application is stored under its name, with the label by which applications are selected.
  pub record IsStored (s : c.State) (a : WorkflowApplication) : Type 0 where
    pub map : ConfigMap
    pub found : c.stored s (map_name a.id) ≡ some map
    pub selected : IsApplicationMap map
    pub reads : application_from_config_map r map ≡ ok a

  pub list-IsWanted :
      Laws c
      → (f : Filters) (s : c.State) {as_ : List WorkflowApplication}
      → list_workflow_applications c r f s ≡ ok as_
      → (a : WorkflowApplication) → Member a as_ ↔ (IsStored s a × (is_wanted f a ≡ true))
  unfolding list_workflow_applications
  list-IsWanted laws f s {as_} h a =
      let (ms, selected, h) = >>=-eq-ok (c.select s resource_label application_resource) _ h in
      let (bs, read, h) = >>=-eq-ok (applications_from r ms) _ h in
      let listed = listed_iff r f ms read (ok-injective h) a in
      let stored = laws.select_lem s resource_label application_resource selected in
      (
        λ w.
            let (w, wanted) = listed.0 w in
            let (m, k, reads) = applications_from_sound r ms a read w in
            let (found, labelled) = (stored m).0 k in
            let name = (application_from_config_map-eq-ok r m reads).0 in
            (
              record {
                map = m;
                found = subst (λ n. c.stored s n ≡ some m) name found;
                selected = labelled;
                reads = reads;
              },
              wanted,
            ),
        λ w.
            let m = w.0.map in
            let name = (application_from_config_map-eq-ok r m w.0.reads).0 in
            let k =
              (stored m).1
                (subst (λ n. c.stored s n ≡ some m) (sym name) w.0.found, w.0.selected) in
            let (b, kb, reads) = applications_from_complete r ms m read k in
            listed.1 (subst (λ a. Member a bs) (ok-injective (sym reads ∙ w.0.reads)) kb, w.1),
      )

  -- A listing that succeeds has exactly the applications that are stored under their names
  -- with the label of applications, can be read, and fit the filters that are given, on the
  -- creator, the status and the template; it forgets how they are stored and in what order
  -- they are found.
  pub list-IsStored :
      Laws c
      → (f : Filters) (s : c.State) {as_ : List WorkflowApplication}
      → list_workflow_applications c r f s ≡ ok as_
      → (a : WorkflowApplication) → Member a as_ ↔ (IsStored s a × Fits f a)
  list-IsStored laws f s h a =
      let (to, from) = list-IsWanted laws f s h a in
      let (fits, wants) = is_wanted_iff f a in
      (λ w. ((to w).0, fits (to w).1), λ w. from (w.0, wants w.1))
