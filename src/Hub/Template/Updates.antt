-- ===== src/Hub/Template/Updates.antt =====
-- Updates of a form template in the cluster, one at a time and two at once
-- (components/idthw_hub/features/workflow/api/workflowFormTemplates.ts).
use id_jag_the_hard_way.Base.{
  ◌+◌, ◌≡◌, refl, sym, subst, ap, ◌∙◌, false, not, Option, none, some, [], ◌∷◌, ◌++◌, ◌==◌, nat_eq,
  if◌then◌else◌, Result, ok, err, throw_if, >>=-eq-ok, throw_if-eq-ok, ok-injective, arith,
}
use id_jag_the_hard_way.Base.Text.{Text, text_eq, text_beq_iff, lit, starts_with}
use id_jag_the_hard_way.Base.Text.Search.{starts_with-append}
use id_jag_the_hard_way.Base.Dict.{get, get-set_self, text_beq_refl}
use id_jag_the_hard_way.Hub.Cluster.{ConfigMap, Cluster, Laws, json}
use id_jag_the_hard_way.Hub.Input.{Runtime, is_template_id}
use id_jag_the_hard_way.Hub.Workflow.Answers.{WorkflowFormTemplate}
use id_jag_the_hard_way.Hub.Template.{
  WorkflowFormTemplateUpdate, parse_workflow_form_template, template_value,
}
use id_jag_the_hard_way.Hub.Template.Store.{
  not_found, failing, template_prefix, template_key, template_name, raw_template,
  template_from_config_map, or_no_template, put_template, get_workflow_form_template,
  prepare_update, write_update,
}
use id_jag_the_hard_way.Hub.Template.Reading.{IsTemplate, parse_workflow_form_template-IsTemplate}
use id_jag_the_hard_way.Hub.Template.RoundTrip.{
  Succeeds, parse_workflow_form_template_self, updated-Succeeds,
}

failing-eq-ok : {A : Type 0} (m : Result Text A) {a : A} → failing m ≡ ok a → m ≡ ok a
failing-eq-ok (ok b) h = rw (ok-injective h) refl
failing-eq-ok (err e) h = cc

or_no_template-eq-ok : {A : Type 0} (o : Option A) {a : A} → or_no_template o ≡ ok a → o ≡ some a
or_no_template-eq-ok none h = cc
or_no_template-eq-ok (some b) h = ap some (ok-injective h)

template_from_config_map-eq-ok :
    (r : Runtime) (m : ConfigMap) {t : WorkflowFormTemplate}
    → template_from_config_map r m ≡ ok t
    → (m.name ≡ template_name t.id) × IsTemplate r t
unfolding template_from_config_map
template_from_config_map-eq-ok r m {t} h =
    let (_, _, h) = >>=-eq-ok (throw_if (not (starts_with m.name template_prefix)) _) _ h in
    let (v, _, h) = >>=-eq-ok (raw_template m.name (get m.contents template_key)) _ h in
    let (u, e, h) = >>=-eq-ok (parse_workflow_form_template r v) _ h in
    let (_, f, h) = >>=-eq-ok (throw_if (not (m.name == template_name u.id)) _) _ h in
    subst (λ t. (m.name ≡ template_name t.id) × IsTemplate r t) (ok-injective h)
      (
        (text_beq_iff m.name (template_name u.id)).0
            (ground (arith, throw_if-eq-ok (not (m.name == template_name u.id)) _ f)),
        parse_workflow_form_template-IsTemplate r v e,
      )

put_template-reads :
    (r : Runtime) (m : ConfigMap) (t : WorkflowFormTemplate)
    → IsTemplate r t
    → m.name ≡ template_name t.id
    → template_from_config_map r (put_template t m) ≡ ok t
unfolding template_from_config_map raw_template put_template
put_template-reads r m t h e =
    rw
      (
        e,
        starts_with-append template_prefix t.id,
        get-set_self m.contents template_key (json (template_value t)),
      )
      (rw (parse_workflow_form_template_self r t h, text_beq_refl (template_name t.id)) refl)

prefix_injective : (p s t : Text) → p ++ s ≡ p ++ t → s ≡ t
prefix_injective [] s t h = h
prefix_injective (x ∷ p) s t h = prefix_injective p s t (cc)

-- a cluster that accepts a patch of a map that it holds, where the map keeps its name
pub record AcceptLaw (c : Cluster)
    (review_map : c.State → Text → (ConfigMap → ConfigMap) → Result Text (Unit {0}))
    (patch_map : c.State → Text → (ConfigMap → ConfigMap) → Result Text c.State) : Type 0 where
  pub accepted :
      (s : c.State) (n : Text) (f : ConfigMap → ConfigMap) {m : ConfigMap}
      → c.stored s n ≡ some m
      → (f m).name ≡ m.name
      → (review_map s n f ≡ ok tt) × ((t : c.State) × (patch_map s n f ≡ ok t))

-- what `kubectl patch` does with a merge patch, where it succeeds
pub record PatchLaw (c : Cluster)
    (patch_map : c.State → Text → (ConfigMap → ConfigMap) → Result Text c.State) : Type 0 where
  pub patch_map_lem :
      (s : c.State) (n : Text) (f : ConfigMap → ConfigMap) {t : c.State} {m : ConfigMap}
      → patch_map s n f ≡ ok t
      → c.stored s n ≡ some m
      → (k : Text) → c.stored t k ≡ (if n == k then some (f m) else c.stored s k)

module _ (c : Cluster) (r : Runtime)
    (review_map : c.State → Text → (ConfigMap → ConfigMap) → Result Text (Unit {0}))
    (patch_map : c.State → Text → (ConfigMap → ConfigMap) → Result Text c.State) where
  -- The store holds the template under its identifier.
  pub record HasTemplate (s : c.State) (id : Text) (t : WorkflowFormTemplate) : Type 0 where
    pub map : ConfigMap
    pub found : c.stored s (template_name id) ≡ some map
    pub reads : template_from_config_map r map ≡ ok t
    pub same_id : t.id ≡ id

  get_workflow_form_template-HasTemplate :
      Laws c
      → (id : Text) (s : c.State) {t : WorkflowFormTemplate}
      → get_workflow_form_template c r review_map patch_map id s ≡ ok t
      → HasTemplate s id t
  unfolding get_workflow_form_template
  get_workflow_form_template-HasTemplate laws id s {t} h =
      let (_, _, h) = >>=-eq-ok (throw_if (not (is_template_id id)) not_found) _ h in
      let (found, e, h) = >>=-eq-ok (failing (c.fetch s (template_name id))) _ h in
      let (m, f, h) = >>=-eq-ok (or_no_template found) _ h in
      has m
        (sym (laws.fetch_lem s (template_name id) (failing-eq-ok _ e))
          ∙ or_no_template-eq-ok found f)
        (failing-eq-ok _ h)
    where
      has :
          (m : ConfigMap)
          → c.stored s (template_name id) ≡ some m
          → template_from_config_map r m ≡ ok t
          → HasTemplate s id t
      has m there reads = record {
        map = m;
        found = there;
        reads = reads;
        same_id = prefix_injective (lit "workflow-form-template-") t.id id (
            sym (template_from_config_map-eq-ok r m reads).0
            ∙ laws.stored_name s (template_name id) there);
      }

  -- An update is prepared from the template that is stored.
  pub record Prepares (id : Text) (input : WorkflowFormTemplateUpdate) (s : c.State)
      (t : WorkflowFormTemplate) : Type 0 where
    pub current : WorkflowFormTemplate
    pub stored : HasTemplate s id current
    pub asked : current.version ≡ input.version
    pub succeeds : Succeeds current t
    pub is_template : IsTemplate r t

  prepare_update-Prepares :
      Laws c
      → (id : Text) (input : WorkflowFormTemplateUpdate) (s : c.State) {t : WorkflowFormTemplate}
      → prepare_update c r review_map patch_map id input s ≡ ok t
      → Prepares id input s t
  unfolding prepare_update
  prepare_update-Prepares laws id input s {t} h =
      let (current, e, h) =
        >>=-eq-ok (get_workflow_form_template c r review_map patch_map id s) _ h in
      let (_, _, h) = >>=-eq-ok (throw_if (not (current.version == input.version)) _) _ h in
      let has = get_workflow_form_template-HasTemplate laws id s e in
      let valid = (template_from_config_map-eq-ok r has.map has.reads).1 in
      let (asked, is_template, succeeds) =
        updated-Succeeds r current input valid (failing-eq-ok _ h) in
      record {
        current = current;
        stored = has;
        asked = asked;
        succeeds = succeeds;
        is_template = is_template;
      }

  -- `t` is what the store holds now, and no other map has changed.
  pub record Writes (id : Text) (s t : c.State) (u : WorkflowFormTemplate) : Type 0 where
    pub holds : HasTemplate t id u
    pub others : (n : Text) → (template_name id == n) ≡ false → c.stored t n ≡ c.stored s n

  write_update-Writes :
      Laws c
      → PatchLaw c patch_map
      → (id : Text) (u : WorkflowFormTemplate) (s : c.State) {t : c.State}
        (before : WorkflowFormTemplate)
      → HasTemplate s id before
      → IsTemplate r u
      → u.id ≡ id
      → write_update c r review_map patch_map id u s ≡ ok t
      → Writes id s t u
  unfolding write_update
  write_update-Writes laws law id u s {t} before has valid same h =
      let (_, _, h) = >>=-eq-ok (failing (review_map s (template_name id) (put_template u))) _ h in
      let put =
        law.patch_map_lem s (template_name id) (put_template u) (failing-eq-ok _ h) has.found in
      let there = put (template_name id) in
      record {
        holds = record {
          map = put_template u has.map;
          found = rw (text_beq_refl (template_name id)) at there;
          reads =
              put_template-reads r has.map u valid
                (laws.stored_name s (template_name id) has.found ∙ ap template_name (sym same));
          same_id = same;
        };
        others = λ n other. rw other at (put n);
      }

  -- An update of a form template with nothing between its read and its patch, where it
  -- succeeds, was asked for the version that is stored, and stores a valid template with the
  -- identifier, the creator and the creation time of the stored one and the next version; no
  -- other map changes.
  pub update-Writes :
      Laws c
      → PatchLaw c patch_map
      → (id : Text) (input : WorkflowFormTemplateUpdate) (s : c.State) {t : c.State}
        {u : WorkflowFormTemplate}
      → prepare_update c r review_map patch_map id input s ≡ ok u
      → write_update c r review_map patch_map id u s ≡ ok t
      → Prepares id input s u × Writes id s t u
  update-Writes laws law id input s e h =
      let p = prepare_update-Prepares laws id input s e in
      (
        p,
        write_update-Writes laws law id _ s p.current p.stored p.is_template
            (p.succeeds.same_id ∙ p.stored.same_id) h,
      )

  same_template :
      (s : c.State) (id : Text) (t u : WorkflowFormTemplate)
      → HasTemplate s id t
      → HasTemplate s id u
      → t ≡ u
  same_template s id t u a b =
      let maps : some a.map ≡ some b.map = sym a.found ∙ b.found in
      let maps : a.map ≡ b.map = ground (arith, maps) in
      ok-injective
        (sym a.reads ∙ subst (λ m. template_from_config_map r m ≡ ok u) (sym maps) b.reads)

  write_update-accepted :
      AcceptLaw c review_map patch_map
      → (id : Text) (u : WorkflowFormTemplate) (s : c.State) (before : WorkflowFormTemplate)
      → HasTemplate s id before
      → (t : c.State) × (write_update c r review_map patch_map id u s ≡ ok t)
  unfolding write_update put_template
  write_update-accepted accepts id u s before has =
      let (fine, (t, e)) = accepts.accepted s (template_name id) (put_template u) has.found refl in
      (t, rw (fine, e) refl)

  -- Where the cluster accepts every patch of a map that it holds and that keeps its name, two
  -- updates of a form template that are prepared from the same store, before either is
  -- written, are both written: the second replaces the first, under the same version number.
  pub lost_update :
      Laws c
      → PatchLaw c patch_map
      → AcceptLaw c review_map patch_map
      → (id : Text) (first second : WorkflowFormTemplateUpdate) (s : c.State)
        {t u : WorkflowFormTemplate}
      → prepare_update c r review_map patch_map id first s ≡ ok t
      → prepare_update c r review_map patch_map id second s ≡ ok u
      → (s1 : c.State) × (s2 : c.State) × (write_update c r review_map patch_map id t s ≡ ok s1)
        × (write_update c r review_map patch_map id u s1 ≡ ok s2)
        × HasTemplate s1 id t
        × HasTemplate s2 id u
        × (u.version ≡ t.version)
  lost_update laws law accepts id first second s {t} {u} e f =
      let p = prepare_update-Prepares laws id first s e in
      let q = prepare_update-Prepares laws id second s f in
      let (s1, g) = write_update-accepted accepts id t s p.current p.stored in
      let one =
        write_update-Writes laws law id t s p.current p.stored p.is_template
          (p.succeeds.same_id ∙ p.stored.same_id) g in
      let (s2, h) = write_update-accepted accepts id u s1 t one.holds in
      let two =
        write_update-Writes laws law id u s1 t one.holds q.is_template
          (q.succeeds.same_id ∙ q.stored.same_id) h in
      (
        s1,
        s2,
        g,
        h,
        one.holds,
        two.holds,
        q.succeeds.next_version
            ∙ ap (λ (t : WorkflowFormTemplate). t.version + 1)
                (same_template s id q.current p.current q.stored p.stored)
            ∙ sym p.succeeds.next_version,
      )
