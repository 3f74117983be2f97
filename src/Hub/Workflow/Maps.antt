-- ===== src/Hub/Workflow/Maps.antt =====
-- Applications in their configuration maps (components/idthw_hub/features/workflow).
use id_jag_the_hard_way.Base.{
  ◌≡◌, refl, sym, ◌∙◌, subst, not, some, ◌==◌, ok, throw_if, >>=-eq-ok, ok-injective,
  throw_if-eq-ok, arith,
}
use id_jag_the_hard_way.Base.Text.{text_eq, lit, text_beq, text_beq_iff, starts_with}
use id_jag_the_hard_way.Base.Text.Search.{starts_with-append}
use id_jag_the_hard_way.Base.Dict.{get, get-set, get-set_self, text_beq_refl}
use id_jag_the_hard_way.Hub.Cluster.{json, ConfigMap, merge}
use id_jag_the_hard_way.Hub.Input.{Runtime}
use id_jag_the_hard_way.Hub.Workflow.{
  WorkflowApplication, parse_workflow_application, application_value, status_text, approved,
}
use id_jag_the_hard_way.Hub.Workflow.Valid.{IsApplication, parse_workflow_application-IsApplication}
use id_jag_the_hard_way.Hub.Workflow.RoundTrip.{parse_workflow_application_self}
use id_jag_the_hard_way.Hub.Workflow.Store.{
  application_prefix, resource_label, status_label, application_resource, data_key, map_name,
  config_map_of, raw_application, application_from_config_map, approval_patch,
  build_workflow_application_config_map,
}

-- The map holds the application, under its name and with the label of its status.
pub record Holds (r : Runtime) (m : ConfigMap) (a : WorkflowApplication) : Type 0 where
  pub reads : application_from_config_map r m ≡ ok a
  pub labelled : get m.labels status_label ≡ some (status_text a.status)

abbrev pub IsApplicationMap : ConfigMap → Type 0
IsApplicationMap m = get m.labels resource_label ≡ some application_resource

pub application_from_config_map-eq-ok :
    (r : Runtime) (m : ConfigMap) {a : WorkflowApplication}
    → application_from_config_map r m ≡ ok a
    → (m.name ≡ map_name a.id) × IsApplication r a
unfolding application_from_config_map
application_from_config_map-eq-ok r m {a} h =
    let (_, _, h) = >>=-eq-ok (throw_if (not (starts_with m.name application_prefix)) _) _ h in
    let (v, _, h) = >>=-eq-ok (raw_application m.name (get m.contents data_key)) _ h in
    let (b, e, h) = >>=-eq-ok (parse_workflow_application r v) _ h in
    let (_, f, h) = >>=-eq-ok (throw_if (not (m.name == map_name b.id)) _) _ h in
    subst (λ a. (m.name ≡ map_name a.id) × IsApplication r a) (ok-injective h)
      (
        (text_beq_iff m.name (map_name b.id)).0
            (ground (arith, throw_if-eq-ok (not (m.name == map_name b.id)) _ f)),
        parse_workflow_application-IsApplication r v e,
      )

-- A map of that name whose data prints the application.
application_from_config_map_of :
    (r : Runtime) (m : ConfigMap) (a : WorkflowApplication)
    → IsApplication r a
    → m.name ≡ map_name a.id
    → get m.contents data_key ≡ some (json (application_value a))
    → application_from_config_map r m ≡ ok a
unfolding application_from_config_map raw_application
application_from_config_map_of r m a h e f =
    rw (e, f, starts_with-append application_prefix a.id)
      (rw (parse_workflow_application_self r a h, text_beq_refl (map_name a.id)) refl)

pub config_map_of-Holds :
    (r : Runtime) (a : WorkflowApplication) → IsApplication r a → Holds r (config_map_of a) a
config_map_of-Holds r a h = record {
  reads = application_from_config_map_of r (config_map_of a) a h refl (unfold get text_beq in refl);
  labelled = unfold get text_beq in refl;
}

pub merge-Holds :
    (r : Runtime) (m : ConfigMap) (d : WorkflowApplication)
    → IsApplication r d
    → d.status ≡ approved
    → m.name ≡ map_name d.id
    → Holds r (merge m (approval_patch d)) d
unfolding merge approval_patch
merge-Holds r m d h done e = record {
  reads =
      application_from_config_map_of r (merge m (approval_patch d)) d h e
        (get-set_self m.contents data_key (json (application_value d)));
  labelled = rw (get-set_self m.labels status_label (lit "approved"), done) refl;
}

pub merge-IsApplicationMap :
    (m : ConfigMap) (d : WorkflowApplication)
    → IsApplicationMap m
    → IsApplicationMap (merge m (approval_patch d))
unfolding merge approval_patch
merge-IsApplicationMap m d h =
    rw (get-set m.labels status_label resource_label (lit "approved")) (unfold text_beq in h)

pub build-eq-ok :
    (r : Runtime) (a : WorkflowApplication) {m : ConfigMap}
    → IsApplication r a
    → build_workflow_application_config_map r a ≡ ok m
    → m ≡ config_map_of a
unfolding build_workflow_application_config_map
build-eq-ok r a {m} h e = ok-injective (sym e ∙ rw (parse_workflow_application_self r a h) refl)
