-- ===== src/Hub/Template/Store.antt =====
-- components/idthw_hub/features/workflow: the configuration map of a form template
-- (lib/workflowFormTemplate.ts) and the operations on the cluster (api/workflowFormTemplates.ts). A
-- read and the patch that follows it are two commands, with an await between them.
use id_jag_the_hard_way.Base.{
  Bool, true, false, not, Option, none, some, List, [], ◌∷◌, ◌++◌, ◌==◌, nat_eq, if◌then◌else◌,
  Result, ok, err, ◌>>=◌, ◌>>◌, throw_if,
}
use id_jag_the_hard_way.Base.Text.{Text, text_eq, lit, starts_with}
use id_jag_the_hard_way.Base.Dict.{get, set}
use id_jag_the_hard_way.Base.Json.{Value}
use id_jag_the_hard_way.Hub.Cluster.{Content, json, malformed, ConfigMap, Cluster}
use id_jag_the_hard_way.Hub.Kubectl.{is_kubectl_already_exists}
use id_jag_the_hard_way.Hub.Input.{Runtime, decimal, is_template_id}
use id_jag_the_hard_way.Hub.Workflow.Answers.{WorkflowFormTemplate}
use id_jag_the_hard_way.Hub.Workflow.Store.{resource_label}
use id_jag_the_hard_way.Hub.Template.{
  NewWorkflowFormTemplate, WorkflowFormTemplateUpdate, parse_workflow_form_template, template_value,
  new_workflow_form_template, updated_workflow_form_template,
}

-- `Error`, and the three classes that extend it
pub data TemplateError : Type 0 where
  failed : Text → TemplateError
  not_found : TemplateError
  already_exists : Text → TemplateError
  version_conflict : Text → TemplateError

abbrev pub failing : {A : Type 0} → Result Text A → Result TemplateError A
failing (ok a) = ok a
failing (err e) = err (failed e)

abbrev pub template_prefix : Text
template_prefix = lit "workflow-form-template-"

abbrev pub template_resource : Text
template_resource = lit "workflow-form-template"

abbrev pub template_key : Text
template_key = lit "template.json"

abbrev pub version_annotation : Text
version_annotation = lit "mcp.idthw.dev/version"

abbrev pub template_name : Text → Text
template_name id = template_prefix ++ id

abbrev pub template_map_of : WorkflowFormTemplate → ConfigMap
template_map_of t = record {
  name = template_name t.id;
  labels =
      (lit "app.kubernetes.io/part-of", lit "idthw-hub") ∷ (resource_label, template_resource) ∷ [];
  annotations =
      (lit "mcp.idthw.dev/created-by", t.created_by) ∷ (version_annotation, decimal t.version) ∷ [];
  contents = (template_key, json (template_value t)) ∷ [];
}

unfoldable pub build_workflow_form_template_config_map :
    Runtime → WorkflowFormTemplate → Result Text ConfigMap
unfolding parse_workflow_form_template
build_workflow_form_template_config_map r t = do
  validated ← parse_workflow_form_template r (template_value t)
  ok (template_map_of validated)

unfoldable pub raw_template : Text → Option Content → Result Text Value
raw_template name (some (json v)) = ok v
raw_template name (some malformed) = err (lit "SyntaxError")
raw_template name _ =
    err (lit "Workflow form template ConfigMap " ++ (name ++ (lit " is missing " ++ template_key)))

unfoldable pub template_from_config_map : Runtime → ConfigMap → Result Text WorkflowFormTemplate
unfolding raw_template parse_workflow_form_template
template_from_config_map r m = do
  throw_if (not (starts_with m.name template_prefix))
      (lit "Workflow form template ConfigMap name is invalid")
  v ← raw_template m.name (get m.contents template_key)
  t ← parse_workflow_form_template r v
  throw_if (not (m.name == template_name t.id))
      (lit "Workflow form template ConfigMap " ++ (m.name ++ lit " does not match its template id"))
  ok t

abbrev pub or_no_template : {A : Type 0} → Option A → Result TemplateError A
or_no_template none = err not_found
or_no_template (some a) = ok a

-- the merge patch of an update, on a map's data and annotations
unfoldable pub put_template : WorkflowFormTemplate → ConfigMap → ConfigMap
put_template t m = record m {
  contents = set m.contents template_key (json (template_value t));
  annotations = set m.annotations version_annotation (decimal t.version);
}

unfoldable pub templates_from : Runtime → List ConfigMap → Result Text (List WorkflowFormTemplate)
unfolding template_from_config_map
templates_from r [] = ok []
templates_from r (m ∷ ms) = do
  t ← template_from_config_map r m
  ts ← templates_from r ms
  ok (t ∷ ts)

-- `sort((left, right) => right.createdAt.localeCompare(left.createdAt))`
unfoldable pub place_template :
    Runtime → WorkflowFormTemplate → List WorkflowFormTemplate → List WorkflowFormTemplate
place_template r t [] = t ∷ []
place_template r t (u ∷ us) =
    if r.locale_leb u.created_at t.created_at then t ∷ u ∷ us else u ∷ place_template r t us

unfoldable pub sort_templates : Runtime → List WorkflowFormTemplate → List WorkflowFormTemplate
unfolding place_template
sort_templates r [] = []
sort_templates r (t ∷ ts) = place_template r t (sort_templates r ts)

-- whether an error of `kubectl create` says that the name is taken, as
-- `isKubectlAlreadyExists` finds
abbrev pub created_or : Bool → Text → Text → TemplateError
created_or true id e =
    already_exists (lit "Workflow form template " ++ (id ++ lit " already exists"))
created_or false id e = failed e

unfoldable pub caught : {A : Type 0} → Text → Result Text A → Result TemplateError A
unfolding is_kubectl_already_exists
caught id (ok a) = ok a
caught id (err e) = err (created_or (is_kubectl_already_exists e) id e)

-- `patch_map` and `review_map` are the two commands of an update: a merge patch and its review.
module _ (c : Cluster) (r : Runtime)
    (review_map : c.State → Text → (ConfigMap → ConfigMap) → Result Text (Unit {0}))
    (patch_map : c.State → Text → (ConfigMap → ConfigMap) → Result Text c.State) where
  unfoldable pub create_workflow_form_template :
      NewWorkflowFormTemplate
      → (created_by now : Text) → c.State
      → Result TemplateError (c.State × WorkflowFormTemplate)
  unfolding new_workflow_form_template build_workflow_form_template_config_map caught
  create_workflow_form_template input created_by now s = do
    t ← failing (new_workflow_form_template r input created_by now)
    manifest ← failing (build_workflow_form_template_config_map r t)
    caught input.id (c.review_create s manifest)
    after ← caught input.id (c.create s manifest)
    ok (after, t)

  unfoldable pub list_workflow_form_templates : c.State → Result Text (List WorkflowFormTemplate)
  unfolding templates_from sort_templates
  list_workflow_form_templates s = do
    maps ← c.select s resource_label template_resource
    ts ← templates_from r maps
    ok (sort_templates r ts)

  unfoldable pub get_workflow_form_template :
      Text → c.State → Result TemplateError WorkflowFormTemplate
  unfolding template_from_config_map
  get_workflow_form_template id s = do
    throw_if (not (is_template_id id)) not_found
    found ← failing (c.fetch s (template_name id))
    m ← or_no_template found
    failing (template_from_config_map r m)

  -- `updateWorkflowFormTemplate` from its read to the patch: the template that it will write
  unfoldable pub prepare_update :
      Text → WorkflowFormTemplateUpdate → c.State → Result TemplateError WorkflowFormTemplate
  unfolding get_workflow_form_template updated_workflow_form_template
  prepare_update id input s = do
    current ← get_workflow_form_template id s
    throw_if (not (current.version == input.version)) (
        version_conflict (
          lit "Workflow form template "
          ++ (id
              ++ (lit " is now version "
                  ++ (decimal current.version ++ lit "; reload before updating")))))
    failing (updated_workflow_form_template r current input)

  -- ... and its patch, in the store of that moment
  unfoldable pub write_update : Text → WorkflowFormTemplate → c.State → Result TemplateError c.State
  unfolding put_template
  write_update id t s = do
    failing (review_map s (template_name id) (put_template t))
    failing (patch_map s (template_name id) (put_template t))

  unfoldable pub delete_workflow_form_template : Text → c.State → Result TemplateError c.State
  unfolding get_workflow_form_template
  delete_workflow_form_template id s = do
    _ ← get_workflow_form_template id s
    failing (c.review_delete s (template_name id ∷ []))
    failing (c.delete s (template_name id ∷ []))
