-- ===== src/Hub/Workflow/Store.antt =====
-- components/idthw_hub/features/workflow: the configuration map of an application
-- (lib/workflowApplication.ts) and the operations on the cluster (api/workflowApplications.ts). The
-- time and the random identifier are arguments.
use id_jag_the_hard_way.Base.{
  ℕ, Bool, true, false, not, ◌&&◌, Option, none, some, List, [], ◌∷◌, ◌++◌, map, take,
  if◌then◌else◌, ◌==◌, nat_eq, length, keep_if, Result, ok, err, ◌>>=◌, ◌>>◌, throw_if,
}
use id_jag_the_hard_way.Base.Text.{Text, text_eq, lit, starts_with}
use id_jag_the_hard_way.Base.Dict.{get}
use id_jag_the_hard_way.Base.Json.{Value}
use id_jag_the_hard_way.Hub.Cluster.{Content, json, malformed, ConfigMap, Patch, Cluster}
use id_jag_the_hard_way.Hub.Input.{Runtime, decimal, is_application_id, is_digit}
use id_jag_the_hard_way.Hub.Workflow.{
  WorkflowApplicationStatus, pending, approved, WorkflowApplication, parse_workflow_application,
  new_workflow_application, approved_workflow_application, application_value, status_text,
}
use id_jag_the_hard_way.Hub.Workflow.Answers.{
  WorkflowFormTemplate, WorkflowError, not_found, failing, application_answers_from_payload,
}

abbrev pub application_prefix : Text
application_prefix = lit "workflow-application-"

abbrev pub resource_label : Text
resource_label = lit "mcp.idthw.dev/resource"

abbrev pub status_label : Text
status_label = lit "mcp.idthw.dev/status"

abbrev pub application_resource : Text
application_resource = lit "workflow-application"

abbrev pub data_key : Text
data_key = lit "application.json"

abbrev pub map_name : Text → Text
map_name id = application_prefix ++ id

abbrev pub config_map_of : WorkflowApplication → ConfigMap
config_map_of a = record {
  name = map_name a.id;
  labels =
      (lit "app.kubernetes.io/part-of", lit "idthw-hub")
      ∷ (resource_label, application_resource)
      ∷ (status_label, status_text a.status)
      ∷ (lit "mcp.idthw.dev/workflow-template", a.template_id)
      ∷ (lit "mcp.idthw.dev/workflow-template-version", decimal a.template_version)
      ∷ [];
  annotations = (lit "mcp.idthw.dev/created-by", a.created_by) ∷ [];
  contents = (data_key, json (application_value a)) ∷ [];
}

unfoldable pub build_workflow_application_config_map :
    Runtime → WorkflowApplication → Result Text ConfigMap
unfolding parse_workflow_application
build_workflow_application_config_map r a = do
  validated ← parse_workflow_application r (application_value a)
  ok (config_map_of validated)

unfoldable pub raw_application : Text → Option Content → Result Text Value
raw_application name (some (json v)) = ok v
raw_application name (some malformed) = err (lit "SyntaxError")
raw_application name _ =
    err (lit "Workflow application ConfigMap " ++ (name ++ (lit " is missing " ++ data_key)))

unfoldable pub application_from_config_map : Runtime → ConfigMap → Result Text WorkflowApplication
unfolding raw_application parse_workflow_application
application_from_config_map r m = do
  throw_if (not (starts_with m.name application_prefix))
      (lit "Workflow application ConfigMap name is invalid")
  v ← raw_application m.name (get m.contents data_key)
  a ← parse_workflow_application r v
  throw_if (not (m.name == map_name a.id)) (
      lit "Workflow application ConfigMap " ++ (m.name ++ lit " does not match its application id"))
  ok a

-- `${now.toISOString().replace(/\D/g, "").slice(0, 14)}-${uuid.replace(/-/g, "").slice(0, 8)}`
unfoldable pub application_id : (now uuid : Text) → Text
application_id now uuid =
    take 14 (keep_if is_digit now) ++ (lit "-" ++ take 8 (keep_if (λ c. not (c == b'-')) uuid))

-- a filter that is left out, or empty, keeps everything
abbrev pub same_text : Option Text → Text → Bool
same_text none t = true
same_text (some []) t = true
same_text (some (c ∷ s)) t = t == c ∷ s

abbrev pub status_eq : WorkflowApplicationStatus → WorkflowApplicationStatus → Bool
status_eq pending pending = true
status_eq approved approved = true
status_eq _ _ = false

abbrev pub same_status : Option WorkflowApplicationStatus → WorkflowApplicationStatus → Bool
same_status none t = true
same_status (some s) t = status_eq t s

pub record Filters : Type 0 where
  pub created_by : Option Text
  pub status : Option WorkflowApplicationStatus
  pub template_id : Option Text

unfoldable pub is_wanted : Filters → WorkflowApplication → Bool
is_wanted f a =
    same_text f.created_by a.created_by
    && (same_status f.status a.status && same_text f.template_id a.template_id)

unfoldable pub applications_from : Runtime → List ConfigMap → Result Text (List WorkflowApplication)
unfolding application_from_config_map
applications_from r [] = ok []
applications_from r (m ∷ ms) = do
  a ← application_from_config_map r m
  as_ ← applications_from r ms
  ok (a ∷ as_)

-- the comparison of `sort` in `listWorkflowApplications`: whether `a` may stay before `b`
unfoldable pub may_precede : Runtime → WorkflowApplication → WorkflowApplication → Bool
may_precede r a b =
    if status_eq a.status b.status
    then r.locale_leb b.created_at a.created_at
    else status_eq a.status pending

unfoldable pub place :
    Runtime → WorkflowApplication → List WorkflowApplication → List WorkflowApplication
unfolding may_precede
place r a [] = a ∷ []
place r a (b ∷ bs) = if may_precede r a b then a ∷ b ∷ bs else b ∷ place r a bs

unfoldable pub sort_applications : Runtime → List WorkflowApplication → List WorkflowApplication
unfolding place
sort_applications r [] = []
sort_applications r (a ∷ as_) = place r a (sort_applications r as_)

abbrev pub or_missing : {A : Type 0} → Option A → Result WorkflowError A
or_missing none = err (not_found (lit "Workflow application not found"))
or_missing (some a) = ok a

unfoldable pub approval_patch : WorkflowApplication → Patch
approval_patch a = record {
  key = data_key;
  content = json (application_value a);
  label = status_label;
  label_value = lit "approved";
}

abbrev pub no_filters : Filters
no_filters = record { created_by = none; status = none; template_id = none }

abbrev pub with_status : WorkflowApplicationStatus → Filters
with_status status = record no_filters { status = some status }

module _ (c : Cluster) (r : Runtime) where
  unfoldable pub list_workflow_applications :
      Filters → c.State → Result Text (List WorkflowApplication)
  unfolding applications_from sort_applications is_wanted
  list_workflow_applications f s = do
    maps ← c.select s resource_label application_resource
    as_ ← applications_from r maps
    ok (sort_applications r (keep_if (is_wanted f) as_))

  unfoldable pub get_workflow_application :
      Text → c.State → Result WorkflowError WorkflowApplication
  unfolding application_from_config_map
  get_workflow_application id s = do
    throw_if (not (is_application_id id)) (not_found (lit "Workflow application not found"))
    found ← failing (c.fetch s (map_name id))
    m ← or_missing found
    failing (application_from_config_map r m)

  unfoldable pub create_workflow_application :
      WorkflowFormTemplate
      → Value
      → (created_by now uuid : Text) → c.State
      → Result WorkflowError (c.State × WorkflowApplication)
  unfolding application_answers_from_payload new_workflow_application application_id
      build_workflow_application_config_map
  create_workflow_application t payload created_by now uuid s = do
    answers ← application_answers_from_payload t payload
    a ← failing (
        new_workflow_application r answers now created_by (application_id now uuid)
          t.operator_procedure_url t.subject t.id t.version)
    manifest ← failing (build_workflow_application_config_map r a)
    failing (c.review_create s manifest)
    after ← failing (c.create s manifest)
    ok (after, a)

  unfoldable pub approve :
      WorkflowApplication
      → (approved_by now : Text) → c.State
      → Result Text (c.State × WorkflowApplication)
  unfolding approved_workflow_application approval_patch
  approve a by now s = do
    done ← approved_workflow_application r a now by
    c.review_patch s (map_name a.id) (approval_patch done)
    after ← c.patch s (map_name a.id) (approval_patch done)
    ok (after, done)

  unfoldable pub mark_workflow_application_approved :
      WorkflowApplication
      → (approved_by now : Text) → c.State
      → Result Text (c.State × WorkflowApplication)
  unfolding approve
  mark_workflow_application_approved a by now s = elim a.status [
    | approved ↦ ok (s, a)
    | pending ↦ approve a by now s
  ]

  -- the loop of `approveAllPendingWorkflowApplications`: where a round throws, the earlier ones
  -- stay done. `now` is the time at each round.
  unfoldable pub approve_each :
      List WorkflowApplication
      → (approved_by : Text) → (now : ℕ → Text) → c.State
      → c.State × Result Text (Unit {0})
  unfolding mark_workflow_application_approved
  approve_each [] by now s = (s, ok tt)
  approve_each (a ∷ as_) by now s =
      elim (mark_workflow_application_approved a by (now (length as_)) s) [
        | err e ↦ (s, err e)
        | ok next ↦ approve_each as_ by now next.0
      ]

  unfoldable pub approve_all_pending_workflow_applications :
      (approved_by : Text) → (now : ℕ → Text) → c.State → c.State × Result Text ℕ
  unfolding list_workflow_applications approve_each
  approve_all_pending_workflow_applications by now s =
      elim (list_workflow_applications (with_status pending) s) [
        | err e ↦ (s, err e)
        | ok as_ ↦
            let (after, outcome) = approve_each as_ by now s in
            (after, (do outcome; ok (length as_)))
      ]

  unfoldable pub delete_applications :
      List WorkflowApplication → c.State → Result Text (c.State × ℕ)
  delete_applications [] s = ok (s, 0)
  delete_applications (a ∷ as_) s =
      let names = map (λ a. map_name a.id) (a ∷ as_) in
      do c.review_delete s names; after ← c.delete s names; ok (after, length (a ∷ as_))

  unfoldable pub delete_approved_workflow_applications : c.State → Result Text (c.State × ℕ)
  unfolding list_workflow_applications delete_applications
  delete_approved_workflow_applications s = do
    as_ ← list_workflow_applications (with_status approved) s
    delete_applications as_ s
