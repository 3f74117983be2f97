-- ===== src/Hub/Template.antt =====
-- components/idthw_hub/features/workflow: form templates (lib/workflowFormTemplate.ts), read from
-- unknown input, created and updated, and the operations on the cluster
-- (api/workflowFormTemplates.ts). The checks whose text is that of workflowApplication.ts are those of
-- Hub.Input.
pub mod FormFields
pub mod Store
pub mod Updates
pub mod Valid
pub mod Reading
pub mod RoundTrip
use id_jag_the_hard_way.Base.{
  ℕ, ◌+◌, Bool, true, false, not, Option, none, some, List, [], ◌∷◌, ◌++◌, map, ◌==◌, nat_eq,
  Result, ok, err, ◌>>=◌, ◌>>◌, throw_if,
}
use id_jag_the_hard_way.Base.Text.{Text, text_eq, lit}
use id_jag_the_hard_way.Base.Json.{Value, nat, num, str, arr, obj, Fields, end, field, property}
use id_jag_the_hard_way.Hub.Input.{
  Runtime, require_record, assert_only_keys, require_matching, require_string, is_template_id,
  require_display_string, require_positive_integer, require_username, require_timestamp,
  parse_optional_http_url,
}
use id_jag_the_hard_way.Hub.Workflow.{optional_field}
use id_jag_the_hard_way.Hub.Workflow.Answers.{WorkflowFormTemplate}
use id_jag_the_hard_way.Hub.Template.FormFields.{
  NewField, parse_fields, without_id, number_fields, field_items,
}

abbrev pub about : Text → Text
about what = lit "workflow form template" ++ what

-- `Omit<NewWorkflowFormTemplate, "createdBy">`
pub record NewWorkflowFormTemplate : Type 0 where
  pub application_content : Text
  pub fields : List NewField
  pub id : Text
  pub operator_procedure_url : Option Text
  pub subject : Text

pub record WorkflowFormTemplateUpdate : Type 0 where
  pub application_content : Text
  pub fields : List NewField
  pub operator_procedure_url : Option Text
  pub subject : Text
  pub version : ℕ

abbrev pub template_keys : List Text
template_keys =
    lit "applicationContent"
    ∷ lit "createdAt"
    ∷ lit "createdBy"
    ∷ lit "fields"
    ∷ lit "id"
    ∷ lit "operatorProcedureUrl"
    ∷ lit "subject"
    ∷ lit "version"
    ∷ []

unfoldable pub parse_workflow_form_template : Runtime → Value → Result Text WorkflowFormTemplate
unfolding require_matching require_username require_timestamp parse_fields
parse_workflow_form_template r v = do
  root ← require_record (some v) (about [])
  assert_only_keys root template_keys (about [])
  id ← require_matching is_template_id (property root (lit "id")) (about (lit " id"))
  created_by ← require_username (property root (lit "createdBy")) (about (lit " creator"))
  url ←
      parse_optional_http_url r (property root (lit "operatorProcedureUrl"))
        (about (lit " operator procedure URL"))
  content ←
      require_display_string (property root (lit "applicationContent"))
        (about (lit " application content")) 10000 false
  created_at ← require_timestamp r (property root (lit "createdAt")) (about (lit " creation time"))
  fields ← parse_fields (property root (lit "fields")) true
  subject ←
      require_display_string (property root (lit "subject")) (about (lit " subject")) 200 false
  version ← require_positive_integer (property root (lit "version")) (about (lit " version"))
  ok (record {
    application_content = content;
    created_at = created_at;
    created_by = created_by;
    fields = fields;
    id = id;
    operator_procedure_url = url;
    subject = subject;
    version = version;
  })

unfoldable pub parse_new_id : Option Value → Result Text Text
unfolding require_string
parse_new_id v = do
  id ← require_string v (about (lit " id"))
  throw_if (not (is_template_id id))
      (lit "Workflow form template ID must use lowercase letters, numbers, or hyphens")
  ok id

unfoldable pub parse_new_workflow_form_template :
    Runtime → Value → Result Text NewWorkflowFormTemplate
unfolding parse_new_id parse_fields
parse_new_workflow_form_template r v = do
  root ← require_record (some v) (about [])
  assert_only_keys root
      (lit "applicationContent"
        ∷ lit "fields"
        ∷ lit "id"
        ∷ lit "operatorProcedureUrl"
        ∷ lit "subject"
        ∷ [])
      (about [])
  id ← parse_new_id (property root (lit "id"))
  url ←
      parse_optional_http_url r (property root (lit "operatorProcedureUrl"))
        (about (lit " operator procedure URL"))
  content ←
      require_display_string (property root (lit "applicationContent"))
        (about (lit " application content")) 10000 false
  fields ← parse_fields (property root (lit "fields")) false
  subject ←
      require_display_string (property root (lit "subject")) (about (lit " subject")) 200 false
  ok (record {
    application_content = content;
    fields = map without_id fields;
    id = id;
    operator_procedure_url = url;
    subject = subject;
  })

unfoldable pub parse_workflow_form_template_update :
    Runtime → Value → Result Text WorkflowFormTemplateUpdate
unfolding parse_fields
parse_workflow_form_template_update r v = do
  root ← require_record (some v) (about (lit " update"))
  assert_only_keys root
      (lit "applicationContent"
        ∷ lit "fields"
        ∷ lit "operatorProcedureUrl"
        ∷ lit "subject"
        ∷ lit "version"
        ∷ [])
      (about (lit " update"))
  url ←
      parse_optional_http_url r (property root (lit "operatorProcedureUrl"))
        (about (lit " operator procedure URL"))
  content ←
      require_display_string (property root (lit "applicationContent"))
        (about (lit " application content")) 10000 false
  fields ← parse_fields (property root (lit "fields")) false
  subject ←
      require_display_string (property root (lit "subject")) (about (lit " subject")) 200 false
  version ← require_positive_integer (property root (lit "version")) (about (lit " version"))
  ok (record {
    application_content = content;
    fields = map without_id fields;
    operator_procedure_url = url;
    subject = subject;
    version = version;
  })

-- A template as `JSON.stringify` writes it.
unfoldable pub template_fields : WorkflowFormTemplate → Fields
template_fields t = field (lit "applicationContent") (str t.application_content) (
    field (lit "createdAt") (str t.created_at) (
      field (lit "createdBy") (str t.created_by) (
        field (lit "fields") (arr (field_items t.fields)) (
          field (lit "id") (str t.id) (
            optional_field (lit "operatorProcedureUrl") t.operator_procedure_url (
              field (lit "subject") (str t.subject)
                (field (lit "version") (num (nat t.version)) end)))))))

abbrev pub template_value : WorkflowFormTemplate → Value
template_value t = obj (template_fields t)

unfoldable pub new_workflow_form_template :
    Runtime
    → NewWorkflowFormTemplate
    → (created_by created_at : Text) → Result Text WorkflowFormTemplate
unfolding parse_workflow_form_template template_fields number_fields
new_workflow_form_template r input created_by created_at = parse_workflow_form_template r (
    template_value (record {
      application_content = input.application_content;
      created_at = created_at;
      created_by = created_by;
      fields = number_fields 0 input.fields;
      id = input.id;
      operator_procedure_url = input.operator_procedure_url;
      subject = input.subject;
      version = 1;
    }))

unfoldable pub updated_workflow_form_template :
    Runtime → WorkflowFormTemplate → WorkflowFormTemplateUpdate → Result Text WorkflowFormTemplate
unfolding parse_workflow_form_template template_fields number_fields
updated_workflow_form_template r current input = do
  throw_if (not (current.version == input.version)) (lit "Workflow form template version is stale")
  parse_workflow_form_template r (
      template_value (record {
        application_content = input.application_content;
        created_at = current.created_at;
        created_by = current.created_by;
        fields = number_fields 0 input.fields;
        id = current.id;
        operator_procedure_url = input.operator_procedure_url;
        subject = input.subject;
        version = current.version + 1;
      }))

-- `workflowFormTemplateForApplicant`: the URL for the operators is left out
unfoldable pub workflow_form_template_for_applicant : WorkflowFormTemplate → WorkflowFormTemplate
workflow_form_template_for_applicant t = record t { operator_procedure_url = none }
