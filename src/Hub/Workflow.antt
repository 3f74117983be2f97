-- ===== src/Hub/Workflow.antt =====
-- components/idthw_hub/features/workflow: types.ts and lib/workflowApplication.ts, the applications
-- that a user fills in from a form template, and their reading from an unknown value.
pub mod Answers
pub mod Store
pub mod Listing
pub mod Lifecycle
pub mod Origin
pub mod Sweeps
pub mod Deletion
pub mod Reach
pub mod Immutable
pub mod Maps
pub mod AnswerLists
pub mod Valid
pub mod RoundTrip
use id_jag_the_hard_way.Base.{
  ℕ, suc, ◌+◌, Bool, true, false, not, ◌&&◌, ◌||◌, Option, none, some, List, [], ◌∷◌, ◌++◌, is_some,
  if◌then◌else◌, ◌==◌, nat_eq, ltb, length, includes, Result, ok, err, ◌>>=◌, ◌>>◌, throw_if,
}
use id_jag_the_hard_way.Base.Text.{Text, text_eq, lit}
use id_jag_the_hard_way.Base.Json.{
  Value, nat, null, num, str, arr, obj, Items, nil, cons, Fields, end, field, property,
}
use id_jag_the_hard_way.Hub.Input.{
  Runtime, decimal, require_record, assert_only_keys, require_matching, is_field_id,
  is_application_id, is_template_id, require_display_string, require_positive_integer,
  require_username, require_timestamp, parse_optional_http_url,
}

pub record WorkflowApplicationAnswer : Type 0 where
  pub field_id : Text
  pub label : Text
  pub value : Text

pub data WorkflowApplicationStatus : Type 0 where
  pending approved : WorkflowApplicationStatus

-- `version` is always 1 and is left out
pub record WorkflowApplication : Type 0 where
  pub answers : List WorkflowApplicationAnswer
  pub approved_at : Option Text
  pub approved_by : Option Text
  pub created_at : Text
  pub created_by : Text
  pub id : Text
  pub operator_procedure_url : Option Text
  pub status : WorkflowApplicationStatus
  pub subject : Text
  pub template_id : Text
  pub template_version : ℕ

abbrev pub here : Text → Text
here what = lit "workflow application" ++ what

abbrev pub application_keys : List Text
application_keys =
    lit "answers"
    ∷ lit "approvedAt"
    ∷ lit "approvedBy"
    ∷ lit "createdAt"
    ∷ lit "createdBy"
    ∷ lit "id"
    ∷ lit "operatorProcedureUrl"
    ∷ lit "status"
    ∷ lit "subject"
    ∷ lit "templateId"
    ∷ lit "templateVersion"
    ∷ lit "version"
    ∷ []

abbrev pub answer_keys : List Text
answer_keys = lit "fieldId" ∷ lit "label" ∷ lit "value" ∷ []

-- one round of the loop of `parseAnswers`; `place` names the answer in messages
unfoldable pub parse_answer :
    (place : Text) → List Text → Value → Result Text WorkflowApplicationAnswer
unfolding require_matching
parse_answer place seen v = do
  answer ← require_record (some v) place
  assert_only_keys answer answer_keys place
  field_id ←
      require_matching (λ s. is_field_id s && not (includes seen s))
        (property answer (lit "fieldId")) (place ++ lit " field id")
  label ← require_display_string (property answer (lit "label")) (place ++ lit " label") 120 false
  value ← require_display_string (property answer (lit "value")) (place ++ lit " value") 10000 true
  ok (record { field_id = field_id; label = label; value = value })

abbrev pub answer_place : ℕ → Text
answer_place index = here (lit " answer " ++ decimal (index + 1))

unfoldable pub parse_answers_from :
    ℕ → List Text → Items → Result Text (List WorkflowApplicationAnswer)
unfolding parse_answer
parse_answers_from index seen nil = ok []
parse_answers_from index seen (cons v vs) = do
  answer ← parse_answer (answer_place index) seen v
  answers ← parse_answers_from (suc index) (answer.field_id ∷ seen) vs
  ok (answer ∷ answers)

abbrev pub count : Items → ℕ
count nil = 0
count (cons v vs) = suc (count vs)

unfoldable pub parse_answers : Option Value → Result Text (List WorkflowApplicationAnswer)
unfolding parse_answers_from
parse_answers (some (arr vs)) =
    if ltb 30 (count vs)
    then err (here (lit " answers are invalid"))
    else parse_answers_from 0 [] vs
parse_answers _ = err (here (lit " answers are invalid"))

unfoldable pub parse_version : Option Value → Result Text (Unit {0})
parse_version (some (num (nat n))) = throw_if (not (n == 1)) (here (lit " version must be 1"))
parse_version _ = err (here (lit " version must be 1"))

unfoldable pub parse_status : Option Value → Result Text WorkflowApplicationStatus
parse_status none = ok pending
parse_status (some (str s)) =
    if s == lit "pending"
    then ok pending
    else if s == lit "approved"
    then ok approved
    else err (here (lit " status is invalid"))
parse_status (some v) = err (here (lit " status is invalid"))

-- `v === undefined ? undefined : check(v)`
abbrev pub optional : (Option Value → Result Text Text) → Option Value → Result Text (Option Text)
optional check none = ok none
optional check (some v) = do s ← check (some v); ok (some s)

-- Neither text is empty where it is there.
unfoldable pub check_approval :
    WorkflowApplicationStatus → Option Text → Option Text → Result Text (Unit {0})
check_approval approved at by =
    throw_if (not (is_some at && is_some by))
      (lit "Approved workflow application requires approval details")
check_approval pending at by =
    throw_if (is_some at || is_some by)
      (lit "Pending workflow application cannot contain approval details")

unfoldable pub parse_template_version : Option Value → Result Text ℕ
unfolding require_positive_integer
parse_template_version none = ok 1
parse_template_version v = require_positive_integer v (here (lit " template version"))

unfoldable pub parse_workflow_application : Runtime → Value → Result Text WorkflowApplication
unfolding require_matching parse_version parse_status check_approval parse_answers
    parse_template_version
parse_workflow_application r v = do
  root ← require_record (some v) (here [])
  assert_only_keys root application_keys (here [])
  parse_version (property root (lit "version"))
  id ← require_matching is_application_id (property root (lit "id")) (here (lit " id"))
  template_id ←
      require_matching is_template_id (property root (lit "templateId")) (here (lit " template id"))
  url ←
      parse_optional_http_url r (property root (lit "operatorProcedureUrl"))
        (here (lit " operator procedure URL"))
  created_by ← require_username (property root (lit "createdBy")) (here (lit " creator"))
  status ← parse_status (property root (lit "status"))
  approved_at ←
      optional (λ v. require_timestamp r v (here (lit " approval time")))
        (property root (lit "approvedAt"))
  approved_by ←
      optional (λ v. require_username v (here (lit " approver"))) (property root (lit "approvedBy"))
  check_approval status approved_at approved_by
  answers ← parse_answers (property root (lit "answers"))
  created_at ← require_timestamp r (property root (lit "createdAt")) (here (lit " creation time"))
  subject ← require_display_string (property root (lit "subject")) (here (lit " subject")) 200 false
  template_version ← parse_template_version (property root (lit "templateVersion"))
  ok (record {
    answers = answers;
    approved_at = approved_at;
    approved_by = approved_by;
    created_at = created_at;
    created_by = created_by;
    id = id;
    operator_procedure_url = url;
    status = status;
    subject = subject;
    template_id = template_id;
    template_version = template_version;
  })

abbrev pub status_text : WorkflowApplicationStatus → Text
status_text pending = lit "pending"
status_text approved = lit "approved"

-- a property that is left out where its value is `undefined`
abbrev pub optional_field : Text → Option Text → Fields → Fields
optional_field k none fs = fs
optional_field k (some s) fs = field k (str s) fs

-- An application as `JSON.stringify` writes it.
unfoldable pub answer_value : WorkflowApplicationAnswer → Value
answer_value a = obj (
    field (lit "fieldId") (str a.field_id)
      (field (lit "label") (str a.label) (field (lit "value") (str a.value) end)))

abbrev pub answer_items : List WorkflowApplicationAnswer → Items
answer_items [] = nil
answer_items (a ∷ as_) = cons (answer_value a) (answer_items as_)

unfoldable pub application_fields : WorkflowApplication → Fields
application_fields a = field (lit "answers") (arr (answer_items a.answers)) (
    optional_field (lit "approvedAt") a.approved_at (
      optional_field (lit "approvedBy") a.approved_by (
        field (lit "createdAt") (str a.created_at) (
          field (lit "createdBy") (str a.created_by) (
            field (lit "id") (str a.id) (
              optional_field (lit "operatorProcedureUrl") a.operator_procedure_url (
                field (lit "status") (str (status_text a.status)) (
                  field (lit "subject") (str a.subject) (
                    field (lit "templateId") (str a.template_id) (
                      field (lit "templateVersion") (num (nat a.template_version))
                        (field (lit "version") (num (nat 1)) end)))))))))))

abbrev pub application_value : WorkflowApplication → Value
application_value a = obj (application_fields a)

-- `newWorkflowApplication`, with the three fields that it takes of the template
unfoldable pub new_workflow_application :
    Runtime
    → List WorkflowApplicationAnswer
    → (created_at created_by id : Text) → (operator_procedure_url : Option Text)
    → (subject template_id : Text) → (template_version : ℕ) → Result Text WorkflowApplication
unfolding parse_workflow_application application_fields answer_value
new_workflow_application r answers created_at created_by id url subject template_id version =
    parse_workflow_application r (
      application_value (record {
        answers = answers;
        approved_at = none;
        approved_by = none;
        created_at = created_at;
        created_by = created_by;
        id = id;
        operator_procedure_url = url;
        status = pending;
        subject = subject;
        template_id = template_id;
        template_version = version;
      }))

unfoldable pub approved_workflow_application :
    Runtime
    → WorkflowApplication
    → (approved_at approved_by : Text) → Result Text WorkflowApplication
unfolding parse_workflow_application application_fields answer_value
approved_workflow_application r a approved_at approved_by = parse_workflow_application r (
    application_value (record a {
      approved_at = some approved_at;
      approved_by = some approved_by;
      status = approved;
    }))
