-- ===== src/Hub/Workflow/Answers.antt =====
-- components/idthw_hub/features/workflow/lib/workflowApplication.ts: the answers that an applicant
-- sends for a form template.
pub mod Checked
use id_jag_the_hard_way.Base.{
  ℕ, ◌+◌, Bool, true, false, not, ◌&&◌, ◌||◌, Option, none, some, List, [], ◌∷◌, ◌++◌, map, any,
  ltb, if◌then◌else◌, ◌==◌, nat_eq, length, is_empty, includes, Result, ok, err, ◌>>=◌, ◌>>◌,
  throw_if,
}
use id_jag_the_hard_way.Base.Text.{Text, text_eq, lit, trim}
use id_jag_the_hard_way.Base.Json.{Value, str, Fields, property}
use id_jag_the_hard_way.Hub.Input.{
  decimal, require_record, assert_only_keys, unexpected_key, require_positive_integer, has_control,
}
use id_jag_the_hard_way.Hub.Workflow.{WorkflowApplicationAnswer, here}

pub data FieldType : Type 0 where
  text_field bullet_list : FieldType

pub record WorkflowFormTemplateField : Type 0 where
  pub id : Text
  pub label : Text
  pub options : List Text
  pub required : Bool
  pub type : FieldType

pub record WorkflowFormTemplate : Type 0 where
  pub application_content : Text
  pub created_at : Text
  pub created_by : Text
  pub fields : List WorkflowFormTemplateField
  pub id : Text
  pub operator_procedure_url : Option Text
  pub subject : Text
  pub version : ℕ

-- `Error`, and the two classes that extend it
pub data WorkflowError : Type 0 where
  failed : Text → WorkflowError
  version_conflict : Text → WorkflowError
  not_found : Text → WorkflowError

-- An `Error` that a callee throws passes through.
abbrev pub failing : {A : Type 0} → Result Text A → Result WorkflowError A
failing (ok a) = ok a
failing (err e) = err (failed e)

unfoldable pub raw_answer : WorkflowFormTemplateField → Option Value → Result WorkflowError Text
raw_answer f none = ok []
raw_answer f (some (str s)) = ok (trim s)
raw_answer f (some v) =
    err (failed (lit "Workflow application answer for " ++ (f.label ++ lit " is invalid")))

abbrev pub is_bullet_list : FieldType → Bool
is_bullet_list text_field = false
is_bullet_list bullet_list = true

-- the checks of an answer that is trimmed
unfoldable pub check_answer :
    WorkflowFormTemplateField → Text → Result WorkflowError WorkflowApplicationAnswer
unfolding has_control
check_answer f answer = do
  throw_if (f.required && is_empty answer) (failed (f.label ++ lit " is required"))
  throw_if (is_bullet_list f.type && (not (is_empty answer) && not (includes f.options answer)))
      (failed (lit "Workflow application answer for " ++ (f.label ++ lit " is invalid")))
  throw_if (ltb 10000 (length answer) || has_control answer)
      (failed (lit "Workflow application answer for " ++ (f.label ++ lit " is invalid")))
  ok (record { field_id = f.id; label = f.label; value = answer })

unfoldable pub answer_fields :
    List WorkflowFormTemplateField → Fields → Result WorkflowError (List WorkflowApplicationAnswer)
unfolding raw_answer check_answer
answer_fields [] submitted = ok []
answer_fields (f ∷ fs) submitted = do
  raw ← raw_answer f (property submitted f.id)
  answer ← check_answer f raw
  answers ← answer_fields fs submitted
  ok (answer ∷ answers)

unfoldable pub submitted_version : WorkflowFormTemplate → Option Value → Result Text ℕ
unfolding require_positive_integer
submitted_version t none = ok t.version
submitted_version t v = require_positive_integer v (here (lit " template version"))

-- As in `assert_only_keys`, an empty key is falsy.
unfoldable pub assert_known_fields : Fields → List Text → Result Text (Unit {0})
unfolding unexpected_key
assert_known_fields submitted ids = elim (unexpected_key submitted ids) [
  | none ↦ ok tt
  | some [] ↦ ok tt
  | some (c ∷ k) ↦ err (lit "Workflow application contains unknown field " ++ c ∷ k)
]

unfoldable pub application_answers_from_payload :
    WorkflowFormTemplate → Value → Result WorkflowError (List WorkflowApplicationAnswer)
unfolding submitted_version answer_fields
application_answers_from_payload t v = do
  root ← failing (require_record (some v) (here []))
  failing (assert_only_keys root (lit "answers" ∷ lit "templateVersion" ∷ []) (here []))
  version ← failing (submitted_version t (property root (lit "templateVersion")))
  throw_if (not (version == t.version)) (
      version_conflict (
        lit "Workflow form template is now version "
        ++ (decimal t.version ++ lit "; reload before submitting")))
  submitted ← failing (require_record (property root (lit "answers")) (here (lit " answers")))
  failing (assert_known_fields submitted (map (λ f. f.id) t.fields))
  answer_fields t.fields submitted
