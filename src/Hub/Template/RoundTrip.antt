-- ===== src/Hub/Template/RoundTrip.antt =====
-- Printing and updating a form template
-- (components/idthw_hub/features/workflow/lib/workflowFormTemplate.ts).
use id_jag_the_hard_way.Base.{
  ℕ, ◌+◌, ◌≡◌, refl, sym, subst, ◌∙◌, true, false, not, Option, some, [], ◌==◌, nat_eq, Result, ok,
  ◌>>=◌, throw_if, >>=-eq-ok, throw_if-eq-ok, ok-injective, arith,
}
use id_jag_the_hard_way.Base.Ensures.{Ensures-ok}
use id_jag_the_hard_way.Base.Text.{Text, text_beq, lit}
use id_jag_the_hard_way.Base.Json.{Value, nat, num, str, arr, property}
use id_jag_the_hard_way.Hub.Input.{
  Runtime, require_record, assert_only_keys, unexpected_key, require_matching, is_template_id,
  is_username, require_display_string, require_positive_integer, require_username,
  require_timestamp, parse_optional_http_url,
}
use id_jag_the_hard_way.Hub.Input.Laws.{
  require_display_string_self, parse_optional_http_url_self, text_value,
}
use id_jag_the_hard_way.Hub.Workflow.Answers.{WorkflowFormTemplate}
use id_jag_the_hard_way.Hub.Template.FormFields.{parse_fields, field_items, number_fields}
use id_jag_the_hard_way.Hub.Template.{
  about, template_keys, parse_workflow_form_template, template_fields, template_value,
  WorkflowFormTemplateUpdate, updated_workflow_form_template,
}
use id_jag_the_hard_way.Hub.Template.Valid.{parse_fields_self}
use id_jag_the_hard_way.Hub.Template.Reading.{
  IsTemplate, parse_workflow_form_template-Read, parse_workflow_form_template-IsTemplate,
}

record Printed (t : WorkflowFormTemplate) : Type 0 where
  no_other : assert_only_keys (template_fields t) template_keys (about []) ≡ ok tt
  at_content :
      property (template_fields t) (lit "applicationContent") ≡ some (str t.application_content)
  at_created_at : property (template_fields t) (lit "createdAt") ≡ some (str t.created_at)
  at_created_by : property (template_fields t) (lit "createdBy") ≡ some (str t.created_by)
  at_fields : property (template_fields t) (lit "fields") ≡ some (arr (field_items t.fields))
  at_id : property (template_fields t) (lit "id") ≡ some (str t.id)
  at_url :
      property (template_fields t) (lit "operatorProcedureUrl")
      ≡ text_value t.operator_procedure_url
  at_subject : property (template_fields t) (lit "subject") ≡ some (str t.subject)
  at_version : property (template_fields t) (lit "version") ≡ some (num (nat t.version))

template_fields-Printed : (t : WorkflowFormTemplate) → Printed t
unfolding template_fields property assert_only_keys unexpected_key text_beq
template_fields-Printed t = ground arith

-- a check of a property that is known
then_at :
    {A B : Type 0} {v w : Option Value} {a : A} {b : Result Text B}
    → (check : Option Value → Result Text A) (k : A → Result Text B) → v ≡ w
    → check w ≡ ok a
    → k a ≡ b
    → (check v >>= k) ≡ b
then_at check k e c h = rw (e, c) h

pub parse_workflow_form_template_self :
    (r : Runtime) (t : WorkflowFormTemplate)
    → IsTemplate r t
    → parse_workflow_form_template r (template_value t) ≡ ok t
unfolding parse_workflow_form_template require_username require_timestamp require_record
parse_workflow_form_template_self r t h =
    let p = template_fields-Printed t in
    rw p.no_other (
      then_at (λ v. require_matching is_template_id v (about (lit " id"))) _ p.at_id
        (h.id_valid.returned _)
        (then_at (λ v. require_matching is_username v (about (lit " creator"))) _ p.at_created_by
          (h.created_by_valid.returned _)
          (then_at (λ v. parse_optional_http_url r v (about (lit " operator procedure URL"))) _
            p.at_url (parse_optional_http_url_self r t.operator_procedure_url _ h.url_valid)
            (then_at
              (λ v. require_display_string v (about (lit " application content")) 10000 false) _
              p.at_content
              (require_display_string_self t.application_content
                (about (lit " application content")) 10000 false h.content_valid)
              (then_at (λ v. require_matching r.is_date v (about (lit " creation time"))) _
                p.at_created_at (h.created_at_valid.returned _)
                (then_at (λ v. parse_fields v true) _ p.at_fields
                  (parse_fields_self t.fields h.fields_valid)
                  (then_at (λ v. require_display_string v (about (lit " subject")) 200 false) _
                    p.at_subject
                    (require_display_string_self t.subject (about (lit " subject")) 200 false
                      h.subject_valid)
                    (then_at (λ v. require_positive_integer v (about (lit " version"))) _
                      p.at_version (h.version_valid _) refl))))))))

-- A form template that was read from any value is read again, unchanged, from the JSON that it
-- is stored as.
pub template_parse-print :
    (r : Runtime) (v : Value) {t : WorkflowFormTemplate}
    → parse_workflow_form_template r v ≡ ok t
    → parse_workflow_form_template r (template_value t) ≡ ok t
template_parse-print r v h =
    parse_workflow_form_template_self r _ (parse_workflow_form_template-IsTemplate r v h)

-- What an update keeps, and the version that it gives.
pub record Succeeds (current t : WorkflowFormTemplate) : Type 0 where
  pub same_id : t.id ≡ current.id
  pub same_creator : t.created_by ≡ current.created_by
  pub same_creation : t.created_at ≡ current.created_at
  pub next_version : t.version ≡ current.version + 1

positive_self :
    (n : ℕ) (location : Text) {k : ℕ}
    → require_positive_integer (some (num (nat n))) location ≡ ok k
    → k ≡ n
unfolding require_positive_integer
positive_self n location h = ground arith

same_version : (m n : ℕ) → not (m == n) ≡ false → m ≡ n
same_version m n h = ground arith

pub updated-Succeeds :
    (r : Runtime) (current : WorkflowFormTemplate) (input : WorkflowFormTemplateUpdate)
    {t : WorkflowFormTemplate}
    → IsTemplate r current
    → updated_workflow_form_template r current input ≡ ok t
    → (current.version ≡ input.version) × IsTemplate r t × Succeeds current t
unfolding updated_workflow_form_template
updated-Succeeds r current input {t} valid h =
    let (_, e, h) =
      >>=-eq-ok
        (throw_if (not (current.version == input.version))
          (lit "Workflow form template version is stale"))
        _ h in
    let same = throw_if-eq-ok (not (current.version == input.version)) _ e in
    let made : WorkflowFormTemplate = record {
      application_content = input.application_content;
      created_at = current.created_at;
      created_by = current.created_by;
      fields = number_fields 0 input.fields;
      id = current.id;
      operator_procedure_url = input.operator_procedure_url;
      subject = input.subject;
      version = current.version + 1;
    } in
    let (is_template, o) =
      Ensures-ok _ (parse_workflow_form_template-Read r (template_fields made)) h in
    let p = template_fields-Printed made in
    let i =
      subst (λ v. require_matching is_template_id v (about (lit " id")) ≡ ok t.id) p.at_id
        o.at_id in
    let c =
      subst (λ v. require_matching is_username v (about (lit " creator")) ≡ ok t.created_by)
        p.at_created_by o.at_created_by in
    let d =
      subst (λ v. require_matching r.is_date v (about (lit " creation time")) ≡ ok t.created_at)
        p.at_created_at o.at_created_at in
    let v =
      subst (λ v. require_positive_integer v (about (lit " version")) ≡ ok t.version) p.at_version
        o.at_version in
    (
      same_version current.version input.version same,
      is_template,
      record {
        same_id = ok-injective (sym i ∙ valid.id_valid.returned _);
        same_creator = ok-injective (sym c ∙ valid.created_by_valid.returned _);
        same_creation = ok-injective (sym d ∙ valid.created_at_valid.returned _);
        next_version = positive_self (current.version + 1) (about (lit " version")) v;
      },
    )
