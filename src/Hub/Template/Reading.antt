-- ===== src/Hub/Template/Reading.antt =====
-- What a form template that was read looks like
-- (components/idthw_hub/features/workflow/lib/workflowFormTemplate.ts).
use id_jag_the_hard_way.Base.{◌≡◌, refl, subst, true, false, some, [], nat_eq, ok}
use id_jag_the_hard_way.Base.Ensures.{Ensures, on_ok, Ensures-ok, reads, passes}
use id_jag_the_hard_way.Base.Text.{Text, lit}
use id_jag_the_hard_way.Base.Json.{Value, nat, num, obj, Fields, property}
use id_jag_the_hard_way.Hub.Input.{
  Runtime, require_record, assert_only_keys, require_matching, is_template_id, is_username,
  require_display_string, require_positive_integer, require_username, require_timestamp,
  parse_optional_http_url,
}
use id_jag_the_hard_way.Hub.Input.Laws.{
  IsMatching, IsDisplay, IsUrl, require_matching-IsMatching, require_positive_integer-eq-ok,
  require_display_string-IsDisplay, parse_optional_http_url-IsUrl,
}
use id_jag_the_hard_way.Hub.Workflow.Answers.{WorkflowFormTemplate}
use id_jag_the_hard_way.Hub.Template.FormFields.{parse_fields}
use id_jag_the_hard_way.Hub.Template.{about, template_keys, parse_workflow_form_template}
use id_jag_the_hard_way.Hub.Template.Valid.{IsFieldList, parse_fields-IsFieldList}

pub record IsTemplate (r : Runtime) (t : WorkflowFormTemplate) : Type 0 where
  pub content_valid : IsDisplay 10000 false t.application_content
  pub created_at_valid : IsMatching r.is_date t.created_at
  pub created_by_valid : IsMatching is_username t.created_by
  pub fields_valid : IsFieldList t.fields
  pub id_valid : IsMatching is_template_id t.id
  pub url_valid : IsUrl r t.operator_procedure_url
  pub subject_valid : IsDisplay 200 false t.subject
  pub version_valid :
      (location : Text)
      → require_positive_integer (some (num (nat t.version))) location ≡ ok t.version

-- the identity and the version, as the properties give them
pub record IsReadFrom (r : Runtime) (root : Fields) (t : WorkflowFormTemplate) : Type 0 where
  pub at_id :
      require_matching is_template_id (property root (lit "id")) (about (lit " id")) ≡ ok t.id
  pub at_created_by :
      require_matching is_username (property root (lit "createdBy")) (about (lit " creator"))
      ≡ ok t.created_by
  pub at_created_at :
      require_matching r.is_date (property root (lit "createdAt")) (about (lit " creation time"))
      ≡ ok t.created_at
  pub at_version :
      require_positive_integer (property root (lit "version")) (about (lit " version"))
      ≡ ok t.version

abbrev pub Read : Runtime → Fields → WorkflowFormTemplate → Type 0
Read r root t = IsTemplate r t × IsReadFrom r root t

pub parse_workflow_form_template-Read :
    (r : Runtime) (root : Fields)
    → Ensures (Read r root) (parse_workflow_form_template r (obj root))
unfolding parse_workflow_form_template require_username require_timestamp require_record
parse_workflow_form_template-Read r root =
    passes (assert_only_keys root template_keys (about [])) _ (λ _.
      reads
        {Q = λ a.
          require_matching is_template_id (property root (lit "id")) (about (lit " id")) ≡ ok a}
        (require_matching is_template_id (property root (lit "id")) (about (lit " id"))) _
        (λ a e. e)
        (λ id i.
          reads
            {Q = λ a.
              require_matching is_username (property root (lit "createdBy"))
                (about (lit " creator"))
              ≡ ok a}
            (require_matching is_username (property root (lit "createdBy"))
              (about (lit " creator")))
            _ (λ a e. e)
            (λ creator c.
              reads
                (parse_optional_http_url r (property root (lit "operatorProcedureUrl"))
                  (about (lit " operator procedure URL")))
                _
                (λ a e.
                  parse_optional_http_url-IsUrl r (property root (lit "operatorProcedureUrl"))
                    (about (lit " operator procedure URL")) e)
                (λ url u.
                  reads
                    (require_display_string (property root (lit "applicationContent"))
                      (about (lit " application content")) 10000 false)
                    _
                    (λ a e.
                      require_display_string-IsDisplay (property root (lit "applicationContent"))
                        (about (lit " application content")) 10000 false e)
                    (λ content k.
                      reads
                        {Q = λ a.
                          require_matching r.is_date (property root (lit "createdAt"))
                            (about (lit " creation time"))
                          ≡ ok a}
                        (require_matching r.is_date (property root (lit "createdAt"))
                          (about (lit " creation time")))
                        _ (λ a e. e)
                        (λ created d.
                          reads (parse_fields (property root (lit "fields")) true) _
                            (λ a e. parse_fields-IsFieldList (property root (lit "fields")) e)
                            (λ fields f.
                              reads
                                (require_display_string (property root (lit "subject"))
                                  (about (lit " subject")) 200 false)
                                _
                                (λ a e.
                                  require_display_string-IsDisplay (property root (lit "subject"))
                                    (about (lit " subject")) 200 false e)
                                (λ subject s.
                                  reads
                                    {Q = λ a.
                                      require_positive_integer (property root (lit "version"))
                                        (about (lit " version"))
                                      ≡ ok a}
                                    (require_positive_integer (property root (lit "version"))
                                      (about (lit " version")))
                                    _ (λ a e. e)
                                    (λ version v. on_ok (
                                      record {
                                        content_valid = k;
                                        created_at_valid =
                                            require_matching-IsMatching r.is_date _ _ d;
                                        created_by_valid =
                                            require_matching-IsMatching is_username _ _ c;
                                        fields_valid = f;
                                        id_valid = require_matching-IsMatching is_template_id _ _ i;
                                        url_valid = u;
                                        subject_valid = s;
                                        version_valid =
                                            (require_positive_integer-eq-ok
                                              (property root (lit "version")) _ v).1;
                                      },
                                      record {
                                        at_id = i;
                                        at_created_by = c;
                                        at_created_at = d;
                                        at_version = v;
                                      },
                                    ))))))))))

parse_workflow_form_template-eq-ok :
    (r : Runtime) (v : Value) {t : WorkflowFormTemplate}
    → parse_workflow_form_template r v ≡ ok t
    → (root : Fields) × (v ≡ obj root)
unfolding parse_workflow_form_template require_record
parse_workflow_form_template-eq-ok r (obj fs) h = (fs, refl)
parse_workflow_form_template-eq-ok r v h = cc

pub parse_workflow_form_template-IsTemplate :
    (r : Runtime) (v : Value) {t : WorkflowFormTemplate}
    → parse_workflow_form_template r v ≡ ok t
    → IsTemplate r t
parse_workflow_form_template-IsTemplate r v {t} h =
    let (root, e) = parse_workflow_form_template-eq-ok r v h in
    (Ensures-ok _ (parse_workflow_form_template-Read r root)
      (subst (λ v. parse_workflow_form_template r v ≡ ok t) e h)).0
