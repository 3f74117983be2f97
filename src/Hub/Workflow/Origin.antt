-- ===== src/Hub/Workflow/Origin.antt =====
-- Where the parts of an application that is read come from
-- (components/idthw_hub/features/workflow/lib/workflowApplication.ts).
use id_jag_the_hard_way.Base.{
  ℕ, ◌≡◌, sym, ◌∙◌, subst, false, Option, none, some, List, [], ok, ok-injective,
}
use id_jag_the_hard_way.Base.Text.{Text, lit, trim}
use id_jag_the_hard_way.Base.Ensures.{Ensures, on_ok, Ensures-ok, reads, passes}
use id_jag_the_hard_way.Base.Json.{str, obj, Fields, property}
use id_jag_the_hard_way.Hub.Input.{
  Runtime, require_record, assert_only_keys, require_matching, is_application_id, is_template_id,
  is_username, require_display_string, require_username, require_timestamp, parse_optional_http_url,
}
use id_jag_the_hard_way.Hub.Input.Laws.{require_matching-eq-trim}
use id_jag_the_hard_way.Hub.Workflow.{
  WorkflowApplicationAnswer, pending, WorkflowApplication, here, application_keys, parse_answers,
  parse_version, parse_status, optional, check_approval, parse_template_version,
  parse_workflow_application, new_workflow_application, application_fields,
}
use id_jag_the_hard_way.Hub.Workflow.Valid.{IsApplication, parse_workflow_application-IsApplication}
use id_jag_the_hard_way.Hub.Workflow.RoundTrip.{application_fields-Printed, parse_status_self}

record IsReadFrom (root : Fields) (a : WorkflowApplication) : Type 0 where
  at_id : require_matching is_application_id (property root (lit "id")) (here (lit " id")) ≡ ok a.id
  at_template_id :
      require_matching is_template_id (property root (lit "templateId")) (here (lit " template id"))
      ≡ ok a.template_id
  at_created_by :
      require_matching is_username (property root (lit "createdBy")) (here (lit " creator"))
      ≡ ok a.created_by
  at_status : parse_status (property root (lit "status")) ≡ ok a.status

parse_workflow_application-Origin :
    (r : Runtime) (root : Fields)
    → Ensures (IsReadFrom root) (parse_workflow_application r (obj root))
unfolding parse_workflow_application require_username require_timestamp require_record
parse_workflow_application-Origin r root =
    passes (assert_only_keys root application_keys (here [])) _ (λ _.
      passes (parse_version (property root (lit "version"))) _ (λ _.
        reads (require_matching is_application_id (property root (lit "id")) (here (lit " id"))) _
          (λ a e. e)
          (λ id i.
            reads
              (require_matching is_template_id (property root (lit "templateId"))
                (here (lit " template id")))
              _ (λ a e. e)
              (λ template t.
                passes
                  (parse_optional_http_url r (property root (lit "operatorProcedureUrl"))
                    (here (lit " operator procedure URL")))
                  _
                  (λ url.
                    reads
                      (require_matching is_username (property root (lit "createdBy"))
                        (here (lit " creator")))
                      _ (λ a e. e)
                      (λ creator c.
                        reads (parse_status (property root (lit "status"))) _ (λ a e. e)
                          (λ status s.
                            passes
                              (optional
                                (λ v. require_matching r.is_date v (here (lit " approval time")))
                                (property root (lit "approvedAt")))
                              _
                              (λ at.
                                passes
                                  (optional
                                    (λ v. require_matching is_username v (here (lit " approver")))
                                    (property root (lit "approvedBy")))
                                  _
                                  (λ by. passes (check_approval status at by) _ (λ _.
                                    passes (parse_answers (property root (lit "answers"))) _
                                      (λ answers.
                                        passes
                                          (require_matching r.is_date
                                            (property root (lit "createdAt"))
                                            (here (lit " creation time")))
                                          _
                                          (λ created.
                                            passes
                                              (require_display_string
                                                (property root (lit "subject"))
                                                (here (lit " subject")) 200 false)
                                              _
                                              (λ subject.
                                                passes
                                                  (parse_template_version
                                                    (property root (lit "templateVersion")))
                                                  _
                                                  (λ version. on_ok (record {
                                                    at_id = i;
                                                    at_template_id = t;
                                                    at_created_by = c;
                                                    at_status = s;
                                                  })))))))))))))))

-- A new application is pending, and it is its creator's.
pub new_workflow_application-eq-ok :
    (r : Runtime) (answers : List WorkflowApplicationAnswer) (now by id : Text) (url : Option Text)
    (subject template : Text) (version : ℕ) {a : WorkflowApplication}
    → new_workflow_application r answers now by id url subject template version ≡ ok a
    → (a.status ≡ pending)
      × (a.created_by ≡ trim by)
      × (a.id ≡ trim id)
      × (a.template_id ≡ trim template)
unfolding new_workflow_application
new_workflow_application-eq-ok r answers now by id url subject template version {a} h =
    let blank : WorkflowApplication = record {
      answers = answers;
      approved_at = none;
      approved_by = none;
      created_at = now;
      created_by = by;
      id = id;
      operator_procedure_url = url;
      status = pending;
      subject = subject;
      template_id = template;
      template_version = version;
    } in
    let o = Ensures-ok _ (parse_workflow_application-Origin r (application_fields blank)) h in
    let p = application_fields-Printed blank in
    let i : require_matching is_application_id (some (str id)) (here (lit " id")) ≡ ok a.id =
      subst (λ v. require_matching is_application_id v (here (lit " id")) ≡ ok a.id) p.at_id
        o.at_id in
    let t : require_matching is_template_id (some (str template)) (here (lit " template id"))
        ≡ ok a.template_id =
      subst (λ v. require_matching is_template_id v (here (lit " template id")) ≡ ok a.template_id)
        p.at_template_id o.at_template_id in
    let c : require_matching is_username (some (str by)) (here (lit " creator")) ≡ ok a.created_by =
      subst (λ v. require_matching is_username v (here (lit " creator")) ≡ ok a.created_by)
        p.at_created_by o.at_created_by in
    let s : parse_status (some (str (lit "pending"))) ≡ ok a.status =
      subst (λ v. parse_status v ≡ ok a.status) p.at_status o.at_status in
    (
      ok-injective (sym s ∙ parse_status_self pending),
      require_matching-eq-trim is_username by _ c,
      require_matching-eq-trim is_application_id id _ i,
      require_matching-eq-trim is_template_id template _ t,
    )

pub new_workflow_application-IsApplication :
    (r : Runtime) (answers : List WorkflowApplicationAnswer) (now by id : Text) (url : Option Text)
    (subject template : Text) (version : ℕ) {a : WorkflowApplication}
    → new_workflow_application r answers now by id url subject template version ≡ ok a
    → IsApplication r a
unfolding new_workflow_application
new_workflow_application-IsApplication r answers now by id url subject template version h =
    parse_workflow_application-IsApplication r _ h
