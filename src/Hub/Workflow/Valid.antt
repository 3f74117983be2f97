-- ===== src/Hub/Workflow/Valid.antt =====
-- What a workflow application that was read looks like
-- (components/idthw_hub/features/workflow/lib/workflowApplication.ts).
use id_jag_the_hard_way.Base.{
  ℕ, ◌≡◌, refl, subst, Bool, false, Option, none, some, [], ok, ok-injective, >>=-eq-ok,
}
use id_jag_the_hard_way.Base.Text.{Text, text_eq, lit}
use id_jag_the_hard_way.Base.Ensures.{Ensures, on_ok, Ensures-ok, reads, passes}
use id_jag_the_hard_way.Base.Json.{Value, nat, num, property}
use id_jag_the_hard_way.Hub.Input.{
  Runtime, require_record, assert_only_keys, require_matching, is_application_id, is_template_id,
  is_username, require_display_string, require_positive_integer, require_username,
  require_timestamp, parse_optional_http_url,
}
use id_jag_the_hard_way.Hub.Input.Laws.{
  IsMatching, IsDisplay, IsUrl, require_matching-IsMatching, require_positive_integer-eq-ok,
  require_display_string-IsDisplay, parse_optional_http_url-IsUrl,
}
use id_jag_the_hard_way.Hub.Workflow.{
  WorkflowApplicationStatus, pending, approved, WorkflowApplication, here, application_keys,
  parse_answers, parse_version, parse_status, optional, check_approval, parse_template_version,
  parse_workflow_application,
}
use id_jag_the_hard_way.Hub.Workflow.AnswerLists.{IsAnswerList, parse_answers-IsAnswerList}

abbrev pub Present : (Text → Type 0) → Option Text → Type 0
Present P none = Unit
Present P (some s) = P s

-- Who approved and when is there exactly where the application is approved.
abbrev pub Approval : Runtime → WorkflowApplicationStatus → Option Text → Option Text → Type 0
Approval r pending none none = Unit
Approval r approved (some at) (some by) = IsMatching r.is_date at × IsMatching is_username by
Approval r _ _ _ = ⊥

-- What is checked beside the approval.
pub record IsForm (r : Runtime) (a : WorkflowApplication) : Type 0 where
  pub answers_valid : IsAnswerList a.answers
  pub created_at_valid : IsMatching r.is_date a.created_at
  pub created_by_valid : IsMatching is_username a.created_by
  pub id_valid : IsMatching is_application_id a.id
  pub url_valid : IsUrl r a.operator_procedure_url
  pub subject_valid : IsDisplay 200 false a.subject
  pub template_id_valid : IsMatching is_template_id a.template_id
  pub template_version_valid :
      (location : Text)
      → require_positive_integer (some (num (nat a.template_version))) location
        ≡ ok a.template_version

pub record IsApplication (r : Runtime) (a : WorkflowApplication) : Type 0 where
  pub form : IsForm r a
  pub approval : Approval r a.status a.approved_at a.approved_by

optional-Present :
    (test : Text → Bool) (location : Text) (v : Option Value) {o : Option Text}
    → optional (λ v. require_matching test v location) v ≡ ok o
    → Present (IsMatching test) o
optional-Present test location none h = subst (Present (IsMatching test)) (ok-injective h) tt
optional-Present test location (some v) h =
    let (s, e, h) = >>=-eq-ok (require_matching test (some v) location) _ h in
    subst (Present (IsMatching test)) (ok-injective h)
      (require_matching-IsMatching test (some v) location e)

check_approval-Approval :
    (r : Runtime) (status : WorkflowApplicationStatus) (at by : Option Text) {u : Unit {0}}
    → check_approval status at by ≡ ok u
    → Present (IsMatching r.is_date) at
    → Present (IsMatching is_username) by
    → Approval r status at by
unfolding check_approval
check_approval-Approval r pending none none h p q = tt
check_approval-Approval r approved (some at) (some by) h p q = (p, q)
check_approval-Approval r _ _ _ h p q = cc

parse_template_version-eq-ok :
    (v : Option Value) {n : ℕ}
    → parse_template_version v ≡ ok n
    → (location : Text) → require_positive_integer (some (num (nat n))) location ≡ ok n
unfolding parse_template_version
parse_template_version-eq-ok none h =
    subst (λ n. (location : Text) → require_positive_integer (some (num (nat n))) location ≡ ok n)
      (ok-injective h) (λ l. unfold require_positive_integer in refl)
parse_template_version-eq-ok (some v) h = (require_positive_integer-eq-ok (some v) _ h).1

parse_workflow_application-Ensures :
    (r : Runtime) (v : Value) → Ensures (IsApplication r) (parse_workflow_application r v)
unfolding parse_workflow_application require_username require_timestamp
parse_workflow_application-Ensures r v = passes (require_record (some v) (here [])) _ (λ root.
    passes (assert_only_keys root application_keys (here [])) _ (λ _.
      passes (parse_version (property root (lit "version"))) _ (λ _.
        reads (require_matching is_application_id (property root (lit "id")) (here (lit " id"))) _
          (λ a e. require_matching-IsMatching is_application_id _ _ e)
          (λ id i.
            reads
              (require_matching is_template_id (property root (lit "templateId"))
                (here (lit " template id")))
              _ (λ a e. require_matching-IsMatching is_template_id _ _ e)
              (λ template t.
                reads
                  (parse_optional_http_url r (property root (lit "operatorProcedureUrl"))
                    (here (lit " operator procedure URL")))
                  _ (λ a e. parse_optional_http_url-IsUrl r _ _ e)
                  (λ url u.
                    reads
                      (require_matching is_username (property root (lit "createdBy"))
                        (here (lit " creator")))
                      _ (λ a e. require_matching-IsMatching is_username _ _ e)
                      (λ creator c.
                        passes (parse_status (property root (lit "status"))) _ (λ status.
                          reads
                            (optional
                              (λ v. require_matching r.is_date v (here (lit " approval time")))
                              (property root (lit "approvedAt")))
                            _ (λ a e. optional-Present r.is_date _ _ e)
                            (λ at p.
                              reads
                                (optional
                                  (λ v. require_matching is_username v (here (lit " approver")))
                                  (property root (lit "approvedBy")))
                                _ (λ a e. optional-Present is_username _ _ e)
                                (λ by q.
                                  reads (check_approval status at by) _
                                    (λ a e. check_approval-Approval r status at by e p q)
                                    (λ _ k.
                                      reads (parse_answers (property root (lit "answers"))) _
                                        (λ a e.
                                          parse_answers-IsAnswerList (property root (lit "answers"))
                                            e)
                                        (λ answers w.
                                          reads
                                            (require_matching r.is_date
                                              (property root (lit "createdAt"))
                                              (here (lit " creation time")))
                                            _ (λ a e. require_matching-IsMatching r.is_date _ _ e)
                                            (λ created d.
                                              reads
                                                (require_display_string
                                                  (property root (lit "subject"))
                                                  (here (lit " subject")) 200 false)
                                                _
                                                (λ a e.
                                                  require_display_string-IsDisplay _ _ 200 false e)
                                                (λ subject s.
                                                  reads
                                                    (parse_template_version
                                                      (property root (lit "templateVersion")))
                                                    _
                                                    (λ a e.
                                                      parse_template_version-eq-ok
                                                        (property root (lit "templateVersion")) e)
                                                    (λ version n. on_ok (record {
                                                      form = record {
                                                        answers_valid = w;
                                                        created_at_valid = d;
                                                        created_by_valid = c;
                                                        id_valid = i;
                                                        url_valid = u;
                                                        subject_valid = s;
                                                        template_id_valid = t;
                                                        template_version_valid = n;
                                                      };
                                                      approval = k;
                                                    }))))))))))))))))

pub parse_workflow_application-IsApplication :
    (r : Runtime) (v : Value) {a : WorkflowApplication}
    → parse_workflow_application r v ≡ ok a
    → IsApplication r a
parse_workflow_application-IsApplication r v h =
    Ensures-ok _ (parse_workflow_application-Ensures r v) h
