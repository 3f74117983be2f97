-- ===== src/Hub/Workflow/RoundTrip.antt =====
-- Printing and reading of a workflow application
-- (components/idthw_hub/features/workflow/lib/workflowApplication.ts).
use id_jag_the_hard_way.Base.{
  ℕ, ◌≡◌, refl, sym, ◌∙◌, ap, Bool, false, Option, none, some, [], Result, ok, err, ◌>>=◌, ◌>>◌,
  ok-injective, arith,
}
use id_jag_the_hard_way.Base.Text.{Text, lit, text_beq, trim}
use id_jag_the_hard_way.Base.Json.{Value, nat, num, str, arr, property}
use id_jag_the_hard_way.Hub.Input.{
  Runtime, require_record, assert_only_keys, unexpected_key, require_username, is_username,
  is_application_id, is_template_id, require_matching, require_display_string,
  parse_optional_http_url, require_timestamp, require_positive_integer,
}
use id_jag_the_hard_way.Hub.Input.Laws.{
  IsMatching, require_matching-eq-trim, require_display_string_self, parse_optional_http_url_self,
  text_value,
}
use id_jag_the_hard_way.Hub.Workflow.{
  WorkflowApplicationStatus, pending, approved, WorkflowApplication, here, application_keys,
  parse_answers, parse_version, parse_status, optional, check_approval, parse_template_version,
  parse_workflow_application, approved_workflow_application, status_text, answer_items,
  application_fields, application_value,
}
use id_jag_the_hard_way.Hub.Workflow.AnswerLists.{parse_answers_self}
use id_jag_the_hard_way.Hub.Workflow.Valid.{
  Present, Approval, IsForm, IsApplication, parse_workflow_application-IsApplication,
}

-- The properties of a printed application.
pub record Printed (a : WorkflowApplication) : Type 0 where
  pub no_other : assert_only_keys (application_fields a) application_keys (here []) ≡ ok tt
  pub at_version : property (application_fields a) (lit "version") ≡ some (num (nat 1))
  pub at_id : property (application_fields a) (lit "id") ≡ some (str a.id)
  pub at_template_id : property (application_fields a) (lit "templateId") ≡ some (str a.template_id)
  pub at_url :
      property (application_fields a) (lit "operatorProcedureUrl")
      ≡ text_value a.operator_procedure_url
  pub at_created_by : property (application_fields a) (lit "createdBy") ≡ some (str a.created_by)
  pub at_status : property (application_fields a) (lit "status") ≡ some (str (status_text a.status))
  pub at_approved_at : property (application_fields a) (lit "approvedAt") ≡ text_value a.approved_at
  pub at_approved_by : property (application_fields a) (lit "approvedBy") ≡ text_value a.approved_by
  pub at_answers :
      property (application_fields a) (lit "answers") ≡ some (arr (answer_items a.answers))
  pub at_created_at : property (application_fields a) (lit "createdAt") ≡ some (str a.created_at)
  pub at_subject : property (application_fields a) (lit "subject") ≡ some (str a.subject)
  pub at_template_version :
      property (application_fields a) (lit "templateVersion") ≡ some (num (nat a.template_version))

shape :
    (at by url : Option Text) (a : WorkflowApplication)
    → Printed (record a { approved_at = at; approved_by = by; operator_procedure_url = url })
unfolding application_fields property assert_only_keys unexpected_key text_beq
shape at by url a = ground arith

pub application_fields-Printed : (a : WorkflowApplication) → Printed a
application_fields-Printed a = shape a.approved_at a.approved_by a.operator_procedure_url a

optional_self :
    (test : Text → Bool) (location : Text) (o : Option Text)
    → Present (IsMatching test) o
    → optional (λ v. require_matching test v location) (text_value o) ≡ ok o
optional_self test location none h = refl
optional_self test location (some s) h = rw (h.returned location) refl

record Approved (r : Runtime) (status : WorkflowApplicationStatus) (at by : Option Text)
    : Type 0 where
  time : Present (IsMatching r.is_date) at
  who : Present (IsMatching is_username) by
  checked : check_approval status at by ≡ ok tt

Approval-Approved :
    (r : Runtime) (status : WorkflowApplicationStatus) (at by : Option Text)
    → Approval r status at by
    → Approved r status at by
unfolding check_approval
Approval-Approved r pending none none h = record { time = tt; who = tt; checked = refl }
Approval-Approved r approved (some at) (some by) h = record {
  time = h.0;
  who = h.1;
  checked = refl;
}
Approval-Approved r pending none (some by) h = absurd h
Approval-Approved r pending (some at) by h = absurd h
Approval-Approved r approved none by h = absurd h
Approval-Approved r approved (some at) none h = absurd h

pub parse_status_self :
    (s : WorkflowApplicationStatus) → parse_status (some (str (status_text s))) ≡ ok s
unfolding parse_status text_beq
parse_status_self pending = refl
parse_status_self approved = refl

then_ok :
    {A B : Type 0} (m : Result Text A) (k : A → Result Text B) {a : A} {b : Result Text B}
    → m ≡ ok a
    → k a ≡ b
    → (m >>= k) ≡ b
then_ok m k e h = rw e h

-- a check of a property that is known
then_at :
    {A B : Type 0} {v w : Option Value} {a : A} {b : Result Text B}
    → (check : Option Value → Result Text A) (k : A → Result Text B) → v ≡ w
    → check w ≡ ok a
    → k a ≡ b
    → (check v >>= k) ≡ b
then_at check k e c h = rw (e, c) h

parse_template_version_self :
    (n : ℕ)
    → ((location : Text) → require_positive_integer (some (num (nat n))) location ≡ ok n)
    → parse_template_version (some (num (nat n))) ≡ ok n
unfolding parse_template_version
parse_template_version_self n h = h (here (lit " template version"))

-- the reading of a printed form, up to its approval
unfoldable pub reading : (r : Runtime) → WorkflowApplication → Result Text WorkflowApplication
unfolding check_approval
reading r a = do
  at ←
      optional (λ v. require_matching r.is_date v (here (lit " approval time")))
        (text_value a.approved_at)
  by ←
      optional (λ v. require_matching is_username v (here (lit " approver")))
        (text_value a.approved_by)
  check_approval a.status at by
  ok (record a { approved_at = at; approved_by = by })

ap_bind :
    {A B : Type 0} (m : Result Text A) {j k : A → Result Text B}
    → ((a : A) → j a ≡ k a)
    → (m >>= j) ≡ (m >>= k)
ap_bind (ok a) e = e a
ap_bind (err e) h = refl

pub parse_workflow_application-reading :
    (r : Runtime) (a : WorkflowApplication)
    → IsForm r a
    → parse_workflow_application r (application_value a) ≡ reading r a
unfolding parse_workflow_application require_username require_timestamp require_record reading
parse_workflow_application-reading r a h =
    let p = application_fields-Printed a in
    then_ok _ _ p.no_other (
      then_at parse_version _ p.at_version (unfold parse_version in refl) (
        then_at (λ v. require_matching is_application_id v (here (lit " id"))) _ p.at_id
          (h.id_valid.returned _)
          (then_at (λ v. require_matching is_template_id v (here (lit " template id"))) _
            p.at_template_id (h.template_id_valid.returned _)
            (then_at (λ v. parse_optional_http_url r v (here (lit " operator procedure URL"))) _
              p.at_url (parse_optional_http_url_self r a.operator_procedure_url _ h.url_valid)
              (then_at (λ v. require_matching is_username v (here (lit " creator"))) _
                p.at_created_by (h.created_by_valid.returned _)
                (then_at parse_status _ p.at_status (parse_status_self a.status) (
                  rw (p.at_approved_at, p.at_approved_by)
                    (ap_bind
                      (optional (λ v. require_matching r.is_date v (here (lit " approval time")))
                        (text_value a.approved_at))
                      (λ at.
                        ap_bind
                          (optional (λ v. require_matching is_username v (here (lit " approver")))
                            (text_value a.approved_by))
                          (λ by. ap_bind (check_approval a.status at by) (λ _.
                            (then_at parse_answers _ p.at_answers
                              (parse_answers_self a.answers h.answers_valid)
                              (then_at
                                (λ v. require_matching r.is_date v (here (lit " creation time"))) _
                                p.at_created_at (h.created_at_valid.returned _)
                                (then_at
                                  (λ v. require_display_string v (here (lit " subject")) 200 false)
                                  _ p.at_subject
                                  (require_display_string_self a.subject _ 200 false
                                    h.subject_valid)
                                  (then_at parse_template_version _ p.at_template_version
                                    (parse_template_version_self a.template_version
                                      h.template_version_valid)
                                    refl)))))))))))))))

pub parse_workflow_application_self :
    (r : Runtime) (a : WorkflowApplication)
    → IsApplication r a
    → parse_workflow_application r (application_value a) ≡ ok a
unfolding reading
parse_workflow_application_self r a h =
    let q = Approval-Approved r a.status a.approved_at a.approved_by h.approval in
    rw (parse_workflow_application-reading r a h.form) (
      rw
        (
          optional_self r.is_date (here (lit " approval time")) a.approved_at q.time,
          optional_self is_username (here (lit " approver")) a.approved_by q.who,
        )
        (rw q.checked refl))

-- A workflow application that was read from any value is read again, unchanged, from the JSON
-- that it is stored as.
pub parse-print :
    (r : Runtime) (v : Value) {a : WorkflowApplication}
    → parse_workflow_application r v ≡ ok a
    → parse_workflow_application r (application_value a) ≡ ok a
parse-print r v h =
    parse_workflow_application_self r _ (parse_workflow_application-IsApplication r v h)

IsForm-approved :
    (r : Runtime) (a : WorkflowApplication) (now by : Text)
    → IsForm r a
    → IsForm r (record a { approved_at = some now; approved_by = some by; status = approved })
IsForm-approved r a now by h = record {
  answers_valid = h.answers_valid;
  created_at_valid = h.created_at_valid;
  created_by_valid = h.created_by_valid;
  id_valid = h.id_valid;
  url_valid = h.url_valid;
  subject_valid = h.subject_valid;
  template_id_valid = h.template_id_valid;
  template_version_valid = h.template_version_valid;
}

reading-approved :
    (a : WorkflowApplication) (m n : Result Text Text) {d : WorkflowApplication}
    → (m >>= (λ t. ok (some t)) >>= (λ at. n >>= (λ u. ok (some u)) >>= (λ by.
        check_approval approved at by
        >> ok (record a { approved_at = at; approved_by = by; status = approved }))))
      ≡ ok d
    → (t : Text) × (u : Text) × (m ≡ ok t)
      × (n ≡ ok u)
      × (d ≡ record a { approved_at = some t; approved_by = some u; status = approved })
unfolding check_approval
reading-approved a (ok t) (ok u) h = (t, u, refl, refl, sym (ok-injective h))
reading-approved a (ok t) (err e) h = cc
reading-approved a (err e) n h = cc

-- An approval that succeeds changes the approval and the status, and nothing else.
pub approved_workflow_application-eq-ok :
    (r : Runtime) (a : WorkflowApplication) (now by : Text) {d : WorkflowApplication}
    → IsForm r a
    → approved_workflow_application r a now by ≡ ok d
    → d
      ≡ record a { approved_at = some (trim now); approved_by = some (trim by); status = approved }
unfolding approved_workflow_application reading
approved_workflow_application-eq-ok r a now by {d} form h =
    let (t, u, e, f, same) =
      reading-approved a (require_matching r.is_date (some (str now)) (here (lit " approval time")))
        (require_matching is_username (some (str by)) (here (lit " approver")))
        (sym (
            parse_workflow_application-reading r
              (record a { approved_at = some now; approved_by = some by; status = approved })
              (IsForm-approved r a now by form))
          ∙ h) in
    same
    ∙ ap (λ (x : Text). record a { approved_at = some x; approved_by = some u; status = approved })
        (require_matching-eq-trim r.is_date now _ e)
    ∙ ap
        (λ (x : Text). record a {
          approved_at = some (trim now);
          approved_by = some x;
          status = approved;
        })
        (require_matching-eq-trim is_username by _ f)
