-- ===== src/Hub/Tests/Workflow.antt =====
-- Workflow applications of components/idthw_hub, submitted, approved and deleted.
use id_jag_the_hard_way.Base.Dict.{get, set}
use id_jag_the_hard_way.Base.{
  ◌↔◌, ◌⊎◌, inl, Member, ◌≡◌, refl, true, false, none, some, List, [], ◌∷◌, ok,
}
use id_jag_the_hard_way.Base.Text.{Text, lit, text_beq, trim, starts_with}
use id_jag_the_hard_way.Base.Json.{Value, obj, str, field, end, property}
use id_jag_the_hard_way.Hub.Cluster.{ConfigMap, merge}
use id_jag_the_hard_way.Hub.Input.{
  Runtime, require_record, assert_only_keys, is_application_id, is_template_id,
  parse_optional_http_url, require_username, is_field_id, require_display_string, require_timestamp,
  require_positive_integer,
}
use id_jag_the_hard_way.Hub.Workflow.{
  WorkflowApplication, pending, approved, application_value, parse_workflow_application,
  application_fields, answer_value,
}
use id_jag_the_hard_way.Hub.Workflow.Answers.{
  WorkflowFormTemplate, text_field, bullet_list, application_answers_from_payload,
  assert_known_fields,
}
use id_jag_the_hard_way.Hub.Workflow.Store.{
  create_workflow_application, get_workflow_application, approve_all_pending_workflow_applications,
  delete_approved_workflow_applications, config_map_of, approval_patch,
  mark_workflow_application_approved, list_workflow_applications, no_filters, with_status,
  is_wanted,
}
use id_jag_the_hard_way.Hub.Workflow.Answers.Checked.{
  AnswersTo, application_answers_from_payload-AnswersTo,
}
use id_jag_the_hard_way.Hub.Workflow.RoundTrip.{parse-print}
use id_jag_the_hard_way.Hub.Workflow.Listing.{IsStored, Fits, list-IsStored}
use id_jag_the_hard_way.Hub.Workflow.Lifecycle.{
  IsConsistent, Created, Approves, create_workflow_application-Created,
  mark_workflow_application_approved-Approves,
}
use id_jag_the_hard_way.Hub.Workflow.Sweeps.{SweptAll, approve_all-SweptAll, IsStored-IsNamed}
use id_jag_the_hard_way.Hub.Workflow.Deletion.{Deleted, delete_approved-Deleted}
use id_jag_the_hard_way.Hub.Workflow.Reach.{
  IsRead, listed, accept-Approves, start, next, submit, accept, accept_all, clean_up,
  Reach-IsConsistent,
}
use id_jag_the_hard_way.Hub.Workflow.Immutable.{IsOverwritten, Step-keeps_approved}
use id_jag_the_hard_way.Hub.Tests.Store.{list_cluster, list_cluster-Laws, find, patched, live}

abbrev runtime : Runtime
runtime = record {
  is_date = λ s. true;
  url_protocol = λ s. some (lit "https:");
  locale_leb = λ s t. true;
}

abbrev template : WorkflowFormTemplate
template = record {
  application_content = lit "Access";
  created_at = lit "2026-01-01T00:00:00Z";
  created_by = lit "ann";
  fields =
      record {
        id = lit "field-1";
        label = lit "Why";
        options = [];
        required = true;
        type = text_field;
      }
      ∷ record {
        id = lit "field-2";
        label = lit "Team";
        options = lit "red" ∷ lit "blue" ∷ [];
        required = false;
        type = bullet_list;
      }
      ∷ [];
  id = lit "access";
  operator_procedure_url = none;
  subject = lit "Access";
  version = 1;
}

abbrev payload : Value
payload = obj (
    field (lit "answers")
      (obj
        (field (lit "field-1") (str (lit " work ")) (field (lit "field-2") (str (lit "red")) end)))
      end)

abbrev application : WorkflowApplication
application = record {
  answers =
      record { field_id = lit "field-1"; label = lit "Why"; value = lit "work" }
      ∷ record { field_id = lit "field-2"; label = lit "Team"; value = lit "red" }
      ∷ [];
  approved_at = none;
  approved_by = none;
  created_at = lit "2026-01-02T03:04:05.000Z";
  created_by = lit "bob";
  id = lit "20260102030405-0a1b2c3d";
  operator_procedure_url = none;
  status = pending;
  subject = lit "Access";
  template_id = lit "access";
  template_version = 1;
}

abbrev in_store : List ConfigMap
in_store = config_map_of application ∷ []

abbrev approval : WorkflowApplication
approval = record application {
  approved_at = some (lit "2026-02-01");
  approved_by = some (lit "carol");
  status = approved;
}

created :
    create_workflow_application list_cluster runtime template payload
      (lit " bob")
      (lit "2026-01-02T03:04:05.000Z")
      (lit "0a1b2c3d-0000")
      []
    ≡ ok (in_store, application)
unfolding create_workflow_application require_record assert_only_keys text_beq property
    assert_known_fields trim is_application_id starts_with is_template_id parse_optional_http_url
    require_username is_field_id require_display_string require_timestamp find
created = refl

printed : parse_workflow_application runtime (application_value application) ≡ ok application
unfolding parse_workflow_application find live get text_beq starts_with require_record
    assert_only_keys application_fields property trim is_application_id is_template_id
    parse_optional_http_url require_username answer_value is_field_id require_display_string
    require_timestamp require_positive_integer is_wanted merge approval_patch set patched
printed = refl

parse-print_example :
    parse_workflow_application runtime (application_value application) ≡ ok application
parse-print_example = parse-print runtime (application_value application) printed

answered : application_answers_from_payload template payload ≡ ok application.answers
unfolding application_answers_from_payload assert_known_fields find live get text_beq starts_with
    require_record assert_only_keys application_fields property trim is_application_id
    is_template_id parse_optional_http_url require_username answer_value is_field_id
    require_display_string require_timestamp require_positive_integer is_wanted merge approval_patch
    set patched
answered = refl

application_answers_from_payload_example : AnswersTo template.fields application.answers
application_answers_from_payload_example =
    application_answers_from_payload-AnswersTo template payload answered

nothing : (n : Text) {m : ConfigMap} → ¬ (find [] n ≡ some m)
unfolding find
nothing n h = cc

abbrev approved_store : List ConfigMap
approved_store = merge (config_map_of application) (approval_patch approval) ∷ in_store

all_listed :
    list_workflow_applications list_cluster runtime no_filters in_store ≡ ok (application ∷ [])
unfolding list_workflow_applications find live get text_beq starts_with require_record
    assert_only_keys application_fields property trim is_application_id is_template_id
    parse_optional_http_url require_username answer_value is_field_id require_display_string
    require_timestamp require_positive_integer is_wanted merge approval_patch set patched
all_listed = refl

all_marked :
    approve_all_pending_workflow_applications list_cluster runtime
      (lit "carol")
      (λ n. lit "2026-02-01")
      in_store
    ≡ (approved_store, ok 1)
unfolding approve_all_pending_workflow_applications find live get text_beq starts_with
    require_record assert_only_keys application_fields property trim is_application_id
    is_template_id parse_optional_http_url require_username answer_value is_field_id
    require_display_string require_timestamp require_positive_integer is_wanted merge approval_patch
    set patched
all_marked = refl

fetched :
    get_workflow_application list_cluster runtime (lit "20260102030405-0a1b2c3d") approved_store
    ≡ ok approval
unfolding get_workflow_application find live get text_beq starts_with require_record
    assert_only_keys application_fields property trim is_application_id is_template_id
    parse_optional_http_url require_username answer_value is_field_id require_display_string
    require_timestamp require_positive_integer is_wanted merge approval_patch set patched
fetched = refl

again :
    mark_workflow_application_approved list_cluster runtime approval
      (lit "dave")
      (lit "2026-03-01")
      approved_store
    ≡ ok (approved_store, approval)
unfolding mark_workflow_application_approved find live get text_beq starts_with require_record
    assert_only_keys application_fields property trim is_application_id is_template_id
    parse_optional_http_url require_username answer_value is_field_id require_display_string
    require_timestamp require_positive_integer is_wanted merge approval_patch set patched
again = refl

empty-IsConsistent : IsConsistent list_cluster runtime []
empty-IsConsistent = record {
  held = λ n m h. absurd (nothing n h);
  labelled = λ n m h. absurd (nothing n h);
}

create_workflow_application_example :
    Created list_cluster runtime (lit " bob") [] in_store application
create_workflow_application_example =
    create_workflow_application-Created list_cluster runtime list_cluster-Laws template payload
      (lit " bob") (lit "2026-01-02T03:04:05.000Z") (lit "0a1b2c3d-0000") [] empty-IsConsistent
      created

in_store-IsConsistent : IsConsistent list_cluster runtime in_store
in_store-IsConsistent =
    (create_workflow_application-Created list_cluster runtime list_cluster-Laws template payload
      (lit " bob") (lit "2026-01-02T03:04:05.000Z") (lit "0a1b2c3d-0000") [] empty-IsConsistent
      created).consistent

in_store-IsStored : IsStored list_cluster runtime in_store application
in_store-IsStored =
    (create_workflow_application-Created list_cluster runtime list_cluster-Laws template payload
      (lit " bob") (lit "2026-01-02T03:04:05.000Z") (lit "0a1b2c3d-0000") [] empty-IsConsistent
      created).is_stored

marked :
    mark_workflow_application_approved list_cluster runtime application
      (lit "carol")
      (lit "2026-02-01")
      in_store
    ≡ ok (approved_store, approval)
unfolding mark_workflow_application_approved find live get text_beq starts_with require_record
    assert_only_keys application_fields property trim is_application_id is_template_id
    parse_optional_http_url require_username answer_value is_field_id require_display_string
    require_timestamp require_positive_integer is_wanted merge approval_patch set patched
marked = refl

mark_workflow_application_approved_example :
    Approves list_cluster runtime
      (lit "carol")
      (lit "2026-02-01")
      in_store
      approved_store
      application
      approval
mark_workflow_application_approved_example =
    mark_workflow_application_approved-Approves list_cluster runtime list_cluster-Laws application
      (lit "carol") (lit "2026-02-01") in_store in_store-IsConsistent
      (IsStored-IsNamed list_cluster runtime in_store application in_store-IsStored) refl marked

list_workflow_applications_example :
    Member application (application ∷ [])
    ↔ (IsStored list_cluster runtime in_store application × Fits no_filters application)
list_workflow_applications_example =
    list-IsStored list_cluster runtime list_cluster-Laws no_filters in_store
      {as_ = application ∷ []} all_listed application

approve_all_example : SweptAll list_cluster runtime (
    approve_all_pending_workflow_applications list_cluster runtime
      (lit "carol")
      (λ n. lit "2026-02-01")
      in_store)
approve_all_example =
    approve_all-SweptAll list_cluster runtime list_cluster-Laws (lit "carol")
      (λ n. lit "2026-02-01") in_store in_store-IsConsistent

deleted : delete_approved_workflow_applications list_cluster runtime approved_store ≡ ok ([], 1)
unfolding delete_approved_workflow_applications find live get text_beq starts_with require_record
    assert_only_keys application_fields property trim is_application_id is_template_id
    parse_optional_http_url require_username answer_value is_field_id require_display_string
    require_timestamp require_positive_integer is_wanted merge approval_patch set patched
deleted = refl

approved_store-IsConsistent : IsConsistent list_cluster runtime approved_store
approved_store-IsConsistent =
    (mark_workflow_application_approved-Approves list_cluster runtime list_cluster-Laws application
      (lit "carol") (lit "2026-02-01") in_store in_store-IsConsistent
      (IsStored-IsNamed list_cluster runtime in_store application in_store-IsStored) refl
      marked).consistent

approved_store-IsStored : IsStored list_cluster runtime approved_store approval
approved_store-IsStored =
    (mark_workflow_application_approved-Approves list_cluster runtime list_cluster-Laws application
      (lit "carol") (lit "2026-02-01") in_store in_store-IsConsistent
      (IsStored-IsNamed list_cluster runtime in_store application in_store-IsStored) refl
      marked).is_stored

delete_approved_example : Deleted list_cluster runtime approved_store []
delete_approved_example =
    delete_approved-Deleted list_cluster runtime list_cluster-Laws approved_store
      approved_store-IsConsistent deleted

-- Another user approves what he has read while it was pending.
abbrev second_approval : WorkflowApplication
second_approval = record application {
  approved_at = some (lit "2026-03-01");
  approved_by = some (lit "dave");
  status = approved;
}

abbrev twice_store : List ConfigMap
twice_store =
    merge (merge (config_map_of application) (approval_patch approval))
      (approval_patch second_approval)
    ∷ approved_store

twice :
    mark_workflow_application_approved list_cluster runtime application
      (lit "dave")
      (lit "2026-03-01")
      approved_store
    ≡ ok (twice_store, second_approval)
unfolding mark_workflow_application_approved find live get text_beq starts_with require_record
    assert_only_keys application_fields property trim is_application_id is_template_id
    parse_optional_http_url require_username answer_value is_field_id require_display_string
    require_timestamp require_positive_integer is_wanted merge approval_patch set patched
twice = refl

pending_listed :
    list_workflow_applications list_cluster runtime (with_status pending) in_store
    ≡ ok (application ∷ [])
unfolding list_workflow_applications find live get text_beq starts_with require_record
    assert_only_keys application_fields property trim is_application_id is_template_id
    parse_optional_http_url require_username answer_value is_field_id require_display_string
    require_timestamp require_positive_integer is_wanted merge approval_patch set patched
pending_listed = refl

application-IsRead : IsRead list_cluster runtime application
application-IsRead = listed in_store {as_ = application ∷ []} pending_listed (inl refl)

twice_store-IsStored : IsStored list_cluster runtime twice_store second_approval
twice_store-IsStored =
    (accept-Approves list_cluster runtime list_cluster-Laws application (lit "dave")
      (lit "2026-03-01") approved_store approved_store-IsConsistent application-IsRead refl
      twice).is_stored

Step-keeps_approved_example :
    ((second_approval ≡ approval) ⊎ IsOverwritten list_cluster runtime approval second_approval)
    × (second_approval.status ≡ approved)
Step-keeps_approved_example =
    Step-keeps_approved list_cluster runtime list_cluster-Laws approved_store twice_store approval
      second_approval approved_store-IsConsistent
      (accept (lit "dave") (lit "2026-03-01") application-IsRead twice) approved_store-IsStored refl
      twice_store-IsStored refl

Reach-IsConsistent_example : IsConsistent list_cluster runtime []
Reach-IsConsistent_example =
    Reach-IsConsistent list_cluster runtime list_cluster-Laws [] [] empty-IsConsistent (
      next
        (next
          (next start (
            submit template payload (lit " bob") (lit "2026-01-02T03:04:05.000Z")
              (lit "0a1b2c3d-0000") created))
          (accept_all (lit "carol") (λ n. lit "2026-02-01") all_marked))
        (clean_up deleted))
