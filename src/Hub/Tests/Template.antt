-- ===== src/Hub/Tests/Template.antt =====
-- Form templates of components/idthw_hub, created and updated, and the output of a process.
use id_jag_the_hard_way.Base.{
  ◌≡◌, refl, subst, true, Option, none, some, List, [], ◌∷◌, Result, ok, err, length, inl, inr, ◌∙◌,
  Bool-cases, ok-injective, err-eq-ok, if◌then◌else◌, ◌==◌, arith,
}
use id_jag_the_hard_way.Base.Text.{Text, text_eq, text_beq, text_beq_iff, lit, trim, starts_with}
use id_jag_the_hard_way.Base.Dict.{get, set}
use id_jag_the_hard_way.Base.Json.{property}
use id_jag_the_hard_way.Hub.Cluster.{ConfigMap}
use id_jag_the_hard_way.Hub.Input.{
  Runtime, require_record, assert_only_keys, is_template_id, parse_optional_http_url,
  require_username, is_field_id, require_display_string, require_timestamp,
  require_positive_integer,
}
use id_jag_the_hard_way.Hub.Workflow.Answers.{WorkflowFormTemplate, text_field}
use id_jag_the_hard_way.Hub.Kubectl.{printed, complained, started, on_events, on_close, resolved}
use id_jag_the_hard_way.Hub.Kubectl.Output.{IsWhole, resolved-IsWhole}
use id_jag_the_hard_way.Hub.Template.{
  WorkflowFormTemplateUpdate, parse_workflow_form_template, template_value, template_fields,
}
use id_jag_the_hard_way.Hub.Template.FormFields.{field_value}
use id_jag_the_hard_way.Hub.Template.Store.{
  template_map_of, put_template, prepare_update, write_update,
}
use id_jag_the_hard_way.Hub.Template.RoundTrip.{template_parse-print}
use id_jag_the_hard_way.Hub.Template.Updates.{
  PatchLaw, AcceptLaw, Prepares, Writes, HasTemplate, update-Writes, lost_update,
}
use id_jag_the_hard_way.Hub.Tests.Store.{list_cluster, list_cluster-Laws, find, find_name}

abbrev runtime : Runtime
runtime = record {
  is_date = λ s. true;
  url_protocol = λ s. some (lit "https:");
  locale_leb = λ s t. true;
}

abbrev template : WorkflowFormTemplate
template = record {
  application_content = lit "Access";
  created_at = lit "2026-01-01";
  created_by = lit "ann";
  fields =
      record {
        id = lit "field-1";
        label = lit "Why";
        options = [];
        required = true;
        type = text_field;
      }
      ∷ [];
  id = lit "access";
  operator_procedure_url = none;
  subject = lit "Access";
  version = 1;
}

abbrev update : Text → WorkflowFormTemplateUpdate
update subject = record {
  application_content = lit "Access";
  fields = [];
  operator_procedure_url = none;
  subject = subject;
  version = 1;
}

abbrev updated : Text → WorkflowFormTemplate
updated subject = record template { fields = []; subject = subject; version = 2 }

abbrev review : List ConfigMap → Text → (ConfigMap → ConfigMap) → Result Text (Unit {0})
review s n f = ok tt

-- a patch that would rename its map is refused
unfoldable patch_found :
    List ConfigMap → Option ConfigMap → (ConfigMap → ConfigMap) → Result Text (List ConfigMap)
patch_found s none f = err (lit "NotFound")
patch_found s (some m) f = if (f m).name == m.name then ok (f m ∷ s) else err (lit "Invalid")

abbrev patch : List ConfigMap → Text → (ConfigMap → ConfigMap) → Result Text (List ConfigMap)
patch s n f = patch_found s (find s n) f

patch_found-eq-ok :
    (s : List ConfigMap) (o : Option ConfigMap) (f : ConfigMap → ConfigMap) {t : List ConfigMap}
    {m : ConfigMap}
    → patch_found s o f ≡ ok t
    → o ≡ some m
    → ((f m).name ≡ m.name) × ((f m ∷ s) ≡ t)
unfolding patch_found
patch_found-eq-ok s none f h e = cc
patch_found-eq-ok s (some k) f {t} {m} h e =
    let same : k ≡ m = ground (arith, e) in
    subst (λ m. ((f m).name ≡ m.name) × ((f m ∷ s) ≡ t)) same
      (elim (Bool-cases ((f k).name == k.name)) [
        | inl y ↦ ((text_beq_iff (f k).name k.name).0 y, ok-injective (rw y at h))
        | inr n ↦ absurd (err-eq-ok (rw n at h))
      ])

patch_law :
    (s : List ConfigMap) (n : Text) (f : ConfigMap → ConfigMap) {t : List ConfigMap} {m : ConfigMap}
    → patch s n f ≡ ok t
    → find s n ≡ some m
    → (k : Text) → find t k ≡ (if n == k then some (f m) else find s k)
patch_law s n f {t} {m} h found k =
    let (named, e) = patch_found-eq-ok s (find s n) f h found in
    subst (λ t. find t k ≡ (if n == k then some (f m) else find s k)) e
      (subst (λ n. find (f m ∷ s) k ≡ (if n == k then some (f m) else find s k))
        (named ∙ find_name s n found) (unfold find in refl))

list-PatchLaw : PatchLaw list_cluster patch
list-PatchLaw = record { patch_map_lem = λ s n f h found k. patch_law s n f h found k }

abbrev store0 : List ConfigMap
store0 = template_map_of template ∷ []

abbrev store1 : List ConfigMap
store1 = put_template (updated (lit "A")) (template_map_of template) ∷ store0

abbrev store2 : List ConfigMap
store2 =
    put_template (updated (lit "B")) (put_template (updated (lit "A")) (template_map_of template))
    ∷ store1

parsed : parse_workflow_form_template runtime (template_value template) ≡ ok template
unfolding parse_workflow_form_template patch_found find get set text_beq starts_with require_record
    assert_only_keys template_fields property trim is_template_id parse_optional_http_url
    require_username field_value is_field_id require_display_string require_timestamp
    require_positive_integer put_template
parsed = refl

template_parse-print_example :
    parse_workflow_form_template runtime (template_value template) ≡ ok template
template_parse-print_example = template_parse-print runtime (template_value template) parsed

prepared_a :
    prepare_update list_cluster runtime review patch (lit "access") (update (lit "A")) store0
    ≡ ok (updated (lit "A"))
unfolding prepare_update patch_found find get set text_beq starts_with require_record
    assert_only_keys template_fields property trim is_template_id parse_optional_http_url
    require_username field_value is_field_id require_display_string require_timestamp
    require_positive_integer put_template
prepared_a = refl

prepared_b :
    prepare_update list_cluster runtime review patch (lit "access") (update (lit "B")) store0
    ≡ ok (updated (lit "B"))
unfolding prepare_update patch_found find get set text_beq starts_with require_record
    assert_only_keys template_fields property trim is_template_id parse_optional_http_url
    require_username field_value is_field_id require_display_string require_timestamp
    require_positive_integer put_template
prepared_b = refl

written_a :
    write_update list_cluster runtime review patch (lit "access") (updated (lit "A")) store0
    ≡ ok store1
unfolding write_update patch_found find get set text_beq starts_with require_record assert_only_keys
    template_fields property trim is_template_id parse_optional_http_url require_username
    field_value is_field_id require_display_string require_timestamp require_positive_integer
    put_template
written_a = refl

written_b :
    write_update list_cluster runtime review patch (lit "access") (updated (lit "B")) store1
    ≡ ok store2
unfolding write_update patch_found find get set text_beq starts_with require_record assert_only_keys
    template_fields property trim is_template_id parse_optional_http_url require_username
    field_value is_field_id require_display_string require_timestamp require_positive_integer
    put_template
written_b = refl

update-Writes_example :
    Prepares list_cluster runtime review patch
      (lit "access")
      (update (lit "A"))
      store0
      (updated (lit "A"))
    × Writes list_cluster runtime review patch (lit "access") store0 store1 (updated (lit "A"))
update-Writes_example =
    update-Writes list_cluster runtime review patch list_cluster-Laws list-PatchLaw (lit "access")
      (update (lit "A")) store0 prepared_a written_a

list-AcceptLaw : AcceptLaw list_cluster review patch
unfolding patch_found
list-AcceptLaw = record { accepted = λ s n f found same. accepted s n f found same }
  where
    accepted :
        (s : List ConfigMap) (n : Text) (f : ConfigMap → ConfigMap) {m : ConfigMap}
        → find s n ≡ some m
        → (f m).name ≡ m.name
        → (review s n f ≡ ok tt) × ((t : List ConfigMap) × (patch s n f ≡ ok t))
    accepted s n f {m} found same = (
      refl,
      (f m ∷ s, rw (found, patch_found) (rw ((text_beq_iff (f m).name m.name).1 same) refl)),
    )

-- what is written by two updates, one after the other
abbrev Lost : Type 0
Lost =
    (s1 : List ConfigMap) × (s2 : List ConfigMap) × (write_update list_cluster runtime review patch
        (lit "access") (updated (lit "A")) store0
      ≡ ok s1)
    × (write_update list_cluster runtime review patch (lit "access") (updated (lit "B")) s1 ≡ ok s2)
    × HasTemplate list_cluster runtime review patch s1 (lit "access") (updated (lit "A"))
    × HasTemplate list_cluster runtime review patch s2 (lit "access") (updated (lit "B"))
    × ((updated (lit "B")).version ≡ (updated (lit "A")).version)

lost_update_example : Lost
lost_update_example =
    lost_update list_cluster runtime review patch list_cluster-Laws list-PatchLaw list-AcceptLaw
      (lit "access") (update (lit "A")) (update (lit "B")) store0 prepared_a prepared_b

closed :
    on_close
      (on_events length
        (λ bytes. bytes)
        started
        (printed (lit "ab") ∷ complained (lit "w") ∷ printed (lit "c") ∷ []))
      (some (lit "0"))
      none
    ≡ resolved (lit "abc") (lit "w")
unfolding on_close on_events
closed = refl

resolved-IsWhole_example :
    IsWhole length
      (λ bytes. bytes)
      (printed (lit "ab") ∷ complained (lit "w") ∷ printed (lit "c") ∷ [])
      (lit "abc")
      (lit "w")
resolved-IsWhole_example =
    resolved-IsWhole length (λ bytes. bytes)
      (printed (lit "ab") ∷ complained (lit "w") ∷ printed (lit "c") ∷ []) (some (lit "0")) none
      (omega arith) closed
