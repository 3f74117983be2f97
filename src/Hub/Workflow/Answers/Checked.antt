-- ===== src/Hub/Workflow/Answers/Checked.antt =====
-- The answers that are taken from a payload
-- (components/idthw_hub/features/workflow/lib/workflowApplication.ts).
use id_jag_the_hard_way.Base.{
  ℕ, ◌≢◌, ◌⊎◌, All, ◌≡◌, ◌≤◌, refl, subst, true, false, not, ◌&&◌, ◌||◌, some, nat_eq, List, [],
  ◌∷◌, map, Member, includes, includes_iff, ltb, length, is_empty, ◌==◌, ok, throw_if, >>=-eq-ok,
  ok-injective, throw_if-eq-ok, arith,
}
use id_jag_the_hard_way.Base.Text.{Text, text_eq, lit}
use id_jag_the_hard_way.Base.Ensures.{Ensures, Ensures-intro, Ensures-ok, passes}
use id_jag_the_hard_way.Base.Json.{Value, Fields, property}
use id_jag_the_hard_way.Hub.Input.{has_control, require_record, assert_only_keys}
use id_jag_the_hard_way.Hub.Workflow.{WorkflowApplicationAnswer, here}
use id_jag_the_hard_way.Hub.Workflow.Answers.{
  bullet_list, WorkflowFormTemplateField, WorkflowFormTemplate, failing, raw_answer, is_bullet_list,
  check_answer, answer_fields, submitted_version, assert_known_fields,
  application_answers_from_payload,
}

-- not a control character of ASCII, or a tab, a line feed or a carriage return
abbrev pub IsShown : ℕ → Type 0
IsShown c = (c ≡ 9) ⊎ ((c ≡ 10) ⊎ ((c ≡ 13) ⊎ ((32 ≤ c) × (c ≢ 127))))

has_control-IsShown : (s : Text) → has_control s ≡ false → All IsShown s
unfolding has_control
has_control-IsShown [] h = tt
has_control-IsShown (c ∷ s) h = ground (arith, h, has_control-IsShown s)

pub record IsAnswerTo (f : WorkflowFormTemplateField) (a : WorkflowApplicationAnswer) : Type 0 where
  pub same_field : a.field_id ≡ f.id
  pub same_label : a.label ≡ f.label
  pub given : f.required ≡ true → is_empty a.value ≡ false
  pub among_options : f.type ≡ bullet_list → is_empty a.value ≡ false → Member a.value f.options
  pub bounded : length a.value ≤ 10000
  pub no_control : All IsShown a.value

-- One answer for each field, in the order of the fields.
abbrev pub AnswersTo : List WorkflowFormTemplateField → List WorkflowApplicationAnswer → Type 0
AnswersTo [] [] = Unit
AnswersTo (f ∷ fs) (a ∷ as_) = IsAnswerTo f a × AnswersTo fs as_
AnswersTo _ _ = ⊥

check_answer-IsAnswerTo :
    (f : WorkflowFormTemplateField) (s : Text) {a : WorkflowApplicationAnswer}
    → check_answer f s ≡ ok a
    → IsAnswerTo f a
unfolding check_answer
check_answer-IsAnswerTo f s {a} h =
    let (_, e1, h) = >>=-eq-ok (throw_if (f.required && is_empty s) _) _ h in
    let (_, e2, h) =
      >>=-eq-ok
        (throw_if (is_bullet_list f.type && (not (is_empty s) && not (includes f.options s))) _) _
        h in
    let (_, e3, h) = >>=-eq-ok (throw_if (ltb 10000 (length s) || has_control s) _) _ h in
    let given = throw_if-eq-ok (f.required && is_empty s) _ e1 in
    let among =
      throw_if-eq-ok (is_bullet_list f.type && (not (is_empty s) && not (includes f.options s))) _
        e2 in
    let short = throw_if-eq-ok (ltb 10000 (length s) || has_control s) _ e3 in
    subst (IsAnswerTo f) (ok-injective h) (record {
      same_field = refl;
      same_label = refl;
      given = λ r. ground (arith, given, r);
      among_options = λ b e. (includes_iff f.options s).0 (ground (arith, among, b, e));
      bounded = ground (arith, short);
      no_control = has_control-IsShown s (ground (arith, short));
    })

answer_fields-AnswersTo :
    (fs : List WorkflowFormTemplateField) (submitted : Fields)
    {as_ : List WorkflowApplicationAnswer}
    → answer_fields fs submitted ≡ ok as_
    → AnswersTo fs as_
unfolding answer_fields
answer_fields-AnswersTo [] submitted h = subst (AnswersTo []) (ok-injective h) tt
answer_fields-AnswersTo (f ∷ fs) submitted h =
    let (raw, _, h) = >>=-eq-ok (raw_answer f (property submitted f.id)) _ h in
    let (a, e, h) = >>=-eq-ok (check_answer f raw) _ h in
    let (rest, r, h) = >>=-eq-ok (answer_fields fs submitted) _ h in
    subst (AnswersTo (f ∷ fs)) (ok-injective h)
      (check_answer-IsAnswerTo f raw e, answer_fields-AnswersTo fs submitted r)

application_answers_from_payload-Ensures :
    (t : WorkflowFormTemplate) (v : Value)
    → Ensures (AnswersTo t.fields) (application_answers_from_payload t v)
unfolding application_answers_from_payload
application_answers_from_payload-Ensures t v =
    passes (failing (require_record (some v) (here []))) _ (λ root.
      passes
        (failing (assert_only_keys root (lit "answers" ∷ lit "templateVersion" ∷ []) (here []))) _
        (λ _.
          passes (failing (submitted_version t (property root (lit "templateVersion")))) _
            (λ version. passes (throw_if (not (version == t.version)) _) _ (λ _.
              passes
                (failing (require_record (property root (lit "answers")) (here (lit " answers")))) _
                (λ submitted.
                  passes (failing (assert_known_fields submitted (map (λ f. f.id) t.fields))) _
                    (λ _.
                      Ensures-intro _ (λ as_ h. answer_fields-AnswersTo t.fields submitted h)))))))

-- Answers that are accepted are one for each field of the template, in its order and with its
-- label; each has at most 10,000 code units and no control character of ASCII besides tabs, line
-- feeds and carriage returns, is not empty where the field is required, and is one of the
-- options of a bullet list unless it is empty.
pub application_answers_from_payload-AnswersTo :
    (t : WorkflowFormTemplate) (v : Value) {as_ : List WorkflowApplicationAnswer}
    → application_answers_from_payload t v ≡ ok as_
    → AnswersTo t.fields as_
application_answers_from_payload-AnswersTo t v h =
    Ensures-ok _ (application_answers_from_payload-Ensures t v) h
