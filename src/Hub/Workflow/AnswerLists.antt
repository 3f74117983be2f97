-- ===== src/Hub/Workflow/AnswerLists.antt =====
-- The answers of a workflow application that was read
-- (components/idthw_hub/features/workflow/lib/workflowApplication.ts).
use id_jag_the_hard_way.Base.{
  ℕ, suc, ◌≡◌, ◌≤◌, refl, subst, ap, Bool, true, false, not, ◌&&◌, Option, some, List, [], ◌∷◌,
  ◌++◌, inl, inr, ltb, length, includes, Bool-cases, ok, arith, ok-injective, >>=-eq-ok, err-eq-ok,
}
use id_jag_the_hard_way.Base.Text.{Text, text_eq, lit, text_beq}
use id_jag_the_hard_way.Base.Json.{Value, arr, Items, nil, cons, property}
use id_jag_the_hard_way.Hub.Input.{
  require_record, assert_only_keys, unexpected_key, require_matching, is_field_id,
  require_display_string,
}
use id_jag_the_hard_way.Hub.Input.Laws.{
  IsMatching, IsDisplay, require_matching-IsMatching, require_display_string-IsDisplay,
  require_display_string_self,
}
use id_jag_the_hard_way.Hub.Workflow.{
  WorkflowApplicationAnswer, answer_keys, parse_answer, answer_place, parse_answers_from, count,
  parse_answers, answer_value, answer_items,
}

abbrev pub is_new_field : List Text → Text → Bool
is_new_field seen s = is_field_id s && not (includes seen s)

pub record IsAnswer (seen : List Text) (a : WorkflowApplicationAnswer) : Type 0 where
  pub field_id_new : IsMatching (is_new_field seen) a.field_id
  pub label_display : IsDisplay 120 false a.label
  pub value_display : IsDisplay 10000 true a.value

-- Answers to distinct fields, none of them among `seen`.
abbrev pub IsAnswers : List Text → List WorkflowApplicationAnswer → Type 0
IsAnswers seen [] = Unit
IsAnswers seen (a ∷ as_) = IsAnswer seen a × IsAnswers (a.field_id ∷ seen) as_

parse_answer-IsAnswer :
    (place : Text) (seen : List Text) (v : Value) {a : WorkflowApplicationAnswer}
    → parse_answer place seen v ≡ ok a
    → IsAnswer seen a
unfolding parse_answer
parse_answer-IsAnswer place seen v {a} h =
    let (fs, _, h) = >>=-eq-ok (require_record (some v) place) _ h in
    let (_, _, h) = >>=-eq-ok (assert_only_keys fs answer_keys place) _ h in
    let (i, ei, h) =
      >>=-eq-ok
        (require_matching (is_new_field seen) (property fs (lit "fieldId"))
          (place ++ lit " field id"))
        _ h in
    let (l, el, h) =
      >>=-eq-ok
        (require_display_string (property fs (lit "label")) (place ++ lit " label") 120 false) _
        h in
    let (w, ew, h) =
      >>=-eq-ok
        (require_display_string (property fs (lit "value")) (place ++ lit " value") 10000 true) _
        h in
    subst (IsAnswer seen) (ok-injective h) (record {
      field_id_new = require_matching-IsMatching _ _ _ ei;
      label_display = require_display_string-IsDisplay _ _ 120 false el;
      value_display = require_display_string-IsDisplay _ _ 10000 true ew;
    })

parse_answer_self :
    (place : Text) (seen : List Text) (a : WorkflowApplicationAnswer)
    → IsAnswer seen a
    → parse_answer place seen (answer_value a) ≡ ok a
unfolding parse_answer answer_value property require_record assert_only_keys unexpected_key text_beq
parse_answer_self place seen a h = rw (h.field_id_new.returned (place ++ lit " field id")) (
    rw (require_display_string_self a.label (place ++ lit " label") 120 false h.label_display) (
      rw (require_display_string_self a.value (place ++ lit " value") 10000 true h.value_display)
        refl))

parse_answers_from-IsAnswers :
    (i : ℕ) (seen : List Text) (vs : Items) {as_ : List WorkflowApplicationAnswer}
    → parse_answers_from i seen vs ≡ ok as_
    → IsAnswers seen as_ × (length as_ ≡ count vs)
unfolding parse_answers_from
parse_answers_from-IsAnswers i seen nil h =
    subst (λ as_. IsAnswers seen as_ × (length as_ ≡ 0)) (ok-injective h) (tt, refl)
parse_answers_from-IsAnswers i seen (cons v vs) h =
    let (a, e, h) = >>=-eq-ok (parse_answer (answer_place i) seen v) _ h in
    let (rest, f, h) = >>=-eq-ok (parse_answers_from (suc i) (a.field_id ∷ seen) vs) _ h in
    let (others, counted) = parse_answers_from-IsAnswers (suc i) (a.field_id ∷ seen) vs f in
    subst (λ as_. IsAnswers seen as_ × (length as_ ≡ suc (count vs))) (ok-injective h)
      ((parse_answer-IsAnswer _ seen v e, others), ap suc counted)

parse_answers_from_self :
    (i : ℕ) (seen : List Text) (as_ : List WorkflowApplicationAnswer)
    → IsAnswers seen as_
    → parse_answers_from i seen (answer_items as_) ≡ ok as_
unfolding parse_answers_from
parse_answers_from_self i seen [] h = refl
parse_answers_from_self i seen (a ∷ as_) h =
    rw (parse_answer_self (answer_place i) seen a h.0)
      (rw (parse_answers_from_self (suc i) (a.field_id ∷ seen) as_ h.1) refl)

count-answer_items : (as_ : List WorkflowApplicationAnswer) → count (answer_items as_) ≡ length as_
count-answer_items [] = refl
count-answer_items (a ∷ as_) = ap suc (count-answer_items as_)

pub record IsAnswerList (as_ : List WorkflowApplicationAnswer) : Type 0 where
  pub at_most_30 : length as_ ≤ 30
  pub each : IsAnswers [] as_

pub parse_answers-IsAnswerList :
    (v : Option Value) {as_ : List WorkflowApplicationAnswer}
    → parse_answers v ≡ ok as_
    → IsAnswerList as_
unfolding parse_answers
parse_answers-IsAnswerList (some (arr vs)) {as_} h = elim (Bool-cases (ltb 30 (count vs))) [
  | inl long ↦ absurd (err-eq-ok (rw long at h))
  | inr short ↦
      let (each, counted) = parse_answers_from-IsAnswers 0 [] vs (rw short at h) in
      record { at_most_30 = ground (arith, counted, short); each = each }
]
parse_answers-IsAnswerList v h = cc

pub parse_answers_self :
    (as_ : List WorkflowApplicationAnswer)
    → IsAnswerList as_
    → parse_answers (some (arr (answer_items as_))) ≡ ok as_
unfolding parse_answers
parse_answers_self as_ h =
    rw (count-answer_items as_)
      (rw (parse_answers_from_self 0 [] as_ h.each) (ground (arith, h.at_most_30)))
