-- ===== src/Hub/Template/Valid.antt =====
-- What a form template that was read looks like, and that it is read again as it is
-- (components/idthw_hub/features/workflow/lib/workflowFormTemplate.ts).
use id_jag_the_hard_way.Base.{
  ℕ, suc, ◌+◌, ◌≡◌, ◌≤◌, refl, subst, ap, true, false, not, ◌&&◌, Option, none, some, List, [], ◌∷◌,
  ◌++◌, ltb, length, is_empty, inl, inr, Bool-cases, ok, throw_if, >>=-eq-ok, ok-injective,
  throw_if-eq-ok, err-eq-ok, arith,
}
use id_jag_the_hard_way.Base.Ensures.{Ensures, on_ok, Ensures-ok, reads, passes}
use id_jag_the_hard_way.Base.Text.{Text, text_eq, text_beq, lit}
use id_jag_the_hard_way.Base.Json.{Value, str, arr, Items, nil, cons, property}
use id_jag_the_hard_way.Hub.Input.{
  decimal, require_record, assert_only_keys, unexpected_key, require_matching, is_field_id,
  require_display_string,
}
use id_jag_the_hard_way.Hub.Input.Laws.{
  IsMatching, IsDisplay, require_matching-IsMatching, require_display_string-IsDisplay,
  require_display_string_self,
}
use id_jag_the_hard_way.Hub.Workflow.{count}
use id_jag_the_hard_way.Hub.Workflow.Answers.{
  FieldType, text_field, bullet_list, WorkflowFormTemplateField, is_bullet_list,
}
use id_jag_the_hard_way.Hub.Template.FormFields.{
  field_place, field_keys, parse_field_id, parse_required, parse_type, parse_option_texts,
  parse_option_list, parse_options, parse_field, parse_fields_from, parse_fields, type_text,
  option_items, field_value, field_items,
}

-- the options that a field of the type may have
pub record IsOptions (type : FieldType) (os : List Text) : Type 0 where
  pub at_most_20 : length os ≤ 20
  pub given : type ≡ bullet_list → is_empty os ≡ false
  pub plain : type ≡ text_field → is_empty os ≡ true

abbrev pub AreDisplay : List Text → Type 0
AreDisplay [] = Unit
AreDisplay (o ∷ os) = IsDisplay 120 false o × AreDisplay os

pub record IsField (f : WorkflowFormTemplateField) : Type 0 where
  pub id_valid : IsMatching is_field_id f.id
  pub label_valid : IsDisplay 120 false f.label
  pub options_valid : IsOptions f.type f.options
  pub options_display : AreDisplay f.options

abbrev pub AreFields : List WorkflowFormTemplateField → Type 0
AreFields [] = Unit
AreFields (f ∷ fs) = IsField f × AreFields fs

parse_option_texts-AreDisplay :
    (place : Text) (i : ℕ) (vs : Items) {os : List Text}
    → parse_option_texts place i vs ≡ ok os
    → AreDisplay os × (length os ≡ count vs)
unfolding parse_option_texts
parse_option_texts-AreDisplay place i nil h =
    subst (λ os. AreDisplay os × (length os ≡ 0)) (ok-injective h) (tt, refl)
parse_option_texts-AreDisplay place i (cons v vs) h =
    let (o, e, h) = >>=-eq-ok (require_display_string (some v) _ 120 false) _ h in
    let (os, f, h) = >>=-eq-ok (parse_option_texts place (suc i) vs) _ h in
    let (rest, counted) = parse_option_texts-AreDisplay place (suc i) vs f in
    subst (λ os. AreDisplay os × (length os ≡ suc (count vs))) (ok-injective h)
      ((require_display_string-IsDisplay (some v) _ 120 false e, rest), ap suc counted)

parse_option_texts_self :
    (place : Text) (i : ℕ) (os : List Text)
    → AreDisplay os
    → parse_option_texts place i (option_items os) ≡ ok os
unfolding parse_option_texts
parse_option_texts_self place i [] h = refl
parse_option_texts_self place i (o ∷ os) h =
    rw (require_display_string_self o (place ++ (lit " option " ++ decimal (i + 1))) 120 false h.0)
      (rw (parse_option_texts_self place (suc i) os h.1) refl)

count-option_items : (os : List Text) → count (option_items os) ≡ length os
count-option_items [] = refl
count-option_items (o ∷ os) = ap suc (count-option_items os)

abbrev Options : FieldType → List Text → Type 0
Options type os = IsOptions type os × AreDisplay os

parse_options-Options :
    (v : Option Value) (place : Text) (type : FieldType) {os : List Text}
    → parse_options v place type ≡ ok os
    → Options type os
unfolding parse_options parse_option_list
parse_options-Options none place text_field h =
    subst (Options text_field) (ok-injective h)
      (record { at_most_20 = ground arith; given = λ e. cc; plain = λ e. refl }, tt)
parse_options-Options (some (arr vs)) place type {os} h =
    let (_, e, h) = >>=-eq-ok (throw_if (ltb 20 (count vs)) _) _ h in
    let (qs, f, h) = >>=-eq-ok (parse_option_texts place 0 vs) _ h in
    let (_, g, h) = >>=-eq-ok (throw_if (is_bullet_list type && is_empty qs) _) _ h in
    let (_, k, h) = >>=-eq-ok (throw_if (not (is_bullet_list type) && not (is_empty qs)) _) _ h in
    let (display, counted) = parse_option_texts-AreDisplay place 0 vs f in
    let short = throw_if-eq-ok (ltb 20 (count vs)) _ e in
    let bullet = throw_if-eq-ok (is_bullet_list type && is_empty qs) _ g in
    let plain = throw_if-eq-ok (not (is_bullet_list type) && not (is_empty qs)) _ k in
    subst (Options type) (ok-injective h) (
      record {
        at_most_20 = ground (arith, short, counted);
        given = λ t. ground (arith, bullet, t);
        plain = λ t. ground (arith, plain, t);
      },
      display,
    )
parse_options-Options v place type h = cc

parse_options_self :
    (place : Text) (type : FieldType) (os : List Text)
    → Options type os
    → parse_options (some (arr (option_items os))) place type ≡ ok os
unfolding parse_options parse_option_list
parse_options_self place type os h = rw (count-option_items os) (
    rw (parse_option_texts_self place 0 os h.1)
      (ground (arith, h.0.at_most_20, h.0.given, h.0.plain)))

parse_field-IsField : (i : ℕ) (v : Value) → Ensures IsField (parse_field true i v)
unfolding parse_field parse_field_id
parse_field-IsField i v = passes (require_record (some v) (field_place i)) _ (λ fs.
    passes (assert_only_keys fs (field_keys true) (field_place i)) _ (λ _.
      reads (require_matching is_field_id (property fs (lit "id")) (field_place i ++ lit " id")) _
        (λ a e. require_matching-IsMatching is_field_id _ _ e)
        (λ id valid.
          passes (parse_required (property fs (lit "required")) (field_place i)) _ (λ required.
            passes (parse_type (property fs (lit "type")) (field_place i)) _ (λ type.
              reads (parse_options (property fs (lit "options")) (field_place i) type) _
                (λ a e. parse_options-Options (property fs (lit "options")) (field_place i) type e)
                (λ os o.
                  reads
                    (require_display_string (property fs (lit "label"))
                      (field_place i ++ lit " label") 120 false)
                    _
                    (λ a e.
                      require_display_string-IsDisplay (property fs (lit "label"))
                        (field_place i ++ lit " label") 120 false e)
                    (λ label l. on_ok (record {
                      id_valid = valid;
                      label_valid = l;
                      options_valid = o.0;
                      options_display = o.1;
                    }))))))))

parse_type_self :
    (type : FieldType) (place : Text) → parse_type (some (str (type_text type))) place ≡ ok type
unfolding parse_type text_beq
parse_type_self text_field place = refl
parse_type_self bullet_list place = refl

parse_field_self :
    (i : ℕ) (f : WorkflowFormTemplateField) → IsField f → parse_field true i (field_value f) ≡ ok f
unfolding parse_field parse_field_id field_value property require_record assert_only_keys
    unexpected_key text_beq parse_required
parse_field_self i f h = rw (h.id_valid.returned (field_place i ++ lit " id")) (
    rw (parse_type_self f.type (field_place i)) (
      rw (parse_options_self (field_place i) f.type f.options (h.options_valid, h.options_display))
        (rw
          (require_display_string_self f.label (field_place i ++ lit " label") 120 false
            h.label_valid)
          refl)))

parse_fields_from-AreFields :
    (i : ℕ) (vs : Items) {fs : List WorkflowFormTemplateField}
    → parse_fields_from true i vs ≡ ok fs
    → AreFields fs × (length fs ≡ count vs)
unfolding parse_fields_from
parse_fields_from-AreFields i nil h =
    subst (λ fs. AreFields fs × (length fs ≡ 0)) (ok-injective h) (tt, refl)
parse_fields_from-AreFields i (cons v vs) h =
    let (f, e, h) = >>=-eq-ok (parse_field true i v) _ h in
    let (fs, g, h) = >>=-eq-ok (parse_fields_from true (suc i) vs) _ h in
    let (rest, counted) = parse_fields_from-AreFields (suc i) vs g in
    subst (λ fs. AreFields fs × (length fs ≡ suc (count vs))) (ok-injective h)
      ((Ensures-ok (parse_field true i v) (parse_field-IsField i v) e, rest), ap suc counted)

parse_fields_from_self :
    (i : ℕ) (fs : List WorkflowFormTemplateField)
    → AreFields fs
    → parse_fields_from true i (field_items fs) ≡ ok fs
unfolding parse_fields_from
parse_fields_from_self i [] h = refl
parse_fields_from_self i (f ∷ fs) h =
    rw (parse_field_self i f h.0) (rw (parse_fields_from_self (suc i) fs h.1) refl)

count-field_items : (fs : List WorkflowFormTemplateField) → count (field_items fs) ≡ length fs
count-field_items [] = refl
count-field_items (f ∷ fs) = ap suc (count-field_items fs)

pub record IsFieldList (fs : List WorkflowFormTemplateField) : Type 0 where
  pub at_most_30 : length fs ≤ 30
  pub each : AreFields fs

pub parse_fields-IsFieldList :
    (v : Option Value) {fs : List WorkflowFormTemplateField}
    → parse_fields v true ≡ ok fs
    → IsFieldList fs
unfolding parse_fields
parse_fields-IsFieldList (some (arr vs)) h = elim (Bool-cases (ltb 30 (count vs))) [
  | inl long ↦ absurd (err-eq-ok (rw long at h))
  | inr short ↦
      let (each, counted) = parse_fields_from-AreFields 0 vs (rw short at h) in
      record { at_most_30 = ground (arith, counted, short); each = each }
]
parse_fields-IsFieldList v h = cc

pub parse_fields_self :
    (fs : List WorkflowFormTemplateField)
    → IsFieldList fs
    → parse_fields (some (arr (field_items fs))) true ≡ ok fs
unfolding parse_fields
parse_fields_self fs h =
    rw (count-field_items fs)
      (rw (parse_fields_from_self 0 fs h.each) (ground (arith, h.at_most_30)))
