-- ===== src/Hub/Template/FormFields.antt =====
-- components/idthw_hub/features/workflow/lib/workflowFormTemplate.ts: the fields of a form template.
use id_jag_the_hard_way.Base.{
  ℕ, suc, ◌+◌, Bool, true, false, not, ◌&&◌, Option, none, some, List, [], ◌∷◌, ◌++◌, if◌then◌else◌,
  ◌==◌, ltb, is_empty, Result, ok, err, ◌>>=◌, ◌>>◌, throw_if,
}
use id_jag_the_hard_way.Base.Text.{Text, text_eq, lit}
use id_jag_the_hard_way.Base.Json.{
  Value, bool, str, arr, obj, Items, nil, cons, Fields, end, field, property,
}
use id_jag_the_hard_way.Hub.Input.{
  decimal, require_record, assert_only_keys, accept, require_matching, is_field_id,
  require_display_string,
}
use id_jag_the_hard_way.Hub.Workflow.{count}
use id_jag_the_hard_way.Hub.Workflow.Answers.{
  FieldType, text_field, bullet_list, WorkflowFormTemplateField, is_bullet_list,
}

-- `Omit<WorkflowFormTemplateField, "id">`
pub record NewField : Type 0 where
  pub label : Text
  pub options : List Text
  pub required : Bool
  pub type : FieldType

abbrev pub field_place : ℕ → Text
field_place index = lit "workflow form template field " ++ decimal (index + 1)

abbrev pub numbered_id : ℕ → Text
numbered_id index = lit "field-" ++ decimal (index + 1)

abbrev pub new_field_keys : List Text
new_field_keys = lit "label" ∷ lit "options" ∷ lit "required" ∷ lit "type" ∷ []

abbrev pub field_keys : Bool → List Text
field_keys true = lit "id" ∷ new_field_keys
field_keys false = new_field_keys

-- the identifier, with its check
unfoldable pub parse_field_id : Bool → ℕ → Fields → Result Text Text
unfolding require_matching
parse_field_id true index fs =
    require_matching is_field_id (property fs (lit "id")) (field_place index ++ lit " id")
parse_field_id false index fs =
    accept (is_field_id (numbered_id index)) (numbered_id index) (field_place index ++ lit " id")

unfoldable pub parse_required : Option Value → Text → Result Text Bool
parse_required (some (bool b)) location = ok b
parse_required _ location = err (location ++ lit " required value is invalid")

unfoldable pub parse_type : Option Value → Text → Result Text FieldType
parse_type none location = ok text_field
parse_type (some (str s)) location =
    if s == lit "text"
    then ok text_field
    else if s == lit "bullet-list"
    then ok bullet_list
    else err (location ++ lit " type is invalid")
parse_type (some v) location = err (location ++ lit " type is invalid")

unfoldable pub parse_option_texts : (location : Text) → ℕ → Items → Result Text (List Text)
unfolding require_display_string
parse_option_texts location index nil = ok []
parse_option_texts location index (cons v vs) = do
  option ←
      require_display_string (some v) (location ++ (lit " option " ++ decimal (index + 1))) 120
        false
  options ← parse_option_texts location (suc index) vs
  ok (option ∷ options)

unfoldable pub parse_option_list : Text → FieldType → Items → Result Text (List Text)
unfolding parse_option_texts
parse_option_list location type vs = do
  throw_if (ltb 20 (count vs)) (location ++ lit " supports up to 20 options")
  options ← parse_option_texts location 0 vs
  throw_if (is_bullet_list type && is_empty options)
      (location ++ lit " requires at least one option")
  throw_if (not (is_bullet_list type) && not (is_empty options))
      (location ++ lit " plain text type cannot contain options")
  ok options

unfoldable pub parse_options : Option Value → Text → FieldType → Result Text (List Text)
unfolding parse_option_list
parse_options none location text_field = ok []
parse_options (some (arr vs)) location type = parse_option_list location type vs
parse_options _ location type = err (location ++ lit " options must be an array")

-- one round of the loop of `parseFields`
unfoldable pub parse_field : Bool → ℕ → Value → Result Text WorkflowFormTemplateField
unfolding parse_field_id parse_required parse_type parse_options
parse_field ids index v = do
  fs ← require_record (some v) (field_place index)
  assert_only_keys fs (field_keys ids) (field_place index)
  id ← parse_field_id ids index fs
  required ← parse_required (property fs (lit "required")) (field_place index)
  type ← parse_type (property fs (lit "type")) (field_place index)
  options ← parse_options (property fs (lit "options")) (field_place index) type
  label ←
      require_display_string (property fs (lit "label")) (field_place index ++ lit " label") 120
        false
  ok (record { id = id; label = label; options = options; required = required; type = type })

unfoldable pub parse_fields_from : Bool → ℕ → Items → Result Text (List WorkflowFormTemplateField)
unfolding parse_field
parse_fields_from ids index nil = ok []
parse_fields_from ids index (cons v vs) = do
  f ← parse_field ids index v
  fs ← parse_fields_from ids (suc index) vs
  ok (f ∷ fs)

unfoldable pub parse_fields : Option Value → Bool → Result Text (List WorkflowFormTemplateField)
unfolding parse_fields_from
parse_fields (some (arr vs)) ids =
    if ltb 30 (count vs)
    then err (lit "Workflow form template supports up to 30 fields")
    else parse_fields_from ids 0 vs
parse_fields _ ids = err (lit "Workflow form template fields must be an array")

-- `({ label, options, required, type }) => ({ label, options, required, type })`
abbrev pub without_id : WorkflowFormTemplateField → NewField
without_id f = record { label = f.label; options = f.options; required = f.required; type = f.type }

-- `fields.map((field, index) => ({ ...field, id: `field-${index + 1}` }))`
unfoldable pub number_fields : ℕ → List NewField → List WorkflowFormTemplateField
number_fields index [] = []
number_fields index (f ∷ fs) =
    record {
      id = numbered_id index;
      label = f.label;
      options = f.options;
      required = f.required;
      type = f.type;
    }
    ∷ number_fields (suc index) fs

abbrev pub type_text : FieldType → Text
type_text text_field = lit "text"
type_text bullet_list = lit "bullet-list"

abbrev pub option_items : List Text → Items
option_items [] = nil
option_items (o ∷ os) = cons (str o) (option_items os)

-- A field as `JSON.stringify` writes it.
unfoldable pub field_value : WorkflowFormTemplateField → Value
field_value f = obj (
    field (lit "id") (str f.id) (
      field (lit "label") (str f.label) (
        field (lit "options") (arr (option_items f.options)) (
          field (lit "required") (bool f.required)
            (field (lit "type") (str (type_text f.type)) end)))))

abbrev pub field_items : List WorkflowFormTemplateField → Items
field_items [] = nil
field_items (f ∷ fs) = cons (field_value f) (field_items fs)
