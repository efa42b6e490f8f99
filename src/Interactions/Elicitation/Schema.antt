-- ===== src/Interactions/Elicitation/Schema.antt =====
-- src/interactions/schema.rs: the answers of a form against its schema. `at_most` the order of two numbers as 64-bit floats.
use codex_acp_v.Interactions.Elicitation.{ElicitationError, form_invalid}
use codex_acp_v.Json.{
  Value, Number, number, at, as_object, get, as_array, as_str, value_eq, pos_int, is_text, is_null,
  as_u64, as_bool, neg_int,
}
use codex_acp_v.Common.{
  ℕ, String, List, Option, Bool, Result, is_some, is_none_or, is_some_and, any, if◌then◌else◌,
  ◌>>=◌, some, ◌>>◌, ok, all, none, or_fail, ◌∷◌, ensure, not, ltb, lookup, contains_key, length,
  [], unwrap_or, ◌^◌, false, ◌&&◌, leb, ◌||◌, ◌++◌, true, count,
}

unfoldable pub is_given : String → Value → Bool
is_given key v = is_some_and (get key v) (λ found. not (is_null found))

unfoldable pub supported : Value → Bool
supported schema = elim (as_object (at schema "properties")) [
  | none ↦ false
  | some properties ↦
      all (λ p. not (is_given "pattern" p.1) && not (is_given "format" p.1)) properties
]

-- `slice.contains(value)`
unfoldable pub includes : List Value → Value → Bool
includes choices v = any (λ choice. value_eq choice v) choices

unfoldable pub titled_choice : String → Value → Value → Bool
titled_choice key schema v =
    is_none_or (as_array (at schema key)) (any (λ choice. value_eq (at choice "const") v))

unfoldable pub validate_choice : Value → Value → Result ElicitationError (Unit {0})
validate_choice schema v = do
  ensure (is_none_or (as_array (at schema "enum")) (λ choices. includes choices v)) form_invalid
  ensure (titled_choice "oneOf" schema v) form_invalid
  ensure (titled_choice "anyOf" schema v) form_invalid

unfoldable pub validate_size : Value → String → String → ℕ → Result ElicitationError (Unit {0})
validate_size schema min_key max_key n = do
  ensure (is_none_or (as_u64 (at schema min_key)) (λ least. leb least n)) form_invalid
  ensure (is_none_or (as_u64 (at schema max_key)) (λ most. leb n most)) form_invalid

abbrev pub is_string : Value → Bool
is_string v = is_some (as_str v)

abbrev pub as_number : Value → Option Number
as_number (number n) = some n
as_number _ = none

unfoldable pub is_i64 : Value → Bool
is_i64 (number (pos_int n)) = ltb n (2 ^ 63)
is_i64 (number (neg_int n)) = true
is_i64 _ = false

unfoldable pub has_type : Value → Value → Bool
has_type property v =
    let type = at property "type" in
    if is_text type "string"
    then is_string v
    else if is_text type "integer"
    then is_i64 v
    else if is_text type "number"
    then is_some (as_number v)
    else if is_text type "boolean"
    then is_some (as_bool v)
    else if is_text type "array"
    then is_some_and (as_array v) (all is_string)
    else false

-- The elements of an answer with several choices; `before` are those that came first.
unfoldable pub validate_elements :
    Value → List Value → List Value → Result ElicitationError (Unit {0})
validate_elements property before [] = ok tt
validate_elements property before (v ∷ vs) = do
  validate_choice (at property "items") v
  ensure (not (unwrap_or (as_bool (at property "uniqueItems")) false) || not (includes before v))
      form_invalid
  validate_elements property (before ++ v ∷ []) vs

module _ (at_most : Number → Number → Bool) where
  unfoldable pub validate_text : Value → Value → Result ElicitationError (Unit {0})
  validate_text property v = elim (as_str v) [
    | none ↦ ok tt
    | some text ↦ validate_size property "minLength" "maxLength" (count text)
  ]

  unfoldable pub validate_number : Value → Value → Result ElicitationError (Unit {0})
  validate_number property v = elim (as_number v) [
    | none ↦ ok tt
    | some n ↦ do
      ensure (is_none_or (as_number (at property "minimum")) (λ least. at_most least n))
          form_invalid
      ensure (is_none_or (as_number (at property "maximum")) (λ most. at_most n most)) form_invalid
  ]

  unfoldable pub validate_list : Value → Value → Result ElicitationError (Unit {0})
  validate_list property v = elim (as_array v) [
    | none ↦ ok tt
    | some vs ↦ do
      validate_size property "minItems" "maxItems" (length vs)
      validate_elements property [] vs
  ]

  unfoldable pub validate_answer :
      List (String × Value) → String → Value → Result ElicitationError (Unit {0})
  validate_answer properties key v = do
    property ← or_fail (lookup properties key) form_invalid
    ensure (has_type property v) form_invalid
    validate_choice property v
    validate_text property v
    validate_number property v
    validate_list property v

  unfoldable pub validate_answers :
      List (String × Value) → List (String × Value) → Result ElicitationError (Unit {0})
  validate_answers properties [] = ok tt
  validate_answers properties ((key, v) ∷ rest) = do
    validate_answer properties key v
    validate_answers properties rest

  -- The members of the answer; `null` stands for no answers.
  unfoldable pub content_of : Value → Result ElicitationError (List (String × Value))
  content_of content = if is_null content then ok [] else or_fail (as_object content) form_invalid

  unfoldable pub has_required : Value → List (String × Value) → Bool
  has_required schema content =
      is_none_or (as_array (at schema "required"))
        (all (λ key. is_some_and (as_str key) (contains_key content)))

  unfoldable pub validate : Value → Value → Result ElicitationError (Unit {0})
  validate schema answer = do
    content ← content_of answer
    properties ← or_fail (as_object (at schema "properties")) form_invalid
    ensure (has_required schema content) form_invalid
    validate_answers properties content
