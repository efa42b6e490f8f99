-- ===== src/Interactions/Elicitation.antt =====
-- src/interactions/elicitation.rs: forms, questions and links for the client, and the resolver of the
-- answers. `project` reads a schema as the protocol's type: the document of what it kept, and whether
-- it holds a property of another kind. `size` is the length of an encoded response.
pub mod Schema
pub mod Preserved
pub mod Questions
pub mod Forms
mod Tests
use codex_acp_v.Json.{
  nil, cons, Value, as_array, at, is_text, as_object, obj, object, array, value_eq, Values, arr,
  cons, Members, member, is_null, get, end,
}
use codex_acp_v.Common.{
  ◌∷◌, [], none, some, true, false, ℕ, String, Option, List, Bool, Result, ◌>>◌, ok, ensure, ◌>>=◌,
  or_fail, insert, nat_eq, length, remove, ◌&&◌, ◌||◌,
}

pub record Question : Type 0 where
  pub id : String
  pub choices : Option (List String)

pub data Kind : Type 0 where
  questions_kind : List Question → Kind
  mcp : Option Value → Kind

unfoldable pub question_ids : List Question → List String
question_ids [] = []
question_ids (q ∷ rest) = q.id ∷ question_ids rest

-- A property of the form for questions.
pub record QuestionProperty : Type 0 where
  pub title : String
  pub description : String
  pub enum_values : Option (List String)

pub data ElicitationMode : Type 0 where
  question_form : List (String × QuestionProperty) → List String → ElicitationMode
  form : Value → ElicitationMode
  url : String → String → ElicitationMode

pub record ElicitationInteraction : Type 0 where
  pub session_id : String
  pub message : String
  pub mode : ElicitationMode
  pub meta : Option Value
  pub resolver : Kind

pub record ElicitationCapabilities : Type 0 where
  pub supports_form : Bool
  pub supports_url : Bool

-- `unknown` is an action that a later version of the schema may add.
pub data ElicitationAction : Type 0 where
  accept : Option (List (String × Value)) → ElicitationAction
  decline : ElicitationAction
  cancel : ElicitationAction
  unknown : ElicitationAction

pub record ElicitationResponse : Type 0 where
  pub action : ElicitationAction
  pub meta : Value

pub data ElicitationError : Type 0 where
  response_too_large : ElicitationError
  unsupported_action : ElicitationError
  no_answers : ElicitationError
  answer_keys : ElicitationError
  missing_answer : ElicitationError
  answer_not_string : ElicitationError
  answer_not_offered : ElicitationError
  missing_member : String → ElicitationError
  question_count : ElicitationError
  duplicate_question : ElicitationError
  url_scheme : ElicitationError
  not_object_schema : ElicitationError
  enum_titles : ElicitationError
  schema_unsupported : ElicitationError
  form_invalid : ElicitationError

-- The keys of `enum` and `enumNames` become titled choices.
unfoldable pub one_of : List Value → List Value → List Value
one_of (v ∷ vs) (n ∷ ns) = obj (("const", v) ∷ ("title", n) ∷ []) ∷ one_of vs ns
one_of _ names = []

unfoldable pub normalize_property : Value → Result ElicitationError Value
normalize_property property = elim (as_array (at property "enumNames")) [
  | none ↦ ok property
  | some names ↦ elim (as_array (at property "enum")) [
    | none ↦ ok property
    | some vs ↦ do
      ensure (nat_eq (length names) (length vs)) enum_titles
      fields ← or_fail (as_object property) schema_unsupported
      ok (obj (insert (remove (remove fields "enumNames") "enum") "oneOf" (arr (one_of vs names))))
  ]
]

unfoldable pub normalize_properties :
    List (String × Value) → Result ElicitationError (List (String × Value))
normalize_properties [] = ok []
normalize_properties ((key, property) ∷ rest) = do
  normal ← normalize_property property
  more ← normalize_properties rest
  ok ((key, normal) ∷ more)

unfoldable pub normalize_schema : Value → Result ElicitationError Value
normalize_schema schema = do
  ensure (is_text (at schema "type") "object") not_object_schema
  properties ← or_fail (as_object (at schema "properties")) (missing_member "properties")
  normal ← normalize_properties properties
  fields ← or_fail (as_object schema) not_object_schema
  ok (obj (insert fields "properties" (obj normal)))

-- Nothing of the first document that is not null is lost in the second.
abbrev mutual
  pub preserves : Value → Value → Bool
  preserves (object fields) projected = fields_preserved fields projected
  preserves (array vs) projected = elim (as_array projected) [
    | none ↦ false
    | some ws ↦ values_preserved vs ws
  ]
  preserves original projected = value_eq original projected

  values_preserved : Values → List Value → Bool
  values_preserved nil [] = true
  values_preserved (cons v vs) (w ∷ ws) = preserves v w && values_preserved vs ws
  values_preserved _ others = false

  fields_preserved : Members → Value → Bool
  fields_preserved end projected = true
  fields_preserved (member k v rest) projected =
      (is_null v || elim (get k projected) [ none ↦ false | some w ↦ preserves v w ])
      && fields_preserved rest projected
