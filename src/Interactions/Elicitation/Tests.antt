-- ===== src/Interactions/Elicitation/Tests.antt =====
-- src/interactions/elicitation.rs and src/interactions/schema.rs: forms and their answers.
use codex_acp_v.Interactions.Elicitation.Forms.Tracked.{IsShown, translate_questions-IsShown}
use codex_acp_v.Interactions.Elicitation.Questions.Answered.{
  answer_of, IsAnswered, resolve_questions-IsAnswered,
}
use codex_acp_v.Interactions.Elicitation.Preserved.{value_at, IsLeaf, field, preserves-value_at}
use codex_acp_v.Interactions.Elicitation.Forms.{
  translate_questions, track_questions, track_question, choices_of, is_secret,
}
use codex_acp_v.Interactions.Elicitation.{
  normalize_property, ElicitationCapabilities, one_of, Question, preserves, accept,
  answer_not_offered, form_invalid, question_ids, question_form, questions_kind,
  ElicitationInteraction, QuestionProperty,
}
use codex_acp_v.Interactions.Elicitation.Schema.{
  validate, content_of, has_required, validate_answers, validate_answer, has_type, is_i64,
  validate_choice, titled_choice, validate_text, validate_number, validate_list, validate_size,
}
use codex_acp_v.Json.{pos_int, Value, Number, string, obj, arr, nat}
use codex_acp_v.Interactions.Elicitation.Questions.{
  resolve_questions, answer_questions, answer_question,
}
use codex_acp_v.Common.{
  List, String, lookup, Bool, some, true, remove, ◌∷◌, ◌≡◌, length, insert, contains, [], none, err,
  ok, All, false, refl, concat, contains_key, Has, leb, starts_with,
}

abbrev in_order : Number → Number → Bool
in_order (pos_int a) (pos_int b) = leb a b
in_order a b = false

-- A schema with one text of at least two characters and one number of at most nine.
abbrev schema : Value
schema = obj (
    ("type", string "object")
    ∷ (
      "properties",
      obj (
          ("name", obj (("type", string "string") ∷ ("minLength", nat 2) ∷ []))
          ∷ ("age", obj (("type", string "integer") ∷ ("maximum", nat 9) ∷ []))
          ∷ []),
    )
    ∷ ("required", arr (string "name" ∷ []))
    ∷ [])

valid : validate in_order schema (obj (("name", string "ab") ∷ ("age", nat 3) ∷ [])) ≡ ok tt
unfolding validate content_of has_required validate_answers validate_answer has_type is_i64
    validate_choice titled_choice validate_text validate_number validate_list validate_size lookup
valid = refl

short : validate in_order schema (obj (("name", string "a") ∷ [])) ≡ err form_invalid
unfolding validate content_of has_required validate_answers validate_answer has_type is_i64
    validate_choice titled_choice validate_text validate_number validate_list validate_size lookup
short = refl

absent : validate in_order schema (obj (("age", nat 3) ∷ [])) ≡ err form_invalid
unfolding validate content_of has_required lookup
absent = refl

titled :
    normalize_property
      (obj (("enum", arr (string "r" ∷ [])) ∷ ("enumNames", arr (string "Red" ∷ [])) ∷ []))
    ≡ ok (
        obj (("oneOf", arr (obj (("const", string "r") ∷ ("title", string "Red") ∷ []) ∷ [])) ∷ []))
unfolding normalize_property one_of lookup remove insert
titled = refl

lost : preserves (obj (("pattern", string "a*") ∷ [])) (obj []) ≡ false
unfolding lookup
lost = refl

abbrev questions : List Question
questions =
    record { id = "color"; choices = some ("red" ∷ "blue" ∷ []) }
    ∷ record { id = "why"; choices = none }
    ∷ []

abbrev answers : List (String × Value)
answers = ("why", string "because") ∷ ("color", string "blue") ∷ []

abbrev response : Value
response =
    obj (("answers", obj (("color", answer_of "blue") ∷ ("why", answer_of "because") ∷ [])) ∷ [])

answered : resolve_questions questions (accept (some answers)) ≡ ok response
unfolding resolve_questions answer_questions answer_question contains lookup insert
answered = refl

not_a_choice :
    resolve_questions questions
      (accept (some (("why", string "because") ∷ ("color", string "green") ∷ [])))
    ≡ err answer_not_offered
unfolding resolve_questions answer_questions answer_question contains lookup insert
not_a_choice = refl

abbrev form_callback : Value
form_callback =
    obj
      (("questions", arr (obj (("id", string "why") ∷ ("question", string "Why?") ∷ []) ∷ [])) ∷ [])

abbrev both_modes : ElicitationCapabilities
both_modes = record { supports_form = true; supports_url = true }

abbrev asked_form : ElicitationInteraction
asked_form = record {
  session_id = "session";
  message = "Codex needs your input";
  mode =
      question_form
        (("why", record { title = "Question"; description = "Why?"; enum_values = none }) ∷ [])
        ("why" ∷ []);
  meta = none;
  resolver = questions_kind (record { id = "why"; choices = none } ∷ []);
}

asks_once : translate_questions both_modes "session" form_callback ≡ ok (some asked_form)
unfolding translate_questions track_questions track_question choices_of is_secret question_ids
    concat lookup insert
asks_once = refl

resolve_questions-IsAnswered_example :
    (given : List (String × Value)) × (result : List (String × Value)) × (some answers ≡ some given)
    × (length given ≡ length questions)
    × (response ≡ obj (("answers", obj result) ∷ []))
    × All (IsAnswered given result) questions
    × ((key : String) → contains_key result key ≡ true → Has (question_ids questions) key)
resolve_questions-IsAnswered_example =
    resolve_questions-IsAnswered questions (some answers) response answered

preserves-value_at_example :
    value_at (field "properties" ∷ field "name" ∷ field "minLength" ∷ []) schema ≡ some (nat 2)
unfolding value_at lookup IsLeaf
preserves-value_at_example =
    preserves-value_at (field "properties" ∷ field "name" ∷ field "minLength" ∷ []) schema schema
      (nat 2) refl refl tt

translate_questions-IsShown_example :
    (properties : List (String × QuestionProperty)) × (asked : List Question) × (asked_form.mode
      ≡ question_form properties (question_ids asked))
    × (asked_form.resolver ≡ questions_kind asked)
    × All (IsShown properties) asked
translate_questions-IsShown_example =
    translate_questions-IsShown both_modes "session" form_callback asked_form asks_once

secure_link : starts_with "https://" "https://example.org" ≡ true
secure_link = refl

file_link : starts_with "https://" "file:///etc" ≡ false
file_link = refl
