-- ===== src/Interactions/Elicitation/Forms.antt =====
-- src/interactions/elicitation.rs: `translate`, from a callback to a form or a link.
pub mod Tracked
use codex_acp_v.Interactions.Elicitation.Schema.{supported}
use codex_acp_v.Json.{Value, get, as_array, as_bool, at, as_str, is_text, is_null, is_object}
use codex_acp_v.Interactions.Elicitation.{
  ElicitationCapabilities, Question, QuestionProperty, ElicitationError, ElicitationMode,
  ElicitationInteraction, normalize_schema, schema_unsupported, preserves, missing_member, form,
  url_scheme, url, duplicate_question, question_count, question_form, questions_kind, mcp,
  question_ids,
}
use codex_acp_v.Common.{
  List, Bool, String, Result, Option, unwrap_or, ◌∷◌, is_some, false, ◌>>=◌, some, [], ok, none,
  if◌then◌else◌, or_fail, concat, ◌==◌, keep_if, ◌||◌, not, ◌&&◌, is_empty, ◌>>◌, ensure,
  is_none_or, leb, contains_key, length, insert, ◌++◌, starts_with,
}

-- The label of an option and its line of the description.
unfoldable pub option_label : Value → Result ElicitationError (String × String)
option_label option = do
  label ← or_fail (as_str (at option "label")) (missing_member "label")
  ok (label, concat ("\n" ∷ label ∷ ": " ∷ unwrap_or (as_str (at option "description")) "" ∷ []))

unfoldable pub option_labels : List Value → Result ElicitationError (List String × String)
option_labels [] = ok ([], "")
option_labels (option ∷ rest) = do
  here ← option_label option
  more ← option_labels rest
  ok (here.0 ∷ more.0, concat (here.1 ∷ more.1 ∷ []))

-- The labels that stay as the only answers, and the lines of the description.
unfoldable pub choices_of : Value → Result ElicitationError (Option (List String) × String)
choices_of question = elim (as_array (at question "options")) [
  | none ↦ ok (none, "")
  | some options ↦ do
    labels ← option_labels options
    ok (
      keep_if
          (λ choices.
            not (is_empty choices) && not (unwrap_or (as_bool (at question "isOther")) false))
          (some labels.0),
      labels.1,
    )
]

unfoldable pub is_secret : Value → Bool
is_secret question = unwrap_or (as_bool (at question "isSecret")) false

-- One question, with the properties and the questions before it.
unfoldable pub track_question :
    Value
    → List (String × QuestionProperty)
    → List Question
    → Result ElicitationError (List (String × QuestionProperty) × List Question)
track_question question properties tracked = do
  id ← or_fail (as_str (at question "id")) (missing_member "id")
  ensure (not (contains_key properties id)) duplicate_question
  text ← or_fail (as_str (at question "question")) (missing_member "question")
  choices ← choices_of question
  ok (
    insert properties id (record {
      title = unwrap_or (as_str (at question "header")) "Question";
      description = concat (text ∷ choices.1 ∷ []);
      enum_values = choices.0;
    }),
    tracked ++ record { id = id; choices = choices.0 } ∷ [],
  )

-- `none` for a form with a secret, which the extension has to ask for.
unfoldable pub track_questions :
    List Value
    → List (String × QuestionProperty)
    → List Question
    → Result ElicitationError (Option (List (String × QuestionProperty) × List Question))
track_questions [] properties tracked = ok (some (properties, tracked))
track_questions (question ∷ rest) properties tracked =
    let continued =
      track_question question properties tracked >>= λ both. track_questions rest both.0 both.1 in
    if is_secret question then ok none else continued

unfoldable pub translate_questions :
    ElicitationCapabilities
    → String
    → Value
    → Result ElicitationError (Option ElicitationInteraction)
translate_questions capabilities session_id params =
    if not (capabilities.supports_form) then ok none else do
      questions ← or_fail (as_array (at params "questions")) (missing_member "questions")
      ensure (not (is_empty questions) && leb (length questions) 32) question_count
      tracked ← track_questions questions [] []
      ok (elim tracked [
        | none ↦ none
        | some (properties, asked) ↦ some (record {
          session_id = session_id;
          message = "Codex needs your input";
          mode = question_form properties (question_ids asked);
          meta = none;
          resolver = questions_kind asked;
        })
      ])

-- Another dialect of approvals, which is not shown as a form.
unfoldable pub is_privileged : Value → Bool
is_privileged params =
    is_some (get "codex_approval_kind" (at params "_meta"))
    || is_text (at (at params "_meta") "codex_request_type") "approval_request"

module _ (project : Value → Option (Value × Bool)) where
  -- A form whose schema is kept whole by the protocol's type and needs no other check.
  unfoldable pub form_mode :
      Value → Result ElicitationError (Option (ElicitationMode × Option Value))
  form_mode params = do
    original ← normalize_schema (at params "requestedSchema")
    projected ← or_fail (project original) schema_unsupported
    ok (
        if preserves original projected.0 && supported original && not projected.1
        then some (form projected.0, some original)
        else none)

  unfoldable pub url_mode :
      Value → Result ElicitationError (Option (ElicitationMode × Option Value))
  url_mode params = do
    link ← or_fail (as_str (at params "url")) (missing_member "url")
    ensure (starts_with "https://" link || starts_with "http://" link) url_scheme
    id ← or_fail (as_str (at params "elicitationId")) (missing_member "elicitationId")
    ok (some (url id link, none))

  unfoldable pub mode_of :
      ElicitationCapabilities
      → Value
      → Result ElicitationError (Option (ElicitationMode × Option Value))
  mode_of capabilities params =
      if is_text (at params "mode") "form" && capabilities.supports_form
      then form_mode params
      else if is_text (at params "mode") "url" && capabilities.supports_url
      then url_mode params
      else ok none

  unfoldable pub translate_mcp :
      ElicitationCapabilities
      → String
      → Value
      → Result ElicitationError (Option ElicitationInteraction)
  translate_mcp capabilities session_id params =
      let meta = keep_if (λ v. not (is_null v)) (get "_meta" params) in
      let link_or_form = (do
        shown ← mode_of capabilities params
        ok (elim shown as (λ x. Option ElicitationInteraction) [
          | none ↦ none
          | some (mode, schema) ↦ some (record {
            session_id = session_id;
            message = unwrap_or (as_str (at params "message")) "";
            mode = mode;
            meta = meta;
            resolver = mcp schema;
          })
        ])) in
      do
        message ← or_fail (as_str (at params "message")) (missing_member "message")
        if is_privileged params || not (is_none_or meta is_object) then ok none else link_or_form

  unfoldable pub translate_elicitation :
      Option ElicitationCapabilities
      → String
      → String
      → Value
      → Result ElicitationError (Option ElicitationInteraction)
  translate_elicitation none session_id method params = ok none
  translate_elicitation (some capabilities) session_id method params =
      if method == "item/tool/requestUserInput"
      then translate_questions capabilities session_id params
      else translate_mcp capabilities session_id params
