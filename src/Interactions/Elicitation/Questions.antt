-- ===== src/Interactions/Elicitation/Questions.antt =====
-- src/interactions/elicitation.rs: the resolver of answers.
pub mod Answered
use codex_acp_v.Interactions.Elicitation.Schema.{validate}
use codex_acp_v.Json.{Number, Value, obj, null, string, as_str, arr}
use codex_acp_v.Interactions.Elicitation.{
  Kind, ElicitationResponse, questions_kind, Question, ElicitationAction, ElicitationError, accept,
  mcp, no_answers, unsupported_action, missing_answer, decline, cancel, response_too_large,
  answer_not_string, answer_keys, unknown, answer_not_offered,
}
use codex_acp_v.Common.{
  ℕ, String, Option, List, Bool, [], some, Result, none, ◌∷◌, ok, err, ◌>>◌, ◌>>=◌, or_fail, insert,
  ensure, lookup, leb, ◌*◌, nat_eq, length, is_none_or, contains,
}

-- The answers of the questions, in the order of the questions.
unfoldable pub answer_question :
    List (String × Value) → Question → Result ElicitationError (String × Value)
answer_question content question = do
  v ← or_fail (lookup content (question.id)) missing_answer
  answer ← or_fail (as_str v) answer_not_string
  ensure (is_none_or (question.choices) (λ choices. contains choices answer)) answer_not_offered
  ok (question.id, obj (("answers", arr (string answer ∷ [])) ∷ []))

unfoldable pub answer_questions :
    List (String × Value)
    → List Question
    → List (String × Value)
    → Result ElicitationError (List (String × Value))
answer_questions content [] answers = ok answers
answer_questions content (q ∷ rest) answers = do
  entry ← answer_question content q
  answer_questions content rest (insert answers entry.0 entry.1)

unfoldable pub mcp_response : String → Value → Value → Value
mcp_response action content meta =
    obj (("action", string action) ∷ ("content", content) ∷ ("_meta", meta) ∷ [])

unfoldable pub content_value : Option (List (String × Value)) → Value
content_value none = null
content_value (some content) = obj content

-- `cancelled`
unfoldable pub cancelled_kind : Kind → Value
cancelled_kind (questions_kind qs) = obj (("answers", obj []) ∷ [])
cancelled_kind (mcp schema) = mcp_response "cancel" null null

unfoldable pub resolve_questions : List Question → ElicitationAction → Result ElicitationError Value
resolve_questions qs (accept content) = do
  given ← or_fail content no_answers
  ensure (nat_eq (length given) (length qs)) answer_keys
  answers ← answer_questions given qs []
  ok (obj (("answers", obj answers) ∷ []))
resolve_questions qs decline = ok (obj (("answers", obj []) ∷ []))
resolve_questions qs cancel = ok (obj (("answers", obj []) ∷ []))
resolve_questions qs unknown = err unsupported_action

module _ (size : ElicitationResponse → ℕ) (at_most : Number → Number → Bool) where
  unfoldable pub resolve_mcp :
      Option Value → ElicitationAction → Value → Result ElicitationError Value
  resolve_mcp schema (accept content) meta = do
    (elim schema [ none ↦ ok tt | some s ↦ validate at_most s (content_value content) ])
    ok (mcp_response "accept" (content_value content) meta)
  resolve_mcp schema decline meta = ok (mcp_response "decline" null meta)
  resolve_mcp schema cancel meta = ok (mcp_response "cancel" null meta)
  resolve_mcp schema unknown meta = err unsupported_action

  unfoldable pub resolve_elicitation : Kind → ElicitationResponse → Result ElicitationError Value
  resolve_elicitation kind response = do
    ensure (leb (size response) (1024 * 1024)) response_too_large
    elim kind [
      | mcp schema ↦ resolve_mcp schema (response.action) (response.meta)
      | questions_kind qs ↦ resolve_questions qs (response.action)
    ]
