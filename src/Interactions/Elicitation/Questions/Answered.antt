-- ===== src/Interactions/Elicitation/Questions/Answered.antt =====
-- src/interactions/elicitation.rs: the answers that reach the backend.
use codex_acp_v.Interactions.Elicitation.Questions.{
  answer_questions, answer_question, resolve_questions,
}
use codex_acp_v.Interactions.Elicitation.{
  Question, missing_answer, answer_not_string, answer_not_offered, question_ids, accept, no_answers,
  answer_keys,
}
use codex_acp_v.Json.{Value, obj, as_str, arr, string, bool, number, array, object, null}
use codex_acp_v.Common.{
  String, List, lookup, ◌≡◌, some, ok, is_none_or, subst, All, arith, ◌∷◌, >>=-ok_inversion, [],
  contains, ok_injective, true, lookup-insert, insert, or_fail, ensure, or_fail-ok, ◌∙◌, ap, sym,
  inl, inr, ◌⊎◌, ensure-ok, refl, contains_key, Bool-cases, Option, ◌==◌, eq_iff, length, Has,
  nat_eq,
}

abbrev pub answer_of : String → Value
answer_of answer = obj (("answers", arr (string answer ∷ [])) ∷ [])

-- The client gave a text for the question, one of the choices where it has choices, and the
-- backend gets it under the id of the question.
unfoldable pub IsAnswered : List (String × Value) → List (String × Value) → Question → Type 0
IsAnswered given answers q =
    (answer : String) × (lookup given q.id ≡ some (string answer))
    × (is_none_or q.choices (λ choices. contains choices answer) ≡ true)
    × (lookup answers q.id ≡ some (answer_of answer))

as_str-string : (v : Value) (s : String) → as_str v ≡ some s → v ≡ string s
as_str-string (string t) s h = cc h
as_str-string null s h = absurd (ground arith)
as_str-string (bool b) s h = absurd (ground arith)
as_str-string (number n) s h = absurd (ground arith)
as_str-string (array vs) s h = absurd (ground arith)
as_str-string (object ms) s h = absurd (ground arith)

module _ (given : List (String × Value)) where
  answer_question-ok :
      (q : Question) (entry : String × Value)
      → answer_question given q ≡ ok entry
      → (answer : String) × (lookup given q.id ≡ some (string answer))
        × (is_none_or q.choices (λ choices. contains choices answer) ≡ true)
        × (entry ≡ (q.id, answer_of answer))
  unfolding answer_question
  answer_question-ok q entry h =
      let (v, found, h') = >>=-ok_inversion (or_fail (lookup given q.id) missing_answer) _ h in
      let (answer, text, h'') = >>=-ok_inversion (or_fail (as_str v) answer_not_string) _ h' in
      let (_, chosen, last) =
        >>=-ok_inversion
          (ensure (is_none_or q.choices (λ choices. contains choices answer)) answer_not_offered) _
          h'' in
      let same = as_str-string v answer (or_fail-ok _ _ answer text) in
      (
        answer,
        or_fail-ok _ _ v found ∙ ap some same,
        ensure-ok _ answer_not_offered _ chosen,
        sym (ok_injective last),
      )

  -- A later question of the same id gets the same answer.
  insert-answer :
      (answers : List (String × Value)) (id key later answer : String)
      → lookup given key ≡ some (string answer)
      → lookup given id ≡ some (string later)
      → (lookup answers key ≡ some (answer_of answer)) ⊎ (id ≡ key)
      → lookup (insert answers id (answer_of later)) key ≡ some (answer_of answer)
  insert-answer answers id key later answer said said' before =
      let inserted = lookup-insert answers id key (answer_of later) in
      elim (Bool-cases (id == key)) [
        | inl same ↦
            let equal = (eq_iff id key).0 same in
            let alike : later ≡ answer = cc (said, said', equal) in
            inserted ∙ rw same (ap (λ a. some (answer_of a)) alike)
        | inr apart ↦ elim before [
          | inl kept ↦ inserted ∙ rw apart kept
          | inr equal ↦ absurd (ground (arith, (eq_iff id key).1 equal))
        ]
      ]

  answer_questions-kept :
      (qs : List Question) (answers result : List (String × Value)) (key answer : String)
      → lookup given key ≡ some (string answer)
      → lookup answers key ≡ some (answer_of answer)
      → answer_questions given qs answers ≡ ok result
      → lookup result key ≡ some (answer_of answer)
  unfolding answer_questions
  answer_questions-kept [] answers result key answer said kept h =
      subst (λ r. lookup r key ≡ some (answer_of answer)) (ok_injective h) kept
  answer_questions-kept (q ∷ rest) answers result key answer said kept h =
      let (entry, one, h') = >>=-ok_inversion (answer_question given q) _ h in
      let (other, said', _, same) = answer_question-ok q entry one in
      let inserted = lookup-insert answers entry.0 key entry.1 in
      answer_questions-kept rest (insert answers entry.0 entry.1) result key answer said
        (subst (λ en. lookup (insert answers en.0 en.1) key ≡ some (answer_of answer)) (sym same)
          (insert-answer answers q.id key other answer said said' (inl kept)))
        h'

  answer_questions-IsAnswered :
      (qs : List Question) (answers result : List (String × Value))
      → answer_questions given qs answers ≡ ok result
      → All (IsAnswered given result) qs
  unfolding answer_questions IsAnswered
  answer_questions-IsAnswered [] answers result h = tt
  answer_questions-IsAnswered (q ∷ rest) answers result h =
      let (entry, one, h') = >>=-ok_inversion (answer_question given q) _ h in
      let (answer, said, chosen, same) = answer_question-ok q entry one in
      (
        (
          answer,
          said,
          chosen,
          answer_questions-kept rest (insert answers entry.0 entry.1) result q.id answer said
              (subst (λ en. lookup (insert answers en.0 en.1) q.id ≡ some (answer_of answer))
                (sym same) (insert-answer answers q.id q.id answer answer said said (inr refl)))
              h',
        ),
        answer_questions-IsAnswered rest (insert answers entry.0 entry.1) result h',
      )

  -- No id is answered that no question asks for.
  answer_questions-asked :
      (qs : List Question) (answers result : List (String × Value)) (key : String)
      → answer_questions given qs answers ≡ ok result
      → contains_key result key ≡ true
      → (contains (question_ids qs) key ≡ true) ⊎ (contains_key answers key ≡ true)
  unfolding answer_questions question_ids contains
  answer_questions-asked [] answers result key h held =
      inr (subst (λ r. contains_key r key ≡ true) (sym (ok_injective h)) held)
  answer_questions-asked (q ∷ rest) answers result key h held =
      let (entry, one, h') = >>=-ok_inversion (answer_question given q) _ h in
      let (answer, said, chosen, same) = answer_question-ok q entry one in
      let first : entry.0 ≡ q.id = ap (λ en. en.0) same in
      let inserted = lookup-insert answers entry.0 key entry.1 in
      elim (answer_questions-asked rest (insert answers entry.0 entry.1) result key h' held) [
        | inl later ↦ inl (ground arith)
        | inr now ↦ elim (Bool-cases (entry.0 == key)) [
          | inl here ↦ inl (rw (← first) (ground arith))
          | inr apart ↦ inr (ground arith)
        ]
      ]

-- If answers are accepted, the response is the answers to the questions: each question is
-- answered, with a text that the client gave for it and that is one of its choices where it has
-- any, nothing else is answered, and the client gave as many answers as there are questions.
pub resolve_questions-IsAnswered :
    (qs : List Question) (content : Option (List (String × Value))) (v : Value)
    → resolve_questions qs (accept content) ≡ ok v
    → (given : List (String × Value)) × (answers : List (String × Value)) × (content ≡ some given)
      × (length given ≡ length qs)
      × (v ≡ obj (("answers", obj answers) ∷ []))
      × All (IsAnswered given answers) qs
      × ((key : String) → contains_key answers key ≡ true → Has (question_ids qs) key)
unfolding resolve_questions lookup
resolve_questions-IsAnswered qs content v h =
    let (given, found, h') = >>=-ok_inversion (or_fail content no_answers) _ h in
    let (_, counted, h'') =
      >>=-ok_inversion (ensure (nat_eq (length given) (length qs)) answer_keys) _ h' in
    let (answers, made, last) = >>=-ok_inversion (answer_questions given qs []) _ h'' in
    let number = ensure-ok _ answer_keys _ counted in
    (
      given,
      answers,
      or_fail-ok _ _ given found,
      ground arith,
      sym (ok_injective last),
      answer_questions-IsAnswered given qs [] answers made,
      (λ key held. elim (answer_questions-asked given qs [] answers key made held) [
        | inl asked ↦ asked
        | inr before ↦ absurd (ground arith)
      ]),
    )
