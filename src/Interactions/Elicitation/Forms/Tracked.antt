-- ===== src/Interactions/Elicitation/Forms/Tracked.antt =====
-- src/interactions/elicitation.rs: the form for questions and the questions that the resolver keeps.
use codex_acp_v.Json.{Value, as_str, at, as_array}
use codex_acp_v.Interactions.Elicitation.Forms.{
  track_questions, track_question, translate_questions, is_secret, choices_of,
}
use codex_acp_v.Interactions.Elicitation.{
  ElicitationInteraction, ElicitationCapabilities, QuestionProperty, ElicitationError, Question,
  question_form, question_ids, questions_kind, missing_member, duplicate_question, question_count,
}
use codex_acp_v.Common.{
  List, ◌≡◌, String, Result, ok, contains_key, some, lookup, Option, All, false, >>=-ok_inversion,
  subst, insert, ◌∷◌, or_fail, lookup-insert, Bool-cases, inr, ◌==◌, arith, inl, ensure, [], eq_iff,
  not, sym, ◌∙◌, is_empty, ◌&&◌, unwrap_or, leb, concat, length, ensure-ok, Option-cases,
  All-implied, ap, eq_refl, ok_injective, All-append, refl,
}

-- The form has a property for the question, which offers just the choices that the resolver takes.
unfoldable pub IsShown : List (String × QuestionProperty) → Question → Type 0
IsShown properties q =
    (p : QuestionProperty) × (lookup properties q.id ≡ some p) × (p.enum_values ≡ q.choices)

insert-IsShown :
    (properties : List (String × QuestionProperty)) (id : String) (new : QuestionProperty)
    → contains_key properties id ≡ false
    → (q : Question) → IsShown properties q
    → IsShown (insert properties id new) q
unfolding IsShown
insert-IsShown properties id new fresh q (p, found, same) =
    let inserted = lookup-insert properties id q.id new in
    elim (Bool-cases (id == q.id)) [
      | inl equal ↦
          let here = (eq_iff id q.id).0 equal in
          absurd (ground (arith, subst (λ k. lookup properties k ≡ some p) (sym here) found))
      | inr apart ↦ (p, inserted ∙ rw apart found, same)
    ]

track_question-IsShown :
    (question : Value) (properties : List (String × QuestionProperty)) (tracked : List Question)
    (both : List (String × QuestionProperty) × List Question)
    → track_question question properties tracked ≡ ok both
    → All (IsShown properties) tracked
    → All (IsShown both.0) both.1
unfolding track_question IsShown
track_question-IsShown question properties tracked both h shown =
    let (id, _, h1) =
      >>=-ok_inversion (or_fail (as_str (at question "id")) (missing_member "id")) _ h in
    let (_, fresh, h2) =
      >>=-ok_inversion (ensure (not (contains_key properties id)) duplicate_question) _ h1 in
    let (text, _, h3) =
      >>=-ok_inversion (or_fail (as_str (at question "question")) (missing_member "question")) _
        h2 in
    let (choices, _, h4) = >>=-ok_inversion (choices_of question) _ h3 in
    let new : QuestionProperty = record {
      title = unwrap_or (as_str (at question "header")) "Question";
      description = concat (text ∷ choices.1 ∷ []);
      enum_values = choices.0;
    } in
    let unused : contains_key properties id ≡ false =
      ground (arith, ensure-ok _ duplicate_question _ fresh) in
    let old = All-implied tracked (insert-IsShown properties id new unused) shown in
    let here = lookup-insert properties id id new ∙ rw (eq_refl id) in
    subst (λ b. All (IsShown b.0) b.1) (ok_injective h4)
      (All-append (IsShown (insert properties id new)) tracked _ old ((new, here, refl), tt))

track_questions-IsShown :
    (questions : List Value) (properties : List (String × QuestionProperty))
    (tracked : List Question) (both : List (String × QuestionProperty) × List Question)
    → track_questions questions properties tracked ≡ ok (some both)
    → All (IsShown properties) tracked
    → All (IsShown both.0) both.1
unfolding track_questions
track_questions-IsShown [] properties tracked both h shown =
    let same : (properties, tracked) ≡ both = cc h in subst (λ b. All (IsShown b.0) b.1) same shown
track_questions-IsShown (question ∷ rest) properties tracked both h shown =
    elim (Bool-cases (is_secret question)) [
      | inl secret ↦ absurd (ground arith)
      | inr plain ↦
          let (first, one, later) =
            >>=-ok_inversion (track_question question properties tracked) _
              (rw (track_questions, plain) at h) in
          track_questions-IsShown rest first.0 first.1 both later
            (track_question-IsShown question properties tracked first one shown)
    ]

ok_some_form :
    {a b : ElicitationInteraction}
    → ◌≡◌ {A = Result ElicitationError (Option ElicitationInteraction)} (ok (some a)) (ok (some b))
    → a ≡ b
ok_some_form h = cc h

-- A form for questions requires an answer to each question that the resolver keeps, and offers for
-- it just the choices that the resolver accepts.
pub translate_questions-IsShown :
    (capabilities : ElicitationCapabilities) (session_id : String) (params : Value)
    (i : ElicitationInteraction)
    → translate_questions capabilities session_id params ≡ ok (some i)
    → (properties : List (String × QuestionProperty)) × (asked : List Question) × (i.mode
        ≡ question_form properties (question_ids asked))
      × (i.resolver ≡ questions_kind asked)
      × All (IsShown properties) asked
unfolding translate_questions
translate_questions-IsShown capabilities session_id params i h =
    elim (Bool-cases (capabilities.supports_form)) [
      | inr unsupported ↦ absurd (ground arith)
      | inl shows ↦
          let (questions, _, h1) =
            >>=-ok_inversion
              (or_fail (as_array (at params "questions")) (missing_member "questions")) _
              (rw (translate_questions, shows) at h) in
          let (_, _, h2) =
            >>=-ok_inversion
              (ensure (not (is_empty questions) && leb (length questions) 32) question_count) _
              h1 in
          let (tracked, made, h3) = >>=-ok_inversion (track_questions questions [] []) _ h2 in
          elim (Option-cases tracked) [
            | inl secret ↦ absurd (ground arith)
            | inr (both, known) ↦
                let built = ok_some_form (rw known at h3) in
                let shown = track_questions-IsShown questions [] [] both (made ∙ ap ok known) tt in
                (
                  both.0,
                  both.1,
                  sym (ap (λ j. j.mode) built),
                  sym (ap (λ j. j.resolver) built),
                  shown,
                )
          ]
    ]
