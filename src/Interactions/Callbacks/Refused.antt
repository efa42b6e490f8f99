-- ===== src/Interactions/Callbacks/Refused.antt =====
-- src/interactions/mod.rs: what a client that is gone or cancels makes of an interaction.
use codex_acp_v.Interactions.Permission.Translated.{translate-ResolvesOffers}
use codex_acp_v.Interactions.{resolve, PermissionInteraction}
use codex_acp_v.Interactions.McpApproval.{mcp_approval}
use codex_acp_v.Interactions.Elicitation.{
  Kind, ElicitationError, ElicitationInteraction, questions_kind, mcp, ElicitationCapabilities,
}
use codex_acp_v.Interactions.McpApproval.Remembered.{mcp_approval-Answers}
use codex_acp_v.Interactions.Permission.Offered.{ResolvesOffers}
use codex_acp_v.Interactions.Permission.{cancelled_response, is_permissions_request, translate}
use codex_acp_v.Json.{Value, obj, string, null}
use codex_acp_v.Interactions.Callbacks.{
  as_elicitation, cancelled_interaction, CallbackError, as_permission, as_approval, Interaction,
  translate_callback, interaction_of, permission, elicitation, exceeds_limit, is_approval_method,
  is_tool_approval, is_elicitation_method,
}
use codex_acp_v.Interactions.Elicitation.Questions.{cancelled_kind, mcp_response}
use codex_acp_v.Common.{
  ℕ, Result, String, Option, Bool-cases, Bool, ◌∷◌, [], inl, ◌≡◌, Result-cases, err, arith, inr, ok,
  Option-cases, some, subst, ◌∙◌, >>=-ok_inversion, none, ensure, sym, ap, ok_injective, leb, ◌*◌,
}

-- The refusals that the backend knows: of a decision, of permissions, of an elicitation and of
-- questions. None of them accepts, decides or answers.
pub data IsRefusal : Value → Type 0 where
  cancels_decision : IsRefusal (obj (("decision", string "cancel") ∷ []))
  grants_nothing : IsRefusal (obj (("permissions", obj []) ∷ ("scope", string "turn") ∷ []))
  cancels_request :
      IsRefusal (obj (("action", string "cancel") ∷ ("content", null) ∷ ("_meta", null) ∷ []))
  answers_nothing : IsRefusal (obj (("answers", obj []) ∷ []))

cancelled_response-IsRefusal : (method : String) → IsRefusal (cancelled_response method)
unfolding cancelled_response
cancelled_response-IsRefusal method = elim (Bool-cases (is_permissions_request method)) [
  | inl asked ↦ rw (cancelled_response, asked) grants_nothing
  | inr decided ↦ rw (cancelled_response, decided) cancels_decision
]

cancelled_kind-IsRefusal : (kind : Kind) → IsRefusal (cancelled_kind kind)
unfolding cancelled_kind mcp_response
cancelled_kind-IsRefusal (questions_kind qs) = answers_nothing
cancelled_kind-IsRefusal (mcp schema) = cancels_request

-- A property of all interactions that a translation may give.
abbrev Refused : Result CallbackError (Option Interaction) → Type 0
Refused r = (i : Interaction) → r ≡ ok (some i) → IsRefusal (cancelled_interaction i)

as_elicitation-Refused :
    (r : Result ElicitationError (Option ElicitationInteraction)) → Refused (as_elicitation r)
unfolding as_elicitation cancelled_interaction
as_elicitation-Refused (err e) i h = absurd (ground arith)
as_elicitation-Refused (ok none) i h = absurd (ground arith)
as_elicitation-Refused (ok (some j)) i h =
    let same : elicitation j ≡ i = cc h in
    subst (λ k. IsRefusal (cancelled_interaction k)) same (cancelled_kind-IsRefusal j.resolver)

module _ (show : Value → String) (session_id method : String) (params : Value) where
  translate-cancelled :
      (j : PermissionInteraction)
      → translate show session_id method params ≡ ok j
      → IsRefusal j.resolver.cancelled
  unfolding ResolvesOffers resolve
  translate-cancelled j h =
      let (offers, _, _, resolves) = translate-ResolvesOffers show session_id method params j h in
      subst IsRefusal (sym (ok_injective resolves.3)) (cancelled_response-IsRefusal method)

  mcp_approval-cancelled :
      (j : PermissionInteraction)
      → mcp_approval show session_id params ≡ ok (some j)
      → IsRefusal j.resolver.cancelled
  unfolding resolve
  mcp_approval-cancelled j h =
      let (persistence, _, answers) = mcp_approval-Answers show session_id params j h in
      subst IsRefusal (sym (ok_injective answers.cancels)) cancels_request

  as_permission-Refused : Refused (as_permission (translate show session_id method params))
  unfolding as_permission cancelled_interaction
  as_permission-Refused i h = elim (Result-cases (translate show session_id method params)) [
    | inr (e, failed) ↦ absurd (ground arith)
    | inl (j, done) ↦
        let same : permission j ≡ i = cc (rw (as_permission, done) at h) in
        subst (λ k. IsRefusal (cancelled_interaction k)) same (translate-cancelled j done)
  ]

  as_approval-Refused : Refused (as_approval (mcp_approval show session_id params))
  unfolding as_approval cancelled_interaction
  as_approval-Refused i h = elim (Result-cases (mcp_approval show session_id params)) [
    | inr (e, failed) ↦ absurd (ground arith)
    | inl (found, done) ↦ elim (Option-cases found) [
      | inl nothing ↦ absurd (ground arith)
      | inr (j, shown) ↦
          let built : mcp_approval show session_id params ≡ ok (some j) = done ∙ ap ok shown in
          let same : permission j ≡ i = cc (rw (as_approval, built) at h) in
          subst (λ k. IsRefusal (cancelled_interaction k)) same (mcp_approval-cancelled j built)
    ]
  ]

module _ (size : Value → ℕ) (show : Value → String) (project : Value → Option (Value × Bool)) where
  -- Whatever the callback, the response for a client that cancels or is gone is one of the four
  -- refusals: no interaction ends in an approval by default.
  pub translate_callback-IsRefusal :
      (session_id method : String) (params : Value) (capabilities : Option ElicitationCapabilities)
      (i : Interaction)
      → translate_callback size show project session_id method params capabilities ≡ ok (some i)
      → IsRefusal (cancelled_interaction i)
  unfolding translate_callback interaction_of
  translate_callback-IsRefusal session_id method params capabilities i h =
      let (_, _, chosen) =
        >>=-ok_inversion (ensure (leb (size params) (1024 * 1024)) exceeds_limit) _ h in
      elim (Bool-cases (is_approval_method method)) [
        | inl approves ↦
            as_permission-Refused show session_id method params i
              (rw (interaction_of, approves) at chosen)
        | inr no_approval ↦ elim (Bool-cases (is_tool_approval method params)) [
          | inl tool ↦
              as_approval-Refused show session_id method params i
                (rw (interaction_of, no_approval, tool) at chosen)
          | inr no_tool ↦ elim (Bool-cases (is_elicitation_method method)) [
            | inl elicits ↦
                as_elicitation-Refused _ i
                  (rw (interaction_of, no_approval, no_tool, elicits) at chosen)
            | inr nothing ↦ absurd (ground arith)
          ]
        ]
      ]
