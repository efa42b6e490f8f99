-- ===== src/Server/Callbacks/Answers/Backed.antt =====
-- src/server/events.rs: what stands behind a result that the backend gets.
use mathlib.Core.Option
use codex_acp_v.Server.{InteractionCancellation, cancelled, dismissed, State}
use codex_acp_v.Interactions.Callbacks.Refused.{IsRefusal, translate_callback-IsRefusal}
use codex_acp_v.Interactions.Elicitation.Questions.{resolve_elicitation, cancelled_kind}
use codex_acp_v.Interactions.{
  PermissionInteraction, selected, resolve, RequestPermissionOutcome, cancelled_outcome,
}
use codex_acp_v.Interactions.Callbacks.{
  Interaction, permission, elicitation, cancelled_interaction, CallbackError,
}
use codex_acp_v.Server.Callbacks.{
  Callback, name_child, child_of, interaction_for, admit_callback, ask, wants_raw, source_thread,
}
use codex_acp_v.Server.Callbacks.Answers.{
  Client, replied, server_request_params, answer_callback, stop, answer_elicitation,
  answer_permission, answer_extension, Reply, failed, stopped, timed_out,
}
use codex_acp_v.Json.{Number, Value}
use codex_acp_v.Interactions.Elicitation.{ElicitationResponse, ElicitationInteraction}
use codex_acp_v.Common.{
  ℕ, Bool, Option, String, ◌≡◌, lookup, some, ok, none, false, sym, ok_injective, some_injective,
  arith, refl, true, ◌∙◌, Result-cases, Option-cases, ap, inl, inr, subst, Bool-cases, unwrap_or,
}

-- The client replied with it, or it is a refusal.
pub data IsBacked (size : ElicitationResponse → ℕ) (at_most : Number → Number → Bool)
    (client : Client) (session_id : Option String) (callback : Callback) (v : Value)
    : Option Interaction → Type 0 where
  chosen :
      (i : PermissionInteraction) (id : String)
      → client.on_permission i.request ≡ replied (selected id)
      → lookup i.resolver.choices id ≡ some v
      → IsBacked size at_most client session_id callback v (some (permission i))
  elicited :
      (i : ElicitationInteraction) (response : ElicitationResponse)
      → client.on_elicitation i ≡ replied response
      → resolve_elicitation size at_most i.resolver response ≡ ok v
      → IsBacked size at_most client session_id callback v (some (elicitation i))
  extended :
      client.on_extension (server_request_params size at_most client session_id callback)
        ≡ replied v
      → IsBacked size at_most client session_id callback v none
  refused :
      (i : Interaction)
      → v ≡ cancelled_interaction i
      → IsRefusal v
      → IsBacked size at_most client session_id callback v (some i)

module _ (size : ElicitationResponse → ℕ) (at_most : Number → Number → Bool) (client : Client)
    (session_id : Option String) (callback : Callback) (v : Value) where
  stop-ok :
      (refusal : Value) (reason : Option InteractionCancellation)
      → stop (ok refusal) reason ≡ some (ok v)
      → v ≡ refusal
  unfolding stop
  stop-ok refusal none h = sym (ok_injective (some_injective h))
  stop-ok refusal (some cancelled) h = sym (ok_injective (some_injective h))
  stop-ok refusal (some dismissed) h = cc h

  IsBacked-permission :
      (i : PermissionInteraction) (reply : Reply RequestPermissionOutcome)
      → IsRefusal i.resolver.cancelled
      → client.on_permission i.request ≡ reply
      → answer_permission size at_most client i reply ≡ ok (some (ok v))
      → IsBacked size at_most client session_id callback v (some (permission i))
  unfolding answer_permission resolve cancelled_interaction
  IsBacked-permission i (replied (selected id)) refusal e h =
      elim (Option-cases (lookup i.resolver.choices id)) [
        | inl absent ↦ absurd (ground arith)
        | inr (found, e') ↦ chosen i id e (ground arith)
      ]
  IsBacked-permission i (replied cancelled_outcome) refusal e h =
      let same : i.resolver.cancelled ≡ v = ok_injective (some_injective (ok_injective h)) in
      refused (permission i) (sym same) (subst IsRefusal same refusal)
  IsBacked-permission i (replied RequestPermissionOutcome.unsupported) refusal e h = cc h
  IsBacked-permission i (failed error) refusal e h = cc h
  IsBacked-permission i timed_out refusal e h = cc h
  IsBacked-permission i (stopped reason) refusal e h =
      let same = stop-ok i.resolver.cancelled reason (ok_injective h) in
      refused (permission i) same (subst IsRefusal (sym same) refusal)

  IsBacked-elicitation :
      (i : ElicitationInteraction) (reply : Reply ElicitationResponse)
      → IsRefusal (cancelled_kind i.resolver)
      → client.on_elicitation i ≡ reply
      → answer_elicitation size at_most client i reply ≡ ok (some (ok v))
      → IsBacked size at_most client session_id callback v (some (elicitation i))
  unfolding answer_elicitation cancelled_interaction
  IsBacked-elicitation i (replied response) refusal e h =
      elim (Result-cases (resolve_elicitation size at_most i.resolver response)) [
        | inr (error, e') ↦ absurd (ground arith)
        | inl (found, e') ↦ elicited i response e (ground arith)
      ]
  IsBacked-elicitation i (failed error) refusal e h = cc h
  IsBacked-elicitation i timed_out refusal e h = cc h
  IsBacked-elicitation i (stopped reason) refusal e h =
      let same = stop-ok (cancelled_kind i.resolver) reason (ok_injective h) in
      refused (elicitation i) same (subst IsRefusal (sym same) refusal)

  IsBacked-extension :
      (reply : Reply Value)
      → client.on_extension (server_request_params size at_most client session_id callback) ≡ reply
      → answer_extension size at_most client reply ≡ ok (some (ok v))
      → IsBacked size at_most client session_id callback v none
  unfolding answer_extension stop
  IsBacked-extension (replied result) e h =
      extended (e ∙ ap replied (ok_injective (some_injective (ok_injective h))))
  IsBacked-extension (failed error) e h = absurd (ground arith)
  IsBacked-extension timed_out e h = cc h
  IsBacked-extension (stopped none) e h = absurd (ground arith)
  IsBacked-extension (stopped (some cancelled)) e h = absurd (ground arith)
  IsBacked-extension (stopped (some dismissed)) e h = absurd (ground arith)

  IsBacked-answer :
      (interaction : Option Interaction) (extension : Bool)
      → ((i : Interaction) → interaction ≡ some i → IsRefusal (cancelled_interaction i))
      → answer_callback size at_most client interaction extension session_id callback
        ≡ ok (some (ok v))
      → IsBacked size at_most client session_id callback v interaction
  unfolding answer_callback cancelled_interaction
  IsBacked-answer (some (permission i)) extension refusal h =
      IsBacked-permission i (client.on_permission i.request) (refusal (permission i) refl) refl h
  IsBacked-answer (some (elicitation i)) extension refusal h =
      IsBacked-elicitation i (client.on_elicitation i) (refusal (elicitation i) refl) refl h
  IsBacked-answer none true refusal h = IsBacked-extension (client.on_extension _) refl h
  IsBacked-answer none false refusal h = absurd (ground arith)

-- The name of a child thread does not change what a cancellation sends.
name_child-cancelled :
    (session_id source : Option String) (i : Interaction)
    → cancelled_interaction (name_child session_id source i) ≡ cancelled_interaction i
unfolding name_child cancelled_interaction
name_child-cancelled session_id source (permission i) =
    elim (Option-cases (child_of session_id source)) [
      | inl e ↦ rw (e, name_child) refl
      | inr (child, e) ↦ rw (e, name_child) refl
    ]
name_child-cancelled session_id source (elicitation i) = refl

module _ (size : Value → ℕ) (show : Value → String) (project : Value → Option (Value × Bool))
    (describe : CallbackError → String) (allow_host_methods : Bool) where
  ask-named :
      (session_id : Option String) (root : Option ℕ) (channel : ℕ) (callback : Callback)
      (s after : State) (interaction : Option Interaction) (extension tells : Bool)
      → admit_callback size show project describe allow_host_methods session_id root channel
          callback s
        ≡ (ask interaction extension tells, after)
      → (found : Option Interaction) × (interaction_for size show project describe
            allow_host_methods session_id callback s
          ≡ ok found)
        × (interaction ≡ Option.map (name_child session_id (source_thread callback)) found)
  unfolding admit_callback
  ask-named session_id root channel callback s after interaction extension tells h =
      elim (Result-cases
        (interaction_for size show project describe allow_host_methods session_id callback s)) [
          | inr (e, wrong) ↦ absurd (ground arith)
          | inl (found, right) ↦ (found, right, ground arith)
        ]

  interaction_for-IsRefusal :
      (session_id : Option String) (callback : Callback) (s : State) (i : Interaction)
      → interaction_for size show project describe allow_host_methods session_id callback s
        ≡ ok (some i)
      → IsRefusal (cancelled_interaction i)
  unfolding interaction_for
  interaction_for-IsRefusal session_id callback s i h =
      elim (Bool-cases (wants_raw s callback.method)) [
        | inl raw ↦ absurd (ground arith)
        | inr seen ↦
            translate_callback-IsRefusal size show project (unwrap_or session_id "") callback.method
              callback.params s.capabilities i (rw (interaction_for, seen) at h)
      ]

  -- A result that the backend gets for a callback that was put to the client is one that the client
  -- chose or gave, or it is a refusal, whatever the client does and however the wait ends.
  pub answer_callback-IsBacked :
      (response_size : ElicitationResponse → ℕ) (at_most : Number → Number → Bool) (client : Client)
      (session_id : Option String) (root : Option ℕ) (channel : ℕ) (callback : Callback)
      (s after : State) (interaction : Option Interaction) (extension tells : Bool) (v : Value)
      → admit_callback size show project describe allow_host_methods session_id root channel
          callback s
        ≡ (ask interaction extension tells, after)
      → answer_callback response_size at_most client interaction extension session_id callback
        ≡ ok (some (ok v))
      → IsBacked response_size at_most client session_id callback v interaction
  answer_callback-IsBacked response_size at_most client session_id root channel callback s after
        interaction extension tells v admitted answered =
      let (found, translated, named) =
        ask-named session_id root channel callback s after interaction extension tells admitted in
      IsBacked-answer response_size at_most client session_id callback v interaction extension
        (λ i e. elim (Option-cases found) [
          | inl absent ↦ absurd (ground arith)
          | inr (j, e') ↦
              let same : name_child session_id (source_thread callback) j ≡ i = ground arith in
              let refusal =
                interaction_for-IsRefusal session_id callback s j (translated ∙ ap ok e') in
              subst (λ k. IsRefusal (cancelled_interaction k)) same
                (rw (name_child-cancelled session_id (source_thread callback) j) refusal)
        ])
        answered
