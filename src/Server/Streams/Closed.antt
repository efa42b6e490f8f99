-- ===== src/Server/Streams/Closed.antt =====
-- src/server/resources.rs: which subscriptions are open after the operations.
use codex_acp_v.Backend.{BackendError}
use codex_acp_v.Server.{State}
use codex_acp_v.Json.{Value, obj, string}
use codex_acp_v.Server.Streams.{owned_ids, close_streams, close_each, release_stream, StreamError}
use codex_acp_v.Common.{
  String, contains, lookup, Result, List, ◌≡◌, ok, arith, if◌then◌else◌, none, ap, false, ◌∷◌, [],
  eq_iff, ◌∙◌, Result-cases, inr, inl, err, lookup-remove, is_some_and, contains_key, ◌==◌,
  Bool-cases, refl, subst,
}

-- A request during which no other task changes the subscriptions.
abbrev pub IsQuiet : (String → Value → State → State × Result BackendError Value) → Type 0
IsQuiet backend =
    (method : String) (params : Value) (s : State)
    → (backend method params s).0.mcp_subscriptions ≡ s.mcp_subscriptions

-- A map holds a key once.
abbrev pub IsMap : List (String × String) → Type 0
IsMap [] = Unit {0}
IsMap ((key, value) ∷ rest) = (contains_key rest key ≡ false) × IsMap rest

owned_ids-lookup :
    (root id : String) (entries : List (String × String))
    → IsMap entries
    → contains (owned_ids root entries) id
      ≡ is_some_and (lookup entries id) (λ owner. owner == root)
unfolding owned_ids contains lookup
owned_ids-lookup root id [] single = refl
owned_ids-lookup root id ((name, owner) ∷ rest) (absent, single) =
    let later = owned_ids-lookup root id rest single in
    elim (Bool-cases (name == id)) [
      | inl same ↦
          let equal = (eq_iff name id).0 same in
          let gone : contains_key rest id ≡ false =
            subst (λ key. contains_key rest key ≡ false) equal absent in
          ground (arith, later)
      | inr other ↦ ground (arith, later)
    ]

refusal_not_done :
    {s later : State} {failure : StreamError}
    → ◌≡◌ {A = State × Result StreamError (Unit {0})} (s, err failure) (later, ok tt)
    → ⊥
refusal_not_done {s} {later} {failure} h =
    let clash : ◌≡◌ {A = Result StreamError (Unit {0})} (err failure) (ok tt) = ap (λ p. p.1) h in
    cc clash

module _ (backend : String → Value → State → State × Result BackendError Value)
    (quiet : IsQuiet backend) where
  close_each-lookup :
      (ids : List String) (s later : State) (id : String)
      → close_each backend ids s ≡ (later, ok tt)
      → lookup later.mcp_subscriptions id
        ≡ (if contains ids id then none else lookup s.mcp_subscriptions id)
  unfolding close_each contains release_stream
  close_each-lookup [] s later id h = rw (ap (λ p. p.0) h)
  close_each-lookup (first ∷ ids) s later id h =
      let method : String = "mcpServer/event/stream/stop" in
      let params = obj (("subscriptionId", string first) ∷ []) in
      let (mid, reply) = backend method params s in
      elim (Result-cases reply) [
        | inr (failure, failed) ↦ absurd (refusal_not_done (rw (close_each, failed) at h))
        | inl (result, done) ↦
            let rest : close_each backend ids (release_stream first mid) ≡ (later, ok tt) =
              rw (close_each, done) at h in
            let after = close_each-lookup ids (release_stream first mid) later id rest in
            let removed = lookup-remove mid.mcp_subscriptions first id in
            let same = quiet method params s in after ∙ rw (removed, same) (ground arith)
      ]

  -- When close_streams succeeds, no stream that the session owned is open, and every other entry,
  -- of another owner too, is as it was; if no other task changes the subscriptions during the
  -- requests, and the subscriptions hold an id once, as a map does.
  pub close_streams-lookup :
      (root : String) (s later : State)
      → IsMap s.mcp_subscriptions
      → close_streams backend root s ≡ (later, ok tt)
      → (id : String)
      → lookup later.mcp_subscriptions id ≡ (
          if is_some_and (lookup s.mcp_subscriptions id) (λ owner. owner == root)
          then none
          else lookup s.mcp_subscriptions id)
  unfolding close_streams
  close_streams-lookup root s later single h id =
      close_each-lookup (owned_ids root s.mcp_subscriptions) s later id h
      ∙ rw (owned_ids-lookup root id s.mcp_subscriptions single) refl
