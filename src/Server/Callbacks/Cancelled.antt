-- ===== src/Server/Callbacks/Cancelled.antt =====
-- src/server/mod.rs: what is left when the interactions of a session are cancelled.
use codex_acp_v.Server.{PendingInteraction, State}
use codex_acp_v.Server.Callbacks.{cancel_each, cancel_interactions, keys_of, is_of}
use codex_acp_v.Common.{
  contains, List, lookup, String, keys, Bool, filter, ◌≡◌, keep_if, if◌then◌else◌, contains_key,
  ◌&&◌, not, none, ◌∷◌, remove, arith, Bool-cases, lookup-remove, [], refl, inl, inr, eq_iff,
  is_some_and, Option-cases, ◌∙◌,
}

contains-keys :
    {V : Type 0} (entries : List (String × V)) (key : String)
    → contains (keys entries) key ≡ contains_key entries key
unfolding contains lookup
contains-keys [] key = refl
contains-keys ((name, old) ∷ rest) key = ground (arith, contains-keys rest key)

contains-filter :
    (p : String → Bool) (xs : List String) (key : String)
    → contains (filter p xs) key ≡ (contains xs key && p key)
unfolding contains
contains-filter p [] key = refl
contains-filter p (x ∷ xs) key =
    let later = contains-filter p xs key in
    elim (Bool-cases (p x)) [
      | inl e ↦ rw (filter, e) (ground (arith, eq_iff x key))
      | inr e ↦ rw (filter, e) (ground (arith, eq_iff x key))
    ]

cancel_each-lookup :
    (names : List String) (pending : List (String × PendingInteraction)) (key : String)
    → lookup (cancel_each names pending).1 key
      ≡ (if contains names key then none else lookup pending key)
unfolding cancel_each contains
cancel_each-lookup [] pending key = refl
cancel_each-lookup (name ∷ rest) pending key =
    let later = cancel_each-lookup rest (remove pending name) key in
    let gone = lookup-remove pending name key in ground arith

-- Cancelling the interactions of a session removes exactly the entries of that session, and changes
-- nothing else of the state.
pub cancel_interactions-lookup :
    (session_id : String) (s : State)
    → let after = (cancel_interactions session_id s).1 in
      (after ≡ record s { pending = after.pending })
      × ((key : String)
          → lookup after.pending key
            ≡ keep_if (λ entry. not (is_of session_id entry)) (lookup s.pending key))
unfolding cancel_interactions keys_of
cancel_interactions-lookup session_id s = (
  refl,
  λ key.
      let gone = cancel_each-lookup (keys_of session_id s.pending) s.pending key in
      let of_session : String → Bool =
        λ name. is_some_and (lookup s.pending name) (is_of session_id) in
      let among = contains-filter of_session (keys s.pending) key in
      let there = contains-keys s.pending key in
      elim (Option-cases (lookup s.pending key)) [
        | inl e ↦ gone ∙ rw (e, among, there) (ground arith)
        | inr (entry, e) ↦ gone ∙ rw (among, there, e) (ground arith)
      ],
)
