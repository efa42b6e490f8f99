-- ===== src/Server/Streams/Tests.antt =====
-- src/server/resources.rs: a few subscriptions.
use codex_acp_v.Server.Streams.Closed.{close_streams-lookup}
use codex_acp_v.Backend.{BackendError, rpc, timeout}
use codex_acp_v.Json.{Value, obj, string, null, nat}
use codex_acp_v.Server.{State, new_state}
use codex_acp_v.Server.Streams.{
  start_stream, close_streams, claim_request, close_each, owned_ids, claim_stream, after_start,
  release_stream, already_active,
}
use codex_acp_v.Common.{
  String, Result, lookup, ◌≡◌, ◌∷◌, err, [], some, ok, none, insert, remove, refl, if◌then◌else◌,
  is_some_and, ◌==◌,
}

abbrev two_owners : State
two_owners = record new_state { mcp_subscriptions = ("a", "root") ∷ ("b", "side") ∷ [] }

abbrev side_only : State
side_only = record two_owners { mcp_subscriptions = ("b", "side") ∷ [] }

abbrev agrees : String → Value → State → State × Result BackendError Value
agrees method params s = (s, ok null)

abbrev refuses : String → Value → State → State × Result BackendError Value
refuses method params s = (s, err (rpc (record { code = nat 1; message = "no"; payload = none })))

abbrev lost : String → Value → State → State × Result BackendError Value
lost method params s = (s, err timeout)

abbrev wanted : Value
wanted = obj (("subscriptionId", string "c") ∷ [])

claims :
    (start_stream agrees (some "root") "start" wanted two_owners).0.mcp_subscriptions
    ≡ ("a", "root") ∷ ("b", "side") ∷ ("c", "root") ∷ []
unfolding start_stream claim_request claim_stream after_start lookup insert
claims = refl

-- A refusal frees the id, and a request that timed out keeps it.
frees :
    (start_stream refuses (some "root") "start" wanted two_owners).0.mcp_subscriptions
    ≡ ("a", "root") ∷ ("b", "side") ∷ []
unfolding start_stream claim_request claim_stream after_start release_stream lookup insert remove
frees = refl

keeps :
    (start_stream lost (some "root") "start" wanted two_owners).0.mcp_subscriptions
    ≡ ("a", "root") ∷ ("b", "side") ∷ ("c", "root") ∷ []
unfolding start_stream claim_request claim_stream after_start lookup insert
keeps = refl

taken_twice :
    (start_stream agrees
      (some "side")
      "start"
      (obj (("subscriptionId", string "a") ∷ []))
      two_owners).1
    ≡ err already_active
unfolding start_stream claim_request claim_stream lookup
taken_twice = refl

closes : close_streams agrees "root" two_owners ≡ (side_only, ok tt)
unfolding close_streams close_each owned_ids release_stream remove
closes = refl

close_streams-lookup_example : lookup side_only.mcp_subscriptions "b" ≡ (
    if is_some_and (lookup two_owners.mcp_subscriptions "b") (λ owner. owner == "root")
    then none
    else lookup two_owners.mcp_subscriptions "b")
unfolding lookup
close_streams-lookup_example =
    close_streams-lookup agrees (λ method params s. refl) "root" two_owners side_only
      (refl, (refl, tt)) closes "b"
