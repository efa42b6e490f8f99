-- ===== src/Extensions/Tests.antt =====
-- Tests of the extension interface, and its theorems at concrete inputs.
use codex_acp_v.Extensions.Methods.Disjoint.{tables_disjoint, host_gated}
use codex_acp_v.Extensions.Negotiation.Agreement.{Agree, from_initialize_meta-eq-ok_iff}
use codex_acp_v.Extensions.Policy.Authorized.{IsAuthorized, authorize-eq-ok_iff}
use codex_acp_v.Extensions.Negotiation.WellFormed.{ReadsCodex, from_meta-ReadsCodex}
use codex_acp_v.Extensions.Methods.{
  thread_methods, host_methods, discovery_methods, lifecycle_methods,
}
use codex_acp_v.Json.{Value, obj, nat, string, get, arr, bool, null}
use codex_acp_v.Extensions.{
  RequestEnvelope, thread, bad_version, not_owned, negotiation, host_access, lifecycle, discovery,
}
use codex_acp_v.Extensions.Policy.{
  authorize, ExtensionPolicy, check_thread, check_references, check_list, scope_of,
  is_thread_method, is_host_method, is_discovery,
}
use codex_acp_v.Extensions.Negotiation.{
  Negotiation, from_meta, from_initialize_meta, read_codex, events_field, callbacks_field,
  flag_field, read_events, read_callbacks,
}
use codex_acp_v.Common.{
  ◌≡◌, Has, ◌∷◌, ok, false, some, contains, ◌↔◌, [], Option, true, none, lookup, add, err, refl,
  String,
}

abbrev meta : Value
meta = obj (
    (
      "codex",
      obj (
          ("version", nat 1)
          ∷ ("events", arr (string "turn/started" ∷ string "*" ∷ string "*" ∷ []))
          ∷ ("serverRequests", bool true)
          ∷ ("rawServerRequests", arr (string "item/x" ∷ []))
          ∷ []),
    )
    ∷ [])

abbrev declared : Negotiation
declared = record {
  events = "*" ∷ "turn/started" ∷ [];
  server_requests = true;
  raw_server_requests = "item/x" ∷ [];
  session_reset = false;
}

from_meta_test : from_meta meta ≡ ok (some declared)
unfolding from_meta read_codex events_field callbacks_field flag_field read_events read_callbacks
    lookup add contains
from_meta_test = refl

from_meta_errors :
    (from_meta (obj (("codex", obj (("version", nat 2) ∷ [])) ∷ [])) ≡ err bad_version)
    × (from_meta (
          obj (
            ("codex", obj (("version", nat 1) ∷ ("rawServerRequests", arr (string "a" ∷ [])) ∷ []))
            ∷ []))
        ≡ err (negotiation "rawServerRequests requires serverRequests: true"))
unfolding from_meta read_codex events_field callbacks_field flag_field read_events read_callbacks
    lookup add contains
from_meta_errors = (refl, refl)

from_meta-ReadsCodex_example :
    ((n : Negotiation)
      → from_meta meta ≡ ok (some n)
      → (codex : Value) × (get "codex" meta ≡ some codex) × ReadsCodex codex n)
    × ((from_meta meta ≡ ok none) ↔ (get "codex" meta ≡ none))
from_meta-ReadsCodex_example = from_meta-ReadsCodex meta

from_initialize_meta-eq-ok_example : (from_initialize_meta meta meta ≡ ok (some declared)) ↔ (
    (top : Option Negotiation) × (capability : Option Negotiation) × (from_meta meta ≡ ok top)
    × (from_meta meta ≡ ok capability)
    × Agree top capability (some declared))
from_initialize_meta-eq-ok_example = from_initialize_meta-eq-ok_iff meta meta (some declared)

abbrev read_request : RequestEnvelope
read_request = record {
  version = 1;
  session_id = some "t1";
  method = "thread/read";
  params = obj (("threadId", string "t1") ∷ []);
}

abbrev guarded : ExtensionPolicy
guarded = record { allow_host_methods = false }

authorize_tests :
    (authorize guarded read_request ("t1" ∷ []) ≡ ok (thread "t1"))
    × (authorize guarded read_request ("t2" ∷ []) ≡ err not_owned)
    × (authorize guarded (record read_request { method = "thread/shellCommand" }) ("t1" ∷ [])
        ≡ err host_access)
    × (authorize guarded (record read_request { method = "thread/start" }) ("t1" ∷ [])
        ≡ err (lifecycle "thread/start"))
    × (authorize guarded (record read_request { method = "model/list"; params = null }) ("t1" ∷ [])
        ≡ ok discovery)
unfolding authorize check_thread check_references check_list scope_of is_thread_method
    is_host_method is_discovery thread_methods host_methods discovery_methods lifecycle_methods
    contains lookup
authorize_tests = (refl, refl, refl, refl, refl)

authorize-eq-ok_example :
    (authorize guarded read_request ("t1" ∷ []) ≡ ok (thread "t1"))
    ↔ IsAuthorized guarded read_request ("t1" ∷ []) (thread "t1")
authorize-eq-ok_example = authorize-eq-ok_iff guarded read_request ("t1" ∷ []) (thread "t1")

tables_disjoint_test :
    (Has thread_methods "thread/delete"
      → (Has host_methods "thread/delete" ↔ (◌≡◌ {A = String} "thread/delete" host_gated))
        × (contains discovery_methods "thread/delete" ≡ false)
        × (contains lifecycle_methods "thread/delete" ≡ false))
    × (Has host_methods "thread/delete"
        → (contains discovery_methods "thread/delete" ≡ false)
          × (contains lifecycle_methods "thread/delete" ≡ false))
    × (Has discovery_methods "thread/delete" → contains lifecycle_methods "thread/delete" ≡ false)
tables_disjoint_test = tables_disjoint "thread/delete"
