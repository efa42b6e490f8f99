-- ===== src/Extensions/Policy.antt =====
-- src/extensions.rs, `ExtensionPolicy`: which extension requests the operator's policy admits.
pub mod Authorized
use codex_acp_v.Common.{
  String, ◌≡◌, Bool, true, false, not, ◌&&◌, ◌||◌, Option, none, some, List, [], ◌∷◌, ◌==◌,
  if◌then◌else◌, Result, ok, err, ◌>>=◌, ◌>>◌, ensure, or_fail, contains, all, is_some, is_some_and,
  is_none_or, keep_if, and_then, nat_eq,
}
use codex_acp_v.Json.{Value, get, as_str, as_array, is_null, is_object}
use codex_acp_v.Extensions.{
  RequestEnvelope, ExtensionError, bad_version, unsupported, lifecycle, host_access, not_owned,
  parameters, RequestScope, thread, discovery, host,
}
use codex_acp_v.Extensions.Methods.{
  thread_methods, discovery_methods, host_methods, lifecycle_methods,
}

pub record ExtensionPolicy : Type 0 where
  pub allow_host_methods : Bool

-- `params.get(key).filter(|value| !value.is_null())`
abbrev pub given : String → Value → Option Value
given key params = keep_if (λ v. not (is_null v)) (get key params)

abbrev pub is_optional_thread : String → Bool
is_optional_thread method = method == "mcpServer/resource/read"

unfoldable pub is_thread_method : RequestEnvelope → Bool
is_thread_method r =
    contains thread_methods r.method
    || (is_optional_thread r.method && is_some (given "threadId" r.params))
    || r.method == "thread/shellCommand"

unfoldable pub is_host_method : RequestEnvelope → Bool
is_host_method r =
    contains host_methods r.method
    || (is_optional_thread r.method && not (is_some (given "threadId" r.params)))

unfoldable pub is_discovery : RequestEnvelope → Bool
is_discovery r = contains discovery_methods r.method

-- `id.as_str().is_some_and(|id| owned_threads.contains(id))`
abbrev pub names_owned : List String → Value → Bool
names_owned owned v = is_some_and (as_str v) (contains owned)

-- The thread that the request addresses, where it must or does name one.
unfoldable pub check_thread : List String → RequestEnvelope → Result ExtensionError (Unit {0})
check_thread owned r =
    if is_thread_method r || is_some (given "threadId" r.params)
    then (do
      id ← or_fail (and_then (given "threadId" r.params) as_str) not_owned
      ensure (is_some_and r.session_id (λ s. s == id) && contains owned id) not_owned)
    else ok tt

abbrev pub reference_keys : List String
reference_keys = "parentThreadId" ∷ "ancestorThreadId" ∷ "beforeThreadId" ∷ []

-- The loop over the known references to one thread.
unfoldable pub check_references :
    List String → Value → List String → Result ExtensionError (Unit {0})
check_references owned params [] = ok tt
check_references owned params (key ∷ more) = do
  ensure (is_none_or (given key params) (names_owned owned)) not_owned
  check_references owned params more

unfoldable pub check_list : List String → Value → Result ExtensionError (Unit {0})
check_list owned params = elim (given "threadIds" params) [
  | none ↦ ok tt
  | some v ↦ do ids ← or_fail (as_array v) not_owned; ensure (all (names_owned owned) ids) not_owned
]

unfoldable pub scope_of : RequestEnvelope → Result ExtensionError RequestScope
scope_of r =
    if is_thread_method r
    then (do id ← or_fail r.session_id not_owned; ok (thread id))
    else if is_host_method r
    then ok host
    else ok discovery

unfoldable pub authorize :
    ExtensionPolicy → RequestEnvelope → List String → Result ExtensionError RequestScope
authorize policy r owned = do
  ensure (nat_eq r.version 1) bad_version
  ensure (is_object r.params || is_null r.params) parameters
  ensure (not (contains lifecycle_methods r.method)) (lifecycle r.method)
  ensure (is_thread_method r || is_host_method r || is_discovery r) (unsupported r.method)
  ensure (is_none_or r.session_id (contains owned)) not_owned
  check_thread owned r
  check_references owned r.params reference_keys
  check_list owned r.params
  ensure (not (is_host_method r && not policy.allow_host_methods)) host_access
  scope_of r
