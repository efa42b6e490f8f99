-- ===== src/Config/Threads/Scoped.antt =====
-- src/config.rs: what the parameters of a thread hold.
use codex_acp_v.Config.Metadata.Negotiated.{check_keys-ok}
use codex_acp_v.Config.Metadata.{check_keys}
use codex_acp_v.Config.{
  server_without_name, server_name, servers_twice, unsupported_field, combined_turns,
  config_not_object, not_session_scoped,
}
use codex_acp_v.Json.{Value, as_str, at, obj, arr, string, as_object}
use codex_acp_v.Config.Threads.{
  add_servers, map_servers, is_global, has_dot, mapped_server, with_roots, ThreadOperation,
  thread_parameters, session_config, is_allowed, is_given,
}
use codex_acp_v.Common.{
  insert, List, String, All, lookup, ◌≡◌, some, keys, ok, not, ◌==◌, sym, ◌||◌, ok_injective, true,
  ◌∷◌, if◌then◌else◌, is_empty, false, >>=-ok_inversion, Bool-cases, ◌&&◌, inl, or_fail, ensure,
  contains_key, inr, [], ensure-ok, lookup-insert, ◌∙◌, eq_refl, or_fail-ok, arith, eq_iff, refl,
  concat, map, unwrap_or,
}

-- A server is there under its name, which is not empty and has no dot, as it was mapped.
pub record IsMapped (mcp : List (String × Value)) (server : Value) : Type 0 where
  pub name : String
  pub mapped : Value
  pub named : as_str (at server "name") ≡ some name
  pub plain : (name == "" || has_dot name) ≡ false
  pub is_mapped : mapped_server server ≡ ok mapped
  pub found : lookup mcp name ≡ some mapped

abbrev Extends : List (String × Value) → List (String × Value) → Type 0
Extends mcp later =
    (name : String) (v : Value) → lookup mcp name ≡ some v → lookup later name ≡ some v

map_servers-IsMapped :
    (servers : List Value) (mcp out : List (String × Value))
    → map_servers servers mcp ≡ ok out
    → All (IsMapped out) servers × Extends mcp out
unfolding map_servers
map_servers-IsMapped [] mcp out h = (tt, (λ name v e. rw (sym (ok_injective h)) e))
map_servers-IsMapped (server ∷ rest) mcp out h =
    let (name, first, next) =
      >>=-ok_inversion (or_fail (as_str (at server "name")) server_without_name) _ h in
    let fresh = not (name == "" || has_dot name || contains_key mcp name) in
    let (done, second, next') = >>=-ok_inversion (ensure fresh server_name) _ next in
    let (mapped, third, last) = >>=-ok_inversion (mapped_server server) _ next' in
    let is_fresh = ensure-ok fresh server_name done second in
    let (others, kept) = map_servers-IsMapped rest (insert mcp name mapped) out last in
    let here = kept name mapped (lookup-insert mcp name name mapped ∙ rw (eq_refl name) refl) in
    (
      (
        record {
          name = name;
          mapped = mapped;
          named = or_fail-ok (as_str (at server "name")) server_without_name name first;
          plain = ground arith;
          is_mapped = third;
          found = here;
        },
        others,
      ),
      (λ other v e.
          let placed = lookup-insert mcp name other mapped in
          kept other v (ground (arith, eq_iff name other))),
    )

All-keys-insert :
    (P : String → Type 0) (entries : List (String × Value)) (key : String) (new : Value)
    → P key
    → All P (keys entries)
    → All P (keys (insert entries key new))
unfolding insert
All-keys-insert P [] key new p h = (p, tt)
All-keys-insert P ((name, old) ∷ rest) key new p (here, more) = elim (Bool-cases (name == key)) [
  | inl e ↦ rw (insert, e) (here, more)
  | inr e ↦ rw (insert, e) (here, All-keys-insert P rest key new p more)
]

-- The configuration that was given, with the servers of the request where there are any.
pub record IsConfigured (given config : List (String × Value)) (servers : List Value) : Type 0 where
  pub mcp : List (String × Value)
  pub mapped : All (IsMapped mcp) servers
  pub scoped : All (λ key. not (is_global key) ≡ true) (keys config)
  pub entries :
      (key : String)
      → lookup config key
        ≡ (if not (is_empty mcp) && "mcp_servers" == key then some (obj mcp) else lookup given key)
  pub once : (is_empty mcp || not (contains_key given "mcp_servers")) ≡ true

servers_scoped : not (is_global "mcp_servers") ≡ true
unfolding is_global concat
servers_scoped = refl

add_servers-IsConfigured :
    (mcp given config : List (String × Value)) (servers : List Value)
    → All (IsMapped mcp) servers
    → All (λ key. not (is_global key) ≡ true) (keys given)
    → add_servers mcp given ≡ ok config
    → IsConfigured given config servers
unfolding add_servers
add_servers-IsConfigured [] given config servers mapped scoped h =
    let same : given ≡ config = ok_injective h in
    record {
      mcp = [];
      mapped = mapped;
      scoped = rw (sym same) scoped;
      entries = λ key. rw (sym same) refl;
      once = refl;
    }
add_servers-IsConfigured (first ∷ more) given config servers mapped scoped h =
    let (done, checked, last) =
      >>=-ok_inversion (ensure (not (contains_key given "mcp_servers")) servers_twice) _ h in
    let same = ok_injective last in
    let new = obj (first ∷ more) in
    record {
      mcp = first ∷ more;
      mapped = mapped;
      scoped = rw (sym same) (All-keys-insert _ given "mcp_servers" new servers_scoped scoped);
      entries = λ key. rw (sym same) (lookup-insert given "mcp_servers" key new);
      once = ensure-ok _ servers_twice done checked;
    }

lookup-with_roots :
    (cwd : String) (roots : List String) (extra : List (String × Value)) (key : String)
    → lookup (with_roots cwd roots extra) key ≡ (
        if "runtimeWorkspaceRoots" == key
        then some (arr (string cwd ∷ map string roots))
        else if "cwd" == key
        then some (string cwd)
        else lookup extra key)
unfolding with_roots
lookup-with_roots cwd roots extra key =
    let all_roots = arr (string cwd ∷ map string roots) in
    lookup-insert (insert extra "cwd" (string cwd)) "runtimeWorkspaceRoots" key all_roots
    ∙ rw (lookup-insert extra "cwd" key (string cwd)) refl

pub record IsThread (operation : ThreadOperation) (cwd : String) (roots : List String)
    (servers : List Value) (extra parameters : List (String × Value)) : Type 0 where
  pub allowed : All (λ key. is_allowed operation key ≡ true) (keys extra)
  pub one_turn : (is_given extra "lastTurnId" && is_given extra "beforeTurnId") ≡ false
  pub given : List (String × Value)
  pub is_given_config : as_object (unwrap_or (lookup extra "config") (obj [])) ≡ some given
  pub config : List (String × Value)
  pub configured : IsConfigured given config servers
  pub entries :
      (key : String)
      → lookup parameters key ≡ (
          if "config" == key
          then some (obj config)
          else if "runtimeWorkspaceRoots" == key
          then some (arr (string cwd ∷ map string roots))
          else if "cwd" == key
          then some (string cwd)
          else lookup extra key)

-- Parameters of a thread that are accepted hold the fields of the operation alone, the directory
-- and the roots of the session, and a configuration without global keys, in which each server of
-- the request stands under its own name and all else is as it was given.
pub thread_parameters-IsThread :
    (operation : ThreadOperation) (cwd : String) (roots : List String) (servers : List Value)
    (extra parameters : List (String × Value))
    → thread_parameters operation cwd roots servers extra ≡ ok parameters
    → IsThread operation cwd roots servers extra parameters
unfolding thread_parameters session_config
thread_parameters-IsThread operation cwd roots servers extra parameters h =
    let (done, first, next) =
      >>=-ok_inversion (check_keys unsupported_field (is_allowed operation) (keys extra)) _ h in
    let single = not (is_given extra "lastTurnId" && is_given extra "beforeTurnId") in
    let (done', second, next') = >>=-ok_inversion (ensure single combined_turns) _ next in
    let placed = with_roots cwd roots extra in
    let (config, third, last) = >>=-ok_inversion (session_config placed servers) _ next' in
    let named = unwrap_or (lookup placed "config") (obj []) in
    let (given, read, checked) =
      >>=-ok_inversion (or_fail (as_object named) config_not_object) _ third in
    let (done'', scoped, collected) =
      >>=-ok_inversion (check_keys not_session_scoped (λ key. not (is_global key)) (keys given)) _
        checked in
    let (mcp, mapped, added) = >>=-ok_inversion (map_servers servers []) _ collected in
    let same = ok_injective last in
    let is_single = ensure-ok single combined_turns done' second in
    record {
      allowed = check_keys-ok unsupported_field (is_allowed operation) (keys extra) first;
      one_turn = ground arith;
      given = given;
      is_given_config =
          rw (lookup-with_roots cwd roots extra "config") at
            (or_fail-ok (as_object named) config_not_object given read);
      config = config;
      configured =
          add_servers-IsConfigured mcp given config servers
            (map_servers-IsMapped servers [] mcp mapped).0
            (check_keys-ok not_session_scoped _ (keys given) scoped) added;
      entries = λ key. rw (sym same) (
          lookup-insert placed "config" key (obj config)
          ∙ rw (lookup-with_roots cwd roots extra key) refl);
    }
