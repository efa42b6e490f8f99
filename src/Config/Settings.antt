-- ===== src/Config/Settings.antt =====
-- src/config.rs, `is_settings_noop`, `settings_match`, `same_sandbox` and `from_response`.
pub mod Confined
use codex_acp_v.Server.{Configuration}
use codex_acp_v.Json.{Value, value_eq, get, at, as_object, as_str, as_bool, arr, is_null, null}
use codex_acp_v.Common.{
  Bool, String, List, Option, starts_with, ◌&&◌, if◌then◌else◌, unwrap_or, none, lookup, remove,
  is_some_and, all, ◌∷◌, [], not, some, is_none_or, true, ◌==◌, ◌||◌, nat_eq, insert, get_elem?,
  false, contains, and_then, keys, filter,
}
use Prim.Native.Char.{code}
use Prim.Native.String

-- `left == right` of two `Option<&Value>`.
abbrev pub option_eq : Option Value → Option Value → Bool
option_eq none none = true
option_eq (some v) (some w) = value_eq v w
option_eq _ another = false

-- The segments between slashes of a path, the one that is read being `segment`.
unfoldable pub segments : String → String → List String
segments String.[] segment = segment ∷ []
segments (String.◌∷◌ c rest) segment =
    let shorter = segments rest "" in
    let longer = segments rest (String.◌++◌ segment (String.◌∷◌ c String.[])) in
    if nat_eq (code c) 47 then segment ∷ shorter else longer

-- The components of a path on Unix: whether it is absolute, whether a relative one starts with a
-- dot, and its names without the empty ones and the dots.
unfoldable pub components : String → Bool × Bool × List String
components path =
    let parts = segments path "" in
    let rooted = starts_with "/" path in
    let dotted = not rooted && is_some_and (get_elem? parts 0) (λ part. part == ".") in
    (rooted, dotted, filter (λ part. not (part == "" || part == ".")) parts)

abbrev texts_eq : List String → List String → Bool
texts_eq [] [] = true
texts_eq (x ∷ xs) (y ∷ ys) = x == y && texts_eq xs ys
texts_eq _ others = false

abbrev bool_eq : Bool → Bool → Bool
bool_eq a b = if a then b else not b

-- `Path::new(left) == Path::new(right)`
unfoldable pub same_path : String → String → Bool
same_path left right =
    let (root, dot, names) = components left in
    let (root', dot', names') = components right in
    bool_eq root root' && bool_eq dot dot' && texts_eq names names'

abbrev pub flag : Value → String → Bool
flag policy key = unwrap_or (as_bool (at policy key)) false

abbrev pub network : Value → String
network policy = unwrap_or (as_str (at policy "networkAccess")) "restricted"

abbrev pub roots : Value → Value
roots policy = unwrap_or (get "writableRoots" policy) (arr [])

-- The members that a policy of a known kind may have.
abbrev pub sandbox_fields : String → Option (List String)
sandbox_fields kind =
    if kind == "dangerFullAccess"
    then some ("type" ∷ [])
    else if kind == "readOnly" || kind == "externalSandbox"
    then some ("type" ∷ "networkAccess" ∷ [])
    else if kind == "workspaceWrite"
    then some (
        "type" ∷ "networkAccess" ∷ "writableRoots" ∷ "excludeTmpdirEnvVar" ∷ "excludeSlashTmp" ∷ [])
    else none

abbrev pub only_fields : List String → Value → Bool
only_fields allowed policy =
    is_some_and (as_object policy) (λ object. all (contains allowed) (keys object))

-- The effect of two policies of one known kind.
abbrev pub same_effect : String → Value → Value → Bool
same_effect kind current requested =
    if kind == "dangerFullAccess"
    then true
    else if kind == "readOnly"
    then bool_eq (flag current "networkAccess") (flag requested "networkAccess")
    else if kind == "externalSandbox"
    then network current == network requested
    else all (λ key. bool_eq (flag current key) (flag requested key))
        ("networkAccess" ∷ "excludeTmpdirEnvVar" ∷ "excludeSlashTmp" ∷ [])
      && value_eq (roots current) (roots requested)

unfoldable pub same_sandbox : Value → Value → Bool
same_sandbox current requested =
    if not (value_eq (at current "type") (at requested "type"))
    then false
    else elim (as_str (at requested "type")) [
      | none ↦ value_eq current requested
      | some kind ↦ elim (sandbox_fields kind) [
        | none ↦ value_eq current requested
        | some allowed ↦
            if only_fields allowed current && only_fields allowed requested
            then same_effect kind current requested
            else false
      ]
    ]

abbrev pub mode_matches : Value → Value → Bool
mode_matches current value =
    value_eq (at current "mode") (at value "mode")
    && value_eq (at (at current "settings") "model") (at (at value "settings") "model")
    && value_eq (at (at current "settings") "reasoning_effort")
        (at (at value "settings") "reasoning_effort")
    && (is_null (at (at value "settings") "developer_instructions")
        || value_eq (at (at current "settings") "developer_instructions")
            (at (at value "settings") "developer_instructions"))

-- One entry of the patch against the settings.
unfoldable pub entry_matches : List (String × Value) → String × Value → Bool
entry_matches settings (key, value) =
    if key == "threadId" || key == "multiAgentMode"
    then true
    else if is_null value && not (key == "serviceTier")
    then true
    else if key == "permissions"
    then option_eq (and_then (lookup settings "activePermissionProfile") (get "id")) (some value)
    else if key == "cwd"
    then is_some_and (as_str value)
        (λ left. is_some_and (and_then (lookup settings key) as_str) (same_path left))
    else if key == "sandboxPolicy"
    then is_some_and (lookup settings key) (λ current. same_sandbox current value)
    else if key == "collaborationMode"
    then is_some_and (lookup settings key) (λ current. mode_matches current value)
    else if key == "serviceTier"
    then value_eq (unwrap_or (lookup settings key) null) value
    else option_eq (lookup settings key) (some value)

unfoldable pub settings_match : Configuration → List (String × Value) → Bool
settings_match configuration patch = all (entry_matches configuration.settings) patch

unfoldable pub is_settings_noop : Configuration → List (String × Value) → Bool
is_settings_noop configuration patch =
    settings_match configuration patch
    && is_none_or (lookup patch "collaborationMode") (λ value.
      is_null value || option_eq (lookup configuration.settings "collaborationMode") (some value))

-- `if let Some(value) = settings.remove(old) { settings.insert(new, value) }`
unfoldable pub rename : String → String → List (String × Value) → List (String × Value)
rename old new settings = elim (lookup settings old) [
  | none ↦ settings
  | some value ↦ insert (remove settings old) new value
]

unfoldable pub from_response : Value → List Value → Configuration
from_response response models =
    let settings = remove (unwrap_or (as_object response) []) "thread" in
    record {
      settings = rename "reasoningEffort" "effort" (rename "sandbox" "sandboxPolicy" settings);
      models = models;
    }
