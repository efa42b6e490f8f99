-- ===== src/Config/Settings/Confined.antt =====
-- src/config.rs: the policies that confirm a sandbox preset.
use codex_acp_v.Config.Patch.Shown.{same_sandbox_type}
use codex_acp_v.Config.Patch.{sandbox_policy}
use codex_acp_v.Json.{Value, as_str, at, value_eq, arr, null}
use codex_acp_v.Config.Settings.{same_sandbox, sandbox_fields, only_fields, flag, roots}
use codex_acp_v.Common.{
  String, lookup, contains, ◌≡◌, some, is_some_and, true, Bool-cases, ◌==◌, inl, ◌||◌, not, inr,
  arith, [], unwrap_or, eq_iff, refl,
}

-- What a policy grants beyond its kind is off, unless the kind is full access.
pub record IsConfined (current : Value) (kind : String) : Type 0 where
  pub of_kind : as_str (at current "type") ≡ some kind
  pub known : is_some_and (sandbox_fields kind) (λ allowed. only_fields allowed current) ≡ true
  pub offline : (kind == "dangerFullAccess" || not (flag current "networkAccess")) ≡ true
  pub no_roots : (not (kind == "workspaceWrite") || value_eq (roots current) (arr [])) ≡ true

abbrev preset : String → Value
preset kind = unwrap_or (sandbox_policy kind) null

IsConfined-read_only :
    (current : Value)
    → same_sandbox current (preset "readOnly") ≡ true
    → IsConfined current "readOnly"
unfolding same_sandbox sandbox_policy lookup contains
IsConfined-read_only current h = record {
  of_kind = same_sandbox_type current (preset "readOnly") "readOnly" refl h;
  known = ground arith;
  offline = ground arith;
  no_roots = refl;
}

IsConfined-workspace :
    (current : Value)
    → same_sandbox current (preset "workspaceWrite") ≡ true
    → IsConfined current "workspaceWrite"
unfolding same_sandbox sandbox_policy lookup contains
IsConfined-workspace current h = record {
  of_kind = same_sandbox_type current (preset "workspaceWrite") "workspaceWrite" refl h;
  known = ground arith;
  offline = ground arith;
  no_roots = ground arith;
}

IsConfined-full_access :
    (current : Value)
    → same_sandbox current (preset "dangerFullAccess") ≡ true
    → IsConfined current "dangerFullAccess"
unfolding same_sandbox sandbox_policy lookup contains
IsConfined-full_access current h = record {
  of_kind = same_sandbox_type current (preset "dangerFullAccess") "dangerFullAccess" refl h;
  known = ground arith;
  offline = refl;
  no_roots = refl;
}

IsConfined-preset :
    (current policy : Value) (kind name : String)
    → (kind == name) ≡ true
    → sandbox_policy kind ≡ some policy
    → same_sandbox current policy ≡ true
    → (same_sandbox current (preset name) ≡ true → IsConfined current name)
    → IsConfined current kind
IsConfined-preset current policy kind name k e h confine =
    let same = (eq_iff kind name).0 k in
    let chosen : sandbox_policy name ≡ some policy = rw same at e in rw same (confine (rw chosen h))

-- A policy that the backend reports confirms a requested preset only when it is of that kind, has
-- no member that the kind does not have and, for the two presets that are not full access, neither
-- network access nor a further writable root.
pub same_sandbox-IsConfined :
    (current policy : Value) (kind : String)
    → sandbox_policy kind ≡ some policy
    → same_sandbox current policy ≡ true
    → IsConfined current kind
unfolding sandbox_policy
same_sandbox-IsConfined current policy kind e h = elim (Bool-cases (kind == "readOnly")) [
  | inl k ↦ IsConfined-preset current policy kind "readOnly" k e h (IsConfined-read_only current)
  | inr k ↦ elim (Bool-cases (kind == "workspaceWrite")) [
    | inl k' ↦
        IsConfined-preset current policy kind "workspaceWrite" k' e h (IsConfined-workspace current)
    | inr k' ↦ elim (Bool-cases (kind == "dangerFullAccess")) [
      | inl k'' ↦
          IsConfined-preset current policy kind "dangerFullAccess" k'' e h
            (IsConfined-full_access current)
      | inr k'' ↦ absurd (ground arith)
    ]
  ]
]
