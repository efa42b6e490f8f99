-- ===== src/Extensions/Policy/Authorized.antt =====
-- When the policy admits a request: the conditions of the source's comments, each stated on the
-- request, and the theorem that the chain of checks decides exactly them.
use codex_acp_v.Extensions.Methods.{lifecycle_methods}
use codex_acp_v.Extensions.{RequestEnvelope, RequestScope, thread, not_owned, host, discovery}
use codex_acp_v.Common.{
  ◌==◌, ◌>>=◌, String, ◌≡◌, ◌↔◌, true, inl, inr, some, List, arith, Has, Option-cases, all, ok, All,
  ◌∷◌, ◌≢◌, and_iff, none, eq_iff, [], eq_refl, refl, Option, or_fail, ensure, ◌⊎◌, false,
  is_some_and, is_none_or, Bool-cases, contains, ◌&&◌,
}
use codex_acp_v.Json.{Value, as_str, as_array, is_object, is_null}
use codex_acp_v.Extensions.Policy.{
  given, names_owned, check_list, check_thread, check_references, is_thread_method, authorize,
  ExtensionPolicy, scope_of, is_host_method, is_discovery, reference_keys,
}

-- A value that is the text of an owned thread.
abbrev pub IsOwned : List String → Value → Type 0
IsOwned owned v = (id : String) × (as_str v ≡ some id) × Has owned id

abbrev pub OwnsKey : List String → Value → String → Type 0
OwnsKey owned params key = (v : Value) → given key params ≡ some v → IsOwned owned v

names_owned_iff : (owned : List String) (v : Value) → (names_owned owned v ≡ true) ↔ IsOwned owned v
names_owned_iff owned v = elim (Option-cases (as_str v)) [
  | inl e ↦ ((λ h. ground arith), (λ h. ground arith))
  | inr (id, e) ↦ ((λ h. (id, e, ground arith)), (λ h. ground arith))
]

-- The thread that is addressed is owned, and is the session of the envelope.
abbrev pub IsTarget : List String → RequestEnvelope → Value → Type 0
IsTarget owned r v = (id : String) × (as_str v ≡ some id) × (r.session_id ≡ some id) × Has owned id

-- The two tests of the addressed thread, on what the parameters and the envelope name.
target_iff :
    (owned : List String) (session named : Option String)
    → ((do
      id ← or_fail named not_owned
      ensure (is_some_and session (λ s. s == id) && contains owned id) not_owned)
        ≡ ok tt)
      ↔ ((id : String) × (named ≡ some id) × (session ≡ some id) × Has owned id)
target_iff owned session none = ((λ h. cc), (λ h. ground arith))
target_iff owned none (some id) = ((λ h. cc), (λ h. ground arith))
target_iff owned (some s) (some id) = (
  (λ h. (id, refl, ground (arith, eq_iff s id), ground arith)),
  (λ h. ground (arith, eq_refl id)),
)

check_thread_iff :
    (owned : List String) (r : RequestEnvelope)
    → (check_thread owned r ≡ ok tt) ↔ (
        ((v : Value) → given "threadId" r.params ≡ some v → IsTarget owned r v)
        × (is_thread_method r ≡ true → given "threadId" r.params ≢ none))
unfolding check_thread
check_thread_iff owned r = elim (Option-cases (given "threadId" r.params)) [
  | inl e ↦ ((λ h. ((λ v h'. cc), (λ h'. ground arith))), (λ h. ground (arith, h.1)))
  | inr (v, e) ↦ (
    (λ h. (
      (λ w h'. (target_iff owned r.session_id (as_str w)).0 (ground arith)),
      (λ h'. ground arith),
    )),
    (λ h. let at_target = (target_iff owned r.session_id (as_str v)).1 (h.0 v e) in ground arith),
  )
]

check_references_iff :
    (owned : List String) (params : Value) (ks : List String)
    → (check_references owned params ks ≡ ok tt) ↔ All (OwnsKey owned params) ks
unfolding check_references
check_references_iff owned params [] = ((λ h. tt), (λ h. refl))
check_references_iff owned params (k ∷ ks) = elim (Option-cases (given k params)) [
  | inl e ↦ (
    (λ h. ((λ v h'. cc), (check_references_iff owned params ks).0 (ground arith))),
    (λ h. let rest = (check_references_iff owned params ks).1 h.1 in ground arith),
  )
  | inr (v, e) ↦ (
    (λ h. (
      (λ w h'. (names_owned_iff owned w).0 (ground arith)),
      (check_references_iff owned params ks).0 (ground arith),
    )),
    (λ h.
        let rest = (check_references_iff owned params ks).1 h.1 in
        let here = (names_owned_iff owned v).1 (h.0 v e) in ground arith),
  )
]

abbrev pub OwnsList : List String → Value → Type 0
OwnsList owned v = (ids : List Value) × (as_array v ≡ some ids) × All (IsOwned owned) ids

All-names_owned_iff :
    (owned : List String) (ids : List Value)
    → (all (names_owned owned) ids ≡ true) ↔ All (IsOwned owned) ids
All-names_owned_iff owned [] = ((λ h. tt), (λ h. refl))
All-names_owned_iff owned (v ∷ vs) =
    let (to, from) = names_owned_iff owned v in
    let (to', from') = All-names_owned_iff owned vs in
    let both = and_iff (names_owned owned v) (all (names_owned owned) vs) in
    ((λ h. (to (both.0 h).0, to' (both.0 h).1)), (λ h. both.1 (from h.0, from' h.1)))

check_list_iff :
    (owned : List String) (params : Value)
    → (check_list owned params ≡ ok tt)
      ↔ ((v : Value) → given "threadIds" params ≡ some v → OwnsList owned v)
unfolding check_list
check_list_iff owned params = elim (Option-cases (given "threadIds" params)) [
  | inl e ↦ ((λ h v h'. cc), (λ h. ground arith))
  | inr (v, e) ↦ elim (Option-cases (as_array v)) [
    | inl e' ↦ ((λ h. ground arith), (λ h. ground (arith, h v)))
    | inr (ids, e') ↦ (
      (λ h w h'. (ids, ground arith, (All-names_owned_iff owned ids).0 (ground arith))),
      (λ h.
          let (ids', e'', owns) = h v e in
          let tested = (All-names_owned_iff owned ids').1 owns in ground arith),
    )
  ]
]

-- Which scope the method and the parameters select.
pub data InScope (r : RequestEnvelope) (s : RequestScope) : Type 0 where
  in_thread :
      (id : String)
      → is_thread_method r ≡ true
      → r.session_id ≡ some id
      → s ≡ thread id
      → InScope r s
  in_host : is_thread_method r ≡ false → is_host_method r ≡ true → s ≡ host → InScope r s
  in_discovery : is_thread_method r ≡ false → is_host_method r ≡ false → s ≡ discovery → InScope r s

pub record IsAuthorized (policy : ExtensionPolicy) (r : RequestEnvelope) (owned : List String)
    (s : RequestScope) : Type 0 where
  pub current : r.version ≡ 1
  pub shaped : (is_object r.params ≡ true) ⊎ (is_null r.params ≡ true)
  pub not_lifecycle : ¬ Has lifecycle_methods r.method
  pub known : (is_thread_method r ≡ true) ⊎ (is_host_method r ≡ true) ⊎ (is_discovery r ≡ true)
  pub session : (id : String) → r.session_id ≡ some id → Has owned id
  pub target : (v : Value) → given "threadId" r.params ≡ some v → IsTarget owned r v
  pub addressed : is_thread_method r ≡ true → given "threadId" r.params ≢ none
  pub references : All (OwnsKey owned r.params) reference_keys
  pub listed : (v : Value) → given "threadIds" r.params ≡ some v → OwnsList owned v
  pub host_allowed : is_host_method r ≡ true → policy.allow_host_methods ≡ true
  pub scope : InScope r s

scope_of-InScope : (r : RequestEnvelope) (s : RequestScope) → scope_of r ≡ ok s → InScope r s
unfolding scope_of
scope_of-InScope r s h = elim (Bool-cases (is_thread_method r)) [
  | inl t ↦ elim (Option-cases r.session_id) [
    | inl e ↦ absurd (ground arith)
    | inr (id, e) ↦ in_thread id t e (ground arith)
  ]
  | inr t ↦ elim (Bool-cases (is_host_method r)) [
    | inl k ↦ in_host t k (ground arith)
    | inr k ↦ in_discovery t k (ground arith)
  ]
]

scope_of-eq : (r : RequestEnvelope) (s : RequestScope) → InScope r s → scope_of r ≡ ok s
unfolding scope_of
scope_of-eq r s (in_thread id t e k) = ground arith
scope_of-eq r s (in_host t e k) = ground arith
scope_of-eq r s (in_discovery t e k) = ground arith

authorize-IsAuthorized :
    (policy : ExtensionPolicy) (r : RequestEnvelope) (owned : List String) (s : RequestScope)
    → authorize policy r owned ≡ ok s
    → IsAuthorized policy r owned s
unfolding authorize
authorize-IsAuthorized policy r owned s h =
    let at_thread = (check_thread_iff owned r).0 (ground arith) in
    record {
      current = ground arith;
      shaped = ground arith;
      not_lifecycle = λ h'. ground arith;
      known = ground arith;
      session = λ id e. ground arith;
      target = at_thread.0;
      addressed = at_thread.1;
      references = (check_references_iff owned r.params reference_keys).0 (ground arith);
      listed = (check_list_iff owned r.params).0 (ground arith);
      host_allowed = λ h'. ground arith;
      scope = scope_of-InScope r s (ground arith);
    }

authorize-eq-ok :
    (policy : ExtensionPolicy) (r : RequestEnvelope) (owned : List String) (s : RequestScope)
    → IsAuthorized policy r owned s
    → authorize policy r owned ≡ ok s
unfolding authorize
authorize-eq-ok policy r owned s a =
    let at_thread = (check_thread_iff owned r).1 (a.target, a.addressed) in
    let references = (check_references_iff owned r.params reference_keys).1 a.references in
    let listed = (check_list_iff owned r.params).1 a.listed in
    let scope = scope_of-eq r s a.scope in
    let session : is_none_or r.session_id (contains owned) ≡ true =
      elim (Option-cases r.session_id) [
        | inl e ↦ ground arith
        | inr (id, e) ↦ rw e (a.session id e)
      ] in
    ground arith

-- A request is authorised with a scope exactly when it meets the conditions of `IsAuthorized`.
pub authorize-eq-ok_iff :
    (policy : ExtensionPolicy) (r : RequestEnvelope) (owned : List String) (s : RequestScope)
    → (authorize policy r owned ≡ ok s) ↔ IsAuthorized policy r owned s
authorize-eq-ok_iff policy r owned s =
    (authorize-IsAuthorized policy r owned s, authorize-eq-ok policy r owned s)
