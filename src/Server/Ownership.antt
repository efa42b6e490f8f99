-- ===== src/Server/Ownership.antt =====
-- src/server/ownership.rs: which open session owns a thread. The replies of `thread/read` are the
-- parameter `read`. What other tasks do to the state while this one waits for a lock or a reply is
-- the parameter `others`, at each wait in turn.
pub mod Sound
pub mod Complete
mod Tests
use codex_acp_v.Common.{
  ℕ, zero, suc, ◌+◌, ◌*◌, String, Bool, true, false, not, Option, none, some, List, [], ◌∷◌, ◌≡◌,
  insert, ◌++◌, is_some_and, Result, and_then, nat_eq, lookup, err, ok, ◌>>◌, ensure, ◌==◌,
  if◌then◌else◌, concat, leb, contains, contains_key, length, keep_if, ◌>>=◌, or_fail,
}
use codex_acp_v.Json.{Value, as_str, at, is_null}
use codex_acp_v.Backend.{BackendError, rpc}
use codex_acp_v.Server.{State}

pub data OwnershipError : Type 0 where
  cache_limit : OwnershipError
  ancestry_cycle : OwnershipError
  backend_failure : BackendError → OwnershipError
  other_thread : OwnershipError
  invalid_parent : OwnershipError
  too_deep : OwnershipError

abbrev pub Outcome : Type 0
Outcome = Result OwnershipError (Option String)

unfoldable pub root_of : State → String → Option String
root_of s current =
    if contains_key s.sessions current
    then some current
    else keep_if (contains_key s.sessions) (lookup s.descendant_roots current)

unfoldable pub candidate : State → String → Option (String × ℕ)
candidate s current =
    and_then (root_of s current)
      (λ root. and_then (lookup s.sessions root) (λ session. some (root, session)))

-- `descendant_roots.retain(|_, owner| open.contains(owner))`
unfoldable pub retain_owned : List (String × ℕ) → List (String × String) → List (String × String)
retain_owned sessions [] = []
retain_owned sessions ((child, owner) ∷ rest) =
    if contains_key sessions owner
    then (child, owner) ∷ retain_owned sessions rest
    else retain_owned sessions rest

-- `for child in visited { descendant_roots.insert(child, root.clone()) }`
unfoldable pub insert_all : List String → String → List (String × String) → List (String × String)
insert_all [] root cache = cache
insert_all (child ∷ rest) root cache = insert_all rest root (insert cache child root)

abbrev same_session : Option ℕ → ℕ → Bool
same_session found session = is_some_and found (nat_eq session)

-- The last lock: the session is still the one that was found, and what was visited is cached.
unfoldable pub remember : List String → String → ℕ → State → Outcome × State
remember visited root session s =
    if not (same_session (lookup s.sessions root) session)
    then (ok none, s)
    else let kept = retain_owned s.sessions s.descendant_roots in
      if leb (length kept + length visited) 4096
      then (ok (some root), record s { descendant_roots = insert_all visited root kept })
      else (err cache_limit, record s { descendant_roots = kept })

-- The parent that a reply of `thread/read` names, `none` where the thread has no parent.
unfoldable pub parent_of :
    String → Result BackendError Value → Result OwnershipError (Option String)
parent_of current (err (rpc e)) = ok none
parent_of current (err e) = err (backend_failure e)
parent_of current (ok response) = do
  ensure (is_some_and (as_str (at (at response "thread") "id")) (λ id. id == current)) other_thread
  let parent = at (at response "thread") "parentThreadId"
  elim (is_null parent) [
    | true ↦ ok none
    | false ↦ do id ← or_fail (as_str parent) invalid_parent; ok (some id)
  ]

module _ (read : String → Result BackendError Value) (others : ℕ → State → State) where
  -- The rounds of the loop that are left, the thread reached, and the threads passed.
  unfoldable pub climb : ℕ → String → List String → State → Outcome × State
  climb zero current visited s = (err too_deep, s)
  climb (suc rounds) current visited s =
      let found = others (3 * rounds + 2) s in
      elim (candidate found current) [
        | some (root, session) ↦
            let opened = others (3 * rounds + 1) found in
            if not ((opened.store session).content).is_open
            then (ok none, opened)
            else remember visited root session (others (3 * rounds) opened)
        | none ↦
            if contains visited current
            then (err ancestry_cycle, found)
            else elim (parent_of current (read current)) [
              | err e ↦ (err e, found)
              | ok none ↦ (ok none, found)
              | ok (some parent) ↦ climb rounds parent (current ∷ visited) found
            ]
      ]

  unfoldable pub owner_for_thread : String → State → Outcome × State
  owner_for_thread thread s = climb 32 thread [] s

unfoldable pub child_item_id : String → String → String
child_item_id thread item = concat ("codex-child:" ∷ thread ∷ ":" ∷ item ∷ [])
