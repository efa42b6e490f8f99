-- ===== src/Server/Ownership/Complete.antt =====
-- A thread whose ancestry leads to an open session is found, and is answered from the cache later.
use codex_acp_v.Server.Ownership.Sound.{ReportsParent, length-retain_owned-le, length-insert_all-le}
use codex_acp_v.Json.{Value}
use codex_acp_v.Backend.{BackendError}
use codex_acp_v.Server.Ownership.{
  insert_all, parent_of, climb, candidate, remember, Outcome, retain_owned, root_of,
  owner_for_thread,
}
use codex_acp_v.Server.{State}
use codex_acp_v.Common.{
  ℕ, String, ◌≡◌, List, ◌∷◌, contains, length, Result, [], ok, none, zero, false, lookup, some, suc,
  ◌||◌, ◌+◌, arith, if◌then◌else◌, insert, lookup-insert, ◌<◌, true, refl, eq_refl, Has,
  Option-cases, Bool-cases, inl, ◌≤◌, ◌==◌, inr, eq_iff, ap, ◌∙◌, subst, sym,
}

-- No other task runs.
abbrev pub quiet : ℕ → State → State
quiet n s = s

-- No thread of the path comes twice, and none has been visited.
abbrev pub AllFresh : List String → List String → Type 0
AllFresh visited [] = Unit
AllFresh visited (thread ∷ path) =
    (contains visited thread ≡ false) × AllFresh (thread ∷ visited) path

abbrev pub passed : List String → List String → List String
passed visited [] = visited
passed visited (thread ∷ path) = passed (thread ∷ visited) path

length-passed :
    (visited path : List String) → length (passed visited path) ≡ length visited + length path
length-passed visited [] = omega arith
length-passed visited (thread ∷ path) = omega (arith, length-passed (thread ∷ visited) path)

lookup-insert_all :
    (visited : List String) (root thread : String) (cache : List (String × String))
    → lookup (insert_all visited root cache) thread
      ≡ (if contains visited thread then some root else lookup cache thread)
unfolding insert_all contains
lookup-insert_all [] root thread cache = refl
lookup-insert_all (v ∷ vs) root thread cache =
    let later = lookup-insert_all vs root thread (insert cache v root) in
    ground (arith, later, lookup-insert cache v thread root)

contains-passed :
    (visited path : List String) (thread : String)
    → contains (passed visited path) thread ≡ (contains visited thread || contains path thread)
unfolding contains
contains-passed visited [] thread = ground arith
contains-passed visited (t ∷ path) thread =
    ground (arith, contains-passed (t ∷ visited) path thread)

candidate-session :
    (s : State) (thread root : String) (session : ℕ)
    → candidate s thread ≡ some (root, session)
    → lookup s.sessions root ≡ some session
unfolding candidate
candidate-session s thread root session e = elim (Option-cases (root_of s thread)) [
  | inl e' ↦ absurd (ground arith)
  | inr (r, e') ↦ elim (Option-cases (lookup s.sessions r)) [
    | inl e'' ↦ absurd (ground arith)
    | inr (found, e'') ↦ let same : r ≡ root = ground arith in rw (← same) (ground arith)
  ]
]

-- A thread that has no candidate is no session itself.
candidate-none :
    (s : State) (thread : String) → candidate s thread ≡ none → lookup s.sessions thread ≡ none
unfolding candidate root_of
candidate-none s thread e = elim (Option-cases (lookup s.sessions thread)) [
  | inl e' ↦ e'
  | inr (session, e') ↦ absurd (ground arith)
]

-- A cached owner that is a session is the candidate.
candidate_of_cache :
    (s : State) (thread root : String) (session : ℕ)
    → lookup s.sessions thread ≡ none
    → lookup s.descendant_roots thread ≡ some root
    → lookup s.sessions root ≡ some session
    → candidate s thread ≡ some (root, session)
unfolding candidate root_of
candidate_of_cache s thread root session e e' e'' = ground arith

remember-eq :
    (visited : List String) (root : String) (session : ℕ) (s : State)
    → lookup s.sessions root ≡ some session
    → length (retain_owned s.sessions s.descendant_roots) + length visited ≤ 4096
    → remember visited root session s ≡ (
      ok (some root),
      record s {
        descendant_roots = insert_all visited root (retain_owned s.sessions s.descendant_roots);
      },
    )
unfolding remember
remember-eq visited root session s e h = ground arith

module _ (read : String → Result BackendError Value) where
  -- The threads from the first one up to the one whose owner the state knows, that one left out.
  pub data LeadsTo (s : State) (root : String) (session : ℕ) : String → List String → Type 0 where
    known :
        {thread : String}
        → candidate s thread ≡ some (root, session)
        → LeadsTo s root session thread []
    ascend :
        {thread parent : String} {path : List String}
        → candidate s thread ≡ none
        → ReportsParent read thread parent
        → LeadsTo s root session parent path
        → LeadsTo s root session thread (thread ∷ path)

  parent_of-eq :
      {thread parent : String}
      → ReportsParent read thread parent
      → parent_of thread (read thread) ≡ ok (some parent)
  unfolding parent_of
  parent_of-eq {thread} {parent} r =
      rw r.reply (ground (arith, r.same_thread, r.names, eq_refl thread))

  climb-LeadsTo :
      (s : State) (root : String) (session rounds : ℕ) (thread : String)
      (visited path : List String)
      → LeadsTo s root session thread path
      → length path < rounds
      → AllFresh visited path
      → ((s.store session).content).is_open ≡ true
      → climb read quiet rounds thread visited s ≡ remember (passed visited path) root session s
  unfolding climb
  climb-LeadsTo s root session zero thread visited path l h fresh is_open = elim h [ ]
  climb-LeadsTo s root session (suc rounds) thread visited path (known e) h fresh is_open =
      rw (e, climb) (rw is_open)
  climb-LeadsTo s root session (suc rounds) thread visited path (ascend e r l) h fresh is_open =
      rw (e, climb)
        (rw fresh.0 (
          rw (parent_of-eq r) (
            climb-LeadsTo s root session rounds _ (thread ∷ visited) _ l (omega arith) fresh.1
              is_open)))

  LeadsTo-session :
      {s : State} {root : String} {session : ℕ} {thread : String} {path : List String}
      → LeadsTo s root session thread path
      → lookup s.sessions root ≡ some session
  LeadsTo-session {s} {root} {session} (known {thread} e) =
      candidate-session s thread root session e
  LeadsTo-session (ascend e r l) = LeadsTo-session l

  LeadsTo-not_session :
      {s : State} {root : String} {session : ℕ} {thread : String} {path : List String} (t : String)
      → LeadsTo s root session thread path
      → Has path t
      → lookup s.sessions t ≡ none
  unfolding contains
  LeadsTo-not_session t (known e) h = absurd (ground arith)
  LeadsTo-not_session {s} t (ascend {thread} {path} e r l) h = elim (Bool-cases (thread == t)) [
    | inl hit ↦ rw (← (eq_iff thread t).0 hit) (candidate-none s thread e)
    | inr miss ↦ LeadsTo-not_session t l (ground arith)
  ]

-- The answer to a thread that leads to an open session in fewer than 32 steps, with no thread twice
-- and room in the cache, and what the state then knows.
pub record IsResolved (root : String) (path : List String) (answer : Outcome × State) : Type 0 where
  pub outcome : answer.0 ≡ ok (some root)
  pub cached : (t : String) → Has path t → lookup answer.1.descendant_roots t ≡ some root
  pub later :
      (t : String)
      → Has path t
      → (read : String → Result BackendError Value)
      → (owner_for_thread read quiet t answer.1).0 ≡ ok (some root)

-- The state that a resolved path leaves.
abbrev resolved : List String → String → State → State
resolved path root s = record s {
  descendant_roots = insert_all (passed [] path) root (retain_owned s.sessions s.descendant_roots);
}

cached-owner :
    (path : List String) (root t : String) (s : State)
    → Has path t
    → lookup (resolved path root s).descendant_roots t ≡ some root
unfolding contains
cached-owner path root t s h = ground (
  arith,
  lookup-insert_all (passed [] path) root t (retain_owned s.sessions s.descendant_roots),
  contains-passed [] path t,
)

owner_of_cache :
    (read : String → Result BackendError Value) (s : State) (root t : String) (session : ℕ)
    → candidate s t ≡ some (root, session)
    → lookup s.sessions root ≡ some session
    → ((s.store session).content).is_open ≡ true
    → length s.descendant_roots ≤ 4096
    → (owner_for_thread read quiet t s).0 ≡ ok (some root)
unfolding owner_for_thread
owner_of_cache read s root t session e e' is_open small =
    let fits = length-retain_owned-le s.sessions s.descendant_roots in
    ap (λ p. p.0)
      (climb-LeadsTo read s root session 32 t [] [] (known e) (omega arith) tt is_open
        ∙ remember-eq [] root session s e' (omega (arith, fits)))

module _ (read : String → Result BackendError Value) (s : State) (root : String) (session : ℕ)
    (thread : String) (path : List String) where
  -- Where no other task runs, a thread whose parents lead to an open session in fewer than 32 steps,
  -- none of them twice and with room in the cache, is answered with that session. Every thread of
  -- the path is then cached under it, and is answered the same with no help of the backend.
  pub owner_for_thread-IsResolved :
      LeadsTo read s root session thread path
      → length path < 32
      → AllFresh [] path
      → ((s.store session).content).is_open ≡ true
      → length s.descendant_roots + length path ≤ 4096
      → IsResolved root path (owner_for_thread read quiet thread s)
  unfolding owner_for_thread
  owner_for_thread-IsResolved l short fresh is_open room =
      let e = LeadsTo-session read l in
      let fits = length-retain_owned-le s.sessions s.descendant_roots in
      let size = length-passed [] path in
      let grown =
        length-insert_all-le (passed [] path) root (retain_owned s.sessions s.descendant_roots) in
      let run =
        climb-LeadsTo read s root session 32 thread [] path l short fresh is_open
        ∙ remember-eq (passed [] path) root session s e (omega (arith, fits, size)) in
      subst (IsResolved root path) (sym run) (record {
        outcome = refl;
        cached = λ t h. cached-owner path root t s h;
        later = λ t h read'.
            owner_of_cache read' (resolved path root s) root t session
              (candidate_of_cache _ t root session (LeadsTo-not_session read t l h)
                (cached-owner path root t s h) e)
              e is_open (omega (arith, fits, size, grown));
      })
