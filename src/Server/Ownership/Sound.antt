-- ===== src/Server/Ownership/Sound.antt =====
-- Authority comes from the backend's metadata alone, also through the cache and while other tasks
-- change the state between the locks.
use codex_acp_v.Server.Ownership.{
  parent_of, retain_owned, root_of, insert_all, climb, remember, Outcome, candidate, same_session,
  owner_for_thread,
}
use codex_acp_v.Server.{State}
use codex_acp_v.Json.{Value, as_str, at}
use codex_acp_v.Backend.{BackendError, rpc}
use codex_acp_v.Common.{
  ℕ, String, ◌≡◌, List, Result, insert, lookup, ok, some, All, length, arith, ◌∷◌, ◌≤◌, Bool-cases,
  ◌==◌, contains_key, [], ◌+◌, length-insert-le, inl, inr, eq_iff, Option-cases, err, Result-cases,
  suc, true, ◌≢◌, ◌*◌, zero, subst, contains, leb, leb→le, none,
}

pub length-insert_all-le :
    (visited : List String) (root : String) (cache : List (String × String))
    → length (insert_all visited root cache) ≤ length cache + length visited
unfolding insert_all
length-insert_all-le [] root cache = omega arith
length-insert_all-le (thread ∷ rest) root cache = omega (
  arith,
  length-insert_all-le rest root (insert cache thread root),
  length-insert-le cache thread root,
)

pub length-retain_owned-le :
    (sessions : List (String × ℕ)) (cache : List (String × String))
    → length (retain_owned sessions cache) ≤ length cache
unfolding retain_owned
length-retain_owned-le sessions [] = omega arith
length-retain_owned-le sessions ((name, owner) ∷ rest) =
    ground (arith, length-retain_owned-le sessions rest)

names_of :
    (thread parent : String) (response : Value)
    → parent_of thread (ok response) ≡ ok (some parent)
    → (as_str (at (at response "thread") "id") ≡ some thread)
      × (as_str (at (at response "thread") "parentThreadId") ≡ some parent)
unfolding parent_of
names_of thread parent response h = elim (Option-cases (as_str (at (at response "thread") "id"))) [
  | inl e ↦ absurd (ground arith)
  | inr (id, e) ↦ (ground (arith, eq_iff id thread), ground arith)
]

no_parent :
    (thread parent : String) (e : BackendError) → parent_of thread (err e) ≢ ok (some parent)
unfolding parent_of
no_parent thread parent (rpc e) = λ h. cc
no_parent thread parent e = λ h. cc

module _ (read : String → Result BackendError Value) where
  -- What the backend says of one thread: its own id, and its parent's.
  pub record ReportsParent (thread parent : String) : Type 0 where
    pub response : Value
    pub reply : read thread ≡ ok response
    pub same_thread : as_str (at (at response "thread") "id") ≡ some thread
    pub names : as_str (at (at response "thread") "parentThreadId") ≡ some parent

  -- The thread is the root, or a descendant of it by the backend's replies.
  pub data DescendsFrom (root : String) : String → Type 0 where
    itself : DescendsFrom root root
    child :
        {thread parent : String}
        → ReportsParent thread parent
        → DescendsFrom root parent
        → DescendsFrom root thread

  pub DescendsFrom-trans : {a b c : String} → DescendsFrom b c → DescendsFrom a b → DescendsFrom a c
  DescendsFrom-trans itself d = d
  DescendsFrom-trans (child r e) d = child r (DescendsFrom-trans e d)

  abbrev pub IsEarned : String × String → Type 0
  IsEarned entry = DescendsFrom entry.1 entry.0

  -- Every cached owner is an ancestor of its thread, and the cache is within its limit.
  pub record IsCacheSound (s : State) : Type 0 where
    pub earned : All IsEarned s.descendant_roots
    pub bounded : length s.descendant_roots ≤ 4096

  parent_of-ReportsParent :
      (thread parent : String)
      → parent_of thread (read thread) ≡ ok (some parent)
      → ReportsParent thread parent
  unfolding parent_of
  parent_of-ReportsParent thread parent h = elim (Result-cases (read thread)) [
    | inl (response, e) ↦ record {
      response = response;
      reply = e;
      same_thread =
          (names_of thread parent response
            (subst (λ r. parent_of thread r ≡ ok (some parent)) e h)).0;
      names =
          (names_of thread parent response
            (subst (λ r. parent_of thread r ≡ ok (some parent)) e h)).1;
    }
    | inr (e, e') ↦
        absurd (no_parent thread parent e (subst (λ r. parent_of thread r ≡ ok (some parent)) e' h))
  ]

  lookup-IsEarned :
      (cache : List (String × String)) (thread root : String)
      → All IsEarned cache
      → lookup cache thread ≡ some root
      → DescendsFrom root thread
  unfolding lookup
  lookup-IsEarned [] thread root h e = absurd (ground arith)
  lookup-IsEarned ((name, owner) ∷ rest) thread root h e = elim (Bool-cases (name == thread)) [
    | inl hit ↦
        let here : name ≡ thread = (eq_iff name thread).0 hit in
        let owned : owner ≡ root = ground arith in rw (← here, ← owned) h.0
    | inr miss ↦ lookup-IsEarned rest thread root h.1 (ground arith)
  ]

  root_of-DescendsFrom :
      (s : State) (thread root : String)
      → All IsEarned s.descendant_roots
      → root_of s thread ≡ some root
      → DescendsFrom root thread
  unfolding root_of
  root_of-DescendsFrom s thread root h e = elim (Bool-cases (contains_key s.sessions thread)) [
    | inl open_here ↦ let same : thread ≡ root = ground arith in rw same itself
    | inr cached ↦ elim (Option-cases (lookup s.descendant_roots thread)) [
      | inl e' ↦ absurd (ground arith)
      | inr (owner, e') ↦ lookup-IsEarned s.descendant_roots thread root h (ground arith)
    ]
  ]

  retain_owned-IsEarned :
      (sessions : List (String × ℕ)) (cache : List (String × String))
      → All IsEarned cache
      → All IsEarned (retain_owned sessions cache)
  unfolding retain_owned
  retain_owned-IsEarned sessions [] h = tt
  retain_owned-IsEarned sessions ((name, owner) ∷ rest) h =
      let later = retain_owned-IsEarned sessions rest h.1 in ground (arith, h.0)

  insert-IsEarned :
      (cache : List (String × String)) (thread root : String)
      → All IsEarned cache
      → DescendsFrom root thread
      → All IsEarned (insert cache thread root)
  unfolding insert
  insert-IsEarned [] thread root h d = (d, tt)
  insert-IsEarned ((name, owner) ∷ rest) thread root h d = elim (Bool-cases (name == thread)) [
    | inl hit ↦ let here : name ≡ thread = (eq_iff name thread).0 hit in rw hit (rw here d, h.1)
    | inr miss ↦ rw miss (h.0, insert-IsEarned rest thread root h.1 d)
  ]

  insert_all-IsEarned :
      (visited : List String) (root : String) (cache : List (String × String))
      → All IsEarned cache
      → All (DescendsFrom root) visited
      → All IsEarned (insert_all visited root cache)
  unfolding insert_all
  insert_all-IsEarned [] root cache h d = h
  insert_all-IsEarned (thread ∷ rest) root cache h d =
      insert_all-IsEarned rest root (insert cache thread root)
        (insert-IsEarned cache thread root h d.0) d.1

  All-DescendsFrom :
      {b a : String} (d : DescendsFrom a b) (visited : List String)
      → All (DescendsFrom b) visited
      → All (DescendsFrom a) visited
  All-DescendsFrom d [] h = tt
  All-DescendsFrom d (thread ∷ rest) h = (DescendsFrom-trans h.0 d, All-DescendsFrom d rest h.1)

  candidate-root :
      (s : State) (thread root : String) (session : ℕ)
      → candidate s thread ≡ some (root, session)
      → root_of s thread ≡ some root
  unfolding candidate
  candidate-root s thread root session e = elim (Option-cases (root_of s thread)) [
    | inl e' ↦ absurd (ground arith)
    | inr (r, e') ↦ elim (Option-cases (lookup s.sessions r)) [
      | inl e'' ↦ absurd (ground arith)
      | inr (session', e'') ↦ ground arith
    ]
  ]

  -- An owner that is answered is an ancestor of the thread and an open session of the state that is
  -- left, and the cache stays sound.
  abbrev pub IsAnswered : String → Outcome × State → Type 0
  IsAnswered thread (outcome, s) =
      IsCacheSound s
      × ((root : String)
          → outcome ≡ ok (some root)
          → DescendsFrom root thread × (contains_key s.sessions root ≡ true))

  remember-IsAnswered :
      (visited : List String) (thread root : String) (session : ℕ) (s : State)
      → IsCacheSound s
      → All (DescendsFrom root) visited
      → DescendsFrom root thread
      → IsAnswered thread (remember visited root session s)
  unfolding remember
  remember-IsAnswered visited thread root session s sound passed reached =
      let kept = retain_owned s.sessions s.descendant_roots in
      let kept_earned = retain_owned-IsEarned s.sessions s.descendant_roots sound.earned in
      let small = length-retain_owned-le s.sessions s.descendant_roots in
      elim (Bool-cases (same_session (lookup s.sessions root) session)) [
        | inr gone ↦ rw gone (sound, λ r h. cc)
        | inl present ↦ rw present (elim (Bool-cases (leb (length kept + length visited) 4096)) [
          | inr full ↦ rw full (
            record { earned = kept_earned; bounded = omega (arith, small, sound.bounded) },
            λ r h. cc,
          )
          | inl fits ↦ rw fits (
            record {
              earned = insert_all-IsEarned visited root kept kept_earned passed;
              bounded = omega (arith, leb→le, fits, length-insert_all-le visited root kept);
            },
            λ r h. let same : root ≡ r = ground arith in rw (← same) (reached, ground arith),
          )
        ])
      ]

  module _ (others : ℕ → State → State)
      (keeps : (n : ℕ) (s : State) → IsCacheSound s → IsCacheSound (others n s)) where
    climb-IsAnswered :
        (rounds : ℕ) (thread current : String) (visited : List String) (s : State)
        → IsCacheSound s
        → All (DescendsFrom current) visited
        → DescendsFrom current thread
        → IsAnswered thread (climb read others rounds current visited s)
    unfolding climb
    climb-IsAnswered zero thread current visited s sound passed reached = (sound, λ root h. cc)
    climb-IsAnswered (suc rounds) thread current visited s sound passed reached =
        let found_sound = keeps (3 * rounds + 2) s sound in
        elim (Option-cases (candidate (others (3 * rounds + 2) s) current)) [
          | inl e ↦
              rw (e, climb)
                (elim (Bool-cases (contains visited current)) [
                  | inl again ↦ rw again (found_sound, λ root h. cc)
                  | inr fresh ↦ rw fresh (elim (Result-cases (parent_of current (read current))) [
                    | inr (failure, e') ↦ rw e' (found_sound, λ root h. cc)
                    | inl (none, e') ↦ rw e' (found_sound, λ root h. cc)
                    | inl (some parent, e') ↦
                        let step = child (parent_of-ReportsParent current parent e') itself in
                        rw e' (
                          climb-IsAnswered rounds thread parent (current ∷ visited) _ found_sound
                            (step, All-DescendsFrom step visited passed)
                            (DescendsFrom-trans reached step))
                  ])
                ])
          | inr ((root, session), e) ↦
              let opened_sound = keeps (3 * rounds + 1) _ found_sound in
              let last_sound = keeps (3 * rounds) _ opened_sound in
              let owned =
                root_of-DescendsFrom _ current root found_sound.earned
                  (candidate-root _ current root session e) in
              rw (e, climb)
                (elim (Bool-cases
                  ((others (3 * rounds + 1) (others (3 * rounds + 2) s)).store
                    session).content.is_open) [
                      | inr closed ↦ rw closed (opened_sound, λ root h. cc)
                      | inl open_still ↦ rw open_still (
                          remember-IsAnswered visited thread root session _ last_sound
                            (All-DescendsFrom owned visited passed)
                            (DescendsFrom-trans reached owned))
                    ])
        ]

    -- Whatever the other tasks do, as long as they keep the cache sound: an owner that is answered
    -- is the thread itself or an ancestor of it by the parents that the backend reported, it is a
    -- session of the state that is left, and the cache there is sound and within its limit.
    pub owner_for_thread-IsAnswered :
        (thread : String) (s : State)
        → IsCacheSound s
        → IsAnswered thread (owner_for_thread read others thread s)
    unfolding owner_for_thread
    owner_for_thread-IsAnswered thread s sound =
        climb-IsAnswered 32 thread thread [] s sound tt itself
