-- ===== src/Server/Ownership/Tests.antt =====
-- Tests of thread ownership, and its theorems at concrete inputs.
use codex_acp_v.Backend.{BackendError, rpc}
use codex_acp_v.Json.{Value, obj, string, nat}
use codex_acp_v.Server.Ownership.{
  candidate, owner_for_thread, climb, root_of, remember, retain_owned, insert_all, parent_of,
  ancestry_cycle,
}
use codex_acp_v.Server.{State, new_state}
use codex_acp_v.Server.Ownership.Complete.{
  IsResolved, AllFresh, quiet, LeadsTo, ascend, owner_for_thread-IsResolved, known,
}
use codex_acp_v.Server.Ownership.Sound.{IsAnswered, owner_for_thread-IsAnswered, ReportsParent}
use codex_acp_v.Common.{
  ℕ, lookup, contains, String, ◌≡◌, [], Result, ◌∷◌, ok, arith, if◌then◌else◌, ◌==◌, refl, err,
  insert, some, none,
}

-- Session "root" is open at address 0; "child" and "grandchild" descend from it.
abbrev opened : State
opened = record new_state { sessions = ("root", 0) ∷ [] }

abbrev thread_reply : String → Value → Value
thread_reply id parent =
    obj (("thread", obj (("id", string id) ∷ ("parentThreadId", parent) ∷ [])) ∷ [])

abbrev family : String → Result BackendError Value
family id =
    if id == "grandchild"
    then ok (thread_reply "grandchild" (string "child"))
    else if id == "child"
    then ok (thread_reply "child" (string "root"))
    else if id == "loop"
    then ok (thread_reply "loop" (string "loop"))
    else err (rpc (record { code = nat 1; message = "no thread"; payload = none }))

-- Another task that ends every subscription at each wait.
abbrev unsubscribing : ℕ → State → State
unsubscribing n s = record s { mcp_subscriptions = [] }

owner_tests :
    ((owner_for_thread family quiet "grandchild" opened).0 ≡ ok (some "root"))
    × ((owner_for_thread family quiet "loop" opened).0 ≡ err ancestry_cycle)
    × ((owner_for_thread family quiet "stranger" opened).0 ≡ ok none)
    × ((owner_for_thread family quiet "grandchild" opened).1.descendant_roots
        ≡ ("child", "root") ∷ ("grandchild", "root") ∷ [])
unfolding owner_for_thread climb remember candidate root_of retain_owned insert_all parent_of lookup
    insert contains
owner_tests = (refl, refl, refl, refl)

reports :
    (thread parent : String)
    → family thread ≡ ok (thread_reply thread (string parent))
    → ReportsParent family thread parent
unfolding lookup
reports thread parent e = record {
  response = thread_reply thread (string parent);
  reply = e;
  same_thread = refl;
  names = refl;
}

owner_for_thread-IsAnswered_example :
    IsAnswered family "grandchild" (owner_for_thread family unsubscribing "grandchild" opened)
owner_for_thread-IsAnswered_example =
    owner_for_thread-IsAnswered family unsubscribing
      (λ n s h. record { earned = h.earned; bounded = h.bounded }) "grandchild" opened
      (record { earned = tt; bounded = omega arith })

leads : LeadsTo family opened "root" 0 "grandchild" ("grandchild" ∷ "child" ∷ [])
unfolding candidate root_of lookup
leads =
    ascend refl (reports "grandchild" "child" refl)
      (ascend refl (reports "child" "root" refl) (known refl))

fresh : AllFresh [] ("grandchild" ∷ "child" ∷ [])
unfolding contains
fresh = (refl, (refl, tt))

owner_for_thread-IsResolved_example :
    IsResolved "root"
      ("grandchild" ∷ "child" ∷ [])
      (owner_for_thread family quiet "grandchild" opened)
owner_for_thread-IsResolved_example =
    owner_for_thread-IsResolved family opened "root" 0 "grandchild" ("grandchild" ∷ "child" ∷ [])
      leads (omega arith) fresh refl (omega arith)
