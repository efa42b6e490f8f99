-- ===== src/Server/Controls/Cancel/Succeeded.antt =====
-- src/server/controls.rs, `cancel_locked`: what a cancellation that succeeds has met.
use codex_acp_v.Server.Controls.Cancel.{
  Cancelling, interrupt_failed, is_terminal, is_turn, check_terminal, interrupt_turn, await_turn,
  cancel_turn, cancel_locked,
}
use codex_acp_v.Server.Callbacks.{cancel_interactions}
use codex_acp_v.Json.{
  null, bool, number, array, object, string, Value, is_text, at, as_array, as_str,
}
use codex_acp_v.Server.{SessionData, State}
use codex_acp_v.Backend.{BackendError}
use codex_acp_v.Common.{
  ℕ, String, Bool, Option, List, ◌∷◌, none, ok, ◌==◌, true, and_then, [], some, ◌≡◌, false, ◌||◌,
  find, is_some, arith, Option-cases, Result-cases, inl, Bool-cases, inr, sym, ensure-ok,
  ok_injective, >>=-ok_inversion, refl, get_elem?, eq_iff, subst, ap, ◌≢◌, eq_refl, some_injective,
  suc,
}

-- The statuses of a turn that has ended.
pub data IsEnded : String → Type 0 where
  completed : IsEnded "completed"
  interrupted : IsEnded "interrupted"
  failed : IsEnded "failed"

-- The list of turns holds the turn with a status of one that has ended.
pub record IsListed (turn : String) (listing : Value) : Type 0 where
  pub turns : List Value
  pub listed : as_array (at listing "data") ≡ some turns
  pub place : ℕ
  pub candidate : Value
  pub found : get_elem? turns place ≡ some candidate
  pub same_turn : as_str (at candidate "id") ≡ some turn
  pub status : String
  pub reported : as_str (at candidate "status") ≡ some status
  pub ended : IsEnded status

-- Why the turn is taken to end.
pub data IsTaken (turn : String) (run : Cancelling) : Type 0 where
  accepted : (reply : Value) → run.interrupt ≡ ok reply → IsTaken turn run
  notified : run.listed.last_completed_turn ≡ some turn → IsTaken turn run
  listed : (listing : Value) → run.terminal ≡ ok listing → IsListed turn listing → IsTaken turn run

-- The turn has ended for the session at one of the wake-ups, and there was a reason.
pub record IsInterrupted (turn : String) (run : Cancelling) : Type 0 where
  pub place : ℕ
  pub seen : SessionData
  pub woken : get_elem? run.waiting place ≡ some seen
  pub ended : seen.active_turn ≢ some turn
  pub taken : IsTaken turn run

pub data IsCancelled (run : Cancelling) (idle : Bool) : Type 0 where
  nothing_ran : run.found.active_turn ≡ none → idle ≡ true → IsCancelled run idle
  turn_ended :
      (turn : String)
      → run.found.active_turn ≡ some turn
      → idle ≡ false
      → IsInterrupted turn run
      → IsCancelled run idle

is_turn-some :
    (turn : String) (found : Option String) → is_turn turn found ≡ true → found ≡ some turn
is_turn-some turn none h = absurd (ground arith)
is_turn-some turn (some id) h = ap some ((eq_iff id turn).0 h)

is_turn-none_other :
    (turn : String) (found : Option String) → is_turn turn found ≡ false → found ≢ some turn
is_turn-none_other turn found h e = absurd (ground (arith, e, eq_refl turn))

await_turn-ok :
    (turn : String) (waiting : List SessionData)
    → await_turn turn waiting ≡ ok tt
    → (place : ℕ) × (seen : SessionData) × (get_elem? waiting place ≡ some seen)
      × (seen.active_turn ≢ some turn)
unfolding await_turn
await_turn-ok turn [] h = absurd (ground arith)
await_turn-ok turn (seen ∷ rest) h = elim (Bool-cases (is_turn turn seen.active_turn)) [
  | inl e ↦
      let (place, later, woken, ended) = await_turn-ok turn rest (rw (await_turn, e) at h) in
      (suc place, later, woken, ended)
  | inr e ↦ (0, seen, refl, is_turn-none_other turn seen.active_turn e)
]

find-some {ℓ} :
    {A : Type ℓ} (p : A → Bool) (xs : List A) (x : A)
    → find p xs ≡ some x
    → (place : ℕ) × (get_elem? xs place ≡ some x) × (p x ≡ true)
find-some p [] x h = absurd (ground arith)
find-some p (y ∷ ys) x h = elim (Bool-cases (p y)) [
  | inl e ↦
      let same : y ≡ x = some_injective (rw (e, find) at h) in
      (0, ap some same, subst (λ z. p z ≡ true) same e)
  | inr e ↦
      let (place, found, test) = find-some p ys x (rw (e, find) at h) in (suc place, found, test)
]

is_text-as_str : (v : Value) (s : String) → is_text v s ≡ true → as_str v ≡ some s
is_text-as_str (string t) s h = ap some ((eq_iff t s).0 h)
is_text-as_str null s h = absurd (ground arith)
is_text-as_str (bool b) s h = absurd (ground arith)
is_text-as_str (number n) s h = absurd (ground arith)
is_text-as_str (array vs) s h = absurd (ground arith)
is_text-as_str (object ms) s h = absurd (ground arith)

status-IsEnded :
    (status : String)
    → (status == "completed" || status == "interrupted" || status == "failed") ≡ true
    → IsEnded status
status-IsEnded status h = elim (Bool-cases (status == "completed")) [
  | inl e ↦ subst IsEnded (sym ((eq_iff status "completed").0 e)) completed
  | inr e ↦ elim (Bool-cases (status == "interrupted")) [
    | inl e' ↦ subst IsEnded (sym ((eq_iff status "interrupted").0 e')) interrupted
    | inr e' ↦
        let last : (status == "failed") ≡ true = ground arith in
        subst IsEnded (sym ((eq_iff status "failed").0 last)) failed
  ]
]

is_terminal-IsListed :
    (turn : String) (listing : Value) (turns : List Value) (candidate : Value)
    → as_array (at listing "data") ≡ some turns
    → find (is_terminal turn) turns ≡ some candidate
    → IsListed turn listing
unfolding is_terminal
is_terminal-IsListed turn listing turns candidate e h =
    let (place, found, test) = find-some (is_terminal turn) turns candidate h in
    elim (Option-cases (as_str (at candidate "status"))) [
      | inl absent ↦ absurd (ground arith)
      | inr (status, reported) ↦ record {
        turns = turns;
        listed = e;
        place = place;
        candidate = candidate;
        found = found;
        same_turn = is_text-as_str (at candidate "id") turn (ground arith);
        status = status;
        reported = reported;
        ended = status-IsEnded status (ground arith);
      }
    ]

check_terminal-IsTaken :
    (turn : String) (run : Cancelling) (failure : BackendError)
    → check_terminal turn run failure ≡ ok tt
    → IsTaken turn run
unfolding check_terminal
check_terminal-IsTaken turn run failure h = elim (Result-cases run.terminal) [
  | inr (error, e) ↦ absurd (ground arith)
  | inl (listing, e) ↦
      let completed = and_then (as_array (at listing "data")) (find (is_terminal turn)) in
      let checked : (is_some completed || is_turn turn run.listed.last_completed_turn) ≡ true =
        ensure-ok _ (interrupt_failed failure) tt (rw (check_terminal, e) at h) in
      elim (Option-cases (as_array (at listing "data"))) [
        | inl absent ↦ notified (is_turn-some turn _ (ground arith))
        | inr (turns, there) ↦ elim (Option-cases (find (is_terminal turn) turns)) [
          | inl absent ↦ notified (is_turn-some turn _ (ground arith))
          | inr (candidate, hit) ↦
              listed listing e (is_terminal-IsListed turn listing turns candidate there hit)
        ]
      ]
]

interrupt_turn-IsTaken :
    (turn : String) (run : Cancelling) → interrupt_turn turn run ≡ ok tt → IsTaken turn run
unfolding interrupt_turn
interrupt_turn-IsTaken turn run h = elim (Result-cases run.interrupt) [
  | inl (reply, e) ↦ accepted reply e
  | inr (failure, e) ↦ check_terminal-IsTaken turn run failure (rw (interrupt_turn, e) at h)
]

cancel_turn-IsCancelled :
    (run : Cancelling) (idle : Bool) → cancel_turn run ≡ ok idle → IsCancelled run idle
unfolding cancel_turn
cancel_turn-IsCancelled run idle h = elim (Option-cases run.found.active_turn) [
  | inl e ↦ nothing_ran e (sym (ok_injective (rw (cancel_turn, e) at h)))
  | inr (turn, e) ↦
      let (done, first, next) =
        >>=-ok_inversion (interrupt_turn turn run) _ (rw (cancel_turn, e) at h) in
      let (done', second, last) = >>=-ok_inversion (await_turn turn run.waiting) _ next in
      let (place, seen, woken, ended) = await_turn-ok turn run.waiting second in
      turn_ended turn e (sym (ok_injective last)) (record {
        place = place;
        seen = seen;
        woken = woken;
        ended = ended;
        taken = interrupt_turn-IsTaken turn run first;
      })
]

-- A cancellation that succeeds has cancelled the interactions of the session, and found no turn; or
-- the turn that it found was no longer the session's turn at a wake-up before the time-out, after the
-- backend took the interrupt, reported that turn as completed, or listed it with the status
-- completed, interrupted or failed. The client is told by the cancellation that the session is idle
-- in the first case alone.
pub cancel_locked-IsCancelled :
    (id : String) (run : Cancelling) (s : State) (idle : Bool)
    → (cancel_locked id run s).0 ≡ ok idle
    → IsCancelled run idle × ((cancel_locked id run s).2 ≡ (cancel_interactions id s).1)
unfolding cancel_locked
cancel_locked-IsCancelled id run s idle h = (cancel_turn-IsCancelled run idle h, refl)
