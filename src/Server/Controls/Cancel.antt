-- ===== src/Server/Controls/Cancel.antt =====
-- src/server/controls.rs, `cancel` and `cancel_locked`: the interruption of the turn that runs.
pub mod Succeeded
use codex_acp_v.Server.Callbacks.{cancel_interactions}
use codex_acp_v.Json.{
  null, bool, number, array, object, string, Value, is_text, at, as_array, as_str,
}
use codex_acp_v.Server.{SessionData, State}
use codex_acp_v.Backend.{BackendError}
use codex_acp_v.Common.{
  ℕ, String, Result, Bool, Option, List, err, ◌∷◌, is_some_and, if◌then◌else◌, none, ok, ◌==◌, true,
  and_then, [], some, ◌≡◌, ◌&&◌, ◌>>◌, false, ◌||◌, find, ensure, is_some, arith, Option-cases,
  Result-cases, inl, Bool-cases, inr, sym, ensure-ok, ok_injective, >>=-ok_inversion, refl,
  get_elem?, eq_iff, subst, ap, ◌≢◌, eq_refl, some_injective, suc,
}

pub data CancelError : Type 0 where
  cancel_closed : CancelError
  interrupt_failed : BackendError → CancelError
  listing_failed : BackendError → CancelError
  cancel_timeout : CancelError

-- What a cancellation meets: the data when the turn is read, the replies to the interrupt and to the
-- list of turns, the data when the list is read, and the data at each wake-up until the time-out.
pub record Cancelling : Type 0 where
  pub found : SessionData
  pub interrupt : Result BackendError Value
  pub terminal : Result BackendError Value
  pub listed : SessionData
  pub waiting : List SessionData

unfoldable pub is_terminal : String → Value → Bool
is_terminal turn candidate =
    is_text (at candidate "id") turn
    && is_some_and (as_str (at candidate "status"))
        (λ status. status == "completed" || status == "interrupted" || status == "failed")

abbrev pub is_turn : String → Option String → Bool
is_turn turn found = is_some_and found (λ id. id == turn)

-- The backend refused the interrupt: the turn must have ended, by the list or by its notification.
unfoldable pub check_terminal : String → Cancelling → BackendError → Result CancelError (Unit {0})
check_terminal turn run failure = elim run.terminal [
  | err e ↦ err (listing_failed e)
  | ok listing ↦
      let completed = and_then (as_array (at listing "data")) (find (is_terminal turn)) in
      ensure (is_some completed || is_turn turn run.listed.last_completed_turn)
        (interrupt_failed failure)
]

unfoldable pub interrupt_turn : String → Cancelling → Result CancelError (Unit {0})
interrupt_turn turn run = elim run.interrupt [
  | err failure ↦ check_terminal turn run failure
  | ok reply ↦ ok tt
]

unfoldable pub await_turn : String → List SessionData → Result CancelError (Unit {0})
await_turn turn [] = err cancel_timeout
await_turn turn (seen ∷ rest) =
    let later = await_turn turn rest in if is_turn turn seen.active_turn then later else ok tt

-- Whether the client is told that the session is idle: where no turn runs, the backend will not.
unfoldable pub cancel_turn : Cancelling → Result CancelError Bool
cancel_turn run = elim run.found.active_turn [
  | none ↦ ok true
  | some turn ↦ do interrupt_turn turn run; await_turn turn run.waiting; ok false
]

-- The interactions of the session are cancelled first, whatever becomes of the turn.
unfoldable pub cancel_locked :
    String → Cancelling → State → Result CancelError Bool × List ℕ × State
cancel_locked id run s =
    let (signalled, after) = cancel_interactions id s in (cancel_turn run, signalled, after)

-- `content` is the data when the session is tested to be open.
unfoldable pub cancel_session :
    String → Cancelling → State → SessionData → Result CancelError Bool × List ℕ × State
cancel_session id run s content =
    if content.is_open then cancel_locked id run s else (err cancel_closed, [], s)
