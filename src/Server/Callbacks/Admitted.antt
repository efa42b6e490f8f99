-- ===== src/Server/Callbacks/Admitted.antt =====
-- src/server/events.rs: when a callback is put to the client.
use codex_acp_v.Server.{State, PendingInteraction}
use codex_acp_v.Server.Callbacks.{
  Callback, admit_callback, Admission, is_closing, refuse, ask, is_owned, source_thread,
  interaction_for,
}
use codex_acp_v.Interactions.Callbacks.{CallbackError}
use codex_acp_v.Json.{Value}
use codex_acp_v.Common.{
  ℕ, String, Bool, Option, Bool-cases, inl, ◌≡◌, inr, false, not, ◌||◌, is_none, ◌&&◌, true, leb,
  length, Result-cases, ◌≤◌, lookup, if◌then◌else◌, length-insert-le, ◌==◌, some, arith,
  lookup-insert, is_some_and, is_some, refl,
}

-- A callback that is put to the client is of an open session that owns it, or of the host, and its
-- entry is the one new entry of a bounded map.
pub record IsAsked (show : Value → String) (allow_host_methods : Bool) (session_id : Option String)
    (root : Option ℕ) (channel : ℕ) (callback : Callback) (tells : Bool) (s after : State)
    : Type 0 where
  pub running : is_closing s root ≡ false
  pub owned :
      (is_owned s session_id root || (is_none (source_thread callback) && allow_host_methods))
      ≡ true
  pub bounded : length after.pending ≤ 128
  pub entries :
      (key : String)
      → lookup after.pending key ≡ (
          if show callback.id == key
          then some (record { session_id = session_id; cancel = channel })
          else lookup s.pending key)
  pub same : after ≡ record s { pending = after.pending }
  pub foreground :
      (not tells || is_some_and root (λ address. is_some ((s.store address).content).active_turn))
      ≡ true

abbrev pub IsAdmission :
    (Value → String)
    → Bool
    → Option String
    → Option ℕ
    → ℕ
    → Callback
    → State
    → Admission × State
    → Type 0
IsAdmission show allow_host_methods session_id root channel callback s (refuse e, after) = after ≡ s
IsAdmission show allow_host_methods session_id root channel callback s
      (ask i extension tells, after) =
    IsAsked show allow_host_methods session_id root channel callback tells s after

module _ (size : Value → ℕ) (show : Value → String) (project : Value → Option (Value × Bool))
    (describe : CallbackError → String) (allow_host_methods : Bool) where
  -- A callback that is refused changes nothing. One that is put to the client belongs to an open
  -- session that is still registered and is the callback's, or to the host where that is allowed; at
  -- most 128 wait with it, no other entry changes, and the client is told to act only in a turn.
  pub admit_callback-IsAdmission :
      (session_id : Option String) (root : Option ℕ) (channel : ℕ) (callback : Callback) (s : State)
      → IsAdmission show allow_host_methods session_id root channel callback s (
          admit_callback size show project describe allow_host_methods session_id root channel
            callback s)
  unfolding admit_callback
  admit_callback-IsAdmission session_id root channel callback s =
      elim (Bool-cases (is_closing s root)) [
        | inl closing ↦ rw (admit_callback, closing) refl
        | inr running ↦
            let host = not (is_none (source_thread callback) && allow_host_methods) in
            elim (Bool-cases (not (is_owned s session_id root) && host)) [
              | inl unowned ↦ rw (admit_callback, running, unowned) refl
              | inr owned ↦ elim (Bool-cases (leb 128 (length s.pending))) [
                | inl full ↦ rw (admit_callback, running, owned, full) refl
                | inr free ↦
                    elim (Result-cases (
                      interaction_for size show project describe allow_host_methods session_id
                        callback s)) [
                          | inr (e, wrong) ↦ rw (admit_callback, running, owned, free, wrong) refl
                          | inl (i, right) ↦
                              rw (admit_callback, running, owned, free, right)
                                (let entry : PendingInteraction = record {
                                  session_id = session_id;
                                  cancel = channel;
                                } in
                                  let more = length-insert-le s.pending (show callback.id) entry in
                                  record {
                                    running = running;
                                    owned = ground arith;
                                    bounded = ground arith;
                                    entries =
                                        λ key. lookup-insert s.pending (show callback.id) key entry;
                                    same = refl;
                                    foreground = ground arith;
                                  })
                        ]
              ]
            ]
      ]
