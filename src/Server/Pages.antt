-- ===== src/Server/Pages.antt =====
-- The loops over pages of the backend, of which src/server/mod.rs (`models`), src/server/history.rs
-- and src/server/teardown.rs have one each, all of one form: a page is asked for, read, and the
-- next one is asked for under another cursor, for a limited number of rounds.
pub mod Served
pub mod Models
mod Tests
use codex_acp_v.Json.{Value, is_null, get, null, value_eq}
use codex_acp_v.Backend.{Snapshot, BackendError}
use codex_acp_v.Common.{ℕ, Result, if◌then◌else◌, err, unwrap_or, suc, ok, ◌+◌, zero}

-- `E` is what reading a page may end with.
pub data PageError {ℓ} (E : Type ℓ) : Type ℓ where
  request_failed : BackendError → PageError E
  page_failed : E → PageError E
  repeating_cursor : PageError E
  page_limit : PageError E

abbrev pub Ended {ℓ κ} : Type ℓ → Type κ → Type (ℓ ⊔ κ)
Ended E S = Result E (Unit {0}) × S

-- A step, and another where it ended well.
abbrev pub after_ok {ℓ κ} : {E : Type ℓ} {S : Type κ} → Ended E S → (S → Ended E S) → Ended E S
after_ok (err e, after) next = (err e, after)
after_ok (ok done, after) next = next after

-- `page.get("nextCursor").cloned().unwrap_or(Value::Null)`
abbrev pub next_cursor : Snapshot → Value
next_cursor page = unwrap_or (get "nextCursor" page.value) null

-- `fetch` is the reply to the request of a round with a cursor, `visit` what is done with a page.
module _ {ℓ κ} {E : Type ℓ} {S : Type κ} (fetch : ℕ → Value → Result BackendError Snapshot)
    (visit : Snapshot → S → Ended E S) where
  abbrev advance : Value → Value → Ended (PageError E) S → S → Ended (PageError E) S
  advance next cursor rest after =
      if is_null next
      then (ok tt, after)
      else if value_eq next cursor
      then (err repeating_cursor, after)
      else rest

  unfoldable pub paginate : ℕ → ℕ → Value → S → Ended (PageError E) S
  paginate zero round cursor s = (err page_limit, s)
  paginate (suc rounds) round cursor s = elim (fetch round cursor) [
    | err e ↦ (err (request_failed e), s)
    | ok page ↦
        let (outcome, after) = visit page s in
        let rest = paginate rounds (round + 1) (next_cursor page) after in
        elim outcome [
          | err e ↦ (err (page_failed e), after)
          | ok done ↦ advance (next_cursor page) cursor rest after
        ]
  ]
