-- ===== src/Extensions/Negotiation.antt =====
-- src/extensions.rs, `Negotiation`: what a client opts into when it connects.
pub mod WellFormed
pub mod Agreement
use codex_acp_v.Common.{
  ℕ, String, Bool, true, false, not, ◌&&◌, ◌||◌, Option, none, some, List, [], ◌∷◌, length, leb,
  ltb, is_empty, len, ◌==◌, if◌then◌else◌, Result, ok, err, ◌>>=◌, ◌>>◌, ensure, or_fail, contains,
  add, all, and_then, keep_if, nat_eq, is_some_and,
}
use codex_acp_v.Json.{Value, get, as_str, as_bool, as_array, as_u64}
use codex_acp_v.Extensions.{ExtensionError, bad_version, negotiation}

pub record Negotiation : Type 0 where
  pub events : List String
  pub server_requests : Bool
  pub raw_server_requests : List String
  pub session_reset : Bool

-- 1 to 256 bytes.
abbrev pub is_name : String → Bool
is_name s = not (s == "") && leb (len s) 256

-- The loop over `events`.
unfoldable pub read_events : List Value → List String → Result ExtensionError (List String)
read_events [] names = ok names
read_events (v ∷ vs) names = do
  event ← or_fail (as_str v) (negotiation "event subscriptions must be strings")
  ensure (is_name event) (negotiation "event names must contain 1–256 bytes")
  read_events vs (add event names)

unfoldable pub events_field : Value → Result ExtensionError (List String)
events_field codex = elim (get "events" codex) [
  | none ↦ ok []
  | some v ↦ do
    events ← or_fail (as_array v) (negotiation "events must be an array")
    ensure (leb (length events) 256) (negotiation "at most 256 event subscriptions are permitted")
    read_events events []
]

-- An optional Boolean field, absent as `false`.
unfoldable pub flag_field : String → String → Value → Result ExtensionError Bool
flag_field key message codex = elim (get key codex) [
  | none ↦ ok false
  | some v ↦ or_fail (as_bool v) (negotiation message)
]

-- The loop over `rawServerRequests`.
unfoldable pub read_callbacks : List Value → List String → Result ExtensionError (List String)
read_callbacks [] names = ok names
read_callbacks (v ∷ vs) names = do
  callback ←
      or_fail (keep_if is_name (as_str v))
        (negotiation "raw callback names must contain 1–256 bytes")
  read_callbacks vs (add callback names)

unfoldable pub callbacks_field : Bool → Value → Result ExtensionError (List String)
callbacks_field server_requests codex = elim (get "rawServerRequests" codex) [
  | none ↦ ok []
  | some v ↦ do
    callbacks ← or_fail (as_array v) (negotiation "rawServerRequests must be an array")
    ensure (leb (length callbacks) 128) (negotiation "at most 128 raw callback names are permitted")
    names ← read_callbacks callbacks []
    ensure (is_empty names || server_requests)
        (negotiation "rawServerRequests requires serverRequests: true")
    ok names
]

unfoldable pub read_codex : Value → Result ExtensionError Negotiation
read_codex codex = do
  ensure (is_some_and (and_then (get "version" codex) as_u64) (nat_eq 1)) bad_version
  events ← events_field codex
  server_requests ← flag_field "serverRequests" "serverRequests must be a boolean" codex
  raw ← callbacks_field server_requests codex
  reset ← flag_field "sessionReset" "sessionReset must be a boolean" codex
  ok (record {
    events = events;
    server_requests = server_requests;
    raw_server_requests = raw;
    session_reset = reset;
  })

unfoldable pub from_meta : Value → Result ExtensionError (Option Negotiation)
from_meta meta = elim (get "codex" meta) [
  | none ↦ ok none
  | some codex ↦ do n ← read_codex codex; ok (some n)
]

-- `==` of two `HashSet<String>`s, and of two `bool`s.
abbrev pub same_set : List String → List String → Bool
same_set xs ys = all (contains ys) xs && all (contains xs) ys

abbrev pub same_bool : Bool → Bool → Bool
same_bool a b = if a then b else not b

unfoldable pub same : Negotiation → Negotiation → Bool
same m n =
    same_set m.events n.events
    && same_bool m.server_requests n.server_requests
    && same_set m.raw_server_requests n.raw_server_requests
    && same_bool m.session_reset n.session_reset

abbrev pub reconcile :
    Option Negotiation → Option Negotiation → Result ExtensionError (Option Negotiation)
reconcile (some top) (some capability) =
    if not (same top capability)
    then err (negotiation "conflicting top-level and capability Codex metadata")
    else ok (some capability)
reconcile none (some capability) = ok (some capability)
reconcile top none = ok top

unfoldable pub from_initialize_meta : Value → Value → Result ExtensionError (Option Negotiation)
from_initialize_meta top_level capabilities = do
  top ← from_meta top_level
  capability ← from_meta capabilities
  reconcile top capability

unfoldable pub wants_event : Negotiation → String → Bool
wants_event n method = contains n.events "*" || contains n.events method

unfoldable pub wants_raw_callback : Negotiation → String → Bool
wants_raw_callback n method =
    n.server_requests
    && (contains n.raw_server_requests "*" || contains n.raw_server_requests method)
