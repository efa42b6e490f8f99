-- ===== src/Extensions/Negotiation/WellFormed.antt =====
-- What an accepted negotiation says of the metadata that it was read from.
use codex_acp_v.Extensions.Negotiation.{
  is_name, read_events, events_field, read_callbacks, flag_field, from_meta, callbacks_field,
  Negotiation, read_codex,
}
use codex_acp_v.Json.{Value, as_str, is_text, string, get, as_array, as_u64, bool}
use codex_acp_v.Common.{
  ℕ, ◌≡◌, add, List, String, ◌≢◌, length, ◌≤◌, true, some, len, ◌+◌, arith, ◌∷◌, All, eq_iff,
  contains, ◌||◌, any, length-add-le, All-add, contains-add, unwrap_or, [], ok, and_then, none,
  Option-cases, ok_injective, inl, inr, Bool, ◌↔◌, Result-cases, ◌∙◌, false, ap,
}

abbrev IsName : String → Type 0
IsName s = (s ≢ "") × (len s ≤ 256)

IsName-of-is_name : (s : String) → is_name s ≡ true → IsName s
IsName-of-is_name s h = ground (arith, eq_iff s "")

-- The names of an accepted array, with those read before it.
pub record ReadsNames (vs : List Value) (before after : List String) : Type 0 where
  pub bounded : length after ≤ length before + length vs
  pub named : All IsName before → All IsName after
  pub same_names :
      (s : String) → contains after s ≡ (contains before s || any (λ v. is_text v s) vs)

ReadsNames-nil : (names : List String) → ReadsNames [] names names
ReadsNames-nil names = record {
  bounded = omega arith;
  named = λ h. h;
  same_names = λ s. ground arith;
}

ReadsNames-cons :
    (v : Value) (vs : List Value) (k : String) (before after : List String)
    → as_str v ≡ some k
    → is_name k ≡ true
    → ReadsNames vs (add k before) after
    → ReadsNames (v ∷ vs) before after
ReadsNames-cons (string k') vs k before after e n r = record {
  bounded = omega (arith, r.bounded, length-add-le k before);
  named = λ h. r.named (All-add IsName k before (IsName-of-is_name k n) h);
  same_names = λ s. ground (arith, r.same_names s, contains-add k s before);
}
ReadsNames-cons _ vs k before after e n r = cc

read_events-ReadsNames :
    (vs : List Value) (before after : List String)
    → read_events vs before ≡ ok after
    → ReadsNames vs before after
unfolding read_events
read_events-ReadsNames [] before after h = rw (ok_injective h) (ReadsNames-nil after)
read_events-ReadsNames (v ∷ vs) before after h = elim (Option-cases (as_str v)) [
  | inl e ↦ absurd (ground arith)
  | inr (k, e) ↦
      ReadsNames-cons v vs k before after e (ground arith)
        (read_events-ReadsNames vs (add k before) after (ground arith))
]

read_callbacks-ReadsNames :
    (vs : List Value) (before after : List String)
    → read_callbacks vs before ≡ ok after
    → ReadsNames vs before after
unfolding read_callbacks
read_callbacks-ReadsNames [] before after h = rw (ok_injective h) (ReadsNames-nil after)
read_callbacks-ReadsNames (v ∷ vs) before after h = elim (Option-cases (as_str v)) [
  | inl e ↦ absurd (ground arith)
  | inr (k, e) ↦
      ReadsNames-cons v vs k before after e (ground arith)
        (read_callbacks-ReadsNames vs (add k before) after (ground arith))
]

-- The names at `key` of the metadata are exactly the texts of the array that stands there.
abbrev pub ListsNames : String → ℕ → Value → List String → Type 0
ListsNames key limit codex names =
    (vs : List Value) × (unwrap_or (and_then (get key codex) as_array) [] ≡ vs)
    × (length names ≤ limit)
    × All IsName names
    × ((s : String) → contains names s ≡ any (λ v. is_text v s) vs)

ListsNames-of :
    (key : String) (limit : ℕ) (codex v : Value) (vs : List Value) (names : List String)
    → get key codex ≡ some v
    → as_array v ≡ some vs
    → length vs ≤ limit
    → ReadsNames vs [] names
    → ListsNames key limit codex names
unfolding contains
ListsNames-of key limit codex v vs names e e' small r =
    (vs, ground arith, omega (arith, r.bounded), r.named tt, λ s. ground (arith, r.same_names s))

ListsNames-none :
    (key : String) (limit : ℕ) (codex : Value)
    → get key codex ≡ none
    → ListsNames key limit codex []
unfolding contains
ListsNames-none key limit codex e = ([], ground arith, omega arith, tt, λ s. ground arith)

events_field-ListsNames :
    (codex : Value) (names : List String)
    → events_field codex ≡ ok names
    → ListsNames "events" 256 codex names
unfolding events_field
events_field-ListsNames codex names h = elim (Option-cases (get "events" codex)) [
  | inl e ↦ let empty : names ≡ [] = ground arith in rw empty (ListsNames-none "events" 256 codex e)
  | inr (v, e) ↦ elim (Option-cases (as_array v)) [
    | inl e' ↦ absurd (ground arith)
    | inr (vs, e') ↦
        ListsNames-of "events" 256 codex v vs names e e' (ground arith)
          (read_events-ReadsNames vs [] names (ground arith))
  ]
]

callbacks_field-ListsNames :
    (allowed : Bool) (codex : Value) (names : List String)
    → callbacks_field allowed codex ≡ ok names
    → ListsNames "rawServerRequests" 128 codex names × (names ≢ [] → allowed ≡ true)
unfolding callbacks_field
callbacks_field-ListsNames allowed codex names h =
    elim (Option-cases (get "rawServerRequests" codex)) [
      | inl e ↦
          let empty : names ≡ [] = ground arith in
          (rw empty (ListsNames-none "rawServerRequests" 128 codex e), λ h'. absurd (h' empty))
      | inr (v, e) ↦ elim (Option-cases (as_array v)) [
        | inl e' ↦ absurd (ground arith)
        | inr (vs, e') ↦ elim (Result-cases (read_callbacks vs [])) [
          | inr (x, e'') ↦ absurd (ground arith)
          | inl (found, e'') ↦
              let same_names : found ≡ names = ground arith in
              (
                ListsNames-of "rawServerRequests" 128 codex v vs names e e' (ground arith)
                    (read_callbacks-ReadsNames vs [] names (e'' ∙ ap ok same_names)),
                λ h'. ground arith,
              )
        ]
      ]
    ]

-- The flag at `key`, absent as `false`.
abbrev pub ReadsFlag : String → Value → Bool → Type 0
ReadsFlag key codex b = unwrap_or (get key codex) (bool false) ≡ bool b

flag_field-ReadsFlag :
    (key message : String) (codex : Value) (b : Bool)
    → flag_field key message codex ≡ ok b
    → ReadsFlag key codex b
unfolding flag_field
flag_field-ReadsFlag key message codex b h = ground arith

pub record ReadsCodex (codex : Value) (n : Negotiation) : Type 0 where
  pub version : and_then (get "version" codex) as_u64 ≡ some 1
  pub events : ListsNames "events" 256 codex n.events
  pub server_requests : ReadsFlag "serverRequests" codex n.server_requests
  pub raw_server_requests : ListsNames "rawServerRequests" 128 codex n.raw_server_requests
  pub raw_needs_requests : n.raw_server_requests ≢ [] → n.server_requests ≡ true
  pub session_reset : ReadsFlag "sessionReset" codex n.session_reset

read_codex-ReadsCodex :
    (codex : Value) (n : Negotiation) → read_codex codex ≡ ok n → ReadsCodex codex n
unfolding read_codex
read_codex-ReadsCodex codex n h =
    let callbacks =
      callbacks_field-ListsNames n.server_requests codex n.raw_server_requests (ground arith) in
    record {
      version = ground arith;
      events = events_field-ListsNames codex n.events (ground arith);
      server_requests =
          flag_field-ReadsFlag "serverRequests" "serverRequests must be a boolean" codex
            n.server_requests (ground arith);
      raw_server_requests = callbacks.0;
      raw_needs_requests = callbacks.1;
      session_reset =
          flag_field-ReadsFlag "sessionReset" "sessionReset must be a boolean" codex n.session_reset
            (ground arith);
    }

-- An accepted negotiation is the version-1 object under `codex`: its event and callback names are
-- exactly the texts that the arrays list, 1 to 256 bytes each, at most 256 and 128 of them; its
-- flags are the Booleans given, or false; and raw callbacks come only with server requests. No
-- negotiation at all is the result exactly when the metadata has no `codex` member.
pub from_meta-ReadsCodex :
    (meta : Value)
    → ((n : Negotiation)
        → from_meta meta ≡ ok (some n)
        → (codex : Value) × (get "codex" meta ≡ some codex) × ReadsCodex codex n)
      × ((from_meta meta ≡ ok none) ↔ (get "codex" meta ≡ none))
unfolding from_meta
from_meta-ReadsCodex meta = elim (Option-cases (get "codex" meta)) [
  | inl e ↦ ((λ n h. absurd (ground arith)), ((λ h. e), (λ h. ground arith)))
  | inr (codex, e) ↦ (
    (λ n h. (codex, e, read_codex-ReadsCodex codex n (ground arith))),
    ((λ h. ground arith), (λ h. ground arith)),
  )
]
