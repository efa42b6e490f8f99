-- ===== src/Extensions/Negotiation/Agreement.antt =====
-- The two places where a client may declare its negotiation have to agree.
use codex_acp_v.Json.{Value}
use codex_acp_v.Extensions.Negotiation.{
  Negotiation, same, same_set, from_initialize_meta, reconcile, from_meta,
}
use codex_acp_v.Common.{
  true, false, none, some, String, ◌≡◌, List, contains, Bool, Option, all, true, Has, sym, ◌↔◌, ◌∷◌,
  ok, arith, and_iff, Bool-cases, eq_refl, >>=-ok_inversion, ◌==◌, [], inl, refl, eq_iff, inr,
}

abbrev pub SameNames : List String → List String → Type 0
SameNames xs ys = (s : String) → contains xs s ≡ contains ys s

pub record SameNegotiation (m n : Negotiation) : Type 0 where
  pub events : SameNames m.events n.events
  pub server_requests : m.server_requests ≡ n.server_requests
  pub raw_server_requests : SameNames m.raw_server_requests n.raw_server_requests
  pub session_reset : m.session_reset ≡ n.session_reset

contains_of_all :
    (xs ys : List String) (s : String) → all (contains ys) xs ≡ true → Has xs s → Has ys s
unfolding contains
contains_of_all [] ys s h k = absurd (ground arith)
contains_of_all (x ∷ xs) ys s h k = elim (Bool-cases (x == s)) [
  | inl e ↦ let same : x ≡ s = (eq_iff x s).0 e in rw (← same) (ground arith)
  | inr e ↦ contains_of_all xs ys s (ground arith) (ground arith)
]

all_of_contains :
    (xs ys : List String) → ((s : String) → Has xs s → Has ys s) → all (contains ys) xs ≡ true
unfolding contains
all_of_contains [] ys h = refl
all_of_contains (x ∷ xs) ys h =
    let here = h x (ground (arith, eq_refl x)) in
    let rest = all_of_contains xs ys (λ s k. h s (ground arith)) in ground arith

Bool_ext : (a b : Bool) → (a ≡ true → b ≡ true) → (b ≡ true → a ≡ true) → a ≡ b
Bool_ext true b f g = sym (f refl)
Bool_ext false true f g = g refl
Bool_ext false false f g = refl

same_set_iff : (xs ys : List String) → (same_set xs ys ≡ true) ↔ SameNames xs ys
same_set_iff xs ys = (
  (λ h s.
      Bool_ext _ _ (contains_of_all xs ys s (ground arith))
        (contains_of_all ys xs s (ground arith))),
  (λ h.
      (and_iff (all (contains ys) xs) (all (contains xs) ys)).1
        (all_of_contains xs ys (λ s k. rw (← h s) k), all_of_contains ys xs (λ s k. rw (h s) k))),
)

same_iff : (m n : Negotiation) → (same m n ≡ true) ↔ SameNegotiation m n
unfolding same
same_iff m n =
    let (events, events') = same_set_iff m.events n.events in
    let (raw, raw') = same_set_iff m.raw_server_requests n.raw_server_requests in
    (
      (λ h. record {
        events = events (ground arith);
        server_requests = ground arith;
        raw_server_requests = raw (ground arith);
        session_reset = ground arith;
      }),
      (λ h. let left = events' h.events in let right = raw' h.raw_server_requests in ground arith),
    )

-- The result that two readings determine: the capability's, and the top level's if there is none.
abbrev pub Agree : Option Negotiation → Option Negotiation → Option Negotiation → Type 0
Agree (some top) (some capability) r = (r ≡ some capability) × SameNegotiation top capability
Agree none (some capability) r = r ≡ some capability
Agree top none r = r ≡ top

reconcile-eq-ok_iff :
    (top capability r : Option Negotiation)
    → (reconcile top capability ≡ ok r) ↔ Agree top capability r
reconcile-eq-ok_iff none none r = ((λ h. ground arith), (λ h. ground arith))
reconcile-eq-ok_iff (some t) none r = ((λ h. ground arith), (λ h. ground arith))
reconcile-eq-ok_iff none (some c) r = ((λ h. ground arith), (λ h. ground arith))
reconcile-eq-ok_iff (some t) (some c) r = (
  (λ h. (ground arith, (same_iff t c).0 (ground arith))),
  (λ h. let agreed = (same_iff t c).1 h.1 in ground arith),
)

-- The metadata of `initialize` is accepted with a result exactly when both places are accepted by
-- themselves and agree: where both declare a negotiation they name the same events, callbacks and
-- flags, whatever the order and repetition of the names.
pub from_initialize_meta-eq-ok_iff :
    (top_level capabilities : Value) (r : Option Negotiation)
    → (from_initialize_meta top_level capabilities ≡ ok r) ↔ (
        (top : Option Negotiation) × (capability : Option Negotiation) × (from_meta top_level
          ≡ ok top)
        × (from_meta capabilities ≡ ok capability)
        × Agree top capability r)
unfolding from_initialize_meta
from_initialize_meta-eq-ok_iff top_level capabilities r = (to, from)
  where
    to :
        from_initialize_meta top_level capabilities ≡ ok r
        → (top : Option Negotiation) × (capability : Option Negotiation) × (from_meta top_level
            ≡ ok top)
          × (from_meta capabilities ≡ ok capability)
          × Agree top capability r
    to h =
        let (top, at_top, h') = >>=-ok_inversion (from_meta top_level) _ h in
        let (capability, at_capability, h'') = >>=-ok_inversion (from_meta capabilities) _ h' in
        (top, capability, at_top, at_capability, (reconcile-eq-ok_iff top capability r).0 h'')

    from :
        (top : Option Negotiation) × (capability : Option Negotiation) × (from_meta top_level
            ≡ ok top)
          × (from_meta capabilities ≡ ok capability)
          × Agree top capability r
        → from_initialize_meta top_level capabilities ≡ ok r
    from (top, capability, at_top, at_capability, agreed) =
        rw (at_top, at_capability) ((reconcile-eq-ok_iff top capability r).1 agreed)
