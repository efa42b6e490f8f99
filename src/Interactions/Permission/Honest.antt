-- ===== src/Interactions/Permission/Honest.antt =====
-- src/interactions/permission.rs: what is offered, and that the kind of an option tells the truth.
use codex_acp_v.Interactions.{
  PermissionOptionKind, allow_once, allow_always, reject_once, reject_always, InteractionError,
  missing,
}
use codex_acp_v.Interactions.Permission.{
  Offer, rule_offer, permission_offers, decision_kind, offers_of, decision_offers, decisions_of,
}
use codex_acp_v.Json.{
  Value, obj, at, is_text, string, get, bool, number, array, object, null, is_object,
}
use codex_acp_v.Common.{
  Bool, String, ◌∷◌, [], ◌≡◌, ◌||◌, ok, true, ap, Bool-cases, eq_iff, is_some, arith, false, inl,
  subst, ok_injective, some, inr, List, All, length, ◌≤◌, >>=-ok_inversion, suc, or_fail, keep_if,
  ensure, refl, not, is_empty, ◌&&◌, leb, sym,
}

abbrev pub decision_response : Value → Value
decision_response decision = obj (("decision", decision) ∷ [])

abbrev pub profile_response : Value → String → Value
profile_response profile scope = obj (("permissions", profile) ∷ ("scope", string scope) ∷ [])

unfoldable pub denies : Value → Bool
denies decision =
    let amendment = at decision "applyNetworkPolicyAmendment" in
    is_text (at (at amendment "network_policy_amendment") "action") "deny"
    || is_text (at (at amendment "networkPolicyAmendment") "action") "deny"

-- What an option of a kind may send to the backend.
pub data IsHonest (params : Value) : PermissionOptionKind → Value → Type 0 where
  accepts : IsHonest params allow_once (decision_response (string "accept"))
  accepts_session : IsHonest params allow_always (decision_response (string "acceptForSession"))
  declines : IsHonest params reject_once (decision_response (string "decline"))
  cancels : IsHonest params reject_once (decision_response (string "cancel"))
  keeps_command :
      (decision : Value)
      → is_some (get "acceptWithExecpolicyAmendment" decision) ≡ true
      → IsHonest params allow_always (decision_response decision)
  keeps_network :
      (decision : Value)
      → is_some (get "applyNetworkPolicyAmendment" decision) ≡ true
      → denies decision ≡ false
      → IsHonest params allow_always (decision_response decision)
  keeps_denial :
      (decision : Value)
      → is_some (get "applyNetworkPolicyAmendment" decision) ≡ true
      → denies decision ≡ true
      → IsHonest params reject_always (decision_response decision)
  grants_turn :
      (profile : Value)
      → get "permissions" params ≡ some profile
      → IsHonest params allow_once (profile_response profile "turn")
  grants_session :
      (profile : Value)
      → get "permissions" params ≡ some profile
      → IsHonest params allow_always (profile_response profile "session")
  withholds : IsHonest params reject_once (profile_response (obj []) "turn")

abbrev pub IsHonestOffer : Value → Offer → Type 0
IsHonestOffer params offer = IsHonest params offer.kind offer.response

is_text-string : (v : Value) (s : String) → is_text v s ≡ true → v ≡ string s
is_text-string (string t) s h = ap string ((eq_iff t s).0 h)
is_text-string null s h = absurd (ground arith)
is_text-string (bool b) s h = absurd (ground arith)
is_text-string (number n) s h = absurd (ground arith)
is_text-string (array vs) s h = absurd (ground arith)
is_text-string (object ms) s h = absurd (ground arith)

module _ (show : Value → String) (params : Value) where
  rule_offer-IsHonest :
      (decision : Value) (named : String × PermissionOptionKind)
      → rule_offer show decision ≡ ok named
      → IsHonest params named.1 (decision_response decision)
  unfolding rule_offer denies
  rule_offer-IsHonest decision named h =
      elim (Bool-cases (is_some (get "acceptWithExecpolicyAmendment" decision))) [
        | inl command ↦
            subst (λ n. IsHonest params n.1 (decision_response decision))
              (ok_injective (rw (rule_offer, command) at h)) (keeps_command decision command)
        | inr no_command ↦
            elim (Bool-cases (is_some (get "applyNetworkPolicyAmendment" decision))) [
              | inr no_network ↦ absurd (ground arith)
              | inl network ↦ elim (Bool-cases (denies decision)) [
                | inl denied ↦
                    subst (λ n. IsHonest params n.1 (decision_response decision))
                      (ok_injective (rw (rule_offer, no_command, network, denied) at h))
                      (keeps_denial decision network denied)
                | inr granted ↦
                    subst (λ n. IsHonest params n.1 (decision_response decision))
                      (ok_injective (rw (rule_offer, no_command, network, granted) at h))
                      (keeps_network decision network granted)
              ]
            ]
      ]

  decision_kind-IsHonest :
      (decision : Value) (named : String × PermissionOptionKind)
      → decision_kind show decision ≡ ok named
      → IsHonest params named.1 (decision_response decision)
  unfolding decision_kind
  decision_kind-IsHonest decision named h =
      let Goal =
        λ (n : String × PermissionOptionKind). IsHonest params n.1 (decision_response decision) in
      elim (Bool-cases (is_text decision "accept")) [
        | inl yes_accept ↦
            subst Goal (ok_injective (rw (decision_kind, yes_accept) at h))
              (rw (is_text-string decision "accept" yes_accept) accepts)
        | inr no_accept ↦ elim (Bool-cases (is_text decision "acceptForSession")) [
          | inl yes_session ↦
              subst Goal (ok_injective (rw (decision_kind, no_accept, yes_session) at h))
                (rw (is_text-string decision "acceptForSession" yes_session) accepts_session)
          | inr no_session ↦ elim (Bool-cases (is_text decision "decline")) [
            | inl yes_decline ↦
                subst Goal
                  (ok_injective (rw (decision_kind, no_accept, no_session, yes_decline) at h))
                  (rw (is_text-string decision "decline" yes_decline) declines)
            | inr no_decline ↦ elim (Bool-cases (is_text decision "cancel")) [
              | inl yes_cancel ↦
                  subst Goal
                    (ok_injective
                      (rw (decision_kind, no_accept, no_session, no_decline, yes_cancel) at h))
                    (rw (is_text-string decision "cancel" yes_cancel) cancels)
              | inr no_cancel ↦
                  rule_offer-IsHonest decision named
                    (rw (decision_kind, no_accept, no_session, no_decline, no_cancel) at h)
            ]
          ]
        ]
      ]

  offers_of-IsHonest :
      (decisions : List Value) (offers : List Offer)
      → offers_of show decisions ≡ ok offers
      → All (IsHonestOffer params) offers × (length offers ≡ length decisions)
  unfolding offers_of
  offers_of-IsHonest [] offers h =
      subst (λ o. All (IsHonestOffer params) o × (length o ≡ 0)) (ok_injective h) (tt, refl)
  offers_of-IsHonest (decision ∷ rest) offers h =
      let (named, known, h') = >>=-ok_inversion (decision_kind show decision) _ h in
      let (more, kept, h'') = >>=-ok_inversion (offers_of show rest) _ h' in
      let (honest, long) = offers_of-IsHonest rest more kept in
      subst (λ o. All (IsHonestOffer params) o × (length o ≡ suc (length rest))) (ok_injective h'')
        ((decision_kind-IsHonest decision named known, honest), ap suc long)

  given_member :
      (profile : Value)
      → or_fail {E = InteractionError}
          (keep_if is_object (get "permissions" params))
          (missing "permissions")
        ≡ ok profile
      → get "permissions" params ≡ some profile
  given_member profile given = ground arith

  pub decision_offers-IsHonest :
      (offers : List Offer)
      → decision_offers show params ≡ ok offers
      → All (IsHonestOffer params) offers × (length offers ≤ 32)
  unfolding decision_offers
  decision_offers-IsHonest offers h =
      let (decisions, _, h') = >>=-ok_inversion (decisions_of params) _ h in
      let (_, few, h'') =
        >>=-ok_inversion (ensure (not (is_empty decisions) && leb (length decisions) 32) _) _ h' in
      let (honest, long) = offers_of-IsHonest decisions offers h'' in (honest, ground arith)

  pub permission_offers-IsHonest :
      (cancelled : Value) (offers : List Offer)
      → cancelled ≡ profile_response (obj []) "turn"
      → permission_offers params cancelled ≡ ok offers
      → All (IsHonestOffer params) offers × (length offers ≤ 32)
  unfolding permission_offers
  permission_offers-IsHonest cancelled offers same h =
      let (profile, given, h') =
        >>=-ok_inversion (or_fail (keep_if is_object (get "permissions" params)) _) _ h in
      let held = given_member profile given in
      subst (λ o. All (IsHonestOffer params) o × (length o ≤ 32)) (ok_injective h')
        (
          (
            grants_turn profile held,
            (
              grants_session profile held,
              (subst (IsHonest params reject_once) (sym same) withholds, tt),
            ),
          ),
          ground arith,
        )
