-- ===== src/Interactions/Permission/Translated.antt =====
-- src/interactions/permission.rs: the request for an approval callback, and the answers to it.
use codex_acp_v.Interactions.Permission.Offered.{
  ResolvesOffers, add_choices-ResolvesOffers, add_choices-ResolvesOffers,
}
use codex_acp_v.Interactions.Permission.Honest.{
  IsHonestOffer, profile_response, permission_offers-IsHonest, decision_offers-IsHonest,
}
use codex_acp_v.Interactions.{PermissionInteraction}
use codex_acp_v.Interactions.Permission.{
  translate, cancelled_response, Offer, is_permissions_request, request_for, offers_for,
}
use codex_acp_v.Json.{Value, as_str, at, obj}
use codex_acp_v.Common.{
  String, ◌≡◌, ok, List, All, length, ◌≤◌, >>=-ok_inversion, or_fail, Bool-cases, inl, [], subst,
  ok_injective, inr, refl,
}

module _ (show : Value → String) (session_id method : String) (params : Value) where
  offers_for-IsHonest :
      (offers : List Offer)
      → offers_for show method params ≡ ok offers
      → All (IsHonestOffer params) offers × (length offers ≤ 32)
  unfolding offers_for cancelled_response
  offers_for-IsHonest offers h = elim (Bool-cases (is_permissions_request method)) [
    | inl asked ↦
        permission_offers-IsHonest show params (profile_response (obj []) "turn") offers refl
          (rw (offers_for, asked) at h)
    | inr decided ↦ decision_offers-IsHonest show params offers (rw (offers_for, decided) at h)
  ]

  -- An approval callback becomes a request that shows one option for each of at most 32 offers, under
  -- its name and with its kind, which tells what its response does. Choosing the option that is shown
  -- for an offer sends exactly that response, cancelling sends the refusal
  -- that the callback expects, and any other id or outcome is refused and sends nothing.
  pub translate-ResolvesOffers :
      (i : PermissionInteraction)
      → translate show session_id method params ≡ ok i
      → (offers : List Offer) × All (IsHonestOffer params) offers
        × (length offers ≤ 32)
        × ResolvesOffers offers (cancelled_response method) i
  unfolding translate request_for
  translate-ResolvesOffers i h =
      let (item_id, _, h') = >>=-ok_inversion (or_fail (as_str (at params "itemId")) _) _ h in
      let (offers, built, h'') = >>=-ok_inversion (offers_for show method params) _ h' in
      let (honest, few) = offers_for-IsHonest offers built in
      let resolves =
        add_choices-ResolvesOffers (request_for show session_id method params item_id offers) offers
          (cancelled_response method) refl few in
      (
        offers,
        honest,
        few,
        subst (ResolvesOffers offers (cancelled_response method)) (ok_injective h'') resolves,
      )
