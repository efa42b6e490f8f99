-- ===== src/Interactions/McpApproval/Remembered.antt =====
-- src/interactions/permission.rs: the answers to the approval of a tool call.
use codex_acp_v.Interactions.{
  allow_once, allow_always, reject_once, PermissionRequest, PermissionOption, PermissionOptionKind,
  resolve, PermissionInteraction, selected, cancelled_outcome, unsupported, unsupported_outcome,
  PermissionResolver, InteractionError,
}
use codex_acp_v.Interactions.Permission.{Offer}
use codex_acp_v.Json.{Value, at, null, as_str}
use codex_acp_v.Interactions.McpApproval.{
  approval_offers, approval_choices, approval_response, remembered, mcp_approval,
  approval_persistence, approval_options, offers_named,
}
use codex_acp_v.Common.{
  ◌∷◌, List, Option, String, ◌≡◌, lookup, [], some, ◌⊎◌, Has, All, inl, refl, ok, err, Option-cases,
  arith, inr, >>=-ok_inversion, or_fail, Bool-cases, insert, contains, ◌==◌, eq_iff, lookup-insert,
  subst, Result, or_fail-ok, ℕ, get_elem?, sym, Bool, true, false,
}

-- The answers that an approval may get, by the id and the kind of the option that is shown for it:
-- the call is allowed by three of them alone, whose kind says so, and remembered only in a scope that
-- the backend named.
unfoldable pub AllowsOnlyShown : List String → String → PermissionOptionKind → Value → Type 0
AllowsOnlyShown persistence id kind v =
    ((id ≡ "once") × (kind ≡ allow_once) × (v ≡ approval_response "accept" null))
    ⊎ ((id ≡ "session")
        × (kind ≡ allow_always)
        × Has persistence "session"
        × (v ≡ approval_response "accept" (remembered "session")))
    ⊎ ((id ≡ "always")
        × (kind ≡ allow_always)
        × Has persistence "always"
        × (v ≡ approval_response "accept" (remembered "always")))
    ⊎ ((id ≡ "decline") × (kind ≡ reject_once) × (v ≡ approval_response "decline" null))
    ⊎ ((id ≡ "cancel") × (kind ≡ reject_once) × (v ≡ approval_response "cancel" null))

-- An option with the id is shown, and its kind allows the answer.
abbrev pub IsShownIn : List String → List PermissionOption → String → Value → Type 0
IsShownIn persistence options id v =
    (place : ℕ) × (option : PermissionOption) × (get_elem? options place ≡ some option)
    × (option.id ≡ id)
    × AllowsOnlyShown persistence id option.kind v

-- What holds of all offers holds of what is chosen.
approval_choices-All :
    (P : String → Value → Type 0) (offers : List (String × Offer)) (choices : List (String × Value))
    (key : String) (v : Value)
    → All (λ o. P o.0 o.1.response) offers
    → (lookup choices key ≡ some v → P key v)
    → lookup (approval_choices offers choices) key ≡ some v
    → P key v
unfolding approval_choices
approval_choices-All P [] choices key v h before found = before found
approval_choices-All P ((id, o) ∷ rest) choices key v h before found =
    let newer : lookup (insert choices id o.response) key ≡ some v → P key v = λ hit.
      elim (Bool-cases (id == key)) [
        | inl same ↦
            let equal = (eq_iff id key).0 same in
            let chosen : o.response ≡ v = ground (arith, lookup-insert choices id key o.response) in
            subst (λ k. P k v) equal (subst (P id) chosen h.0)
        | inr apart ↦ before (ground (arith, lookup-insert choices id key o.response))
      ] in
    approval_choices-All P rest (insert choices id o.response) key v h.1 newer found

-- An option that is shown is answered, as its kind says.
abbrev pub IsAnswerable : List String → PermissionResolver → PermissionOption → Type 0
IsAnswerable persistence resolver option =
    (v : Value) × (resolve resolver (selected option.id) ≡ ok v)
    × AllowsOnlyShown persistence option.id option.kind v

-- All options and answers of an interaction.
pub record Answers (persistence : List String) (i : PermissionInteraction) : Type 0 where
  pub shown : All (IsAnswerable persistence i.resolver) i.request.options
  pub chosen :
      (id : String) (v : Value)
      → resolve i.resolver (selected id) ≡ ok v
      → IsShownIn persistence i.request.options id v
  pub cancels : resolve i.resolver cancelled_outcome ≡ ok (approval_response "cancel" null)
  pub refuses : resolve i.resolver unsupported ≡ err unsupported_outcome

abbrev resolver_of : List (String × Offer) → PermissionResolver
resolver_of offers = record {
  choices = approval_choices offers [];
  cancelled = approval_response "cancel" null;
}

once_shown :
    (persistence : List String)
    → AllowsOnlyShown persistence "once" allow_once (approval_response "accept" null)
unfolding AllowsOnlyShown
once_shown persistence = inl (refl, refl, refl)

session_shown :
    (persistence : List String)
    → Has persistence "session"
    → AllowsOnlyShown persistence "session" allow_always
        (approval_response "accept" (remembered "session"))
unfolding AllowsOnlyShown
session_shown persistence named = inr (inl (refl, refl, named, refl))

always_shown :
    (persistence : List String)
    → Has persistence "always"
    → AllowsOnlyShown persistence "always" allow_always
        (approval_response "accept" (remembered "always"))
unfolding AllowsOnlyShown
always_shown persistence named = inr (inr (inl (refl, refl, named, refl)))

decline_shown :
    (persistence : List String)
    → AllowsOnlyShown persistence "decline" reject_once (approval_response "decline" null)
unfolding AllowsOnlyShown
decline_shown persistence = inr (inr (inr (inl (refl, refl, refl))))

cancel_shown :
    (persistence : List String)
    → AllowsOnlyShown persistence "cancel" reject_once (approval_response "cancel" null)
unfolding AllowsOnlyShown
cancel_shown persistence = inr (inr (inr (inr (refl, refl, refl))))

module _ (persistence : List String) where
  -- What is offered is shown, and what is shown is answered.
  abbrev Both : List (String × Offer) → Type 0
  Both offers =
      All (λ o. IsShownIn persistence (approval_options offers) o.0 o.1.response) offers
      × All (IsAnswerable persistence (resolver_of offers)) (approval_options offers)

  offers_named-Both :
      (names_session names_always : Bool)
      → contains persistence "session" ≡ names_session
      → contains persistence "always" ≡ names_always
      → Both (offers_named names_session names_always)
  unfolding offers_named approval_options approval_choices resolve insert lookup
  offers_named-Both true true session always =
      let once = once_shown persistence in
      let s = session_shown persistence session in
      let a = always_shown persistence always in
      let decline = decline_shown persistence in
      let cancel = cancel_shown persistence in
      (
        (
          (0, _, refl, refl, once),
          (
            (1, _, refl, refl, s),
            (
              (2, _, refl, refl, a),
              ((3, _, refl, refl, decline), ((4, _, refl, refl, cancel), tt)),
            ),
          ),
        ),
        (
          (_, refl, once),
          ((_, refl, s), ((_, refl, a), ((_, refl, decline), ((_, refl, cancel), tt)))),
        ),
      )
  offers_named-Both true false session never =
      let once = once_shown persistence in
      let s = session_shown persistence session in
      let decline = decline_shown persistence in
      let cancel = cancel_shown persistence in
      (
        (
          (0, _, refl, refl, once),
          ((1, _, refl, refl, s), ((2, _, refl, refl, decline), ((3, _, refl, refl, cancel), tt))),
        ),
        ((_, refl, once), ((_, refl, s), ((_, refl, decline), ((_, refl, cancel), tt)))),
      )
  offers_named-Both false true unnamed always =
      let once = once_shown persistence in
      let a = always_shown persistence always in
      let decline = decline_shown persistence in
      let cancel = cancel_shown persistence in
      (
        (
          (0, _, refl, refl, once),
          ((1, _, refl, refl, a), ((2, _, refl, refl, decline), ((3, _, refl, refl, cancel), tt))),
        ),
        ((_, refl, once), ((_, refl, a), ((_, refl, decline), ((_, refl, cancel), tt)))),
      )
  offers_named-Both false false unnamed never =
      let once = once_shown persistence in
      let decline = decline_shown persistence in
      let cancel = cancel_shown persistence in
      (
        ((0, _, refl, refl, once), ((1, _, refl, refl, decline), ((2, _, refl, refl, cancel), tt))),
        ((_, refl, once), ((_, refl, decline), ((_, refl, cancel), tt))),
      )

  resolver_of-Answers :
      (request : PermissionRequest)
      → request.options ≡ approval_options (approval_offers persistence)
      → Answers persistence
          (record { request = request; resolver = resolver_of (approval_offers persistence) })
  unfolding resolve lookup approval_offers
  resolver_of-Answers request listed =
      let offers = approval_offers persistence in
      let (offered, answered) =
        offers_named-Both (contains persistence "session") (contains persistence "always") refl
          refl in
      record {
        shown = subst (All (IsAnswerable persistence (resolver_of offers))) (sym listed) answered;
        chosen = λ id v found.
            subst (λ os. IsShownIn persistence os id v) (sym listed)
              (approval_choices-All (IsShownIn persistence (approval_options offers)) offers [] id v
                offered (λ hit. absurd (ground arith)) (or_fail-ok _ _ v found));
        cancels = refl;
        refuses = refl;
      }

ok_some_injective :
    {a b : PermissionInteraction}
    → ◌≡◌ {A = Result InteractionError (Option PermissionInteraction)} (ok (some a)) (ok (some b))
    → a ≡ b
ok_some_injective h = cc h

module _ (show : Value → String) (session_id : String) (params : Value) where
  -- Each option of the approval of a tool call is answered as its id and its kind say, and what is
  -- answered is the answer of an option that is shown: the call is allowed only by an option of a
  -- kind that allows it, and remembered only by one of the kind allow_always, in a scope that the
  -- callback named. Cancelling sends the refusal, and any other outcome sends nothing.
  pub mcp_approval-Answers :
      (i : PermissionInteraction)
      → mcp_approval show session_id params ≡ ok (some i)
      → (persistence : List String) × (approval_persistence params ≡ some persistence)
        × Answers persistence i
  unfolding mcp_approval
  mcp_approval-Answers i h = elim (Option-cases (approval_persistence params)) [
    | inl not_one ↦ absurd (ground arith)
    | inr (persistence, named) ↦
        let (message, _, h') =
          >>=-ok_inversion (or_fail (as_str (at params "message")) _) _
            (rw (mcp_approval, named) at h) in
        (
          persistence,
          named,
          subst (Answers persistence) (ok_some_injective h')
              (resolver_of-Answers persistence _ refl),
        )
  ]
