-- ===== src/Server/Notifications/Contents.antt =====
-- src/server/events.rs and src/server/history.rs: an item is shown by a replay or by a notification.
use codex_acp_v.Server.History.{
  Projector, note_cutoff, replay_entry, Replay, with_content, projected_id, project_item,
}
use codex_acp_v.Server.{SessionData, State}
use codex_acp_v.Json.{Value, as_str, at}
use codex_acp_v.Server.Notifications.{
  Projection, own_change, deliver, NotificationError, snapshot_methods, as_projected, is_covered,
  projected_item, item_id, deliver_to, descendant_of,
}
use codex_acp_v.Common.{
  ℕ, String, contains, Result, Has, List, some, ◌≡◌, ok, if◌then◌else◌, [], ◌==◌, Bool-cases, inl,
  eq_iff, inr, refl, Result-cases, lookup, leb, ◌||◌, lookup-insert, sym, nat_eq, ◌∙◌, true, subst,
  Bool, arith, none, eq_refl, false, ap, Option,
}

module _ {ℓ κ} {E : Type ℓ} {U : Type κ} (projection : Projection E U) where
  -- What the projector makes of a notification of the session's own thread or of another.
  abbrev pub shown_as : String → String → String → Value → Result (NotificationError E) (List U)
  shown_as id thread method params = as_projected projection (
      if thread == id
      then projection.project method params
      else projection.project_child method params thread)

  own_change-items :
      (method : String) (params : Value) (sequence : ℕ) (content : SessionData)
      → Has snapshot_methods method
      → own_change projection method params sequence content ≡ ok ([], content)
  unfolding own_change contains
  own_change-items method params sequence content known =
      elim (Bool-cases (method == "turn/started")) [
        | inl e ↦ absurd (cc (rw ((eq_iff method "turn/started").0 e) at known))
        | inr started ↦ elim (Bool-cases (method == "turn/completed")) [
          | inl e ↦ absurd (cc (rw ((eq_iff method "turn/completed").0 e) at known))
          | inr completed ↦ elim (Bool-cases (method == "thread/settings/updated")) [
            | inl e ↦ absurd (cc (rw ((eq_iff method "thread/settings/updated").0 e) at known))
            | inr updated ↦ rw (own_change, started, completed, updated) refl
          ]
        ]
      ]

  own_items :
      (covered : Bool) (method : String) (params : Value) (sequence : ℕ) (content : SessionData)
      → Has snapshot_methods method
      → deliver_to projection none covered method params sequence content ≡ (
        if covered then ok [] else as_projected projection (projection.project method params),
        content,
      )
  unfolding deliver_to
  own_items true method params sequence content known =
      rw (deliver_to, own_change-items method params sequence content known) refl
  own_items false method params sequence content known =
      let own = own_change-items method params sequence content known in
      elim (Result-cases (projection.project method params)) [
        | inl (more, made) ↦ rw (deliver_to, own, made) refl
        | inr (error, made) ↦ rw (deliver_to, own, made) refl
      ]

  -- A notification of an item leaves the session as it is, and is shown unless it is covered.
  deliver-items :
      (id thread method : String) (params : Value) (sequence : ℕ) (content : SessionData)
      → Has snapshot_methods method
      → deliver projection id (some thread) method params sequence content ≡ (
        if is_covered method sequence (projected_item id (some thread) params) content
            then ok []
            else shown_as id thread method params,
        content,
      )
  unfolding deliver deliver_to
  deliver-items id thread method params sequence content known =
      let covered = is_covered method sequence (projected_item id (some thread) params) content in
      elim (Bool-cases (thread == id)) [
        | inl e ↦
            let own : descendant_of id (some thread) ≡ none = rw (descendant_of, e) refl in
            let step : deliver_to projection (descendant_of id (some thread)) covered method params
                  sequence content
                ≡ deliver_to projection none covered method params sequence content =
              ap (λ d. deliver_to projection d covered method params sequence content) own in
            step ∙ own_items covered method params sequence content known ∙ rw (shown_as, e) refl
        | inr e ↦
            let other_thread : descendant_of id (some thread) ≡ some thread =
              rw (descendant_of, e) refl in
            let step : deliver_to projection (descendant_of id (some thread)) covered method params
                  sequence content
                ≡ deliver_to projection (some thread) covered method params sequence content =
              ap (λ d. deliver_to projection d covered method params sequence content)
                other_thread in
            step ∙ rw (shown_as, e) refl
      ]

covered_item :
    (method : String) (notified : ℕ) (item : Option String) (content : SessionData) (key : String)
    (sequence cutoff : ℕ)
    → Has snapshot_methods method
    → item ≡ some key
    → lookup content.snapshot_cutoffs key ≡ some sequence
    → content.history_cutoff ≡ cutoff
    → is_covered method notified item content ≡ (leb notified cutoff || leb notified sequence)
unfolding is_covered
covered_item method notified item content key sequence cutoff known named noted same =
    rw (is_covered, known, named, noted, same) refl

itself : (n : ℕ) → nat_eq n n ≡ true
itself n = ground arith

module _ {ℓ κ} {E : Type ℓ} {U : Type κ} (projector : Projector E U)
    (projection : Projection E U) where
  -- The session's data after a row of its history has been replayed.
  abbrev pub replayed_content : String → String → ℕ → ℕ → Value → Replay U → SessionData
  replayed_content root thread session sequence entry r =
      ((replay_entry projector root thread session sequence entry r).1.server.store session).content

  projected_item-some :
      (root thread item : String) (params : Value)
      → item_id params ≡ some item
      → projected_item root (some thread) params ≡ some (projected_id projector root thread item)
  unfolding projected_id
  projected_item-some root thread item params told = elim (Bool-cases (thread == root)) [
    | inl e ↦ rw (projected_item, told, descendant_of, projected_id, e) refl
    | inr e ↦ rw (projected_item, told, descendant_of, projected_id, e) refl
  ]

  noted_cutoff :
      (root thread item : String) (session sequence : ℕ) (entry : Value) (s : State)
      → as_str (at (at entry "item") "id") ≡ some item
      → let content =
          ((note_cutoff projector root thread session sequence entry s).store session).content in
        (lookup content.snapshot_cutoffs (projected_id projector root thread item) ≡ some sequence)
        × (content.history_cutoff ≡ ((s.store session).content).history_cutoff)
  unfolding note_cutoff with_content
  noted_cutoff root thread item session sequence entry s named =
      let key = projected_id projector root thread item in
      let own = itself session in
      let cutoffs = ((s.store session).content).snapshot_cutoffs in
      rw (note_cutoff, named, with_content, own)
        (lookup-insert cutoffs key key sequence ∙ rw (eq_refl key) refl, refl)

  replay_entry_server :
      (root thread : String) (session sequence : ℕ) (entry : Value) (r : Replay U)
      → (replay_entry projector root thread session sequence entry r).1.server
        ≡ note_cutoff projector root thread session sequence entry r.server
  unfolding replay_entry
  replay_entry_server root thread session sequence entry r =
      elim (Result-cases (project_item projector root thread (at entry "item"))) [
        | inr (e, failed) ↦ rw (replay_entry, failed) refl
        | inl (updates, e) ↦ rw (replay_entry, e) refl
      ]

  replayed_cutoff :
      (root thread item : String) (session sequence : ℕ) (entry : Value) (r : Replay U)
      → as_str (at (at entry "item") "id") ≡ some item
      → let content = replayed_content root thread session sequence entry r in
        (lookup content.snapshot_cutoffs (projected_id projector root thread item) ≡ some sequence)
        × (content.history_cutoff ≡ ((r.server.store session).content).history_cutoff)
  replayed_cutoff root thread item session sequence entry r named =
      let noted = noted_cutoff root thread item session sequence entry r.server named in
      let same = sym (replay_entry_server root thread session sequence entry r) in
      subst
        (λ s.
          (lookup ((s.store session).content).snapshot_cutoffs
              (projected_id projector root thread item)
            ≡ some sequence)
          × (((s.store session).content).history_cutoff
              ≡ ((r.server.store session).content).history_cutoff))
        same noted

  -- An item that a replay has read is not shown again by a notification that is not newer than the
  -- page it was read from, nor by one that a reset came after; a newer one is shown, and neither
  -- changes the data of the session.
  pub deliver-replay_entry :
      (root thread item method : String) (session sequence notified : ℕ) (entry params : Value)
      (r : Replay U)
      → as_str (at (at entry "item") "id") ≡ some item
      → item_id params ≡ some item
      → Has snapshot_methods method
      → let content = replayed_content root thread session sequence entry r in
        deliver projection root (some thread) method params notified content ≡ (
          if leb notified ((r.server.store session).content).history_cutoff || leb notified sequence
              then ok []
              else shown_as projection root thread method params,
          content,
        )
  unfolding is_covered
  deliver-replay_entry root thread item method session sequence notified entry params r named told
        known =
      let content = replayed_content root thread session sequence entry r in
      let (noted, cutoff) = replayed_cutoff root thread item session sequence entry r named in
      let shown = deliver-items projection root thread method params notified content known in
      let placed = projected_item-some root thread item params told in
      let covered =
        covered_item method notified (projected_item root (some thread) params) content
          (projected_id projector root thread item) sequence
          ((r.server.store session).content).history_cutoff known placed noted cutoff in
      let shape : Bool → Result (NotificationError E) (List U) × SessionData =
        λ c. (if c then ok [] else shown_as projection root thread method params, content) in
      shown ∙ ap shape covered
