-- ===== src/Server/Pump/Shapes.antt =====
-- src/server/events.rs: the events of one thread among those taken, routed, queued and held, and how
-- they move from one to the next.
use codex_acp_v.Backend.{BackendEvent}
use codex_acp_v.Server.Pump.{event_thread_id}
use codex_acp_v.Common.{
  String, List, filter, Bool, ◌≡◌, [], is_some_and, true, ◌++◌, ◌==◌, inl, inr, ap, ◌∷◌,
  filter-append, append-nil, Bool-cases, ◌∙◌, sym, append_assoc,
}

abbrev pub is_of_thread : String → BackendEvent → Bool
is_of_thread thread event = is_some_and (event_thread_id event) (λ id. id == thread)

abbrev pub events_of : String → List BackendEvent → List BackendEvent
events_of thread events = filter (is_of_thread thread) events

module _ (thread : String) where
  -- A round that takes `xs` and gives `ys`, and leaves `queue` and `early`.
  abbrev pub Shape :
      List BackendEvent → List BackendEvent → List BackendEvent → List BackendEvent → Type 0
  Shape taken given queue early =
      events_of thread taken
      ≡ events_of thread given ++ (events_of thread queue ++ events_of thread early)

  pub Shape-holds :
      (taken given early : List BackendEvent) (event : BackendEvent)
      → Shape taken given [] early
      → Shape (taken ++ event ∷ []) (given ++ []) [] (early ++ event ∷ [])
  Shape-holds taken given early event h =
      let one = events_of thread (event ∷ []) in
      filter-append (is_of_thread thread) taken (event ∷ [])
      ∙ ap (λ es. es ++ one) h
      ∙ append_assoc (events_of thread given) (events_of thread early) one
      ∙ ap (λ es. events_of thread given ++ es)
          (sym (filter-append (is_of_thread thread) early (event ∷ [])))
      ∙ ap (λ es. events_of thread es ++ events_of thread (early ++ event ∷ []))
          (sym (append-nil given))

  pub Shape-routes :
      (taken given early : List BackendEvent) (event : BackendEvent)
      → Shape taken given [] early
      → (is_of_thread thread event ≡ true → events_of thread early ≡ [])
      → Shape (taken ++ event ∷ []) (given ++ event ∷ []) [] early
  Shape-routes taken given early event h clear =
      let test = is_of_thread thread in
      let one = events_of thread (event ∷ []) in
      let held = events_of thread early in
      let swap : held ++ one ≡ one ++ held = elim (Bool-cases (test event)) [
        | inl own ↦ rw (clear own) (sym (append-nil one))
        | inr foreign ↦ rw (filter, foreign) (append-nil held)
      ] in
      filter-append test taken (event ∷ [])
      ∙ ap (λ es. es ++ one) h
      ∙ append_assoc (events_of thread given) held one
      ∙ ap (λ es. events_of thread given ++ es) swap
      ∙ sym (append_assoc (events_of thread given) one held)
      ∙ ap (λ es. es ++ held) (sym (filter-append test given (event ∷ [])))

  pub Shape-drains :
      (taken given rest early : List BackendEvent) (event : BackendEvent)
      → Shape taken given (event ∷ rest) early
      → Shape (taken ++ []) (given ++ event ∷ []) rest early
  Shape-drains taken given rest early event h =
      let test = is_of_thread thread in
      let one = events_of thread (event ∷ []) in
      let after = events_of thread rest in
      let held = events_of thread early in
      ap (events_of thread) (append-nil taken)
      ∙ h
      ∙ ap (λ es. events_of thread given ++ (es ++ held)) (filter-append test (event ∷ []) rest)
      ∙ ap (λ es. events_of thread given ++ es) (append_assoc one after held)
      ∙ sym (append_assoc (events_of thread given) one (after ++ held))
      ∙ ap (λ es. es ++ (after ++ held)) (sym (filter-append test given (event ∷ [])))

  pub Shape-same :
      (taken given queue early : List BackendEvent)
      → Shape taken given queue early
      → Shape (taken ++ []) (given ++ []) queue early
  Shape-same taken given queue early h =
      ap (events_of thread) (append-nil taken)
      ∙ h
      ∙ ap (λ es. events_of thread es ++ (events_of thread queue ++ events_of thread early))
          (sym (append-nil given))

  pub Shape-captures :
      (taken given captured early : List BackendEvent)
      → Shape taken given [] early
      → events_of thread early ≡ []
      → Shape (taken ++ captured) (given ++ []) captured early
  Shape-captures taken given captured early h clear =
      let test = is_of_thread thread in
      let more = events_of thread captured in
      filter-append test taken captured
      ∙ ap (λ es. es ++ more) h
      ∙ append_assoc (events_of thread given) (events_of thread early) more
      ∙ ap (λ es. events_of thread given ++ es) (rw clear (sym (append-nil more)))
      ∙ ap (λ es. events_of thread es ++ (more ++ events_of thread early)) (sym (append-nil given))
