-- ===== src/Server/Notifications/Settings.antt =====
-- src/server/events.rs: which settings a notification that came before a resume reply may change.
use codex_acp_v.Server.{SessionData}
use codex_acp_v.Json.{Value, null, get, as_object, at, object, bool, number, string, array}
use codex_acp_v.Config.Threads.{insert_named}
use codex_acp_v.Server.Notifications.{settings_updated, overlay_mode, effective_settings}
use codex_acp_v.Common.{
  ◌∷◌, [], ℕ, List, lookup, String, ◌≡◌, ◌==◌, or_else, false, some, unwrap_or, ◌+◌, ◌%◌,
  Option-cases, and_then, ◌^◌, if◌then◌else◌, leb, inl, inr, lookup-insert, ◌∙◌, refl, insert, none,
  arith, Bool-cases, ap, some_injective, eq_iff, sym,
}

-- No key stands twice, as in a map.
abbrev pub IsMap : List (String × Value) → Type 0
IsMap [] = Unit
IsMap ((key, value) ∷ rest) = (lookup rest key ≡ none) × IsMap rest

lookup-insert_named :
    (more entries : List (String × Value)) (key : String)
    → IsMap more
    → lookup (insert_named entries more) key ≡ or_else (lookup more key) (lookup entries key)
unfolding insert_named lookup
lookup-insert_named [] entries key distinct = refl
lookup-insert_named ((name, value) ∷ rest) entries key (fresh, distinct) =
    let later = lookup-insert_named rest (insert entries name value) key distinct in
    let here = lookup-insert entries name key value in
    elim (Bool-cases (name == key)) [
      | inl e ↦
          let same = (eq_iff name key).0 e in
          let gone : lookup rest key ≡ none = rw (sym same) fresh in
          later ∙ rw (gone, here, e, lookup) refl
      | inr e ↦ later ∙ rw (here, e, lookup) refl
    ]

lookup-overlay_mode :
    (overlay settings : List (String × Value)) (key : String)
    → ("collaborationMode" == key) ≡ false
    → lookup (overlay_mode overlay settings) key ≡ lookup settings key
unfolding overlay_mode
lookup-overlay_mode overlay settings key e =
    let mode = unwrap_or (lookup settings "collaborationMode") null in
    elim (Option-cases (and_then (get "settings" mode) as_object)) [
      | inl absent ↦ rw (overlay_mode, absent) refl
      | inr (inner, found) ↦
          rw (overlay_mode, found) (lookup-insert settings "collaborationMode" key _ ∙ rw e refl)
    ]

get-as_object :
    (key : String) (v : Value) (entries : List (String × Value))
    → as_object v ≡ some entries
    → get key v ≡ lookup entries key
get-as_object key (object ms) entries h = ap (λ es. lookup es key) (some_injective h)
get-as_object key null entries h = cc h
get-as_object key (bool b) entries h = cc h
get-as_object key (number n) entries h = cc h
get-as_object key (string text) entries h = cc h
get-as_object key (array vs) entries h = cc h

-- A report of the settings counts as a new generation. For every field but the collaboration mode, a
-- report that is not newer than the resume reply gives way to each field of the reply, and adds the
-- fields the reply has not; a newer report replaces the settings as a whole.
pub settings_updated-lookup :
    (params : Value) (sequence : ℕ) (content after : SessionData) (key : String)
    → IsMap content.settings_overlay
    → ("collaborationMode" == key) ≡ false
    → settings_updated params sequence content ≡ some after
    → (after.settings_generation ≡ (content.settings_generation + 1) % 2 ^ 64)
      × (lookup after.configuration.settings key ≡ (
          if leb sequence content.settings_cutoff
          then or_else (lookup content.settings_overlay key) (get key (at params "threadSettings"))
          else get key (at params "threadSettings")))
unfolding settings_updated effective_settings
settings_updated-lookup params sequence content after key distinct apart h =
    let reported = at params "threadSettings" in
    elim (Option-cases (as_object reported)) [
      | inl absent ↦ absurd (ground arith)
      | inr (settings, found) ↦
          let named = get-as_object key reported settings found in
          let same = some_injective (rw (settings_updated, found) at h) in
          let generation = ap (λ t. t.settings_generation) same in
          let now = ap (λ t. lookup t.configuration.settings key) same in
          elim (Bool-cases (leb sequence content.settings_cutoff)) [
            | inl early ↦
                let kept =
                  lookup-overlay_mode content.settings_overlay
                    (insert_named settings content.settings_overlay) key apart in
                let laid = lookup-insert_named content.settings_overlay settings key distinct in
                let both : effective_settings sequence content settings
                    ≡ overlay_mode content.settings_overlay
                        (insert_named settings content.settings_overlay) =
                  rw (effective_settings, early) refl in
                (
                  sym generation,
                  sym now ∙ ap (λ es. lookup es key) both ∙ kept ∙ laid ∙ rw (early, named) refl,
                )
            | inr late ↦
                let both : effective_settings sequence content settings ≡ settings =
                  rw (effective_settings, late) refl in
                (sym generation, sym now ∙ ap (λ es. lookup es key) both ∙ rw (late, named) refl)
          ]
    ]
