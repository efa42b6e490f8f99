-- ===== src/Server/Pages/Tests.antt =====
-- src/server/mod.rs, `models`: a catalogue of two pages.
use codex_acp_v.Server.Pages.Models.{models-eq-ok_iff}
use codex_acp_v.Server.Pages.Served.{Served}
use codex_acp_v.Server.Pages.{paginate, repeating_cursor}
use codex_acp_v.Json.{Value, obj, null, arr, string, is_null}
use codex_acp_v.Backend.{Snapshot, BackendError}
use codex_acp_v.Server.Pages.Models.{models, read_models, all_rows}
use codex_acp_v.Common.{
  ℕ, ◌≡◌, Result, ok, lookup, ◌↔◌, if◌then◌else◌, err, ◌∷◌, [], refl, List, length, ◌≤◌, some,
}

abbrev first_page : Snapshot
first_page = record {
  value = obj (("data", arr (string "a" ∷ [])) ∷ ("nextCursor", string "more") ∷ []);
  sequence = 1;
}

abbrev second_page : Snapshot
second_page = record { value = obj (("data", arr (string "b" ∷ [])) ∷ []); sequence = 2 }

abbrev two_pages : ℕ → Value → Result BackendError Snapshot
two_pages round cursor = if is_null cursor then ok first_page else ok second_page

-- A backend that names the same cursor again and again.
abbrev stuck : ℕ → Value → Result BackendError Snapshot
stuck round cursor = ok first_page

lists : models two_pages ≡ ok (string "a" ∷ string "b" ∷ [])
unfolding models paginate read_models lookup
lists = refl

repeats : models stuck ≡ err repeating_cursor
unfolding models paginate read_models lookup
repeats = refl

models-eq-ok_example : (models two_pages ≡ ok (string "a" ∷ string "b" ∷ [])) ↔ (
    (pages : List Snapshot) × Served two_pages 0 null pages
    × (length pages ≤ 100)
    × (all_rows pages ≡ some (string "a" ∷ string "b" ∷ [])))
models-eq-ok_example = models-eq-ok_iff two_pages (string "a" ∷ string "b" ∷ [])
