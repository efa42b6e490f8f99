-- ===== src/Server/Pages/Models.antt =====
-- src/server/mod.rs, `models`: the catalogue of models, in pages of the backend.
use codex_acp_v.Server.Pages.{Ended, PageError, paginate}
use codex_acp_v.Server.Pages.Served.{visit_all, Served, paginate-eq-ok_iff}
use codex_acp_v.Json.{Value, as_array, at, null}
use codex_acp_v.Backend.{Snapshot, BackendError}
use codex_acp_v.Common.{
  ℕ, List, Result, Option, ◌≡◌, ok, some, none, ◌∷◌, ◌↔◌, err, and_then, ◌++◌, [], length, ◌≤◌,
  refl, ap, Result-cases, inr, append-nil, ◌∙◌, sym, some_injective, arith, append_assoc, inl,
  Option-cases, ok_injective,
}
use mathlib.Core.Option

pub data ModelsError : Type 0 where
  no_models : ModelsError

-- The rows of a page.
abbrev pub rows : Snapshot → Option (List Value)
rows page = as_array (at page.value "data")

unfoldable pub read_models : Snapshot → List Value → Ended ModelsError (List Value)
read_models page models = elim (rows page) [
  | none ↦ (err no_models, models)
  | some more ↦ (ok tt, models ++ more)
]

unfoldable pub models :
    (ℕ → Value → Result BackendError Snapshot) → Result (PageError ModelsError) (List Value)
models fetch =
    let (outcome, found) = paginate fetch read_models 100 0 null [] in
    elim outcome [ err e ↦ err e | ok done ↦ ok found ]

-- The rows of all pages, where each page has some.
abbrev pub all_rows : List Snapshot → Option (List Value)
all_rows [] = some []
all_rows (page ∷ pages) =
    and_then (rows page) (λ here. Option.map (λ more. here ++ more) (all_rows pages))

appended :
    (before here : List Value) (more : Option (List Value))
    → Option.map (λ rest. before ++ rest) (Option.map (λ rest. here ++ rest) more)
      ≡ Option.map (λ rest. (before ++ here) ++ rest) more
appended before here none = refl
appended before here (some rest) = ap some (sym (append_assoc before here rest))

plain : (more : Option (List Value)) → more ≡ Option.map (λ rest. [] ++ rest) more
plain none = refl
plain (some rest) = refl

ended :
    (fetch : ℕ → Value → Result BackendError Snapshot) (found : List Value)
    → models fetch ≡ ok found
    → paginate fetch read_models 100 0 null [] ≡ (ok tt, found)
unfolding models
ended fetch found h =
    let loop = paginate fetch read_models 100 0 null [] in
    elim (Result-cases loop.0) [
      | inr (e, failed) ↦ absurd (ground arith)
      | inl (done, e) ↦
          ap (λ o. (o, loop.1)) e ∙ ap (λ t. (ok tt, t)) (ok_injective (rw (models, e) at h))
    ]

visit_all-read_models :
    (pages : List Snapshot) (before after : List Value)
    → (visit_all read_models pages before ≡ (ok tt, after))
      ↔ (Option.map (λ more. before ++ more) (all_rows pages) ≡ some after)
unfolding visit_all read_models
visit_all-read_models [] before after = (
  (λ h. ap some (append-nil before ∙ ap (λ o. o.1) h)),
  (λ h. ap (λ t. (ok tt, t)) (sym (append-nil before) ∙ some_injective h)),
)
visit_all-read_models (page ∷ pages) before after = elim (Option-cases (rows page)) [
  | inl e ↦ ((λ h. absurd (ground arith)), (λ h. absurd (ground arith)))
  | inr (here, e) ↦
      let later = visit_all-read_models pages (before ++ here) after in
      let grouped = appended before here (all_rows pages) in
      rw (e, grouped, read_models, visit_all) later
]

-- The catalogue that is returned is the rows of all pages that the backend serves, in order: it is
-- returned exactly when there are at most 100 pages, each of them has rows and the cursor of none is
-- repeated by the next.
pub models-eq-ok_iff :
    (fetch : ℕ → Value → Result BackendError Snapshot) (found : List Value)
    → (models fetch ≡ ok found) ↔ (
        (pages : List Snapshot) × Served fetch 0 null pages
        × (length pages ≤ 100)
        × (all_rows pages ≡ some found))
unfolding models
models-eq-ok_iff fetch found = (
  (λ h.
      let read =
        (paginate-eq-ok_iff fetch read_models 100 0 null [] found).0 (ended fetch found h) in
      (
        read.pages,
        read.served,
        read.enough,
        plain (all_rows read.pages) ∙ (visit_all-read_models read.pages [] found).0 read.visited,
      )),
  (λ (pages, served, few, all).
      let visited = (visit_all-read_models pages [] found).1 (sym (plain (all_rows pages)) ∙ all) in
      let loop =
        (paginate-eq-ok_iff fetch read_models 100 0 null [] found).1
          (record { pages = pages; served = served; enough = few; visited = visited }) in
      rw (models, ap (λ o. o.0) loop) (ap (λ o. ok (o.1)) loop)),
)
