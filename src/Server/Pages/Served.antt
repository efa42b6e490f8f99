-- ===== src/Server/Pages/Served.antt =====
-- The pages that a loop has read when it ends well.
use codex_acp_v.Server.Pages.{Ended, paginate, next_cursor, after_ok}
use codex_acp_v.Json.{Value, is_null, value_eq}
use codex_acp_v.Backend.{Snapshot, BackendError}
use codex_acp_v.Common.{
  ℕ, Result, List, length, ◌≡◌, ok, arith, ◌≤◌, ◌∷◌, suc, true, zero, [], Result-cases, false, inr,
  inl, ◌+◌, refl, ap, Bool-cases, ◌∙◌, ◌↔◌,
}

module _ (fetch : ℕ → Value → Result BackendError Snapshot) where
  -- The pages that the backend serves from a round and a cursor on, to the last.
  pub data Served : ℕ → Value → List Snapshot → Type 0 where
    last_page :
        {round : ℕ} {cursor : Value} (page : Snapshot)
        → fetch round cursor ≡ ok page
        → is_null (next_cursor page) ≡ true
        → Served round cursor (page ∷ [])
    more_pages :
        {round : ℕ} {cursor : Value} {pages : List Snapshot} (page : Snapshot)
        → fetch round cursor ≡ ok page
        → is_null (next_cursor page) ≡ false
        → value_eq (next_cursor page) cursor ≡ false
        → Served (round + 1) (next_cursor page) pages
        → Served round cursor (page ∷ pages)

module _ {ℓ κ} {E : Type ℓ} {S : Type κ} (visit : Snapshot → S → Ended E S) where
  -- The pages read one after the other, to the first that fails.
  unfoldable pub visit_all : List Snapshot → S → Ended E S
  visit_all [] s = (ok tt, s)
  visit_all (page ∷ pages) s = after_ok (visit page s) (visit_all pages)

  pub visit_all-cons :
      (page : Snapshot) (pages : List Snapshot) (s after : S)
      → visit_all (page ∷ pages) s ≡ (ok tt, after)
      → (mid : S) × (visit page s ≡ (ok tt, mid)) × (visit_all pages mid ≡ (ok tt, after))
  unfolding visit_all
  visit_all-cons page pages s after h = elim (Result-cases (visit page s).0) [
    | inr (e, failed) ↦ absurd (ground arith)
    | inl (done, visited) ↦
        let seen : visit page s ≡ (ok tt, (visit page s).1) =
          ap (λ o. (o, (visit page s).1)) visited in
        ((visit page s).1, seen, ground arith)
  ]

module _ {ℓ κ} {E : Type ℓ} {S : Type κ} (fetch : ℕ → Value → Result BackendError Snapshot)
    (visit : Snapshot → S → Ended E S) where
  -- All pages were served, in no more rounds than there are, and each was read.
  pub record ReadsAll (rounds round : ℕ) (cursor : Value) (s after : S) : Type (ℓ ⊔ κ) where
    pub pages : List Snapshot
    pub served : Served fetch round cursor pages
    pub enough : length pages ≤ rounds
    pub visited : visit_all visit pages s ≡ (ok tt, after)

  -- What a round has done that is followed by a good end.
  data RoundDone (rounds round : ℕ) (cursor : Value) (s after : S) : Type (ℓ ⊔ κ) where
    ended :
        (page : Snapshot)
        → fetch round cursor ≡ ok page
        → visit page s ≡ (ok tt, after)
        → is_null (next_cursor page) ≡ true
        → RoundDone rounds round cursor s after
    continued :
        (page : Snapshot) (mid : S)
        → fetch round cursor ≡ ok page
        → visit page s ≡ (ok tt, mid)
        → is_null (next_cursor page) ≡ false
        → value_eq (next_cursor page) cursor ≡ false
        → paginate fetch visit rounds (round + 1) (next_cursor page) mid ≡ (ok tt, after)
        → RoundDone rounds round cursor s after

  round_done :
      (rounds round : ℕ) (cursor : Value) (s after : S)
      → paginate fetch visit (suc rounds) round cursor s ≡ (ok tt, after)
      → RoundDone rounds round cursor s after
  unfolding paginate
  round_done rounds round cursor s after h = elim (Result-cases (fetch round cursor)) [
    | inr (e, failed) ↦ absurd (ground arith)
    | inl (page, fetched) ↦ elim (Result-cases (visit page s).0) [
      | inr (e, failed) ↦ absurd (ground arith)
      | inl (done, visited) ↦
          let seen : visit page s ≡ (ok tt, (visit page s).1) =
            ap (λ o. (o, (visit page s).1)) visited in
          elim (Bool-cases (is_null (next_cursor page))) [
            | inl e ↦
                let final : (visit page s).1 ≡ after = ground arith in
                ended page fetched (seen ∙ ap (λ t. (ok tt, t)) final) e
            | inr e ↦ elim (Bool-cases (value_eq (next_cursor page) cursor)) [
              | inl e' ↦ absurd (ground arith)
              | inr e' ↦ continued page (visit page s).1 fetched seen e e' (ground arith)
            ]
          ]
    ]
  ]

  pub paginate-ReadsAll :
      (rounds round : ℕ) (cursor : Value) (s after : S)
      → paginate fetch visit rounds round cursor s ≡ (ok tt, after)
      → ReadsAll rounds round cursor s after
  unfolding paginate visit_all
  paginate-ReadsAll zero round cursor s after h = absurd (ground arith)
  paginate-ReadsAll (suc rounds) round cursor s after h =
      elim (round_done rounds round cursor s after h) [
        | ended page fetched visited e ↦ record {
          pages = page ∷ [];
          served = last_page page fetched e;
          enough = omega arith;
          visited = rw (visit_all, visited) refl;
        }
        | continued page mid fetched visited e e' rest ↦
            let later = paginate-ReadsAll rounds (round + 1) (next_cursor page) mid after rest in
            record {
              pages = page ∷ later.pages;
              served = more_pages page fetched e e' later.served;
              enough = omega (arith, later.enough);
              visited = rw (visit_all, visited) later.visited;
            }
      ]

  paginate-Served :
      (rounds round : ℕ) (cursor : Value) (s after : S) (pages : List Snapshot)
      → Served fetch round cursor pages
      → length pages ≤ rounds
      → visit_all visit pages s ≡ (ok tt, after)
      → paginate fetch visit rounds round cursor s ≡ (ok tt, after)
  unfolding paginate visit_all
  paginate-Served zero round cursor s after pages (last_page page fetched e) few h =
      absurd (ground arith)
  paginate-Served zero round cursor s after pages (more_pages page fetched e e' served) few h =
      absurd (ground arith)
  paginate-Served (suc rounds) round cursor s after pages (last_page page fetched e) few h =
      let (mid, visited, rest) = visit_all-cons visit page [] s after h in
      let final : mid ≡ after = ap (λ o. o.1) rest in
      rw (paginate, fetched, ap (λ o. o.0) visited, e)
        (ap (λ o. (ok tt, o.1)) visited ∙ ap (λ t. (ok tt, t)) final)
  paginate-Served (suc rounds) round cursor s after pages
        (more_pages {pages = more} page fetched e e' served) few h =
      let (mid, visited, rest) = visit_all-cons visit page more s after h in
      let later =
        paginate-Served rounds (round + 1) (next_cursor page) mid after more served
          (omega (arith, few)) rest in
      rw (paginate, fetched, ap (λ o. o.0) visited, e, e') (rw (ap (λ o. o.1) visited) later)

  -- A loop ends well exactly when the backend serves its pages to a last one within the rounds, no
  -- page names the cursor it was asked under as the next, and each page, read in order, is accepted.
  pub paginate-eq-ok_iff :
      (rounds round : ℕ) (cursor : Value) (s after : S)
      → (paginate fetch visit rounds round cursor s ≡ (ok tt, after))
        ↔ ReadsAll rounds round cursor s after
  paginate-eq-ok_iff rounds round cursor s after = (
    paginate-ReadsAll rounds round cursor s after,
    (λ h. paginate-Served rounds round cursor s after h.pages h.served h.enough h.visited),
  )
