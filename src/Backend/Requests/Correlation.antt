-- ===== src/Backend/Requests/Correlation.antt =====
-- src/backend/mod.rs: ids of requests, each in at most one slot or reply.
use codex_acp_v.Backend.{BackendError, Snapshot}
use codex_acp_v.Backend.Requests.{remove_id, Endpoint, has_id}
use codex_acp_v.Common.{
  ℕ, List, ◌++◌, ◌∷◌, length, ◌≡◌, All, Result, ◌||◌, false, Bool-cases, ◌<◌, ◌≤◌, true, arith, not,
  [], String, nat_eq, some, inl, ◌&&◌, refl, inr,
}

unfoldable pub Distinct : List ℕ → Type 0
Distinct [] = Unit
Distinct (i ∷ is) = (has_id is i ≡ false) × Distinct is

unfoldable pub replied : List (ℕ × Result BackendError Snapshot) → List ℕ
replied [] = []
replied ((id, reply) ∷ rest) = id ∷ replied rest

-- The ids that are waited for or answered.
abbrev pub used_ids : Endpoint → List ℕ
used_ids e = e.pending ++ replied e.replies

-- Ids are fresh, no request is answered twice or waits when it is answered, the requests in flight
-- are within their limit, and nothing waits once the connection has ended.
unfoldable pub IsCorrelated : Endpoint → Type 0
IsCorrelated e =
    Distinct (used_ids e)
    × All (λ id. id < e.next_id) (used_ids e)
    × (length e.pending ≤ e.max_in_flight)
    × ((reason : String) → e.disconnected ≡ some reason → e.pending ≡ [])

pub has_id-append :
    (is js : List ℕ) (id : ℕ) → has_id (is ++ js) id ≡ (has_id is id || has_id js id)
unfolding has_id
has_id-append [] js id = refl
has_id-append (i ∷ is) js id = rw (has_id-append is js id) (ground arith)

pub has_id-remove_id :
    (is : List ℕ) (id j : ℕ) → has_id (remove_id is id) j ≡ (not (nat_eq id j) && has_id is j)
unfolding has_id remove_id
has_id-remove_id [] id j = ground arith
has_id-remove_id (i ∷ is) id j = let ih = has_id-remove_id is id j in ground arith

pub remove_id-absent : (is : List ℕ) (id : ℕ) → has_id is id ≡ false → remove_id is id ≡ is
unfolding has_id remove_id
remove_id-absent [] id h = refl
remove_id-absent (i ∷ is) id h = let ih = remove_id-absent is id in ground arith

pub length-remove_id-le : (is : List ℕ) (id : ℕ) → length (remove_id is id) ≤ length is
unfolding remove_id
length-remove_id-le [] id = ground arith
length-remove_id-le (i ∷ is) id = let ih = length-remove_id-le is id in ground arith

pub has_id-above : (is : List ℕ) (top : ℕ) → All (λ id. id < top) is → has_id is top ≡ false
unfolding has_id
has_id-above [] top h = refl
has_id-above (i ∷ is) top h = let ih = has_id-above is top h.1 in ground arith

pub All-remove_id :
    (P : ℕ → Type 0) (is js : List ℕ) (id : ℕ) → All P (is ++ js) → All P (remove_id is id ++ js)
unfolding remove_id
All-remove_id P [] js id h = h
All-remove_id P (i ∷ is) js id h = let ih = All-remove_id P is js id h.1 in ground arith

pub All-move :
    (P : ℕ → Type 0) (is js : List ℕ) (id : ℕ)
    → All P (is ++ js)
    → P id
    → All P (remove_id is id ++ id ∷ js)
unfolding remove_id
All-move P [] js id h p = (p, h)
All-move P (i ∷ is) js id h p = let ih = All-move P is js id h.1 p in ground arith

pub has_id-All :
    (P : ℕ → Type 0) (is js : List ℕ) (id : ℕ) → All P (is ++ js) → has_id is id ≡ true → P id
unfolding has_id
has_id-All P [] js id h e = absurd (ground arith)
has_id-All P (i ∷ is) js id h e = elim (Bool-cases (nat_eq i id)) [
  | inl same ↦ let equal : i ≡ id = ground arith in rw (← equal) h.0
  | inr other ↦ has_id-All P is js id h.1 (ground arith)
]

pub Distinct-remove_id :
    (is js : List ℕ) (id : ℕ) → Distinct (is ++ js) → Distinct (remove_id is id ++ js)
unfolding remove_id Distinct
Distinct-remove_id [] js id h = h
Distinct-remove_id (i ∷ is) js id h =
    let ih = Distinct-remove_id is js id h.1 in
    let before = has_id-append is js i in
    let after = has_id-append (remove_id is id) js i in
    let inside = has_id-remove_id is id i in
    elim (Bool-cases (nat_eq i id)) [
      | inl same ↦ rw same ih
      | inr other ↦ rw other (ground arith, ih)
    ]

-- Where an id stands once, among the slots, it stands in no reply.
pub has_id-once :
    (is js : List ℕ) (id : ℕ) → Distinct (is ++ js) → has_id is id ≡ true → has_id js id ≡ false
unfolding has_id Distinct
has_id-once [] js id h e = absurd (ground arith)
has_id-once (i ∷ is) js id h e =
    let ih = has_id-once is js id h.1 in
    let split = has_id-append is js i in
    elim (Bool-cases (nat_eq i id)) [
      | inl same ↦ let equal : i ≡ id = ground arith in rw (← equal) (ground arith)
      | inr other ↦ ih (ground arith)
    ]

-- An id moves from the slots to the replies.
pub Distinct-move :
    (is js : List ℕ) (id : ℕ)
    → Distinct (is ++ js)
    → has_id js id ≡ false
    → Distinct (remove_id is id ++ id ∷ js)
unfolding remove_id has_id Distinct
Distinct-move [] js id h absent = (absent, h)
Distinct-move (i ∷ is) js id h absent =
    let ih = Distinct-move is js id h.1 absent in
    let before = has_id-append is js i in
    let after = has_id-append (remove_id is id) (id ∷ js) i in
    let inside = has_id-remove_id is id i in
    elim (Bool-cases (nat_eq i id)) [
      | inl same ↦ rw same ih
      | inr other ↦ rw other (ground arith, ih)
    ]
