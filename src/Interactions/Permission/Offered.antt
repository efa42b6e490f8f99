-- ===== src/Interactions/Permission/Offered.antt =====
-- src/interactions/permission.rs: what the resolver gives for an answer of the client.
use codex_acp_v.Interactions.{
  resolve, PermissionRequest, PermissionInteraction, selected, not_offered, cancelled_outcome,
  unsupported_outcome, unsupported,
}
use codex_acp_v.Json.{Value}
use codex_acp_v.Interactions.Permission.{add_choices, choice_id, Offer, add_options}
use codex_acp_v.Common.{
  ℕ, Bool, All, List, ◌<◌, arith, nat_eq, [], decimal, decimal_digits, ◌||◌, String, ◌≡◌, suc, ◌∷◌,
  Bool-cases, concat, not, false, inl, all, ◌+◌, length, zero, ◌==◌, some, lookup, all_iff, true,
  ◌≤◌, subst, insert, get_elem?, refl, inr, ◌∙◌, lookup-insert, eq_refl, ok, err, ap, sym,
}

-- The numbers below a bound, and the test that their choice ids differ.
abbrev below : ℕ → List ℕ
below zero = []
below (suc n) = n ∷ below n

abbrev differ : ℕ → ℕ → Bool
differ i j = nat_eq i j || not (choice_id i == choice_id j)

distinct_numerals : all (λ i. all (differ i) (below 33)) (below 33) ≡ true
unfolding choice_id decimal decimal_digits concat
distinct_numerals = refl

All-below : (P : ℕ → Type 0) (n i : ℕ) → All P (below n) → i < n → P i
All-below P zero i h lt = absurd (ground arith)
All-below P (suc n) i h lt = elim (Bool-cases (nat_eq n i)) [
  | inl same ↦ let equal : n ≡ i = ground arith in subst P equal h.0
  | inr other ↦ All-below P n i h.1 (ground arith)
]

-- At most 32 decisions are offered, so their ids are distinct.
choice_id-distinct :
    (i j : ℕ) → i < 33 → j < 33 → nat_eq i j ≡ false → (choice_id i == choice_id j) ≡ false
choice_id-distinct i j hi hj other =
    let row =
      All-below (λ i. all (differ i) (below 33) ≡ true) 33 i
        ((all_iff (λ i. all (differ i) (below 33)) (below 33)).0 distinct_numerals) hi in
    let entry =
      All-below (λ j. differ i j ≡ true) 33 j ((all_iff (differ i) (below 33)).0 row) hj in
    ground (arith, entry)

-- Choices added later leave the entry of an id that they do not use.
add_choices-older :
    (n : ℕ) (offers : List Offer) (choices : List (String × Value)) (key : String)
    → ((j : ℕ) → j < length offers → (choice_id (n + j) == key) ≡ false)
    → lookup (add_choices n offers choices) key ≡ lookup choices key
unfolding add_choices
add_choices-older n [] choices key h = refl
add_choices-older n (o ∷ offers) choices key h =
    let start : n + 0 ≡ n = omega arith in
    let first : (choice_id n == key) ≡ false =
      subst (λ m. (choice_id m == key) ≡ false) start (h 0 (ground arith)) in
    let later : (j : ℕ) → j < length offers → (choice_id (n + 1 + j) == key) ≡ false = λ j lt.
      let shift : n + suc j ≡ n + 1 + j = omega arith in
      subst (λ m. (choice_id m == key) ≡ false) shift (h (suc j) (ground arith)) in
    add_choices-older (n + 1) offers (insert choices (choice_id n) o.response) key later
    ∙ lookup-insert choices (choice_id n) key o.response
    ∙ rw first

add_choices-at :
    (n : ℕ) (offers : List Offer) (choices : List (String × Value)) (i : ℕ) (offer : Offer)
    → n + length offers ≤ 33
    → get_elem? offers i ≡ some offer
    → lookup (add_choices n offers choices) (choice_id (n + i)) ≡ some offer.response
unfolding add_choices
add_choices-at n [] choices i offer bound h = absurd (ground arith)
add_choices-at n (o ∷ offers) choices zero offer bound h =
    let start : n ≡ n + 0 = omega arith in
    let apart : (j : ℕ) → j < length offers → (choice_id (n + 1 + j) == choice_id n) ≡ false =
      λ j lt. choice_id-distinct (n + 1 + j) n (ground arith) (ground arith) (ground arith) in
    let now =
      add_choices-older (n + 1) offers (insert choices (choice_id n) o.response) (choice_id n) apart
      ∙ lookup-insert choices (choice_id n) (choice_id n) o.response in
    subst
      (λ m.
        lookup (add_choices (n + 1) offers (insert choices (choice_id n) o.response)) (choice_id m)
        ≡ some offer.response)
      start (now ∙ ground (arith, eq_refl (choice_id n)))
add_choices-at n (o ∷ offers) choices (suc i) offer bound h =
    let shift : n + 1 + i ≡ n + suc i = omega arith in
    let later =
      add_choices-at (n + 1) offers (insert choices (choice_id n) o.response) i offer (ground arith)
        h in
    subst
      (λ m.
        lookup (add_choices (n + 1) offers (insert choices (choice_id n) o.response)) (choice_id m)
        ≡ some offer.response)
      shift later

add_options-at :
    (n : ℕ) (offers : List Offer) (i : ℕ) (offer : Offer)
    → get_elem? offers i ≡ some offer
    → get_elem? (add_options n offers) i
      ≡ some (record { id = choice_id (n + i); name = offer.name; kind = offer.kind })
unfolding add_options
add_options-at n [] i offer h = absurd (ground arith)
add_options-at n (o ∷ offers) zero offer h =
    let start : n ≡ n + 0 = omega arith in
    let same : o ≡ offer = ground arith in
    rw (sym same) (ap (λ m. some (record { id = choice_id m; name = o.name; kind = o.kind })) start)
add_options-at n (o ∷ offers) (suc i) offer h =
    let shift : n + 1 + i ≡ n + suc i = omega arith in
    add_options-at (n + 1) offers i offer h
    ∙ ap (λ m. some (record { id = choice_id m; name = offer.name; kind = offer.kind })) shift

length-add_options : (n : ℕ) (offers : List Offer) → length (add_options n offers) ≡ length offers
unfolding add_options
length-add_options n [] = refl
length-add_options n (o ∷ offers) = ap suc (length-add_options (n + 1) offers)

-- An option is shown for each offer, with its name and kind, and for nothing else. The resolver gives
-- the response of the offer for the id of its option, the cancelled response for a cancelled request,
-- and nothing for any other answer.
unfoldable pub ResolvesOffers : List Offer → Value → PermissionInteraction → Type 0
ResolvesOffers offers cancelled i =
    (length i.request.options ≡ length offers)
    × ((k : ℕ) (offer : Offer)
        → get_elem? offers k ≡ some offer
        → (get_elem? i.request.options k
            ≡ some (record { id = choice_id k; name = offer.name; kind = offer.kind }))
          × (resolve i.resolver (selected (choice_id k)) ≡ ok offer.response))
    × ((id : String)
        → ((k : ℕ) → k < length offers → (choice_id k == id) ≡ false)
        → resolve i.resolver (selected id) ≡ err not_offered)
    × (resolve i.resolver cancelled_outcome ≡ ok cancelled)
    × (resolve i.resolver unsupported ≡ err unsupported_outcome)

pub add_choices-ResolvesOffers :
    (request : PermissionRequest) (offers : List Offer) (cancelled : Value)
    → request.options ≡ add_options 0 offers
    → length offers ≤ 32
    → ResolvesOffers offers cancelled (record {
      request = request;
      resolver = record { choices = add_choices 0 offers []; cancelled = cancelled };
    })
unfolding ResolvesOffers resolve lookup
add_choices-ResolvesOffers request offers cancelled listed few = (
  ap length listed ∙ length-add_options 0 offers,
  (λ k offer at_k.
      let start : 0 + k ≡ k = omega arith in
      (
        ap (λ os. get_elem? os k) listed
            ∙ add_options-at 0 offers k offer at_k
            ∙ ap (λ m. some (record { id = choice_id m; name = offer.name; kind = offer.kind }))
                start,
        rw (
            subst (λ m. lookup (add_choices 0 offers []) (choice_id m) ≡ some offer.response) start
              (add_choices-at 0 offers [] k offer (ground arith) at_k)),
      )),
  (λ id unknown.
      let absent : (k : ℕ) → k < length offers → (choice_id (0 + k) == id) ≡ false = λ k lt.
        let start : k ≡ 0 + k = omega arith in
        subst (λ m. (choice_id m == id) ≡ false) start (unknown k lt) in
      rw (add_choices-older 0 offers [] id absent)),
  refl,
  refl,
)
