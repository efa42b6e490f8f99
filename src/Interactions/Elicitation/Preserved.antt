-- ===== src/Interactions/Elicitation/Preserved.antt =====
-- src/interactions/elicitation.rs: what `preserves` says of two documents.
use codex_acp_v.Interactions.Elicitation.{preserves, values_preserved, fields_preserved}
use codex_acp_v.Json.{
  pos_int, neg_int, float, Values, Value, Number, number_eq, bool, Members, number, string, members,
  get, array, as_array, null, elements, object, cons, member, end, nil, is_null,
}
use codex_acp_v.Common.{
  none, some, ℕ, String, List, lookup, Option, some, ◌≡◌, and_then, true, false, get_elem?, arith,
  zero, suc, [], ◌⊎◌, ap, ◌∷◌, sym, eq_iff, refl, Bool, subst, and_iff, Bool-cases, inl, ◌==◌, ◌||◌,
  inr, Option-cases,
}

pub data Key : Type 0 where
  field : String → Key
  index : ℕ → Key

-- The part of a document at the end of a path.
unfoldable pub value_at : List Key → Value → Option Value
value_at [] v = some v
value_at (field name ∷ path) v = and_then (get name v) (value_at path)
value_at (index i ∷ path) v =
    and_then (as_array v) (λ vs. and_then (get_elem? vs i) (value_at path))

-- A part that is no object, no array and not null.
unfoldable pub IsLeaf : Value → Type 0
IsLeaf (bool b) = Unit
IsLeaf (number n) = Unit
IsLeaf (string s) = Unit
IsLeaf null = ⊥
IsLeaf (array vs) = ⊥
IsLeaf (object ms) = ⊥

number_eq_sound : (m n : Number) → number_eq m n ≡ true → n ≡ m
number_eq_sound (pos_int a) (pos_int b) h = ap pos_int (ground arith)
number_eq_sound (neg_int a) (neg_int b) h = ap neg_int (ground arith)
number_eq_sound (float a) (float b) h = ap float (ground arith)
number_eq_sound (pos_int a) (neg_int b) h = absurd (ground arith)
number_eq_sound (pos_int a) (float b) h = absurd (ground arith)
number_eq_sound (neg_int a) (pos_int b) h = absurd (ground arith)
number_eq_sound (neg_int a) (float b) h = absurd (ground arith)
number_eq_sound (float a) (pos_int b) h = absurd (ground arith)
number_eq_sound (float a) (neg_int b) h = absurd (ground arith)

preserves-leaf : (v w : Value) → IsLeaf v → preserves v w ≡ true → w ≡ v
unfolding IsLeaf
preserves-leaf (bool true) (bool true) leaf h = refl
preserves-leaf (bool false) (bool false) leaf h = refl
preserves-leaf (bool true) (bool false) leaf h = absurd (ground arith)
preserves-leaf (bool false) (bool true) leaf h = absurd (ground arith)
preserves-leaf (number m) (number n) leaf h = ap number (number_eq_sound m n h)
preserves-leaf (string s) (string t) leaf h = ap string (sym ((eq_iff s t).0 h))
preserves-leaf null w leaf h = absurd leaf
preserves-leaf (array vs) w leaf h = absurd leaf
preserves-leaf (object ms) w leaf h = absurd leaf
preserves-leaf _ _ leaf h = absurd (ground arith)

abbrev field_preserved : Value → Option Value → Bool
field_preserved v found = is_null v || elim found [ none ↦ false | some w ↦ preserves v w ]

is_null-null : (v : Value) → is_null v ≡ true → v ≡ null
is_null-null null h = refl
is_null-null (bool b) h = absurd (ground arith)
is_null-null (number n) h = absurd (ground arith)
is_null-null (string s) h = absurd (ground arith)
is_null-null (array vs) h = absurd (ground arith)
is_null-null (object ms) h = absurd (ground arith)

field_preserved-cases :
    (v : Value) (found : Option Value)
    → field_preserved v found ≡ true
    → (v ≡ null) ⊎ ((w : Value) × (found ≡ some w) × (preserves v w ≡ true))
field_preserved-cases v found h = elim (Bool-cases (is_null v)) [
  | inl empty ↦ inl (is_null-null v empty)
  | inr given ↦ elim (Option-cases found) [
    | inl absent ↦ absurd (ground arith)
    | inr (w, there) ↦ inr (w, there, rw (given, there) at h)
  ]
]

fields_preserved-get :
    (ms : Members) (name : String) (v projected : Value)
    → fields_preserved ms projected ≡ true
    → lookup (members ms) name ≡ some v
    → (v ≡ null) ⊎ ((w : Value) × (get name projected ≡ some w) × (preserves v w ≡ true))
unfolding lookup
fields_preserved-get end name v projected h found = absurd (ground arith)
fields_preserved-get (member k u rest) name v projected h found =
    let (here, later) =
      (and_iff (field_preserved u (get k projected)) (fields_preserved rest projected)).0 h in
    elim (Bool-cases (k == name)) [
      | inr apart ↦ fields_preserved-get rest name v projected later (ground arith)
      | inl equal ↦
          let same : u ≡ v = ground arith in
          subst
            (λ n. (v ≡ null) ⊎ ((w : Value) × (get n projected ≡ some w) × (preserves v w ≡ true)))
            ((eq_iff k name).0 equal)
            (subst
              (λ e.
                (e ≡ null) ⊎ ((w : Value) × (get k projected ≡ some w) × (preserves e w ≡ true)))
              same (field_preserved-cases u (get k projected) here))
    ]

values_preserved-get :
    (vs : Values) (ws : List Value) (i : ℕ) (v : Value)
    → values_preserved vs ws ≡ true
    → get_elem? (elements vs) i ≡ some v
    → (w : Value) × (get_elem? ws i ≡ some w) × (preserves v w ≡ true)
values_preserved-get nil ws i v h found = absurd (ground arith)
values_preserved-get (cons u us) [] i v h found = absurd (ground arith)
values_preserved-get (cons u us) (x ∷ ws) zero v h found =
    let same : u ≡ v = cc found in
    (
      x,
      refl,
      subst (λ e. preserves e x ≡ true) same
          ((and_iff (preserves u x) (values_preserved us ws)).0 h).0,
    )
values_preserved-get (cons u us) (x ∷ ws) (suc i) v h found =
    values_preserved-get us ws i v ((and_iff (preserves u x) (values_preserved us ws)).0 h).1 found

array_preserved :
    (vs : Values) (ws : List Value) (projected : Value)
    → as_array projected ≡ some ws
    → preserves (array vs) projected ≡ true
    → values_preserved vs ws ≡ true
array_preserved vs ws (array us) there h =
    let same : elements us ≡ ws = cc there in subst (λ e. values_preserved vs e ≡ true) same h
array_preserved vs ws null there h = absurd (ground arith)
array_preserved vs ws (bool b) there h = absurd (ground arith)
array_preserved vs ws (number n) there h = absurd (ground arith)
array_preserved vs ws (string s) there h = absurd (ground arith)
array_preserved vs ws (object ms) there h = absurd (ground arith)

value_at-null : (path : List Key) (leaf : Value) → value_at path null ≡ some leaf → IsLeaf leaf → ⊥
unfolding value_at IsLeaf
value_at-null [] leaf found is_leaf =
    let same : null ≡ leaf = cc found in subst IsLeaf (sym same) is_leaf
value_at-null (field name ∷ path) leaf found is_leaf = ground arith
value_at-null (index i ∷ path) leaf found is_leaf = ground arith

-- Where `preserves` holds, every text, number and truth value of the first document stands
-- unchanged, at the same place, in the second.
pub preserves-value_at :
    (path : List Key) (original projected leaf : Value)
    → preserves original projected ≡ true
    → value_at path original ≡ some leaf
    → IsLeaf leaf
    → value_at path projected ≡ some leaf
unfolding value_at
preserves-value_at [] original projected leaf h found is_leaf =
    let same : original ≡ leaf = cc found in
    ap some
      (preserves-leaf leaf projected is_leaf (subst (λ e. preserves e projected ≡ true) same h))
preserves-value_at (field name ∷ path) (object ms) projected leaf h found is_leaf =
    elim (Option-cases (lookup (members ms) name)) [
      | inl absent ↦ absurd (ground arith)
      | inr (v, hit) ↦
          let inside : value_at path v ≡ some leaf = rw hit at found in
          elim (fields_preserved-get ms name v projected h hit) [
            | inl empty ↦ absurd (value_at-null path leaf (rw empty at inside) is_leaf)
            | inr (w, there, kept) ↦ rw there (preserves-value_at path v w leaf kept inside is_leaf)
          ]
    ]
preserves-value_at (index i ∷ path) (array vs) projected leaf h found is_leaf =
    elim (Option-cases (as_array projected)) [
      | inl absent ↦ absurd (ground arith)
      | inr (ws, there) ↦ elim (Option-cases (get_elem? (elements vs) i)) [
        | inl outside ↦ absurd (ground arith)
        | inr (v, hit) ↦
            let kept_all = array_preserved vs ws projected there h in
            let (w, at_i, kept) = values_preserved-get vs ws i v kept_all hit in
            let inside : value_at path v ≡ some leaf = rw hit at found in
            rw (there, at_i) (preserves-value_at path v w leaf kept inside is_leaf)
      ]
    ]
preserves-value_at (_ ∷ path) _ projected leaf h found is_leaf = absurd (ground arith)
