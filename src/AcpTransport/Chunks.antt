-- ===== src/AcpTransport/Chunks.antt =====
-- src/acp_transport.rs: a line is the bytes up to a newline, however the reader cuts them.
use codex_acp_v.AcpTransport.{LineError, newline, frame_exceeded, consume, gather}
use codex_acp_v.Common.{
  ℕ, List, is_empty, position, Result, ◌∷◌, ◌≡◌, nat_eq, if◌then◌else◌, false, Option, none, [],
  err, some, ok, ◌++◌, refl, ◌<◌, take, drop, length, ◌+◌, flatten, All, ◌≤◌, Option-cases, arith,
  suc, zero, ◌^◌, ap, ◌-◌, ltb, saturate, unwrap_or, true, length-append, ◌&&◌, sym, ◌∙◌,
  append-nil, append_assoc, inl, Bool-cases, inr,
}

-- The first line of a stream of bytes, and what follows its newline.
unfoldable pub line_of : List ℕ → List ℕ
line_of [] = []
line_of (b ∷ bs) = if nat_eq newline b then [] else b ∷ line_of bs

unfoldable pub after_line : List ℕ → List ℕ
after_line [] = []
after_line (b ∷ bs) = if nat_eq newline b then bs else after_line bs

unfoldable pub IsFilled : List ℕ → Type 0
IsFilled buffer = is_empty buffer ≡ false

-- What the loop may answer when it has `bytes` of a line and the reader still holds `stream`.
unfoldable pub ReadsLine :
    ℕ → List ℕ → List ℕ → Result LineError (Option (List ℕ × List (List ℕ))) → Type 0
ReadsLine limit bytes stream (err e) =
    (e ≡ frame_exceeded) × (limit < length bytes + length (line_of stream))
ReadsLine limit bytes stream (ok none) = (bytes ≡ []) × (stream ≡ [])
ReadsLine limit bytes stream (ok (some (line, rest))) =
    (line ≡ bytes ++ line_of stream)
    × (flatten rest ≡ after_line stream)
    × All IsFilled rest
    × (is_empty (bytes ++ stream) ≡ false)
    × (length line ≤ limit)

pub line_of-unbroken :
    (a t : List ℕ)
    → position (nat_eq newline) a ≡ none
    → (line_of (a ++ t) ≡ a ++ line_of t) × (after_line (a ++ t) ≡ after_line t)
unfolding line_of after_line
line_of-unbroken [] t h = (refl, refl)
line_of-unbroken (b ∷ bs) t h =
    let ih = line_of-unbroken bs t in
    let cases = Option-cases (position (nat_eq newline) bs) in (ground arith, ground arith)

line_of-broken :
    (a t : List ℕ) (i : ℕ)
    → position (nat_eq newline) a ≡ some i
    → (line_of (a ++ t) ≡ take i a)
      × (after_line (a ++ t) ≡ drop (i + 1) a ++ t)
      × (length (take i a) ≡ i)
unfolding line_of after_line
line_of-broken [] t i h = cc h
line_of-broken (b ∷ bs) t zero h = (ground arith, ground arith, refl)
line_of-broken (b ∷ bs) t (suc i) h =
    let ih = line_of-broken bs t i in
    let cases = Option-cases (position (nat_eq newline) bs) in
    (ground arith, ground arith, ground arith)

take-length : (a : List ℕ) → take (length a) a ≡ a
take-length [] = refl
take-length (b ∷ bs) = ap (λ r. b ∷ r) (take-length bs)

saturate_small : (limit n : ℕ) → limit < 2 ^ 64 - 1 → (ltb limit (saturate n) ≡ ltb limit n)
saturate_small limit n h = ground arith

module _ (limit : ℕ) (bytes a : List ℕ) (rest : List (List ℕ)) (small : limit < 2 ^ 64 - 1) where
  gather-exceeded :
      (n : ℕ)
      → unwrap_or (position (nat_eq newline) a) (length a) ≡ n
      → ltb limit (length bytes + n) ≡ true
      → gather limit bytes (a ∷ rest) ≡ err frame_exceeded
  unfolding gather
  gather-exceeded n e h = rw (e, saturate_small limit (length bytes + n) small, h)

  gather-unbroken :
      position (nat_eq newline) a ≡ none
      → ltb limit (length bytes + length a) ≡ false
      → gather limit bytes (a ∷ rest) ≡ gather limit (bytes ++ a) rest
  unfolding gather
  gather-unbroken e h =
      rw (e, saturate_small limit (length bytes + length a) small, h, take-length a)

  gather-broken :
      (i : ℕ)
      → position (nat_eq newline) a ≡ some i
      → ltb limit (length bytes + i) ≡ false
      → gather limit bytes (a ∷ rest) ≡ ok (some (bytes ++ take i a, consume (i + 1) a rest))
  unfolding gather
  gather-broken i e h = rw (e, saturate_small limit (length bytes + i) small, h)

consume-flatten :
    (n : ℕ) (a : List ℕ) (rest : List (List ℕ))
    → All IsFilled rest
    → (flatten (consume n a rest) ≡ drop n a ++ flatten rest) × All IsFilled (consume n a rest)
unfolding consume IsFilled
consume-flatten n a rest h =
    elim (drop n a)
      as (λ d.
        (flatten (elim d as (λ x. List (List ℕ)) [ [] ↦ rest | b ∷ bs ↦ (b ∷ bs) ∷ rest ])
          ≡ d ++ flatten rest)
        × All IsFilled (elim d as (λ x. List (List ℕ)) [ [] ↦ rest | b ∷ bs ↦ (b ∷ bs) ∷ rest ])) [
          | [] ↦ (refl, h)
          | b ∷ bs ↦ (refl, (refl, h))
        ]

pub is_empty-append : (xs ys : List ℕ) → is_empty (xs ++ ys) ≡ (is_empty xs && is_empty ys)
is_empty-append [] ys = refl
is_empty-append (x ∷ xs) ys = refl

-- What is read with more bytes gathered is read with the same bytes still in the stream.
ReadsLine-shift :
    (limit : ℕ) (bytes a t : List ℕ) (result : Result LineError (Option (List ℕ × List (List ℕ))))
    → position (nat_eq newline) a ≡ none
    → is_empty a ≡ false
    → ReadsLine limit (bytes ++ a) t result
    → ReadsLine limit bytes (a ++ t) result
unfolding ReadsLine
ReadsLine-shift limit bytes a t (err e) absent filled h =
    let same = line_of-unbroken a t absent in
    (h.0, rw (same.0, length-append a (line_of t)) (omega (arith, h.1, length-append bytes a)))
ReadsLine-shift limit bytes a t (ok none) absent filled h =
    let none_left = is_empty-append bytes a in absurd (ground arith)
ReadsLine-shift limit bytes a t (ok (some (line, rest))) absent filled h =
    let (unbroken, after) = line_of-unbroken a t absent in
    (
      rw unbroken (h.0 ∙ append_assoc bytes a (line_of t)),
      h.1 ∙ sym after,
      h.2,
      rw (← (append_assoc bytes a t)) h.3,
      h.4,
    )

-- What the two lemmas above say of a line that ends, and of one that goes on, in a buffer.
ReadsLine-over :
    (limit : ℕ) (bytes stream : List ℕ) (n : ℕ)
    → n ≤ length (line_of stream)
    → ltb limit (length bytes + n) ≡ true
    → ReadsLine limit bytes stream (err frame_exceeded)
unfolding ReadsLine
ReadsLine-over limit bytes stream n more over = (refl, ground arith)

line_of-unbroken-le :
    (a t : List ℕ) → position (nat_eq newline) a ≡ none → length a ≤ length (line_of (a ++ t))
line_of-unbroken-le a t absent =
    rw (line_of-unbroken a t absent).0 (omega (arith, length-append a (line_of t)))

-- The loop reads the first line of the bytes that the reader holds, whatever buffers hold them: it
-- fails exactly when the line, without its newline, is longer than the limit, ends exactly when no
-- byte is left, and leaves the reader right behind the newline. The buffers hold a byte each at
-- least, the limit is below the largest usize, and what was gathered before is within it.
pub gather-ReadsLine :
    (limit : ℕ) (bytes : List ℕ) (reader : List (List ℕ))
    → limit < 2 ^ 64 - 1
    → All IsFilled reader
    → length bytes ≤ limit
    → ReadsLine limit bytes (flatten reader) (gather limit bytes reader)
unfolding gather ReadsLine line_of after_line IsFilled
gather-ReadsLine limit [] [] small filled within = (refl, refl)
gather-ReadsLine limit (b ∷ bs) [] small filled within =
    (sym (append-nil (b ∷ bs)), refl, tt, refl, within)
gather-ReadsLine limit bytes (a ∷ rest) small (here, filled) within =
    elim (Option-cases (position (nat_eq newline) a)) [
      | inl absent ↦ elim (Bool-cases (ltb limit (length bytes + length a))) [
        | inl over ↦ rw (gather-exceeded limit bytes a rest small (length a) (rw absent) over) (
            ReadsLine-over limit bytes (a ++ flatten rest) (length a)
              (line_of-unbroken-le a (flatten rest) absent) over)
        | inr under ↦ rw (gather-unbroken limit bytes a rest small absent under) (
            ReadsLine-shift limit bytes a (flatten rest) _ absent here (
              gather-ReadsLine limit (bytes ++ a) rest small filled
                (rw (length-append bytes a) (ground arith))))
      ]
      | inr (i, found) ↦ elim (Bool-cases (ltb limit (length bytes + i))) [
        | inl over ↦ rw (gather-exceeded limit bytes a rest small i (rw found) over) (
            ReadsLine-over limit bytes (a ++ flatten rest) i
              (omega (
                arith,
                ap length (line_of-broken a (flatten rest) i found).0,
                (line_of-broken a (flatten rest) i found).2,
              ))
              over)
        | inr under ↦ rw (gather-broken limit bytes a rest small i found under) (
            let (line, after, long) = line_of-broken a (flatten rest) i found in
            let (left, still) = consume-flatten (i + 1) a rest filled in
            (
              ap (λ r. bytes ++ r) (sym line),
              left ∙ sym after,
              still,
              rw (is_empty-append bytes (a ++ flatten rest), is_empty-append a (flatten rest))
                  (ground arith),
              rw (length-append bytes (take i a)) (ground arith),
            ))
      ]
    ]
