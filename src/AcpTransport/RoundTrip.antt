-- ===== src/AcpTransport/RoundTrip.antt =====
-- src/acp_transport.rs: the lines that the sink writes are the lines that the reader gives.
use codex_acp_v.AcpTransport.Chunks.{
  ReadsLine, line_of, after_line, IsFilled, gather-ReadsLine, is_empty-append, line_of-unbroken,
}
use codex_acp_v.AcpTransport.{
  strip_return, LineError, newline, carriage_return, outgoing, incoming, bounded_line, gather,
}
use codex_acp_v.Common.{
  ℕ, List, Bool, ◌≡◌, Result, position, nat_eq, false, ◌∷◌, Option, ok, none, ◌>>=◌, ap, [], refl,
  length, err, ◌++◌, arith, ◌≤◌, some, flatten, All, String, ◌<◌, ◌^◌, ◌-◌, map, suc,
  >>=-ok_inversion, zero, ◌∙◌, append-nil, sym, ok_injective, append_assoc,
}

-- What the sink writes for lines, one after the other.
unfoldable pub sent : ℕ → List (List ℕ) → Result LineError (List ℕ)
sent limit [] = ok []
sent limit (line ∷ lines) = do
  frame ← outgoing limit line
  frames ← sent limit lines
  ok (frame ++ frames)

unfoldable pub ends_in_return : List ℕ → Bool
ends_in_return [] = false
ends_in_return (b ∷ []) = nat_eq b carriage_return
ends_in_return (b ∷ c ∷ rest) = ends_in_return (c ∷ rest)

-- A line holds no newline, and its end cannot be taken for part of one.
unfoldable pub IsLine : List ℕ → Type 0
IsLine line = (position (nat_eq newline) line ≡ none) × (ends_in_return line ≡ false)

strip_return-line : (line : List ℕ) → ends_in_return line ≡ false → strip_return line ≡ line
unfolding strip_return ends_in_return
strip_return-line [] h = refl
strip_return-line (b ∷ []) h = rw h
strip_return-line (b ∷ c ∷ rest) h = ap (λ r. b ∷ r) (strip_return-line (c ∷ rest) h)

line_of-frame :
    (line t : List ℕ)
    → position (nat_eq newline) line ≡ none
    → (line_of (line ++ newline ∷ t) ≡ line) × (after_line (line ++ newline ∷ t) ≡ t)
unfolding line_of after_line
line_of-frame line t unbroken =
    let (this, next) = line_of-unbroken line (newline ∷ t) unbroken in
    (this ∙ append-nil line, next)

module _ (limit : ℕ) (stream : List ℕ) where
  read_end :
      (result : Result LineError (Option (List ℕ × List (List ℕ))))
      → stream ≡ []
      → ReadsLine limit [] stream result
      → result ≡ ok none
  unfolding ReadsLine line_of
  read_end (err e) empty h = absurd (ground (arith, h.1, rw empty at h))
  read_end (ok none) empty h = refl
  read_end (ok (some (line, rest))) empty h = absurd (ground arith)

  read_sent :
      (line t : List ℕ) (result : Result LineError (Option (List ℕ × List (List ℕ))))
      → position (nat_eq newline) line ≡ none
      → length line ≤ limit
      → stream ≡ line ++ newline ∷ t
      → ReadsLine limit [] stream result
      → (rest : List (List ℕ)) × (result ≡ ok (some (line, rest)))
        × (flatten rest ≡ t)
        × All IsFilled rest
  unfolding ReadsLine line_of after_line
  read_sent line t (err e) unbroken fits whole h =
      absurd (ground (arith, rw (whole, (line_of-frame line t unbroken).0) at h.1))
  read_sent line t (ok none) unbroken fits whole h =
      absurd (ground (arith, is_empty-append line (newline ∷ t)))
  read_sent line t (ok (some (got, rest))) unbroken fits whole h =
      let (this, next) = line_of-frame line t unbroken in
      let same : got ≡ line = h.0 ∙ ap line_of whole ∙ this in
      (rest, ap (λ l. ok (some (l, rest))) same, h.1 ∙ ap after_line whole ∙ next, h.2)

outgoing-ok :
    (limit : ℕ) (line frame : List ℕ)
    → outgoing limit line ≡ ok frame
    → (length line ≤ limit) × (frame ≡ line ++ newline ∷ [])
unfolding outgoing
outgoing-ok limit line frame h = ground arith

sent-cons :
    (limit : ℕ) (line : List ℕ) (lines : List (List ℕ)) (bytes : List ℕ)
    → sent limit (line ∷ lines) ≡ ok bytes
    → (frames : List ℕ) × (sent limit lines ≡ ok frames)
      × (length line ≤ limit)
      × (bytes ≡ line ++ newline ∷ frames)
unfolding sent
sent-cons limit line lines bytes h =
    let (frame, out, h') = >>=-ok_inversion (outgoing limit line) _ h in
    let (frames, more, h'') = >>=-ok_inversion (sent limit lines) _ h' in
    let (fits, framed) = outgoing-ok limit line frame out in
    let joined : bytes ≡ frame ++ frames = sym (ok_injective h'') in
    (
      frames,
      more,
      fits,
      joined ∙ ap (λ f. f ++ frames) framed ∙ append_assoc line (newline ∷ []) frames,
    )

module _ (from_utf8 : List ℕ → Option String) (limit : ℕ) (small : limit < 2 ^ 64 - 1) where
  incoming-end :
      (reader : List (List ℕ)) (fuel : ℕ)
      → gather limit [] reader ≡ ok none
      → incoming from_utf8 limit (suc fuel) reader ≡ ok []
  unfolding incoming bounded_line
  incoming-end reader fuel ended = rw (incoming, bounded_line, ended)

  incoming-next :
      (reader rest : List (List ℕ)) (fuel : ℕ) (line : List ℕ) (text : String) (texts : List String)
      → gather limit [] reader ≡ ok (some (line, rest))
      → from_utf8 (strip_return line) ≡ some text
      → incoming from_utf8 limit fuel rest ≡ ok texts
      → incoming from_utf8 limit (suc fuel) reader ≡ ok (text ∷ texts)
  unfolding incoming bounded_line
  incoming-next reader rest fuel line text texts got decoded later =
      rw (incoming, bounded_line, got, decoded, later)

  -- Lines that the sink has written are read back, however the pipe cuts their bytes, if no line
  -- holds a newline or ends in a carriage return and each is the UTF-8 of a text. The buffers hold a
  -- byte each at least, and the limit is below the largest usize.
  pub incoming-sent :
      (lines : List (List ℕ)) (texts : List String) (bytes : List ℕ) (reader : List (List ℕ))
      (fuel : ℕ)
      → sent limit lines ≡ ok bytes
      → flatten reader ≡ bytes
      → All IsFilled reader
      → All IsLine lines
      → map from_utf8 lines ≡ map some texts
      → length lines < fuel
      → incoming from_utf8 limit fuel reader ≡ ok texts
  unfolding incoming bounded_line sent IsLine
  incoming-sent lines texts bytes reader zero h whole filled plain decoded enough =
      absurd (ground arith)
  incoming-sent [] [] bytes reader (suc fuel) h whole filled plain decoded enough =
      let answer = gather-ReadsLine limit [] reader small filled (ground arith) in
      let empty : [] ≡ bytes = ok_injective h in
      incoming-end reader fuel (read_end limit (flatten reader) _ (whole ∙ sym empty) answer)
  incoming-sent [] (text ∷ texts) bytes reader (suc fuel) h whole filled plain decoded enough =
      absurd (ground arith)
  incoming-sent (line ∷ lines) [] bytes reader (suc fuel) h whole filled plain decoded enough =
      absurd (ground arith)
  incoming-sent (line ∷ lines) (text ∷ texts) bytes reader (suc fuel) h whole filled plain decoded
        enough =
      let (frames, more, fits, joined) = sent-cons limit line lines bytes h in
      let answer = gather-ReadsLine limit [] reader small filled (ground arith) in
      let (rest, got, left, still) =
        read_sent limit (flatten reader) line frames _ plain.0.0 fits (whole ∙ joined) answer in
      let here : from_utf8 line ≡ some text = cc decoded in
      let behind : map from_utf8 lines ≡ map some texts = cc decoded in
      let later =
        incoming-sent lines texts frames rest fuel more left still plain.1 behind (ground arith) in
      incoming-next reader rest fuel line text texts got
        (ap from_utf8 (strip_return-line line plain.0.1) ∙ here) later
