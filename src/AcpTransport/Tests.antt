-- ===== src/AcpTransport/Tests.antt =====
-- src/acp_transport.rs: runs of the reader on a few buffers.
use codex_acp_v.AcpTransport.RoundTrip.{IsLine, ends_in_return, sent, incoming-sent}
use codex_acp_v.AcpTransport.Chunks.{IsFilled, ReadsLine, gather-ReadsLine}
use codex_acp_v.AcpTransport.{
  incoming, strip_return, bounded_line, gather, carriage_return, consume, newline, outgoing,
  frame_exceeded,
}
use codex_acp_v.Common.{
  ℕ, List, Option, ◌∷◌, [], String, ◌≡◌, if◌then◌else◌, err, refl, ltb, ok, arith, length, some,
}

-- "AB", a newline and "C", cut in the middle of the first line.
abbrev buffers : List (List ℕ)
buffers = (65 ∷ []) ∷ (66 ∷ newline ∷ 67 ∷ []) ∷ []

abbrev decode : List ℕ → Option String
decode bytes = if ltb (length bytes) 2 then some "one" else some "many"

cut_lines : incoming decode 2 5 buffers ≡ ok ("many" ∷ "one" ∷ [])
unfolding incoming bounded_line gather consume strip_return
cut_lines = refl

-- The limit counts the bytes before the newline, over all buffers of the line.
exceeded : incoming decode 1 5 buffers ≡ err frame_exceeded
unfolding incoming bounded_line gather consume strip_return
exceeded = refl

-- The end of the input ends a line, and an empty line is a line.
unterminated : incoming decode 9 5 ((newline ∷ 65 ∷ []) ∷ []) ≡ ok ("one" ∷ "one" ∷ [])
unfolding incoming bounded_line gather consume strip_return
unterminated = refl

returns : strip_return (65 ∷ carriage_return ∷ []) ≡ 65 ∷ []
unfolding strip_return
returns = refl

gather-ReadsLine_example : ReadsLine 2 [] (65 ∷ 66 ∷ newline ∷ 67 ∷ []) (gather 2 [] buffers)
unfolding IsFilled
gather-ReadsLine_example =
    gather-ReadsLine 2 [] buffers (ground arith) (refl, (refl, tt)) (ground arith)

incoming-sent_example :
    incoming decode 2 3 ((65 ∷ []) ∷ (66 ∷ newline ∷ 67 ∷ newline ∷ []) ∷ [])
    ≡ ok ("many" ∷ "one" ∷ [])
unfolding IsFilled IsLine ends_in_return sent outgoing
incoming-sent_example =
    incoming-sent decode 2 (ground arith) ((65 ∷ 66 ∷ []) ∷ (67 ∷ []) ∷ []) ("many" ∷ "one" ∷ [])
      (65 ∷ 66 ∷ newline ∷ 67 ∷ newline ∷ []) ((65 ∷ []) ∷ (66 ∷ newline ∷ 67 ∷ newline ∷ []) ∷ [])
      3 refl refl (refl, (refl, tt)) ((refl, refl), ((refl, refl), tt)) refl (ground arith)
