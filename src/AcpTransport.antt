-- ===== src/AcpTransport.antt =====
-- src/acp_transport.rs: the lines of the client, read from a buffered reader and cut at a limit.
-- The reader is the list of the buffers that it still has to hand out, none of them empty: at its
-- end it hands out an empty one. Bytes are numbers. `from_utf8` decodes a line.
pub mod Chunks
pub mod RoundTrip
mod Tests
use codex_acp_v.Common.{
  ℕ, String, List, if◌then◌else◌, Option, drop, Result, ◌∷◌, ok, ◌>>=◌, is_empty, ltb, nat_eq, zero,
  [], suc, err, length, none, some, position, ◌++◌, or_fail, unwrap_or, take, saturate, ◌+◌,
  is_some,
}

pub data LineError : Type 0 where
  frame_exceeded : LineError
  not_utf8 : LineError

abbrev pub newline : ℕ
newline = 10

abbrev pub carriage_return : ℕ
carriage_return = 13

-- `consume`: what is left of the first buffer comes first.
unfoldable pub consume : ℕ → List ℕ → List (List ℕ) → List (List ℕ)
consume n buffer rest = elim (drop n buffer) [ [] ↦ rest | b ∷ bs ↦ (b ∷ bs) ∷ rest ]

-- The loop. The result is `none` at the end of the input, and else the line with what follows it.
unfoldable pub gather :
    ℕ → List ℕ → List (List ℕ) → Result LineError (Option (List ℕ × List (List ℕ)))
gather limit bytes [] = if is_empty bytes then ok none else ok (some (bytes, []))
gather limit bytes (available ∷ rest) =
    let found = position (nat_eq newline) available in
    let content_count = unwrap_or found (length available) in
    let longer = bytes ++ take content_count available in
    let more = gather limit longer rest in
    if ltb limit (saturate (length bytes + content_count))
    then err frame_exceeded
    else if is_some found
    then ok (some (longer, consume (content_count + 1) available rest))
    else more

unfoldable pub strip_return : List ℕ → List ℕ
strip_return [] = []
strip_return (b ∷ []) = if nat_eq b carriage_return then [] else b ∷ []
strip_return (b ∷ c ∷ rest) = b ∷ strip_return (c ∷ rest)

module _ (from_utf8 : List ℕ → Option String) where
  unfoldable pub bounded_line :
      ℕ → List (List ℕ) → Result LineError (Option (String × List (List ℕ)))
  bounded_line limit reader = do
    line ← gather limit [] reader
    elim line [
      | none ↦ ok none
      | some (bytes, rest) ↦ do
        text ← or_fail (from_utf8 (strip_return bytes)) not_utf8
        ok (some (text, rest))
    ]

  -- `try_unfold`: the lines until the end of the input or an error, at most `fuel` of them.
  unfoldable pub incoming : ℕ → ℕ → List (List ℕ) → Result LineError (List String)
  incoming limit zero reader = ok []
  incoming limit (suc fuel) reader = elim (bounded_line limit reader) [
    | err e ↦ err e
    | ok none ↦ ok []
    | ok (some (text, rest)) ↦ do texts ← incoming limit fuel rest; ok (text ∷ texts)
  ]

-- What the sink writes for a line of bytes.
unfoldable pub outgoing : ℕ → List ℕ → Result LineError (List ℕ)
outgoing limit line =
    if ltb limit (length line) then err frame_exceeded else ok (line ++ newline ∷ [])
