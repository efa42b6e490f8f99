-- ===== src/Common/Texts.antt =====
-- Texts built from parts, and numbers in decimal, as `format!` builds them.
use Prim.Native.Nat.{ℕ, zero, suc, ◌/◌, ◌%◌}
use codex_acp_v.Common.Tests.{ltb, if◌then◌else◌, unwrap_or}
use codex_acp_v.Common.Lists.{get_elem?}
use Prim.Native.String
use Prim.Native.String.{String, len, slice}
use text.Mathlib.Text.{◌==◌}
use mathlib.Core.Bool.{Bool}
use mathlib.Core.List.{List, [], ◌∷◌}

unfoldable pub concat : List String → String
concat [] = ""
concat (part ∷ rest) = String.◌++◌ part (concat rest)

abbrev digit : ℕ → String
digit n =
    let digits = "0" ∷ "1" ∷ "2" ∷ "3" ∷ "4" ∷ "5" ∷ "6" ∷ "7" ∷ "8" ∷ "9" ∷ [] in
    unwrap_or (get_elem? digits n) ""

unfoldable pub decimal_digits : ℕ → ℕ → String
decimal_digits zero n = ""
decimal_digits (suc fuel) n =
    let front = decimal_digits fuel (n / 10) in
    if ltb n 10 then digit n else String.◌++◌ front (digit (n % 10))

-- A number below 2^64 has at most 20 digits.
unfoldable pub decimal : ℕ → String
decimal n = decimal_digits 20 n

-- `text.starts_with(prefix)`
abbrev pub starts_with : String → String → Bool
starts_with prefix text = slice text 0 (len prefix) == prefix
