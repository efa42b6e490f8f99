-- ===== src/Config/Metadata.antt =====
-- src/config.rs, `metadata` and `turn_parameters`: what a client may put under `_meta.codex`.
pub mod Negotiated
use codex_acp_v.Config.{
  ConfigError, unsupported_override, not_negotiated, codex_not_object, section_not_object,
  unsupported_section,
}
use codex_acp_v.Json.{Value, as_object}
use codex_acp_v.Common.{
  List, Option, String, ◌∷◌, [], Result, Bool, lookup, ok, ◌>>=◌, and_then, ◌>>◌, ensure, contains,
  keys, none, some, or_fail, ◌==◌,
}

-- The first key that is not allowed is an error.
unfoldable pub check_keys :
    (String → ConfigError) → (String → Bool) → List String → Result ConfigError (Unit {0})
check_keys failure allowed [] = ok tt
check_keys failure allowed (key ∷ rest) = do
  ensure (allowed key) (failure key)
  check_keys failure allowed rest

unfoldable pub section_of :
    List (String × Value) → String → Result ConfigError (List (String × Value))
section_of codex section = elim (lookup codex section) [
  | none ↦ ok []
  | some value ↦ or_fail (as_object value) section_not_object
]

unfoldable pub metadata :
    Option (List (String × Value)) → String → Bool → Result ConfigError (List (String × Value))
metadata meta section negotiated = elim (and_then meta (λ entries. lookup entries "codex")) [
  | none ↦ ok []
  | some codex ↦ do
    ensure negotiated not_negotiated
    object ← or_fail (as_object codex) codex_not_object
    check_keys unsupported_section (λ key. key == section) (keys object)
    section_of object section
]

abbrev pub turn_keys : List String
turn_keys =
    "outputSchema" ∷ "serviceTierForTurn" ∷ "additionalContext" ∷ "turnTrigger"
    ∷ "cyberAccessProgram" ∷ []

unfoldable pub turn_parameters :
    Option (List (String × Value)) → Bool → Result ConfigError (List (String × Value))
turn_parameters meta negotiated = do
  extra ← metadata meta "turn" negotiated
  check_keys unsupported_override (contains turn_keys) (keys extra)
  ok extra
