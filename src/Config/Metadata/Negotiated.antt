-- ===== src/Config/Metadata/Negotiated.antt =====
-- src/config.rs: which metadata is accepted.
use codex_acp_v.Config.{
  ConfigError, unsupported_override, not_negotiated, codex_not_object, unsupported_section,
}
use codex_acp_v.Json.{Value, as_object}
use codex_acp_v.Config.Metadata.{metadata, check_keys, turn_parameters, turn_keys, section_of}
use codex_acp_v.Common.{
  Option, String, List, Bool, and_then, ◌≡◌, lookup, true, ok, none, All, Option-cases, ◌∷◌, inl,
  some, [], Has, >>=-ok_inversion, sym, ◌==◌, ok_injective, keys, ensure, inr, ensure-ok, contains,
  or_fail, or_fail-ok,
}

pub check_keys-ok :
    (failure : String → ConfigError) (allowed : String → Bool) (names : List String)
    → check_keys failure allowed names ≡ ok tt
    → All (λ key. allowed key ≡ true) names
unfolding check_keys
check_keys-ok failure allowed [] h = tt
check_keys-ok failure allowed (key ∷ rest) h =
    let (done, first, later) = >>=-ok_inversion (ensure (allowed key) (failure key)) _ h in
    (ensure-ok (allowed key) (failure key) done first, check_keys-ok failure allowed rest later)

-- The section is the only member of a negotiated `codex` object, and its own object or absent.
pub record IsSection (codex : Value) (section : String) (negotiated : Bool)
    (found : List (String × Value)) : Type 0 where
  pub agreed : negotiated ≡ true
  pub entries : List (String × Value)
  pub is_entries : as_object codex ≡ some entries
  pub alone : All (λ key. (key == section) ≡ true) (keys entries)
  pub is_found : section_of entries section ≡ ok found

abbrev pub IsMetadata :
    Option (List (String × Value)) → String → Bool → List (String × Value) → Type 0
IsMetadata meta section negotiated found =
    elim (and_then meta (λ entries. lookup entries "codex")) [
      | none ↦ found ≡ []
      | some codex ↦ IsSection codex section negotiated found
    ]

pub metadata-IsMetadata :
    (meta : Option (List (String × Value))) (section : String) (negotiated : Bool)
    (found : List (String × Value))
    → metadata meta section negotiated ≡ ok found
    → IsMetadata meta section negotiated found
unfolding metadata
metadata-IsMetadata meta section negotiated found h =
    elim (Option-cases (and_then meta (λ entries. lookup entries "codex"))) [
      | inl e ↦ rw (e, IsMetadata) (sym (ok_injective (rw (e, metadata) at h)))
      | inr (codex, e) ↦
          rw (e, IsMetadata)
            (let (done, first, next) =
                >>=-ok_inversion (ensure negotiated not_negotiated) _ (rw (e, metadata) at h) in
              let (entries, second, next') =
                >>=-ok_inversion (or_fail (as_object codex) codex_not_object) _ next in
              let (done', third, last) =
                >>=-ok_inversion
                  (check_keys unsupported_section (λ key. key == section) (keys entries)) _ next' in
              record {
                agreed = ensure-ok negotiated not_negotiated done first;
                entries = entries;
                is_entries = or_fail-ok (as_object codex) codex_not_object entries second;
                alone = check_keys-ok unsupported_section _ (keys entries) third;
                is_found = last;
              })
    ]

-- Turn parameters that are accepted are the `turn` section of metadata that was negotiated, or none
-- at all, and hold supported keys only.
pub turn_parameters-IsMetadata :
    (meta : Option (List (String × Value))) (negotiated : Bool) (extra : List (String × Value))
    → turn_parameters meta negotiated ≡ ok extra
    → IsMetadata meta "turn" negotiated extra × All (Has turn_keys) (keys extra)
unfolding turn_parameters
turn_parameters-IsMetadata meta negotiated extra h =
    let (found, first, next) = >>=-ok_inversion (metadata meta "turn" negotiated) _ h in
    let (done, second, last) =
      >>=-ok_inversion (check_keys unsupported_override (contains turn_keys) (keys found)) _ next in
    let same = ok_injective last in
    (
      metadata-IsMetadata meta "turn" negotiated extra (rw same at first),
      check_keys-ok unsupported_override (contains turn_keys) (keys extra) (rw same at second),
    )
