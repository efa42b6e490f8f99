-- ===== src/Input/Ordinary.antt =====
-- src/input.rs: what a prompt may become.
use codex_acp_v.Json.{Value, obj, string}
use codex_acp_v.Input.{
  ContentBlock, media, text_blob, convert, convert_resource, convert_all, to_codex, text_input,
  Resource, text_resource, text_block, not_base64, no_content, not_utf8, blob_resource, is_mime,
  image, media_kind, audio, media_type, resource_link, too_many_blocks, empty_media, resource,
  prompt_too_large, other_resource, other_block,
}
use codex_acp_v.Common.{
  ℕ, String, List, Option, not, is_empty, ◌≡◌, true, ok, starts_with, ◌<◌, All, >>=-ok_inversion,
  concat, subst, length, or_fail, ◌∷◌, ensure, ◌≤◌, arith, ok_injective, [], suc, ap, leb, some,
  unwrap_or, false, Bool-cases, ◌*◌, ensure-ok, inl, or_fail-ok, inr, refl, ◌||◌, leb→le, ◌==◌,
}

-- User input: a text, or an image or sound that is inline, of a media type of its kind and with
-- content. Nothing of it is a path or a link that the backend would open.
pub data IsUserInput (decode : String → Option (List ℕ)) : Value → Type 0 where
  is_text_input : (content : String) → IsUserInput decode (text_input content)
  is_media :
      (kind mime content : String) (bytes : List ℕ)
      → starts_with (concat (kind ∷ "/" ∷ [])) mime ≡ true
      → is_mime mime ≡ true
      → decode content ≡ some bytes
      → is_empty bytes ≡ false
      → IsUserInput decode (
          obj (
            ("type", string kind)
            ∷ ("url", string (concat ("data:" ∷ mime ∷ ";base64," ∷ content ∷ [])))
            ∷ []))

length-filled : (blocks : List ContentBlock) → not (is_empty blocks) ≡ true → 0 < length blocks
length-filled [] h = absurd (ground arith)
length-filled (block ∷ rest) h = ground arith

module _ (decode : String → Option (List ℕ)) (from_utf8 : List ℕ → Option String) where
  media-IsUserInput :
      (kind content mime : String) (v : Value)
      → media decode kind content mime ≡ ok v
      → IsUserInput decode v
  unfolding media
  media-IsUserInput kind content mime v h =
      let (_, kinds, h1) =
        >>=-ok_inversion (ensure (starts_with (concat (kind ∷ "/" ∷ [])) mime) media_kind) _ h in
      let (_, types, h2) = >>=-ok_inversion (ensure (is_mime mime) media_type) _ h1 in
      let (bytes, decoded, h3) = >>=-ok_inversion (or_fail (decode content) not_base64) _ h2 in
      let (_, filled, h4) = >>=-ok_inversion (ensure (not (is_empty bytes)) empty_media) _ h3 in
      let some_bytes : is_empty bytes ≡ false = ground (arith, ensure-ok _ empty_media _ filled) in
      subst (IsUserInput decode) (ok_injective h4) (
        is_media kind mime content bytes (ensure-ok _ media_kind _ kinds)
          (ensure-ok _ media_type _ types) (or_fail-ok _ _ bytes decoded) some_bytes)

  text_blob-IsUserInput :
      (uri blob : String) (v : Value)
      → text_blob decode from_utf8 uri blob ≡ ok v
      → IsUserInput decode v
  unfolding text_blob
  text_blob-IsUserInput uri blob v h =
      let (bytes, _, h1) = >>=-ok_inversion (or_fail (decode blob) not_base64) _ h in
      let (content, _, h2) = >>=-ok_inversion (or_fail (from_utf8 bytes) not_utf8) _ h1 in
      subst (IsUserInput decode) (ok_injective h2) (is_text_input _)

  convert_resource-IsUserInput :
      (r : Resource) (v : Value) → convert_resource decode from_utf8 r ≡ ok v → IsUserInput decode v
  unfolding convert_resource
  convert_resource-IsUserInput (text_resource uri content) v h =
      subst (IsUserInput decode) (ok_injective h) (is_text_input _)
  convert_resource-IsUserInput other_resource v h = absurd (ground arith)
  convert_resource-IsUserInput (blob_resource uri mime_type blob) v h =
      let mime = unwrap_or mime_type "application/octet-stream" in
      elim (Bool-cases (starts_with "image/" mime)) [
        | inl shows ↦ media-IsUserInput "image" blob mime v (rw (convert_resource, shows) at h)
        | inr no_image ↦ elim (Bool-cases (starts_with "audio/" mime)) [
          | inl sounds ↦
              media-IsUserInput "audio" blob mime v (rw (convert_resource, no_image, sounds) at h)
          | inr no_audio ↦
              elim (Bool-cases (
                starts_with "text/" mime
                || mime == "application/json"
                || mime == "application/xml")) [
                  | inl reads ↦
                      text_blob-IsUserInput uri blob v
                        (rw (convert_resource, no_image, no_audio, reads) at h)
                  | inr no_text ↦ absurd (ground arith)
                ]
        ]
      ]

  convert-IsUserInput :
      (block : ContentBlock) (v : Value)
      → convert decode from_utf8 block ≡ ok v
      → IsUserInput decode v
  unfolding convert
  convert-IsUserInput (text_block content) v h =
      subst (IsUserInput decode) (ok_injective h) (is_text_input _)
  convert-IsUserInput (image content mime) v h = media-IsUserInput "image" content mime v h
  convert-IsUserInput (audio content mime) v h = media-IsUserInput "audio" content mime v h
  convert-IsUserInput (resource_link name uri description) v h =
      subst (IsUserInput decode) (ok_injective h) (is_text_input _)
  convert-IsUserInput (resource contents) v h = convert_resource-IsUserInput contents v h
  convert-IsUserInput other_block v h = absurd (ground arith)

  convert_all-IsUserInput :
      (blocks : List ContentBlock) (vs : List Value)
      → convert_all decode from_utf8 blocks ≡ ok vs
      → All (IsUserInput decode) vs × (length vs ≡ length blocks)
  unfolding convert_all
  convert_all-IsUserInput [] vs h =
      subst (λ w. All (IsUserInput decode) w × (length w ≡ 0)) (ok_injective h) (tt, refl)
  convert_all-IsUserInput (block ∷ rest) vs h =
      let (here, one, h1) = >>=-ok_inversion (convert decode from_utf8 block) _ h in
      let (more, others, h2) = >>=-ok_inversion (convert_all decode from_utf8 rest) _ h1 in
      let (ordinary, long) = convert_all-IsUserInput rest more others in
      subst (λ w. All (IsUserInput decode) w × (length w ≡ suc (length rest))) (ok_injective h2)
        ((convert-IsUserInput block here one, ordinary), ap suc long)

  -- A prompt that is accepted becomes one user input for each block, 1 to 256 of them, each a text
  -- or inline media of its kind.
  pub to_codex-IsUserInput :
      (size : List ContentBlock → ℕ) (blocks : List ContentBlock) (vs : List Value)
      → to_codex decode from_utf8 size blocks ≡ ok vs
      → All (IsUserInput decode) vs
        × (length vs ≡ length blocks)
        × (0 < length vs)
        × (length vs ≤ 256)
  unfolding to_codex
  to_codex-IsUserInput size blocks vs h =
      let (_, filled, h1) = >>=-ok_inversion (ensure (not (is_empty blocks)) no_content) _ h in
      let (_, few, h2) = >>=-ok_inversion (ensure (leb (length blocks) 256) too_many_blocks) _ h1 in
      let (_, _, h3) =
        >>=-ok_inversion (ensure (leb (size blocks) (16 * 1024 * 1024)) prompt_too_large) _ h2 in
      let (ordinary, long) = convert_all-IsUserInput blocks vs h3 in
      let within_limit = leb→le _ _ (ensure-ok _ too_many_blocks _ few) in
      (
        ordinary,
        long,
        rw long (length-filled blocks (ensure-ok _ no_content _ filled)),
        rw long within_limit,
      )
