-- ===== src/Input.antt =====
-- src/input.rs: the content of a prompt as user input of the backend. `size` is the length of the
-- encoded content, `decode` reads base64 and `from_utf8` reads UTF-8.
pub mod Ordinary
mod Tests
use codex_acp_v.Json.{Value, obj, string, arr}
use Prim.Native.Char.{code}
use codex_acp_v.Common.{
  ℕ, String, [], ◌∷◌, Option, Bool, leb, true, List, ◌||◌, nat_eq, Result, ◌&&◌, ok, ◌>>◌, ◌>>=◌,
  ensure, or_fail, concat, starts_with, not, unwrap_or, is_empty, if◌then◌else◌, length, ◌==◌, err,
  ◌*◌, some, none,
}

pub data InputError : Type 0 where
  no_content : InputError
  too_many_blocks : InputError
  prompt_too_large : InputError
  media_kind : InputError
  media_type : InputError
  not_base64 : InputError
  empty_media : InputError
  not_utf8 : InputError
  unsupported_resource : InputError
  unsupported_block : InputError

-- The contents of a resource; `other_resource` is a form of a later version of the schema.
pub data Resource : Type 0 where
  text_resource : String → String → Resource
  blob_resource : String → Option String → String → Resource
  other_resource : Resource

pub data ContentBlock : Type 0 where
  text_block : String → ContentBlock
  image : String → String → ContentBlock
  audio : String → String → ContentBlock
  resource_link : String → String → Option String → ContentBlock
  resource : Resource → ContentBlock
  other_block : ContentBlock

unfoldable pub text_input : String → Value
text_input content =
    obj (("type", string "text") ∷ ("text", string content) ∷ ("text_elements", arr []) ∷ [])

unfoldable pub described : Option String → String
described none = ""
described (some description) = concat ("\n" ∷ description ∷ [])

-- A letter, a digit or one of `/-+._`, by its code.
abbrev within : ℕ → ℕ → ℕ → Bool
within low high n = leb low n && leb n high

unfoldable pub is_mime_code : ℕ → Bool
is_mime_code n =
    within 48 57 n
    || within 65 90 n
    || within 97 122 n
    || nat_eq n 47
    || nat_eq n 45
    || nat_eq n 43
    || nat_eq n 46
    || nat_eq n 95

unfoldable pub is_mime : String → Bool
is_mime String.[] = true
is_mime (String.◌∷◌ c rest) = is_mime_code (code c) && is_mime rest

module _ (decode : String → Option (List ℕ)) where
  unfoldable pub media : String → String → String → Result InputError Value
  media kind content mime = do
    ensure (starts_with (concat (kind ∷ "/" ∷ [])) mime) media_kind
    ensure (is_mime mime) media_type
    decoded ← or_fail (decode content) not_base64
    ensure (not (is_empty decoded)) empty_media
    ok (
        obj (
          ("type", string kind)
          ∷ ("url", string (concat ("data:" ∷ mime ∷ ";base64," ∷ content ∷ [])))
          ∷ []))

  module _ (from_utf8 : List ℕ → Option String) where
    unfoldable pub text_blob : String → String → Result InputError Value
    text_blob uri blob = do
      bytes ← or_fail (decode blob) not_base64
      content ← or_fail (from_utf8 bytes) not_utf8
      ok (text_input (concat ("User-provided resource: " ∷ uri ∷ "\n" ∷ content ∷ [])))

    unfoldable pub convert_resource : Resource → Result InputError Value
    convert_resource (text_resource uri content) =
        ok (text_input (concat ("User-provided resource: " ∷ uri ∷ "\n" ∷ content ∷ [])))
    convert_resource (blob_resource uri mime_type blob) =
        let mime = unwrap_or mime_type "application/octet-stream" in
        if starts_with "image/" mime
        then media "image" blob mime
        else if starts_with "audio/" mime
        then media "audio" blob mime
        else if starts_with "text/" mime || mime == "application/json" || mime == "application/xml"
        then text_blob uri blob
        else err unsupported_resource
    convert_resource other_resource = err unsupported_resource

    unfoldable pub convert : ContentBlock → Result InputError Value
    convert (text_block content) = ok (text_input content)
    convert (image content mime) = media "image" content mime
    convert (audio content mime) = media "audio" content mime
    convert (resource_link name uri description) = ok (
        text_input (
          concat (
            "Resource reference (not fetched): "
            ∷ name
            ∷ "\nURI: "
            ∷ uri
            ∷ described description
            ∷ [])))
    convert (resource contents) = convert_resource contents
    convert other_block = err unsupported_block

    -- The first error ends the conversion, and nothing of the prompt is used.
    unfoldable pub convert_all : List ContentBlock → Result InputError (List Value)
    convert_all [] = ok []
    convert_all (block ∷ rest) = do here ← convert block; more ← convert_all rest; ok (here ∷ more)

    unfoldable pub to_codex :
        (List ContentBlock → ℕ) → List ContentBlock → Result InputError (List Value)
    to_codex size blocks = do
      ensure (not (is_empty blocks)) no_content
      ensure (leb (length blocks) 256) too_many_blocks
      ensure (leb (size blocks) (16 * 1024 * 1024)) prompt_too_large
      convert_all blocks
