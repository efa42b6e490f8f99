-- ===== src/Input/Tests.antt =====
-- src/input.rs: a prompt of a text and an image.
use codex_acp_v.Input.Ordinary.{IsUserInput, to_codex-IsUserInput}
use codex_acp_v.Json.{Value, obj, string}
use codex_acp_v.Input.{
  media, to_codex, ContentBlock, convert_all, is_mime, text_input, convert, is_mime_code,
  text_block, image, media_kind, media_type,
}
use codex_acp_v.Common.{
  ℕ, All, String, List, concat, Option, length, none, ◌≡◌, some, ◌<◌, err, ok, ◌∷◌, ◌≤◌, refl, [],
}

abbrev one_byte : String → Option (List ℕ)
one_byte s = some (0 ∷ [])

abbrev no_text : List ℕ → Option String
no_text bytes = none

abbrev small : List ContentBlock → ℕ
small blocks = 100

abbrev prompt : List ContentBlock
prompt = text_block "hello" ∷ image "AA==" "image/png" ∷ []

abbrev inputs : List Value
inputs =
    text_input "hello"
    ∷ obj (("type", string "image") ∷ ("url", string "data:image/png;base64,AA==") ∷ [])
    ∷ []

converted : to_codex one_byte no_text small prompt ≡ ok inputs
unfolding to_codex convert_all convert media is_mime is_mime_code concat
converted = refl

wrong_kind : media one_byte "image" "AA==" "text/png" ≡ err media_kind
unfolding media concat
wrong_kind = refl

injected : media one_byte "image" "AA==" "image/png;x" ≡ err media_type
unfolding media is_mime is_mime_code concat
injected = refl

to_codex-IsUserInput_example :
    All (IsUserInput one_byte) inputs
    × (length inputs ≡ length prompt)
    × (0 < length inputs)
    × (length inputs ≤ 256)
to_codex-IsUserInput_example = to_codex-IsUserInput one_byte no_text small prompt inputs converted
