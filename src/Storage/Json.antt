-- ===== src/Storage/Json.antt =====
-- cpp/src/storage/investigation_bundle_exporter.cpp: the pieces of the JSON text. A std::string is its
-- bytes.
pub mod Escape
use tickline.Base.{
  ℕ, ltb, ◌==◌, ◌&&◌, Bool, true, false, if◌then◌else◌, [], ◌∷◌, ◌++◌, length, get_or, set,
  replicate, bit_and, ◌%◌,
}
use tickline.Base.Text.{codes}
use tickline.Base.Words.{Bytes, shr}
use tickline.Simulation.Fingerprint.{hex_digits}

-- What the loop of append_json_string writes for a character.
unfoldable pub escape_character : ℕ → Bytes
escape_character character =
    if character == b'"'
    then b'\\' ∷ b'"' ∷ []
    else if character == b'\\'
    then b'\\' ∷ b'\\' ∷ []
    else if character == 0x08
    then b'\\' ∷ b'b' ∷ []
    else if character == 0x0c
    then b'\\' ∷ b'f' ∷ []
    else if character == 0x0a
    then b'\\' ∷ b'n' ∷ []
    else if character == 0x0d
    then b'\\' ∷ b'r' ∷ []
    else if character == 0x09
    then b'\\' ∷ b't' ∷ []
    else if ltb character 0x20
    then b'\\'
      ∷ b'u'
      ∷ b'0'
      ∷ b'0'
      ∷ get_or hex_digits (shr character 4) 0
      ∷ get_or hex_digits (character % 16) 0
      ∷ []
    else character ∷ []

-- The loop over the characters.
unfoldable pub append_characters : Bytes → Bytes → Bytes
unfolding escape_character
append_characters output [] = output
append_characters output (character ∷ value) =
    append_characters (output ++ escape_character character) value

unfoldable pub append_json_string : Bytes → Bytes → Bytes
unfolding append_characters
append_json_string output value = append_characters (output ++ (b'"' ∷ [])) value ++ (b'"' ∷ [])

abbrev pub append_indent : Bytes → ℕ → Bytes
append_indent output count = output ++ replicate count b' '

-- The end of a field.
abbrev pub field_end : Bool → Bytes
field_end comma = if comma then codes ",\n" else codes "\n"

unfoldable pub append_string_field : Bytes → ℕ → Bytes → Bytes → Bool → Bytes
unfolding append_json_string
append_string_field output indent name value comma =
    append_json_string (append_json_string (append_indent output indent) name ++ codes ": ") value
    ++ field_end comma

unfoldable pub append_raw_field : Bytes → ℕ → Bytes → Bytes → Bool → Bytes
unfolding append_json_string
append_raw_field output indent name value comma =
    ((append_json_string (append_indent output indent) name ++ codes ": ") ++ value)
    ++ field_end comma

unfoldable pub normalize_timestamp : Bytes → Bytes
normalize_timestamp value =
    if length value == 19 && get_or value 10 0 == b' '
    then set value 10 b'T' ++ (b'Z' ∷ [])
    else value
