-- ===== src/Storage/Json/Escape.antt =====
-- cpp/src/storage/investigation_bundle_exporter.cpp: strings through their JSON text and back, by a
-- reader after RFC 8259, section 7.
use tickline.Base.{
  ℕ, zero, suc, ◌+◌, ◌*◌, ◌/◌, ◌%◌, ◌<◌, ltb, ltb→lt, leb, ◌==◌, ==_iff, ◌&&◌, ◌||◌, Bool,
  Bool-cases, true, not, inl, inr, if◌then◌else◌, Option, none, some, ◌≡◌, refl, ap, sym, ◌∙◌, [],
  ◌∷◌, ◌++◌, append_assoc, append-nil, get_or, get_or-tabulate, arith,
}
use tickline.Base.Words.{Bytes, shr}
use tickline.Simulation.Fingerprint.{hex_digits}
use tickline.Simulation.Fingerprint.Hex.{hex_value, digit, hex_value-digit}
use tickline.Storage.Json.{escape_character, append_characters, append_json_string}

-- Where the reader stands: between characters, behind a backslash, or before the last `n` of four
-- hexadecimal digits.
data Place : Type 0 where
  plain escaped : Place
  hexadecimal : ℕ → ℕ → Place

-- What it makes of a byte.
data Next : Type 0 where
  closes fails : Next
  goes : Place → Next
  emits : ℕ → Next

-- The character that an escape of two characters stands for.
abbrev two_characters : ℕ → Next
two_characters c =
    if c == b'"'
    then emits b'"'
    else if c == b'\\'
    then emits b'\\'
    else if c == b'/'
    then emits b'/'
    else if c == b'b'
    then emits 0x08
    else if c == b'f'
    then emits 0x0c
    else if c == b'n'
    then emits 0x0a
    else if c == b'r'
    then emits 0x0d
    else if c == b't'
    then emits 0x09
    else if c == b'u'
    then goes (hexadecimal 4 0)
    else fails

abbrev is_hexadecimal : ℕ → Bool
is_hexadecimal c = (leb 0x30 c && leb c 0x39) || (leb 0x61 c && leb c 0x66)

abbrev read_character : Place → ℕ → Next
read_character plain c =
    if c == b'"'
    then closes
    else if c == b'\\'
    then goes escaped
    else if ltb c 0x20
    then fails
    else emits c
read_character escaped c = two_characters c
read_character (hexadecimal zero value) c = fails
read_character (hexadecimal (suc n) value) c =
    let value' = value * 16 + hex_value c in
    if not (is_hexadecimal c)
    then fails
    else if n == 0
    then emits value'
    else goes (hexadecimal n value')

abbrev emit : ℕ → Option (Bytes × Bytes) → Option (Bytes × Bytes)
emit c none = none
emit c (some (value, rest)) = some (c ∷ value, rest)

abbrev follow : (Place → Option (Bytes × Bytes)) → Bytes → Next → Option (Bytes × Bytes)
follow continue cs closes = some ([], cs)
follow continue cs fails = none
follow continue cs (goes place) = continue place
follow continue cs (emits c) = emit c (continue plain)

-- The rest of a string, up to its closing quote, and what stands behind it.
read : Bytes → Place → Option (Bytes × Bytes)
read [] place = none
read (c ∷ cs) place = follow (read cs) cs (read_character place c)

-- A JSON string at the front of a text.
pub read_string : Bytes → Option (Bytes × Bytes)
read_string [] = none
read_string (c ∷ cs) = if c == b'"' then read cs plain else none

hex_digit : (d : ℕ) → d < 16 → get_or hex_digits d 0 ≡ digit d
hex_digit d h = get_or-tabulate 16 d digit 0 h

is_hexadecimal-digit : (d : ℕ) → d < 16 → is_hexadecimal (digit d) ≡ true
is_hexadecimal-digit d h = ground arith

-- The two digits of a control character.
read_control :
    (c : ℕ) (rest : Bytes)
    → c < 0x20
    → read
        (b'\\'
          ∷ b'u'
          ∷ b'0'
          ∷ b'0'
          ∷ get_or hex_digits (shr c 4) 0
          ∷ get_or hex_digits (c % 16) 0
          ∷ rest)
        plain
      ≡ emit c (read rest plain)
unfolding read
read_control c rest h =
    let high : c / 16 < 16 = omega arith in
    let low : c % 16 < 16 = omega arith in
    let whole : (0 + c / 16) * 16 + c % 16 ≡ c = omega arith in
    rw
      (
        hex_digit (c / 16) high,
        hex_digit (c % 16) low,
        is_hexadecimal-digit (c / 16) high,
        is_hexadecimal-digit (c % 16) low,
        hex_value-digit (c / 16) high,
        hex_value-digit (c % 16) low,
        whole,
      )
      refl

emit_same : (c d : ℕ) (o : Option (Bytes × Bytes)) → (c == d) ≡ true → emit d o ≡ emit c o
emit_same c d o t = ap (λ (k : ℕ). emit k o) (sym ((==_iff c d).0 t))

read-escape_character :
    (c : ℕ) (rest : Bytes) → read (escape_character c ++ rest) plain ≡ emit c (read rest plain)
unfolding read escape_character
read-escape_character c rest = elim (Bool-cases (c == b'"')) [
  | inl t ↦ rw t (emit_same c b'"' _ t)
  | inr t1 ↦ elim (Bool-cases (c == b'\\')) [
    | inl t ↦ rw (t1, t) (emit_same c b'\\' _ t)
    | inr t2 ↦ elim (Bool-cases (c == 0x08)) [
      | inl t ↦ rw (t1, t2, t) (emit_same c 0x08 _ t)
      | inr t3 ↦ elim (Bool-cases (c == 0x0c)) [
        | inl t ↦ rw (t1, t2, t3, t) (emit_same c 0x0c _ t)
        | inr t4 ↦ elim (Bool-cases (c == 0x0a)) [
          | inl t ↦ rw (t1, t2, t3, t4, t) (emit_same c 0x0a _ t)
          | inr t5 ↦ elim (Bool-cases (c == 0x0d)) [
            | inl t ↦ rw (t1, t2, t3, t4, t5, t) (emit_same c 0x0d _ t)
            | inr t6 ↦ elim (Bool-cases (c == 0x09)) [
              | inl t ↦ rw (t1, t2, t3, t4, t5, t6, t) (emit_same c 0x09 _ t)
              | inr t7 ↦ elim (Bool-cases (ltb c 0x20)) [
                | inl l ↦ rw (t1, t2, t3, t4, t5, t6, t7, l) (read_control c rest (ltb→lt c 0x20 l))
                | inr l ↦ rw (t1, t2, t3, t4, t5, t6, t7, l) (rw (t1, t2, l) refl)
              ]
            ]
          ]
        ]
      ]
    ]
  ]
]

-- What the loop adds to the output.
content : Bytes → Bytes
content [] = []
content (c ∷ cs) = escape_character c ++ content cs

append_characters-content :
    (value output : Bytes) → append_characters output value ≡ output ++ content value
unfolding append_characters content
append_characters-content [] output = sym (append-nil output)
append_characters-content (c ∷ value) output =
    append_characters-content value (output ++ escape_character c)
    ∙ append_assoc output (escape_character c) (content value)

read-content :
    (value rest : Bytes) → read (content value ++ (b'"' ∷ rest)) plain ≡ some (value, rest)
unfolding content read
read-content [] rest = refl
read-content (c ∷ value) rest =
    ap (λ (bs : Bytes). read bs plain)
      (append_assoc (escape_character c) (content value) (b'"' ∷ rest))
    ∙ read-escape_character c (content value ++ (b'"' ∷ rest))
    ∙ ap (emit c) (read-content value rest)

-- What append_json_string adds to an output is a JSON string: a reader of such strings gives back
-- every character, and stops right behind it, whatever follows.
pub read_string-append_json_string :
    (output value rest : Bytes)
    → (text : Bytes) × (append_json_string output value ≡ output ++ text)
      × (read_string (text ++ rest) ≡ some (value, rest))
unfolding append_json_string read_string
read_string-append_json_string output value rest =
    let quote : Bytes = b'"' ∷ [] in
    (
      quote ++ (content value ++ quote),
      ap (λ bs. bs ++ quote) (append_characters-content value (output ++ quote))
          ∙ append_assoc (output ++ quote) (content value) quote
          ∙ append_assoc output quote (content value ++ quote),
      ap (λ (bs : Bytes). read bs plain) (append_assoc (content value) quote rest)
          ∙ read-content value rest,
    )
