-- ===== src/Base/Words.antt =====
-- Machine words and bytes as numbers: the ranges, the shifts, and big-endian groups of bytes.
use tickline.Base.Tests.{ltb, if◌then◌else◌}
use tickline.Base.Lists.{All}
use tickline.Base.Bits.{bit_or_fields, zero-bit_or}
use tickline.Base.Int.{ℤ, pos, negsuc, IsI64}
use Prim.Native.Nat.{ℕ, ◌+◌, ◌-◌, ◌*◌, ◌/◌, ◌%◌, ◌^◌, ◌<◌, bit_or}
use mathlib.Core.Path.{◌≡◌, ap, ◌∙◌, ◌≡⟨◌⟩◌, ◌∎}
use native.Mathlib.Nat.{mod-eq_of_lt}
use mathlib.Core.List.{List, [], ◌∷◌}
use native.Mathlib.Omega.{arith}

abbrev pub Bytes : Type 0
Bytes = List ℕ

abbrev pub IsByte : ℕ → Type 0
IsByte b = b < 256

abbrev pub IsU16 : ℕ → Type 0
IsU16 v = v < 2 ^ 16

abbrev pub IsU32 : ℕ → Type 0
IsU32 v = v < 2 ^ 32

abbrev pub IsU64 : ℕ → Type 0
IsU64 v = v < 2 ^ 64

-- std::numeric_limits<std::uint64_t>::max()
abbrev pub u64_max : ℕ
u64_max = 2 ^ 64 - 1

-- `x << k` on a word of `w` bits, and `x >> k`.
abbrev pub shl : ℕ → ℕ → ℕ → ℕ
shl w x k = x * 2 ^ k % 2 ^ w

abbrev pub shr : ℕ → ℕ → ℕ
shr x k = x / 2 ^ k

-- `static_cast<std::uint8_t>(x)`
abbrev pub low_byte : ℕ → ℕ
low_byte x = x % 256

-- `std::bit_cast<std::uint64_t>` of a signed value, and back.
unfoldable pub u64_of_i64 : ℤ → ℕ
u64_of_i64 (pos n) = n
u64_of_i64 (negsuc n) = 2 ^ 64 - 1 - n

unfoldable pub i64_of_u64 : ℕ → ℤ
i64_of_u64 w = if ltb w (2 ^ 63) then pos w else negsuc (2 ^ 64 - 1 - w)

pub i64_of_u64-u64_of_i64 : (z : ℤ) → IsI64 z → i64_of_u64 (u64_of_i64 z) ≡ z
unfolding u64_of_i64 i64_of_u64
i64_of_u64-u64_of_i64 (pos n) h = ground arith
i64_of_u64-u64_of_i64 (negsuc n) h = ground arith

pub u64_of_i64-i64_of_u64 : (w : ℕ) → IsU64 w → u64_of_i64 (i64_of_u64 w) ≡ w
unfolding u64_of_i64 i64_of_u64
u64_of_i64-i64_of_u64 w h = ground arith

pub u64_of_i64-IsU64 : (z : ℤ) → IsI64 z → IsU64 (u64_of_i64 z)
unfolding u64_of_i64
u64_of_i64-IsU64 (pos n) h = omega arith
u64_of_i64-IsU64 (negsuc n) h = omega arith

pub i64_of_u64-IsI64 : (w : ℕ) → IsU64 w → IsI64 (i64_of_u64 w)
unfolding i64_of_u64
i64_of_u64-IsI64 w h = ground arith

-- The bytes of a word, most significant first.
abbrev pub bytes_u16 : ℕ → Bytes
bytes_u16 v = low_byte (shr v 8) ∷ low_byte v ∷ []

abbrev pub bytes_u32 : ℕ → Bytes
bytes_u32 v = low_byte (shr v 24) ∷ low_byte (shr v 16) ∷ low_byte (shr v 8) ∷ low_byte v ∷ []

abbrev pub bytes_u64 : ℕ → Bytes
bytes_u64 v =
    low_byte (shr v 56)
    ∷ low_byte (shr v 48)
    ∷ low_byte (shr v 40)
    ∷ low_byte (shr v 32)
    ∷ low_byte (shr v 24)
    ∷ low_byte (shr v 16)
    ∷ low_byte (shr v 8)
    ∷ low_byte (shr v 0)
    ∷ []

-- One more byte at the low end of a word.
pub push_byte : (w x b : ℕ) → b < 256 → x * 256 < 2 ^ w → bit_or (shl w x 8) b ≡ x * 256 + b
push_byte w x b hb hx =
    bit_or (shl w x 8) b
    ≡⟨ ap (λ (t : ℕ). bit_or t b) (mod-eq_of_lt hx) ⟩ bit_or (x * 2 ^ 8) b
    ≡⟨ bit_or_fields 8 x b hb ⟩ x * 256 + b ∎

-- What a loop `value = (value << 8) | byte` over the bytes makes of a 64-bit `value`.
abbrev pub join : ℕ → Bytes → ℕ
join value [] = value
join value (b ∷ bs) = join (bit_or (shl 64 value 8) b) bs

abbrev pub join_u16 : ℕ → ℕ → ℕ
join_u16 a b = bit_or (shl 16 a 8) b

abbrev pub join_u32 : ℕ → ℕ → ℕ → ℕ → ℕ
join_u32 a b c d = bit_or (bit_or (bit_or (shl 32 a 24) (shl 32 b 16)) (shl 32 c 8)) d

-- The same without bit operations.
abbrev pub value_of : ℕ → Bytes → ℕ
value_of value [] = value
value_of value (b ∷ bs) = value_of (value * 256 + b) bs

pub value_of-bytes_u64 : (v : ℕ) → IsU64 v → value_of 0 (bytes_u64 v) ≡ v
value_of-bytes_u64 v h = omega arith

pub bytes_u64-value_of :
    (a b c d e f g h : ℕ)
    → All IsByte (a ∷ b ∷ c ∷ d ∷ e ∷ f ∷ g ∷ h ∷ [])
    → bytes_u64 (value_of 0 (a ∷ b ∷ c ∷ d ∷ e ∷ f ∷ g ∷ h ∷ []))
      ≡ a ∷ b ∷ c ∷ d ∷ e ∷ f ∷ g ∷ h ∷ []
bytes_u64-value_of a b c d e f g h p = ground arith

-- Eight bytes fit the word, so no shift loses a bit.
pub join-value_of :
    (a b c d e f g h : ℕ)
    → All IsByte (a ∷ b ∷ c ∷ d ∷ e ∷ f ∷ g ∷ h ∷ [])
    → join 0 (a ∷ b ∷ c ∷ d ∷ e ∷ f ∷ g ∷ h ∷ []) ≡ value_of 0 (a ∷ b ∷ c ∷ d ∷ e ∷ f ∷ g ∷ h ∷ [])
join-value_of a b c d e f g h p =
    rw
      (
        zero-bit_or a,
        push_byte 64 (a) b (omega arith) (omega arith),
        push_byte 64 (a * 256 + b) c (omega arith) (omega arith),
        push_byte 64 ((a * 256 + b) * 256 + c) d (omega arith) (omega arith),
        push_byte 64 (((a * 256 + b) * 256 + c) * 256 + d) e (omega arith) (omega arith),
        push_byte 64 ((((a * 256 + b) * 256 + c) * 256 + d) * 256 + e) f (omega arith)
            (omega arith),
        push_byte 64 (((((a * 256 + b) * 256 + c) * 256 + d) * 256 + e) * 256 + f) g (omega arith)
            (omega arith),
        push_byte 64 ((((((a * 256 + b) * 256 + c) * 256 + d) * 256 + e) * 256 + f) * 256 + g) h
            (omega arith) (omega arith),
      )
      (omega arith)

pub join-bytes_u64 : (v : ℕ) → IsU64 v → join 0 (bytes_u64 v) ≡ v
join-bytes_u64 v h = join-value_of _ _ _ _ _ _ _ _ (omega arith) ∙ value_of-bytes_u64 v h

-- Reading eight bytes and writing the word gives the bytes back.
pub bytes_u64-join :
    (a b c d e f g h : ℕ)
    → All IsByte (a ∷ b ∷ c ∷ d ∷ e ∷ f ∷ g ∷ h ∷ [])
    → bytes_u64 (join 0 (a ∷ b ∷ c ∷ d ∷ e ∷ f ∷ g ∷ h ∷ [])) ≡ a ∷ b ∷ c ∷ d ∷ e ∷ f ∷ g ∷ h ∷ []
bytes_u64-join a b c d e f g h p =
    ap bytes_u64 (join-value_of a b c d e f g h p) ∙ bytes_u64-value_of a b c d e f g h p

pub join_u16-bytes : (v : ℕ) → IsU16 v → join_u16 (low_byte (shr v 8)) (low_byte v) ≡ v
join_u16-bytes v h =
    omega (arith, push_byte 16 (low_byte (shr v 8)) (low_byte v) (omega arith) (omega arith))

pub bytes_u16-join : (a b : ℕ) → IsByte a → IsByte b → bytes_u16 (join_u16 a b) ≡ a ∷ b ∷ []
bytes_u16-join a b ha hb = rw (push_byte 16 a b hb (omega arith)) (ground arith)

or_at : (k q x r : ℕ) → x ≡ q * 2 ^ k → r < 2 ^ k → bit_or x r ≡ x + r
or_at k q x r e h = rw e (bit_or_fields k q r h)

join_u32-value_of :
    (a b c d : ℕ)
    → All IsByte (a ∷ b ∷ c ∷ d ∷ [])
    → join_u32 a b c d ≡ value_of 0 (a ∷ b ∷ c ∷ d ∷ [])
join_u32-value_of a b c d h =
    let x = shl 32 a 24 in
    let y = bit_or x (shl 32 b 16) in
    let z = bit_or y (shl 32 c 8) in
    let ex = or_at 24 a x (shl 32 b 16) (omega arith) (omega arith) in
    let ey = or_at 16 (a * 256 + b) y (shl 32 c 8) (omega arith) (omega arith) in
    omega (arith, or_at 8 ((a * 256 + b) * 256 + c) z d (omega arith) (omega arith))

pub join_u32-bytes :
    (v : ℕ)
    → IsU32 v
    → join_u32 (low_byte (shr v 24)) (low_byte (shr v 16)) (low_byte (shr v 8)) (low_byte v) ≡ v
join_u32-bytes v h = join_u32-value_of _ _ _ _ (omega arith) ∙ omega arith

pub bytes_u32-join :
    (a b c d : ℕ)
    → All IsByte (a ∷ b ∷ c ∷ d ∷ [])
    → bytes_u32 (join_u32 a b c d) ≡ a ∷ b ∷ c ∷ d ∷ []
bytes_u32-join a b c d h = ap bytes_u32 (join_u32-value_of a b c d h) ∙ ground arith

pub join_u16-IsU16 : (a b : ℕ) → IsByte a → IsByte b → IsU16 (join_u16 a b)
join_u16-IsU16 a b ha hb = omega (arith, push_byte 16 a b hb (omega arith))

pub join-IsU64 :
    (a b c d e f g h : ℕ)
    → All IsByte (a ∷ b ∷ c ∷ d ∷ e ∷ f ∷ g ∷ h ∷ [])
    → IsU64 (join 0 (a ∷ b ∷ c ∷ d ∷ e ∷ f ∷ g ∷ h ∷ []))
join-IsU64 a b c d e f g h p = omega (arith, join-value_of a b c d e f g h p)
