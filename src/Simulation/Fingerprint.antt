-- ===== src/Simulation/Fingerprint.antt =====
-- cpp/src/simulation/state_fingerprint.cpp: FNV-1a over 64 bits.
pub mod Hex
use tickline.Base.{zero, suc, set, get_or, replicate, ℕ, ◌*◌, ◌%◌, ◌^◌, [], ◌∷◌, bit_xor}
use tickline.Base.Words.{Bytes, shr}

-- StateFingerprint wraps a uint64_t.
abbrev pub StateFingerprint : Type 0
StateFingerprint = ℕ

abbrev offset_basis : ℕ
offset_basis = 14_695_981_039_346_656_037

abbrev prime : ℕ
prime = 1_099_511_628_211

-- The loop, with the hash so far.
unfoldable pub hash_from : ℕ → Bytes → ℕ
hash_from hash [] = hash
hash_from hash (byte ∷ bytes) = hash_from (bit_xor hash byte * prime % 2 ^ 64) bytes

unfoldable pub fingerprint_bytes : Bytes → StateFingerprint
unfolding hash_from
fingerprint_bytes bytes = hash_from offset_basis bytes

-- The characters of the hexadecimal digits.
abbrev pub hex_digits : Bytes
hex_digits =
    0x30 ∷ 0x31 ∷ 0x32 ∷ 0x33 ∷ 0x34 ∷ 0x35 ∷ 0x36 ∷ 0x37 ∷ 0x38 ∷ 0x39 ∷ 0x61 ∷ 0x62 ∷ 0x63 ∷ 0x64
    ∷ 0x65 ∷ 0x66 ∷ []

-- The loop of to_hex with `rounds` digits to go: `result.size() - 1 - offset` is `rounds - 1`.
unfoldable pub write_hex : ℕ → ℕ → Bytes → Bytes
write_hex zero remaining result = result
write_hex (suc rounds) remaining result =
    write_hex rounds (shr remaining 4) (set result rounds (get_or hex_digits (remaining % 16) 0))

unfoldable pub to_hex : StateFingerprint → Bytes
unfolding write_hex
to_hex fingerprint = write_hex 16 fingerprint (replicate 16 0x30)
