-- ===== src/Security/Sha256.antt =====
-- cpp/include/tickline/security/sha256.hpp and cpp/src/security/sha256.cpp. A word of 32 bits is a
-- number below 2 ^ 32, and every operation that can leave that range says how it wraps.
pub mod Padding
pub mod Hex
use tickline.Base.{
  ℕ, zero, suc, ◌+◌, ◌-◌, ◌*◌, ◌/◌, ◌%◌, ◌^◌, ltb, ◌==◌, if◌then◌else◌, List, [], ◌∷◌, ◌++◌, length,
  get_or, set, take, drop, replicate, bit_or, bit_and, bit_xor,
}
use tickline.Base.Words.{Bytes, shl, shr, low_byte, join_u32}

abbrev pub block_size : ℕ
block_size = 64

abbrev pub round_constants : List ℕ
round_constants =
    0x428a2f98 ∷ 0x71374491 ∷ 0xb5c0fbcf ∷ 0xe9b5dba5 ∷ 0x3956c25b ∷ 0x59f111f1 ∷ 0x923f82a4
    ∷ 0xab1c5ed5 ∷ 0xd807aa98 ∷ 0x12835b01 ∷ 0x243185be ∷ 0x550c7dc3 ∷ 0x72be5d74 ∷ 0x80deb1fe
    ∷ 0x9bdc06a7 ∷ 0xc19bf174 ∷ 0xe49b69c1 ∷ 0xefbe4786 ∷ 0x0fc19dc6 ∷ 0x240ca1cc ∷ 0x2de92c6f
    ∷ 0x4a7484aa ∷ 0x5cb0a9dc ∷ 0x76f988da ∷ 0x983e5152 ∷ 0xa831c66d ∷ 0xb00327c8 ∷ 0xbf597fc7
    ∷ 0xc6e00bf3 ∷ 0xd5a79147 ∷ 0x06ca6351 ∷ 0x14292967 ∷ 0x27b70a85 ∷ 0x2e1b2138 ∷ 0x4d2c6dfc
    ∷ 0x53380d13 ∷ 0x650a7354 ∷ 0x766a0abb ∷ 0x81c2c92e ∷ 0x92722c85 ∷ 0xa2bfe8a1 ∷ 0xa81a664b
    ∷ 0xc24b8b70 ∷ 0xc76c51a3 ∷ 0xd192e819 ∷ 0xd6990624 ∷ 0xf40e3585 ∷ 0x106aa070 ∷ 0x19a4c116
    ∷ 0x1e376c08 ∷ 0x2748774c ∷ 0x34b0bcb5 ∷ 0x391c0cb3 ∷ 0x4ed8aa4a ∷ 0x5b9cca4f ∷ 0x682e6ff3
    ∷ 0x748f82ee ∷ 0x78a5636f ∷ 0x84c87814 ∷ 0x8cc70208 ∷ 0x90befffa ∷ 0xa4506ceb ∷ 0xbef9a3f7
    ∷ 0xc67178f2 ∷ []

-- The 32 bytes of a digest.
abbrev pub Sha256Digest : Type 0
Sha256Digest = Bytes

-- `Sha256Digest{}`
abbrev pub zero_digest : Sha256Digest
zero_digest = replicate 32 0

-- `a + b` on words.
abbrev add : ℕ → ℕ → ℕ
add a b = (a + b) % 2 ^ 32

-- `~x`
abbrev complement : ℕ → ℕ
complement x = 2 ^ 32 - 1 - x

-- `std::rotr(x, k)` for 0 < k < 32.
abbrev rotr : ℕ → ℕ → ℕ
rotr x k = bit_or (shr x k) (shl 32 x (32 - k))

abbrev choose : ℕ → ℕ → ℕ → ℕ
choose x y z = bit_xor (bit_and x y) (bit_and (complement x) z)

abbrev majority : ℕ → ℕ → ℕ → ℕ
majority x y z = bit_xor (bit_xor (bit_and x y) (bit_and x z)) (bit_and y z)

abbrev large_sigma_zero : ℕ → ℕ
large_sigma_zero value = bit_xor (bit_xor (rotr value 2) (rotr value 13)) (rotr value 22)

abbrev large_sigma_one : ℕ → ℕ
large_sigma_one value = bit_xor (bit_xor (rotr value 6) (rotr value 11)) (rotr value 25)

abbrev small_sigma_zero : ℕ → ℕ
small_sigma_zero value = bit_xor (bit_xor (rotr value 7) (rotr value 18)) (shr value 3)

abbrev small_sigma_one : ℕ → ℕ
small_sigma_one value = bit_xor (bit_xor (rotr value 17) (rotr value 19)) (shr value 10)

abbrev read_word : Bytes → ℕ → ℕ
read_word block offset =
    join_u32 (get_or block offset 0) (get_or block (offset + 1) 0) (get_or block (offset + 2) 0)
      (get_or block (offset + 3) 0)

-- The first loop of process_block with `rounds` words to go: the schedule so far is the words below
-- `index`.
read_schedule : ℕ → ℕ → Bytes → List ℕ
read_schedule zero index block = []
read_schedule (suc rounds) index block =
    read_word block (index * 4) ∷ read_schedule rounds (index + 1) block

-- The second loop with `rounds` words to go, from `index` on.
extend_schedule : ℕ → ℕ → List ℕ → List ℕ
extend_schedule zero index schedule = schedule
extend_schedule (suc rounds) index schedule =
    let word =
      add
        (add
          (add (get_or schedule (index - 16) 0) (small_sigma_zero (get_or schedule (index - 15) 0)))
          (get_or schedule (index - 7) 0))
        (small_sigma_one (get_or schedule (index - 2) 0)) in
    extend_schedule rounds (index + 1) (schedule ++ (word ∷ []))

pub message_schedule : Bytes → List ℕ
unfolding read_schedule extend_schedule
message_schedule block = extend_schedule 48 16 (read_schedule 16 0 block)

-- The eight words of the hash state, and of the working variables.
pub record HashState : Type 0 where
  pub a : ℕ
  pub b : ℕ
  pub c : ℕ
  pub d : ℕ
  pub e : ℕ
  pub f : ℕ
  pub g : ℕ
  pub h : ℕ

-- The body of the third loop of process_block, at a round constant and a word of the schedule.
pub compress : ℕ → ℕ → HashState → HashState
compress constant word s =
    let first =
      add (add (add (add s.h (large_sigma_one s.e)) (choose s.e s.f s.g)) constant) word in
    let second = add (large_sigma_zero s.a) (majority s.a s.b s.c) in
    record {
      a = add first second;
      b = s.a;
      c = s.b;
      d = s.c;
      e = add s.d first;
      f = s.e;
      g = s.f;
      h = s.g;
    }

-- The third loop, over the constants and the schedule together.
rounds_over : List ℕ → List ℕ → HashState → HashState
rounds_over [] words s = s
rounds_over (k ∷ ks) [] s = s
rounds_over (k ∷ ks) (w ∷ words) s = rounds_over ks words (compress k w s)

unfoldable pub process_block : Bytes → HashState → HashState
unfolding message_schedule rounds_over compress
process_block block s =
    let t = rounds_over round_constants (message_schedule block) s in
    record {
      a = add s.a t.a;
      b = add s.b t.b;
      c = add s.c t.c;
      d = add s.d t.d;
      e = add s.e t.e;
      f = add s.f t.f;
      g = add s.g t.g;
      h = add s.h t.h;
    }

abbrev pub initial_state : HashState
initial_state = record {
  a = 0x6a09e667;
  b = 0xbb67ae85;
  c = 0x3c6ef372;
  d = 0xa54ff53a;
  e = 0x510e527f;
  f = 0x9b05688c;
  g = 0x1f83d9ab;
  h = 0x5be0cd19;
}

-- The loop over the complete blocks with `rounds` to go.
unfoldable pub process_blocks : ℕ → ℕ → Bytes → HashState → HashState
process_blocks zero block_index bytes state = state
process_blocks (suc rounds) block_index bytes state =
    process_blocks rounds (block_index + 1) bytes
      (process_block (take block_size (drop (block_index * block_size) bytes)) state)

-- The loop that copies what is behind the complete blocks, from `index` on.
unfoldable pub copy_tail : Bytes → ℕ → Bytes → Bytes
copy_tail [] index tail = tail
copy_tail (b ∷ bs) index tail = copy_tail bs (index + 1) (set tail index b)

-- The loop over the shifts with `rounds` to go: the shift is `(rounds - 1) * 8`.
unfoldable pub write_length : ℕ → ℕ → ℕ → Bytes → Bytes
write_length zero offset bit_length tail = tail
write_length (suc rounds) offset bit_length tail =
    write_length rounds (offset + 1) bit_length
      (set tail offset (low_byte (shr bit_length (rounds * 8))))

-- `remainder < 56 ? block_size : block_size * 2`
abbrev pub final_size : ℕ → ℕ
final_size remainder = if ltb remainder 56 then block_size else block_size * 2

-- The tail with the bytes of `rest`, the marker and the length.
unfoldable pub make_tail : Bytes → ℕ → Bytes
make_tail rest size =
    let copied = copy_tail rest 0 (replicate (block_size * 2) 0) in
    let marked = set copied (length rest) 0x80 in
    write_length 8 (final_size (length rest) - 8) (size * 8 % 2 ^ 64) marked

-- write_word at eight offsets in a row.
abbrev pub word_bytes : ℕ → Bytes
word_bytes value =
    low_byte (shr value 24) ∷ low_byte (shr value 16) ∷ low_byte (shr value 8) ∷ low_byte value ∷ []

abbrev pub digest_bytes : HashState → Sha256Digest
digest_bytes s =
    word_bytes s.a
    ++ (word_bytes s.b
        ++ (word_bytes s.c
            ++ (word_bytes s.d
                ++ (word_bytes s.e ++ (word_bytes s.f ++ (word_bytes s.g ++ word_bytes s.h))))))

-- What is left once the tail is made: one block or two.
abbrev pub finish_blocks : ℕ → Bytes → HashState → HashState
finish_blocks size tail state =
    let state' = process_block (take block_size tail) state in
    if size == block_size * 2
    then process_block (take block_size (drop block_size tail)) state'
    else state'

unfoldable pub sha256 : Bytes → Sha256Digest
sha256 bytes =
    let complete_blocks = length bytes / block_size in
    let state = process_blocks complete_blocks 0 bytes initial_state in
    let rest = drop (complete_blocks * block_size) bytes in
    digest_bytes (finish_blocks (final_size (length rest)) (make_tail rest (length bytes)) state)
