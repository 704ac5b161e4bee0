-- ===== src/Security/Sha256/Padding.antt =====
-- cpp/src/security/sha256.cpp: the digest against the padded message of FIPS 180-4, section 5.1.1.
use native.Mathlib.Decide.{dec_lt}
use tickline.Base.{
  ℕ, zero, suc, ◌+◌, ◌-◌, ◌*◌, ◌/◌, ◌%◌, ◌^◌, ◌≤◌, ◌<◌, lt→ltb, le→ltb, ◌≡◌, refl, ap, ap₂, sym,
  ◌∙◌, [], ◌∷◌, ◌++◌, append_assoc, append-nil, length, length-append, length-replicate,
  length-drop, set, set_behind, take, take_within, drop, drop_within, drop_twice, replicate,
  replicate-append, arith,
}
use tickline.Base.Words.{Bytes, bytes_u64}
use tickline.Security.Sha256.{
  HashState, process_block, process_blocks, copy_tail, write_length, make_tail, final_size,
  finish_blocks, digest_bytes, initial_state, sha256,
}

-- How many zeros stand between the marker and the length.
abbrev pub zero_count : ℕ → ℕ
zero_count size = (119 - size % 64) % 64

abbrev pub padding : ℕ → Bytes
padding size = 0x80 ∷ (replicate (zero_count size) 0 ++ bytes_u64 (size * 8 % 2 ^ 64))

abbrev pub padded : Bytes → Bytes
padded bytes = bytes ++ padding (length bytes)

-- The copy of a list over as many zeros.
copy_tail-eq :
    (pre bs post : Bytes)
    → copy_tail bs (length pre) (pre ++ (replicate (length bs) 0 ++ post)) ≡ pre ++ (bs ++ post)
unfolding copy_tail
copy_tail-eq pre [] post = refl
copy_tail-eq pre (b ∷ bs) post =
    let rest = replicate (length bs) 0 ++ post in
    let next = pre ++ (b ∷ []) in
    ap (copy_tail bs (length pre + 1))
      (set_behind pre rest 0 b ∙ sym (append_assoc pre (b ∷ []) rest))
    ∙ ap (λ (i : ℕ). copy_tail bs i (next ++ rest)) (omega (arith, length-append pre (b ∷ [])))
    ∙ copy_tail-eq next bs post
    ∙ append_assoc pre (b ∷ []) (bs ++ post)

write_length-copy :
    (offset value : ℕ) (tail : Bytes)
    → write_length 8 offset value tail ≡ copy_tail (bytes_u64 value) offset tail
unfolding write_length copy_tail
write_length-copy offset value tail = refl

-- The tail is the rest of the message, the padding, and zeros that are not read.
module _ (rest : Bytes) (size k p : ℕ) (fits : length rest + (1 + (k + (8 + p))) ≡ 128)
    (place : final_size (length rest) - 8 ≡ length rest + 1 + k) where
  abbrev length_bytes : Bytes
  length_bytes = bytes_u64 (size * 8 % 2 ^ 64)

  abbrev zeros : ℕ → Bytes
  zeros n = replicate n 0

  zeros_split : zeros 128 ≡ zeros (length rest) ++ (zeros 1 ++ (zeros k ++ (zeros 8 ++ zeros p)))
  zeros_split =
      ap zeros (sym fits)
      ∙ replicate-append (length rest) (1 + (k + (8 + p))) 0
      ∙ ap (◌++◌ (zeros (length rest))) (
          replicate-append 1 (k + (8 + p)) 0
          ∙ ap (◌++◌ (zeros 1))
              (replicate-append k (8 + p) 0 ∙ ap (◌++◌ (zeros k)) (replicate-append 8 p 0)))

  copied_lem : copy_tail rest 0 (zeros 128) ≡ rest ++ (zeros 1 ++ (zeros k ++ (zeros 8 ++ zeros p)))
  copied_lem =
      ap (copy_tail rest 0) zeros_split
      ∙ copy_tail-eq [] rest (zeros 1 ++ (zeros k ++ (zeros 8 ++ zeros p)))

  -- What stands in front of the length.
  abbrev front : Bytes
  front = rest ++ (0x80 ∷ zeros k)

  marked_lem : set (copy_tail rest 0 (zeros 128)) (length rest) 0x80 ≡ front ++ (zeros 8 ++ zeros p)
  marked_lem = rw copied_lem (
      set_behind rest (zeros k ++ (zeros 8 ++ zeros p)) 0 0x80
      ∙ sym (append_assoc rest (0x80 ∷ zeros k) (zeros 8 ++ zeros p)))

  length-front : length front ≡ length rest + 1 + k
  length-front = omega (arith, length-append rest (0x80 ∷ zeros k), length-replicate {A = ℕ} k 0)

  pub make_tail-eq : make_tail rest size ≡ front ++ (length_bytes ++ zeros p)
  unfolding make_tail
  make_tail-eq =
      rw (marked_lem, write_length-copy, place, ← length-front)
        (copy_tail-eq front length_bytes (zeros p))

-- Rounds of the loop over the blocks, one part after the other.
process_blocks-append :
    (m n index : ℕ) (bytes : Bytes) (s : HashState)
    → process_blocks (m + n) index bytes s
      ≡ process_blocks n (index + m) bytes (process_blocks m index bytes s)
unfolding process_blocks
process_blocks-append zero n index bytes s =
    let e : 0 + n ≡ n = omega arith in
    let i : index ≡ index + 0 = omega arith in ap₂ (λ k j. process_blocks k j bytes s) e i
process_blocks-append (suc m) n index bytes s =
    let e : suc m + n ≡ suc (m + n) = omega arith in
    let i : index + 1 + m ≡ index + suc m = omega arith in
    let s' = process_block (take 64 (drop (index * 64) bytes)) s in
    ap (λ (k : ℕ). process_blocks k index bytes s) e
    ∙ process_blocks-append m n (index + 1) bytes s'
    ∙ ap (λ (j : ℕ). process_blocks n j bytes (process_blocks m (index + 1) bytes s')) i

-- Blocks that lie within the bytes do not see what is behind them.
process_blocks_within :
    (m index : ℕ) (bytes more : Bytes) (s : HashState)
    → (index + m) * 64 ≤ length bytes
    → process_blocks m index (bytes ++ more) s ≡ process_blocks m index bytes s
unfolding process_blocks
process_blocks_within zero index bytes more s h = refl
process_blocks_within (suc m) index bytes more s h =
    rw
      (
        drop_within (index * 64) bytes more (omega arith),
        take_within 64 (drop (index * 64) bytes) more
            (omega (arith, length-drop (index * 64) bytes)),
      )
      (process_blocks_within m (index + 1) bytes more _ (omega arith))

module _ (bytes : Bytes) where
  abbrev size : ℕ
  size = length bytes

  abbrev complete : ℕ
  complete = size / 64

  abbrev rest_of : Bytes
  rest_of = drop (complete * 64) bytes

  abbrev body : Bytes
  body = rest_of ++ padding size

  length-rest_of : length rest_of ≡ size % 64
  length-rest_of = omega (arith, length-drop (complete * 64) bytes)

  length-padding : length (padding size) ≡ 9 + zero_count size
  length-padding = omega (
    arith,
    length-append (replicate (zero_count size) 0) (bytes_u64 (size * 8 % 2 ^ 64)),
    length-replicate {A = ℕ} (zero_count size) 0,
  )

  drop-padded : drop (complete * 64) (padded bytes) ≡ body
  drop-padded = drop_within (complete * 64) bytes (padding size) (omega arith)

  -- The blocks of the padded message: the complete ones, and `m` of the body.
  split_blocks :
      (m : ℕ)
      → process_blocks (complete + m) 0 (padded bytes) initial_state
        ≡ process_blocks m complete (padded bytes) (process_blocks complete 0 bytes initial_state)
  split_blocks m =
      let e : 0 + complete ≡ complete = omega arith in
      process_blocks-append complete m 0 (padded bytes) initial_state
      ∙ ap₂ (λ i s. process_blocks m i (padded bytes) s) e
          (process_blocks_within complete 0 bytes (padding size) initial_state (omega arith))

  body-front :
      (p : ℕ)
      → (rest_of ++ (0x80 ∷ replicate (zero_count size) 0))
          ++ (bytes_u64 (size * 8 % 2 ^ 64) ++ replicate p 0)
        ≡ body ++ replicate p 0
  body-front p =
      let x = 0x80 ∷ replicate (zero_count size) 0 in
      let l = bytes_u64 (size * 8 % 2 ^ 64) in
      let z = replicate p 0 in
      append_assoc rest_of x (l ++ z)
      ∙ ap (◌++◌ rest_of) (sym (append_assoc x l z))
      ∙ sym (append_assoc rest_of (x ++ l) z)

  length-body : length body ≡ size % 64 + 9 + zero_count size
  length-body = omega (arith, length-append rest_of (padding size), length-rest_of, length-padding)

  length-padded : length (padded bytes) ≡ size + 9 + zero_count size
  length-padded = omega (arith, length-append bytes (padding size), length-padding)

  abbrev state : HashState
  state = process_blocks complete 0 bytes initial_state

  sha256-finish :
      (f p : ℕ)
      → final_size (length rest_of) ≡ f
      → length rest_of + (1 + (zero_count size + (8 + p))) ≡ 128
      → f - 8 ≡ length rest_of + 1 + zero_count size
      → sha256 bytes ≡ digest_bytes (finish_blocks f (body ++ replicate p 0) state)
  unfolding sha256
  sha256-finish f p e fits place =
      let place' = ap (λ (n : ℕ). n - 8) e ∙ place in
      ap₂ (λ n tail. digest_bytes (finish_blocks n tail state)) e
        (make_tail-eq rest_of size (zero_count size) p fits place' ∙ body-front p)

  one_block :
      size % 64 < 56
      → sha256 bytes ≡ digest_bytes (process_blocks (complete + 1) 0 (padded bytes) initial_state)
  unfolding process_blocks
  one_block h =
      let small = lt→ltb (length rest_of) 56 (omega (arith, length-rest_of)) in
      sha256-finish 64 64 (rw small) (omega (arith, length-rest_of)) (omega (arith, length-rest_of))
      ∙ ap (λ b. digest_bytes (process_block b state))
          (take_within 64 body (replicate 64 0) (omega (arith, length-body))
            ∙ ap (take 64) (sym drop-padded))
      ∙ ap digest_bytes (sym (split_blocks 1))

  two_blocks :
      56 ≤ size % 64
      → sha256 bytes ≡ digest_bytes (process_blocks (complete + 2) 0 (padded bytes) initial_state)
  unfolding process_blocks
  two_blocks h =
      let large = le→ltb (length rest_of) 56 (omega (arith, length-rest_of)) in
      let e : complete * 64 + 64 ≡ (complete + 1) * 64 = omega arith in
      sha256-finish 128 0 (rw large) (omega (arith, length-rest_of)) (omega (arith, length-rest_of))
      ∙ ap
          (λ b.
            digest_bytes (process_block (take 64 (drop 64 b)) (process_block (take 64 b) state)))
          (append-nil body ∙ sym drop-padded)
      ∙ ap
          (λ b. digest_bytes (
            process_block (take 64 b)
              (process_block (take 64 (drop (complete * 64) (padded bytes))) state)))
          (drop_twice (complete * 64) 64 (padded bytes) ∙ ap (λ (k : ℕ). drop k (padded bytes)) e)
      ∙ ap digest_bytes (sym (split_blocks 2))

-- The digest is that of the padded message, block by block: the message, a one bit, as few zeros as
-- give a whole number of blocks, and the number of bits modulo 2 ^ 64.
pub sha256-padded :
    (bytes : Bytes)
    → (length (padded bytes) % 64 ≡ 0)
      × (sha256 bytes
          ≡ digest_bytes
              (process_blocks (length (padded bytes) / 64) 0 (padded bytes) initial_state))
sha256-padded bytes = elim (dec_lt (length bytes % 64) 56) [
  | yes h ↦
      let count : length bytes / 64 + 1 ≡ length (padded bytes) / 64 =
        omega (arith, length-padded bytes) in
      (
        omega (arith, length-padded bytes),
        one_block bytes h
            ∙ ap (λ (k : ℕ). digest_bytes (process_blocks k 0 (padded bytes) initial_state)) count,
      )
  | no h ↦
      let count : length bytes / 64 + 2 ≡ length (padded bytes) / 64 =
        omega (arith, length-padded bytes) in
      (
        omega (arith, length-padded bytes),
        two_blocks bytes (omega arith)
            ∙ ap (λ (k : ℕ). digest_bytes (process_blocks k 0 (padded bytes) initial_state)) count,
      )
]

pub length-sha256 : (bs : Bytes) → length (sha256 bs) ≡ 32
unfolding sha256
length-sha256 bs = refl
