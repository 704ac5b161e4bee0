-- ===== src/Examples/Security.antt =====
-- Examples of the digest.
use tickline.Base.{◌≡◌, refl, ◌%◌, ◌/◌, [], ◌∷◌, length, take}
use tickline.Base.Words.{Bytes}
use tickline.Security.Sha256.{
  sha256, digest_bytes, process_block, process_blocks, make_tail, copy_tail, write_length,
  initial_state,
}
use tickline.Security.Sha256.Padding.{padded, sha256-padded}

-- "abc"
abbrev abc : Bytes
abc = 0x61 ∷ 0x62 ∷ 0x63 ∷ []

-- The first bytes of the digest that FIPS 180-4 gives for it.
abc_digest : take 4 (sha256 abc) ≡ 0xba ∷ 0x78 ∷ 0x16 ∷ 0xbf ∷ []
unfolding sha256 process_block process_blocks make_tail copy_tail write_length
abc_digest = refl

sha256-padded_example :
    (length (padded abc) % 64 ≡ 0)
    × (sha256 abc
        ≡ digest_bytes (process_blocks (length (padded abc) / 64) 0 (padded abc) initial_state))
sha256-padded_example = sha256-padded abc
