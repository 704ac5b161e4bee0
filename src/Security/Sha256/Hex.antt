-- ===== src/Security/Sha256/Hex.antt =====
-- cpp/src/security/sha256.cpp, Sha256Digest::to_hex: the text of a digest.
use tickline.Base.{ℕ, suc, ◌+◌, ◌*◌, ◌%◌, [], ◌∷◌, set, get_or, replicate, length}
use tickline.Base.Words.{Bytes, shr}
use tickline.Simulation.Fingerprint.{hex_digits}
use tickline.Security.Sha256.{Sha256Digest}

-- The loop over the bytes, from `index`.
unfoldable pub write_digest_hex : ℕ → Bytes → Bytes → Bytes
write_digest_hex index [] result = result
write_digest_hex index (value ∷ bytes) result =
    let high = set result (index * 2) (get_or hex_digits (shr value 4) 0) in
    write_digest_hex (suc index) bytes (set high (index * 2 + 1) (get_or hex_digits (value % 16) 0))

unfoldable pub to_hex : Sha256Digest → Bytes
unfolding write_digest_hex
to_hex digest = write_digest_hex 0 digest (replicate (length digest * 2) 0x30)
