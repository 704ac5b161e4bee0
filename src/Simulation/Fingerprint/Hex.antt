-- ===== src/Simulation/Fingerprint/Hex.antt =====
-- cpp/src/simulation/state_fingerprint.cpp: the text of a fingerprint.
use tickline.Base.{ℕ, ◌+◌, ◌-◌, ◌*◌, ◌<◌, ltb, if◌then◌else◌, ◌≡◌, [], ◌∷◌, arith}
use tickline.Base.Words.{Bytes}

-- What a character of a hexadecimal number stands for.
abbrev pub hex_value : ℕ → ℕ
hex_value c = if ltb c 0x61 then c - 0x30 else c - 0x57

-- The number that hexadecimal digits stand for, behind those that give `value`.
abbrev pub of_hex : ℕ → Bytes → ℕ
of_hex value [] = value
of_hex value (c ∷ cs) = of_hex (value * 16 + hex_value c) cs

abbrev pub digit : ℕ → ℕ
digit d = if ltb d 10 then d + 0x30 else d + 0x57

pub hex_value-digit : (d : ℕ) → d < 16 → hex_value (digit d) ≡ d
hex_value-digit d h = ground arith
