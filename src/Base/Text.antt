-- ===== src/Base/Text.antt =====
-- Text as the bytes of its characters, and std::to_string of an unsigned number.
use Prim.Native.Char.{code}
use Prim.Native.Nat.{ℕ, zero, suc, ◌+◌, ◌/◌, ◌%◌}
use Prim.Native.String.{String}
use mathlib.Core.Bool.{true, false}
use mathlib.Core.List.{[], ◌∷◌}
use tickline.Base.Tests.{ltb}
use tickline.Base.Words.{Bytes}

-- The bytes of a literal in ASCII. `String` has its own `[]` and `∷`.
abbrev pub codes : String → Bytes
codes String.[] = []
codes (String.◌∷◌ c s) = code c ∷ codes s

-- The decimal digits of `n` in front of `rest`, by at most `rounds` divisions.
unfoldable pub write_decimal : ℕ → ℕ → Bytes → Bytes
write_decimal zero n rest = rest
write_decimal (suc rounds) n rest = elim (ltb n 10) [
  | true ↦ (n + 0x30) ∷ rest
  | false ↦ write_decimal rounds (n / 10) ((n % 10 + 0x30) ∷ rest)
]

-- `std::to_string`: a number has no more digits than its value and one.
unfoldable pub to_string : ℕ → Bytes
unfolding write_decimal
to_string n = write_decimal (suc n) n []
