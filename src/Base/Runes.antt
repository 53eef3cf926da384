-- ===== src/Base/Runes.antt =====
-- What the language does in `for _, c := range s`: the runes of a text in UTF-8, and what the program
-- takes from `encoding/hex`.
use Prim.Native.Nat.{ℕ, zero, suc, ◌+◌, ◌-◌, ◌*◌, ◌%◌}
use mathlib.Core.Bool.{Bool, ◌&&◌}
use mathlib.Core.Option.{Option, none, some}
use mathlib.Core.List.{List, [], ◌∷◌}
use trusted_group.Base.Tests.{leb, ltb, ◌==◌, if◌then◌else◌}
use trusted_group.Base.Lists.{Bytes, length, drop}

abbrev between : ℕ → ℕ → ℕ → Bool
between low n high = leb low n && leb n high

abbrev rune_error : ℕ
rune_error = 65533

-- The least and the greatest second byte after a first byte.
abbrev second_low : ℕ → ℕ
second_low a = if a == 224 then 160 else if a == 240 then 144 else 128

abbrev second_high : ℕ → ℕ
second_high a = if a == 237 then 159 else if a == 244 then 143 else 191

-- The rune in front, and how many bytes it takes; a byte that is not one stands for an error.
unfoldable pub first_rune : Bytes → ℕ × ℕ
first_rune [] = (rune_error, 1)
first_rune (a ∷ []) = if ltb a 128 then (a, 1) else (rune_error, 1)
first_rune (a ∷ b ∷ []) =
    if ltb a 128
    then (a, 1)
    else if between 194 a 223 && between 128 b 191
    then (a % 32 * 64 + b % 64, 2)
    else (rune_error, 1)
first_rune (a ∷ b ∷ c ∷ []) =
    if ltb a 128
    then (a, 1)
    else if between 194 a 223 && between 128 b 191
    then (a % 32 * 64 + b % 64, 2)
    else if between 224 a 239 && (between (second_low a) b (second_high a) && between 128 c 191)
    then (a % 16 * 4096 + b % 64 * 64 + c % 64, 3)
    else (rune_error, 1)
first_rune (a ∷ b ∷ c ∷ d ∷ rest) =
    if ltb a 128
    then (a, 1)
    else if between 194 a 223 && between 128 b 191
    then (a % 32 * 64 + b % 64, 2)
    else if between 224 a 239 && (between (second_low a) b (second_high a) && between 128 c 191)
    then (a % 16 * 4096 + b % 64 * 64 + c % 64, 3)
    else if between 240 a 244
        && (between (second_low a) b (second_high a) && (between 128 c 191 && between 128 d 191))
    then (a % 8 * 262144 + b % 64 * 4096 + c % 64 * 64 + d % 64, 4)
    else (rune_error, 1)

-- A rune takes at least a byte, so that the number of the bytes is enough fuel.
runes_on : ℕ → Bytes → List ℕ
unfolding first_rune
runes_on fuel [] = []
runes_on zero (a ∷ s) = []
runes_on (suc fuel) (a ∷ s) =
    let front = first_rune (a ∷ s) in front.0 ∷ runes_on fuel (drop front.1 (a ∷ s))

unfoldable pub runes : Bytes → List ℕ
unfolding runes_on
runes s = runes_on (length s) s

unfoldable pub hex_digit : ℕ → Option ℕ
hex_digit c =
    if between b'0' c b'9'
    then some (c - b'0')
    else if between b'a' c b'f'
    then some (c - b'a' + 10)
    else if between b'A' c b'F'
    then some (c - b'A' + 10)
    else none

hex_pair : Option ℕ → Option ℕ → Option Bytes → Option Bytes
hex_pair (some x) (some y) (some rest) = some ((x * 16 + y) ∷ rest)
hex_pair _ _ _ = none

-- `hex.DecodeString`
unfoldable pub decode_hex : Bytes → Option Bytes
unfolding hex_digit hex_pair
decode_hex [] = some []
decode_hex (a ∷ []) = none
decode_hex (a ∷ b ∷ rest) = hex_pair (hex_digit a) (hex_digit b) (decode_hex rest)
