-- ===== src/Base/Texts.antt =====
-- What the program takes from `fmt` and `strings`: `%d`, `%16x` and `Contains`.
use Prim.Native.Nat.{ℕ, zero, suc, ◌+◌, ◌-◌, ◌/◌, ◌%◌}
use mathlib.Core.Bool.{Bool, true, false, ◌&&◌, ◌||◌}
use mathlib.Core.List.{[], ◌∷◌, ◌++◌}
use trusted_group.Base.Tests.{ltb, ◌==◌, if◌then◌else◌}
use trusted_group.Base.Lists.{Bytes, length}

-- The digits of `n` to a base, for at most `fuel` digits: twenty are enough for 64 bits in decimal.
abbrev digit : ℕ → ℕ
digit n = if ltb n 10 then b'0' + n else b'a' + (n - 10)

print_digits : ℕ → ℕ → ℕ → Bytes
print_digits zero base n = []
print_digits (suc fuel) base n =
    let front = print_digits fuel base (n / base) in
    if ltb n base then digit n ∷ [] else front ++ (digit (n % base) ∷ [])

-- `%d`
unfoldable pub decimal : ℕ → Bytes
unfolding print_digits
decimal n = print_digits 20 10 n

spaces : ℕ → Bytes
spaces zero = []
spaces (suc n) = b' ' ∷ spaces n

-- `%16x`: hexadecimal, to the right of a field of sixteen places.
unfoldable pub hex16 : ℕ → Bytes
unfolding print_digits spaces
hex16 n = let digits = print_digits 16 16 n in spaces (16 - length digits) ++ digits

starts_with : Bytes → Bytes → Bool
starts_with [] s = true
starts_with (a ∷ p) [] = false
starts_with (a ∷ p) (b ∷ s) = (a == b) && starts_with p s

-- `strings.Contains(s, p)`
unfoldable pub contains : Bytes → Bytes → Bool
unfolding starts_with
contains [] p = starts_with p []
contains (a ∷ s) p = starts_with p (a ∷ s) || contains s p
