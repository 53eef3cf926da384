-- ===== src/Base/Base64.antt =====
-- `base64.RawURLEncoding`: four letters for three bytes, no padding, line breaks skipped.
use Prim.Native.Nat.{ℕ, ◌+◌, ◌-◌, ◌*◌, ◌/◌, ◌%◌, ◌<◌}
use mathlib.Core.Path.{◌≡◌, refl}
use mathlib.Core.Bool.{Bool, false, ◌||◌, ◌&&◌}
use mathlib.Core.Option.{Option, none, some}
use mathlib.Core.List.{[], ◌∷◌}
use native.Mathlib.Omega.{arith}
use trusted_group.Base.Tests.{ltb, leb, ◌==◌, if◌then◌else◌}
use trusted_group.Base.Lists.{Bytes, All}
use trusted_group.Base.Results.{Outcome, ok, err, bad_input, ◌>>=◌, of_option}

letter : ℕ → ℕ
letter c =
    if ltb c 26
    then b'A' + c
    else if ltb c 52
    then b'a' + (c - 26)
    else if ltb c 62
    then b'0' + (c - 52)
    else if c == 62
    then b'-'
    else b'_'

value : ℕ → Option ℕ
value c =
    if leb b'A' c && leb c b'Z'
    then some (c - b'A')
    else if leb b'a' c && leb c b'z'
    then some (c - b'a' + 26)
    else if leb b'0' c && leb c b'9'
    then some (c - b'0' + 52)
    else if c == b'-'
    then some 62
    else if c == b'_'
    then some 63
    else none

value-letter : (c : ℕ) → c < 64 → value (letter c) ≡ some c
unfolding value letter
value-letter c h = ground arith

unfoldable pub encode_base64 : Bytes → Bytes
unfolding letter
encode_base64 [] = []
encode_base64 (a ∷ []) = letter (a / 4) ∷ letter (a % 4 * 16) ∷ []
encode_base64 (a ∷ b ∷ []) =
    letter (a / 4) ∷ letter (a % 4 * 16 + b / 16) ∷ letter (b % 16 * 4) ∷ []
encode_base64 (a ∷ b ∷ c ∷ rest) =
    letter (a / 4)
    ∷ letter (a % 4 * 16 + b / 16)
    ∷ letter (b % 16 * 4 + c / 64)
    ∷ letter (c % 64)
    ∷ encode_base64 rest

is_break : ℕ → Bool
is_break c = (c == 10) || (c == 13)

skip_breaks : Bytes → Bytes
skip_breaks [] = []
skip_breaks (c ∷ cs) = let rest = skip_breaks cs in if is_break c then rest else c ∷ rest

abbrev digit_of : ℕ → Outcome ℕ
digit_of c = of_option bad_input (value c)

decode_groups : Bytes → Outcome Bytes
decode_groups [] = ok []
decode_groups (p ∷ []) = err bad_input
decode_groups (p ∷ q ∷ []) = do w ← digit_of p; x ← digit_of q; ok ((w * 4 + x / 16) ∷ [])
decode_groups (p ∷ q ∷ r ∷ []) = do
  w ← digit_of p
  x ← digit_of q
  y ← digit_of r
  ok ((w * 4 + x / 16) ∷ (x % 16 * 16 + y / 4) ∷ [])
decode_groups (p ∷ q ∷ r ∷ s ∷ rest) = do
  w ← digit_of p
  x ← digit_of q
  y ← digit_of r
  z ← digit_of s
  more ← decode_groups rest
  ok ((w * 4 + x / 16) ∷ (x % 16 * 16 + y / 4) ∷ (y % 4 * 64 + z) ∷ more)

unfoldable pub decode_base64 : Bytes → Outcome Bytes
unfolding decode_groups skip_breaks is_break value
decode_base64 b = decode_groups (skip_breaks b)

letter-no_break : (c : ℕ) → is_break (letter c) ≡ false
unfolding is_break letter
letter-no_break c = ground arith

skip_breaks-encode : (b : Bytes) → skip_breaks (encode_base64 b) ≡ encode_base64 b
unfolding skip_breaks encode_base64
skip_breaks-encode [] = refl
skip_breaks-encode (a ∷ []) = simp letter-no_break
skip_breaks-encode (a ∷ b ∷ []) = simp letter-no_break
skip_breaks-encode (a ∷ b ∷ c ∷ rest) = simp (letter-no_break, skip_breaks-encode rest)

decode_groups-encode :
    (b : Bytes) → All (λ (x : ℕ). x < 256) b → decode_groups (encode_base64 b) ≡ ok b
unfolding decode_groups encode_base64
decode_groups-encode [] h = refl
decode_groups-encode (a ∷ []) (ha, _) =
    rw (value-letter (a / 4) (omega arith), value-letter (a % 4 * 16) (omega arith)) (ground arith)
decode_groups-encode (a ∷ b ∷ []) (ha, (hb, _)) =
    rw
      (
        value-letter (a / 4) (omega arith),
        value-letter (a % 4 * 16 + b / 16) (omega arith),
        value-letter (b % 16 * 4) (omega arith),
      )
      (ground arith)
decode_groups-encode (a ∷ b ∷ c ∷ rest) (ha, (hb, (hc, hs))) =
    rw
      (
        value-letter (a / 4) (omega arith),
        value-letter (a % 4 * 16 + b / 16) (omega arith),
        value-letter (b % 16 * 4 + c / 64) (omega arith),
        value-letter (c % 64) (omega arith),
        decode_groups-encode rest hs,
      )
      (ground arith)

pub decode_base64-encode_base64 :
    (b : Bytes) → All (λ (x : ℕ). x < 256) b → decode_base64 (encode_base64 b) ≡ ok b
unfolding decode_base64
decode_base64-encode_base64 b h = rw (skip_breaks-encode b) (decode_groups-encode b h)
