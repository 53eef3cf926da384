-- ===== src/Base/Words.antt =====
-- `binary.BigEndian.PutUint64` and `Uint64`, and the order of byte keys.
use Prim.Native.Nat.{ℕ, zero, suc, ◌+◌, ◌*◌, ◌/◌, ◌%◌, ◌^◌, ◌<◌}
use mathlib.Core.Path.{◌≡◌, refl, ap, ◌∙◌, sym}
use mathlib.Core.Logic.{◌⊎◌, inl, inr}
use mathlib.Core.List.{[], ◌∷◌, ◌++◌}
use native.Mathlib.Omega.{arith}
use native.Mathlib.Decide.{dec_lt}
use trusted_group.Base.Tests.{ltb, if◌then◌else◌}
use trusted_group.Base.Lists.{Bytes, length, length-append, take}
use trusted_group.Base.Results.{Outcome, ok, panic}

-- The `k` low bytes of `n`, the highest first.
unfoldable pub be_bytes : ℕ → ℕ → Bytes
be_bytes zero n = []
be_bytes (suc k) n = be_bytes k (n / 256) ++ (n % 256 ∷ [])

unfoldable pub be_value : ℕ → Bytes → ℕ
be_value acc [] = acc
be_value acc (b ∷ bs) = be_value (acc * 256 + b) bs

unfoldable pub uint64_bytes : ℕ → Bytes
unfolding be_bytes
uint64_bytes n = be_bytes 8 n

-- `binary.LittleEndian.Uint64` of eight bytes: the lowest byte first.
unfoldable pub le_value : Bytes → ℕ
le_value [] = 0
le_value (b ∷ bs) = b + 256 * le_value bs

-- `Uint64` reads the first eight bytes and panics if there are fewer.
unfoldable pub uint64_value : Bytes → Outcome ℕ
unfolding be_value
uint64_value b = if ltb (length b) 8 then panic else ok (be_value 0 (take 8 b))

be_value-append :
    (acc : ℕ) (xs : Bytes) (b : ℕ) → be_value acc (xs ++ (b ∷ [])) ≡ be_value acc xs * 256 + b
unfolding be_value
be_value-append acc [] b = refl
be_value-append acc (x ∷ xs) b = be_value-append (acc * 256 + x) xs b

div_small : (k n : ℕ) → n < 256 ^ suc k → n / 256 < 256 ^ k
div_small k n h = grind arith

be_value-be_bytes : (k n : ℕ) → n < 256 ^ k → be_value 0 (be_bytes k n) ≡ n
unfolding be_bytes
be_value-be_bytes zero n h = unfold be_value in omega arith
be_value-be_bytes (suc k) n h =
    be_value-append 0 (be_bytes k (n / 256)) (n % 256)
    ∙ omega (arith, be_value-be_bytes k (n / 256) (div_small k n h))

pub length-be_bytes : (k n : ℕ) → length (be_bytes k n) ≡ k
unfolding be_bytes
length-be_bytes zero n = refl
length-be_bytes (suc k) n =
    length-append (be_bytes k (n / 256)) (n % 256 ∷ []) ∙ omega (arith, length-be_bytes k (n / 256))

pub length-uint64_bytes : (n : ℕ) → length (uint64_bytes n) ≡ 8
unfolding uint64_bytes
length-uint64_bytes n = length-be_bytes 8 n

take_all : (b : Bytes) → take (length b) b ≡ b
take_all [] = refl
take_all (x ∷ b) = ap (λ l. x ∷ l) (take_all b)

-- A 64-bit number that is written is read back.
pub uint64_value-uint64_bytes : (n : ℕ) → n < 2 ^ 64 → uint64_value (uint64_bytes n) ≡ ok n
unfolding uint64_value
uint64_value-uint64_bytes n h = rw (length-uint64_bytes n, whole) (ap ok back)
  where
    whole : take 8 (uint64_bytes n) ≡ uint64_bytes n
    whole = rw (length-uint64_bytes n) at (take_all (uint64_bytes n))

    back : be_value 0 (uint64_bytes n) ≡ n
    back = unfold uint64_bytes in be_value-be_bytes 8 n h

-- The order of keys: by the first byte that differs, a proper prefix first.
abbrev pub Before : Bytes → Bytes → Type 0
Before [] [] = ⊥
Before [] (b ∷ bs) = Unit
Before (a ∷ as') [] = ⊥
Before (a ∷ as') (b ∷ bs) = (a < b) ⊎ ((a ≡ b) × Before as' bs)

pub Before-append : (p a b : Bytes) → Before a b → Before (p ++ a) (p ++ b)
Before-append [] a b h = h
Before-append (x ∷ p) a b h = inr (refl, Before-append p a b h)

Before-extend : (a b x y : Bytes) → length a ≡ length b → Before a b → Before (a ++ x) (b ++ y)
Before-extend [] [] x y e h = absurd h
Before-extend [] (b ∷ bs) x y e h = absurd (omega arith)
Before-extend (a ∷ as') [] x y e h = absurd h
Before-extend (a ∷ as') (b ∷ bs) x y e (inl lt) = inl lt
Before-extend (a ∷ as') (b ∷ bs) x y e (inr (eq, h)) =
    inr (eq, Before-extend as' bs x y (omega arith) h)

be_bytes-Before : (k m n : ℕ) → m < n → n < 256 ^ k → Before (be_bytes k m) (be_bytes k n)
unfolding be_bytes
be_bytes-Before zero m n h bound = absurd (omega arith)
be_bytes-Before (suc k) m n h bound = elim (dec_lt (m / 256) (n / 256)) [
  | yes p ↦
      Before-extend (be_bytes k (m / 256)) (be_bytes k (n / 256)) _ _
        (length-be_bytes k (m / 256) ∙ sym (length-be_bytes k (n / 256)))
        (be_bytes-Before k (m / 256) (n / 256) p (div_small k n bound))
  | no p ↦
      let same : m / 256 ≡ n / 256 = omega arith in
      rw same (Before-append (be_bytes k (n / 256)) _ _ (inl (omega arith)))
]

-- Eight-byte keys are ordered as the numbers that they hold.
pub uint64_bytes-Before : (m n : ℕ) → m < n → n < 2 ^ 64 → Before (uint64_bytes m) (uint64_bytes n)
unfolding uint64_bytes
uint64_bytes-Before m n h bound = be_bytes-Before 8 m n h bound
