-- ===== src/Contracts/Proxy/Accounts/Letters.antt =====
-- The names of `GetAccountNameFromId` of mvm/eos/contracts/mixinproxy/utils.go are the numbers to the
-- base 26, so that different numbers have different letters.
use trusted_group.Base.{
  ℕ, zero, suc, ◌+◌, ◌-◌, ◌*◌, ◌/◌, ◌^◌, ◌<◌, ◌≡◌, refl, sym, ◌∙◌, ap, Bytes, ◌==◌, ==_iff, [], ◌∷◌,
  length, arith, Bool-cases, inl, inr,
}
use trusted_group.Contracts.Proxy.Accounts.{letters_a, account_letters}

-- The number that letters stand for.
abbrev pub letters_value : Bytes → ℕ
letters_value [] = 0
letters_value (c ∷ cs) = (c - b'a') + 26 * letters_value cs

letters_value-letters_a : (n : ℕ) → letters_value (letters_a n) ≡ 0
letters_value-letters_a zero = refl
letters_value-letters_a (suc n) = omega (arith, letters_value-letters_a n)

length-letters_a : (n : ℕ) → length (letters_a n) ≡ n
length-letters_a zero = refl
length-letters_a (suc n) = omega (arith, length-letters_a n)

quotient_small : (n id : ℕ) → id < 26 ^ suc n → id / 26 < 26 ^ n
quotient_small n id h = grind arith

-- The letters are `n`, and hold the number if it has at most `n` digits.
pub letters_value-account_letters :
    (n id : ℕ)
    → id < 26 ^ n
    → (letters_value (account_letters n id) ≡ id) × (length (account_letters n id) ≡ n)
unfolding account_letters
letters_value-account_letters zero id h = (omega arith, refl)
letters_value-account_letters (suc n) id h = elim (Bool-cases (id / 26 == 0)) [
  | inl e ↦
      let z = (==_iff (id / 26) 0).0 e in
      rw e (omega (arith, letters_value-letters_a n, z), omega (arith, length-letters_a n))
  | inr e ↦
      let (value, long) = letters_value-account_letters n (id / 26) (quotient_small n id h) in
      rw e (omega (arith, value), omega (arith, long))
]

-- Different numbers below 26 ^ 9 have different letters, nine of them.
pub account_letters_injective :
    (id id' : ℕ)
    → id < 26 ^ 9
    → id' < 26 ^ 9
    → account_letters 9 id ≡ account_letters 9 id'
    → id ≡ id'
account_letters_injective id id' h h' e =
    sym (letters_value-account_letters 9 id h).0
    ∙ ap letters_value e
    ∙ (letters_value-account_letters 9 id' h').0
