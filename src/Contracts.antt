-- ===== src/Contracts.antt =====
-- The contracts in Go under mvm/eos/contracts: what they share, which are the tests on `int64` words
-- and the look-ups that stop the contract.
pub mod Token
pub mod Signatures
pub mod Mtg
pub mod Proxy
use trusted_group.Base.{
  ℕ, ◌+◌, ◌%◌, ◌^◌, ◌<◌, ◌≤◌, ◌≡◌, refl, sym, ◌∙◌, subst, inl, inr, Option-cases, length, List, [],
  ◌∷◌, ok_injective, Bool, true, false, ◌&&◌, ltb, leb, Option, none, some, arith, Outcome, ok,
  panic, ◌>>◌,
}
use trusted_group.External.{Tables, Holds, check, without}

-- `a > 0` and `a <= b` on `int64` words.
unfoldable pub is_positive : ℕ → Bool
is_positive a = ltb 0 a && ltb a (2 ^ 63)

unfoldable pub signed_le : ℕ → ℕ → Bool
signed_le a b = leb ((a + 2 ^ 63) % 2 ^ 64) ((b + 2 ^ 63) % 2 ^ 64)

-- `it.IsOk()`
unfoldable pub is_found {ℓ} : {A : Type ℓ} → Option A → Bool
is_found none = false
is_found (some a) = true

pub check-eq-ok : (b : Bool) {u : Unit {0}} → check b ≡ ok u → b ≡ true
check-eq-ok true h = refl
check-eq-ok false h = cc

-- A check that passed, and what came after it.
pub check->> :
    {A : Type 0} (b : Bool) (k : Outcome A) {r : A}
    → (check b >> k) ≡ ok r
    → (b ≡ true) × (k ≡ ok r)
check->> true k h = (refl, h)
check->> false k h = cc

pub is_positive→lt : (a : ℕ) → is_positive a ≡ true → (0 < a) × (a < 2 ^ 63)
unfolding is_positive
is_positive→lt a h = ground arith

pub signed_le→le : (a b : ℕ) → a < 2 ^ 63 → b < 2 ^ 63 → signed_le a b ≡ true → a ≤ b
unfolding signed_le
signed_le→le a b ha hb h = ground arith

-- `it, item := db.Get(key); check(it.IsOk(), …)`
found_or_stop : {V : Type 0} → Option V → Outcome V
found_or_stop none = panic
found_or_stop (some v) = ok v

found_or_stop-eq-ok : {V : Type 0} (o : Option V) {v : V} → found_or_stop o ≡ ok v → o ≡ some v
unfolding found_or_stop
found_or_stop-eq-ok none h = cc
found_or_stop-eq-ok (some v) h = cc

pub length-without : {A : Type 0} (k : ℕ) (l : List (ℕ × A)) → length (without k l) ≤ length l
length-without k [] = omega arith
length-without k ((j, a) ∷ l) = ground (arith, length-without k l)

pub length-without_lt :
    {A : Type 0} (k : ℕ) (a : A) (l : List (ℕ × A))
    → Holds (k, a) l
    → length (without k l) < length l
length-without_lt k a [] h = absurd h
length-without_lt k a ((j, b) ∷ l) h = ground (arith, length-without k l, length-without_lt k a l)

module _ ⦃tables : Tables⦄ where
  open tables use {Rows, find, put, store, rows, store_new, store_known, rows_complete}

  unfoldable pub must_find : {V : Type 0} → Rows V → ℕ → ℕ → Outcome V
  unfolding found_or_stop
  must_find rows scope key = found_or_stop (find rows scope key)

  pub must_find-eq-ok :
      {V : Type 0} (r : Rows V) (s k : ℕ) {v : V} → must_find r s k ≡ ok v → find r s k ≡ some v
  unfolding must_find
  must_find-eq-ok r s k h = found_or_stop-eq-ok (find r s k) h

  -- A table without rows finds nothing.
  pub no_rows : {V : Type 0} (r : Rows V) (scope k : ℕ) → rows r scope ≡ [] → find r scope k ≡ none
  no_rows r scope k e = elim (Option-cases (find r scope k)) [
    | inl n ↦ n
    | inr (v, s) ↦ absurd (subst (Holds (k, v)) e (rows_complete r scope k v s))
  ]

  -- A row is stored where there was none.
  pub stored :
      {V : Type 0} (r r' : Rows V) (s k : ℕ) (v : V)
      → store r s k v ≡ ok r'
      → (find r s k ≡ none) × (r' ≡ put r s k v)
  stored r r' s k v h = elim (Option-cases (find r s k)) [
    | inl n ↦ (n, ok_injective (sym h ∙ store_new r s k v n))
    | inr (w, e) ↦ absurd (let c = sym h ∙ store_known r s k v w e in cc c)
  ]
