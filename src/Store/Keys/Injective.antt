-- ===== src/Store/Keys/Injective.antt =====
-- Two keys are equal only if they have one kind and name one record. Identifiers of one length stand
-- behind each other without a separator.
use trusted_group.Base.{
  ℕ, ◌<◌, ◌^◌, ◌≡◌, refl, ap, Bytes, Bool, true, false, ◌&&◌, ◌==◌, ==_iff, length, [], ◌∷◌, ◌++◌,
  beq, beq_refl, beq→eq, uint64_bytes, uint64_value, uint64_value-uint64_bytes, arith, Bool-cases,
  inl, inr,
}
use trusted_group.Store.Keys.{prefix_account_balance, snapshot_prefix, account_balance_key}

pub beq-append :
    (a b x y : Bytes) → length a ≡ length b → beq (a ++ x) (b ++ y) ≡ (beq a b && beq x y)
unfolding beq
beq-append [] [] x y h = refl
beq-append [] (b ∷ bs) x y h = absurd (omega arith)
beq-append (a ∷ as') [] x y h = absurd (omega arith)
beq-append (a ∷ as') (b ∷ bs) x y h = ground (arith, beq-append as' bs x y (omega arith))

pub beq-prefix : (p x y : Bytes) → beq (p ++ x) (p ++ y) ≡ beq x y
beq-prefix p x y = rw (beq-append p p x y refl, beq_refl p)

pub beq-uint64_bytes :
    (m n : ℕ) → m < 2 ^ 64 → n < 2 ^ 64 → beq (uint64_bytes m) (uint64_bytes n) ≡ (m == n)
beq-uint64_bytes m n hm hn = elim (Bool-cases (beq (uint64_bytes m) (uint64_bytes n))) [
  | inl same ↦ ground (
    arith,
    ap uint64_value (beq→eq _ _ same),
    uint64_value-uint64_bytes m hm,
    uint64_value-uint64_bytes n hn,
  )
  | inr differ ↦ elim (Bool-cases (m == n)) [
    | inl eq ↦ cc (
      beq_refl (uint64_bytes n),
      ap (λ k. beq (uint64_bytes k) (uint64_bytes n)) ((==_iff m n).0 eq),
    )
    | inr ne ↦ cc
  ]
]

-- A text, then a 64-bit number.
pub beq_numbered :
    (p a b : Bytes) (m n : ℕ)
    → length a ≡ length b
    → m < 2 ^ 64
    → n < 2 ^ 64
    → beq (p ++ (a ++ uint64_bytes m)) (p ++ (b ++ uint64_bytes n)) ≡ (beq a b && (m == n))
beq_numbered p a b m n h hm hn = rw (beq-prefix p, beq-append a b _ _ h, beq-uint64_bytes m n hm hn)

pub beq-account_balance_key :
    (p q a b : Bytes)
    → length p ≡ length q
    → beq (account_balance_key p a) (account_balance_key q b) ≡ (beq p q && beq a b)
unfolding account_balance_key
beq-account_balance_key p q a b h = rw (beq-prefix prefix_account_balance, beq-append p q a b h)

abbrev pub same_way : Bool → Bool → Bool
same_way true true = true
same_way false false = true
same_way _ _ = false

pub beq-snapshot_key :
    (c c' : Bool) (p q : Bytes) (m n : ℕ)
    → length p ≡ length q
    → m < 2 ^ 64
    → n < 2 ^ 64
    → beq (snapshot_prefix c ++ (p ++ uint64_bytes m)) (snapshot_prefix c' ++ (q ++ uint64_bytes n))
      ≡ (same_way c c' && (beq p q && (m == n)))
unfolding snapshot_prefix
beq-snapshot_key true true p q m n h hm hn = beq_numbered (snapshot_prefix true) p q m n h hm hn
beq-snapshot_key true false p q m n h hm hn = unfold beq in refl
beq-snapshot_key false true p q m n h hm hn = unfold beq in refl
beq-snapshot_key false false p q m n h hm hn = beq_numbered (snapshot_prefix false) p q m n h hm hn

pub balance_key-ne-snapshot_key :
    (c : Bool) (p a x : Bytes) → beq (account_balance_key p a) (snapshot_prefix c ++ x) ≡ false
unfolding account_balance_key snapshot_prefix beq
balance_key-ne-snapshot_key true p a x = refl
balance_key-ne-snapshot_key false p a x = refl

pub snapshot_key-ne-balance_key :
    (c : Bool) (p a x : Bytes) → beq (snapshot_prefix c ++ x) (account_balance_key p a) ≡ false
unfolding account_balance_key snapshot_prefix beq
snapshot_key-ne-balance_key true p a x = refl
snapshot_key-ne-balance_key false p a x = refl
