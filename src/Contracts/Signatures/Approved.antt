-- ===== src/Contracts/Signatures/Approved.antt =====
-- What `VerifySignatures` of mvm/eos/contracts/mtg.xin/utils.go makes sure of.
use trusted_group.Base.{
  ℕ, ◌+◌, ◌*◌, ◌/◌, ◌≤◌, ◌≡◌, refl, Bytes, true, false, not, beq, leb, length, List, [], ◌∷◌, inl,
  inr, All, All-weaken, arith, Bool-cases, ok, >>=-eq-ok,
}
use trusted_group.External.{Tables, Chaining, Holds}
use trusted_group.Contracts.{check->>}
use trusted_group.Contracts.Signatures.{
  ContractSigner, is_duplicated, check_duplicated_signature, is_signer, count_signatures,
  verify_signatures,
}

leb→le : (a b : ℕ) → leb a b ≡ true → a ≤ b
leb→le a b h = ground arith

-- No two of the signatures are the same.
abbrev pub AllDistinct : List Bytes → Type 0
AllDistinct [] = Unit
AllDistinct (s ∷ l) = (is_duplicated l s ≡ false) × AllDistinct l

module _ ⦃chaining : Chaining⦄ where
  open chaining use {sha256, recover_key}

  -- The signature is the one of a signer.
  abbrev pub IsSigned : Bytes → List (ℕ × ContractSigner) → Bytes → Type 0
  IsSigned digest signers s =
      (key : Bytes) × (recover_key digest s ≡ ok key) × (is_signer signers key ≡ true)

  -- At least `threshold` distinct signatures of the list are signatures of signers.
  pub record Approved (digest : Bytes) (signers : List (ℕ × ContractSigner)) (threshold : ℕ)
      (signatures : List Bytes) : Type 0 where
    pub approvals : List Bytes
    pub distinct : AllDistinct approvals
    pub given : All (λ (s : Bytes). Holds s signatures) approvals
    pub signed : All (IsSigned digest signers) approvals
    pub enough : threshold ≤ length approvals

  apart_held :
      (verified : List Bytes) (a s : Bytes)
      → Holds a verified
      → is_duplicated verified s ≡ false
      → beq a s ≡ false
  unfolding is_duplicated
  apart_held [] a s i h = absurd i
  apart_held (x ∷ l) a s (inl e) h = rw e (ground arith)
  apart_held (x ∷ l) a s (inr i) h = apart_held l a s i (ground arith)

  new_among :
      (acc verified : List Bytes) (s : Bytes)
      → All (λ (a : Bytes). Holds a verified) acc
      → is_duplicated verified s ≡ false
      → is_duplicated acc s ≡ false
  unfolding is_duplicated
  new_among [] verified s h fresh = refl
  new_among (a ∷ acc) verified s (i, h) fresh =
      rw (apart_held verified a s i fresh) (new_among acc verified s h fresh)

  module _ (digest : Bytes) (signers : List (ℕ × ContractSigner)) (threshold : ℕ) where
    -- The loop, after it has counted the signatures `acc`.
    count_signatures-Approved :
        (all verified acc sigs : List Bytes) (valid : ℕ) {u : Unit {0}}
        → AllDistinct acc
        → All (λ (s : Bytes). Holds s verified) acc
        → All (λ (s : Bytes). Holds s all) acc
        → All (IsSigned digest signers) acc
        → length acc ≡ valid
        → ((s : Bytes) → Holds s sigs → Holds s all)
        → count_signatures digest signers threshold verified valid sigs ≡ ok u
        → Approved digest signers threshold all
    unfolding count_signatures check_duplicated_signature
    count_signatures-Approved all verified acc [] valid d v i s n sub h = cc
    count_signatures-Approved all verified acc (x ∷ sigs) valid d v i s n sub h =
        let (fresh, h₁) = check->> (not (is_duplicated verified x)) _ h in
        let (key, found, h₂) = >>=-eq-ok (recover_key digest x) _ h₁ in
        let new = new_among acc verified x v (ground arith) in
        let wider : All (λ (t : Bytes). Holds t (x ∷ verified)) acc =
          All-weaken acc (λ t j. inr j) v in
        let later = λ (t : Bytes) (j : Holds t sigs). sub t (inr j) in
        elim (Bool-cases (is_signer signers key)) [
          | inl e ↦
              let h₃ = rw e at h₂ in
              elim (Bool-cases (leb threshold (valid + 1))) [
                | inl done ↦ record {
                  approvals = x ∷ acc;
                  distinct = (new, d);
                  given = (sub x (inl refl), i);
                  signed = ((key, found, e), s);
                  enough = omega (arith, leb→le _ _ done, n);
                }
                | inr more ↦
                    count_signatures-Approved all (x ∷ verified) (x ∷ acc) sigs (valid + 1) (new, d)
                      (inl refl, wider) (sub x (inl refl), i) ((key, found, e), s)
                      (omega (arith, n)) later (rw more at h₃)
              ]
          | inr e ↦
              let h₃ = rw e at h₂ in
              elim (Bool-cases (leb threshold valid)) [
                | inl done ↦ record {
                  approvals = acc;
                  distinct = d;
                  given = i;
                  signed = s;
                  enough = omega (arith, leb→le _ _ done, n);
                }
                | inr more ↦
                    count_signatures-Approved all (x ∷ verified) acc sigs valid d wider i s n later
                      (rw more at h₃)
              ]
        ]

  module _ ⦃tables : Tables⦄ where
    open tables use {Rows, rows}

    -- A message that passes has distinct signatures, each of a signer, more than two thirds of the
    -- number of signers.
    pub verify_signatures-Approved :
        (signer_table : Rows ContractSigner) (code_account : ℕ) (message : Bytes)
        (signatures : List Bytes) {u : Unit {0}}
        → verify_signatures signer_table code_account message signatures ≡ ok u
        → Approved
            (sha256 message)
            (rows signer_table code_account)
            (length (rows signer_table code_account) * 2 / 3 + 1)
            signatures
    unfolding verify_signatures
    verify_signatures-Approved signer_table code_account message signatures h =
        count_signatures-Approved (sha256 message) (rows signer_table code_account)
          (length (rows signer_table code_account) * 2 / 3 + 1) signatures [] [] signatures 0 tt tt
          tt tt refl (λ s i. i) h
