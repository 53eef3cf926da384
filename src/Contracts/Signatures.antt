-- ===== src/Contracts/Signatures.antt =====
-- `VerifySignatures` of mvm/eos/contracts/mtg.xin/utils.go, which mixinproxy/utils.go has too, with the
-- table of the signers of mtg.xin.
pub mod Approved
use trusted_group.Base.{
  ℕ, ◌+◌, ◌*◌, ◌/◌, Bytes, Bool, false, not, ◌||◌, beq, leb, length, List, [], ◌∷◌, if◌then◌else◌,
  Outcome, ok, panic, ◌>>=◌, ◌>>◌,
}
use trusted_group.External.{Tables, Chaining, check}

pub record ContractSigner : Type 0 where
  pub account : ℕ
  pub public_key : Bytes

unfoldable pub is_duplicated : List Bytes → Bytes → Bool
is_duplicated [] signature = false
is_duplicated (sig ∷ rest) signature = beq sig signature || is_duplicated rest signature

unfoldable pub check_duplicated_signature : List Bytes → Bytes → Outcome (Unit {0})
unfolding is_duplicated
check_duplicated_signature signatures signature = check (not (is_duplicated signatures signature))

unfoldable pub is_signer : List (ℕ × ContractSigner) → Bytes → Bool
is_signer [] key = false
is_signer ((k, signer) ∷ rest) key = beq signer.public_key key || is_signer rest key

module _ ⦃chaining : Chaining⦄ where
  open chaining use {sha256, recover_key}

  -- The loop over the signatures: those that were seen, and how many of them are of a signer.
  unfoldable pub count_signatures :
      Bytes → List (ℕ × ContractSigner) → ℕ → List Bytes → ℕ → List Bytes → Outcome (Unit {0})
  unfolding check_duplicated_signature is_signer
  count_signatures digest signers threshold verified valid [] = panic
  count_signatures digest signers threshold verified valid (signature ∷ rest) = do
    check_duplicated_signature verified signature
    key ← recover_key digest signature
    let valid = if is_signer signers key then valid + 1 else valid
    let more = count_signatures digest signers threshold (signature ∷ verified) valid rest
    if leb threshold valid then ok tt else more

  module _ ⦃tables : Tables⦄ where
    open tables use {Rows, rows}

    unfoldable pub verify_signatures :
        Rows ContractSigner → ℕ → Bytes → List Bytes → Outcome (Unit {0})
    unfolding count_signatures
    verify_signatures signer_table code_account message signatures =
        let signers = rows signer_table code_account in
        count_signatures (sha256 message) signers (length signers * 2 / 3 + 1) [] 0 signatures
