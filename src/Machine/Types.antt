-- ===== src/Machine/Types.antt =====
-- The data of mvm/machine that its store keeps.
use trusted_group.Base.{ℕ, Bytes, Bool, beq, Outcome, ok, panic, if◌then◌else◌}
use trusted_group.External.{Integers}
use trusted_group.Encoding.{Event}

module _ ⦃ints : Integers⦄ where
  open ints use {Integer}

  pub record Process : Type 0 where
    pub identifier : Bytes
    pub platform : Bytes
    pub address : Bytes
    pub credit : Integer
    pub nonce : ℕ
    pub asset : Bool

  pub record AccountSnapshot : Type 0 where
    pub process : Bytes
    pub nonce : ℕ
    pub asset : Bytes
    pub amount : Integer
    pub credit : Bool

  unfoldable pub build_account_snapshot : Process → Event → Bool → Outcome AccountSnapshot
  build_account_snapshot p e credit =
      if beq p.identifier e.process
      then ok (record {
        process = p.identifier;
        nonce = e.nonce;
        asset = e.asset;
        amount = e.amount;
        credit = credit;
      })
      else panic

pub record Asset : Type 0 where
  pub id : Bytes
  pub symbol : Bytes
  pub name : Bytes

pub record CollectibleToken : Type 0 where
  pub id : Bytes
  pub symbol : Bytes
  pub name : Bytes
