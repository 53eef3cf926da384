-- ===== src/Eos/Structs.antt =====
-- mvm/eos/structs.go: what the engine and the contracts of the EOS chain pack and unpack.
pub mod Processes
pub mod Room
pub mod RoundTrip
pub mod Signatures
pub mod Sizes
use trusted_group.Base.{
  ℕ, zero, suc, ◌-◌, ◌%◌, Bytes, List, [], ◌∷◌, ◌++◌, Option, length, Outcome, ok, bad_input,
  of_option, ◌>>=◌,
}
use trusted_group.External.{Packer}

-- What the structs have in common, in the order in which all of them pack it.
pub record Body : Type 0 where
  pub process : Bytes
  pub asset : Bytes
  pub members : List Bytes
  pub threshold : ℕ
  pub amount : Bytes
  pub extra : Bytes
  pub timestamp : ℕ

pub record EosTxEvent : Type 0 where
  pub nonce : ℕ
  pub body : Body
  pub signatures : List Bytes

pub record EosTxRequest : Type 0 where
  pub id : ℕ
  pub nonce : ℕ
  pub body : Body

pub record EosTxLog : Type 0 where
  pub id : ℕ
  pub nonce : ℕ
  pub contract : ℕ
  pub body : Body

-- A reader of the decoder, with the rest of the input.
abbrev pub Reader : Type 0 → Type 0
Reader A = Bytes → Outcome (A × Bytes)

module _ ⦃packer : Packer⦄ where
  open packer use {
    pack_uint64, pack_int32, pack_length, pack_uint128, read_uint64, read_int32, read_length,
    read_name, read_uint8, read_uint128, read_bytes, read_exact, sha256, sign,
  }

  unfoldable pub pack_members : (Bytes → Bytes) → List Bytes → Bytes
  pack_members write [] = []
  pack_members write (m ∷ ms) = write m ++ pack_members write ms

  unfoldable pub pack_body : (Bytes → Bytes) → Body → Bytes
  unfolding pack_members
  pack_body write b =
      b.process
      ++ (b.asset
          ++ (pack_length (length b.members)
              ++ (pack_members write b.members
                  ++ (pack_int32 b.threshold
                      ++ (b.amount
                          ++ (pack_length (length b.extra)
                              ++ (b.extra ++ pack_uint64 b.timestamp)))))))

  abbrev pub got {ℓ} : {A : Type ℓ} → Option (A × Bytes) → Outcome (A × Bytes)
  got o = of_option bad_input o

  -- The loop over the members.
  unfoldable pub read_members_of : ℕ → Reader (List Bytes)
  read_members_of zero i = ok ([], i)
  read_members_of (suc n) i = do
    (m, i) ← got (read_uint128 i)
    (ms, i) ← read_members_of n i
    ok (m ∷ ms, i)

  -- The loop over the bytes of `extra`.
  unfoldable pub read_each : ℕ → Reader Bytes
  read_each zero i = ok ([], i)
  read_each (suc n) i = do (b, i) ← got (read_uint8 i); (bs, i) ← read_each n i; ok (b ∷ bs, i)

  unfoldable pub read_counted : Reader Bytes
  unfolding read_each
  read_counted i = do (n, i) ← got (read_length i); read_each n i

  unfoldable pub read_body : Reader Bytes → Reader Body
  unfolding read_members_of
  read_body read_extra i = do
    (process, i) ← got (read_uint128 i)
    (asset, i) ← got (read_uint128 i)
    (n, i) ← got (read_length i)
    (members, i) ← read_members_of n i
    (threshold, i) ← got (read_int32 i)
    (amount, i) ← got (read_uint128 i)
    (extra, i) ← read_extra i
    (timestamp, i) ← got (read_uint64 i)
    ok (
      record {
        process = process;
        asset = asset;
        members = members;
        threshold = threshold;
        amount = amount;
        extra = extra;
        timestamp = timestamp;
      },
      i,
    )

  -- A type byte before each signature.
  unfoldable pub pack_signatures : List Bytes → Bytes
  pack_signatures [] = []
  pack_signatures (s ∷ ss) = 0 ∷ (s ++ pack_signatures ss)

  unfoldable pub pack_without_signatures : EosTxEvent → Bytes
  unfolding pack_body
  pack_without_signatures t = pack_uint64 t.nonce ++ pack_body pack_uint128 t.body

  unfoldable pub pack_tx_event : EosTxEvent → Bytes
  unfolding pack_body pack_signatures
  pack_tx_event t =
      pack_uint64 t.nonce
      ++ (pack_body pack_uint128 t.body
          ++ (length t.signatures % 256 ∷ pack_signatures t.signatures))

  unfoldable pub digest_tx_event : EosTxEvent → Bytes
  unfolding pack_without_signatures
  digest_tx_event t = sha256 (pack_without_signatures t)

  unfoldable pub sign_tx_event : Bytes → EosTxEvent → Outcome Bytes
  unfolding digest_tx_event
  sign_tx_event key t = sign key (digest_tx_event t)

  -- The signatures are read one after the other, 65 bytes each.
  unfoldable pub read_signatures : ℕ → Reader (List Bytes)
  read_signatures zero i = ok ([], i)
  read_signatures (suc n) i = do
    (s, i) ← got (read_exact 65 i)
    (ss, i) ← read_signatures n i
    ok (s ∷ ss, i)

  -- The value, and the number of the bytes that were read.
  abbrev pub measured : {A : Type 0} → Reader A → Bytes → Outcome (A × ℕ)
  measured read message = do (a, rest) ← read message; ok (a, length message - length rest)

  unfoldable pub read_tx_event : Reader EosTxEvent
  unfolding read_body read_counted read_signatures
  read_tx_event i = do
    (nonce, i) ← got (read_uint64 i)
    (body, i) ← read_body read_counted i
    (size, i) ← got (read_uint8 i)
    (signatures, i) ← read_signatures size i
    ok (record { nonce = nonce; body = body; signatures = signatures }, i)

  unfoldable pub unpack_tx_event : Bytes → Outcome (EosTxEvent × ℕ)
  unfolding read_tx_event
  unpack_tx_event message = measured read_tx_event message

  unfoldable pub pack_tx_request : EosTxRequest → Bytes
  unfolding pack_body
  pack_tx_request t = pack_uint64 t.id ++ (pack_uint64 t.nonce ++ pack_body pack_uint128 t.body)

  unfoldable pub read_tx_request : Reader EosTxRequest
  unfolding read_body read_counted
  read_tx_request i = do
    (id, i) ← got (read_uint64 i)
    (nonce, i) ← got (read_uint64 i)
    (body, i) ← read_body read_counted i
    ok (record { id = id; nonce = nonce; body = body }, i)

  unfoldable pub unpack_tx_request : Bytes → Outcome (EosTxRequest × ℕ)
  unfolding read_tx_request
  unpack_tx_request message = measured read_tx_request message

  -- The members of a log are written as they are.
  unfoldable pub pack_tx_log : EosTxLog → Bytes
  unfolding pack_body
  pack_tx_log t =
      pack_uint64 t.id
      ++ (pack_uint64 t.nonce ++ (pack_uint64 t.contract ++ pack_body (λ m. m) t.body))

  unfoldable pub read_tx_log : Reader EosTxLog
  unfolding read_body
  read_tx_log i = do
    (id, i) ← got (read_uint64 i)
    (nonce, i) ← got (read_uint64 i)
    (contract, i) ← got (read_name i)
    (body, i) ← read_body (λ i. got (read_bytes i)) i
    ok (record { id = id; nonce = nonce; contract = contract; body = body }, i)

  unfoldable pub unpack_tx_log : Bytes → Outcome (EosTxLog × ℕ)
  unfolding read_tx_log
  unpack_tx_log message = measured read_tx_log message
