-- ===== src/Eos/Structs/Signatures.antt =====
-- What `Unpack` of mvm/eos/structs.go reads of the signatures that `Pack` wrote.
use trusted_group.Base.{
  ℕ, zero, suc, ◌-◌, ◌%◌, ◌^◌, ◌<◌, ◌≡◌, refl, sym, ◌∙◌, ap, subst, Bytes, List, [], ◌∷◌, ◌++◌,
  some, All, take, drop, take-append, drop-append, append_assoc, append-nil, length, length-append,
  arith, ok,
}
use trusted_group.External.{Packer}
use trusted_group.Eos.Structs.{
  EosTxEvent, pack_body, pack_tx_event, pack_signatures, read_signatures, read_tx_event,
  unpack_tx_event,
}
use trusted_group.Eos.Structs.Processes.{
  EosAddProcess, pack_add_process, read_add_process, unpack_add_process,
}
use trusted_group.Eos.Structs.RoundTrip.{IsBody, read_event-pack, measured_rest}

abbrev pub IsSignature : Bytes → Type 0
IsSignature s = length s ≡ 65

module _ ⦃packer : Packer⦄ where
  open packer use {
    pack_uint64, pack_uint128, read_exact, read_name-pack, read_exact-append, length-pack_uint64,
  }

  -- The packing of an event with the signatures `ss`.
  packed_with : EosTxEvent → List Bytes → Bytes
  unfolding pack_body pack_signatures
  packed_with t ss =
      pack_uint64 t.nonce
      ++ (pack_body pack_uint128 t.body ++ (length ss % 256 ∷ pack_signatures ss))

  -- An event without signatures that was packed is read back, with the number of its bytes.
  pub unpack_tx_event-pack_unsigned :
      (t : EosTxEvent)
      → IsBody t.body
      → t.nonce < 2 ^ 64
      → t.signatures ≡ []
      → unpack_tx_event (pack_tx_event t) ≡ ok (t, length (pack_tx_event t))
  unfolding unpack_tx_event pack_tx_event pack_signatures read_signatures packed_with
  unpack_tx_event-pack_unsigned t h n e =
      let p = packed_with t [] in
      let same : pack_tx_event t ≡ p = ap (packed_with t) e in
      let back : unpack_tx_event p ≡ ok (record t { signatures = [] }, length p) =
        measured_rest read_tx_event (record t { signatures = [] }) p []
          (read_event-pack t [] [] 0 [] h n refl)
        ∙ ap (λ k. ok (record t { signatures = [] }, k)) (omega arith) in
      rw same (back ∙ ap (λ s. ok (record t { signatures = s }, length p)) (sym e))

  -- One signature: the byte of its type is read as its first byte, and its last byte is left over.
  pub unpack_tx_event-pack_signed :
      (t : EosTxEvent) (s : Bytes) (last : ℕ)
      → IsBody t.body
      → t.nonce < 2 ^ 64
      → length s ≡ 64
      → t.signatures ≡ (s ++ (last ∷ [])) ∷ []
      → unpack_tx_event (pack_tx_event t)
        ≡ ok (record t { signatures = (0 ∷ s) ∷ [] }, length (pack_tx_event t) - 1)
  unfolding unpack_tx_event pack_tx_event pack_signatures read_signatures packed_with
  unpack_tx_event-pack_signed t s last h n l e =
      let ss = (s ++ (last ∷ [])) ∷ [] in
      let p = packed_with t ss in
      let same : pack_tx_event t ≡ p = ap (packed_with t) e in
      let count : length (0 ∷ s) ≡ 65 = omega (arith, l) in
      let first : read_exact 65 (0 ∷ ((s ++ (last ∷ [])) ++ [])) ≡ some (0 ∷ s, last ∷ []) =
        subst (λ k. read_exact k (0 ∷ ((s ++ (last ∷ [])) ++ [])) ≡ some (0 ∷ s, last ∷ [])) count
          (rw (append-nil (s ++ (last ∷ []))) (read_exact-append (0 ∷ s) (last ∷ []))) in
      let read : read_signatures 1 (0 ∷ ((s ++ (last ∷ [])) ++ [])) ≡ ok ((0 ∷ s) ∷ [], last ∷ []) =
        rw first refl in
      rw same (
        measured_rest read_tx_event (record t { signatures = (0 ∷ s) ∷ [] }) p (last ∷ [])
          (read_event-pack t (0 ∷ ((s ++ (last ∷ [])) ++ [])) (last ∷ []) 1 ((0 ∷ s) ∷ []) h n
            read))

  drop_next : (n : ℕ) (b : Bytes) (x : ℕ) (r : Bytes) → drop n b ≡ x ∷ r → drop (suc n) b ≡ r
  drop_next zero [] x r h = cc
  drop_next zero (y ∷ b) x r h = cc
  drop_next (suc n) [] x r h = cc
  drop_next (suc n) (y ∷ b) x r h = drop_next n b x r h

  -- Signatures of 65 bytes, each behind a byte for its type.
  pub behind_types : ℕ → Bytes → List Bytes
  behind_types zero b = []
  behind_types (suc n) b = take 65 (drop 1 b) ∷ behind_types n (drop 66 b)

  behind_types-pack :
      (ss : List Bytes) → All IsSignature ss → behind_types (length ss) (pack_signatures ss) ≡ ss
  unfolding behind_types pack_signatures
  behind_types-pack [] h = refl
  behind_types-pack (s ∷ ss) (l, h) = rw (first, rest, behind_types-pack ss h) refl
    where
      first : take 65 (s ++ pack_signatures ss) ≡ s
      first = rw l at (take-append s (pack_signatures ss))

      rest : drop 65 (s ++ pack_signatures ss) ≡ pack_signatures ss
      rest = rw l at (drop-append s (pack_signatures ss))

  -- The signatures of a process, fewer than 256 of 65 bytes, are packed: behind the name and the
  -- identifier, which have 24 bytes, stand their number and then each of them behind a byte for its
  -- type. `Unpack` reads the 24 bytes and none of the signatures: it gives the receiver the address
  -- and the process, which have eight and 16 bytes, and leaves it the signatures that it had.
  pub unpack_add_process-pack :
      (old t : EosAddProcess)
      → t.address < 2 ^ 64
      → length t.process ≡ 16
      → length t.signatures < 256
      → All IsSignature t.signatures
      → (unpack_add_process old (pack_add_process t)
          ≡ ok (record t { signatures = old.signatures }, 24))
        × (take 1 (drop 24 (pack_add_process t)) ≡ length t.signatures ∷ [])
        × (behind_types (length t.signatures) (drop 25 (pack_add_process t)) ≡ t.signatures)
  unfolding unpack_add_process pack_add_process read_add_process
  unpack_add_process-pack old t n l few sizes =
      let tail = length t.signatures % 256 ∷ pack_signatures t.signatures in
      let exact : read_exact 16 (t.process ++ tail) ≡ some (t.process, tail) =
        subst (λ k. read_exact k (t.process ++ tail) ≡ some (t.process, tail)) l
          (read_exact-append t.process tail) in
      let size : length (pack_add_process t) - length tail ≡ 24 = omega (
        arith,
        length-append (pack_uint64 t.address) (t.process ++ tail),
        length-append t.process tail,
        length-pack_uint64 t.address,
        l,
      ) in
      let front : length (pack_uint64 t.address ++ t.process) ≡ 24 =
        omega (
          arith,
          length-append (pack_uint64 t.address) t.process,
          length-pack_uint64 t.address,
          l,
        ) in
      let behind : drop 24 (pack_add_process t) ≡ tail =
        subst (λ x. drop 24 x ≡ tail) (append_assoc (pack_uint64 t.address) t.process tail)
          (subst (λ k. drop k ((pack_uint64 t.address ++ t.process) ++ tail) ≡ tail) front
            (drop-append (pack_uint64 t.address ++ t.process) tail)) in
      let past : drop 25 (pack_add_process t) ≡ pack_signatures t.signatures =
        drop_next 24 (pack_add_process t) _ _ behind in
      (
        rw (read_name-pack t.address (t.process ++ tail) n, exact)
            (ap (λ k. ok (record t { signatures = old.signatures }, k)) size),
        rw behind (ap (λ k. k ∷ []) (omega arith)),
        rw past (behind_types-pack t.signatures sizes),
      )
