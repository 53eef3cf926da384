-- ===== src/Contracts/Mtg/Setup.antt =====
-- `Setup` of mvm/eos/contracts/mtg.xin/mtg.xin.go replaces the signers.
use trusted_group.Base.{
  ℕ, zero, suc, ◌≤◌, ◌≡◌, refl, sym, ◌∙◌, subst, ap, ◌==◌, length, List, [], ◌∷◌, some, ◌⊎◌, inl,
  inr, All, arith, if◌then◌else◌, ok, >>=-eq-ok, ok_injective, Bool-cases,
}
use trusted_group.External.{Tables, Call, Holds, without}
use trusted_group.Contracts.{check->>, length-without, no_rows, stored}
use trusted_group.Contracts.Signatures.{ContractSigner}
use trusted_group.Contracts.Mtg.{MtgContract, clear_rows, clear_table, store_signers, setup}

module _ ⦃tables : Tables⦄ where
  open tables use {Rows, find, store, remove, rows, find-put, rows-remove}

  clear_rows_empty :
      {V : Type 0} (fuel : ℕ) (l : List (ℕ × V)) (r : Rows V) (scope : ℕ)
      → rows r scope ≡ l
      → length l ≤ fuel
      → rows (clear_rows fuel l r scope) scope ≡ []
  unfolding clear_rows
  clear_rows_empty fuel [] r scope e h = e
  clear_rows_empty zero (x ∷ l) r scope e h = absurd (omega arith)
  clear_rows_empty (suc fuel) ((k, v) ∷ l) r scope e h =
      let left : rows (remove r scope k) scope ≡ without k l =
        rows-remove r scope k ∙ ap (without k) e ∙ ground arith in
      clear_rows_empty fuel (rows (remove r scope k) scope) (remove r scope k) scope refl
        (rw left (omega (arith, length-without k l)))

  -- The loop that removes the lowest row until there is none ends, with no row left.
  pub clear_table_empty :
      {V : Type 0} (r : Rows V) (scope : ℕ) → rows (clear_table r scope) scope ≡ []
  unfolding clear_table
  clear_table_empty r scope =
      clear_rows_empty (length (rows r scope)) (rows r scope) r scope refl (omega arith)

  -- The table holds the signers of the list and what it held.
  record Added (call : Call) (signers : List ContractSigner) (r r' : Rows ContractSigner)
      : Type 0 where
    kept :
        (k : ℕ) (v : ContractSigner)
        → find r call.receiver k ≡ some v
        → find r' call.receiver k ≡ some v
    listed : All (λ (s : ContractSigner). find r' call.receiver s.account ≡ some s) signers
    only :
        (k : ℕ) (v : ContractSigner)
        → find r' call.receiver k ≡ some v
        → (find r call.receiver k ≡ some v) ⊎ Holds v signers

  store_signers-Added :
      (call : Call) (signers : List ContractSigner) (r r' : Rows ContractSigner)
      → store_signers call signers r ≡ ok r'
      → Added call signers r r'
  unfolding store_signers
  store_signers-Added call [] r r' h =
      subst (λ x. Added call [] r x) (ok_injective h)
        (record { kept = λ k v e. e; listed = tt; only = λ k v e. inl e })
  store_signers-Added call (x ∷ l) r r' h =
      let (_, h₁) = check->> (call.is_account x.account) _ h in
      let (r₁, s, h₂) = >>=-eq-ok (store r call.receiver x.account x) _ h₁ in
      let (fresh, put_in) = stored r r₁ call.receiver x.account x s in
      let rest = store_signers-Added call l r₁ r' h₂ in
      let there : (k : ℕ)
          → find r₁ call.receiver k ≡ (if x.account == k then some x else find r call.receiver k) =
        λ k. rw (put_in, find-put r call.receiver x.account x call.receiver k) (ground arith) in
      record {
        kept = λ k v e. rest.kept k v (there k ∙ ground arith);
        listed = (rest.kept x.account x (there x.account ∙ ground arith), rest.listed);
        only = λ k v e. elim (rest.only k v e) [
          | inl old ↦ elim (Bool-cases (x.account == k)) [
            | inl b ↦ inr (inl (ground (arith, there k)))
            | inr b ↦ inl (ground (arith, there k))
          ]
          | inr i ↦ inr (inr i)
        ];
      }

  -- The signers are those of the list.
  pub record HoldsSigners (call : Call) (signers : List ContractSigner) (r : Rows ContractSigner)
      : Type 0 where
    pub listed : All (λ (s : ContractSigner). find r call.receiver s.account ≡ some s) signers
    pub only : (k : ℕ) (v : ContractSigner) → find r call.receiver k ≡ some v → Holds v signers

  -- After a setup that succeeds, the signers are those that it was given and no others, and the
  -- processes, the log and its counter are as before.
  pub setup-HoldsSigners :
      (call : Call) (signers : List ContractSigner) (m m' : MtgContract)
      → setup call signers m ≡ ok m'
      → HoldsSigners call signers m'.signers
        × (m'.processes ≡ m.processes)
        × (m'.logs ≡ m.logs)
        × (m'.counters ≡ m.counters)
  unfolding setup
  setup-HoldsSigners call signers m m' h =
      let r = clear_table m.signers call.receiver in
      let empty =
        λ (k : ℕ). no_rows r call.receiver k (clear_table_empty m.signers call.receiver) in
      let (r', s, h₁) = >>=-eq-ok (store_signers call signers r) _ h in
      let a = store_signers-Added call signers r r' s in
      subst
        (λ (x : MtgContract).
          HoldsSigners call signers x.signers
          × (x.processes ≡ m.processes)
          × (x.logs ≡ m.logs)
          × (x.counters ≡ m.counters))
        (ok_injective h₁)
        (
          record {
            listed = a.listed;
            only = λ k v e. elim (a.only k v e) [
              | inl old ↦ absurd (let c = sym (empty k) ∙ old in cc c)
              | inr i ↦ i
            ];
          },
          refl,
          refl,
          refl,
        )
