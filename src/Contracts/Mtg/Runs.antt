-- ===== src/Contracts/Mtg/Runs.antt =====
-- Sequences of the actions of mvm/eos/contracts/mtg.xin/mtg.xin.go.
use trusted_group.Base.{
  ℕ, ◌^◌, ◌<◌, ◌≤◌, ◌≡◌, sym, subst, Bytes, length, length-append, List, [], ◌∷◌, some, All,
  All-weaken, arith, ok,
}
use trusted_group.External.{Tables, Chaining, Call}
use trusted_group.Contracts.Signatures.{ContractSigner}
use trusted_group.Contracts.Mtg.{
  MtgContract, ContractProcess, TxRequest, setup, log_of, tx_requested, add_contract_process,
}
use trusted_group.Contracts.Mtg.Setup.{setup-HoldsSigners}
use trusted_group.Contracts.Mtg.Requests.{
  IsLogged, tx_requested-Requested, Requested-IsLogged, IsRegistered,
}
use trusted_group.Contracts.Mtg.Processes.{add_contract_process-AddedProcess}

module _ ⦃tables : Tables⦄ ⦃chaining : Chaining⦄ (self : ℕ) where
  open tables use {find}

  -- The steps of the contract `self`.
  pub data Step : MtgContract → MtgContract → Type 0 where
    set_up :
        (call : Call) (signers : List ContractSigner) {m m' : MtgContract}
        → call.receiver ≡ self
        → setup call signers m ≡ ok m'
        → Step m m'
    process_added :
        (call : Call) (contract process : ℕ) (signatures : List Bytes) {m m' : MtgContract}
        → call.receiver ≡ self
        → add_contract_process call contract process signatures m ≡ ok m'
        → Step m m'
    requested :
        (call : Call) (r : TxRequest) {m m' : MtgContract}
        → call.receiver ≡ self
        → tx_requested call r m ≡ ok m'
        → Step m m'

  pub data Steps : MtgContract → MtgContract → Type 0 where
    no_steps : {m : MtgContract} → Steps m m
    then_step : {m m' m'' : MtgContract} → Steps m m' → Step m' m'' → Steps m m''

  -- What a step keeps: registrations stay, and so do logs.
  record Keeps (m m' : MtgContract) : Type 0 where
    registrations :
        (k : ℕ) (p : ContractProcess)
        → find m.processes self k ≡ some p
        → find m'.processes self k ≡ some p
    longer : length m.logs ≤ length m'.logs

  keep-IsRegistered :
      (m m' : MtgContract)
      → Keeps m m'
      → All (IsRegistered m.processes self) m.logs
      → All (IsRegistered m'.processes self) m.logs
  keep-IsRegistered m m' k h =
      All-weaken m.logs (λ l (p, found, own). (p, k.registrations l.contract p found, own)) h

  Step-Keeps : (m m' : MtgContract) → Step m m' → Keeps m m'
  Step-Keeps m m' (set_up call signers e h) =
      let (_, same, logs, _) = setup-HoldsSigners call signers m m' h in
      record { registrations = λ k p found. rw same found; longer = rw logs (omega arith) }
  Step-Keeps m m' (process_added call contract process signatures e h) =
      let d = add_contract_process-AddedProcess call contract process signatures m m' h in
      record {
        registrations = λ k p found. ground (arith, d.added k, d.unknown, e, found);
        longer = rw d.same_logs (omega arith);
      }
  Step-Keeps m m' (requested call r e h) =
      let d = tx_requested-Requested call r m m' h in
      subst (Keeps m) d.whole (record {
        registrations = λ k p found. found;
        longer = omega (arith, length-append m.logs (log_of call d.index r ∷ []));
      })

  same_log-IsLogged :
      (m m' : MtgContract)
      → Keeps m m'
      → m'.logs ≡ m.logs
      → m'.counters ≡ m.counters
      → IsLogged self m
      → IsLogged self m'
  same_log-IsLogged m m' k logs counters old = record {
    numbered = rw logs old.numbered;
    counted = rw (logs, counters) old.counted;
    registered = rw logs (keep-IsRegistered m m' k old.registered);
  }

  Step-IsLogged :
      (m m' : MtgContract)
      → Step m m'
      → IsLogged self m
      → length m'.logs < 2 ^ 64
      → IsLogged self m'
  Step-IsLogged m m' (set_up call signers e h) old short =
      let (_, _, logs, counters) = setup-HoldsSigners call signers m m' h in
      same_log-IsLogged m m' (Step-Keeps m m' (set_up call signers e h)) logs counters old
  Step-IsLogged m m' (process_added call contract process signatures e h) old short =
      let d = add_contract_process-AddedProcess call contract process signatures m m' h in
      same_log-IsLogged m m' (Step-Keeps m m' (process_added call contract process signatures e h))
        d.same_logs d.same_counters old
  Step-IsLogged m m' (requested call r e h) old short =
      subst (λ s. IsLogged s m') e
        (Requested-IsLogged call r m m' (tx_requested-Requested call r m m' h)
          (subst (λ s. IsLogged s m) (sym e) old) short)

  -- The requests that are logged carry the numbers from 0 on, without a gap, and each is of a contract
  -- that is registered for the process of the request. This holds after any actions that succeed, from
  -- tables where it holds (empty ones, for one), while there are less than 2 ^ 64 requests.
  pub Steps-IsLogged :
      (m m' : MtgContract)
      → Steps m m'
      → IsLogged self m
      → length m'.logs < 2 ^ 64
      → IsLogged self m'
  Steps-IsLogged m _ no_steps old short = old
  Steps-IsLogged m m'' (then_step {m' = m'} before step) old short =
      let k = Step-Keeps m' m'' step in
      Step-IsLogged m' m'' step (Steps-IsLogged m m' before old (omega (arith, k.longer, short)))
        short
