-- ===== src/Tests/MtgRuns.antt =====
-- The contract of the group at work: three signers, a process, and a request.
use trusted_group.Base.{ℕ, ◌≡◌, refl, List, [], ◌∷◌, ok, arith, Bytes}
use trusted_group.Contracts.{must_find}
use trusted_group.Contracts.Signatures.{ContractSigner, verify_signatures}
use trusted_group.Contracts.Signatures.Approved.{Approved, verify_signatures-Approved}
use trusted_group.Contracts.Mtg.{
  MtgContract, TxLog, TxRequest, setup, tx_requested, add_contract_process,
}
use trusted_group.Contracts.Mtg.Setup.{HoldsSigners, setup-HoldsSigners}
use trusted_group.Contracts.Mtg.Requests.{IsLogged}
use trusted_group.Contracts.Mtg.Processes.{AddedProcess, add_contract_process-AddedProcess}
use trusted_group.Contracts.Mtg.Runs.{
  no_steps, then_step, set_up, process_added, requested, Steps-IsLogged,
}
use trusted_group.Tests.Rows.{tables_in_memory}
use trusted_group.Tests.Names.{small_chain, call_of}

abbrev empty_mtg : MtgContract
empty_mtg = record { processes = []; signers = []; counters = []; logs = [] }

abbrev signer : ℕ → ContractSigner
signer n = record { account = n; public_key = n ∷ [] }

abbrev three_signers : List ContractSigner
three_signers = signer 1 ∷ signer 2 ∷ signer 3 ∷ []

abbrev set_up_mtg : MtgContract
set_up_mtg = record empty_mtg {
  signers = (70, 3, signer 3) ∷ (70, 2, signer 2) ∷ (70, 1, signer 1) ∷ [];
}

abbrev process_mtg : MtgContract
process_mtg = record set_up_mtg { processes = (70, 60, record { contract = 60; process = 9 }) ∷ [] }

abbrev a_request : TxRequest
a_request = record {
  nonce = 1;
  contract = 60;
  process = 9;
  asset = 5;
  members = 99 ∷ [];
  threshold = 1;
  amount = 100;
  extra = [];
  timestamp = 0;
}

abbrev first_log : TxLog
first_log = record {
  id = 0;
  nonce = 1;
  contract = 60;
  process = 9;
  asset = 5;
  members = 99 ∷ [];
  threshold = 1;
  amount = 100;
  extra = [];
  timestamp = 1000000;
}

abbrev logged_mtg : MtgContract
logged_mtg = record process_mtg { counters = (70, 1, 1) ∷ []; logs = first_log ∷ [] }

setup_run : setup (call_of 70) three_signers empty_mtg ≡ ok set_up_mtg
unfolding setup
setup_run = refl

abbrev three_signatures : List Bytes
three_signatures = (1 ∷ []) ∷ (2 ∷ []) ∷ (3 ∷ []) ∷ []

verify_run : verify_signatures set_up_mtg.signers 70 (60 ∷ 9 ∷ []) three_signatures ≡ ok tt
unfolding verify_signatures trusted_group.Base.beq
verify_run = refl

add_run : add_contract_process (call_of 70) 60 9 three_signatures set_up_mtg ≡ ok process_mtg
unfolding add_contract_process verify_signatures trusted_group.Base.beq
add_run = refl

request_run : tx_requested (call_of 70) a_request process_mtg ≡ ok logged_mtg
unfolding tx_requested must_find
request_run = refl

verify_signatures-Approved_example :
    Approved (60 ∷ 9 ∷ []) ((3, signer 3) ∷ (2, signer 2) ∷ (1, signer 1) ∷ []) 3 three_signatures
verify_signatures-Approved_example =
    verify_signatures-Approved set_up_mtg.signers 70 (60 ∷ 9 ∷ []) three_signatures verify_run

setup-HoldsSigners_example :
    HoldsSigners (call_of 70) three_signers set_up_mtg.signers
    × (set_up_mtg.processes ≡ [])
    × (set_up_mtg.logs ≡ [])
    × (set_up_mtg.counters ≡ [])
setup-HoldsSigners_example =
    setup-HoldsSigners (call_of 70) three_signers empty_mtg set_up_mtg setup_run

add_contract_process-AddedProcess_example :
    AddedProcess (call_of 70) 60 9 three_signatures set_up_mtg process_mtg
add_contract_process-AddedProcess_example =
    add_contract_process-AddedProcess (call_of 70) 60 9 three_signatures set_up_mtg process_mtg
      add_run

Steps-IsLogged_example : IsLogged 70 logged_mtg
Steps-IsLogged_example =
    Steps-IsLogged 70 empty_mtg logged_mtg
      (then_step
        (then_step (then_step no_steps (set_up (call_of 70) three_signers refl setup_run))
          (process_added (call_of 70) 60 9 three_signatures refl add_run))
        (requested (call_of 70) a_request refl request_run))
      (record { numbered = tt; counted = refl; registered = tt }) (omega arith)
