-- ===== src/Lib.antt =====
-- The virtual machine of a trusted group (mvm): a group of members runs smart contracts of another
-- chain, its processes, as if they were members. Money that the group receives becomes an event for a
-- process; the members sign the event with a threshold signature; an engine hands it to the chain;
-- events of the chain come back and pay money out. All state is in an ordered key-value database.
--
-- How the parts interact. `ProcessOutput` (Machine/Registry) reads an operation from the memo of an
-- output (Encoding) and adds a process or queues an event (Machine/Deposits). The store
-- (Store/Events) gives the event its place: pending, then with partial signatures, then signed. The
-- loops of the signer (Machine/Signer, Machine/Messages) exchange signatures with the peers until the
-- threshold. The loops of a process (Machine/Withdrawals) send signed events to the engine (Quorum),
-- and pay the events that the engine gives back, against the accounts (Store/Accounts).
-- On the EOS chain two contracts stand on the other side: mtg.xin (Contracts/Mtg) holds the signers and
-- the processes of the group and logs the requests of the contracts; mixinproxy (Contracts/Proxy)
-- takes the events of the group, checks their signatures and nonces, issues tokens for them
-- (Contracts/Token) and asks mtg.xin for transfers out.
--
-- Files and code.
--   Base          helpers: outcomes of calls (a value, an `error`, a panic), lists of bytes, eight-byte
--                 numbers, Base64 and decimal text of the language's library, association lists, the
--                 runes of a text and hexadecimal digits (Runes)
--   External      what comes from packages outside the repository, as records of operations with the
--                 laws that the code relies on: amounts, encoders, the database, JSON, the network, a
--                 node of the chain, the tables, assets and cryptography of a contract on the EOS
--                 chain (Contracts), the encoder of that chain (EosPackets)
--   Encoding      mvm/encoding/event.go (Messages), mvm/encoding/operation.go (Operations)
--   Store         mvm/store: account.go (Accounts), event.go (Events), process.go (Processes),
--                 asset.go and collectible.go (Metadata), the keys of all of them (Keys), the use of
--                 transactions (Txn)
--   Machine       mvm/machine: machine.go and collectible.go (Deposits, Registry), receiver.go
--                 (Registry, Metadata), signer.go (Signer, Messages), process.go (Withdrawals),
--                 account.go and the types (Types), machine.go and interface.go (State)
--   Quorum        mvm/quorum: store.go (Store), engine.go (Chain)
--   Eos           mvm/eos: store.go (Store), structs.go (Structs)
--   Contracts     mvm/eos/contracts: mixinproxy/token/token.go (Token), mtg.xin (Mtg, Signatures),
--                 mixinproxy: mixinproxy.go, actions.go, utils.go, tables.go, structs.go (Proxy)
--   Tests         concrete packages, a database in memory, a small group, and runs of the theorems
-- An operation has the name of its function in lower case, as `WriteAccountSnapshot` and
-- `write_account_snapshot`. What the code does in one function is divided, where it branches, into
-- helpers that stand above it.
--
-- How state and errors are modelled. A function that changes the database or the machine takes it and
-- returns the new one in an `Outcome`: `ok`, `err` for a returned `error`, `panic` for a panic. The
-- engines and services are queried through parameters, and what is sent to them is recorded in the
-- machine: messages, broadcasts, transactions. A disk may fail at each access; theorems that promise a
-- result assume the record `NoFaults`. Endless loops are modelled by one round each: `sign_round`,
-- `receive_message`, `send_round`, `receive_round`, `get_logs_round`; the readings of the clock in a
-- round are arguments. A round of the machine runs through a finite list and needs no fuel.
--
-- Contracts. A contract has a record of its tables, with `Rows` of the parameter `Tables` for each; an
-- action takes it with the circumstances of the call (`Call`: the receiver, the authority, the time)
-- and returns the new one. A check that fails is `panic`: the chain undoes the transaction, so that no
-- state is returned. Amounts are 64-bit words in two's complement. Inline actions are recorded in the
-- order in which they are sent. The loops that remove rows (`clear_table`, `advance`,
-- `remove_stale`) run on fuel, the number of rows when they start; each iteration removes one row, and
-- the fuel cannot run out. The proxy is `IsRanged` when the stored nonces are below 2 ^ 64 - 1, so
-- that counting does not wrap around.
--
-- Abstract views. `Store.Accounts.Book` is a book of balances and of the movements that were posted;
-- the database shows it (`Shows`) at every process identifier of 36 characters, which is the length
-- of every identifier that the program makes. `Store.Events.Steps.StoreRun` is any sequence of
-- successful writes of the store. `IsAuthentic` says of a database that its full signatures verify.
-- `Account` is the account of a round of payments.
--
-- Numbers. Nonces and time stamps are natural numbers, with the wrap-around of 64 bits written where
-- the code counts; keys hold eight bytes, so that theorems on keys ask for numbers below 2 ^ 64.
--
-- Not modelled. Reading configuration and keys (`Boot`, mvm/config), opening the files of the
-- database, commands and network handlers (mvm/boot.go, mvm/invoke.go, mvm/rpc), the locks, since
-- each step is one call, logging and sleeping. The engine of EOS (mvm/eos/engine.go),
-- the contract dappdemo and the builds of the contracts for tests (debug.go), the
-- bridge (mvm/quorum/bridge), the sending loops of mvm/quorum and the sample service are not part of
-- it, and neither are the contracts in other languages.
pub mod Base
pub mod External
pub mod Encoding
pub mod Machine
pub mod Store
pub mod Quorum
pub mod Contracts
pub mod Eos
mod Tests
