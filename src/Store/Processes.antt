-- ===== src/Store/Processes.antt =====
-- mvm/store/process.go
pub mod Written
use trusted_group.Base.{
  ℕ, Bytes, Outcome, ok, ◌>>=◌, Option, none, some, List, [], ◌∷◌, uint64_bytes, uint64_value,
}
use trusted_group.External.{Integers, Database, Json}
use trusted_group.Machine.Types.{Process}
use trusted_group.Store.Keys.{engine_offset_key, process_key, prefix_process_payload}
use trusted_group.Store.Txn.{read, write, update, read_json, parse_json}

module _ ⦃database : Database⦄ where
  open database use {Db}

  abbrev offset_of : Option Bytes → Outcome ℕ
  offset_of none = ok 0
  offset_of (some b) = uint64_value b

  unfoldable pub read_engine_group_events_offset : Db → Bytes → Outcome ℕ
  unfolding read uint64_value
  read_engine_group_events_offset d pid = do found ← read d (engine_offset_key pid); offset_of found

  unfoldable pub write_engine_group_events_offset : Db → Bytes → ℕ → Outcome Db
  unfolding write update
  write_engine_group_events_offset d pid offset =
      update d (write d (engine_offset_key pid) (uint64_bytes offset))

module _ ⦃ints : Integers⦄ ⦃database : Database⦄ ⦃json : Json Process⦄ where
  open database use {Db, scan}
  open json use {marshal}

  unfoldable pub write_process_txn : Db → Process → Outcome Db
  unfolding write
  write_process_txn d p = write d (process_key p.identifier) (marshal p)

  unfoldable pub read_process : Db → Bytes → Outcome (Option Process)
  unfolding read_json
  read_process d pid = read_json d (process_key pid)

  insert_process : Db → Process → Option Process → Outcome Db
  unfolding write_process_txn
  insert_process d p (some old) = ok d
  insert_process d p none = write_process_txn d p

  unfoldable pub write_process : Db → Process → Outcome Db
  unfolding insert_process read_process update
  write_process d p = update d (do old ← read_process d p.identifier; insert_process d p old)

  collect_processes : Db → List (Bytes × Bytes) → Outcome (List Process)
  unfolding parse_json
  collect_processes d [] = ok []
  collect_processes d ((k, v) ∷ rest) = do
    found ← read d k
    proc ← parse_json v
    procs ← collect_processes d rest
    ok (proc ∷ procs)

  unfoldable pub list_processes : Db → Outcome (List Process)
  unfolding collect_processes
  list_processes d = collect_processes d (scan d prefix_process_payload)
