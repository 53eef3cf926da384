-- ===== src/Store/Txn.antt =====
-- Badger transactions as mvm/store uses them: reads that tell a missing key from a failure, writes,
-- and an update that takes effect whole or not at all.
use trusted_group.Base.{
  Bytes, Outcome, ok, ◌>>=◌, ◌≡◌, unless_fault, of_option, Option, none, some, bad_json,
}
use trusted_group.External.{Database, Json}

module _ ⦃database : Database⦄ where
  open database use {Db, get, set, delete, read_fault, write_fault, commit_fault}

  -- A disk without faults.
  pub record NoFaults : Type 0 where
    pub reads : (d : Db) (k : Bytes) → read_fault d k ≡ none
    pub writes : (d : Db) (k : Bytes) → write_fault d k ≡ none
    pub commits : (d : Db) → commit_fault d ≡ none

  -- `txn.Get(key)` and `ValueCopy`: `none` is `badger.ErrKeyNotFound`.
  unfoldable pub read : Db → Bytes → Outcome (Option Bytes)
  read d k = unless_fault (read_fault d k) (get d k)

  unfoldable pub write : Db → Bytes → Bytes → Outcome Db
  write d k v = unless_fault (write_fault d k) (set d k v)

  unfoldable pub remove : Db → Bytes → Outcome Db
  remove d k = unless_fault (write_fault d k) (delete d k)

  -- `Update(func(txn) error { … })`: the transaction's changes are committed at the end.
  unfoldable pub update : Db → Outcome Db → Outcome Db
  update d result = do d' ← result; unless_fault (commit_fault d') d'

  module _ {A : Type 0} ⦃json : Json A⦄ where
    open json use {unmarshal}

    -- `JSONUnmarshal`.
    unfoldable pub parse_json : Bytes → Outcome A
    parse_json b = of_option bad_json (unmarshal b)

    abbrev parse_found : Option Bytes → Outcome (Option A)
    parse_found none = ok none
    parse_found (some b) = do a ← parse_json b; ok (some a)

    -- A record that is `nil` when its key is missing.
    unfoldable pub read_json : Db → Bytes → Outcome (Option A)
    unfolding read parse_json
    read_json d k = do found ← read d k; parse_found found
