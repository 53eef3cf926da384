-- ===== src/Contracts/Proxy/Nonces.antt =====
-- The nonces of mvm/eos/contracts/mixinproxy/mixinproxy.go: `GetNonce`, `IncNonce`, `CheckNonce`,
-- `StoreNonce` and the other counters.
pub mod Advance
pub mod Once
use trusted_group.Base.{
  ℕ, zero, suc, ◌+◌, ◌%◌, ◌^◌, not, ◌==◌, leb, length, List, [], ◌∷◌, Option, none, some,
  if◌then◌else◌, Outcome, ok, ◌>>=◌, ◌>>◌,
}
use trusted_group.External.{Tables, Call, check}
use trusted_group.Contracts.{is_found}
use trusted_group.Contracts.Proxy.{Proxy, key_nonce, key_tx_out_index, key_account_index}

module _ ⦃tables : Tables⦄ where
  open tables use {Rows, find, put, store, remove, rows}

  unfoldable pub step_index : Option ℕ → ℕ → ℕ → ℕ → Rows ℕ → Outcome (ℕ × Rows ℕ)
  step_index (some count) scope key initial r =
      let next = (count + 1) % 2 ^ 64 in ok (next, put r scope key next)
  step_index none scope key initial r = do r ← store r scope key initial; ok (initial, r)

  unfoldable pub next_index : Call → ℕ → ℕ → Proxy → Outcome (ℕ × Proxy)
  unfolding step_index
  next_index call key initial p = do
    (index, r) ← step_index (find p.counters call.receiver key) call.receiver key initial p.counters
    ok (index, record p { counters = r })

  unfoldable pub get_next_tx_request_nonce : Call → Proxy → Outcome (ℕ × Proxy)
  unfolding next_index
  get_next_tx_request_nonce call p = next_index call key_tx_out_index 1 p

  unfoldable pub get_next_account_id : Call → Proxy → Outcome (ℕ × Proxy)
  unfolding next_index
  get_next_account_id call p = next_index call key_account_index 1 p

  -- The nonce starts from 1; the event with nonce 0 is the one that adds the process.
  unfoldable pub inc_counter : Option ℕ → ℕ → Rows ℕ → Outcome (Rows ℕ)
  inc_counter (some count) scope r = ok (put r scope key_nonce ((count + 1) % 2 ^ 64))
  inc_counter none scope r = store r scope key_nonce 2

  unfoldable pub inc_nonce : Call → Proxy → Outcome Proxy
  unfolding inc_counter
  inc_nonce call p = do
    r ← inc_counter (find p.counters call.receiver key_nonce) call.receiver p.counters
    ok (record p { counters = r })

  unfoldable pub nonce_or_first : Option ℕ → ℕ → Rows ℕ → Outcome (ℕ × Rows ℕ)
  nonce_or_first (some count) scope r = ok (count, r)
  nonce_or_first none scope r = do r ← store r scope key_nonce 1; ok (1, r)

  unfoldable pub get_nonce : Call → Proxy → Outcome (ℕ × Proxy)
  unfolding nonce_or_first
  get_nonce call p = do
    (nonce, r) ← nonce_or_first (find p.counters call.receiver key_nonce) call.receiver p.counters
    ok (nonce, record p { counters = r })

  unfoldable pub store_nonce : Call → ℕ → Proxy → Outcome Proxy
  unfolding is_found
  store_nonce call event_nonce p = do
    check (not (is_found (find p.submittedevs call.receiver event_nonce)))
    r ← store p.submittedevs call.receiver event_nonce event_nonce
    ok (record p { submittedevs = r })

  -- The loop that moves the nonce over the events that follow each other. An iteration removes a row,
  -- so that the number of the rows is enough fuel.
  unfoldable pub advance : Call → ℕ → ℕ → Proxy → Outcome (ℕ × Proxy)
  unfolding inc_nonce is_found
  advance call zero nonce p = ok (nonce, p)
  advance call (suc fuel) nonce p =
      let rest =
        inc_nonce call (record p { submittedevs = remove p.submittedevs call.receiver nonce })
        >>= λ p'. advance call fuel ((nonce + 1) % 2 ^ 64) p' in
      if is_found (find p.submittedevs call.receiver nonce) then rest else ok (nonce, p)

  -- The loop that removes the rows of old nonces, with the number of the rows as fuel again.
  unfoldable pub remove_stale : ℕ → List (ℕ × ℕ) → ℕ → ℕ → Rows ℕ → Rows ℕ
  remove_stale fuel [] scope nonce r = r
  remove_stale zero (x ∷ l) scope nonce r = r
  remove_stale (suc fuel) ((k, record_nonce) ∷ l) scope nonce r =
      let r' = remove r scope k in
      let rest = remove_stale fuel (rows r' scope) scope nonce r' in
      if leb nonce record_nonce then r else rest

  unfoldable pub check_nonce : Call → ℕ → Proxy → Outcome Proxy
  unfolding get_nonce store_nonce advance remove_stale
  check_nonce call event_nonce p = do
    (nonce, p) ← get_nonce call p
    check (leb nonce event_nonce)
    p ← store_nonce call event_nonce p
    (nonce, p) ← advance call (length (rows p.submittedevs call.receiver)) nonce p
    let left = rows p.submittedevs call.receiver
    ok (record p {
      submittedevs = remove_stale (length left) left call.receiver nonce p.submittedevs;
    })

  -- `CheckAndIncNonce`
  unfoldable pub check_and_inc : Option ℕ → ℕ → ℕ → Rows ℕ → Outcome (Rows ℕ)
  check_and_inc (some count) scope old_nonce r = do
    check (count == old_nonce)
    ok (put r scope key_nonce ((old_nonce + 1) % 2 ^ 64))
  check_and_inc none scope old_nonce r = store r scope key_nonce ((old_nonce + 1) % 2 ^ 64)

  unfoldable pub check_and_inc_nonce : Call → ℕ → Proxy → Outcome Proxy
  unfolding check_and_inc
  check_and_inc_nonce call old_nonce p = do
    r ← check_and_inc (find p.counters call.receiver key_nonce) call.receiver old_nonce p.counters
    ok (record p { counters = r })
