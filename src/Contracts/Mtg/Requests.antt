-- ===== src/Contracts/Mtg/Requests.antt =====
-- `AddProcess` and `TxRequest` of mvm/eos/contracts/mtg.xin/mtg.xin.go: who may log a request, and the
-- numbers of the log.
use trusted_group.Base.{
  ℕ, suc, ◌+◌, ◌%◌, ◌^◌, ◌<◌, ◌≡◌, refl, sym, ◌∙◌, subst, ap, true, ◌==◌, ==_iff, length,
  length-append, List, [], ◌∷◌, ◌++◌, Option, none, some, All, arith, ok, >>=-eq-ok, ok_injective,
}
use trusted_group.External.{Tables, Call}
use trusted_group.Contracts.{check->>, must_find, must_find-eq-ok}
use trusted_group.Contracts.Mtg.{
  MtgContract, ContractProcess, TxLog, TxRequest, key_tx_request_seq, count_from, get_next_index,
  get_next_seq, log_of, tx_requested,
}

-- The logs carry the numbers from `n` on.
abbrev pub Numbered : ℕ → List TxLog → Type 0
Numbered n [] = Unit
Numbered n (l ∷ ls) = (l.id ≡ n) × Numbered (suc n) ls

Numbered-append :
    (n : ℕ) (ls : List TxLog) (l : TxLog)
    → Numbered n ls
    → l.id ≡ n + length ls
    → Numbered n (ls ++ (l ∷ []))
Numbered-append n [] l h e = (omega arith, tt)
Numbered-append n (x ∷ ls) l (i, h) e = (i, Numbered-append (suc n) ls l h (omega arith))

All-append :
    (P : TxLog → Type 0) (ls : List TxLog) (l : TxLog) → All P ls → P l → All P (ls ++ (l ∷ []))
All-append P [] l h p = (p, tt)
All-append P (x ∷ ls) l (q, h) p = (q, All-append P ls l h p)

abbrev pub count_of : Option ℕ → ℕ
count_of none = 0
count_of (some n) = n

module _ ⦃tables : Tables⦄ where
  open tables use {Rows, find, put, store, find-put, store_new}

  -- The contract of the log is registered, for the process of the log.
  abbrev pub IsRegistered : Rows ContractProcess → ℕ → TxLog → Type 0
  IsRegistered r self l =
      (p : ContractProcess) × (find r self l.contract ≡ some p) × (p.process ≡ l.process)

  pub record IsLogged (self : ℕ) (m : MtgContract) : Type 0 where
    pub numbered : Numbered 0 m.logs
    pub counted : count_of (find m.counters self key_tx_request_seq) ≡ length m.logs
    pub registered : All (IsRegistered m.processes self) m.logs

  counted_up :
      (o : Option ℕ) (self key index : ℕ) (r r' : Rows ℕ)
      → find r self key ≡ o
      → count_of o + 1 < 2 ^ 64
      → count_from o self key r ≡ ok (index, r')
      → (index ≡ count_of o) × (count_of (find r' self key) ≡ count_of o + 1)
  unfolding count_from
  counted_up (some n) self key index r r' e small h =
      let same : (n, put r self key ((n + 1) % 2 ^ 64)) ≡ (index, r') = ok_injective h in
      (
        sym (ap (λ p. p.0) same),
        subst (λ x. count_of (find x self key) ≡ n + 1) (ap (λ p. p.1) same)
            (rw (find-put) (ground arith)),
      )
  counted_up none self key index r r' e small h =
      let (r₁, stored, h₁) = >>=-eq-ok (store r self key 1) _ h in
      let made = ok_injective (sym stored ∙ store_new r self key 1 e) in
      let same : (0, r₁) ≡ (index, r') = ok_injective h₁ in
      (
        sym (ap (λ p. p.0) same),
        subst (λ x. count_of (find x self key) ≡ 1) (sym made ∙ ap (λ p. p.1) same)
            (rw (find-put) (ground arith)),
      )

  abbrev with_log : MtgContract → Rows ℕ → TxLog → MtgContract
  with_log m c l = record m { counters = c; logs = m.logs ++ (l ∷ []) }

  with_log-IsLogged :
      (call : Call) (r : TxRequest) (m : MtgContract) (item : ContractProcess) (c : Rows ℕ)
      (index : ℕ)
      → count_from
          (find m.counters call.receiver key_tx_request_seq)
          call.receiver
          key_tx_request_seq
          m.counters
        ≡ ok (index, c)
      → find m.processes call.receiver r.contract ≡ some item
      → item.process ≡ r.process
      → IsLogged call.receiver m
      → length m.logs + 1 < 2 ^ 64
      → IsLogged call.receiver (with_log m c (log_of call index r))
  unfolding log_of
  with_log-IsLogged call r m item c index up found same old short =
      let self = call.receiver in
      let l = log_of call index r in
      let (e, e') =
        counted_up (find m.counters self key_tx_request_seq) self key_tx_request_seq index
          m.counters c refl (omega (arith, old.counted, short)) up in
      record {
        numbered = Numbered-append 0 m.logs l old.numbered (omega (arith, e, old.counted));
        counted = omega (arith, e', old.counted, length-append m.logs (l ∷ []));
        registered =
            All-append (IsRegistered m.processes self) m.logs l old.registered (item, found, same);
      }

  -- A request that was logged.
  pub record Requested (call : Call) (r : TxRequest) (m m' : MtgContract) : Type 0 where
    pub item : ContractProcess
    pub index : ℕ
    pub counters : Rows ℕ
    pub authorised : call.has_auth r.contract ≡ true
    pub known : find m.processes call.receiver r.contract ≡ some item
    pub own : item.process ≡ r.process
    pub next :
        count_from
          (find m.counters call.receiver key_tx_request_seq)
          call.receiver
          key_tx_request_seq
          m.counters
        ≡ ok (index, counters)
    pub whole : with_log m counters (log_of call index r) ≡ m'

  pub tx_requested-Requested :
      (call : Call) (r : TxRequest) (m m' : MtgContract)
      → tx_requested call r m ≡ ok m'
      → Requested call r m m'
  unfolding tx_requested get_next_seq get_next_index
  tx_requested-Requested call r m m' h =
      let self = call.receiver in
      let (auth, h₁) = check->> (call.has_auth r.contract) _ h in
      let (item, f, h₂) = >>=-eq-ok (must_find m.processes self r.contract) _ h₁ in
      let (same, h₃) = check->> (item.process == r.process) _ h₂ in
      let ((seq, m₁), n, h₄) = >>=-eq-ok (get_next_seq call m) _ h₃ in
      let ((index, c), up, n₁) =
        >>=-eq-ok
          (count_from (find m.counters self key_tx_request_seq) self key_tx_request_seq m.counters)
          _ n in
      record {
        item = item;
        index = index;
        counters = c;
        authorised = auth;
        known = must_find-eq-ok m.processes self r.contract f;
        own = (==_iff item.process r.process).0 same;
        next = up;
        whole =
            ap (λ (p : ℕ × MtgContract). record p.1 { logs = p.1.logs ++ (log_of call p.0 r ∷ []) })
              (ok_injective n₁)
            ∙ ok_injective h₄;
      }

  pub Requested-IsLogged :
      (call : Call) (r : TxRequest) (m m' : MtgContract)
      → Requested call r m m'
      → IsLogged call.receiver m
      → length m'.logs < 2 ^ 64
      → IsLogged call.receiver m'
  Requested-IsLogged call r m m' d old short =
      let l = log_of call d.index r in
      let short' = subst (λ (x : MtgContract). length x.logs < 2 ^ 64) (sym d.whole) short in
      subst (IsLogged call.receiver) d.whole (
        with_log-IsLogged call r m d.item d.counters d.index d.next d.known d.own old
          (omega (arith, old.counted, length-append m.logs (l ∷ []), short')))
