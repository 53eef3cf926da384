-- ===== src/Quorum/Store/Delivery.antt =====
-- Every event of a contract is delivered, from any offset: what mvm/quorum/store.go promises.
use trusted_group.Base.{
  ℕ, ◌+◌, ◌<◌, ◌≤◌, ◌^◌, ◌≡◌, refl, sym, subst, ap, ◌∙◌, Bytes, Bool, true, false, leb, ◌==◌,
  length, List, [], ◌∷◌, ◌++◌, some, uint64_bytes, uint64_bytes-Before, Before, arith, inl, inr,
  if◌then◌else◌, Bool-cases,
}
use trusted_group.Base.{ok, >>=-eq-ok}
use trusted_group.External.{Integers, Database, Json, Holds}
use trusted_group.Encoding.{Event}
use trusted_group.Store.Txn.{read}
use trusted_group.Quorum.Store.{
  before, seek, collect_queue, event_in, contract_event_key, list_contract_events,
  prefix_quorum_contract_event_queue,
}

before_self : (a : Bytes) → before a a ≡ false
unfolding before
before_self [] = refl
before_self (x ∷ a) = ground (arith, before_self a)

Before-reversed : (a b : Bytes) → Before b a → before a b ≡ false
unfolding before
Before-reversed [] [] h = refl
Before-reversed [] (y ∷ b) h = absurd h
Before-reversed (x ∷ a) [] h = refl
Before-reversed (x ∷ a) (y ∷ b) (inl h) = ground arith
Before-reversed (x ∷ a) (y ∷ b) (inr (e, h)) = ground (arith, Before-reversed a b h)

before-append : (p a b : Bytes) → before (p ++ a) (p ++ b) ≡ before a b
unfolding before
before-append [] a b = refl
before-append (x ∷ p) a b = ground (arith, before-append p a b)

before-uint64_bytes :
    (n m : ℕ) → m ≤ n → n < 2 ^ 64 → before (uint64_bytes n) (uint64_bytes m) ≡ false
before-uint64_bytes n m h bound = elim (Bool-cases (n == m)) [
  | inl same ↦ let e : n ≡ m = ground arith in rw e (before_self (uint64_bytes m))
  | inr differ ↦
      Before-reversed (uint64_bytes n) (uint64_bytes m)
        (uint64_bytes-Before m n (ground arith) bound)
]

-- An iterator does not skip a key that is not smaller than the one it seeks.
Holds-seek :
    (k : Bytes) (x : Bytes × Bytes) (l : List (Bytes × Bytes))
    → before x.0 k ≡ false
    → Holds x l
    → Holds x (seek k l)
unfolding seek
Holds-seek k x [] h m = m
Holds-seek k x ((j, v) ∷ rest) h m = go (before j k) refl (Holds-seek k x rest h) m
  where
    go :
        (b : Bool)
        → before j k ≡ b
        → (Holds x rest → Holds x (seek k rest))
        → Holds x ((j, v) ∷ rest)
        → Holds x (if b then seek k rest else (j, v) ∷ rest)
    go true e step (inl same) = absurd (
        let clash : true ≡ false =
          sym e ∙ subst (λ (y : Bytes × Bytes). before y.0 k ≡ false) same h in
        cc)
    go true e step (inr m) = step m
    go false e step m = m

module _ ⦃ints : Integers⦄ ⦃database : Database⦄ ⦃event_json : Json Event⦄ where
  open database use {Db, get, scan, scan_complete}
  open event_json use {marshal, unmarshal-marshal}

  Holds-collect_queue :
      (d : Db) (limit taken : ℕ) (l : List (Bytes × Bytes)) (k : Bytes) (e : Event)
      (es : List Event)
      → collect_queue d limit taken l ≡ ok es
      → Holds (k, marshal e) l
      → taken + length es < limit
      → Holds e es
  unfolding collect_queue
  Holds-collect_queue d limit taken [] k e es h m room = absurd m
  Holds-collect_queue d limit taken ((j, v) ∷ rest) k e es h m room =
      let (found, readable, h₁) = >>=-eq-ok (read d j) _ h in
      let (x, parsed, h₂) = >>=-eq-ok (event_in v) _ h₁ in
      let (later, more, h₃) =
        >>=-eq-ok (if leb limit (taken + 1) then ok [] else collect_queue d limit (taken + 1) rest)
          _ h₂ in
      let shape : x ∷ later ≡ es = ground arith in
      let few : taken + 1 + length later < limit =
        let size : length es ≡ length (x ∷ later) = ap length (sym shape) in omega arith in
      let unbounded : leb limit (taken + 1) ≡ false = ground arith in
      let step : Holds (k, marshal e) rest → Holds e later =
        λ r. Holds-collect_queue d limit (taken + 1) rest k e later (rw unbounded at more) r few in
      subst (Holds e) shape (go x later m parsed step)
    where
      go :
          (x : Event) (later : List Event)
          → Holds (k, marshal e) ((j, v) ∷ rest)
          → event_in v ≡ ok x
          → (Holds (k, marshal e) rest → Holds e later)
          → Holds e (x ∷ later)
      go x later (inl same) parsed step =
          let value : marshal e ≡ v = λ i. (same i).1 in
          inl (let there : e ≡ x = unfold event_in in ground (arith, unmarshal-marshal e) in there)
      go x later (inr r) parsed step = inr (step r)

  -- An event that is in the queue of a contract, at an offset's nonce or later, is among the events
  -- that a successful list from the offset gives, unless the list is as long as its limit.
  pub list_contract_events_complete :
      (d : Db) (address : Bytes) (offset limit n : ℕ) (e : Event) (es : List Event)
      → get d (contract_event_key address n) ≡ some (marshal e)
      → offset ≤ n
      → n < 2 ^ 64
      → list_contract_events d address offset limit ≡ ok es
      → length es < limit
      → Holds e es
  unfolding list_contract_events contract_event_key
  list_contract_events_complete d address offset limit n e es stored later range h room =
      let prefix = prefix_quorum_contract_event_queue ++ address in
      Holds-collect_queue d limit 0 _ (prefix ++ uint64_bytes n) e es h
        (Holds-seek (prefix ++ uint64_bytes offset) (prefix ++ uint64_bytes n, marshal e)
          (scan d prefix)
          (before-append prefix (uint64_bytes n) (uint64_bytes offset)
            ∙ before-uint64_bytes n offset later range)
          (scan_complete d prefix (uint64_bytes n) (marshal e) stored))
        (omega arith)
