-- ===== src/Machine/Registry/Admission.antt =====
-- `AddProcess` of mvm/machine/machine.go: which requests are admitted, and what a refused one leaves.
use trusted_group.Base.{
  ◌≡◌, refl, sym, subst, Bytes, Bool, true, false, not, beq, beq→eq, ◌∷◌, Option, none, some,
  if◌then◌else◌, lookup, insert, lookup-insert, beq_refl, arith,
}
use trusted_group.Base.{Outcome, ok, err, panic, ◌>>=◌, must, >>=-eq-ok, must-eq-ok}
use trusted_group.External.{Integers, Wire, Database, Json, Network, Output}
use trusted_group.Encoding.{Event}
use trusted_group.Machine.Types.{Process, AccountSnapshot, Asset, CollectibleToken}
use trusted_group.Machine.State.{Engine, Machine}
use trusted_group.Machine.Registry.{
  add_process, add_with_engine, is_taken, new_process, unless_failed, spawn_process,
}
use trusted_group.Store.Accounts.{is_lt}
use trusted_group.Store.Processes.{write_process}
use trusted_group.Store.Processes.Written.{Written, write_process-Written}

module _ ⦃ints : Integers⦄ ⦃wire : Wire⦄ ⦃database : Database⦄ ⦃network : Network⦄ ⦃engine : Engine⦄
    ⦃event_json : Json Event⦄ ⦃process_json : Json Process⦄ ⦃snapshot_json : Json AccountSnapshot⦄
    ⦃asset_json : Json Asset⦄ ⦃token_json : Json CollectibleToken⦄ where
  open database use {Db}
  open network use {decimal_cmp}
  open engine use {State, verify_address, setup_notifier}

  -- The request was admitted.
  pub record Admitted (m m' : Machine) (pid platform address : Bytes) (out : Output) (extra : Bytes)
      : Type 0 where
    pub own : pid ≡ out.sender
    pub fee_asset : out.asset_id ≡ m.fee_asset_id
    pub fee_paid : is_lt (decimal_cmp out.amount m.fee_amount) ≡ false
    pub free : is_taken m.processes out.sender address ≡ false
    pub engine_state : State
    pub known : lookup platform m.engines ≡ some engine_state
    pub verified : verify_address engine_state address extra ≡ ok tt
    pub db : Db
    pub stored : write_process m.store (new_process platform address out extra) ≡ ok db
    pub store : m'.store ≡ db
    pub written : Written m.store m'.store (new_process platform address out extra)
    pub added : lookup pid m'.processes ≡ some (new_process platform address out extra)
    pub spawned : m'.spawned ≡ pid ∷ m.spawned

  -- What a request came to.
  abbrev pub Decided : Machine → Bool × Machine → Bytes → Bytes → Bytes → Output → Bytes → Type 0
  Decided m (true, m') pid platform address out extra = Admitted m m' pid platform address out extra
  Decided m (false, m') pid platform address out extra = m' ≡ m

  module _ (m : Machine) (platform address : Bytes) (out : Output) (extra : Bytes) where
    abbrev Result : Bool × Machine → Type 0
    Result result = Decided m result out.sender platform address out extra

    unchanged :
        (pid : Bytes) (result : Bool × Machine)
        → ok (false, m) ≡ ok result
        → Decided m result pid platform address out extra
    unchanged pid result h =
        let e : (false, m) ≡ result = cc in
        subst (λ r. Decided m r pid platform address out extra) e refl

    refused : (result : Bool × Machine) → ok (false, m) ≡ ok result → Result result
    refused result h = unchanged out.sender result h

    -- Both calls of the engine succeeded.
    admitted :
        (result : Bool × Machine) (e e' : State)
        → lookup platform m.engines ≡ some e
        → out.asset_id ≡ m.fee_asset_id
        → is_lt (decimal_cmp out.amount m.fee_amount) ≡ false
        → is_taken m.processes out.sender address ≡ false
        → verify_address e address extra ≡ ok tt
        → (do
          d ← must (write_process m.store (new_process platform address out extra))
          ok (
            true,
            spawn_process
                (record m { store = d; engines = insert platform e' m.engines })
                (new_process platform address out extra),
          ))
          ≡ ok result
        → Result result
    unfolding spawn_process
    admitted result e e' known asset fee free good h =
        let proc = new_process platform address out extra in
        let (d, stored, h₁) = >>=-eq-ok (must (write_process m.store proc)) _ h in
        let same : (
          true,
          spawn_process (record m { store = d; engines = insert platform e' m.engines }) proc,
        )
            ≡ result =
          cc in
        subst Result same (record {
          own = refl;
          fee_asset = asset;
          fee_paid = fee;
          free = free;
          engine_state = e;
          known = known;
          verified = good;
          db = d;
          stored = must-eq-ok _ stored;
          store = refl;
          written = write_process-Written m.store d proc (must-eq-ok _ stored);
          added = rw (lookup-insert, beq_refl) refl;
          spawned = refl;
        })

    decided_set_up :
        (result : Bool × Machine) (e : State) (set_up : Outcome State)
        → lookup platform m.engines ≡ some e
        → out.asset_id ≡ m.fee_asset_id
        → is_lt (decimal_cmp out.amount m.fee_amount) ≡ false
        → is_taken m.processes out.sender address ≡ false
        → verify_address e address extra ≡ ok tt
        → unless_failed m set_up (λ e'. do
          let proc = new_process platform address out extra
          d ← must (write_process m.store proc)
          let m' = record m { store = d; engines = insert platform e' m.engines }
          ok (true, spawn_process m' proc))
          ≡ ok result
        → Result result
    unfolding unless_failed
    decided_set_up result e (ok e') known asset fee free good h =
        admitted result e e' known asset fee free good h
    decided_set_up result e (err x) known asset fee free good h = refused result h
    decided_set_up result e panic known asset fee free good h =
        absurd (let c : ⊥ = ground arith in c)

    -- What `add_with_engine` does once it has an engine.
    abbrev when_verified : State → Outcome (Unit {0}) → Outcome (Bool × Machine)
    when_verified e good = unless_failed m good (λ _.
        unless_failed m (setup_notifier e address) (λ e'. do
          let proc = new_process platform address out extra
          d ← must (write_process m.store proc)
          let m' = record m { store = d; engines = insert platform e' m.engines }
          ok (true, spawn_process m' proc)))

    decided_verified :
        (result : Bool × Machine) (e : State) (good : Outcome (Unit {0}))
        → verify_address e address extra ≡ good
        → lookup platform m.engines ≡ some e
        → out.asset_id ≡ m.fee_asset_id
        → is_lt (decimal_cmp out.amount m.fee_amount) ≡ false
        → is_taken m.processes out.sender address ≡ false
        → when_verified e good ≡ ok result
        → Result result
    unfolding unless_failed
    decided_verified result e (ok u) good known asset fee free h =
        decided_set_up result e (setup_notifier e address) known asset fee free good h
    decided_verified result e (err x) good known asset fee free h = refused result h
    decided_verified result e panic good known asset fee free h =
        absurd (let c : ⊥ = ground arith in c)

    decided_taken :
        (result : Bool × Machine) (e : State) (taken : Bool)
        → is_taken m.processes out.sender address ≡ taken
        → lookup platform m.engines ≡ some e
        → out.asset_id ≡ m.fee_asset_id
        → is_lt (decimal_cmp out.amount m.fee_amount) ≡ false
        → (if taken then ok (false, m) else when_verified e (verify_address e address extra))
          ≡ ok result
        → Result result
    decided_taken result e true free known asset fee h = refused result h
    decided_taken result e false free known asset fee h =
        decided_verified result e (verify_address e address extra) refl known asset fee free h

    decided_with :
        (result : Bool × Machine) (found : Option State)
        → lookup platform m.engines ≡ found
        → out.asset_id ≡ m.fee_asset_id
        → is_lt (decimal_cmp out.amount m.fee_amount) ≡ false
        → add_with_engine m platform address out extra found ≡ ok result
        → Result result
    unfolding add_with_engine
    decided_with result none known asset fee h = refused result h
    decided_with result (some e) known asset fee h =
        decided_taken result e (is_taken m.processes out.sender address) refl known asset fee h

    -- The three guards in turn.
    decided :
        (pid : Bytes) (result : Bool × Machine) (other unpaid cheap : Bool)
        → not (beq pid out.sender) ≡ other
        → not (beq out.asset_id m.fee_asset_id) ≡ unpaid
        → is_lt (decimal_cmp out.amount m.fee_amount) ≡ cheap
        → (if other
            then ok (false, m)
            else if unpaid
            then ok (false, m)
            else if cheap
            then ok (false, m)
            else add_with_engine m platform address out extra (lookup platform m.engines))
          ≡ ok result
        → Decided m result pid platform address out extra
    decided pid result true unpaid cheap o u c h = unchanged pid result h
    decided pid result false true cheap o u c h = unchanged pid result h
    decided pid result false false true o u c h = unchanged pid result h
    decided pid result false false false o u c h =
        let same : pid ≡ out.sender = ground (arith, beq→eq pid out.sender) in
        subst (λ p. Decided m result p platform address out extra) (sym same)
          (decided_with result (lookup platform m.engines) refl
            (ground (arith, beq→eq out.asset_id m.fee_asset_id)) c h)

  -- A request for a process that does not make the machine panic either changes nothing, or is
  -- admitted: then it came from the process itself, paid the fee in the fee's asset, no other process
  -- has its identifier or address, the engine of its platform verified its address, and the new
  -- process with nonce zero is known to the machine and was started. The store holds it under the key
  -- of its identifier, or what it held there before if it held anything, and is unchanged under every
  -- other key.
  pub add_process-Decided :
      (m : Machine) (pid platform address : Bytes) (out : Output) (extra : Bytes)
      (result : Bool × Machine)
      → add_process m pid platform address out extra ≡ ok result
      → Decided m result pid platform address out extra
  unfolding add_process
  add_process-Decided m pid platform address out extra result h =
      decided m platform address out extra pid result _ _ _ refl refl refl h
