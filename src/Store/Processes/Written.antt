-- ===== src/Store/Processes/Written.antt =====
-- What `WriteProcess` of mvm/store/process.go leaves in the database.
use trusted_group.Base.{
  ◌≡◌, Bytes, false, beq, beq_refl, Option, none, some, Option-cases, inl, inr, arith, ok,
}
use trusted_group.External.{Integers, Database, Json}
use trusted_group.Machine.Types.{Process}
use trusted_group.Store.Keys.{process_key}
use trusted_group.Store.Processes.{write_process}

abbrev pub held_or {ℓ} : {A : Type ℓ} → Option A → A → A
held_or none a = a
held_or (some held) a = held

module _ ⦃ints : Integers⦄ ⦃database : Database⦄ ⦃json : Json Process⦄ where
  open database use {Db, get, get-set}
  open json use {marshal}

  -- The process is under its key, unless another one was; nothing else changes.
  pub record Written (d d' : Db) (p : Process) : Type 0 where
    pub held :
        get d' (process_key p.identifier)
        ≡ some (held_or (get d (process_key p.identifier)) (marshal p))
    pub others : (k : Bytes) → beq (process_key p.identifier) k ≡ false → get d' k ≡ get d k

  pub write_process-Written : (d d' : Db) (p : Process) → write_process d p ≡ ok d' → Written d d' p
  unfolding write_process
  write_process-Written d d' p h =
      let key = process_key p.identifier in
      elim (Option-cases (get d key)) [
        | inl e ↦ record {
          held = let kept = get-set d key (marshal p) key in ground (arith, beq_refl key);
          others = λ k apart. let kept = get-set d key (marshal p) k in ground arith;
        }
        | inr (old, e) ↦ record { held = ground arith; others = λ k apart. ground arith }
      ]
