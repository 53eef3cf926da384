-- ===== src/Store/Events/Effects.antt =====
-- What each write of mvm/store/event.go did to the database, if it succeeded.
use trusted_group.Base.{
  ◌*◌, length-append, ℕ, ◌+◌, ◌%◌, ◌^◌, ◌≡◌, refl, Bytes, Bool, true, false, ◌==◌, not, length,
  List, [], ◌∷◌, ◌++◌, Option, none, some, uint64_bytes, arith, if◌then◌else◌, Bool-cases,
  Option-cases, All, ◌≢◌, inl, inr,
}
use trusted_group.Base.{ok, panic_if, >>=-eq-ok}
use trusted_group.External.{Integers, Database, Json}
use trusted_group.Encoding.{Event}
use trusted_group.Machine.Types.{Process}
use trusted_group.Store.Keys.{
  pending_event_identifier_key, pending_event_timed_key, pending_event_signatures_key,
  signed_event_timed_key, process_key,
}
use trusted_group.Store.Keys.Kinds.{pending_event_identifier-ne-process}
use trusted_group.Store.Events.{
  check_full_signature, is_full, join_signatures, write_pending_group_event_signatures,
  write_signed_group_event_and_expire_pending, write_pending_group_event_and_nonce,
}

abbrev pub joined : List Bytes → Bytes
joined [] = []
joined (p ∷ ps) = p ++ joined ps

abbrev pub ArePartials : List Bytes → Type 0
ArePartials = All (λ (p : Bytes). length p ≡ 66)

join_signatures-ok :
    (ps : List Bytes) (v : Bytes) → join_signatures ps ≡ ok v → (v ≡ joined ps) × ArePartials ps
unfolding join_signatures
join_signatures-ok [] v h = (ground arith, tt)
join_signatures-ok (p ∷ ps) v h =
    let (u, size, h₁) = >>=-eq-ok (panic_if (not (length p == 66))) _ h in
    let (rest, e, h₂) = >>=-eq-ok (join_signatures ps) _ h₁ in
    let (same, sizes) = join_signatures-ok ps rest e in (ground arith, (ground arith, sizes))

pub join_signatures_lem : (ps : List Bytes) → ArePartials ps → join_signatures ps ≡ ok (joined ps)
unfolding join_signatures
join_signatures_lem [] h = refl
join_signatures_lem (p ∷ ps) (h, hs) = rw (h, join_signatures_lem ps hs)

pub length-joined : (ps : List Bytes) → ArePartials ps → length (joined ps) ≡ 66 * length ps
length-joined [] h = refl
length-joined (p ∷ ps) (h, hs) = omega (arith, length-append p (joined ps), length-joined ps hs)

module _ ⦃database : Database⦄ where
  open database use {Db, get, set, delete}

  -- Whether an event is signed, as the database has it.
  abbrev pub signed_in : Db → Bytes → ℕ → Bool
  signed_in d pid n = is_full (get d (pending_event_signatures_key pid n))

  pub write_partials-ok :
      (d d' : Db) (pid : Bytes) (n : ℕ) (partials : List Bytes)
      → write_pending_group_event_signatures d pid n partials ≡ ok d'
      → (d' ≡ (
          if signed_in d pid n
          then d
          else set d (pending_event_signatures_key pid n) (joined partials)))
        × (signed_in d pid n ≡ false → ArePartials partials)
  unfolding write_pending_group_event_signatures
  write_partials-ok d d' pid n partials h = elim (Bool-cases (signed_in d pid n)) [
    | inl signed ↦ (ground arith, λ fresh. cc)
    | inr fresh ↦
        let (v, e, same) = written fresh in
        let (joins, sizes) = join_signatures-ok partials v e in (ground arith, λ _. sizes)
  ]
    where
      written :
          signed_in d pid n ≡ false
          → (v : Bytes) × (join_signatures partials ≡ ok v)
            × (d' ≡ set d (pending_event_signatures_key pid n) v)
      written fresh = ground arith

module _ ⦃ints : Integers⦄ ⦃database : Database⦄ ⦃event_json : Json Event⦄ where
  open database use {Db, get, set, delete}
  open event_json use {marshal}

  abbrev pub after_signed : Db → Event → Db
  after_signed d e =
      set
        (set (delete d (pending_event_timed_key e)) (pending_event_signatures_key e.process e.nonce)
          e.signature)
        (signed_event_timed_key e.process e.nonce) (marshal e)

  pub write_signed-ok :
      (d d' : Db) (e : Event)
      → write_signed_group_event_and_expire_pending d e ≡ ok d'
      → (check_full_signature e.signature ≡ true)
        × (d' ≡ (if signed_in d e.process e.nonce then d else after_signed d e))
  unfolding write_signed_group_event_and_expire_pending
  write_signed-ok d d' e h = (ground arith, ground arith)

module _ ⦃ints : Integers⦄ ⦃database : Database⦄ ⦃event_json : Json Event⦄
    ⦃process_json : Json Process⦄ where
  open database use {Db, get, set, delete, get-set}
  open event_json use {marshal}
  open process_json use {unmarshal}

  -- The process with the next nonce.
  abbrev pub advanced : Process → Process
  advanced p = record p { nonce = (p.nonce + 1) % 2 ^ 64 }

  abbrev pub after_nonce : Db → Event → Bytes → Process → Db
  after_nonce d e id p =
      set (set d (pending_event_identifier_key id) (uint64_bytes e.timestamp))
        (process_key p.identifier) (process_json.marshal (advanced p))

  -- The process as the database has it.
  abbrev pub process_in : Db → Bytes → Option Process
  process_in d pid = elim (get d (process_key pid)) [ none ↦ none | some b ↦ unmarshal b ]

  read_process-after :
      (d : Db) (id v pid : Bytes)
      → get (set d (pending_event_identifier_key id) v) (process_key pid) ≡ get d (process_key pid)
  read_process-after d id v pid = rw (get-set, pending_event_identifier-ne-process id pid)

  -- A successful write of a pending event found its process, whose nonce it was, and an unknown
  -- identifier.
  pub write_pending-ok :
      (d d' : Db) (e : Event) (id : Bytes)
      → write_pending_group_event_and_nonce d e id ≡ ok d'
      → (p : Process) × (process_in d e.process ≡ some p)
        × (p.nonce ≡ e.nonce)
        × (e.timestamp ≢ 0)
        × (d' ≡ (
            if signed_in (after_nonce d e id p) e.process e.nonce
            then after_nonce d e id p
            else set (after_nonce d e id p) (pending_event_timed_key e) (marshal e)))
  unfolding write_pending_group_event_and_nonce
  write_pending-ok d d' e id h = elim (Option-cases (process_in d e.process)) [
    | inl missing ↦
        absurd (ground (arith, read_process-after d id (uint64_bytes e.timestamp) e.process))
    | inr (p, found) ↦
        let same = read_process-after d id (uint64_bytes e.timestamp) e.process in
        (p, found, ground arith, ground arith, ground arith)
  ]
