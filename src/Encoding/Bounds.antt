-- ===== src/Encoding/Bounds.antt =====
-- The sizes that `Encode` of mvm/encoding/event.go lets through.
use trusted_group.Base.{
  ℕ, ◌≤◌, ◌≡◌, refl, Bytes, Bool, true, false, ltb, length, List, [], ◌∷◌, ◌++◌, arith, Option,
  none, some, if◌then◌else◌,
}
use trusted_group.Base.{Outcome, ok, err, panic, ◌>>=◌, panic_if, >>=-eq-ok, inl, inr, ◌⊎◌}
use trusted_group.External.{Integers, Wire}
use trusted_group.Encoding.{
  Event, encode_event, write_uuid, write_bytes, write_members, put_int, event_extra_max_size,
}

-- A call that returns a value or panics, and never an `error`.
abbrev pub NoError {ℓ} : {A : Type ℓ} → Outcome A → Type 0
NoError (ok a) = Unit
NoError (err e) = ⊥
NoError panic = Unit

NoError->>= {ℓ κ} :
    {A : Type ℓ} {B : Type κ} (x : Outcome A) (k : A → Outcome B)
    → NoError x
    → ((a : A) → NoError (k a))
    → NoError (x >>= k)
NoError->>= (ok a) k h hk = hk a
NoError->>= (err e) k h hk = absurd h
NoError->>= panic k h hk = tt

panic_if-NoError : (b : Bool) → NoError (panic_if b)
panic_if-NoError true = tt
panic_if-NoError false = tt

module _ ⦃ints : Integers⦄ ⦃wire : Wire⦄ where
  open wire use {write_uint64, write_integer, fits_int, uuid_from_string}

  put_int-NoError : (enc : Bytes) (n : ℕ) → NoError (put_int enc n)
  unfolding put_int
  put_int-NoError enc n =
      elim (fits_int n) as (λ b. NoError (if b then ok (enc ++ wire.write_int n) else panic)) [
        | true ↦ tt
        | false ↦ tt
      ]

  write_uuid-NoError : (enc id : Bytes) → NoError (write_uuid enc id)
  unfolding write_uuid
  write_uuid-NoError enc id = go (uuid_from_string id)
    where
      go :
          (found : Option wire.Uuid)
          → NoError (elim found [ none ↦ panic | some uid ↦ ok (enc ++ wire.uuid_bytes uid) ])
      go none = tt
      go (some uid) = tt

  write_bytes-NoError : (enc b : Bytes) → NoError (write_bytes enc b)
  unfolding write_bytes
  write_bytes-NoError enc b = go (ltb event_extra_max_size (length b))
    where
      go :
          (long : Bool)
          → NoError (if long then panic else (do enc' ← put_int enc (length b); ok (enc' ++ b)))
      go true = tt
      go false = NoError->>= (put_int enc (length b)) _ (put_int-NoError enc (length b)) (λ x. tt)

  write_members-NoError : (enc : Bytes) (ms : List Bytes) → NoError (write_members enc ms)
  unfolding write_members
  write_members-NoError enc [] = tt
  write_members-NoError enc (m ∷ ms) =
      NoError->>= (write_uuid enc m) _ (write_uuid-NoError enc m) (λ x. write_members-NoError x ms)

  encode_event-NoError : (e : Event) → NoError (encode_event e)
  unfolding encode_event
  encode_event-NoError e = NoError->>= (write_uuid [] e.process) _ (write_uuid-NoError _ _) (λ a.
      NoError->>= (write_uuid (a ++ write_uint64 e.nonce) e.asset) _ (write_uuid-NoError _ _) (λ b.
        NoError->>= (write_bytes (b ++ write_integer e.amount) e.extra) _ (write_bytes-NoError _ _)
          (λ c. NoError->>= (panic_if (ltb 64 (length e.members))) _ (panic_if-NoError _) (λ _.
            NoError->>= (put_int (c ++ write_uint64 e.timestamp) (length e.members)) _
              (put_int-NoError _ _)
              (λ d. NoError->>= (write_members d e.members) _ (write_members-NoError _ _) (λ f.
                NoError->>= (panic_if (ltb (length e.members) e.threshold)) _ (panic_if-NoError _)
                  (λ _.
                    NoError->>= (put_int f e.threshold) _ (put_int-NoError _ _)
                      (λ g. write_bytes-NoError g e.signature))))))))

  write_bytes-short : (enc b out : Bytes) → write_bytes enc b ≡ ok out → length b ≤ 256
  unfolding write_bytes
  write_bytes-short enc b out h = ground arith

  -- What an encoded event keeps to.
  pub record IsBounded (e : Event) : Type 0 where
    pub few_members : length e.members ≤ 64
    pub reachable : e.threshold ≤ length e.members
    pub extra_size : length e.extra ≤ 256
    pub signature_size : length e.signature ≤ 256

  encode_event-IsBounded : (e : Event) (b : Bytes) → encode_event e ≡ ok b → IsBounded e
  unfolding encode_event
  encode_event-IsBounded e b h =
      let (a₁, p₁, h₁) = >>=-eq-ok (write_uuid [] e.process) _ h in
      let (a₂, p₂, h₂) = >>=-eq-ok (write_uuid (a₁ ++ write_uint64 e.nonce) e.asset) _ h₁ in
      let (a₃, p₃, h₃) = >>=-eq-ok (write_bytes (a₂ ++ write_integer e.amount) e.extra) _ h₂ in
      let (u, p₄, h₄) = >>=-eq-ok (panic_if (ltb 64 (length e.members))) _ h₃ in
      let (a₅, p₅, h₅) =
        >>=-eq-ok (put_int (a₃ ++ write_uint64 e.timestamp) (length e.members)) _ h₄ in
      let (a₆, p₆, h₆) = >>=-eq-ok (write_members a₅ e.members) _ h₅ in
      let (v, p₇, h₇) = >>=-eq-ok (panic_if (ltb (length e.members) e.threshold)) _ h₆ in
      let (a₈, p₈, h₈) = >>=-eq-ok (put_int a₆ e.threshold) _ h₇ in
      record {
        few_members = ground arith;
        reachable = ground arith;
        extra_size = write_bytes-short _ e.extra a₃ p₃;
        signature_size = write_bytes-short a₈ e.signature b h₈;
      }

  -- The encoder returns bytes or panics, and it returns bytes only for an event of at most 64 members,
  -- with a threshold of at most their number, and an extra and a signature of at most 256 bytes.
  pub encode_event_bounds :
      (e : Event) → ((b : Bytes) × (encode_event e ≡ ok b) × IsBounded e) ⊎ (encode_event e ≡ panic)
  encode_event_bounds e = go (encode_event e) refl (encode_event-NoError e)
    where
      go :
          (result : Outcome Bytes)
          → encode_event e ≡ result
          → NoError result
          → ((b : Bytes) × (encode_event e ≡ ok b) × IsBounded e) ⊎ (encode_event e ≡ panic)
      go (ok b) h n = inl (b, h, encode_event-IsBounded e b h)
      go (err x) h n = absurd n
      go panic h n = inr h
