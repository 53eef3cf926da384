-- ===== src/Contracts/Proxy/Nonces/Once.antt =====
-- `CheckNonce` of mvm/eos/contracts/mixinproxy/mixinproxy.go takes each nonce once.
use trusted_group.Base.{
  ℕ, ◌-◌, ◌^◌, ◌<◌, ◌≡◌, refl, sym, ◌∙◌, subst, ap, true, false, not, ◌==◌, ◌||◌, ltb, leb, length,
  Option, none, some, Option-cases, inl, inr, arith, Bool-cases, if◌then◌else◌, ok, ◌>>=◌,
  >>=-eq-ok, ok_injective,
}
use trusted_group.External.{Tables, Call}
use trusted_group.Contracts.{is_found, check->>, stored}
use trusted_group.Contracts.Proxy.{Proxy, key_nonce}
use trusted_group.Contracts.Proxy.Nonces.{
  nonce_or_first, get_nonce, store_nonce, advance, remove_stale, check_nonce,
}
use trusted_group.Contracts.Proxy.Nonces.Advance.{
  nonce_of, is_used, Notes, advance-Advanced, remove_stale_used, IsCurrent, remove_stale-IsCurrent,
}

module _ ⦃tables : Tables⦄ where
  open tables use {Rows, find, put, store, rows, find-put, store_new, rows_sound}

  -- The nonce was taken just now, and it was not before.
  pub record Taken (self n : ℕ) (p p' : Proxy) : Type 0 where
    pub fresh : is_used self p n ≡ false
    pub used : (m : ℕ) → is_used self p' m ≡ (is_used self p m || (n == m))

  -- The nonces are in range.
  pub record IsRanged (self : ℕ) (p : Proxy) : Type 0 where
    pub notes : Notes self p.submittedevs
    pub counter : nonce_of self p < 2 ^ 64

  -- The loops ran to their ends: the counter stands at a nonce that is not noted, and the first note
  -- that is left is not behind it.
  pub record Settled (self : ℕ) (p : Proxy) : Type 0 where
    pub awaited : find p.submittedevs self (nonce_of self p) ≡ none
    pub current : IsCurrent (nonce_of self p) (rows p.submittedevs self)

  not_found : {V : Type 0} (o : Option V) → is_found o ≡ false → o ≡ none
  unfolding is_found
  not_found none h = refl
  not_found (some v) h = cc

  get_nonce_lem :
      (call : Call) (p : Proxy)
      → (p' : Proxy) × (get_nonce call p ≡ ok (nonce_of call.receiver p, p'))
        × (nonce_of call.receiver p' ≡ nonce_of call.receiver p)
        × (p'.submittedevs ≡ p.submittedevs)
  unfolding get_nonce nonce_or_first
  get_nonce_lem call p = elim (Option-cases (find p.counters call.receiver key_nonce)) [
    | inl n ↦
        let r = put p.counters call.receiver key_nonce 1 in
        (
          record p { counters = r },
          rw (n, store_new p.counters call.receiver key_nonce 1 n) refl,
          rw (find-put, n) (ground arith),
          refl,
        )
    | inr (v, e) ↦ (p, rw e refl, refl, refl)
  ]

  -- The end of `CheckNonce`, from the note of the new nonce on.
  finish_check :
      (call : Call) (n : ℕ) (p : Proxy) (r : Rows ℕ)
      → r ≡ put p.submittedevs call.receiver n n
      → is_used call.receiver p n ≡ false
      → n < 2 ^ 64 - 1
      → IsRanged call.receiver p
      → (p' : Proxy) × ((do
        (nonce, p) ←
            advance call
              (length (rows r call.receiver))
              (nonce_of call.receiver p)
              (record p { submittedevs = r })
        let left = rows p.submittedevs call.receiver
        ok (record p {
          submittedevs = remove_stale (length left) left call.receiver nonce p.submittedevs;
        }))
          ≡ ok p')
        × Taken call.receiver n p p'
        × IsRanged call.receiver p'
        × Settled call.receiver p'
  unfolding is_found
  finish_check call n p r e fresh small range =
      let self = call.receiver in
      let p₁ = record p { submittedevs = r } in
      let there : (m : ℕ)
          → find r self m ≡ (if n == m then some n else find p.submittedevs self m) =
        λ m. rw (e, find-put p.submittedevs self n n self m) (ground arith) in
      let notes₁ : Notes self r = λ k v f. elim (Bool-cases (n == k)) [
        | inl b ↦ ground (arith, there k, small, f)
        | inr b ↦ range.notes k v (ground (arith, there k, f))
      ] in
      let a =
        advance-Advanced call (length (rows r self)) (nonce_of self p) p₁ refl notes₁ range.counter
          (omega arith) in
      let left = rows a.after.submittedevs self in
      let (notes₂, same) =
        remove_stale_used (length left) left self a.nonce a.after.submittedevs
          (rows_sound a.after.submittedevs self) a.moved.notes in
      let final = remove_stale (length left) left self a.nonce a.after.submittedevs in
      let still_free : is_found (find final self a.nonce) ≡ false =
        ground (arith, same a.nonce, ap is_found a.free) in
      (
        record a.after {
          submittedevs = remove_stale (length left) left self a.nonce a.after.submittedevs;
        },
        rw a.done refl,
        record {
          fresh = fresh;
          used = λ m.
              subst
                (λ c.
                  (ltb m c
                    || is_found (
                        find (remove_stale (length left) left self a.nonce a.after.submittedevs)
                          self m))
                  ≡ (ltb m c || is_found (find a.after.submittedevs self m)))
                a.current (same m)
              ∙ a.moved.same_used m
              ∙ ground (arith, there m);
        },
        record { notes = notes₂; counter = a.moved.range },
        record {
          awaited = subst (λ c. find final self c ≡ none) a.current (not_found _ still_free);
          current =
              subst (λ c. IsCurrent c (rows final self)) a.current
                (remove_stale-IsCurrent (length left) left self a.nonce a.after.submittedevs refl
                  (omega arith));
        },
      )

  -- `CheckNonce` succeeds on a new nonce below 2^64 - 1, one from the counter on that is not noted
  -- yet, of a proxy whose counter is below 2^64 and whose notes are below 2^64 - 1 and hold their own
  -- keys. It marks that nonce and no other as used, and keeps those ranges. Both of its loops run to
  -- their ends: the counter has moved to a nonce that is not noted, and the first note that is left,
  -- if any, is not behind it.
  pub check_nonce_fresh :
      (call : Call) (n : ℕ) (p : Proxy)
      → is_used call.receiver p n ≡ false
      → n < 2 ^ 64 - 1
      → IsRanged call.receiver p
      → (p' : Proxy) × (check_nonce call n p ≡ ok p')
        × Taken call.receiver n p p'
        × IsRanged call.receiver p'
        × Settled call.receiver p'
  unfolding check_nonce store_nonce is_found
  check_nonce_fresh call n p fresh small range =
      let self = call.receiver in
      let (p₁, got, same, notes) = get_nonce_lem call p in
      let free : find p₁.submittedevs self n ≡ none =
        rw notes (not_found (find p.submittedevs self n) (ground arith)) in
      let low : leb (nonce_of self p) n ≡ true = ground (arith, fresh) in
      let fresh₁ : is_used self p₁ n ≡ false = rw (same, notes) fresh in
      let r = put p₁.submittedevs self n n in
      let (p', done, taken, range', settled) =
        finish_check call n p₁ r refl fresh₁ small
          (record { notes = rw notes range.notes; counter = rw same range.counter }) in
      (
        p',
        rw (got, low, free, store_new p₁.submittedevs self n n free) (rw same at done),
        record { fresh = fresh; used = λ m. taken.used m ∙ rw (same, notes) refl },
        range',
        settled,
      )

  -- `CheckNonce` succeeds on a new nonce only, and marks it and no other as used.
  pub check_nonce-Taken :
      (call : Call) (n : ℕ) (p p' : Proxy)
      → n < 2 ^ 64 - 1
      → IsRanged call.receiver p
      → check_nonce call n p ≡ ok p'
      → Taken call.receiver n p p' × IsRanged call.receiver p'
  unfolding check_nonce store_nonce is_found
  check_nonce-Taken call n p p' small range h =
      let self = call.receiver in
      let (p₁, got, same, notes) = get_nonce_lem call p in
      let h₁ = rw got at h in
      let (low, h₂) = check->> (leb (nonce_of self p) n) _ h₁ in
      let (p₂, noted, _) = >>=-eq-ok (store_nonce call n p₁) _ h₂ in
      let (free, _) = check->> (not (is_found (find p₁.submittedevs self n))) _ noted in
      let fresh : is_used self p n ≡ false = ground (arith, rw notes at free, low) in
      let (p'', done, taken, range', _) = check_nonce_fresh call n p fresh small range in
      let whole : p'' ≡ p' = ok_injective (sym done ∙ h) in
      subst (λ s. Taken self n p s × IsRanged self s) whole (taken, range')

  -- `OnErrorEvent` notes a new nonce without moving the counter.
  pub noted-Taken :
      (call : Call) (n nonce : ℕ) (p p₁ p' : Proxy)
      → n < 2 ^ 64 - 1
      → IsRanged call.receiver p
      → get_nonce call p ≡ ok (nonce, p₁)
      → leb nonce n ≡ true
      → store_nonce call n p₁ ≡ ok p'
      → Taken call.receiver n p p' × IsRanged call.receiver p'
  unfolding store_nonce is_found
  noted-Taken call n nonce p p₁ p' small range got low noted =
      let self = call.receiver in
      let (q, got', same, notes) = get_nonce_lem call p in
      let pair : (nonce_of self p, q) ≡ (nonce, p₁) = ok_injective (sym got' ∙ got) in
      let e : q ≡ p₁ = ap (λ x. x.1) pair in
      let e' : nonce_of self p ≡ nonce = ap (λ x. x.0) pair in
      let same₁ : nonce_of self p₁ ≡ nonce_of self p =
        subst (λ x. nonce_of self x ≡ nonce_of self p) e same in
      let notes₁ : p₁.submittedevs ≡ p.submittedevs =
        subst (λ (x : Proxy). x.submittedevs ≡ p.submittedevs) e notes in
      let (free, h₁) = check->> (not (is_found (find p₁.submittedevs self n))) _ noted in
      let (r, s, h₂) = >>=-eq-ok (store p₁.submittedevs self n n) _ h₁ in
      let (_, made) = stored p₁.submittedevs r self n n s in
      let there : (m : ℕ)
          → find r self m ≡ (if n == m then some n else find p.submittedevs self m) =
        λ m. rw (made, find-put p₁.submittedevs self n n self m, notes₁) (ground arith) in
      let free' : is_found (find p.submittedevs self n) ≡ false =
        rw (sym notes₁) (ground (arith, free)) in
      subst (λ s. Taken self n p s × IsRanged self s) (ok_injective h₂)
        (
          record {
            fresh = ground (arith, free', low, e');
            used = λ m. rw (same₁, there m) (ground arith);
          },
          record {
            notes = λ k v f. elim (Bool-cases (n == k)) [
              | inl b ↦ ground (arith, there k, small, f)
              | inr b ↦ range.notes k v (ground (arith, there k, f))
            ];
            counter = rw same₁ range.counter;
          },
        )
